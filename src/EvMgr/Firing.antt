-- ===== src/EvMgr/Firing.antt =====
-- What `timer_dispatch` of src/sandbox/ev-mgr.c does to the timers.
use rp_lib_utils.Common.{
  ℕ, zero, suc, ◌+◌, ◌-◌, ◌<◌, ◌≤◌, ◌%◌, ◌^◌, ◌≡◌, refl, ap, arith, true, false, ◌&&◌, Bool-cases,
  inl, inr, List, [], ◌∷◌, Option, none, some, leb, ◌==◌, if◌then◌else◌,
}
use rp_lib_utils.EvMgr.Model.{EvTimer, Action, calls_timer}
use rp_lib_utils.EvMgr.Timers.{advance, counted_down, is_due, fired}

-- The time behind `now` that a call advances to.
advance_lem :
    (fuel now period next : ℕ)
    → 0 < period
    → now + period < 2 ^ 64
    → next ≤ now
    → now < next + fuel
    → (n : ℕ) × (advance fuel now period next ≡ some n) × (now < n) × (n ≤ now + period)
unfolding advance
advance_lem zero now period next p b h f = absurd (omega arith)
advance_lem (suc fuel) now period next p b h f =
    let n : ℕ = (next + period) % 2 ^ 64 in
    elim (Bool-cases (leb n now)) [
      | inl t ↦
          let (k, e, l, u) =
            advance_lem fuel now period n p b (ground (arith, t)) (omega (arith, p, b, h, f)) in
          (k, rw t e, l, u)
      | inr t ↦ (n, rw t refl, ground (arith, t), omega (arith, b, h))
    ]

-- A timer has a period, its next time behind `now` is a number of 64 bits, and it is not active once
-- it is deleted.
abbrev pub IsPeriodic : ℕ → EvTimer → Type 0
IsPeriodic now t =
    (0 < t.period_ms) × (now + t.period_ms < 2 ^ 64) × ((t.is_active && t.is_deleted) ≡ false)

-- The calls that are left to a timer that counts them.
abbrev pub calls_left : EvTimer → ℕ
calls_left t = if t.is_active then t.decount else 0

abbrev pub budget : List EvTimer → ℕ
budget [] = 0
budget (t ∷ timers) = calls_left t + budget timers

-- How many timers are called without an end.
abbrev pub runs_forever : EvTimer → ℕ
runs_forever t = if t.is_active && t.decount == 0 then 1 else 0

abbrev pub endless : List EvTimer → ℕ
endless [] = 0
endless (t ∷ timers) = runs_forever t + endless timers

-- The calls of timers that count them.
abbrev pub counted : Action → ℕ
counted (calls_timer id decount) = if decount == 0 then 0 else 1
counted action = 0

abbrev pub counted_calls : List Action → ℕ
counted_calls [] = 0
counted_calls (call ∷ calls) = counted call + counted_calls calls

-- A call of each timer that is due, in the order of the list.
abbrev pub due_calls : ℕ → List EvTimer → List Action
due_calls now [] = []
due_calls now (t ∷ timers) =
    if is_due now t then calls_timer t.id t.decount ∷ due_calls now timers else due_calls now timers

-- The timer is kept, and not called at `now`.
abbrev pub IsLater : ℕ → EvTimer → Type 0
IsLater now t = (is_due now t ≡ false) × (t.is_deleted ≡ false)

pub record Down (now : ℕ) (t t' : EvTimer) : Type 0 where
  pub later : is_due now t' ≡ false
  pub left : counted (calls_timer t.id t.decount) + calls_left t' ≡ t.decount
  pub gone : (t'.is_active && t'.is_deleted) ≡ false
  pub forever : runs_forever t' ≡ runs_forever t

counted_down-Down :
    (now : ℕ) (t : EvTimer)
    → now < t.next_ms
    → t.is_active ≡ true
    → (t.is_active && t.is_deleted) ≡ false
    → Down now t (counted_down t)
unfolding counted_down
counted_down-Down now t h a g = elim (Bool-cases (t.decount == 0)) [
  | inl z ↦ rw z (record {
    later = ground (arith, h, a);
    left = ground (arith, z, a);
    gone = g;
    forever = refl;
  })
  | inr z ↦ rw z (elim (Bool-cases (t.decount - 1 == 0)) [
    | inl o ↦ rw o (elim (Bool-cases t.auto_unref) [
      | inl u ↦ rw u (record {
        later = refl;
        left = ground (arith, z, o);
        gone = refl;
        forever = ground (arith, z);
      })
      | inr u ↦ rw u (record {
        later = refl;
        left = ground (arith, z, o);
        gone = refl;
        forever = ground (arith, z);
      })
    ])
    | inr o ↦ rw o (record {
      later = ground (arith, h, a);
      left = ground (arith, z, o, a);
      gone = g;
      forever = ground (arith, z, o, a);
    })
  ])
]

-- What a call leaves of a timer that was due.
pub record Fired (now : ℕ) (t : EvTimer) : Type 0 where
  pub timer : EvTimer
  pub is : fired now t ≡ some timer
  pub down : Down now t timer

pub due-active :
    (now : ℕ) (t : EvTimer) → is_due now t ≡ true → (t.is_active ≡ true) × (t.next_ms ≤ now)
due-active now t h = elim (Bool-cases t.is_active) [
  | inr a ↦ absurd (cc)
  | inl a ↦ elim (Bool-cases (leb t.next_ms now)) [
    | inl l ↦ (a, ground (arith, l))
    | inr l ↦ absurd (cc)
  ]
]

pub fired_lem : (now : ℕ) (t : EvTimer) → IsPeriodic now t → is_due now t ≡ true → Fired now t
fired_lem now t (p, b, g) h =
    let (a, l) = due-active now t h in
    let (n, e, u, v) = advance_lem (now + 1) now t.period_ms t.next_ms p b l (omega arith) in
    record { timer = counted_down (record t { next_ms = n }); is = is n e; down = down n u a }
  where
    is :
        (n : ℕ)
        → advance (now + 1) now t.period_ms t.next_ms ≡ some n
        → fired now t ≡ some (counted_down (record t { next_ms = n }))
    is n e =
        unfold fired in
        ap
          (λ (o : Option ℕ). elim o [
            | none ↦ none
            | some next ↦ some (counted_down (record t { next_ms = next }))
          ])
          e

    down :
        (n : ℕ)
        → now < n
        → t.is_active ≡ true
        → Down now t (counted_down (record t { next_ms = n }))
    down n u a =
        let d = counted_down-Down now (record t { next_ms = n }) u a g in
        record { later = d.later; left = d.left; gone = d.gone; forever = d.forever }
