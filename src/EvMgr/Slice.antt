-- ===== src/EvMgr/Slice.antt =====
-- When the timer of src/sandbox/ev-mgr.c is to expire.
use mathlib.Core.Path.{subst}
use rp_lib_utils.Common.{
  ℕ, ◌+◌, ◌<◌, ◌≤◌, ◌/◌, ◌%◌, ◌^◌, ◌≡◌, refl, ap, sym, ◌∙◌, arith, Bool, true, false, not, ◌&&◌,
  ◌||◌, Bool-cases, ◌⊎◌, inl, inr, List, [], ◌∷◌, All, leb, ◌==◌,
}
use rp_lib_utils.EvMgr.Model.{EvTimer}
use rp_lib_utils.EvMgr.Timers.{Slice, narrowed, serve, slice_of, middle}
use rp_lib_utils.EvMgr.Narrowing.{Fits, Cut, narrowed-Cut}

-- An active timer starts in 1 or later, and ends below 2^63.
abbrev pub IsCalm : EvTimer → Type 0
IsCalm t = t.is_active ≡ true → (0 < t.next_ms) × (t.next_ms + t.accuracy_ms < 2 ^ 63)

-- An active timer is served until `n`.
abbrev pub Served : ℕ → EvTimer → Type 0
Served n t = t.is_active ≡ true → n ≤ t.next_ms + t.accuracy_ms

-- An active timer starts until `n`.
abbrev pub starts_by : ℕ → List EvTimer → Bool
starts_by n [] = false
starts_by n (t ∷ timers) = (t.is_active && leb t.next_ms n) || starts_by n timers

-- What a step makes of a slice.
record Step (s : Slice) (t : EvTimer) (s' : Slice) : Type 0 where
  fits : Fits s'
  less : s'.upper ≤ s.upper
  served : Served s'.upper t
  kept : 0 < s.lower → 0 < s'.lower
  from : (s'.lower ≡ s.lower) ⊎ ((t.is_active ≡ true) × (s'.lower ≡ t.next_ms))

-- A step with a timer that starts in the slice, and one with another timer.
serve-narrowed :
    (s : Slice) (t : EvTimer)
    → (t.is_active && leb t.next_ms s.upper) ≡ true
    → (t.is_active ≡ true)
      × (leb t.next_ms s.upper ≡ true)
      × (serve s t ≡ narrowed s t.next_ms ((t.next_ms + t.accuracy_ms) % 2 ^ 64))
unfolding serve
serve-narrowed s t h = elim (Bool-cases t.is_active) [
  | inr a ↦ absurd (cc)
  | inl a ↦ elim (Bool-cases (leb t.next_ms s.upper)) [
    | inl l ↦ (a, l, rw (a, l) refl)
    | inr l ↦ absurd (cc)
  ]
]

serve-same :
    (s : Slice) (t : EvTimer) → (t.is_active && leb t.next_ms s.upper) ≡ false → serve s t ≡ s
unfolding serve
serve-same s t h = elim (Bool-cases t.is_active) [
  | inr a ↦ rw a refl
  | inl a ↦ elim (Bool-cases (leb t.next_ms s.upper)) [
    | inl l ↦ absurd (cc)
    | inr l ↦ rw (a, l) refl
  ]
]

-- The timer starts behind the slice.
late :
    (t : EvTimer) (n : ℕ)
    → (t.is_active && leb t.next_ms n) ≡ false
    → t.is_active ≡ true
    → n ≤ t.next_ms + t.accuracy_ms
late t n h a = elim (Bool-cases (leb t.next_ms n)) [
  | inl l ↦ absurd (cc)
  | inr l ↦ ground (arith, l)
]

serve-Cut :
    (s : Slice) (t : EvTimer)
    → Fits s
    → IsCalm t
    → (t.is_active && leb t.next_ms s.upper) ≡ true
    → (t.is_active ≡ true) × Cut s t.next_ms (t.next_ms + t.accuracy_ms) (serve s t)
serve-Cut s t f c h =
    let (a, l, e) = serve-narrowed s t h in
    let up : ℕ = t.next_ms + t.accuracy_ms in
    (
      a,
      subst (Cut s t.next_ms up) (sym (e ∙ ap (narrowed s t.next_ms) (omega (arith, (c a).1))))
          (narrowed-Cut s t.next_ms up f (c a).0 (omega arith) (c a).1 (ground (arith, l))),
    )

serve-Step : (s : Slice) (t : EvTimer) → Fits s → IsCalm t → Step s t (serve s t)
serve-Step s t f c = elim (Bool-cases (t.is_active && leb t.next_ms s.upper)) [
  | inl h ↦
      let (a, cut) = serve-Cut s t f c h in
      record {
        fits = cut.fits;
        less = cut.less;
        served = λ b. cut.served;
        kept = λ k. cut.started;
        from = elim cut.from [ inl e ↦ inl e | inr e ↦ inr (a, e) ];
      }
  | inr h ↦ subst (Step s t) (sym (serve-same s t h)) (record {
    fits = f;
    less = omega arith;
    served = late t s.upper h;
    kept = λ k. k;
    from = inl refl;
  })
]

-- What the whole list makes of a slice.
pub record Steps (s : Slice) (timers : List EvTimer) (s' : Slice) : Type 0 where
  pub fits : Fits s'
  pub less : s'.upper ≤ s.upper
  pub served : All (Served s'.upper) timers
  pub kept : 0 < s.lower → 0 < s'.lower
  pub from : (s'.lower ≡ s.lower) ⊎ (starts_by s'.lower timers ≡ true)
  pub none_starts : s.lower ≡ 0 → (s'.lower == 0) ≡ not (starts_by s.upper timers)

pub or_right : (a : Bool) {b : Bool} → b ≡ true → (a || b) ≡ true
or_right true e = refl
or_right false e = e

by_start :
    (t : EvTimer) (timers : List EvTimer) (n : ℕ)
    → t.is_active ≡ true
    → n ≡ t.next_ms
    → ((t.is_active && leb t.next_ms n) || starts_by n timers) ≡ true
by_start t timers n a e = ground (arith, a, e)

is_pos : (n : ℕ) → 0 < n → (n == 0) ≡ false
is_pos n h = ground (arith, h)

pub slice_of-Steps :
    (timers : List EvTimer) (s : Slice)
    → Fits s
    → All IsCalm timers
    → Steps s timers (slice_of s timers)
unfolding slice_of
slice_of-Steps [] s f c = record {
  fits = f;
  less = omega arith;
  served = tt;
  kept = λ k. k;
  from = inl refl;
  none_starts = λ e. ground (arith, e);
}
slice_of-Steps (t ∷ timers) s f (c, cs) =
    let step = serve-Step s t f c in
    let last = slice_of (serve s t) timers in
    let steps = slice_of-Steps timers (serve s t) step.fits cs in
    record {
      fits = steps.fits;
      less = omega (arith, steps.less, step.less);
      served = (λ a. omega (arith, steps.less, step.served a), steps.served);
      kept = λ k. steps.kept (step.kept k);
      from = elim steps.from [
        | inr e ↦ inr (or_right (t.is_active && leb t.next_ms last.lower) e)
        | inl e ↦ elim step.from [
          | inl e' ↦ inl (e ∙ e')
          | inr (a, e') ↦ inr (by_start t timers last.lower a (e ∙ e'))
        ]
      ];
      none_starts = λ z. elim (Bool-cases (t.is_active && leb t.next_ms s.upper)) [
        | inl h ↦
            is_pos last.lower (steps.kept (serve-Cut s t f c h).1.started)
            ∙ ap (λ (b : Bool). not (b || starts_by s.upper timers)) (sym h)
        | inr h ↦
            let same = serve-same s t h in
            steps.none_starts (ap (λ (q : Slice). q.lower) same ∙ z)
            ∙ ap (λ (q : Slice). not (starts_by q.upper timers)) same
            ∙ ap (λ (b : Bool). not (b || starts_by s.upper timers)) (sym h)
      ];
    }

pub middle-between :
    (s : Slice)
    → Fits s
    → ((s.lower == 0) ≡ (middle s == 0)) × (middle s ≤ s.upper) × (s.lower ≤ middle s)
unfolding middle
middle-between s f = elim (Bool-cases (s.lower == 0)) [
  | inl z ↦ (rw z refl, rw z (omega arith), rw z (ground (arith, z)))
  | inr z ↦ (
    rw z (sym (is_pos ((s.lower + s.upper) % 2 ^ 64 / 2) (ground (arith, z, f.ordered, f.small)))),
    rw z (omega (arith, f.ordered, f.small)),
    rw z (omega (arith, f.ordered, f.small)),
  )
]

pub starts_by-Served :
    (timers : List EvTimer) (n m : ℕ) → m ≤ n → All (Served n) timers → All (Served m) timers
starts_by-Served [] n m h c = tt
starts_by-Served (t ∷ timers) n m h (c, cs) =
    (λ a. omega (arith, h, c a), starts_by-Served timers n m h cs)

pub starts_by-later :
    (timers : List EvTimer) (n m : ℕ)
    → n ≤ m
    → starts_by n timers ≡ true
    → starts_by m timers ≡ true
starts_by-later [] n m h e = e
starts_by-later (t ∷ timers) n m h e = elim (Bool-cases (t.is_active && leb t.next_ms n)) [
  | inl k ↦ ground (arith, k, h)
  | inr k ↦ or_right (t.is_active && leb t.next_ms m) (starts_by-later timers n m h (cc))
]
