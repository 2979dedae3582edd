-- ===== src/EvMgr/Due.antt =====
-- What `timer_dispatch` of src/sandbox/ev-mgr.c does to the list of timers.
use rp_lib_utils.Common.{
  ℕ, ◌+◌, ◌≡◌, refl, ap, ◌∙◌, arith, true, false, ◌&&◌, Bool-cases, inl, inr, List, [], ◌∷◌, All,
  Option, none, some,
}
use rp_lib_utils.EvMgr.Model.{Mgr, EvTimer, Action, calls_timer}
use rp_lib_utils.EvMgr.Timers.{
  is_due, Dispatched, put_timer, dispatch_timers, timer_dispatch, behind_calls,
}
use rp_lib_utils.EvMgr.Firing.{
  IsPeriodic, calls_left, budget, runs_forever, endless, counted_calls, due_calls, IsLater,
  due-active, fired_lem,
}

-- What a dispatch leaves.
record Dispatches (now : ℕ) (timers : List EvTimer) (r : Option Dispatched) : Type 0 where
  left : Dispatched
  is : r ≡ some left
  later : All (IsLater now) left.timers
  calls : left.calls ≡ due_calls now timers
  lasting : endless left.timers ≡ endless timers
  spent : counted_calls left.calls + budget left.timers ≡ budget timers

all_left : (t : EvTimer) → t.is_active ≡ true → calls_left t ≡ t.decount
all_left t a = rw a refl

none_left :
    (t : EvTimer)
    → (t.is_active && t.is_deleted) ≡ false
    → t.is_deleted ≡ true
    → (calls_left t ≡ 0) × (runs_forever t ≡ 0)
none_left t g e = elim (Bool-cases t.is_active) [ inl a ↦ absurd (cc) | inr a ↦ rw a (refl, refl) ]

-- A timer in front of a list: kept unless it is deleted.
put_timer_lem :
    (now : ℕ) (t : EvTimer) (d : Dispatched)
    → is_due now t ≡ false
    → (t.is_active && t.is_deleted) ≡ false
    → All (IsLater now) d.timers
    → All (IsLater now) (put_timer t d).timers
      × (budget (put_timer t d).timers ≡ calls_left t + budget d.timers)
      × ((put_timer t d).calls ≡ d.calls)
      × (endless (put_timer t d).timers ≡ runs_forever t + endless d.timers)
put_timer_lem now t d h g l = elim (Bool-cases t.is_deleted) [
  | inl e ↦ rw e (l, omega (arith, (none_left t g e).0), refl, omega (arith, (none_left t g e).1))
  | inr e ↦ rw e (((h, refl), l), refl, refl, refl)
]

dispatch_timers_lem :
    (now : ℕ) (timers : List EvTimer)
    → All (IsPeriodic now) timers
    → Dispatches now timers (dispatch_timers now timers)
unfolding dispatch_timers
dispatch_timers_lem now [] p = record {
  left = record { timers = []; calls = [] };
  is = refl;
  later = tt;
  calls = refl;
  lasting = refl;
  spent = refl;
}
dispatch_timers_lem now (t ∷ timers) (p, ps) =
    let rest = dispatch_timers_lem now timers ps in
    elim (Bool-cases (is_due now t)) [
      | inl h ↦
          let f = fired_lem now t p h in
          let (l, b, c, k) =
            put_timer_lem now f.timer rest.left f.down.later f.down.gone rest.later in
          record {
            left = record (put_timer f.timer rest.left) {
              calls = calls_timer t.id t.decount ∷ rest.left.calls;
            };
            is = rw (h, f.is, rest.is) refl;
            later = l;
            calls = rw h (ap (λ (l : List Action). calls_timer t.id t.decount ∷ l) rest.calls);
            lasting = omega (arith, k, f.down.forever, rest.lasting);
            spent = omega (arith, b, f.down.left, rest.spent, all_left t (due-active now t h).0);
          }
      | inr h ↦
          let (l, b, c, k) = put_timer_lem now t rest.left h p.2 rest.later in
          record {
            left = put_timer t rest.left;
            is = rw (h, rest.is) refl;
            later = l;
            calls = rw h (c ∙ rest.calls);
            lasting = omega (arith, k, rest.lasting);
            spent = omega (arith, b, ap counted_calls c, rest.spent);
          }
    ]

-- `timer_dispatch` ends, and calls the handler of each timer that is due
-- once, in the order of the list. Behind it, no timer left is due or deleted, and the calls that are
-- left to the timers that count them are as many fewer as were made; as many timers as before are
-- called without an end. (Periods are positive and the
-- next times are numbers of 64 bits; a deleted timer is not active.)
pub timer_dispatch-due :
    (now : ℕ) (m : Mgr)
    → All (IsPeriodic now) m.timers
    → (m' : Mgr) × (timer_dispatch now m ≡ some m')
      × All (IsLater now) m'.timers
      × (m'.actions ≡ behind_calls (due_calls now m.timers) m.actions)
      × (counted_calls (due_calls now m.timers) + budget m'.timers ≡ budget m.timers)
      × (endless m'.timers ≡ endless m.timers)
unfolding timer_dispatch
timer_dispatch-due now m p =
    let d = dispatch_timers_lem now m.timers p in
    (
      record m {
        timers = d.left.timers;
        actions = behind_calls (due_calls now m.timers) m.actions;
      },
      ap
            (λ (o : Option Dispatched). elim o [
              | none ↦ none
              | some r ↦
                  some (record m { timers = r.timers; actions = behind_calls r.calls m.actions })
            ])
            d.is
          ∙ ap
              (λ (calls : List Action).
                some (record m { timers = d.left.timers; actions = behind_calls calls m.actions }))
              d.calls,
      d.later,
      refl,
      omega (arith, d.spent, ap counted_calls d.calls),
      d.lasting,
    )
