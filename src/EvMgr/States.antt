-- ===== src/EvMgr/States.antt =====
-- The states of the event manager of src/sandbox/ev-mgr.c.
use mathlib.Core.Path.{subst}
use rp_lib_utils.Common.{
  List, either, ℕ, ◌≡◌, refl, ap, sym, Bool, true, false, ◌⊎◌, inl, inr, All, Option, none, some,
  ltb,
}
use rp_lib_utils.EvMgr.Model.{
  EvFd, EvTimer, State, idle, preparing, ready, dispatching, Target, the_timer, the_manager, the_fd,
  Mgr, Sys, time_ms_max,
}
use rp_lib_utils.EvMgr.Timers.{kept_timers, timers_cleanup, timer_set, timer_dispatch, timer_event}
use rp_lib_utils.EvMgr.Fds.{
  find_fd, dispatch_fd, fd_dispatch, kept_fds, prepare_fds, efds_prepare, efds_cleanup,
}
use rp_lib_utils.EvMgr.Prepares.{
  kept_preparers, call_preparers, preparers_cleanup, preparers_prepare,
}
use rp_lib_utils.EvMgr.Loop.{
  do_cleanup, Rc, zero_rc, found, unsupported, interrupted, failed, is_preparable, do_prepare,
  Waited, fails, timeouts, finds, waited, do_wait, Found, dispatched, idled, do_dispatch, result,
  run_waited, run_prepared, ev_mgr_run,
}
use rp_lib_utils.EvMgr.Sound.{kept_timers-All}
use rp_lib_utils.EvMgr.Arming.{wakeup, timer_arm-Armed}
use rp_lib_utils.EvMgr.Firing.{IsPeriodic}
use rp_lib_utils.EvMgr.Due.{timer_dispatch-due}

-- What holds of all timers holds of those that are kept.
module _ (P : EvTimer → Type 0) where
  timers_cleanup-All : (m : Mgr) → All P m.timers → All P (timers_cleanup m).timers
  unfolding timers_cleanup
  timers_cleanup-All m h =
      either (λ (m : Mgr). All P m.timers) m.timers_cleanup
        (record m { timers_cleanup = false; timers = kept_timers m.timers }) m
        (kept_timers-All P m.timers h) h

  timer_set-All :
      (sys : Sys) (m : Mgr) (upper : ℕ) → All P m.timers → All P (timer_set sys m upper).1.timers
  unfolding timer_set
  timer_set-All sys m upper h =
      let clean = timers_cleanup m in
      subst (All P) (sym (timer_arm-Armed sys clean (wakeup upper clean.timers)).same)
        (timers_cleanup-All m h)

  efds_cleanup-All : (m : Mgr) → All P m.timers → All P (efds_cleanup m).timers
  unfolding efds_cleanup
  efds_cleanup-All m h =
      let (kept, calls) = kept_fds m.efds m.actions in
      either (λ (m : Mgr). All P m.timers) m.efds_cleanup
        (record m { efds = kept; actions = calls; efds_cleanup = false }) m h h

  preparers_cleanup-All : (m : Mgr) → All P m.timers → All P (preparers_cleanup m).timers
  unfolding preparers_cleanup
  preparers_cleanup-All m h =
      either (λ (m : Mgr). All P m.timers) m.preparers_cleanup
        (record m { preparers_cleanup = false; preparers = kept_preparers m.preparers }) m h h

  efds_prepare-All : (sys : Sys) (m : Mgr) → All P m.timers → All P (efds_prepare sys m).1.timers
  unfolding efds_prepare
  efds_prepare-All sys m h =
      let p = prepare_fds sys m.efds m.actions in
      either (λ (r : Bool × Mgr). All P r.1.timers) m.efds_changed
        (p.ok, record m { efds = p.efds; actions = p.actions; efds_changed = false }) (true, m) h h

  prepared-All :
      (sys : Sys) (w : ℕ) (m : Mgr)
      → All P m.timers
      → All P
          (efds_prepare sys
            (timer_set sys
              (preparers_prepare (do_cleanup (record m { state = preparing })))
              w).1).1.timers
  unfolding do_cleanup preparers_prepare
  prepared-All sys w m h =
      let start = record m { state = preparing } in
      let fds = efds_cleanup start in
      let clean = preparers_cleanup (timers_cleanup fds) in
      efds_prepare-All sys
        (timer_set sys (record clean { actions = call_preparers clean.preparers clean.actions })
          w).1
        (timer_set-All sys (record clean { actions = call_preparers clean.preparers clean.actions })
          w
          (preparers_cleanup-All (timers_cleanup fds)
            (timers_cleanup-All fds (efds_cleanup-All start h))))

-- The descriptor that an event points to is one of these.
abbrev pub IsThere : Target → List EvFd → Type 0
IsThere the_timer efds = Unit
IsThere the_manager efds = Unit
IsThere (the_fd id) efds = (f : EvFd) × (find_fd id efds ≡ some f)

-- `epoll_wait` finds no descriptor but one of these.
abbrev pub IsWaited : Waited → List EvFd → Type 0
IsWaited fails efds = Unit
IsWaited timeouts efds = Unit
IsWaited (finds target events) efds = IsThere target efds

pub fd_dispatch-returns :
    (sys : Sys) (id events : ℕ) (m : Mgr)
    → IsThere (the_fd id) m.efds
    → (m' : Mgr) × (fd_dispatch sys id events m ≡ some m')
unfolding fd_dispatch
fd_dispatch-returns sys id events m (f, e) = (
  dispatch_fd sys f events m,
  ap
      (λ (o : Option EvFd). elim o as (λ q. Option Mgr) [
        | none ↦ none
        | some g ↦ some (dispatch_fd sys g events m)
      ])
      e,
)

-- What `do_prepare` leaves where it is supported.
record Readied (now : ℕ) (r : Rc × Mgr) : Type 0 where
  is_ready : r.1.state ≡ ready
  periodic : All (IsPeriodic now) r.1.timers
  rc : (r.0 ≡ zero_rc) ⊎ (r.0 ≡ failed)

do_prepare-Readied :
    (sys : Sys) (w now : ℕ) (m : Mgr)
    → is_preparable m.state ≡ true
    → All (IsPeriodic now) m.timers
    → Readied now (do_prepare sys w m)
unfolding do_prepare
do_prepare-Readied sys w now m s h =
    let (ok, set) =
      efds_prepare sys
        (timer_set sys (preparers_prepare (do_cleanup (record m { state = preparing }))) w).1 in
    rw s (record {
      is_ready = refl;
      periodic = prepared-All (IsPeriodic now) sys w m h;
      rc =
          either (λ (r : Rc). (r ≡ zero_rc) ⊎ (r ≡ failed)) ok zero_rc failed (inl refl) (inr refl);
    })

-- The event of the timer is handled.
pub timer_event-returns :
    (count : Option ℕ) (now : ℕ) (m : Mgr)
    → All (IsPeriodic now) m.timers
    → (m' : Mgr) × (timer_event count now m ≡ some m')
unfolding timer_event
timer_event-returns none now m h = (m, refl)
timer_event-returns (some count) now m h =
    let (m', e, _, _, _, _) = timer_dispatch-due now m h in
    either (λ (o : Option Mgr). (m' : Mgr) × (o ≡ some m')) (ltb 0 count) (timer_dispatch now m)
      (some m) (m', e) (m, refl)

do_wait-ready :
    (w : Waited) (m : Mgr) → m.state ≡ ready → do_wait w m ≡ waited w (record m { state = ready })
unfolding do_wait
do_wait-ready w m e = ap (λ (s : State). do_wait w (record m { state = s })) e

-- A run that has come to its end.
record Ran (o : Option (Rc × Mgr)) : Type 0 where
  rc : Rc
  left : Mgr
  is : o ≡ some (rc, left)
  rest : (left.state ≡ idle) ⊎ ((rc ≡ failed) × (left.state ≡ ready))

run_waited-Ran :
    (sys : Sys) (f : Found) (w : Waited) (m : Mgr)
    → All (IsPeriodic f.now) m.timers
    → IsWaited w m.efds
    → Ran (run_waited sys f (waited w m))
unfolding do_dispatch dispatched
run_waited-Ran sys f fails m h there = record {
  rc = failed;
  left = (waited fails m).1;
  is = refl;
  rest = inl refl;
}
run_waited-Ran sys f timeouts m h there = record {
  rc = zero_rc;
  left = (waited timeouts m).1;
  is = refl;
  rest = inl refl;
}
run_waited-Ran sys f (finds the_manager events) m h there = record {
  rc = interrupted;
  left = (waited (finds the_manager events) m).1;
  is = refl;
  rest = inl refl;
}
run_waited-Ran sys f (finds the_timer events) m h there =
    let start = record m { event = (the_timer, events); state = dispatching } in
    let (m', e) = timer_event-returns f.count f.now start h in
    record {
      rc = found;
      left = record m' { state = idle };
      is = ap (λ (o : Option Mgr). result found (idled o)) e;
      rest = inl refl;
    }
run_waited-Ran sys f (finds (the_fd id) events) m h there =
    let start = record m { event = (the_fd id, events); state = dispatching } in
    let (m', e) = fd_dispatch-returns sys id events start there in
    record {
      rc = found;
      left = record m' { state = idle };
      is = ap (λ (o : Option Mgr). result found (idled o)) e;
      rest = inl refl;
    }

run_prepared-Ran :
    (sys : Sys) (w : Waited) (f : Found) (r : Rc × Mgr)
    → Readied f.now r
    → IsWaited w r.1.efds
    → Ran (run_prepared sys w f r)
run_prepared-Ran sys w f (rc, m) h there = elim h.rc [
  | inl e ↦
      subst (λ (rc : Rc). Ran (run_prepared sys w f (rc, m))) (sym e)
        (subst (λ (r : Rc × Mgr). Ran (run_waited sys f r)) (sym (do_wait-ready w m h.is_ready))
          (run_waited-Ran sys f w (record m { state = ready }) h.periodic there))
  | inr e ↦
      subst (λ (rc : Rc). Ran (run_prepared sys w f (rc, m))) (sym e)
        (record { rc = failed; left = m; is = refl; rest = inr (refl, h.is_ready) })
]

-- `ev_mgr_run` returns from a manager that is idle or ready, whatever `epoll_wait` and the calls of
-- the system give, and leaves it idle, or ready where the preparation failed: it can be run again.
-- (Periods are positive and the next times are numbers of 64 bits; a deleted timer is not active; `epoll_wait` finds no
-- descriptor but one that the manager has behind its preparation.)
pub ev_mgr_run-rests :
    (sys : Sys) (w : Waited) (f : Found) (m : Mgr)
    → is_preparable m.state ≡ true
    → All (IsPeriodic f.now) m.timers
    → IsWaited w (do_prepare sys time_ms_max m).1.efds
    → (rc : Rc) × (m' : Mgr) × (ev_mgr_run sys w f m ≡ some (rc, m'))
      × ((m'.state ≡ idle) ⊎ ((rc ≡ failed) × (m'.state ≡ ready)))
unfolding ev_mgr_run
ev_mgr_run-rests sys w f m s h there =
    let ran =
      run_prepared-Ran sys w f (do_prepare sys time_ms_max m)
        (do_prepare-Readied sys time_ms_max f.now m s h) there in
    (ran.rc, ran.left, ran.is, ran.rest)

-- In any other state, as when a handler calls it, `ev_mgr_run` returns an error and leaves the
-- manager as it was.
pub ev_mgr_run-unsupported :
    (sys : Sys) (w : Waited) (f : Found) (m : Mgr)
    → is_preparable m.state ≡ false
    → ev_mgr_run sys w f m ≡ some (unsupported, m)
unfolding ev_mgr_run do_prepare
ev_mgr_run-unsupported sys w f m s = rw s refl
