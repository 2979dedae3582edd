-- ===== src/EvMgr/Safe.antt =====
-- What holds of a manager of src/sandbox/ev-mgr.c between calls.
use rp_lib_utils.Common.{either, ℕ, ◌≡◌, refl, ap, ◌∙◌, Bool, true, false, All, Option, none, some}
use rp_lib_utils.EvMgr.Model.{
  State, idle, preparing, ready, waiting, pending, dispatching, Target, the_timer, the_manager,
  the_fd, Mgr, Sys, time_ms_max,
}
use rp_lib_utils.EvMgr.Timers.{timer_set}
use rp_lib_utils.EvMgr.Fds.{efds_prepare}
use rp_lib_utils.EvMgr.Prepares.{preparers_prepare}
use rp_lib_utils.EvMgr.Loop.{
  do_cleanup, Rc, zero_rc, found, unsupported, interrupted, failed, is_preparable, to_rc,
  do_prepare, Waited, fails, timeouts, finds, waited, do_wait, Found, dispatched, idled,
  do_dispatch, result, run_waited, run_prepared, ev_mgr_run,
}
use rp_lib_utils.EvMgr.Sound.{
  IsSoundTimer, IsSoundFd, IsKeptFd, IsKeptFd-IsSoundFd, At, prepared-At,
}
use rp_lib_utils.EvMgr.FdSound.{Ends, fd_dispatch-Ends}
use rp_lib_utils.EvMgr.TimerSound.{timer_event-Ends}

abbrev pub is_rest : State → Bool
is_rest idle = true
is_rest ready = true
is_rest pending = true
is_rest preparing = false
is_rest waiting = false
is_rest dispatching = false

-- A manager between calls: it rests, and its timers and descriptors are sound.
pub record IsSound (m : Mgr) : Type 0 where
  pub rest : is_rest m.state ≡ true
  pub timers : All IsSoundTimer m.timers
  pub efds : All (IsSoundFd m.efds_cleanup) m.efds

pub settled : (s : State) (m : Mgr) → is_rest s ≡ true → At IsSoundFd s m → IsSound m
settled s m r a = record { rest = ap is_rest a.state ∙ r; timers = a.timers; efds = a.efds }

pub IsSound-At : (m : Mgr) → IsSound m → At IsSoundFd m.state m
IsSound-At m v = record { state = refl; timers = v.timers; efds = v.efds }

-- Where a manager is given it is between calls.
abbrev pub Given : Option Mgr → Type 0
Given none = Unit
Given (some m) = IsSound m

abbrev pub Returned : Option (Rc × Mgr) → Type 0
Returned none = Unit
Returned (some (rc, m)) = IsSound m

pub kept_sound : (s : State) (m : Mgr) → At IsKeptFd s m → At IsSoundFd s m
kept_sound s m a = record {
  state = a.state;
  timers = a.timers;
  efds = IsKeptFd-IsSoundFd m.efds_cleanup m.efds a.efds;
}

pub do_prepare-IsSound : (sys : Sys) (w : ℕ) (m : Mgr) → IsSound m → IsSound (do_prepare sys w m).1
unfolding do_prepare
do_prepare-IsSound sys w m v =
    let (ok, set) =
      efds_prepare sys
        (timer_set sys (preparers_prepare (do_cleanup (record m { state = preparing }))) w).1 in
    either (λ (r : Rc × Mgr). IsSound r.1) (is_preparable m.state)
      (to_rc ok, record set { state = ready }) (unsupported, m)
      (settled ready (record set { state = ready }) refl
        (kept_sound ready (record set { state = ready })
          (prepared-At m.state sys w m (IsSound-At m v))))
      v

-- No descriptor is deleted behind a preparation.
pub do_prepare-IsKeptFd :
    (sys : Sys) (w : ℕ) (m : Mgr)
    → is_preparable m.state ≡ true
    → IsSound m
    → All (λ f. f.is_deleted ≡ false) (do_prepare sys w m).1.efds
unfolding do_prepare
do_prepare-IsKeptFd sys w m p v = rw p (prepared-At m.state sys w m (IsSound-At m v)).efds

waited-IsSound : (w : Waited) (m : Mgr) → IsSound m → IsSound (waited w m).1
waited-IsSound fails m v = record { rest = refl; timers = v.timers; efds = v.efds }
waited-IsSound timeouts m v = record { rest = refl; timers = v.timers; efds = v.efds }
waited-IsSound (finds the_manager events) m v = record {
  rest = refl;
  timers = v.timers;
  efds = v.efds;
}
waited-IsSound (finds the_timer events) m v = record {
  rest = refl;
  timers = v.timers;
  efds = v.efds;
}
waited-IsSound (finds (the_fd id) events) m v = record {
  rest = refl;
  timers = v.timers;
  efds = v.efds;
}

pub do_wait-IsSound : (w : Waited) (m : Mgr) → IsSound m → IsSound (do_wait w m).1
unfolding do_wait
do_wait-IsSound w m v = go m.state
  where
    go :
        (s : State)
        → IsSound
            (elim s as (λ q. Rc × Mgr) [
              | ready ↦ waited w m
              | idle ↦ (unsupported, m)
              | preparing ↦ (unsupported, m)
              | waiting ↦ (unsupported, m)
              | pending ↦ (unsupported, m)
              | dispatching ↦ (unsupported, m)
            ]).1
    go ready = waited-IsSound w m v
    go idle = v
    go preparing = v
    go waiting = v
    go pending = v
    go dispatching = v

idled-Given : (o : Option Mgr) → Ends dispatching o → Given (idled o)
idled-Given none a = tt
idled-Given (some m) a = record { rest = refl; timers = a.timers; efds = a.efds }

dispatched-Ends :
    (sys : Sys) (f : Found) (target : Target) (events : ℕ) (m : Mgr)
    → At IsSoundFd dispatching m
    → Ends dispatching (dispatched sys f target events m)
unfolding dispatched
dispatched-Ends sys f the_timer events m a = timer_event-Ends dispatching f.count f.now m a
dispatched-Ends sys f the_manager events m a = a
dispatched-Ends sys f (the_fd id) events m a = fd_dispatch-Ends dispatching sys id events m a

pub do_dispatch-Given : (sys : Sys) (f : Found) (m : Mgr) → IsSound m → Given (do_dispatch sys f m)
unfolding do_dispatch
do_dispatch-Given sys f m v = go m.state
  where
    start : Mgr
    start = record m { state = dispatching }

    go :
        (s : State)
        → Given (elim s as (λ q. Option Mgr) [
          | pending ↦
              idled (dispatched sys f m.event.0 m.event.1 (record m { state = dispatching }))
          | idle ↦ some m
          | preparing ↦ some m
          | ready ↦ some m
          | waiting ↦ some m
          | dispatching ↦ some m
        ])
    go pending = idled-Given (dispatched sys f m.event.0 m.event.1 start) (
        dispatched-Ends sys f m.event.0 m.event.1 start
          (record { state = refl; timers = v.timers; efds = v.efds }))
    go idle = v
    go preparing = v
    go ready = v
    go waiting = v
    go dispatching = v

result-Returned : (rc : Rc) (o : Option Mgr) → Given o → Returned (result rc o)
result-Returned rc none v = tt
result-Returned rc (some m) v = v

run_waited-Returned :
    (sys : Sys) (f : Found) (r : Rc × Mgr) → IsSound r.1 → Returned (run_waited sys f r)
run_waited-Returned sys f (found, m) v =
    result-Returned found (do_dispatch sys f m) (do_dispatch-Given sys f m v)
run_waited-Returned sys f (zero_rc, m) v = v
run_waited-Returned sys f (unsupported, m) v = v
run_waited-Returned sys f (interrupted, m) v = v
run_waited-Returned sys f (failed, m) v = v

run_prepared-Returned :
    (sys : Sys) (w : Waited) (f : Found) (r : Rc × Mgr)
    → IsSound r.1
    → Returned (run_prepared sys w f r)
run_prepared-Returned sys w f (zero_rc, m) v =
    run_waited-Returned sys f (do_wait w m) (do_wait-IsSound w m v)
run_prepared-Returned sys w f (found, m) v =
    run_waited-Returned sys f (do_wait w m) (do_wait-IsSound w m v)
run_prepared-Returned sys w f (unsupported, m) v = v
run_prepared-Returned sys w f (interrupted, m) v = v
run_prepared-Returned sys w f (failed, m) v = v

pub ev_mgr_run-Returned :
    (sys : Sys) (w : Waited) (f : Found) (m : Mgr) → IsSound m → Returned (ev_mgr_run sys w f m)
unfolding ev_mgr_run
ev_mgr_run-Returned sys w f m v =
    run_prepared-Returned sys w f (do_prepare sys time_ms_max m)
      (do_prepare-IsSound sys time_ms_max m v)
