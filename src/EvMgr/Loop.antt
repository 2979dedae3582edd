-- ===== src/EvMgr/Loop.antt =====
-- The loop of src/sandbox/ev-mgr.c.
use rp_lib_utils.Common.{
  ℕ, ◌+◌, ◌*◌, ◌/◌, ◌%◌, ◌^◌, Bool, true, false, Option, none, some, ◌==◌, if◌then◌else◌,
}
use rp_lib_utils.EvMgr.Model.{
  State, idle, preparing, ready, waiting, pending, dispatching, Target, the_timer, the_manager,
  the_fd, wakes, reads_wakeup, Mgr, Sys, does, time_ms_max,
}
use rp_lib_utils.EvMgr.Timers.{timers_cleanup, timer_set, timer_event}
use rp_lib_utils.EvMgr.Fds.{efds_prepare, efds_cleanup, fd_dispatch}
use rp_lib_utils.EvMgr.Prepares.{preparers_cleanup, preparers_prepare}

unfoldable pub do_cleanup : Mgr → Mgr
do_cleanup m = preparers_cleanup (timers_cleanup (efds_cleanup m))

-- What a function returns: 0, a positive number, `X_ENOTSUP`, `X_EINTR` or another error.
pub data Rc : Type 0 where
  zero_rc found unsupported interrupted failed : Rc

abbrev pub is_preparable : State → Bool
is_preparable idle = true
is_preparable ready = true
is_preparable preparing = false
is_preparable waiting = false
is_preparable pending = false
is_preparable dispatching = false

abbrev pub to_rc : Bool → Rc
to_rc ok = if ok then zero_rc else failed

-- The result of `timer_set` is ignored.
unfoldable pub do_prepare : Sys → ℕ → Mgr → Rc × Mgr
do_prepare sys wakeup_ms m =
    let clean = preparers_prepare (do_cleanup (record m { state = preparing })) in
    let (ok, set) = efds_prepare sys (timer_set sys clean wakeup_ms).1 in
    if is_preparable m.state then (to_rc ok, record set { state = ready }) else (unsupported, m)

-- What `epoll_wait` gives: an error, nothing, or an event.
pub data Waited : Type 0 where
  fails timeouts : Waited
  finds : Target → ℕ → Waited

-- The manager's own descriptor: a call of `ev_mgr_wakeup`.
abbrev pub waited : Waited → Mgr → Rc × Mgr
waited fails m = (failed, record m { event = (m.event.0, 0); state = idle })
waited timeouts m = (zero_rc, record m { event = (m.event.0, 0); state = idle })
waited (finds the_manager events) m =
    (interrupted, does reads_wakeup (record m { event = (the_manager, 0); state = idle }))
waited (finds the_timer events) m =
    (found, record m { event = (the_timer, events); state = pending })
waited (finds (the_fd id) events) m =
    (found, record m { event = (the_fd id, events); state = pending })

unfoldable pub do_wait : Waited → Mgr → Rc × Mgr
do_wait w m = elim m.state [
  | ready ↦ waited w m
  | idle ↦ (unsupported, m)
  | preparing ↦ (unsupported, m)
  | waiting ↦ (unsupported, m)
  | pending ↦ (unsupported, m)
  | dispatching ↦ (unsupported, m)
]

-- `ev_mgr_wakeup`: its event ends the wait.
unfoldable pub ev_mgr_wakeup : Mgr → Mgr
ev_mgr_wakeup m = does wakes m

-- What a dispatch finds: the time, and what reading the timer gives.
pub record Found : Type 0 where
  pub now : ℕ
  pub count : Option ℕ

-- `none` where it does not return, or uses a descriptor that is freed.
unfoldable pub dispatched : Sys → Found → Target → ℕ → Mgr → Option Mgr
dispatched sys f the_timer events m = timer_event f.count f.now m
dispatched sys f the_manager events m = some m
dispatched sys f (the_fd id) events m = fd_dispatch sys id events m

abbrev pub idled : Option Mgr → Option Mgr
idled none = none
idled (some m) = some (record m { state = idle })

unfoldable pub do_dispatch : Sys → Found → Mgr → Option Mgr
do_dispatch sys f m = elim m.state [
  | pending ↦ idled (dispatched sys f m.event.0 m.event.1 (record m { state = dispatching }))
  | idle ↦ some m
  | preparing ↦ some m
  | ready ↦ some m
  | waiting ↦ some m
  | dispatching ↦ some m
]

unfoldable pub ev_mgr_try_change_holder : Mgr → ℕ → ℕ → ℕ × Mgr
ev_mgr_try_change_holder m holder next =
    if m.holder == holder then (next, record m { holder = next }) else (m.holder, m)

-- What `clock_gettime` gives: seconds and nanoseconds.
abbrev pub now_ms : ℕ → ℕ → ℕ
now_ms sec nsec = (sec * 1000 + nsec / 1000000) % 2 ^ 64

abbrev pub ev_mgr_holder : Mgr → ℕ
ev_mgr_holder m = m.holder

unfoldable pub ev_mgr_prepare : Sys → Mgr → Rc × Mgr
ev_mgr_prepare sys m = do_prepare sys time_ms_max m

-- A wakeup from now on, or none where it is negative.
unfoldable pub ev_mgr_prepare_with_wakeup : Sys → ℕ → Option ℕ → Mgr → Rc × Mgr
ev_mgr_prepare_with_wakeup sys now none m = do_prepare sys time_ms_max m
ev_mgr_prepare_with_wakeup sys now (some wakeup_ms) m =
    do_prepare sys ((now + wakeup_ms) % 2 ^ 64) m

unfoldable pub ev_mgr_wait : Waited → Mgr → Rc × Mgr
ev_mgr_wait w m = do_wait w m

unfoldable pub ev_mgr_dispatch : Sys → Found → Mgr → Option Mgr
ev_mgr_dispatch sys f m = do_dispatch sys f m

abbrev pub result : Rc → Option Mgr → Option (Rc × Mgr)
result rc none = none
result rc (some m) = some (rc, m)

-- `if (rc > 0) do_dispatch(mgr);`
abbrev pub run_waited : Sys → Found → Rc × Mgr → Option (Rc × Mgr)
run_waited sys f (found, m) = result found (do_dispatch sys f m)
run_waited sys f (zero_rc, m) = some (zero_rc, m)
run_waited sys f (unsupported, m) = some (unsupported, m)
run_waited sys f (interrupted, m) = some (interrupted, m)
run_waited sys f (failed, m) = some (failed, m)

-- `if (rc >= 0)`
abbrev pub run_prepared : Sys → Waited → Found → Rc × Mgr → Option (Rc × Mgr)
run_prepared sys w f (zero_rc, m) = run_waited sys f (do_wait w m)
run_prepared sys w f (found, m) = run_waited sys f (do_wait w m)
run_prepared sys w f (unsupported, m) = some (unsupported, m)
run_prepared sys w f (interrupted, m) = some (interrupted, m)
run_prepared sys w f (failed, m) = some (failed, m)

unfoldable pub ev_mgr_run : Sys → Waited → Found → Mgr → Option (Rc × Mgr)
ev_mgr_run sys w f m = run_prepared sys w f (do_prepare sys time_ms_max m)

unfoldable pub ev_mgr_can_run : Mgr → Bool
ev_mgr_can_run m = elim m.state [
  | idle ↦ true
  | preparing ↦ false
  | ready ↦ false
  | waiting ↦ false
  | pending ↦ false
  | dispatching ↦ false
]

unfoldable pub ev_mgr_recover_run : Mgr → Mgr
ev_mgr_recover_run m = record m { state = idle }
