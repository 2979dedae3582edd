-- ===== src/EvMgr/Reach.antt =====
-- The managers that calls of src/sandbox/ev-mgr.c lead to.
use rp_lib_utils.Common.{ℕ, ◌+◌, ◌<◌, ◌^◌, ◌≡◌, some}
use rp_lib_utils.EvMgr.Model.{Mgr, Sys}
use rp_lib_utils.EvMgr.Timers.{TimerArgs, ev_mgr_add_timer, ev_timer_addref, ev_timer_unref}
use rp_lib_utils.EvMgr.Fds.{
  FdArgs, ev_mgr_add_fd, ev_fd_addref, ev_fd_unref, ev_fd_set_events, ev_fd_set_handler,
}
use rp_lib_utils.EvMgr.Prepares.{ev_mgr_add_prepare, ev_prepare_addref, ev_prepare_unref}
use rp_lib_utils.EvMgr.Loop.{
  Waited, Found, Rc, do_prepare, do_wait, ev_mgr_wakeup, do_dispatch, ev_mgr_run,
  ev_mgr_recover_run, ev_mgr_try_change_holder,
}
use rp_lib_utils.EvMgr.Lifetime.{
  Resources, Handle, ev_mgr_create, ev_mgr_addref, alive, ev_mgr_unref,
}

-- The time leaves room for a period of 32 bits.
abbrev pub IsEarly : ℕ → Type 0
IsEarly now = now + 2 ^ 32 < 2 ^ 64

-- A call that returns, whatever the system gives and the arguments are.
pub data Step (m : Mgr) : Mgr → Type 0 where
  adds_fd : (sys : Sys) (args : FdArgs) → Step m (ev_mgr_add_fd sys m args).1
  addrefs_fd : (id : ℕ) → Step m (ev_fd_addref id m)
  unrefs_fd : (sys : Sys) (id : ℕ) → Step m (ev_fd_unref sys id m)
  sets_events : (sys : Sys) (id events : ℕ) → Step m (ev_fd_set_events sys id events m)
  sets_handler : (id handler : ℕ) → Step m (ev_fd_set_handler id handler m)
  adds_timer :
      (sys : Sys) (now : ℕ) (args : TimerArgs)
      → args.period_ms < 2 ^ 32
      → Step m (ev_mgr_add_timer sys m now args).1
  addrefs_timer : (id : ℕ) → Step m (ev_timer_addref id m)
  unrefs_timer : (id : ℕ) → Step m (ev_timer_unref id m)
  adds_prepare : (sys : Sys) (id handler : ℕ) → Step m (ev_mgr_add_prepare sys m id handler).1
  addrefs_prepare : (id : ℕ) → Step m (ev_prepare_addref id m)
  unrefs_prepare : (id : ℕ) → Step m (ev_prepare_unref id m)
  prepares : (sys : Sys) (wakeup_ms : ℕ) → Step m (do_prepare sys wakeup_ms m).1
  waits : (w : Waited) → Step m (do_wait w m).1
  dispatches : (sys : Sys) (f : Found) {m' : Mgr} → do_dispatch sys f m ≡ some m' → Step m m'
  runs :
      (sys : Sys) (w : Waited) (f : Found) (rc : Rc) {m' : Mgr}
      → ev_mgr_run sys w f m ≡ some (rc, m')
      → Step m m'
  wakes_up : Step m (ev_mgr_wakeup m)
  recovers : Step m (ev_mgr_recover_run m)
  changes_holder : (holder next : ℕ) → Step m (ev_mgr_try_change_holder m holder next).1
  addrefs : Step m (ev_mgr_addref m)
  unrefs :
      (epollfd eventfd : ℕ) {m' : Mgr}
      → ev_mgr_unref (record { mgr = m; epollfd = epollfd; eventfd = eventfd }) ≡ alive m'
      → Step m m'

-- A manager that `ev_mgr_create` has made, behind any calls.
pub data Reach : Mgr → Type 0 where
  made :
      (sys : Resources) (h : Handle) {m : Mgr}
      → (ev_mgr_create sys).0 ≡ some h
      → m ≡ h.mgr
      → Reach m
  later : {m m' : Mgr} → Reach m → Step m m' → Reach m'
