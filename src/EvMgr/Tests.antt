-- ===== src/EvMgr/Tests.antt =====
-- Runs of the event manager, and concrete cases of its theorems.
use rp_lib_utils.Common.{ℕ, ◌+◌, ◌≡◌, refl, arith, true, false, [], ◌∷◌, All, some, ◌==◌}
use rp_lib_utils.EvMgr.Model.{EvFd, EvTimer, ctl_add, calls_timer, Mgr, Sys}
use rp_lib_utils.EvMgr.Timers.{
  narrowed, timers_cleanup, serve, slice_of, middle, settime, create_timerfd, timer_arm, timer_set,
  timer_dispatch, behind_calls,
}
use rp_lib_utils.EvMgr.Slice.{IsCalm}
use rp_lib_utils.EvMgr.Arming.{Timed, timer_set-Timed}
use rp_lib_utils.EvMgr.Firing.{IsPeriodic, IsLater, budget, endless}
use rp_lib_utils.EvMgr.Due.{timer_dispatch-due}
use rp_lib_utils.EvMgr.Fds.{efds_prepare, efds_cleanup}
use rp_lib_utils.EvMgr.Watching.{IsPrepared, efds_prepare-Prepared}
use rp_lib_utils.EvMgr.Lifetime.{fresh_mgr}
use rp_lib_utils.EvMgr.Closing.{closed_times, owners, efds_cleanup-closes}

abbrev pub all_well : Sys
all_well = record {
  malloc = true;
  epoll_ctl = λ action. true;
  timerfd_create = some 7;
  timerfd_settime = true;
}

-- A timer that is called twice, and one without an end.
abbrev twice : EvTimer
twice = record {
  id = 1;
  handler = 1;
  next_ms = 1000;
  accuracy_ms = 10;
  period_ms = 100;
  decount = 2;
  refcount = 1;
  is_active = true;
  is_deleted = false;
  auto_unref = false;
}

abbrev forever : EvTimer
forever = record twice { id = 2; next_ms = 1005; accuracy_ms = 100; decount = 0 }

abbrev timed : Mgr
timed = record fresh_mgr { timers = twice ∷ forever ∷ [] }

timed-IsCalm : All IsCalm (timers_cleanup timed).timers
unfolding timers_cleanup
timed-IsCalm = ((λ e. (omega arith, omega arith)), ((λ e. (omega arith, omega arith)), tt))

timed_set : (timer_set all_well timed 2000).0 ≡ true
unfolding timer_set timers_cleanup timer_arm create_timerfd settime slice_of serve narrowed middle
timed_set = refl

-- The middle of the time in which both can be served.
timed_when : (timer_set all_well timed 2000).1.last_timer ≡ 1007
unfolding timer_set timers_cleanup timer_arm create_timerfd settime slice_of serve narrowed middle
timed_when = refl

timer_set-Timed_example :
    Timed 2000 (timer_set all_well timed 2000).1.timers (timer_set all_well timed 2000).1.last_timer
timer_set-Timed_example = timer_set-Timed all_well timed 2000 (omega arith) timed-IsCalm timed_set

timed-IsPeriodic : All (IsPeriodic 1250) timed.timers
timed-IsPeriodic = ((omega arith, omega arith, refl), ((omega arith, omega arith, refl), tt))

timer_dispatch-due_example :
    (m' : Mgr) × (timer_dispatch 1250 timed ≡ some m')
    × All (IsLater 1250) m'.timers
    × (m'.actions ≡ behind_calls (calls_timer 1 2 ∷ calls_timer 2 0 ∷ []) [])
    × (1 + budget m'.timers ≡ 2)
    × (endless m'.timers ≡ 1)
timer_dispatch-due_example = timer_dispatch-due 1250 timed timed-IsPeriodic

-- A new descriptor, and one that is deleted but still watched.
abbrev new : EvFd
new = record {
  id = 1;
  handler = 1;
  fd = some 5;
  events = 1;
  refcount = 1;
  is_active = true;
  is_set = false;
  has_changed = false;
  is_deleted = false;
  auto_close = true;
  auto_unref = false;
}

abbrev deleted : EvFd
deleted = record new { id = 2; fd = some 6; is_active = false; is_set = true; is_deleted = true }

abbrev watching : Mgr
watching = record fresh_mgr {
  efds = new ∷ deleted ∷ [];
  efds_changed = true;
  efds_cleanup = true;
  actions = ctl_add (some 6) 1 ∷ [];
}

five_ne_six : (n : ℕ) → (5 == n) ≡ true → (6 == n) ≡ false
five_ne_six n e = ground (arith, e)

efds_prepare-Prepared_example :
    All
      (IsPrepared (efds_prepare all_well watching).1.actions)
      (efds_prepare all_well watching).1.efds
efds_prepare-Prepared_example =
    efds_prepare-Prepared all_well watching refl
      ((λ n e c. rw (five_ne_six n e) refl), ((λ n e c. rw e refl), tt))
      ((five_ne_six, tt), (tt, tt))

efds_cleanup-closes_example :
    ((efds_cleanup watching).efds ≡ new ∷ [])
    × (closed_times 6 (efds_cleanup watching).actions ≡ 1)
    × (owners 6 (efds_cleanup watching).efds ≡ 0)
efds_cleanup-closes_example = efds_cleanup-closes watching 6 refl
