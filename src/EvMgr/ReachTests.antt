-- ===== src/EvMgr/ReachTests.antt =====
-- A manager of src/sandbox/ev-mgr.c behind some calls, and concrete cases of the theorems on such.
use rp_lib_utils.Common.{Option, none, List, ◌≡◌, refl, arith, true, false, [], ◌∷◌, All, some}
use rp_lib_utils.EvMgr.Model.{pending, the_fd, EvFd, closes, ctl_add, Mgr, the_timer}
use rp_lib_utils.EvMgr.Timers.{
  narrowed, timers_cleanup, serve, slice_of, middle, settime, create_timerfd, timer_arm, timer_set,
  TimerArgs, ev_mgr_add_timer, kept_timers,
}
use rp_lib_utils.EvMgr.Fds.{
  new_fd, fd_dispatch, efds_cleanup, efds_prepare, prepare_fds, prepared_fd, kept_fds, FdArgs,
  ev_mgr_add_fd, ev_fd_unref, find_fd, unref_fd, replace_fd, dead_fd,
}
use rp_lib_utils.EvMgr.Prepares.{preparers_cleanup, preparers_prepare, call_preparers}
use rp_lib_utils.EvMgr.Lone.{Lone, gone, faults, unref_lone_fd}
use rp_lib_utils.EvMgr.Loop.{
  Found, do_wait, dispatched, do_cleanup, Rc, finds, is_preparable, do_prepare, do_dispatch,
  ev_mgr_run,
}
use rp_lib_utils.EvMgr.Lifetime.{
  ev_mgr_addref, Unreffed, alive, freed, ev_mgr_unref, Resources, fresh_mgr, ev_mgr_create,
}
use rp_lib_utils.EvMgr.Reach.{prepares, waits, Reach, made, later, adds_fd, unrefs_fd, adds_timer}
use rp_lib_utils.EvMgr.States.{IsThere}
use rp_lib_utils.EvMgr.Safe.{IsSound}
use rp_lib_utils.EvMgr.Reachable.{RunEnds, Reach-IsSound, Reach-returns, Reach-prepared}
use rp_lib_utils.EvMgr.Tests.{all_well}

-- A manager that is made, to which a descriptor and a timer are added; the descriptor is dropped.
abbrev resources : Resources
resources = record { calloc = true; epoll_create1 = some 3; eventfd = some 4; epoll_ctl = true }

abbrev first_mgr : Mgr
first_mgr = record fresh_mgr { actions = ctl_add (some 4) 1 ∷ [] }

first_handle :
    (ev_mgr_create resources).0 ≡ some (record { mgr = first_mgr; epollfd = 3; eventfd = 4 })
unfolding ev_mgr_create
first_handle = refl

abbrev fd_args : FdArgs
fd_args = record {
  id = 1;
  fd = some 5;
  events = 1;
  handler = 1;
  autounref = false;
  autoclose = true;
}

abbrev timer_args : TimerArgs
timer_args = record {
  id = 2;
  handler = 2;
  start = 0;
  count = 0;
  period_ms = 0;
  accuracy_ms = 0;
  auto_unref = false;
  garbage = 1;
}

abbrev with_fd : Mgr
with_fd = (ev_mgr_add_fd all_well first_mgr fd_args).1

abbrev with_timer : Mgr
with_timer = (ev_mgr_add_timer all_well with_fd 1000 timer_args).1

abbrev dropped : Mgr
dropped = ev_fd_unref all_well 1 with_timer

dropped-Reach : Reach dropped
dropped-Reach =
    later
      (later
        (later
          (made resources (record { mgr = first_mgr; epollfd = 3; eventfd = 4 }) first_handle refl)
          (adds_fd all_well fd_args))
        (adds_timer all_well 1000 timer_args (omega arith)))
      (unrefs_fd all_well 1)

dropped-preparable : is_preparable dropped.state ≡ true
unfolding ev_mgr_create ev_mgr_add_fd ev_mgr_add_timer ev_fd_unref find_fd unref_fd replace_fd
    dead_fd timer_set timers_cleanup timer_arm create_timerfd settime slice_of serve narrowed middle
    kept_timers
dropped-preparable = refl

Reach-IsSound_example : IsSound dropped
Reach-IsSound_example = Reach-IsSound dropped-Reach

-- A manager whose descriptor has an event: it is dropped and cleaned up before the dispatch.
abbrev awaited : Mgr
awaited = (do_wait (finds (the_fd 1) 1) (do_prepare all_well 2000 with_fd).1).1

abbrev awaited_found : Found
awaited_found = record { now = 1250; count = some 1 }

awaited-Reach : Reach awaited
awaited-Reach =
    later
      (later
        (later
          (made resources (record { mgr = first_mgr; epollfd = 3; eventfd = 4 }) first_handle refl)
          (adds_fd all_well fd_args))
        (prepares all_well 2000))
      (waits (finds (the_fd 1) 1))

awaited-IsThere : awaited.state ≡ pending → IsThere awaited.event.0 awaited.efds
unfolding do_wait do_prepare do_cleanup preparers_cleanup preparers_prepare call_preparers
    efds_cleanup efds_prepare prepare_fds prepared_fd ev_mgr_add_fd timer_set timers_cleanup
    timer_arm create_timerfd settime slice_of serve narrowed middle kept_timers find_fd kept_fds
awaited-IsThere e = (record (new_fd fd_args) { is_set = true }, refl)

Reach-returns_example :
    ((m' : Mgr) × (do_dispatch all_well awaited_found awaited ≡ some m'))
    × ((rc : Rc) × (m' : Mgr) × (ev_mgr_run all_well (finds the_timer 1) awaited_found awaited
          ≡ some (rc, m'))
        × RunEnds awaited rc m')
Reach-returns_example =
    Reach-returns all_well (finds the_timer 1) awaited_found awaited-Reach (omega arith)
      awaited-IsThere tt

-- A cleanup between the wait and the dispatch frees the descriptor that the event points to.
abbrev cleaned : Unreffed
cleaned =
    ev_mgr_unref
      (record { mgr = ev_fd_unref all_well 1 (ev_mgr_addref awaited); epollfd = 3; eventfd = 4 })

abbrev dispatched_behind : Unreffed → Option Mgr
dispatched_behind (alive m) = do_dispatch all_well awaited_found m
dispatched_behind (freed efds timers preparers actions) = some first_mgr

freed_is_used : dispatched_behind cleaned ≡ none
unfolding ev_mgr_unref ev_mgr_addref ev_fd_unref unref_fd dead_fd replace_fd fd_dispatch do_dispatch
    dispatched do_wait do_prepare do_cleanup preparers_cleanup preparers_prepare call_preparers
    efds_cleanup efds_prepare prepare_fds prepared_fd ev_mgr_add_fd timer_set timers_cleanup
    timer_arm create_timerfd settime slice_of serve narrowed middle kept_timers find_fd kept_fds
freed_is_used = refl

Reach-prepared_example : All (λ f. f.is_deleted ≡ false) (do_prepare all_well 2000 dropped).1.efds
Reach-prepared_example = Reach-prepared all_well 2000 dropped-Reach dropped-preparable

-- What the last references do to the descriptors that a manager leaves behind.
abbrev left_over : Unreffed → List (Lone EvFd)
left_over (alive m) = []
left_over (freed [] timers preparers actions) = []
left_over (freed (f ∷ efds) timers preparers actions) =
    unref_lone_fd f ∷ left_over (freed efds timers preparers actions)

-- Once it is prepared, and so watched, a descriptor must not outlive its manager.
watched_faults :
    left_over (
      ev_mgr_unref
        (record { mgr = (do_prepare all_well 2000 with_fd).1; epollfd = 3; eventfd = 4 }))
    ≡ faults ∷ []
unfolding ev_mgr_unref do_prepare do_cleanup preparers_cleanup preparers_prepare call_preparers
    efds_cleanup efds_prepare prepare_fds prepared_fd ev_mgr_add_fd timer_set timers_cleanup
    timer_arm create_timerfd settime slice_of serve narrowed middle kept_timers unref_lone_fd
    kept_fds
watched_faults = refl

unwatched_closes :
    left_over (ev_mgr_unref (record { mgr = with_fd; epollfd = 3; eventfd = 4 }))
    ≡ gone (closes 5 ∷ []) ∷ []
unfolding ev_mgr_unref do_cleanup preparers_cleanup efds_cleanup ev_mgr_add_fd timers_cleanup
    kept_timers unref_lone_fd kept_fds
unwatched_closes = refl
