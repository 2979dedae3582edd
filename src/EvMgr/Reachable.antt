-- ===== src/EvMgr/Reachable.antt =====
-- What holds of every manager that calls of src/sandbox/ev-mgr.c lead to.
use mathlib.Core.Path.{subst}
use rp_lib_utils.Common.{
  either, ℕ, ◌≡◌, refl, ap, sym, arith, Bool, true, false, Bool-cases, inl, inr, ◌⊎◌, List, [], ◌∷◌,
  All, Option, some, ◌==◌,
}
use rp_lib_utils.EvMgr.Model.{
  EvTimer, EvPrepare, State, idle, preparing, ready, waiting, pending, dispatching, Target,
  the_timer, the_manager, the_fd, Mgr, Sys, time_ms_max,
}
use rp_lib_utils.EvMgr.Prepares.{ev_mgr_add_prepare, ev_prepare_addref, ev_prepare_unref}
use rp_lib_utils.EvMgr.Loop.{
  Rc, unsupported, failed, is_preparable, do_prepare, Waited, ev_mgr_wakeup, Found, dispatched,
  idled, do_dispatch, ev_mgr_try_change_holder, ev_mgr_run, ev_mgr_recover_run,
}
use rp_lib_utils.EvMgr.Lifetime.{ev_mgr_addref}
use rp_lib_utils.EvMgr.Firing.{IsPeriodic}
use rp_lib_utils.EvMgr.States.{
  IsThere, IsWaited, fd_dispatch-returns, timer_event-returns, ev_mgr_run-rests,
  ev_mgr_run-unsupported,
}
use rp_lib_utils.EvMgr.Sound.{IsSoundTimer}
use rp_lib_utils.EvMgr.FdSound.{
  ev_mgr_add_fd-Sound, ev_fd_addref-Sound, ev_fd_unref-Sound, ev_fd_set_events-Sound,
  ev_fd_set_handler-Sound,
}
use rp_lib_utils.EvMgr.TimerSound.{
  ev_mgr_add_timer-Sound, ev_timer_addref-Sound, ev_timer_unref-Sound,
}
use rp_lib_utils.EvMgr.Reach.{
  IsEarly, Step, adds_fd, addrefs_fd, unrefs_fd, sets_events, sets_handler, adds_timer,
  addrefs_timer, unrefs_timer, adds_prepare, addrefs_prepare, unrefs_prepare, prepares, waits,
  dispatches, runs, wakes_up, recovers, changes_holder, addrefs, unrefs, Reach, made, later,
}
use rp_lib_utils.EvMgr.LifeSafe.{Alive, ev_mgr_unref-Alive, Made, ev_mgr_create-Made}
use rp_lib_utils.EvMgr.Safe.{
  IsSound, settled, IsSound-At, Given, Returned, do_prepare-IsSound, do_prepare-IsKeptFd,
  do_wait-IsSound, do_dispatch-Given, ev_mgr_run-Returned,
}

add_prepare-IsSound :
    (sys : Sys) (m : Mgr) (id handler : ℕ)
    → IsSound m
    → IsSound (ev_mgr_add_prepare sys m id handler).1
unfolding ev_mgr_add_prepare
add_prepare-IsSound sys m id handler v =
    let prep : EvPrepare = record { id = id; handler = handler; refcount = 1 } in
    either (λ (r : Bool × Mgr). IsSound r.1) sys.malloc
      (true, record m { preparers = prep ∷ m.preparers }) (false, m)
      (record { rest = v.rest; timers = v.timers; efds = v.efds }) v

change_holder-IsSound :
    (m : Mgr) (holder next : ℕ) → IsSound m → IsSound (ev_mgr_try_change_holder m holder next).1
unfolding ev_mgr_try_change_holder
change_holder-IsSound m holder next v =
    either (λ (r : ℕ × Mgr). IsSound r.1) (m.holder == holder) (next, record m { holder = next })
      (m.holder, m) (record { rest = v.rest; timers = v.timers; efds = v.efds }) v

Step-IsSound : {m m' : Mgr} → Step m m' → IsSound m → IsSound m'
unfolding ev_prepare_addref ev_prepare_unref ev_mgr_wakeup ev_mgr_recover_run ev_mgr_addref
Step-IsSound {m} (adds_fd sys args) v =
    settled m.state (_) v.rest (ev_mgr_add_fd-Sound m.state sys m args (IsSound-At m v))
Step-IsSound {m} (addrefs_fd id) v =
    settled m.state (_) v.rest (ev_fd_addref-Sound m.state id m (IsSound-At m v))
Step-IsSound {m} (unrefs_fd sys id) v =
    settled m.state (_) v.rest (ev_fd_unref-Sound m.state sys id m (IsSound-At m v))
Step-IsSound {m} (sets_events sys id events) v =
    settled m.state (_) v.rest (ev_fd_set_events-Sound m.state sys id events m (IsSound-At m v))
Step-IsSound {m} (sets_handler id handler) v =
    settled m.state (_) v.rest (ev_fd_set_handler-Sound m.state id handler m (IsSound-At m v))
Step-IsSound {m} (adds_timer sys now args h) v =
    settled m.state (_) v.rest (ev_mgr_add_timer-Sound m.state sys m now args h (IsSound-At m v))
Step-IsSound {m} (addrefs_timer id) v =
    settled m.state (_) v.rest (ev_timer_addref-Sound m.state id m (IsSound-At m v))
Step-IsSound {m} (unrefs_timer id) v =
    settled m.state (_) v.rest (ev_timer_unref-Sound m.state id m (IsSound-At m v))
Step-IsSound {m} (adds_prepare sys id handler) v = add_prepare-IsSound sys m id handler v
Step-IsSound {m} (addrefs_prepare id) v = record { rest = v.rest; timers = v.timers; efds = v.efds }
Step-IsSound {m} (unrefs_prepare id) v = record { rest = v.rest; timers = v.timers; efds = v.efds }
Step-IsSound {m} (prepares sys wakeup_ms) v = do_prepare-IsSound sys wakeup_ms m v
Step-IsSound {m} (waits w) v = do_wait-IsSound w m v
Step-IsSound {m} (dispatches sys f e) v = subst Given e (do_dispatch-Given sys f m v)
Step-IsSound {m} (runs sys w f rc e) v = subst Returned e (ev_mgr_run-Returned sys w f m v)
Step-IsSound {m} wakes_up v = record { rest = v.rest; timers = v.timers; efds = v.efds }
Step-IsSound {m} recovers v = record { rest = refl; timers = v.timers; efds = v.efds }
Step-IsSound {m} (changes_holder holder next) v = change_holder-IsSound m holder next v
Step-IsSound {m} addrefs v = record { rest = v.rest; timers = v.timers; efds = v.efds }
Step-IsSound {m} (unrefs epollfd eventfd e) v =
    subst Alive e (ev_mgr_unref-Alive (record { mgr = m; epollfd = epollfd; eventfd = eventfd }) v)

-- Between calls, a manager that `ev_mgr_create` has made is idle, ready or has an event pending;
-- each timer has a period of 32 bits that is not 0 and is not active once it is deleted; no deleted
-- descriptor is active, and there is one only when a cleanup of descriptors is due. (Periods are
-- given with 32 bits.)
pub Reach-IsSound : {m : Mgr} → Reach m → IsSound m
Reach-IsSound {m} (made sys h e k) = subst IsSound (sym k) (subst Made e (ev_mgr_create-Made sys))
Reach-IsSound (later r st) = Step-IsSound st (Reach-IsSound r)

sound-IsPeriodic :
    (now : ℕ) (timers : List EvTimer)
    → IsEarly now
    → All IsSoundTimer timers
    → All (IsPeriodic now) timers
sound-IsPeriodic now [] h a = tt
sound-IsPeriodic now (t ∷ timers) h ((p, q, d), hs) =
    ((p, omega (arith, h, q), d), sound-IsPeriodic now timers h hs)

-- A manager is given.
abbrev pub Gives : Option Mgr → Type 0
Gives o = (m : Mgr) × (o ≡ some m)

idled-Gives : (o : Option Mgr) → Gives o → Gives (idled o)
idled-Gives o (m, e) = (record m { state = idle }, ap idled e)

dispatched-Gives :
    (sys : Sys) (f : Found) (target : Target) (events : ℕ) (m : Mgr)
    → All (IsPeriodic f.now) m.timers
    → IsThere target m.efds
    → Gives (dispatched sys f target events m)
unfolding dispatched
dispatched-Gives sys f the_timer events m a there = timer_event-returns f.count f.now m a
dispatched-Gives sys f the_manager events m a there = (m, refl)
dispatched-Gives sys f (the_fd id) events m a there = fd_dispatch-returns sys id events m there

do_dispatch-Gives :
    (sys : Sys) (f : Found) (m : Mgr)
    → All (IsPeriodic f.now) m.timers
    → (m.state ≡ pending → IsThere m.event.0 m.efds)
    → Gives (do_dispatch sys f m)
unfolding do_dispatch
do_dispatch-Gives sys f m a there = go m.state there
  where
    start : Mgr
    start = record m { state = dispatching }

    go :
        (s : State)
        → (s ≡ pending → IsThere m.event.0 m.efds)
        → Gives (elim s as (λ q. Option Mgr) [
          | pending ↦
              idled (dispatched sys f m.event.0 m.event.1 (record m { state = dispatching }))
          | idle ↦ some m
          | preparing ↦ some m
          | ready ↦ some m
          | waiting ↦ some m
          | dispatching ↦ some m
        ])
    go pending p =
        idled-Gives (dispatched sys f m.event.0 m.event.1 start)
          (dispatched-Gives sys f m.event.0 m.event.1 start a (p refl))
    go idle p = (m, refl)
    go preparing p = (m, refl)
    go ready p = (m, refl)
    go waiting p = (m, refl)
    go dispatching p = (m, refl)

-- How a run ends: idle, or ready with an error, or refused by a manager that is not to be prepared.
abbrev pub RunEnds : Mgr → Rc → Mgr → Type 0
RunEnds m rc m' =
    (m'.state ≡ idle)
    ⊎ (((rc ≡ failed) × (m'.state ≡ ready))
        ⊎ ((is_preparable m.state ≡ false) × (rc ≡ unsupported) × (m' ≡ m)))

run_ends :
    (sys : Sys) (w : Waited) (f : Found) (m : Mgr)
    → All (IsPeriodic f.now) m.timers
    → IsWaited w (do_prepare sys time_ms_max m).1.efds
    → (rc : Rc) × (m' : Mgr) × (ev_mgr_run sys w f m ≡ some (rc, m')) × RunEnds m rc m'
run_ends sys w f m a there = elim (Bool-cases (is_preparable m.state)) [
  | inl p ↦
      let (rc, m', e, d) = ev_mgr_run-rests sys w f m p a there in
      (rc, m', e, elim d [ inl i ↦ inl i | inr r ↦ inr (inl r) ])
  | inr p ↦ (unsupported, m, ev_mgr_run-unsupported sys w f m p, inr (inr (p, refl, refl)))
]

-- `ev_mgr_dispatch` and `ev_mgr_run` return from every manager that calls lead to, and use no
-- descriptor that is freed: no sequence of calls brings the loops of the timers to run on for ever. A
-- run leaves the manager idle, or ready with an error, or, where it is not to be prepared, as it was,
-- with `X_ENOTSUP`. (The time leaves room for a period of 32 bits in 64 bits. A descriptor that a
-- pending event points to is still there: `ev_mgr_unref` has not freed it since the wait. In a run,
-- `epoll_wait` finds no descriptor but one that the manager has behind its preparation.)
pub Reach-returns :
    {m : Mgr} (sys : Sys) (w : Waited) (f : Found)
    → Reach m
    → IsEarly f.now
    → (m.state ≡ pending → IsThere m.event.0 m.efds)
    → IsWaited w (do_prepare sys time_ms_max m).1.efds
    → ((m' : Mgr) × (do_dispatch sys f m ≡ some m'))
      × ((rc : Rc) × (m' : Mgr) × (ev_mgr_run sys w f m ≡ some (rc, m')) × RunEnds m rc m')
Reach-returns {m} sys w f r h there waited =
    let a = sound-IsPeriodic f.now m.timers h (Reach-IsSound r).timers in
    (do_dispatch-Gives sys f m a there, run_ends sys w f m a waited)

-- Behind a preparation of a manager that calls lead to, no deleted descriptor is left in it, whichever
-- calls have deleted it and whichever calls of the system fail. (The manager is idle or ready.)
pub Reach-prepared :
    {m : Mgr} (sys : Sys) (wakeup_ms : ℕ)
    → Reach m
    → is_preparable m.state ≡ true
    → All (λ f. f.is_deleted ≡ false) (do_prepare sys wakeup_ms m).1.efds
Reach-prepared {m} sys wakeup_ms r p = do_prepare-IsKeptFd sys wakeup_ms m p (Reach-IsSound r)
