-- ===== src/EvMgr/TimerSound.antt =====
-- What the operations on timers of src/sandbox/ev-mgr.c keep of a manager.
use rp_lib_utils.Common.{
  either, ℕ, ◌<◌, ◌^◌, refl, arith, Bool, true, false, not, List, [], ◌∷◌, All, Option, none, some,
  ltb, ◌==◌, if◌then◌else◌,
}
use rp_lib_utils.EvMgr.Model.{EvTimer, State, Mgr, Sys, one_more, one_less, time_ms_max}
use rp_lib_utils.EvMgr.Timers.{
  timer_set, timer_dispatch, dispatch_timers, Dispatched, behind_calls, timer_event, TimerArgs,
  new_timer, update_timer, ev_mgr_add_timer, ev_timer_addref, unref_timer, ev_timer_unref,
}
use rp_lib_utils.EvMgr.FdSound.{Ends}
use rp_lib_utils.EvMgr.FiredSound.{AllSound, dispatch_timers-AllSound}
use rp_lib_utils.EvMgr.Sound.{IsSoundTimer, IsSoundFd, At, timer_set-At}

module _ (id : ℕ) (f : EvTimer → EvTimer)
    (keeps : (t : EvTimer) → IsSoundTimer t → IsSoundTimer (f t)) where
  update_timer-All :
      (timers : List EvTimer)
      → All IsSoundTimer timers
      → All IsSoundTimer (update_timer id f timers)
  unfolding update_timer
  update_timer-All [] h = tt
  update_timer-All (t ∷ timers) (h, hs) =
      (either IsSoundTimer (t.id == id) (f t) t (keeps t h) h, update_timer-All timers hs)

new_timer-IsSoundTimer :
    (now : ℕ) (args : TimerArgs) → args.period_ms < 2 ^ 32 → IsSoundTimer (new_timer now args)
new_timer-IsSoundTimer now args h = (ground (arith, h), ground (arith, h), refl)

module _ (s : State) where
  abbrev Sound : Mgr → Type 0
  Sound = At IsSoundFd s

  pub ev_mgr_add_timer-Sound :
      (sys : Sys) (m : Mgr) (now : ℕ) (args : TimerArgs)
      → args.period_ms < 2 ^ 32
      → Sound m
      → Sound (ev_mgr_add_timer sys m now args).1
  unfolding ev_mgr_add_timer
  ev_mgr_add_timer-Sound sys m now args p a =
      let start = record m { timers = new_timer now args ∷ m.timers } in
      let (ok, armed) = timer_set sys start time_ms_max in
      let b = timer_set-At IsSoundFd s sys start time_ms_max (record {
        state = a.state;
        timers = (new_timer-IsSoundTimer now args p, a.timers);
        efds = a.efds;
      }) in
      let dies = λ (t : EvTimer). record t { is_deleted = true; is_active = false } in
      let dead = record armed { timers = update_timer args.id dies armed.timers } in
      either (λ (r : Bool × Mgr). Sound r.1) (not sys.malloc) (false, m)
        (if ok then (true, armed) else (false, dead)) a
        (either (λ (r : Bool × Mgr). Sound r.1) ok (true, armed) (false, dead) b
          (record {
            state = b.state;
            timers = update_timer-All args.id dies (λ t h. (h.0, h.1, refl)) armed.timers b.timers;
            efds = b.efds;
          }))

  pub ev_timer_addref-Sound : (id : ℕ) (m : Mgr) → Sound m → Sound (ev_timer_addref id m)
  unfolding ev_timer_addref
  ev_timer_addref-Sound id m a = record {
    state = a.state;
    timers =
        update_timer-All id (λ (t : EvTimer). record t { refcount = one_more t.refcount })
          (λ t h. h) m.timers a.timers;
    efds = a.efds;
  }

  pub ev_timer_unref-Sound : (id : ℕ) (m : Mgr) → Sound m → Sound (ev_timer_unref id m)
  unfolding ev_timer_unref
  ev_timer_unref-Sound id m a = record {
    state = a.state;
    timers = update_timer-All id unref_timer keeps m.timers a.timers;
    efds = a.efds;
  }
    where
      keeps : (t : EvTimer) → IsSoundTimer t → IsSoundTimer (unref_timer t)
      keeps t h =
          let less = record t { refcount = one_less t.refcount } in
          either IsSoundTimer (one_less t.refcount == 0)
            (record less { is_active = false; is_deleted = true }) less (h.0, h.1, refl) h

  timer_dispatch-Ends : (now : ℕ) (m : Mgr) → Sound m → Ends s (timer_dispatch now m)
  unfolding timer_dispatch
  timer_dispatch-Ends now m a =
      go (dispatch_timers now m.timers) (dispatch_timers-AllSound now m.timers a.timers)
    where
      go :
          (o : Option Dispatched)
          → AllSound o
          → Ends s (elim o as (λ q. Option Mgr) [
            | none ↦ none
            | some d ↦
                some (record m { timers = d.timers; actions = behind_calls d.calls m.actions })
          ])
      go none h = tt
      go (some d) h = record { state = a.state; timers = h; efds = a.efds }

  pub timer_event-Ends :
      (count : Option ℕ) (now : ℕ) (m : Mgr) → Sound m → Ends s (timer_event count now m)
  unfolding timer_event
  timer_event-Ends none now m a = a
  timer_event-Ends (some count) now m a =
      either (Ends s) (ltb 0 count) (timer_dispatch now m) (some m) (timer_dispatch-Ends now m a) a
