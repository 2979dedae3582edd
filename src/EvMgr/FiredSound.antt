-- ===== src/EvMgr/FiredSound.antt =====
-- The timers behind a dispatch of src/sandbox/ev-mgr.c.
use rp_lib_utils.Common.{
  either, ℕ, ◌+◌, ◌-◌, refl, true, false, List, [], ◌∷◌, All, Option, none, some, ◌==◌,
  if◌then◌else◌,
}
use rp_lib_utils.EvMgr.Model.{EvTimer, time_ms_max}
use rp_lib_utils.EvMgr.Timers.{
  counted_down, fired, advance, is_due, Dispatched, put_timer, put_fired, put_quiet,
  dispatch_timers,
}
use rp_lib_utils.EvMgr.Sound.{IsSoundTimer}

-- The timers behind a dispatch, if it ends.
abbrev pub AllSound : Option Dispatched → Type 0
AllSound none = Unit
AllSound (some d) = All IsSoundTimer d.timers

abbrev pub OneSound : Option EvTimer → Type 0
OneSound none = Unit
OneSound (some t) = IsSoundTimer t

counted_down-IsSoundTimer : (t : EvTimer) → IsSoundTimer t → IsSoundTimer (counted_down t)
unfolding counted_down
counted_down-IsSoundTimer t (p, q, d) =
    either IsSoundTimer (t.decount == 0) t
      (if t.decount - 1 == 0
        then (if t.auto_unref
            then record t { decount = 0; is_active = false; is_deleted = true }
            else record t { decount = 0; is_active = false; next_ms = time_ms_max })
        else record t { decount = t.decount - 1 })
      (p, q, d)
      (either IsSoundTimer (t.decount - 1 == 0)
        (if t.auto_unref
          then record t { decount = 0; is_active = false; is_deleted = true }
          else record t { decount = 0; is_active = false; next_ms = time_ms_max })
        (record t { decount = t.decount - 1 })
        (either IsSoundTimer t.auto_unref
          (record t { decount = 0; is_active = false; is_deleted = true })
          (record t { decount = 0; is_active = false; next_ms = time_ms_max }) (p, q, refl)
          (p, q, refl))
        (p, q, d))

fired-OneSound : (now : ℕ) (t : EvTimer) → IsSoundTimer t → OneSound (fired now t)
unfolding fired
fired-OneSound now t h = go (advance (now + 1) now t.period_ms t.next_ms)
  where
    go :
        (o : Option ℕ)
        → OneSound (elim o as (λ q. Option EvTimer) [
          | none ↦ none
          | some next ↦ some (counted_down (record t { next_ms = next }))
        ])
    go none = tt
    go (some next) = counted_down-IsSoundTimer (record t { next_ms = next }) h

put_timer-All :
    (t : EvTimer) (d : Dispatched)
    → IsSoundTimer t
    → All IsSoundTimer d.timers
    → All IsSoundTimer (put_timer t d).timers
put_timer-All t d h a =
    either (λ (d : Dispatched). All IsSoundTimer d.timers) t.is_deleted d
      (record d { timers = t ∷ d.timers }) a (h, a)

put_fired-AllSound :
    (t : EvTimer) (o : Option EvTimer) (d : Option Dispatched)
    → OneSound o
    → AllSound d
    → AllSound (put_fired t o d)
put_fired-AllSound t none d h a = tt
put_fired-AllSound t (some t') none h a = tt
put_fired-AllSound t (some t') (some d) h a = put_timer-All t' d h a

put_quiet-AllSound :
    (t : EvTimer) (d : Option Dispatched) → IsSoundTimer t → AllSound d → AllSound (put_quiet t d)
put_quiet-AllSound t none h a = tt
put_quiet-AllSound t (some d) h a = put_timer-All t d h a

pub dispatch_timers-AllSound :
    (now : ℕ) (timers : List EvTimer)
    → All IsSoundTimer timers
    → AllSound (dispatch_timers now timers)
unfolding dispatch_timers
dispatch_timers-AllSound now [] h = tt
dispatch_timers-AllSound now (t ∷ timers) (h, hs) =
    let rest = dispatch_timers now timers in
    let a = dispatch_timers-AllSound now timers hs in
    either AllSound (is_due now t) (put_fired t (fired now t) rest) (put_quiet t rest)
      (put_fired-AllSound t (fired now t) rest (fired-OneSound now t h) a)
      (put_quiet-AllSound t rest h a)
