-- ===== src/EvMgr/Timers.antt =====
-- The timers of src/sandbox/ev-mgr.c.
use rp_lib_utils.Common.{
  ℕ, zero, suc, ◌+◌, ◌-◌, ◌/◌, ◌%◌, ◌^◌, Bool, true, false, not, ◌&&◌, List, [], ◌∷◌, Option, none,
  some, ltb, leb, ◌==◌, if◌then◌else◌,
}
use rp_lib_utils.EvMgr.Model.{
  EvTimer, Action, ctl_add, closes, sets_timer, calls_timer, Mgr, Sys, does, one_more, one_less,
  time_ms_max,
}

-- The list without the deleted timers.
unfoldable pub kept_timers : List EvTimer → List EvTimer
kept_timers [] = []
kept_timers (t ∷ timers) = let rest = kept_timers timers in if t.is_deleted then rest else t ∷ rest

unfoldable pub timers_cleanup : Mgr → Mgr
timers_cleanup m =
    if m.timers_cleanup
    then record m { timers_cleanup = false; timers = kept_timers m.timers }
    else m

-- A slice of time, from `lower` to `upper`.
pub record Slice : Type 0 where
  pub lower : ℕ
  pub upper : ℕ

-- The slice with the time in which a timer is to be served.
unfoldable pub narrowed : Slice → ℕ → ℕ → Slice
narrowed s lo up = if leb up s.lower then record { lower = lo; upper = up } else record {
  lower = (if ltb s.lower lo then lo else s.lower);
  upper = (if ltb up s.upper then up else s.upper);
}

unfoldable pub serve : Slice → EvTimer → Slice
serve s t =
    if t.is_active
    then (if leb t.next_ms s.upper
        then narrowed s t.next_ms ((t.next_ms + t.accuracy_ms) % 2 ^ 64)
        else s)
    else s

unfoldable pub slice_of : Slice → List EvTimer → Slice
slice_of s [] = s
slice_of s (t ∷ timers) = slice_of (serve s t) timers

-- `lower ? ((lower + upper) >> 1) : 0`
unfoldable pub middle : Slice → ℕ
middle s = if s.lower == 0 then 0 else (s.lower + s.upper) % 2 ^ 64 / 2

-- The result is false where an error is returned.
unfoldable pub settime : Sys → Mgr → ℕ → Bool × Mgr
settime sys m when =
    let done = does (sets_timer when) m in
    if sys.timerfd_settime then (true, record done { last_timer = when }) else (false, done)

-- The events of the timer, `EPOLLIN`.
abbrev pub epollin : ℕ
epollin = 1

unfoldable pub create_timerfd : Sys → Mgr → ℕ → Bool × Mgr
create_timerfd sys m when = elim sys.timerfd_create [
  | none ↦ (false, m)
  | some fd ↦
      if sys.epoll_ctl (ctl_add (some fd) epollin)
      then settime sys (does (ctl_add (some fd) epollin) (record m { timerfd = some fd })) when
      else (false, does (closes fd) (does (ctl_add (some fd) epollin) m))
]

unfoldable pub timer_arm : Sys → Mgr → ℕ → Bool × Mgr
timer_arm sys m when =
    let created : Bool × Mgr = elim m.timerfd [
      | none ↦ create_timerfd sys m when
      | some fd ↦ settime sys m when
    ] in
    if when == m.last_timer then (true, m) else created

unfoldable pub timer_set : Sys → Mgr → ℕ → Bool × Mgr
timer_set sys m upper =
    let clean = timers_cleanup m in
    timer_arm sys clean (middle (slice_of (record { lower = 0; upper = upper }) clean.timers))

-- `do next_ms += period_ms; while (next_ms <= now);` on fuel.
unfoldable pub advance : ℕ → ℕ → ℕ → ℕ → Option ℕ
advance zero now period next = none
advance (suc fuel) now period next =
    let n = (next + period) % 2 ^ 64 in
    let rest = advance fuel now period n in if leb n now then rest else some n

-- A call less.
unfoldable pub counted_down : EvTimer → EvTimer
counted_down t =
    if t.decount == 0
    then t
    else if t.decount - 1 == 0
    then (if t.auto_unref
        then record t { decount = 0; is_active = false; is_deleted = true }
        else record t { decount = 0; is_active = false; next_ms = time_ms_max })
    else record t { decount = t.decount - 1 }

abbrev pub is_due : ℕ → EvTimer → Bool
is_due now t = t.is_active && leb t.next_ms now

-- A timer behind its call; `none` where the loop does not end on the fuel.
unfoldable pub fired : ℕ → EvTimer → Option EvTimer
fired now t = elim (advance (now + 1) now t.period_ms t.next_ms) [
  | none ↦ none
  | some next ↦ some (counted_down (record t { next_ms = next }))
]

-- The timers behind a dispatch, and the calls of handlers, in order. The handlers leave the manager
-- alone.
pub record Dispatched : Type 0 where
  pub timers : List EvTimer
  pub calls : List Action

abbrev pub put_timer : EvTimer → Dispatched → Dispatched
put_timer t d = if t.is_deleted then d else record d { timers = t ∷ d.timers }

abbrev pub put_fired : EvTimer → Option EvTimer → Option Dispatched → Option Dispatched
put_fired t none d = none
put_fired t (some t') none = none
put_fired t (some t') (some d) =
    some (record (put_timer t' d) { calls = calls_timer t.id t.decount ∷ d.calls })

abbrev pub put_quiet : EvTimer → Option Dispatched → Option Dispatched
put_quiet t none = none
put_quiet t (some d) = some (put_timer t d)

unfoldable pub dispatch_timers : ℕ → List EvTimer → Option Dispatched
dispatch_timers now [] = some (record { timers = []; calls = [] })
dispatch_timers now (t ∷ timers) =
    let rest = dispatch_timers now timers in
    if is_due now t then put_fired t (fired now t) rest else put_quiet t rest

-- The latest call first, as all actions.
abbrev pub behind_calls : List Action → List Action → List Action
behind_calls [] actions = actions
behind_calls (call ∷ calls) actions = behind_calls calls (call ∷ actions)

unfoldable pub timer_dispatch : ℕ → Mgr → Option Mgr
timer_dispatch now m = elim (dispatch_timers now m.timers) [
  | none ↦ none
  | some d ↦ some (record m { timers = d.timers; actions = behind_calls d.calls m.actions })
]

-- `read` gives an error, or how often the timer has expired.
unfoldable pub timer_event : Option ℕ → ℕ → Mgr → Option Mgr
timer_event none now m = some m
timer_event (some count) now m = if ltb 0 count then timer_dispatch now m else some m

-- What `ev_mgr_add_timer` is called with; `start` is the start from now on in milliseconds, as a
-- number of 64 bits, and `garbage` what a fresh block holds as the counter of references.
pub record TimerArgs : Type 0 where
  pub id : ℕ
  pub handler : ℕ
  pub start : ℕ
  pub count : ℕ
  pub period_ms : ℕ
  pub accuracy_ms : ℕ
  pub auto_unref : Bool
  pub garbage : ℕ

abbrev pub new_timer : ℕ → TimerArgs → EvTimer
new_timer now args = record {
  id = args.id;
  handler = args.handler;
  next_ms = (now + args.start + 2 ^ 64 - args.accuracy_ms / 2) % 2 ^ 64;
  accuracy_ms = (if args.accuracy_ms == 0 then 1 else args.accuracy_ms);
  period_ms = (if args.period_ms == 0 then 1000 else args.period_ms);
  decount = args.count;
  refcount = args.garbage;
  is_active = true;
  is_deleted = false;
  auto_unref = args.auto_unref;
}

unfoldable pub update_timer : ℕ → (EvTimer → EvTimer) → List EvTimer → List EvTimer
update_timer id f [] = []
update_timer id f (t ∷ timers) = (if t.id == id then f t else t) ∷ update_timer id f timers

-- The result and the manager.
unfoldable pub ev_mgr_add_timer : Sys → Mgr → ℕ → TimerArgs → Bool × Mgr
ev_mgr_add_timer sys m now args =
    let (ok, armed) =
      timer_set sys (record m { timers = new_timer now args ∷ m.timers }) time_ms_max in
    if not sys.malloc then (false, m) else if ok then (true, armed) else (
      false,
      record armed {
        timers =
            update_timer args.id
              (λ (t : EvTimer). record t { is_deleted = true; is_active = false }) armed.timers;
      },
    )

unfoldable pub ev_timer_addref : ℕ → Mgr → Mgr
ev_timer_addref id m = record m {
  timers = update_timer id (λ (t : EvTimer). record t { refcount = one_more t.refcount }) m.timers;
}

abbrev pub unref_timer : EvTimer → EvTimer
unref_timer t =
    let less = record t { refcount = one_less t.refcount } in
    if one_less t.refcount == 0 then record less { is_active = false; is_deleted = true } else less

unfoldable pub last_timer_ref : ℕ → List EvTimer → Bool
last_timer_ref id [] = false
last_timer_ref id (t ∷ timers) =
    let rest = last_timer_ref id timers in if t.id == id then one_less t.refcount == 0 else rest

unfoldable pub ev_timer_unref : ℕ → Mgr → Mgr
ev_timer_unref id m = record m {
  timers = update_timer id unref_timer m.timers;
  timers_cleanup = (if last_timer_ref id m.timers then true else m.timers_cleanup);
}
