-- ===== src/EvMgr/Arming.antt =====
-- What `timer_set` of src/sandbox/ev-mgr.c arms the timer for.
use mathlib.Core.Path.{subst}
use rp_lib_utils.Common.{
  ℕ, ◌<◌, ◌≤◌, ◌^◌, ◌≡◌, refl, ap, sym, ◌∙◌, arith, Bool, true, false, not, ◌||◌, Bool-cases, inl,
  inr, List, All, Option, none, some, ◌==◌, ==_iff, if◌then◌else◌,
}
use rp_lib_utils.EvMgr.Model.{EvTimer, ctl_add, does, Mgr, Sys}
use rp_lib_utils.EvMgr.Timers.{
  timers_cleanup, Slice, slice_of, middle, settime, epollin, create_timerfd, timer_arm, timer_set,
}
use rp_lib_utils.EvMgr.Slice.{
  IsCalm, Served, starts_by, or_right, slice_of-Steps, middle-between, starts_by-Served,
  starts_by-later,
}

-- What `timer_set` arms the timer for.
abbrev pub wakeup : ℕ → List EvTimer → ℕ
wakeup upper timers = middle (slice_of (record { lower = 0; upper = upper }) timers)

pub record Timed (upper : ℕ) (timers : List EvTimer) (w : ℕ) : Type 0 where
  pub bound : w ≤ upper
  pub served : All (Served w) timers
  pub started : (w == 0 || starts_by w timers) ≡ true
  pub none_starts : (w == 0) ≡ not (starts_by upper timers)

stopped : (n m : ℕ) → (n == 0) ≡ (m == 0) → n ≡ 0 → (m == 0) ≡ true
stopped n m e z = sym e ∙ ap (λ (k : ℕ). k == 0) z

wakeup-Timed :
    (timers : List EvTimer) (upper : ℕ)
    → upper < 2 ^ 64
    → All IsCalm timers
    → Timed upper timers (wakeup upper timers)
wakeup-Timed timers upper u c =
    let first : Slice = record { lower = 0; upper = upper } in
    let steps =
      slice_of-Steps timers first (record { ordered = omega arith; small = omega (arith, u) }) c in
    let last = slice_of first timers in
    let (z, h, l) = middle-between last steps.fits in
    record {
      bound = omega (arith, h, steps.less);
      served = starts_by-Served timers last.upper (middle last) h steps.served;
      started = elim steps.from [
        | inl k ↦
            ap (λ (b : Bool). b || starts_by (middle last) timers)
              (stopped last.lower (middle last) z k)
        | inr k ↦ or_right (middle last == 0) (starts_by-later timers last.lower (middle last) l k)
      ];
      none_starts = sym z ∙ steps.none_starts refl;
    }

-- What a call that arms the timer leaves: the same timers, and its time where it succeeds.
pub record Armed (m : Mgr) (when : ℕ) (r : Bool × Mgr) : Type 0 where
  pub same : r.1.timers ≡ m.timers
  pub last : r.1.last_timer ≡ (if r.0 then when else m.last_timer)

settime-Armed : (sys : Sys) (m : Mgr) (when : ℕ) → Armed m when (settime sys m when)
unfolding settime
settime-Armed sys m when = elim (Bool-cases sys.timerfd_settime) [
  | inl t ↦ rw t (record { same = refl; last = refl })
  | inr t ↦ rw t (record { same = refl; last = refl })
]

create_timerfd-Armed : (sys : Sys) (m : Mgr) (when : ℕ) → Armed m when (create_timerfd sys m when)
create_timerfd-Armed sys m when = go sys.timerfd_create refl
  where
    go :
        (fd : Option ℕ)
        → fd ≡ sys.timerfd_create
        → Armed m when (create_timerfd (record sys { timerfd_create = fd }) m when)
    go none e = unfold create_timerfd in record { same = refl; last = refl }
    go (some fd) e =
        unfold create_timerfd in
        elim (Bool-cases (sys.epoll_ctl (ctl_add (some fd) epollin))) [
          | inl t ↦
              let added = does (ctl_add (some fd) epollin) (record m { timerfd = some fd }) in
              let armed = settime-Armed (record sys { timerfd_create = some fd }) added when in
              rw t (record { same = armed.same; last = armed.last })
          | inr t ↦ rw t (record { same = refl; last = refl })
        ]

pub timer_arm-Armed : (sys : Sys) (m : Mgr) (when : ℕ) → Armed m when (timer_arm sys m when)
timer_arm-Armed sys m when = elim (Bool-cases (when == m.last_timer)) [
  | inl t ↦
      unfold timer_arm in rw t (record { same = refl; last = sym ((==_iff when m.last_timer).0 t) })
  | inr t ↦ go m.timerfd refl t
]
  where
    go :
        (fd : Option ℕ)
        → fd ≡ m.timerfd
        → (when == m.last_timer) ≡ false
        → Armed m when (timer_arm sys (record m { timerfd = fd }) when)
    go none e t =
        unfold timer_arm in
        rw t (
          subst
            (λ (fd : Option ℕ). Armed m when (create_timerfd sys (record m { timerfd = fd }) when))
            (sym e) (create_timerfd-Armed sys m when))
    go (some fd) e t =
        unfold timer_arm in
        rw t (
          subst (λ (fd : Option ℕ). Armed m when (settime sys (record m { timerfd = fd }) when))
            (sym e) (settime-Armed sys m when))

-- When `timer_set` succeeds, the time it leaves the timer armed for is not behind the end of the
-- slice in which any active timer is to be served nor behind the given time, and not before the
-- start of every active timer unless it is 0, which stops the timer. It is 0 if and only if no
-- active timer starts by the given time, so that this time alone wakes nobody up. (The slices of
-- active timers start at 1 or later and end below 2^63, as `now_ms` gives them.)
pub timer_set-Timed :
    (sys : Sys) (m : Mgr) (upper : ℕ)
    → upper < 2 ^ 64
    → All IsCalm (timers_cleanup m).timers
    → (timer_set sys m upper).0 ≡ true
    → Timed upper (timer_set sys m upper).1.timers (timer_set sys m upper).1.last_timer
unfolding timer_set
timer_set-Timed sys m upper u c e =
    let clean = timers_cleanup m in
    let armed = timer_arm-Armed sys clean (wakeup upper clean.timers) in
    subst (λ (timers : List EvTimer). Timed upper timers (timer_set sys m upper).1.last_timer)
      (sym armed.same)
      (subst (Timed upper clean.timers) (sym (armed.last ∙ rw e refl))
        (wakeup-Timed clean.timers upper u c))
