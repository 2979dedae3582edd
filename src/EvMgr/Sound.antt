-- ===== src/EvMgr/Sound.antt =====
-- What the preparation of src/sandbox/ev-mgr.c keeps of a manager, and what it cleans up.
use rp_lib_utils.Common.{
  either, ℕ, ◌<◌, ◌^◌, ◌≡◌, refl, ◌∙◌, arith, Bool, true, false, not, ◌&&◌, Bool-cases, inl, inr,
  List, [], ◌∷◌, All, Option, none, some, ◌==◌,
}
use rp_lib_utils.EvMgr.Model.{
  EvFd, EvTimer, Action, ctl_add, closes, sets_timer, State, preparing, ready, Mgr, Sys, does,
}
use rp_lib_utils.EvMgr.Timers.{
  kept_timers, timers_cleanup, slice_of, middle, settime, epollin, create_timerfd, timer_arm,
  timer_set,
}
use rp_lib_utils.EvMgr.Fds.{
  prepared_fd, with_call, prepare_fds, efds_prepare, freeing, kept_fds, efds_cleanup,
}
use rp_lib_utils.EvMgr.Prepares.{kept_preparers, preparers_cleanup, preparers_prepare}
use rp_lib_utils.EvMgr.Loop.{do_cleanup}

-- A timer has a period of 32 bits that is not 0, and is not active once it is deleted.
abbrev pub IsSoundTimer : EvTimer → Type 0
IsSoundTimer t =
    (0 < t.period_ms) × (t.period_ms < 2 ^ 32) × ((t.is_active && t.is_deleted) ≡ false)

-- A descriptor is not active once it is deleted, and deleted only when a cleanup is due.
abbrev pub IsSoundFd : Bool → EvFd → Type 0
IsSoundFd cleanup f =
    ((f.is_active && f.is_deleted) ≡ false) × ((f.is_deleted && not cleanup) ≡ false)

abbrev pub IsKeptFd : Bool → EvFd → Type 0
IsKeptFd cleanup f = f.is_deleted ≡ false

-- A manager in a state, with sound timers and descriptors of which `P` holds.
pub record At (P : Bool → EvFd → Type 0) (s : State) (m : Mgr) : Type 0 where
  pub state : m.state ≡ s
  pub timers : All IsSoundTimer m.timers
  pub efds : All (P m.efds_cleanup) m.efds

pub kept_timers-All :
    (P : EvTimer → Type 0) (timers : List EvTimer) → All P timers → All P (kept_timers timers)
unfolding kept_timers
kept_timers-All P [] h = tt
kept_timers-All P (t ∷ timers) (h, hs) =
    let kept = kept_timers-All P timers hs in
    either (All P) t.is_deleted (kept_timers timers) (t ∷ kept_timers timers) kept (h, kept)

-- What arms the timer and calls the preparers touches neither timers nor descriptors.
module _ (P : Bool → EvFd → Type 0) (s : State) where
  timers_cleanup-At : (m : Mgr) → At P s m → At P s (timers_cleanup m)
  unfolding timers_cleanup
  timers_cleanup-At m a =
      either (At P s) m.timers_cleanup
        (record m { timers_cleanup = false; timers = kept_timers m.timers }) m
        (record {
          state = a.state;
          timers = kept_timers-All IsSoundTimer m.timers a.timers;
          efds = a.efds;
        })
        a

  settime-At : (sys : Sys) (m : Mgr) (when : ℕ) → At P s m → At P s (settime sys m when).1
  unfolding settime
  settime-At sys m when a =
      let done = does (sets_timer when) m in
      either (λ (r : Bool × Mgr). At P s r.1) sys.timerfd_settime
        (true, record done { last_timer = when }) (false, done)
        (record { state = a.state; timers = a.timers; efds = a.efds })
        (record { state = a.state; timers = a.timers; efds = a.efds })

  create_timerfd-At :
      (sys : Sys) (m : Mgr) (when : ℕ) → At P s m → At P s (create_timerfd sys m when).1
  create_timerfd-At sys m when a = go sys.timerfd_create
    where
      go : (fd : Option ℕ) → At P s (create_timerfd (record sys { timerfd_create = fd }) m when).1
      go none = unfold create_timerfd in a
      go (some fd) =
          unfold create_timerfd in
          let added = does (ctl_add (some fd) epollin) (record m { timerfd = some fd }) in
          let sys' = record sys { timerfd_create = some fd } in
          either (λ (r : Bool × Mgr). At P s r.1) (sys.epoll_ctl (ctl_add (some fd) epollin))
            (settime sys' added when) (false, does (closes fd) (does (ctl_add (some fd) epollin) m))
            (settime-At sys' added when
              (record { state = a.state; timers = a.timers; efds = a.efds }))
            (record { state = a.state; timers = a.timers; efds = a.efds })

  timer_arm-At : (sys : Sys) (m : Mgr) (when : ℕ) → At P s m → At P s (timer_arm sys m when).1
  timer_arm-At sys m when a =
      go m.timerfd (record { state = a.state; timers = a.timers; efds = a.efds })
    where
      go :
          (fd : Option ℕ)
          → At P s (record m { timerfd = fd })
          → At P s (timer_arm sys (record m { timerfd = fd }) when).1
      go none a =
          unfold timer_arm in
          either (λ (r : Bool × Mgr). At P s r.1) (when == m.last_timer)
            (true, record m { timerfd = none })
            (create_timerfd sys (record m { timerfd = none }) when) a
            (create_timerfd-At sys (record m { timerfd = none }) when a)
      go (some fd) a =
          unfold timer_arm in
          either (λ (r : Bool × Mgr). At P s r.1) (when == m.last_timer)
            (true, record m { timerfd = some fd })
            (settime sys (record m { timerfd = some fd }) when) a
            (settime-At sys (record m { timerfd = some fd }) when a)

  pub timer_set-At : (sys : Sys) (m : Mgr) (upper : ℕ) → At P s m → At P s (timer_set sys m upper).1
  unfolding timer_set
  timer_set-At sys m upper a =
      let clean = timers_cleanup m in
      timer_arm-At sys clean (middle (slice_of (record { lower = 0; upper = upper }) clean.timers))
        (timers_cleanup-At m a)

  preparers_cleanup-At : (m : Mgr) → At P s m → At P s (preparers_cleanup m)
  unfolding preparers_cleanup
  preparers_cleanup-At m a =
      either (At P s) m.preparers_cleanup
        (record m { preparers_cleanup = false; preparers = kept_preparers m.preparers }) m
        (record { state = a.state; timers = a.timers; efds = a.efds }) a

  preparers_prepare-At : (m : Mgr) → At P s m → At P s (preparers_prepare m)
  unfolding preparers_prepare
  preparers_prepare-At m a = record { state = a.state; timers = a.timers; efds = a.efds }

-- The descriptors that are kept are not deleted.
kept_fds-IsKeptFd :
    (efds : List EvFd) (actions : List Action) → All (IsKeptFd false) (kept_fds efds actions).0
unfolding kept_fds
kept_fds-IsKeptFd [] actions = tt
kept_fds-IsKeptFd (f ∷ efds) actions = elim (Bool-cases f.is_deleted) [
  | inl e ↦ rw e (kept_fds-IsKeptFd efds (freeing f actions))
  | inr e ↦ rw e (refl, kept_fds-IsKeptFd efds actions)
]

-- Where no cleanup is due, nothing is deleted.
IsSoundFd-IsKeptFd :
    (cleanup : Bool) (efds : List EvFd)
    → cleanup ≡ false
    → All (IsSoundFd cleanup) efds
    → All (IsKeptFd cleanup) efds
IsSoundFd-IsKeptFd cleanup [] c h = tt
IsSoundFd-IsKeptFd cleanup (f ∷ efds) c ((_, h), hs) =
    (ground (arith, h, c), IsSoundFd-IsKeptFd cleanup efds c hs)

pub IsKeptFd-IsSoundFd :
    (cleanup : Bool) (efds : List EvFd) → All (IsKeptFd cleanup) efds → All (IsSoundFd cleanup) efds
IsKeptFd-IsSoundFd cleanup [] h = tt
IsKeptFd-IsSoundFd cleanup (f ∷ efds) (h, hs) =
    ((ground (arith, h), ground (arith, h)), IsKeptFd-IsSoundFd cleanup efds hs)

efds_cleanup-At : (s : State) (m : Mgr) → At IsSoundFd s m → At IsKeptFd s (efds_cleanup m)
unfolding efds_cleanup
efds_cleanup-At s m a =
    let (kept, calls) = kept_fds m.efds m.actions in
    elim (Bool-cases m.efds_cleanup) [
      | inl e ↦
          rw e (record {
            state = a.state;
            timers = a.timers;
            efds = kept_fds-IsKeptFd m.efds m.actions;
          })
      | inr e ↦ rw e (record {
        state = a.state;
        timers = a.timers;
        efds = IsSoundFd-IsKeptFd m.efds_cleanup m.efds e a.efds;
      })
    ]

-- Behind the cleanup no descriptor is deleted.
pub do_cleanup-At : (s : State) (m : Mgr) → At IsSoundFd s m → At IsKeptFd s (do_cleanup m)
unfolding do_cleanup
do_cleanup-At s m a =
    let fds = efds_cleanup m in
    preparers_cleanup-At IsKeptFd s (timers_cleanup fds)
      (timers_cleanup-At IsKeptFd s fds (efds_cleanup-At s m a))

prepared_fd-deleted : (f : EvFd) → (prepared_fd f).0.is_deleted ≡ f.is_deleted
unfolding prepared_fd
prepared_fd-deleted f = ground arith

prepare_fds-IsKeptFd :
    (sys : Sys) (cleanup : Bool) (efds : List EvFd) (actions : List Action)
    → All (IsKeptFd cleanup) efds
    → All (IsKeptFd cleanup) (prepare_fds sys efds actions).efds
unfolding prepare_fds
prepare_fds-IsKeptFd sys cleanup [] actions h = tt
prepare_fds-IsKeptFd sys cleanup (f ∷ efds) actions (h, hs) = (
  prepared_fd-deleted f ∙ h,
  prepare_fds-IsKeptFd sys cleanup efds (with_call (prepared_fd f).1 actions) hs,
)

efds_prepare-At :
    (s : State) (sys : Sys) (m : Mgr) → At IsKeptFd s m → At IsKeptFd s (efds_prepare sys m).1
unfolding efds_prepare
efds_prepare-At s sys m a =
    let p = prepare_fds sys m.efds m.actions in
    either (λ (r : Bool × Mgr). At IsKeptFd s r.1) m.efds_changed
      (p.ok, record m { efds = p.efds; actions = p.actions; efds_changed = false }) (true, m)
      (record {
        state = a.state;
        timers = a.timers;
        efds = prepare_fds-IsKeptFd sys m.efds_cleanup m.efds m.actions a.efds;
      })
      a

-- What a preparation leaves, from any state.
pub prepared-At :
    (s : State) (sys : Sys) (w : ℕ) (m : Mgr)
    → At IsSoundFd s m
    → At IsKeptFd ready
        (record (efds_prepare sys
          (timer_set sys (preparers_prepare (do_cleanup (record m { state = preparing }))) w).1).1 {
            state = ready;
          })
prepared-At s sys w m a =
    let start = record m { state = preparing } in
    let clean = preparers_prepare (do_cleanup start) in
    let begun : At IsSoundFd preparing start = record {
      state = refl;
      timers = a.timers;
      efds = a.efds;
    } in
    let set = timer_set-At IsKeptFd preparing sys clean w (
      preparers_prepare-At IsKeptFd preparing (do_cleanup start)
        (do_cleanup-At preparing start begun)) in
    let r = efds_prepare-At preparing sys (timer_set sys clean w).1 set in
    record { state = refl; timers = r.timers; efds = r.efds }
