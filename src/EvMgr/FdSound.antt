-- ===== src/EvMgr/FdSound.antt =====
-- What the operations on descriptors and timers of src/sandbox/ev-mgr.c keep of a manager.
use rp_lib_utils.Common.{
  either, ℕ, refl, arith, Bool, true, false, ◌&&◌, ◌||◌, List, [], ◌∷◌, All, Option, none, some,
  ◌==◌, if◌then◌else◌,
}
use rp_lib_utils.EvMgr.Model.{
  EvFd, Action, ctl_add, ctl_mod, ctl_del, closes, calls_fd, State, Mgr, Sys, does, one_more,
  one_less,
}
use rp_lib_utils.EvMgr.Fds.{
  FdArgs, new_fd, ev_mgr_add_fd, find_fd, replace_fd, put_fd, ev_fd_addref, dead_fd, unref_fd,
  ev_fd_unref, tried, set_fd_events, ev_fd_set_events, ev_fd_set_handler, hangs_up, unwatched,
  closed, hung_up, dispatch_fd, fd_dispatch,
}
use rp_lib_utils.EvMgr.Sound.{IsSoundFd, At}

-- A cleanup that becomes due allows descriptors to be deleted.
flagged :
    (cleanup : Bool) (efds : List EvFd) → All (IsSoundFd cleanup) efds → All (IsSoundFd true) efds
flagged cleanup [] h = tt
flagged cleanup (f ∷ efds) ((a, d), hs) = ((a, ground (arith)), flagged cleanup efds hs)

replace_fd-All :
    (P : EvFd → Type 0) (f : EvFd) (efds : List EvFd) → P f → All P efds → All P (replace_fd f efds)
unfolding replace_fd
replace_fd-All P f [] h hs = tt
replace_fd-All P f (g ∷ efds) h (k, ks) =
    (either P (g.id == f.id) f g h k, replace_fd-All P f efds h ks)

-- What is found is one of the list.
abbrev OneFd : (EvFd → Type 0) → Option EvFd → Type 0
OneFd P none = Unit
OneFd P (some f) = P f

find_fd-OneFd :
    (P : EvFd → Type 0) (id : ℕ) (efds : List EvFd) → All P efds → OneFd P (find_fd id efds)
unfolding find_fd
find_fd-OneFd P id [] h = tt
find_fd-OneFd P id (f ∷ efds) (h, hs) =
    either (OneFd P) (f.id == id) (some f) (find_fd id efds) h (find_fd-OneFd P id efds hs)

module _ (s : State) where
  abbrev Sound : Mgr → Type 0
  Sound = At IsSoundFd s

  put_fd-Sound : (f : EvFd) (m : Mgr) → IsSoundFd m.efds_cleanup f → Sound m → Sound (put_fd f m)
  put_fd-Sound f m h a = record {
    state = a.state;
    timers = a.timers;
    efds = replace_fd-All (IsSoundFd m.efds_cleanup) f m.efds h a.efds;
  }

  does-Sound : (action : Action) (m : Mgr) → Sound m → Sound (does action m)
  does-Sound action m a = record { state = a.state; timers = a.timers; efds = a.efds }

  pub ev_mgr_add_fd-Sound :
      (sys : Sys) (m : Mgr) (args : FdArgs) → Sound m → Sound (ev_mgr_add_fd sys m args).1
  unfolding ev_mgr_add_fd
  ev_mgr_add_fd-Sound sys m args a =
      either (λ (r : Bool × Mgr). Sound r.1) sys.malloc
        (true, record m { efds = new_fd args ∷ m.efds; efds_changed = true }) (false, m)
        (record { state = a.state; timers = a.timers; efds = ((refl, refl), a.efds) }) a

  dead_fd-Sound : (sys : Sys) (f : EvFd) → IsSoundFd true (dead_fd sys f)
  unfolding dead_fd
  dead_fd-Sound sys f = (refl, refl)

  unref_fd-Sound :
      (sys : Sys) (f : EvFd) (m : Mgr)
      → IsSoundFd m.efds_cleanup f
      → Sound m
      → Sound (unref_fd sys f m)
  unfolding unref_fd
  unref_fd-Sound sys f m h a =
      either Sound (one_less f.refcount == 0)
        (record (put_fd (dead_fd sys f) m) {
          efds_cleanup = true;
          actions = (if f.is_active && f.is_set then ctl_del f.fd ∷ m.actions else m.actions);
        })
        (put_fd (record f { refcount = one_less f.refcount }) m)
        (record {
          state = a.state;
          timers = a.timers;
          efds =
              replace_fd-All (IsSoundFd true) (dead_fd sys f) m.efds (dead_fd-Sound sys f)
                (flagged m.efds_cleanup m.efds a.efds);
        })
        (put_fd-Sound (record f { refcount = one_less f.refcount }) m h a)

  tried-Sound :
      (sys : Sys) (action : Action) (f f' : EvFd) (m : Mgr)
      → IsSoundFd m.efds_cleanup f
      → IsSoundFd m.efds_cleanup f'
      → Sound m
      → Sound (tried sys action f f' m)
  unfolding tried
  tried-Sound sys action f f' m h h' a =
      let changed =
        put_fd-Sound (record f { has_changed = true }) (does action m) h (does-Sound action m a) in
      either Sound (sys.epoll_ctl action) (put_fd f' (does action m))
        (record (put_fd (record f { has_changed = true }) (does action m)) { efds_changed = true })
        (put_fd-Sound f' (does action m) h' (does-Sound action m a))
        (record { state = changed.state; timers = changed.timers; efds = changed.efds })

  set_fd_events-Sound :
      (sys : Sys) (f : EvFd) (events : ℕ) (m : Mgr)
      → IsSoundFd m.efds_cleanup f
      → Sound m
      → Sound (set_fd_events sys f events m)
  unfolding set_fd_events
  set_fd_events-Sound sys f events m h a =
      let f' = record f { events = events } in
      let mods = tried sys (ctl_mod f.fd events) f' f' m in
      let adds = tried sys (ctl_add f.fd events) f' (record f' { is_set = true }) m in
      let dels = tried sys (ctl_del f.fd) f' (record f' { is_set = false }) m in
      either Sound (f.events == events) m
        (if f.is_active
          then (if f.is_set then mods else adds)
          else if f.is_set
          then dels
          else put_fd f' m)
        a
        (either Sound f.is_active (if f.is_set then mods else adds)
          (if f.is_set then dels else put_fd f' m)
          (either Sound f.is_set mods adds (tried-Sound sys (ctl_mod f.fd events) f' f' m h h a)
            (tried-Sound sys (ctl_add f.fd events) f' (record f' { is_set = true }) m h h a))
          (either Sound f.is_set dels (put_fd f' m)
            (tried-Sound sys (ctl_del f.fd) f' (record f' { is_set = false }) m h h a)
            (put_fd-Sound f' m h a)))

  found_one : (id : ℕ) (m : Mgr) → Sound m → OneFd (IsSoundFd m.efds_cleanup) (find_fd id m.efds)
  found_one id m a = find_fd-OneFd (IsSoundFd m.efds_cleanup) id m.efds a.efds

  pub ev_fd_addref-Sound : (id : ℕ) (m : Mgr) → Sound m → Sound (ev_fd_addref id m)
  unfolding ev_fd_addref
  ev_fd_addref-Sound id m a = go (find_fd id m.efds) (found_one id m a)
    where
      go :
          (o : Option EvFd)
          → OneFd (IsSoundFd m.efds_cleanup) o
          → Sound (elim o as (λ q. Mgr) [
            | none ↦ m
            | some f ↦ put_fd (record f { refcount = one_more f.refcount }) m
          ])
      go none h = a
      go (some f) h = put_fd-Sound (record f { refcount = one_more f.refcount }) m h a

  pub ev_fd_unref-Sound : (sys : Sys) (id : ℕ) (m : Mgr) → Sound m → Sound (ev_fd_unref sys id m)
  unfolding ev_fd_unref
  ev_fd_unref-Sound sys id m a = go (find_fd id m.efds) (found_one id m a)
    where
      go :
          (o : Option EvFd)
          → OneFd (IsSoundFd m.efds_cleanup) o
          → Sound (elim o as (λ q. Mgr) [ none ↦ m | some f ↦ unref_fd sys f m ])
      go none h = a
      go (some f) h = unref_fd-Sound sys f m h a

  pub ev_fd_set_events-Sound :
      (sys : Sys) (id events : ℕ) (m : Mgr) → Sound m → Sound (ev_fd_set_events sys id events m)
  unfolding ev_fd_set_events
  ev_fd_set_events-Sound sys id events m a = go (find_fd id m.efds) (found_one id m a)
    where
      go :
          (o : Option EvFd)
          → OneFd (IsSoundFd m.efds_cleanup) o
          → Sound (elim o as (λ q. Mgr) [ none ↦ m | some f ↦ set_fd_events sys f events m ])
      go none h = a
      go (some f) h = set_fd_events-Sound sys f events m h a

  pub ev_fd_set_handler-Sound :
      (id handler : ℕ) (m : Mgr) → Sound m → Sound (ev_fd_set_handler id handler m)
  unfolding ev_fd_set_handler
  ev_fd_set_handler-Sound id handler m a = go (find_fd id m.efds) (found_one id m a)
    where
      go :
          (o : Option EvFd)
          → OneFd (IsSoundFd m.efds_cleanup) o
          → Sound (elim o as (λ q. Mgr) [
            | none ↦ m
            | some f ↦ put_fd (record f { handler = handler }) m
          ])
      go none h = a
      go (some f) h = put_fd-Sound (record f { handler = handler }) m h a

  -- A descriptor with a manager.
  abbrev Pair : EvFd × Mgr → Type 0
  Pair (f, m) = IsSoundFd m.efds_cleanup f × Sound m

  unwatched-Pair :
      (f : EvFd) (m : Mgr) → IsSoundFd m.efds_cleanup f → Sound m → Pair (unwatched f m)
  unwatched-Pair f m h a =
      either Pair (f.is_set && (f.auto_close || f.auto_unref))
        (record f { is_set = false; is_active = false }, does (ctl_del f.fd) m) (f, m)
        ((refl, h.1), does-Sound (ctl_del f.fd) m a) (h, a)

  closed-Pair : (fd : ℕ) (r : EvFd × Mgr) → Pair r → Pair (closed fd r)
  closed-Pair fd (f, m) (h, a) =
      either Pair f.auto_close (record f { fd = none }, does (closes fd) m) (f, m)
        (h, does-Sound (closes fd) m a) (h, a)

  hung_up-Pair : (f : EvFd) (m : Mgr) → IsSoundFd m.efds_cleanup f → Sound m → Pair (hung_up f m)
  unfolding hung_up
  hung_up-Pair f m h a = go f.fd
    where
      go :
          (o : Option ℕ)
          → Pair
              (elim o as (λ q. EvFd × Mgr) [ none ↦ (f, m) | some fd ↦ closed fd (unwatched f m) ])
      go none = (h, a)
      go (some fd) = closed-Pair fd (unwatched f m) (unwatched-Pair f m h a)

  dispatch_fd-Sound :
      (sys : Sys) (f : EvFd) (events : ℕ) (m : Mgr)
      → IsSoundFd m.efds_cleanup f
      → Sound m
      → Sound (dispatch_fd sys f events m)
  unfolding dispatch_fd
  dispatch_fd-Sound sys f events m h a =
      let called = does (calls_fd f.handler f.fd events) m in
      let (f', m') = hung_up f called in
      let (h', a') = hung_up-Pair f called h (does-Sound (calls_fd f.handler f.fd events) m a) in
      let put = put_fd-Sound f' m' h' a' in
      either Sound (hangs_up events)
        (if f.auto_unref then unref_fd sys f' (put_fd f' m') else put_fd f' m') called
        (either Sound f.auto_unref (unref_fd sys f' (put_fd f' m')) (put_fd f' m')
          (unref_fd-Sound sys f' (put_fd f' m') h' put) put)
        (does-Sound (calls_fd f.handler f.fd events) m a)

  -- What a dispatch gives, if it returns.
  abbrev pub Ends : Option Mgr → Type 0
  Ends none = Unit
  Ends (some m) = Sound m

  pub fd_dispatch-Ends :
      (sys : Sys) (id events : ℕ) (m : Mgr) → Sound m → Ends (fd_dispatch sys id events m)
  unfolding fd_dispatch
  fd_dispatch-Ends sys id events m a = go (find_fd id m.efds) (found_one id m a)
    where
      go :
          (o : Option EvFd)
          → OneFd (IsSoundFd m.efds_cleanup) o
          → Ends (elim o as (λ q. Option Mgr) [
            | none ↦ none
            | some f ↦ some (dispatch_fd sys f events m)
          ])
      go none h = tt
      go (some f) h = dispatch_fd-Sound sys f events m h a
