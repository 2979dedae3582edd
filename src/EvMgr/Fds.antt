-- ===== src/EvMgr/Fds.antt =====
-- The file descriptors of src/sandbox/ev-mgr.c.
use rp_lib_utils.Common.{
  ℕ, ◌/◌, ◌%◌, Bool, true, false, not, ◌&&◌, ◌||◌, List, [], ◌∷◌, Option, none, some, ◌==◌,
  if◌then◌else◌,
}
use rp_lib_utils.EvMgr.Model.{
  EvFd, Action, ctl_add, ctl_mod, ctl_del, closes, calls_fd, Mgr, Sys, does, one_more, one_less,
}

-- What `ev_mgr_add_fd` is called with; `id` is the address of the new block.
pub record FdArgs : Type 0 where
  pub id : ℕ
  pub fd : Option ℕ
  pub events : ℕ
  pub handler : ℕ
  pub autounref : Bool
  pub autoclose : Bool

abbrev pub new_fd : FdArgs → EvFd
new_fd args = record {
  id = args.id;
  handler = args.handler;
  fd = args.fd;
  events = args.events;
  refcount = 1;
  is_active = true;
  is_set = false;
  has_changed = false;
  is_deleted = false;
  auto_close = args.autoclose;
  auto_unref = args.autounref;
}

-- The result is false where an error is returned.
unfoldable pub ev_mgr_add_fd : Sys → Mgr → FdArgs → Bool × Mgr
ev_mgr_add_fd sys m args =
    if sys.malloc
    then (true, record m { efds = new_fd args ∷ m.efds; efds_changed = true })
    else (false, m)

unfoldable pub find_fd : ℕ → List EvFd → Option EvFd
find_fd id [] = none
find_fd id (f ∷ efds) = let rest = find_fd id efds in if f.id == id then some f else rest

-- The list with `f` in place of the descriptor with its identity.
unfoldable pub replace_fd : EvFd → List EvFd → List EvFd
replace_fd f [] = []
replace_fd f (g ∷ efds) = (if g.id == f.id then f else g) ∷ replace_fd f efds

abbrev pub put_fd : EvFd → Mgr → Mgr
put_fd f m = record m { efds = replace_fd f m.efds }

unfoldable pub ev_fd_addref : ℕ → Mgr → Mgr
ev_fd_addref id m = elim (find_fd id m.efds) [
  | none ↦ m
  | some f ↦ put_fd (record f { refcount = one_more f.refcount }) m
]

-- A descriptor behind its last reference.
unfoldable pub dead_fd : Sys → EvFd → EvFd
dead_fd sys f = record f {
  refcount = 0;
  is_set = f.is_set && not (f.is_active && sys.epoll_ctl (ctl_del f.fd));
  is_active = false;
  is_deleted = true;
}

unfoldable pub unref_fd : Sys → EvFd → Mgr → Mgr
unref_fd sys f m =
    if one_less f.refcount == 0
    then record (put_fd (dead_fd sys f) m) {
      efds_cleanup = true;
      actions = (if f.is_active && f.is_set then ctl_del f.fd ∷ m.actions else m.actions);
    }
    else put_fd (record f { refcount = one_less f.refcount }) m

unfoldable pub ev_fd_unref : Sys → ℕ → Mgr → Mgr
ev_fd_unref sys id m = elim (find_fd id m.efds) [ none ↦ m | some f ↦ unref_fd sys f m ]

-- A call of `epoll_ctl`: the descriptor is `f'` if it succeeds, else `f`, with a change to be made.
unfoldable pub tried : Sys → Action → EvFd → EvFd → Mgr → Mgr
tried sys action f f' m =
    if sys.epoll_ctl action
    then put_fd f' (does action m)
    else record (put_fd (record f { has_changed = true }) (does action m)) { efds_changed = true }

unfoldable pub set_fd_events : Sys → EvFd → ℕ → Mgr → Mgr
set_fd_events sys f events m =
    let f' = record f { events = events } in
    if f.events == events
    then m
    else if f.is_active
    then (if f.is_set
        then tried sys (ctl_mod f.fd events) f' f' m
        else tried sys (ctl_add f.fd events) f' (record f' { is_set = true }) m)
    else if f.is_set
    then tried sys (ctl_del f.fd) f' (record f' { is_set = false }) m
    else put_fd f' m

unfoldable pub ev_fd_set_events : Sys → ℕ → ℕ → Mgr → Mgr
ev_fd_set_events sys id events m = elim (find_fd id m.efds) [
  | none ↦ m
  | some f ↦ set_fd_events sys f events m
]

abbrev pub ev_fd_fd : EvFd → Option ℕ
ev_fd_fd f = f.fd

abbrev pub ev_fd_events : EvFd → ℕ
ev_fd_events f = f.events

unfoldable pub ev_fd_set_handler : ℕ → ℕ → Mgr → Mgr
ev_fd_set_handler id handler m = elim (find_fd id m.efds) [
  | none ↦ m
  | some f ↦ put_fd (record f { handler = handler }) m
]

-- `events & EPOLLHUP`
abbrev pub hangs_up : ℕ → Bool
hangs_up events = events / 16 % 2 == 1

-- A descriptor that hangs up, and the calls made for it, the latest first: it is no longer watched.
abbrev pub unwatched : EvFd → Mgr → EvFd × Mgr
unwatched f m =
    if f.is_set && (f.auto_close || f.auto_unref)
    then (record f { is_set = false; is_active = false }, does (ctl_del f.fd) m)
    else (f, m)

-- It is closed.
abbrev pub closed : ℕ → EvFd × Mgr → EvFd × Mgr
closed fd (f, m) = if f.auto_close then (record f { fd = none }, does (closes fd) m) else (f, m)

unfoldable pub hung_up : EvFd → Mgr → EvFd × Mgr
hung_up f m = elim f.fd [ none ↦ (f, m) | some fd ↦ closed fd (unwatched f m) ]

unfoldable pub dispatch_fd : Sys → EvFd → ℕ → Mgr → Mgr
dispatch_fd sys f events m =
    let called = does (calls_fd f.handler f.fd events) m in
    let (f', m') = hung_up f called in
    if hangs_up events
    then (if f.auto_unref then unref_fd sys f' (put_fd f' m') else put_fd f' m')
    else called

-- The event points to the descriptor with this identity; `none` where that has been freed, whose
-- memory the code then uses. The handler leaves the manager alone.
unfoldable pub fd_dispatch : Sys → ℕ → ℕ → Mgr → Option Mgr
fd_dispatch sys id events m = elim (find_fd id m.efds) [
  | none ↦ none
  | some f ↦ some (dispatch_fd sys f events m)
]

-- A descriptor that is prepared, and the call of `epoll_ctl` that this takes.
unfoldable pub prepared_fd : EvFd → EvFd × Option Action
prepared_fd f =
    if f.is_active
    then (if not f.is_set
        then (record f { is_set = true; has_changed = false }, some (ctl_add f.fd f.events))
        else if f.has_changed
        then (record f { has_changed = false }, some (ctl_mod f.fd f.events))
        else (f, none))
    else if f.is_set
    then (record f { is_set = false; has_changed = false }, some (ctl_del f.fd))
    else (f, none)

-- The descriptors prepared, the actions so far and whether each call succeeded.
pub record Prepared : Type 0 where
  pub efds : List EvFd
  pub actions : List Action
  pub ok : Bool

abbrev pub with_call : Option Action → List Action → List Action
with_call none actions = actions
with_call (some action) actions = action ∷ actions

abbrev pub succeeds : Sys → Option Action → Bool
succeeds sys none = true
succeeds sys (some action) = sys.epoll_ctl action

unfoldable pub prepare_fds : Sys → List EvFd → List Action → Prepared
prepare_fds sys [] actions = record { efds = []; actions = actions; ok = true }
prepare_fds sys (f ∷ efds) actions =
    let call = (prepared_fd f).1 in
    let rest = prepare_fds sys efds (with_call call actions) in
    record rest { efds = (prepared_fd f).0 ∷ rest.efds; ok = succeeds sys call && rest.ok }

unfoldable pub efds_prepare : Sys → Mgr → Bool × Mgr
efds_prepare sys m =
    let p = prepare_fds sys m.efds m.actions in
    if m.efds_changed
    then (p.ok, record m { efds = p.efds; actions = p.actions; efds_changed = false })
    else (true, m)

-- The calls for a deleted descriptor.
abbrev pub closing : Bool → Option ℕ → List Action → List Action
closing auto_close none actions = actions
closing auto_close (some fd) actions = if auto_close then closes fd ∷ actions else actions

abbrev pub freeing : EvFd → List Action → List Action
freeing f actions = closing f.auto_close f.fd (if f.is_set then ctl_del f.fd ∷ actions else actions)

unfoldable pub kept_fds : List EvFd → List Action → List EvFd × List Action
kept_fds [] actions = ([], actions)
kept_fds (f ∷ efds) actions =
    let dropped = kept_fds efds (freeing f actions) in
    let (rest, calls) = kept_fds efds actions in if f.is_deleted then dropped else (f ∷ rest, calls)

unfoldable pub efds_cleanup : Mgr → Mgr
efds_cleanup m =
    let (kept, calls) = kept_fds m.efds m.actions in
    if m.efds_cleanup then record m { efds = kept; actions = calls; efds_cleanup = false } else m
