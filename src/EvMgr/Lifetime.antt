-- ===== src/EvMgr/Lifetime.antt =====
-- How a manager of src/sandbox/ev-mgr.c is made and dropped.
use rp_lib_utils.Common.{
  ℕ, Bool, true, false, List, [], ◌∷◌, Option, none, some, ◌==◌, if◌then◌else◌,
}
use rp_lib_utils.EvMgr.Model.{
  EvFd, EvTimer, EvPrepare, idle, the_timer, Action, ctl_add, closes, Mgr, does, one_more, one_less,
}
use rp_lib_utils.EvMgr.Timers.{epollin}
use rp_lib_utils.EvMgr.Fds.{closing}
use rp_lib_utils.EvMgr.Loop.{do_cleanup}

-- A manager with its own descriptors.
pub record Handle : Type 0 where
  pub mgr : Mgr
  pub epollfd : ℕ
  pub eventfd : ℕ

-- What the system gives to `ev_mgr_create`.
pub record Resources : Type 0 where
  pub calloc : Bool
  pub epoll_create1 : Option ℕ
  pub eventfd : Option ℕ
  pub epoll_ctl : Bool

abbrev pub fresh_mgr : Mgr
fresh_mgr = record {
  holder = 0;
  efds = [];
  timers = [];
  preparers = [];
  event = (the_timer, 0);
  timerfd = none;
  last_timer = 0;
  refcount = 1;
  state = idle;
  efds_changed = false;
  efds_cleanup = false;
  timers_cleanup = false;
  preparers_cleanup = false;
  actions = [];
}

abbrev pub with_eventfd : Resources → ℕ → Option ℕ → Option Handle × List Action
with_eventfd sys epollfd none = (none, closes epollfd ∷ [])
with_eventfd sys epollfd (some eventfd) =
    let added = ctl_add (some eventfd) epollin in
    if sys.epoll_ctl
    then (
      some (record { mgr = does added fresh_mgr; epollfd = epollfd; eventfd = eventfd }),
      added ∷ [],
    )
    else (none, closes epollfd ∷ closes eventfd ∷ added ∷ [])

-- The manager, if there is one, and the actions, the latest first.
unfoldable pub ev_mgr_create : Resources → Option Handle × List Action
ev_mgr_create sys =
    let created : Option Handle × List Action = elim sys.epoll_create1 [
      | none ↦ (none, [])
      | some epollfd ↦ with_eventfd sys epollfd sys.eventfd
    ] in
    if sys.calloc then created else (none, [])

unfoldable pub ev_mgr_addref : Mgr → Mgr
ev_mgr_addref m = record m { refcount = one_more m.refcount }

-- A manager that is kept, or the objects left without one and all actions.
pub data Unreffed : Type 0 where
  alive : Mgr → Unreffed
  freed : List EvFd → List EvTimer → List EvPrepare → List Action → Unreffed

unfoldable pub ev_mgr_unref : Handle → Unreffed
ev_mgr_unref h =
    let clean = do_cleanup h.mgr in
    let own = closes h.eventfd ∷ closes h.epollfd ∷ clean.actions in
    if one_less clean.refcount == 0
    then freed clean.efds clean.timers clean.preparers (closing true clean.timerfd own)
    else alive (record clean { refcount = one_less clean.refcount })

-- `ev_mgr_get_fd`
abbrev pub ev_mgr_get_fd : Handle → ℕ
ev_mgr_get_fd h = h.epollfd
