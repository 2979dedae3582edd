-- ===== src/EvMgr/LifeSafe.antt =====
-- The managers of src/sandbox/ev-mgr.c that are made, and those that keep a reference.
use rp_lib_utils.Common.{
  either, ℕ, refl, Bool, true, false, List, [], ◌∷◌, Option, none, some, ◌==◌,
}
use rp_lib_utils.EvMgr.Model.{Action, ctl_add, closes, does, one_less}
use rp_lib_utils.EvMgr.Timers.{epollin}
use rp_lib_utils.EvMgr.Fds.{closing}
use rp_lib_utils.EvMgr.Loop.{do_cleanup}
use rp_lib_utils.EvMgr.Lifetime.{
  Handle, Resources, fresh_mgr, with_eventfd, ev_mgr_create, Unreffed, alive, freed, ev_mgr_unref,
}
use rp_lib_utils.EvMgr.Sound.{do_cleanup-At}
use rp_lib_utils.EvMgr.Safe.{IsSound, settled, IsSound-At, kept_sound}

abbrev pub Alive : Unreffed → Type 0
Alive (alive m) = IsSound m
Alive (freed efds timers preparers actions) = Unit

pub ev_mgr_unref-Alive : (h : Handle) → IsSound h.mgr → Alive (ev_mgr_unref h)
unfolding ev_mgr_unref
ev_mgr_unref-Alive h v =
    let clean = do_cleanup h.mgr in
    let a = do_cleanup-At h.mgr.state h.mgr (IsSound-At h.mgr v) in
    let own = closes h.eventfd ∷ closes h.epollfd ∷ clean.actions in
    let kept = record clean { refcount = one_less clean.refcount } in
    either Alive (one_less clean.refcount == 0)
      (freed clean.efds clean.timers clean.preparers (closing true clean.timerfd own)) (alive kept)
      tt
      (settled h.mgr.state kept v.rest (
        kept_sound h.mgr.state kept (record { state = a.state; timers = a.timers; efds = a.efds })))

abbrev pub Made : Option Handle → Type 0
Made none = Unit
Made (some h) = IsSound h.mgr

with_eventfd-Made :
    (sys : Resources) (epollfd : ℕ) (o : Option ℕ) → Made (with_eventfd sys epollfd o).0
with_eventfd-Made sys epollfd none = tt
with_eventfd-Made sys epollfd (some eventfd) =
    let added = ctl_add (some eventfd) epollin in
    either (λ (r : Option Handle × List Action). Made r.0) sys.epoll_ctl
      (
        some (record { mgr = does added fresh_mgr; epollfd = epollfd; eventfd = eventfd }),
        added ∷ [],
      )
      (none, closes epollfd ∷ closes eventfd ∷ added ∷ [])
      (record { rest = refl; timers = tt; efds = tt }) tt

pub ev_mgr_create-Made : (sys : Resources) → Made (ev_mgr_create sys).0
unfolding ev_mgr_create
ev_mgr_create-Made sys = go sys.calloc sys.epoll_create1
  where
    go :
        (calloc : Bool) (fd : Option ℕ)
        → Made (ev_mgr_create (record sys { calloc = calloc; epoll_create1 = fd })).0
    go false fd = tt
    go true none = tt
    go true (some fd) =
        with_eventfd-Made (record sys { calloc = true; epoll_create1 = some fd }) fd sys.eventfd
