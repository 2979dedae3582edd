-- ===== src/EvMgr/Lone.antt =====
-- Objects of src/sandbox/ev-mgr.c whose manager is gone.
use rp_lib_utils.Common.{ℕ, ◌&&◌, ◌||◌, List, [], ◌==◌, if◌then◌else◌}
use rp_lib_utils.EvMgr.Model.{EvFd, EvTimer, EvPrepare, Action, one_more, one_less}
use rp_lib_utils.EvMgr.Fds.{closing}

-- An object that is kept, or freed with these actions; or the fields of a manager are used through
-- NULL.
pub data Lone {ℓ} (A : Type ℓ) : Type ℓ where
  kept : A → Lone A
  gone : List Action → Lone A
  faults : Lone A

unfoldable pub unref_lone_fd : EvFd → Lone EvFd
unref_lone_fd f =
    if one_less f.refcount == 0
    then (if f.is_active && f.is_set then faults else gone (closing f.auto_close f.fd []))
    else kept (record f { refcount = one_less f.refcount })

unfoldable pub addref_lone_fd : EvFd → Lone EvFd
addref_lone_fd f = kept (record f { refcount = one_more f.refcount })

-- Any call of `epoll_ctl` takes the descriptor of the manager.
unfoldable pub set_lone_events : ℕ → EvFd → Lone EvFd
set_lone_events events f =
    if f.events == events
    then kept f
    else if f.is_active || f.is_set
    then faults
    else kept (record f { events = events })

unfoldable pub set_lone_handler : ℕ → EvFd → Lone EvFd
set_lone_handler handler f = kept (record f { handler = handler })

unfoldable pub addref_lone_timer : EvTimer → Lone EvTimer
addref_lone_timer t = kept (record t { refcount = one_more t.refcount })

unfoldable pub unref_lone_timer : EvTimer → Lone EvTimer
unref_lone_timer t =
    if one_less t.refcount == 0 then faults else kept (record t { refcount = one_less t.refcount })

unfoldable pub addref_lone_prepare : EvPrepare → Lone EvPrepare
addref_lone_prepare p = kept (record p { refcount = one_more p.refcount })

unfoldable pub unref_lone_prepare : EvPrepare → Lone EvPrepare
unref_lone_prepare p =
    if one_less p.refcount == 0 then gone [] else kept (record p { refcount = one_less p.refcount })
