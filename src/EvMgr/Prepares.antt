-- ===== src/EvMgr/Prepares.antt =====
-- The preparers of src/sandbox/ev-mgr.c.
use rp_lib_utils.Common.{ℕ, Bool, true, false, List, [], ◌∷◌, ◌==◌, if◌then◌else◌}
use rp_lib_utils.EvMgr.Model.{EvPrepare, Action, calls_prepare, Mgr, Sys, one_more, one_less}

-- The new block has the address `id`; the result is false where an error is returned.
unfoldable pub ev_mgr_add_prepare : Sys → Mgr → ℕ → ℕ → Bool × Mgr
ev_mgr_add_prepare sys m id handler =
    let prep : EvPrepare = record { id = id; handler = handler; refcount = 1 } in
    if sys.malloc then (true, record m { preparers = prep ∷ m.preparers }) else (false, m)

unfoldable pub count_prepare : ℕ → (ℕ → ℕ) → List EvPrepare → List EvPrepare
count_prepare id f [] = []
count_prepare id f (p ∷ preparers) =
    (if p.id == id then record p { refcount = f p.refcount } else p) ∷ count_prepare id f preparers

unfoldable pub ev_prepare_addref : ℕ → Mgr → Mgr
ev_prepare_addref id m = record m { preparers = count_prepare id one_more m.preparers }

unfoldable pub last_prepare_ref : ℕ → List EvPrepare → Bool
last_prepare_ref id [] = false
last_prepare_ref id (p ∷ preparers) =
    let rest = last_prepare_ref id preparers in
    if p.id == id then one_less p.refcount == 0 else rest

unfoldable pub ev_prepare_unref : ℕ → Mgr → Mgr
ev_prepare_unref id m = record m {
  preparers = count_prepare id one_less m.preparers;
  preparers_cleanup = (if last_prepare_ref id m.preparers then true else m.preparers_cleanup);
}

unfoldable pub kept_preparers : List EvPrepare → List EvPrepare
kept_preparers [] = []
kept_preparers (p ∷ preparers) =
    let rest = kept_preparers preparers in if p.refcount == 0 then rest else p ∷ rest

unfoldable pub preparers_cleanup : Mgr → Mgr
preparers_cleanup m =
    if m.preparers_cleanup
    then record m { preparers_cleanup = false; preparers = kept_preparers m.preparers }
    else m

-- The actions with the calls of the handlers, which leave the manager alone.
unfoldable pub call_preparers : List EvPrepare → List Action → List Action
call_preparers [] actions = actions
call_preparers (p ∷ preparers) actions =
    call_preparers preparers
      (if p.refcount == 0 then actions else calls_prepare p.handler ∷ actions)

unfoldable pub preparers_prepare : Mgr → Mgr
preparers_prepare m = record m { actions = call_preparers m.preparers m.actions }
