-- ===== src/EvMgr/Closing.antt =====
-- Which descriptors the cleanup of src/sandbox/ev-mgr.c closes.
use rp_lib_utils.Common.{
  ℕ, ◌+◌, ◌≡◌, refl, ap, ◌∙◌, arith, Bool, true, false, ◌&&◌, Bool-cases, inl, inr, List, [], ◌∷◌,
  Option, none, some, ◌==◌, if◌then◌else◌,
}
use rp_lib_utils.EvMgr.Model.{
  EvFd, Action, ctl_add, ctl_mod, ctl_del, closes, sets_timer, calls_fd, calls_timer, calls_prepare,
  wakes, reads_wakeup, Mgr,
}
use rp_lib_utils.EvMgr.Fds.{closing, freeing, kept_fds, efds_cleanup}
use rp_lib_utils.EvMgr.Watching.{is_fd}

abbrev pub closes_fd : ℕ → Action → ℕ
closes_fd n (closes fd) = if fd == n then 1 else 0
closes_fd n (ctl_add fd events) = 0
closes_fd n (ctl_mod fd events) = 0
closes_fd n (ctl_del fd) = 0
closes_fd n (sets_timer when) = 0
closes_fd n (calls_fd handler fd events) = 0
closes_fd n (calls_timer id decount) = 0
closes_fd n (calls_prepare handler) = 0
closes_fd n wakes = 0
closes_fd n reads_wakeup = 0

-- How often a descriptor was closed.
abbrev pub closed_times : ℕ → List Action → ℕ
closed_times n [] = 0
closed_times n (action ∷ actions) = closes_fd n action + closed_times n actions

-- How many deleted objects own a descriptor.
abbrev pub owners : ℕ → List EvFd → ℕ
owners n [] = 0
owners n (f ∷ efds) =
    (if f.is_deleted && f.auto_close && is_fd n f.fd then 1 else 0) + owners n efds

abbrev pub undeleted : List EvFd → List EvFd
undeleted [] = []
undeleted (f ∷ efds) = if f.is_deleted then undeleted efds else f ∷ undeleted efds

closing-times :
    (n : ℕ) (auto_close : Bool) (fd : Option ℕ) (actions : List Action)
    → closed_times n (closing auto_close fd actions)
      ≡ (if auto_close && is_fd n fd then 1 else 0) + closed_times n actions
closing-times n false none actions = omega arith
closing-times n true none actions = omega arith
closing-times n false (some fd) actions = omega arith
closing-times n true (some fd) actions = refl

freeing-times :
    (n : ℕ) (f : EvFd) (actions : List Action)
    → closed_times n (freeing f actions)
      ≡ (if f.auto_close && is_fd n f.fd then 1 else 0) + closed_times n actions
freeing-times n f actions = elim (Bool-cases f.is_set) [
  | inl e ↦ omega (
    arith,
    closing-times n f.auto_close f.fd (if f.is_set then ctl_del f.fd ∷ actions else actions),
    set e,
  )
  | inr e ↦ omega (
    arith,
    closing-times n f.auto_close f.fd (if f.is_set then ctl_del f.fd ∷ actions else actions),
    unset e,
  )
]
  where
    set :
        f.is_set ≡ true
        → closed_times n (if f.is_set then ctl_del f.fd ∷ actions else actions)
          ≡ closed_times n actions
    set e = rw e (omega arith)

    unset :
        f.is_set ≡ false
        → closed_times n (if f.is_set then ctl_del f.fd ∷ actions else actions)
          ≡ closed_times n actions
    unset e = rw e refl

record Kept (n : ℕ) (efds : List EvFd) (actions : List Action) (r : List EvFd × List Action)
    : Type 0 where
  kept : r.0 ≡ undeleted efds
  times : closed_times n r.1 ≡ owners n efds + closed_times n actions

kept_fds-Kept :
    (efds : List EvFd) (n : ℕ) (actions : List Action) → Kept n efds actions (kept_fds efds actions)
unfolding kept_fds
kept_fds-Kept [] n actions = record { kept = refl; times = omega arith }
kept_fds-Kept (f ∷ efds) n actions = elim (Bool-cases f.is_deleted) [
  | inl e ↦
      let rest = kept_fds-Kept efds n (freeing f actions) in
      rw e
        (record { kept = rest.kept; times = omega (arith, rest.times, freeing-times n f actions) })
  | inr e ↦
      let rest = kept_fds-Kept efds n actions in
      rw e (record {
        kept = ap (λ (l : List EvFd). record f { is_deleted = false } ∷ l) rest.kept;
        times = omega (arith, rest.times);
      })
]

owners-undeleted : (n : ℕ) (efds : List EvFd) → owners n (undeleted efds) ≡ 0
owners-undeleted n [] = refl
owners-undeleted n (f ∷ efds) = elim (Bool-cases f.is_deleted) [
  | inl e ↦ rw e (owners-undeleted n efds)
  | inr e ↦ rw e (omega (arith, owners-undeleted n efds))
]

-- When a cleanup of the descriptors is due, `efds_cleanup` keeps those that are not deleted, in their
-- order, and closes each descriptor as often as deleted objects with automatic closing hold it, and
-- no other; the next cleanup has nothing to close.
pub efds_cleanup-closes :
    (m : Mgr) (n : ℕ)
    → m.efds_cleanup ≡ true
    → ((efds_cleanup m).efds ≡ undeleted m.efds)
      × (closed_times n (efds_cleanup m).actions ≡ owners n m.efds + closed_times n m.actions)
      × (owners n (efds_cleanup m).efds ≡ 0)
unfolding efds_cleanup
efds_cleanup-closes m n c =
    let kept = kept_fds-Kept m.efds n m.actions in
    rw c (kept.kept, kept.times, ap (owners n) kept.kept ∙ owners-undeleted n m.efds)
