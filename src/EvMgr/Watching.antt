-- ===== src/EvMgr/Watching.antt =====
-- What the preparation of src/sandbox/ev-mgr.c asks `epoll_ctl` for.
use rp_lib_utils.Common.{
  ℕ, ◌≡◌, refl, ap, sym, ◌∙◌, Bool, true, false, ◌&&◌, Bool-cases, inl, inr, List, [], ◌∷◌, All,
  Option, none, some, ◌==◌, if◌then◌else◌,
}
use rp_lib_utils.EvMgr.Model.{
  EvFd, Action, ctl_add, ctl_mod, ctl_del, closes, sets_timer, calls_fd, calls_timer, calls_prepare,
  wakes, reads_wakeup, Mgr, Sys,
}
use rp_lib_utils.EvMgr.Fds.{prepared_fd, with_call, prepare_fds, efds_prepare}

abbrev pub is_fd : ℕ → Option ℕ → Bool
is_fd n none = false
is_fd n (some k) = k == n

-- The events that the latest call for a descriptor asks for.
abbrev pub asked : ℕ → List Action → Option ℕ
asked n [] = none
asked n (ctl_add fd events ∷ actions) = if is_fd n fd then some events else asked n actions
asked n (ctl_mod fd events ∷ actions) = if is_fd n fd then some events else asked n actions
asked n (ctl_del fd ∷ actions) = if is_fd n fd then none else asked n actions
asked n (closes fd ∷ actions) = asked n actions
asked n (sets_timer when ∷ actions) = asked n actions
asked n (calls_fd handler fd events ∷ actions) = asked n actions
asked n (calls_timer id decount ∷ actions) = asked n actions
asked n (calls_prepare handler ∷ actions) = asked n actions
asked n (wakes ∷ actions) = asked n actions
asked n (reads_wakeup ∷ actions) = asked n actions

-- What is to be asked for a descriptor.
abbrev pub wanted : EvFd → Option ℕ
wanted f = if f.is_active then some f.events else none

-- What is asked for a descriptor that is set is up to date unless it has changed, and nothing is asked
-- for one that is not set.
abbrev pub IsTracked : List Action → EvFd → Type 0
IsTracked actions f =
    (n : ℕ)
    → is_fd n f.fd ≡ true
    → (f.is_set && f.has_changed) ≡ false
    → asked n actions ≡ (if f.is_set then some f.events else none)

abbrev pub IsWatched : List Action → EvFd → Type 0
IsWatched actions f = (n : ℕ) → is_fd n f.fd ≡ true → asked n actions ≡ wanted f

-- The descriptors differ from `f`'s.
abbrev pub Differs : EvFd → EvFd → Type 0
Differs f g = (n : ℕ) → is_fd n f.fd ≡ true → is_fd n g.fd ≡ false

abbrev pub Distinct : List EvFd → Type 0
Distinct [] = Unit
Distinct (f ∷ efds) = All (Differs f) efds × Distinct efds

-- What the preparation of a descriptor does: to it, and to what is asked for others.
record Prepares (f : EvFd) (actions : List Action) (p : EvFd × Option Action) : Type 0 where
  same : p.0.fd ≡ f.fd
  active : p.0.is_active ≡ f.is_active
  set : p.0.is_set ≡ f.is_active
  unchanged : (p.0.is_set && p.0.has_changed) ≡ false
  watched : IsWatched (with_call p.1 actions) p.0
  others : (n : ℕ) → is_fd n f.fd ≡ false → asked n (with_call p.1 actions) ≡ asked n actions

-- The fields of a descriptor that is prepared, and the questions behind it, are put together.
prepares :
    {f : EvFd} {actions : List Action} (p : EvFd × Option Action)
    → p.0.fd ≡ f.fd
    → p.0.is_active ≡ f.is_active
    → p.0.is_set ≡ f.is_active
    → (p.0.is_set && p.0.has_changed) ≡ false
    → IsWatched (with_call p.1 actions) p.0
    → ((n : ℕ) → is_fd n f.fd ≡ false → asked n (with_call p.1 actions) ≡ asked n actions)
    → Prepares f actions p
prepares p fd active set unchanged watched others = record {
  same = fd;
  active = active;
  set = set;
  unchanged = unchanged;
  watched = watched;
  others = others;
}

prepared_fd-Prepares :
    (f : EvFd) (actions : List Action) → IsTracked actions f → Prepares f actions (prepared_fd f)
unfolding prepared_fd
prepared_fd-Prepares f actions h = elim (Bool-cases f.is_active) [
  | inl a ↦ elim (Bool-cases f.is_set) [
    | inl s ↦ elim (Bool-cases f.has_changed) [
      | inl c ↦ rw (a, s, c) (prepares _ refl refl refl refl (λ n e. rw e refl) (λ n e. rw e refl))
      | inr c ↦
          rw (a, s, c)
            (prepares _ refl refl refl refl (λ n e. h n e (rw (s, c) refl) ∙ rw s refl)
              (λ n e. refl))
    ]
    | inr s ↦ rw (a, s) (prepares _ refl refl refl refl (λ n e. rw e refl) (λ n e. rw e refl))
  ]
  | inr a ↦ elim (Bool-cases f.is_set) [
    | inl s ↦ rw (a, s) (prepares _ refl refl refl refl (λ n e. rw e refl) (λ n e. rw e refl))
    | inr s ↦
        rw (a, s)
          (prepares _ refl refl refl refl (λ n e. h n e (rw s refl) ∙ rw s refl) (λ n e. refl))
  ]
]

-- The others are as up to date as they were.
IsTracked-behind :
    (f : EvFd) (efds : List EvFd) (actions : List Action)
    → Prepares f actions (prepared_fd f)
    → All (Differs f) efds
    → All (IsTracked actions) efds
    → All (IsTracked (with_call (prepared_fd f).1 actions)) efds
IsTracked-behind f [] actions p d t = tt
IsTracked-behind f (g ∷ efds) actions p (d, ds) (t, ts) =
    ((λ n e c. p.others n (differs n e) ∙ t n e c), IsTracked-behind f efds actions p ds ts)
  where
    differs : (n : ℕ) → is_fd n g.fd ≡ true → is_fd n f.fd ≡ false
    differs n e = elim (Bool-cases (is_fd n f.fd)) [ inl h ↦ absurd (cc (d n h)) | inr h ↦ h ]

-- The preparation asks for the same about a descriptor that is not in the list.
prepare_fds-others :
    (sys : Sys) (efds : List EvFd) (actions : List Action) (n : ℕ)
    → All (λ f. is_fd n f.fd ≡ false) efds
    → All (IsTracked actions) efds
    → Distinct efds
    → asked n (prepare_fds sys efds actions).actions ≡ asked n actions
unfolding prepare_fds
prepare_fds-others sys [] actions n o t d = refl
prepare_fds-others sys (f ∷ efds) actions n (o, os) (t, ts) (d, ds) =
    let p = prepared_fd-Prepares f actions t in
    prepare_fds-others sys efds (with_call (prepared_fd f).1 actions) n os
      (IsTracked-behind f efds actions p d ts) ds
    ∙ p.others n o

-- A descriptor behind the preparation.
abbrev pub IsPrepared : List Action → EvFd → Type 0
IsPrepared actions f = IsWatched actions f × (f.is_set ≡ f.is_active)

prepare_fds-Prepared :
    (sys : Sys) (efds : List EvFd) (actions : List Action)
    → All (IsTracked actions) efds
    → Distinct efds
    → All (IsPrepared (prepare_fds sys efds actions).actions) (prepare_fds sys efds actions).efds
unfolding prepare_fds
prepare_fds-Prepared sys [] actions t d = tt
prepare_fds-Prepared sys (f ∷ efds) actions (t, ts) (d, ds) =
    let p = prepared_fd-Prepares f actions t in
    let next = with_call (prepared_fd f).1 actions in
    let rest = IsTracked-behind f efds actions p d ts in
    (
      (
        (λ n e.
            prepare_fds-others sys efds next n
              (others_differ f efds n (ap (is_fd n) (sym p.same) ∙ e) d) rest ds
            ∙ p.watched n e),
        p.set ∙ sym p.active,
      ),
      prepare_fds-Prepared sys efds next rest ds,
    )
  where
    others_differ :
        (f : EvFd) (efds : List EvFd) (n : ℕ)
        → is_fd n f.fd ≡ true
        → All (Differs f) efds
        → All (λ g. is_fd n g.fd ≡ false) efds
    others_differ f [] n e d = tt
    others_differ f (g ∷ efds) n e (d, ds) = (d n e, others_differ f efds n e ds)

-- Behind `efds_prepare`, what the latest calls of `epoll_ctl` ask for is what the descriptors are
-- meant to be watched for: an active one is asked for with its own events, and nothing is asked for
-- with one that is not active; `is_set` says which. This holds whichever calls fail. (The
-- descriptors are recorded as changed and are distinct; before, `is_set` tells what was asked for,
-- but for the events of those marked as changed.)
pub efds_prepare-Prepared :
    (sys : Sys) (m : Mgr)
    → m.efds_changed ≡ true
    → All (IsTracked m.actions) m.efds
    → Distinct m.efds
    → All (IsPrepared (efds_prepare sys m).1.actions) (efds_prepare sys m).1.efds
unfolding efds_prepare
efds_prepare-Prepared sys m c t d = rw c (prepare_fds-Prepared sys m.efds m.actions t d)
