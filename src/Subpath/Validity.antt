-- ===== src/Subpath/Validity.antt =====
-- What `subpath_is_valid` of src/sandbox/subpath.c decides.
use rp_lib_utils.Common.{
  ℕ, zero, suc, ◌≤◌, ◌≡◌, ◌↔◌, inl, inr, refl, sym, ◌∙◌, arith, Bool, true, false, Bool-cases, [],
  ◌∷◌, Bytes, none, some, length, ◌==◌, if◌then◌else◌,
}
use rp_lib_utils.Subpath.{
  Level, depth, below, skip_name, name_turn, two_dots, one_dot, turn, inspect, nonnegative,
  subpath_is_valid, subpath, subpath_force, or_dot, skip_slashes,
}
use rp_lib_utils.Subpath.Depth.{components, walk, level_of, turn-Leaves, walk_empty}

length-skip_name : (path : Bytes) → length (skip_name path) ≤ length path
unfolding skip_name
length-skip_name [] = omega arith
length-skip_name (c ∷ path) = ground (arith, length-skip_name path)

length-two_dots : (path : Bytes) (l : Level) → length (two_dots path l).0 ≤ length path
unfolding two_dots name_turn
length-two_dots [] l = omega arith
length-two_dots (c ∷ path) l = ground (arith, length-skip_name path)

length-one_dot : (path : Bytes) (l : Level) → length (one_dot path l).0 ≤ length path
unfolding one_dot name_turn
length-one_dot [] l = omega arith
length-one_dot (c ∷ path) l = ground (arith, length-skip_name path, length-two_dots path l)

length-turn : (c : ℕ) (path : Bytes) (l : Level) → length (turn c path l).0 ≤ length path
unfolding turn name_turn
length-turn c path l = ground (arith, length-skip_name path, length-one_dot path l)

-- With the length of the path as fuel the loop reaches the end of the path, and its level is
-- where the walk ends.
inspect-walk :
    (fuel : ℕ) (path : Bytes) (l : Level)
    → length path ≤ fuel
    → level_of (inspect fuel path l) ≡ walk (components path) (level_of l)
unfolding inspect components walk
inspect-walk fuel [] l h = sym (walk_empty [] (level_of l))
inspect-walk zero (c ∷ path) l h = absurd (omega (arith, h))
inspect-walk (suc fuel) (c ∷ path) l h =
    inspect-walk fuel (turn c path l).0 (turn c path l).1 (omega (arith, h, length-turn c path l))
    ∙ sym (turn-Leaves c path l)

-- Where a walk from the root ends, if it stays below it.
abbrev pub StaysBelowRoot : Bytes → Type 0
StaysBelowRoot path = (n : ℕ) × (walk (components path) (some 0) ≡ some n)

abbrev pub is_absolute : Bytes → Bool
is_absolute [] = false
is_absolute (c ∷ path) = c == b'/'

nonnegative_iff : (l : Level) → (nonnegative l ≡ true) ↔ ((n : ℕ) × (level_of l ≡ some n))
nonnegative_iff (depth n) = (λ e. (n, refl), λ e. refl)
nonnegative_iff (below n) = (λ e. absurd (ground (arith, e)), λ e. absurd (ground (arith, e.1)))

inspect_iff :
    (path : Bytes)
    → (nonnegative (inspect (length path) path (depth 0)) ≡ true) ↔ StaysBelowRoot path
inspect_iff path = (λ e. to ((nonnegative_iff level).0 e), λ e. (nonnegative_iff level).1 (from e))
  where
    level : Level
    level = inspect (length path) path (depth 0)

    ends : level_of level ≡ walk (components path) (some 0)
    ends = inspect-walk (length path) path (depth 0) (omega arith)

    to : (n : ℕ) × (level_of level ≡ some n) → StaysBelowRoot path
    to (n, e) = (n, sym ends ∙ e)

    from : StaysBelowRoot path → (n : ℕ) × (level_of level ≡ some n)
    from (n, e) = (n, ends ∙ e)

-- A path is valid exactly when it is not absolute and no component of it leads above the root.
pub subpath_is_valid_iff :
    (path : Bytes)
    → (subpath_is_valid path ≡ true) ↔ ((is_absolute path ≡ false) × StaysBelowRoot path)
unfolding subpath_is_valid
subpath_is_valid_iff [] = (λ e. (refl, (inspect_iff []).0 e), λ e. (inspect_iff []).1 e.1)
subpath_is_valid_iff (c ∷ path) = elim (Bool-cases (c == b'/')) [
  | inl e ↦ rw e (λ h. absurd (ground (arith, h)), λ h. absurd (ground (arith, h.0)))
  | inr e ↦ rw e (λ h. (refl, (inspect_iff (c ∷ path)).0 h), λ h. (inspect_iff (c ∷ path)).1 h.1)
]

subpath_lem :
    (path : Bytes)
    → subpath (some path) ≡ (if subpath_is_valid path then some (or_dot path) else none)
unfolding subpath
subpath_lem path = refl

dot_is_valid : subpath_is_valid (b'.' ∷ []) ≡ true
unfolding subpath_is_valid inspect turn one_dot
dot_is_valid = refl

subpath_result : (path p : Bytes) → subpath (some path) ≡ some p → subpath (some p) ≡ some p
subpath_result [] p h = grind (arith, h, dot_is_valid, subpath_lem p, subpath_lem [])
subpath_result (c ∷ path) p h = grind (arith, h, subpath_lem p, subpath_lem (c ∷ path))

-- The path that `subpath_force` gives is one that `subpath` gives back unchanged.
subpath_force-subpath :
    (path p : Bytes) → subpath_force (some path) ≡ some p → subpath (some p) ≡ some p
unfolding subpath_force
subpath_force-subpath path p h = subpath_result (skip_slashes path) p h
