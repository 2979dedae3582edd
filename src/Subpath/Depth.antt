-- ===== src/Subpath/Depth.antt =====
-- A path is valid exactly when none of its components leads above the root.
use mathlib.Core.Path.{ap₂}
use rp_lib_utils.Common.{
  ℕ, zero, suc, ◌+◌, ◌≡◌, ◌≢◌, inl, inr, refl, ap, sym, ◌∙◌, arith, true, false, Bool-cases, List,
  [], ◌∷◌, Bytes, Option, none, some, ◌==◌, ==_iff, if◌then◌else◌,
}
use rp_lib_utils.Subpath.{
  Level, depth, below, up, down, skip_name, Turn, name_turn, two_dots, one_dot, turn,
}

-- The components of a path: what stands between its slashes.
unfoldable pub components : Bytes → List Bytes
components [] = [] ∷ []
components (c ∷ path) = elim (components path) [
  | [] ↦ (c ∷ []) ∷ []
  | first ∷ more ↦ if c == b'/' then [] ∷ first ∷ more else (c ∷ first) ∷ more
]

-- How deep a walk is behind a component: `none` if it has left the root's tree once.
unfoldable pub walk_one : Bytes → Option ℕ → Option ℕ
walk_one name none = none
walk_one [] (some n) = some n
walk_one (a ∷ []) (some n) = if a == b'.' then some n else some (n + 1)
walk_one (a ∷ b ∷ []) (some n) =
    if a == b'.'
    then (if b == b'.' then (elim n [ zero ↦ none | suc m ↦ some m ]) else some (n + 1))
    else some (n + 1)
walk_one (a ∷ b ∷ c ∷ name) (some n) = some (n + 1)

unfoldable pub walk : List Bytes → Option ℕ → Option ℕ
walk [] d = d
walk (name ∷ names) d = walk names (walk_one name d)

-- The level that the code keeps for a walk.
abbrev pub level_of : Level → Option ℕ
level_of (depth n) = some n
level_of (below n) = none

-- The first component, and the components behind its slash.
unfoldable pub take_name : Bytes → Bytes
take_name [] = []
take_name (c ∷ path) = let rest = take_name path in if c == b'/' then [] else c ∷ rest

unfoldable pub others : Bytes → List Bytes
others [] = []
others (c ∷ path) = if c == b'/' then components path else others path

pub components-others : (path : Bytes) → components path ≡ take_name path ∷ others path
unfolding components take_name others
components-others [] = refl
components-others (c ∷ path) = ground (arith, components-others path)

components-skip_name : (path : Bytes) → components (skip_name path) ≡ [] ∷ others path
unfolding components skip_name others
components-skip_name [] = refl
components-skip_name (c ∷ path) = ground (arith, components-skip_name path, components-others path)

-- A walk goes along the first component, then along the others.
walk_first :
    (path : Bytes) (d : Option ℕ)
    → walk (components path) d ≡ walk (others path) (walk_one (take_name path) d)
unfolding walk
walk_first path d = ap (λ names. walk names d) (components-others path)

pub walk_empty : (names : List Bytes) (d : Option ℕ) → walk ([] ∷ names) d ≡ walk names d
unfolding walk walk_one
walk_empty names none = refl
walk_empty names (some n) = refl

take_name_stop : (c : ℕ) (path : Bytes) → (c == b'/') ≡ true → take_name (c ∷ path) ≡ []
unfolding take_name
take_name_stop c path e = rw e refl

others_stop : (c : ℕ) (path : Bytes) → (c == b'/') ≡ true → others (c ∷ path) ≡ components path
unfolding others
others_stop c path e = rw e refl

take_name_on :
    (c : ℕ) (path : Bytes) → (c == b'/') ≡ false → take_name (c ∷ path) ≡ c ∷ take_name path
unfolding take_name
take_name_on c path e = rw e refl

others_on : (c : ℕ) (path : Bytes) → (c == b'/') ≡ false → others (c ∷ path) ≡ others path
unfolding others
others_on c path e = rw e refl

walk_slash :
    (c : ℕ) (path : Bytes) (d : Option ℕ)
    → (c == b'/') ≡ true
    → walk (components (c ∷ path)) d ≡ walk (components path) d
unfolding walk
walk_slash c path d e =
    walk_first (c ∷ path) d
    ∙ ap₂ (λ names name. walk names (walk_one name d)) (others_stop c path e)
        (take_name_stop c path e)
    ∙ walk_empty (components path) d

walk_skip :
    (path : Bytes) (d : Option ℕ) → walk (components (skip_name path)) d ≡ walk (others path) d
walk_skip path d =
    ap (λ names. walk names d) (components-skip_name path) ∙ walk_empty (others path) d

-- A component that is neither `.` nor `..` leads one level down.
abbrev IsName : Bytes → Type 0
IsName name = (name ≢ []) × (name ≢ b'.' ∷ []) × (name ≢ b'.' ∷ b'.' ∷ [])

walk_one-down :
    (name : Bytes) (l : Level) → IsName name → walk_one name (level_of l) ≡ level_of (down l)
unfolding walk_one down
walk_one-down name (below n) h = refl
walk_one-down [] (depth n) h = absurd (h.0 refl)
walk_one-down (a ∷ []) (depth n) h = ground arith
walk_one-down (a ∷ b ∷ []) (depth n) h = ground arith
walk_one-down (a ∷ b ∷ c ∷ name) (depth n) h = refl

walk_one-up : (l : Level) → walk_one (b'.' ∷ b'.' ∷ []) (level_of l) ≡ level_of (up l)
unfolding walk_one up
walk_one-up (depth zero) = refl
walk_one-up (depth (suc n)) = refl
walk_one-up (below n) = refl

walk_one-stay : (l : Level) → walk_one (b'.' ∷ []) (level_of l) ≡ level_of l
unfolding walk_one
walk_one-stay (depth n) = refl
walk_one-stay (below n) = refl

-- What a turn leaves of a walk.
abbrev pub Leaves : Bytes → Level → Turn → Type 0
Leaves path l t = walk (components path) (level_of l) ≡ walk (components t.0) (level_of t.1)

-- A component whose end is known, and the level behind it.
walk_name :
    (path name : Bytes) (names : List Bytes) (l l' : Level)
    → take_name path ≡ name
    → others path ≡ names
    → walk_one name (level_of l) ≡ level_of l'
    → walk (components path) (level_of l) ≡ walk names (level_of l')
walk_name path name names l l' p q r =
    walk_first path (level_of l)
    ∙ ap₂ (λ (ns : List Bytes) (d : Option ℕ). walk ns d) q
        (ap (λ n. walk_one n (level_of l)) p ∙ r)

name_turn-Leaves :
    (path rest name : Bytes) (l : Level)
    → take_name path ≡ name
    → others path ≡ others rest
    → IsName name
    → Leaves path l (name_turn rest l)
unfolding name_turn
name_turn-Leaves path rest name l p q h =
    walk_name path name (others rest) l (down l) p q (walk_one-down name l h)
    ∙ sym (walk_skip rest (level_of (down l)))

IsName-one : (c : ℕ) (name : Bytes) → (c == b'.') ≡ false → IsName (c ∷ name)
IsName-one c name e = (grind arith, grind arith, grind arith)

IsName-two : (c : ℕ) (name : Bytes) → (c == b'.') ≡ false → IsName (b'.' ∷ c ∷ name)
IsName-two c name e = (grind arith, grind arith, grind arith)

IsName-three : (a b c : ℕ) (name : Bytes) → IsName (a ∷ b ∷ c ∷ name)
IsName-three a b c name = (grind arith, grind arith, grind arith)

two_dots-Leaves : (path : Bytes) (l : Level) → Leaves (b'.' ∷ b'.' ∷ path) l (two_dots path l)
two_dots-Leaves [] l =
    unfold two_dots components take_name others in
    (walk_name (b'.' ∷ b'.' ∷ []) (b'.' ∷ b'.' ∷ []) [] l (up l) refl refl (walk_one-up l)
      ∙ sym (walk_empty [] (level_of (up l))))
two_dots-Leaves (c ∷ path) l = elim (Bool-cases (c == b'/')) [
  | inl e ↦
      unfold two_dots in
      rw e (
        walk_name (b'.' ∷ b'.' ∷ c ∷ path) (b'.' ∷ b'.' ∷ []) (components path) l (up l)
          (unfold take_name in rw e refl) (unfold others in rw e refl) (walk_one-up l))
  | inr e ↦
      unfold two_dots in
      rw e (
        name_turn-Leaves (b'.' ∷ b'.' ∷ c ∷ path) path (b'.' ∷ b'.' ∷ c ∷ take_name path) l
          (unfold take_name in rw e refl) (unfold others in rw e refl)
          (IsName-three b'.' b'.' c (take_name path)))
]

one_dot-Leaves : (path : Bytes) (l : Level) → Leaves (b'.' ∷ path) l (one_dot path l)
one_dot-Leaves [] l =
    unfold one_dot components take_name others in
    (walk_name (b'.' ∷ []) (b'.' ∷ []) [] l l refl refl (walk_one-stay l)
      ∙ sym (walk_empty [] (level_of l)))
one_dot-Leaves (c ∷ path) l = elim (Bool-cases (c == b'/')) [
  | inl e ↦
      unfold one_dot in
      rw e (
        walk_name (b'.' ∷ c ∷ path) (b'.' ∷ []) (components path) l l
          (unfold take_name in rw e refl) (unfold others in rw e refl) (walk_one-stay l))
  | inr e ↦ elim (Bool-cases (c == b'.')) [
    | inl h ↦
        unfold one_dot in
        rw (e, h)
          (ap (λ x. walk (components (b'.' ∷ x ∷ path)) (level_of l)) ((==_iff c b'.').0 h)
            ∙ two_dots-Leaves path l)
    | inr h ↦
        unfold one_dot in
        rw (e, h)
          (name_turn-Leaves (b'.' ∷ c ∷ path) path (b'.' ∷ c ∷ take_name path) l
            (unfold take_name in rw e refl) (unfold others in rw e refl)
            (IsName-two c (take_name path) h))
  ]
]

pub turn-Leaves : (c : ℕ) (path : Bytes) (l : Level) → Leaves (c ∷ path) l (turn c path l)
turn-Leaves c path l = elim (Bool-cases (c == b'.')) [
  | inl e ↦
      unfold turn in
      rw e (
        ap (λ x. walk (components (x ∷ path)) (level_of l)) ((==_iff c b'.').0 e)
        ∙ one_dot-Leaves path l)
  | inr e ↦ elim (Bool-cases (c == b'/')) [
    | inl h ↦ unfold turn in rw (e, h) (walk_slash c path (level_of l) h)
    | inr h ↦
        unfold turn in
        rw (e, h)
          (name_turn-Leaves (c ∷ path) path (c ∷ take_name path) l (take_name_on c path h)
            (others_on c path h) (IsName-one c (take_name path) e))
  ]
]
