-- ===== src/Subpath.antt =====
-- src/sandbox/subpath.c: paths that stay below their root. A path is the list of its bytes, and `i`
-- is the rest of the path that is not read yet.
pub mod Depth
pub mod Validity
pub mod Join
mod Tests
use rp_lib_utils.Common.{
  ℕ, zero, suc, ◌+◌, ◌-◌, Bool, true, false, List, [], ◌∷◌, Bytes, Option, none, some, length, ◌==◌,
  if◌then◌else◌,
}

-- `l`, an `int` that goes below 0.
pub data Level : Type 0 where
  depth : ℕ → Level
  below : ℕ → Level

-- `l--`; `below n` is -(n + 1).
unfoldable pub up : Level → Level
up (depth zero) = below 0
up (depth (suc n)) = depth n
up (below n) = below (n + 1)

-- `if (l >= 0) l++;`
unfoldable pub down : Level → Level
down (depth n) = depth (n + 1)
down (below n) = below n

-- `while (path[i] && path[i] != '/') i++;`
unfoldable pub skip_name : Bytes → Bytes
skip_name [] = []
skip_name (c ∷ path) = if c == b'/' then c ∷ path else skip_name path

-- The rest of the path and the level behind a turn of the loop.
abbrev pub Turn : Type 0
Turn = Bytes × Level

-- The case `default`, and those that fall through to it.
unfoldable pub name_turn : Bytes → Level → Turn
name_turn path l = (skip_name path, down l)

-- Behind `..`
unfoldable pub two_dots : Bytes → Level → Turn
two_dots [] l = ([], up l)
two_dots (c ∷ path) l = if c == b'/' then (path, up l) else name_turn path l

-- Behind `.`
unfoldable pub one_dot : Bytes → Level → Turn
one_dot [] l = ([], l)
one_dot (c ∷ path) l =
    if c == b'/' then (path, l) else if c == b'.' then two_dots path l else name_turn path l

-- The switch on `path[i++]`.
unfoldable pub turn : ℕ → Bytes → Level → Turn
turn c path l =
    if c == b'.' then one_dot path l else if c == b'/' then (path, l) else name_turn path l

-- `while (path[i])`. Each turn takes a byte at least: the length of the path is enough fuel.
unfoldable pub inspect : ℕ → Bytes → Level → Level
inspect fuel [] l = l
inspect zero (c ∷ path) l = l
inspect (suc fuel) (c ∷ path) l = let t = turn c path l in inspect fuel t.0 t.1

abbrev pub nonnegative : Level → Bool
nonnegative (depth n) = true
nonnegative (below n) = false

unfoldable pub subpath_is_valid : Bytes → Bool
subpath_is_valid [] = nonnegative (inspect 0 [] (depth 0))
subpath_is_valid (c ∷ path) =
    if c == b'/' then false else nonnegative (inspect (length (c ∷ path)) (c ∷ path) (depth 0))

abbrev or_dot : Bytes → Bytes
or_dot [] = b'.' ∷ []
or_dot (c ∷ path) = c ∷ path

-- The path to use, or NULL.
unfoldable pub subpath : Option Bytes → Option Bytes
subpath none = none
subpath (some path) = if subpath_is_valid path then some (or_dot path) else none

unfoldable pub skip_slashes : Bytes → Bytes
skip_slashes [] = []
skip_slashes (c ∷ path) = let rest = skip_slashes path in if c == b'/' then rest else c ∷ path

unfoldable pub subpath_force : Option Bytes → Option Bytes
subpath_force none = subpath none
subpath_force (some path) = subpath (some (skip_slashes path))
