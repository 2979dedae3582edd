-- ===== src/ExpandVars/Search.antt =====
-- Resolution of names in arrays of definitions `NAME=VALUE`: `rp_expand_vars_search` and `getvar` of
-- src/misc/rp-expand-vars.c.
pub mod Order
use rp_lib_utils.Common.{
  ℕ, Bool, true, false, List, [], ◌∷◌, Bytes, Option, none, some, ◌==◌, if◌then◌else◌,
}
use rp_lib_utils.ExpandVars.Scan.{Answer, Resolver}

-- `!memcmp(var, name, len) && var[len] == '='`, and then `&var[len + 1]`. That `memcmp` may read
-- behind the NUL of a `var` shorter than `name` is left out: such a `var` differs at its NUL.
unfoldable pub value_of : Bytes → Bytes → Option Bytes
value_of [] [] = none
value_of (e ∷ value) [] = if e == b'=' then some value else none
value_of [] (n ∷ name) = none
value_of (v ∷ var) (n ∷ name) = let rest = value_of var name in if v == n then rest else none

-- `rp_expand_vars_search` in a NULL terminated array.
unfoldable pub search_vars : List Bytes → Bytes → Option Bytes
search_vars [] name = none
search_vars (var ∷ vars) name = elim (value_of var name) [
  | some value ↦ some value
  | none ↦ search_vars vars name
]

-- The loop of `getvar` on an array of arrays, up to its NULL.
unfoldable pub search_arrays : List (List Bytes) → Bytes → Option Bytes
search_arrays [] name = none
search_arrays (vars ∷ arrays) name = elim (search_vars vars name) [
  | some value ↦ some value
  | none ↦ search_arrays arrays name
]

-- `getvar` as a resolution function: `length` stays 0.
unfoldable pub getvar : List (List Bytes) → Resolver
getvar arrays name = elim (search_arrays arrays name) [
  | some value ↦ record { found = true; value = some value; len = 0 }
  | none ↦ record { found = false; value = none; len = 0 }
]

-- An array of arrays that is written with a NULL at its end, which an absent array ends sooner.
unfoldable pub until_null : List (Option (List Bytes)) → List (List Bytes)
until_null [] = []
until_null (none ∷ arrays) = []
until_null (some vars ∷ arrays) = vars ∷ until_null arrays

-- `{ before, environ, after, 0 }`, from its second item on if `before` is absent.
unfoldable pub before_env_after :
    Option (List Bytes) → List Bytes → Option (List Bytes) → List (List Bytes)
before_env_after none env after = until_null (some env ∷ after ∷ [])
before_env_after (some before) env after = until_null (some before ∷ some env ∷ after ∷ [])
