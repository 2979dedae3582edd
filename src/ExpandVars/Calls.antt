-- ===== src/ExpandVars/Calls.antt =====
-- The other functions of src/misc/rp-expand-vars.c that expand: with a callback, or with the arrays
-- that they put together. `environ` is an argument.
use rp_lib_utils.Common.{Bool, true, false, List, [], ◌∷◌, Bytes, Option, none, some}
use rp_lib_utils.ExpandVars.Scan.{Answer, Resolver}
use rp_lib_utils.ExpandVars.Search.{search_vars, until_null}
use rp_lib_utils.ExpandVars.Expand.{Expansion, expand, or_copy, expand_array}

-- `adaptor`: a callback as a resolution function.
abbrev pub adapted : Option Bytes → Answer
adapted none = record { found = false; value = none; len = 0 }
adapted (some value) = record { found = true; value = some value; len = 0 }

unfoldable pub adaptor : (Bytes → Option Bytes) → Resolver
adaptor function name = adapted (function name)

unfoldable pub expand_callback : Bool → Option Bytes → Bool → (Bytes → Option Bytes) → Expansion
expand_callback mem value copy function =
    or_copy mem copy value (expand mem value (adaptor function))

unfoldable pub search_env : List Bytes → Bytes → Option Bytes
search_env env name = search_vars env name

unfoldable pub expand_only : Bool → Option Bytes → Bool → Option (List Bytes) → Expansion
expand_only mem value copy vars = expand_array mem value copy (until_null (vars ∷ []))

unfoldable pub expand_env_only : Bool → Option Bytes → Bool → List Bytes → Expansion
expand_env_only mem value copy env = expand_array mem value copy (until_null (some env ∷ []))

-- `{ vars, environ, 0 }`, from its second item on if `vars` is absent.
abbrev pub vars_env : Option (List Bytes) → List Bytes → List (List Bytes)
vars_env none env = until_null (some env ∷ [])
vars_env (some vars) env = until_null (some vars ∷ some env ∷ [])

unfoldable pub expand_first :
    Bool → Option Bytes → Bool → Option (List Bytes) → List Bytes → Expansion
expand_first mem value copy vars env = expand_array mem value copy (vars_env vars env)

unfoldable pub expand_last :
    Bool → Option Bytes → Bool → Option (List Bytes) → List Bytes → Expansion
expand_last mem value copy vars env =
    expand_array mem value copy (until_null (some env ∷ vars ∷ []))
