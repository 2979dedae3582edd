-- ===== src/ExpandVars/Expand.antt =====
-- The outer loop of `expand` of src/misc/rp-expand-vars.c, and the functions that call it.
pub mod Size
pub mod Plain
use rp_lib_utils.Common.{
  ℕ, zero, suc, ◌+◌, ◌-◌, ◌%◌, ◌^◌, Bool, true, false, List, [], Bytes, Option, none, some, length,
  ltb, leb, ◌==◌, if◌then◌else◌,
}
use rp_lib_utils.ExpandVars.Scan.{Resolver, scan}
use rp_lib_utils.ExpandVars.Search.{getvar, until_null, before_env_after}

-- RP_EXPAND_VARS_LIMIT and RP_EXPAND_VARS_DEPTH_MAX.
abbrev pub limit : ℕ
limit = 16384

abbrev pub depth_max : ℕ
depth_max = 10

-- `NULL`, a text, or a write behind the end of the block that `malloc` gave, which C leaves undefined.
pub data Expansion : Type 0 where
  null overflow : Expansion
  text : Bytes → Expansion

-- What one expansion of a value comes to; `iterate` if a value that was put in has a `$`.
pub data Once : Type 0 where
  stop spill : Once
  done iterate : Bytes → Once

-- `i = (size_t)(begin - value) + add - remove`, where `begin` is behind the terminating NUL.
unfoldable pub block_size : Resolver → Bytes → ℕ
block_size f value =
    let counted = scan false f value in
    (length value + 1 + counted.add + 2 ^ 64 - counted.remove) % 2 ^ 64

-- The second pass writes into a block of `i + 1` bytes, and a NUL behind what it wrote.
unfoldable pub write_pass : Resolver → Bytes → ℕ → Once
write_pass f value i =
    let written = scan true f value in
    if ltb (i + 1) (length written.out + 1)
    then spill
    else if written.again == 0
    then done written.out
    else iterate written.out

-- The first pass, the tests behind it and the second pass. `mem` says whether `malloc` succeeds.
unfoldable pub expand_once : Bool → Resolver → Bytes → Once
expand_once mem f value =
    if (scan false f value).remove == 0
    then stop
    else if leb limit (block_size f value)
    then stop
    else if mem
    then write_pass f value (block_size f value)
    else stop

-- The first argument is RP_EXPAND_VARS_DEPTH_MAX - depth.
unfoldable pub expand_loop : ℕ → Bool → Resolver → Bytes → Expansion
expand_loop zero mem f value = null
expand_loop (suc depth) mem f value = elim (expand_once mem f value) [
  | stop ↦ null
  | spill ↦ overflow
  | done out ↦ text out
  | iterate out ↦ expand_loop depth mem f out
]

-- `expand`; an absent value gives NULL.
unfoldable pub expand : Bool → Option Bytes → Resolver → Expansion
expand mem none f = null
expand mem (some value) f = expand_loop depth_max mem f value

-- `expanded || !copy || !value ? expanded : strdup(value)`
unfoldable pub or_copy : Bool → Bool → Option Bytes → Expansion → Expansion
or_copy mem copy (some value) null = if copy then (if mem then text value else null) else null
or_copy mem copy _ e = e

-- `rp_expand_vars_function`
unfoldable pub expand_function : Bool → Option Bytes → Bool → Resolver → Expansion
expand_function mem value copy f = or_copy mem copy value (expand mem value f)

-- `rp_expand_vars_array` and the functions that call it with one, two or three arrays.
unfoldable pub expand_array : Bool → Option Bytes → Bool → List (List Bytes) → Expansion
expand_array mem value copy arrays = expand_function mem value copy (getvar arrays)

unfoldable pub expand_vars :
    Bool → Option Bytes → Bool → Option (List Bytes) → List Bytes → Option (List Bytes) → Expansion
expand_vars mem value copy before env after =
    expand_array mem value copy (before_env_after before env after)
