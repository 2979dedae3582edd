-- ===== src/ExpandVars/Expand/Size.antt =====
-- Whether the block is large enough.
use rp_lib_utils.Common.{
  ℕ, ◌+◌, ◌^◌, ◌≤◌, ◌<◌, ◌≡◌, ◌≢◌, ◌↔◌, sym, ◌∙◌, arith, true, false, Bytes, length,
}
use rp_lib_utils.ExpandVars.Scan.{Resolver, scan}
use rp_lib_utils.ExpandVars.Scan.Passes.{braced_vars, braced_vars-le, scan_balance}
use rp_lib_utils.ExpandVars.Expand.{spill, block_size, write_pass, expand_once, limit}

-- The size and the number of braced variables with their closing character make up what is written,
-- with the NUL.
block_size-braced :
    (f : Resolver) (value : Bytes)
    → braced_vars f value ≤ length (scan true f value).out + 1
    → length (scan true f value).out + 1 < 2 ^ 64
    → block_size f value + braced_vars f value ≡ length (scan true f value).out + 1
unfolding block_size
block_size-braced f value h k = omega (arith, scan_balance f value)

write_pass-spill :
    (f : Resolver) (value : Bytes) (i : ℕ)
    → (write_pass f value i ≡ spill) ↔ (i + 1 < length (scan true f value).out + 1)
unfolding write_pass
write_pass-spill f value i = (λ h. ground arith, λ h. ground arith)

-- Where there is something to expand, `malloc` succeeds and the size passes the test against
-- RP_EXPAND_VARS_LIMIT, the second pass writes behind the end of its block exactly when the value
-- has at least two braced variables with their closing characters. (The value and the expansion are
-- shorter than 2 ^ 62.)
pub expand_once-spill :
    (f : Resolver) (value : Bytes)
    → length value < 2 ^ 62
    → length (scan true f value).out < 2 ^ 62
    → (scan false f value).remove ≢ 0
    → block_size f value < limit
    → (expand_once true f value ≡ spill) ↔ (2 ≤ braced_vars f value)
unfolding expand_once
expand_once-spill f value hv ho hr hb = (sound, complete)
  where
    fits : braced_vars f value ≤ length (scan true f value).out + 1
    fits = unfold block_size in omega (arith, scan_balance f value, braced_vars-le f value)

    size : block_size f value + braced_vars f value ≡ length (scan true f value).out + 1
    size = block_size-braced f value fits (omega arith)

    pass : expand_once true f value ≡ write_pass f value (block_size f value)
    pass = ground arith

    sound : expand_once true f value ≡ spill → 2 ≤ braced_vars f value
    sound e = omega (arith, size, (write_pass-spill f value (block_size f value)).0 (sym pass ∙ e))

    complete : 2 ≤ braced_vars f value → expand_once true f value ≡ spill
    complete h = pass ∙ (write_pass-spill f value (block_size f value)).1 (omega (arith, size))
