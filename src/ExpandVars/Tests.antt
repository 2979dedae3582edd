-- ===== src/ExpandVars/Tests.antt =====
-- Runs of the expansion, and its theorems at concrete inputs.
use rp_lib_utils.Common.{
  ◌+◌, ◌≤◌, ◌≡◌, ◌↔◌, refl, arith, ◌<◌, ◌^◌, ◌≢◌, true, false, List, [], ◌∷◌, Bytes, none, some,
  codes, length,
}
use rp_lib_utils.ExpandVars.Scan.{
  scan, scan_loop, round, dollar_round, braced_round, braced, bare_round, escape_round, insert,
  contains_dollar, replacement, found_text, has_text, until_nul, split_default, split_close,
  split_name, is_name, removing, put,
}
use rp_lib_utils.ExpandVars.Scan.Passes.{braced_vars, scan_balance}
use rp_lib_utils.ExpandVars.Search.{
  value_of, search_vars, search_arrays, getvar, until_null, before_env_after,
}
use rp_lib_utils.ExpandVars.Search.Order.{FirstDefinition, search_vars-FirstDefinition}
use rp_lib_utils.ExpandVars.Expand.{
  overflow, text, spill, block_size, write_pass, expand_once, expand_loop, expand, or_copy,
  expand_function, expand_array, expand_vars, limit,
}
use rp_lib_utils.ExpandVars.Calls.{expand_first, expand_last}
use rp_lib_utils.ExpandVars.Expand.Size.{expand_once-spill}
use rp_lib_utils.ExpandVars.Expand.Plain.{expand_variable}

abbrev env : List Bytes
env = codes "X=env" ∷ codes "A=$X/x" ∷ codes "E=" ∷ []

abbrev after : List Bytes
after = codes "X=after" ∷ codes "Z=last" ∷ []

-- The first pass turns the escapes into plain `$`, and the second pass, made for the value of A,
-- expands those too.
expand_again :
    expand_vars true (some (codes "$A \\$X $$ ${E:-none} $Q")) true none env (some after)
    ≡ text (codes "env/x env  none ")
unfolding expand_vars expand_array expand_function or_copy expand expand_loop expand_once write_pass
    block_size scan scan_loop round dollar_round braced_round braced bare_round escape_round insert
    contains_dollar replacement found_text has_text until_nul split_default split_close split_name
    is_name removing put value_of search_vars search_arrays getvar until_null before_env_after
expand_again = refl

expand_order :
    expand_vars true (some (codes "$X $Z ${X-y}")) true none env (some after)
    ≡ text (codes "env last env")
unfolding expand_vars expand_array expand_function or_copy expand expand_loop expand_once write_pass
    block_size scan scan_loop round dollar_round braced_round braced bare_round escape_round insert
    contains_dollar replacement found_text has_text until_nul split_default split_close split_name
    is_name removing put value_of search_vars search_arrays getvar until_null before_env_after
expand_order = refl

-- The variables given come before those of the environment, or behind them.
expand_before_env :
    expand_first true (some (codes "$X")) true (some after) env ≡ text (codes "after")
unfolding expand_first expand_array expand_function or_copy expand expand_loop expand_once
    write_pass block_size scan scan_loop round dollar_round braced_round braced bare_round
    escape_round insert contains_dollar replacement found_text has_text until_nul split_default
    split_close split_name is_name removing put value_of search_vars search_arrays getvar until_null
expand_before_env = refl

expand_behind_env : expand_last true (some (codes "$X")) true (some after) env ≡ text (codes "env")
unfolding expand_last expand_array expand_function or_copy expand expand_loop expand_once write_pass
    block_size scan scan_loop round dollar_round braced_round braced bare_round escape_round insert
    contains_dollar replacement found_text has_text until_nul split_default split_close split_name
    is_name removing put value_of search_vars search_arrays getvar until_null
expand_behind_env = refl

-- Two braced variables: the block is a byte too short.
expand_two_braced : expand_vars true (some (codes "${X}${Z}")) true none env (some after) ≡ overflow
unfolding expand_vars expand_array expand_function or_copy expand expand_loop expand_once write_pass
    block_size scan scan_loop round dollar_round braced_round braced bare_round escape_round insert
    contains_dollar replacement found_text has_text until_nul split_default split_close split_name
    is_name removing put value_of search_vars search_arrays getvar until_null before_env_after
expand_two_braced = refl

abbrev two_braced : Bytes
two_braced = codes "${X}${Z}"

two_braced_facts :
    (length two_braced < 2 ^ 62)
    × (length (scan true (getvar (env ∷ after ∷ [])) two_braced).out < 2 ^ 62)
    × ((scan false (getvar (env ∷ after ∷ [])) two_braced).remove ≢ 0)
    × (block_size (getvar (env ∷ after ∷ [])) two_braced < limit)
unfolding block_size scan scan_loop round dollar_round braced_round braced bare_round escape_round
    insert contains_dollar replacement found_text has_text until_nul split_default split_close
    split_name is_name removing put value_of search_vars search_arrays getvar
two_braced_facts = (omega arith, omega arith, omega arith, omega arith)

expand_once-spill_example :
    (expand_once true (getvar (env ∷ after ∷ [])) two_braced ≡ spill)
    ↔ (2 ≤ braced_vars (getvar (env ∷ after ∷ [])) two_braced)
expand_once-spill_example =
    expand_once-spill (getvar (env ∷ after ∷ [])) two_braced two_braced_facts.0 two_braced_facts.1
      two_braced_facts.2 two_braced_facts.3

scan_balance_example :
    length (scan true (getvar (env ∷ [])) (codes "a$X")).out
      + (scan false (getvar (env ∷ [])) (codes "a$X")).remove
    ≡ length (codes "a$X")
      + (scan false (getvar (env ∷ [])) (codes "a$X")).add
      + braced_vars (getvar (env ∷ [])) (codes "a$X")
scan_balance_example = scan_balance (getvar (env ∷ [])) (codes "a$X")

search_vars-FirstDefinition_example :
    (search_vars after (codes "Z") ≡ some (codes "last"))
    ↔ FirstDefinition after (codes "Z") (codes "last")
search_vars-FirstDefinition_example = search_vars-FirstDefinition after (codes "Z") (codes "last")

found_x : found_text (getvar (env ∷ []) (codes "X")) ≡ some (codes "env")
unfolding found_text until_nul getvar search_arrays search_vars value_of
found_x = refl

plain_env : contains_dollar (codes "env") ≡ false
unfolding contains_dollar
plain_env = refl

expand_variable_example :
    expand true (some (codes "a ${X}.")) (getvar (env ∷ [])) ≡ text (codes "a env.")
expand_variable_example =
    expand_variable (getvar (env ∷ [])) (codes "X") (codes "env") (omega arith) found_x (codes "a ")
      (codes ".") (omega arith) (omega arith) plain_env (omega arith)
