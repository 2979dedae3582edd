-- ===== src/JsonStr/Values.antt =====
-- The tests of values, arrays, objects and whole texts in src/json/rp-jsonstr.c, on fuel.
use rp_lib_utils.Common.{
  ℕ, zero, suc, ◌+◌, ◌*◌, ◌-◌, ◌%◌, ◌^◌, Bool, true, false, Bytes, length, take, codes, ◌==◌,
  if◌then◌else◌,
}
use rp_lib_utils.JsonStr.Reading.{
  Reading, init_readtxt, read_readtxt, Outcome, accepts, rejects, out_of_fuel, and_then,
  skip_whitespaces, is_digit, is_sign, test_string, test_number, test_literal,
}

-- The key of a member and its colon.
unfoldable pub test_key : Reading → Outcome
test_key rt =
    and_then (test_string rt) (λ r.
      let s = skip_whitespaces r in if s.c == b':' then accepts (read_readtxt s) else rejects s)

-- The cases of the switch that call no other value.
unfoldable pub test_scalar : Reading → Outcome
test_scalar rt =
    if rt.c == b'n'
    then test_literal (codes "null") rt
    else if rt.c == b't'
    then test_literal (codes "true") rt
    else if rt.c == b'f'
    then test_literal (codes "false") rt
    else if is_sign rt.c
    then test_number (read_readtxt rt)
    else if is_digit rt.c
    then test_number rt
    else if rt.c == b'"'
    then test_string rt
    else rejects rt

unfoldable mutual
  pub test_value : ℕ → Reading → Outcome
  test_value zero rt = out_of_fuel
  test_value (suc f) rt =
      let r = skip_whitespaces rt in
      let array = array_loop f (skip_whitespaces (read_readtxt r)) in
      let object = object_loop f (skip_whitespaces (read_readtxt r)) in
      and_then (if r.c == b'[' then array else if r.c == b'{' then object else test_scalar r)
        (λ s. accepts (skip_whitespaces s))

  -- The loop of `test_array` behind the bracket.
  pub array_loop : ℕ → Reading → Outcome
  array_loop zero rt = out_of_fuel
  array_loop (suc f) rt =
      let more = and_then (test_value f rt) (λ r.
        let next = array_loop f (read_readtxt r) in
        let last = array_loop f r in
        if r.c == b',' then next else if r.c == b']' then last else rejects r) in
      if rt.c == b']' then accepts (read_readtxt rt) else more

  -- The loop of `test_object` behind the brace.
  pub object_loop : ℕ → Reading → Outcome
  object_loop zero rt = out_of_fuel
  object_loop (suc f) rt =
      let more = and_then (test_key rt) (λ v. and_then (test_value f v) (λ r.
        let next = object_loop f (skip_whitespaces (read_readtxt r)) in
        let last = object_loop f r in
        if r.c == b',' then next else if r.c == b'}' then last else rejects r)) in
      if rt.c == b'}' then accepts (read_readtxt rt) else more

-- The fuel for a text.
abbrev pub fuel_for : Bytes → ℕ
fuel_for text = 2 * length text + 4

-- The returned 1 or 0 and `*size`; without the fuel the answer would be `none`.
pub record Verdict : Type 0 where
  pub valid : Bool
  pub size : ℕ

abbrev pub refused : Reading → Verdict
refused rt = record { valid = false; size = (rt.pos + 2 ^ 64 - 1) % 2 ^ 64 }

pub data Tested : Type 0 where
  verdict : Verdict → Tested
  gave_up : Tested

abbrev pub tested : Outcome → Tested
tested (accepts rt) =
    verdict (if rt.c == 0 then record { valid = true; size = rt.pos } else refused rt)
tested (rejects rt) = verdict (refused rt)
tested out_of_fuel = gave_up

unfoldable pub jsonstr_test : Bytes → ℕ → Tested
jsonstr_test mem stringlenmax =
    let text = take stringlenmax mem in tested (test_value (fuel_for text) (init_readtxt text))
