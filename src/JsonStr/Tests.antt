-- ===== src/JsonStr/Tests.antt =====
-- Runs of the escaping and of the test, and the theorems at concrete inputs.
use rp_lib_utils.Common.{
  take, ◌↔◌, ◌+◌, ◌^◌, ◌-◌, ◌<◌, ◌≡◌, ◌≢◌, refl, arith, true, false, [], ◌∷◌, ◌++◌, Bytes, codes,
  length, replicate,
}
use rp_lib_utils.Escape.Encode.{until_nul}
use rp_lib_utils.Escape.Buffer.{Out}
use rp_lib_utils.JsonStr.Escape.{string_escape, bounded_text, length_loop, string_escape_length}
use rp_lib_utils.JsonStr.Reading.{
  init_readtxt, skip_whitespaces, next_of, while_loop, read_while, is_space, is_digit, is_hex,
  read_next_hex, is_simple, test_escape, string_loop, test_string, is_sign, test_exponent,
  is_exponent, test_number, test_literal,
}
use rp_lib_utils.JsonStr.Values.{
  test_key, test_scalar, test_value, array_loop, object_loop, verdict, gave_up, jsonstr_test,
}
use rp_lib_utils.JsonStr.Grammar.{Text, padded}
use rp_lib_utils.JsonStr.Verdict.{jsonstr_test-ends, jsonstr_test_iff}
use rp_lib_utils.JsonStr.Strings.{jsonstr_test-string_escape}

-- Commas behind the last item and the last member are accepted.
abbrev sample : Bytes
sample = codes "{\"a\": [1, -2.5e3, null,], }"

sample_valid : jsonstr_test sample 100 ≡ verdict (record { valid = true; size = 27 })
unfolding jsonstr_test test_key test_scalar test_value array_loop object_loop init_readtxt next_of
    while_loop read_while is_space is_digit is_hex read_next_hex is_simple test_escape string_loop
    test_string is_sign test_exponent is_exponent test_number test_literal
sample_valid = refl

-- But not with a space in front of the bracket.
space_refused : jsonstr_test (codes "[1, ]") 5 ≡ verdict (record { valid = false; size = 4 })
unfolding jsonstr_test test_scalar test_value array_loop object_loop init_readtxt next_of while_loop
    read_while is_space is_digit is_sign test_exponent is_exponent test_number
space_refused = refl

-- The size for the empty text wraps around.
empty_size : jsonstr_test [] 0 ≡ verdict (record { valid = false; size = 2 ^ 64 - 1 })
unfolding jsonstr_test test_scalar test_value init_readtxt while_loop read_while is_space is_digit
    is_sign
empty_size = refl

newline_length : string_escape_length (codes "hello\n") 10000 ≡ 11
unfolding string_escape_length length_loop until_nul
newline_length = refl

abbrev room : Bytes
room = replicate 9 0

short_length : string_escape_length (codes "a\"b") 9 < length room
unfolding string_escape_length length_loop until_nul
short_length = omega arith

jsonstr_test-ends_example :
    (jsonstr_test (codes "[[[") 3 ≢ gave_up)
    × (is_space (skip_whitespaces (init_readtxt (codes "  12"))).c ≡ false)
    × (is_digit (read_while is_digit (init_readtxt (codes "  12"))).c ≡ false)
jsonstr_test-ends_example = jsonstr_test-ends (codes "[[[") 3 (init_readtxt (codes "  12"))

jsonstr_test_iff_example :
    (jsonstr_test sample 100 ≡ verdict (record { valid = true; size = 27 }))
    ↔ (Text padded (bounded_text sample 100) × (27 ≡ length (bounded_text sample 100)))
jsonstr_test_iff_example = jsonstr_test_iff sample 100 27

abbrev escaped : Out
escaped = string_escape (room ++ room) (codes "a\"b\n") 9

escaped_fits : string_escape_length (codes "a\"b\n") 9 < length (room ++ room)
unfolding string_escape_length length_loop until_nul
escaped_fits = omega arith

jsonstr_test-string_escape_example :
    jsonstr_test (b'"' ∷ (take escaped.r escaped.buffer ++ (b'"' ∷ []))) (escaped.r + 2)
    ≡ verdict (record { valid = true; size = escaped.r + 2 })
jsonstr_test-string_escape_example =
    jsonstr_test-string_escape (room ++ room) (codes "a\"b\n") 9
      (omega arith, (omega arith, (omega arith, (omega arith, tt)))) escaped_fits
