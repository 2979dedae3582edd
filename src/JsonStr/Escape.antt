-- ===== src/JsonStr/Escape.antt =====
-- The escaping of strings in src/json/rp-jsonstr.c. A text is its bytes in front of the NUL or of
-- `stringlenmax`, and a `char` is its byte.
use rp_lib_utils.Common.{
  ℕ, ◌+◌, ◌-◌, ◌/◌, ◌%◌, Bool, ◌||◌, [], ◌∷◌, Bytes, length, take, ltb, ◌==◌, if◌then◌else◌,
}
use rp_lib_utils.Escape.Encode.{until_nul}
use rp_lib_utils.Escape.Buffer.{Out, store, terminate}

-- `hex`
unfoldable pub hex_digit : ℕ → ℕ
hex_digit digit = digit + (if ltb 9 digit then b'a' - 10 else b'0')

-- The bytes that a loop `i < stringlenmax && (c = string[i])` runs over.
abbrev pub bounded_text : Bytes → ℕ → Bytes
bounded_text mem stringlenmax = until_nul (take stringlenmax mem)

abbrev pub is_quoted : ℕ → Bool
is_quoted c = c == b'"' || c == b'\\'

unfoldable pub length_loop : Bytes → ℕ → ℕ
length_loop [] r = r
length_loop (c ∷ text) r =
    length_loop text (r + (if ltb c 32 then 6 else if is_quoted c then 2 else 1))

unfoldable pub string_escape_length : Bytes → ℕ → ℕ
string_escape_length mem stringlenmax = length_loop (bounded_text mem stringlenmax) 0

-- The stores of a round of the loop in `rp_jsonstr_string_escape`. Its first store is made without
-- a test, since the loop has tested `r < destlenmax`.
unfoldable pub string_escape_char : ℕ → Out → Out
string_escape_char c o =
    if ltb c 32
    then store (hex_digit (c % 16))
        (store (hex_digit (c / 16 % 16)) (store b'0' (store b'0' (store b'u' (store b'\\' o)))))
    else if is_quoted c
    then store c (store b'\\' o)
    else store c o

-- The loop, and behind it the count of what has no room.
unfoldable pub string_escape_loop : Bytes → Out → Out
string_escape_loop [] o = o
string_escape_loop (c ∷ text) o =
    let rest = string_escape_loop text (string_escape_char c o) in
    if ltb o.r (length o.buffer) then rest else record o { r = o.r + length_loop (c ∷ text) 0 }

-- `dest` with what `rp_jsonstr_string_escape` has written to it, and the returned `r`.
unfoldable pub string_escape : Bytes → Bytes → ℕ → Out
string_escape dest mem stringlenmax =
    terminate (string_escape_loop (bounded_text mem stringlenmax) (record { buffer = dest; r = 0 }))

-- The loop of `rp_jsonstr_string_escape_unsafe`, with no tests. A store behind the end of `dest` is
-- left out here and counted.
unfoldable pub unsafe_loop : Bytes → Out → Out
unsafe_loop [] o = o
unsafe_loop (c ∷ text) o = unsafe_loop text (string_escape_char c o)

unfoldable pub string_escape_unsafe : Bytes → Bytes → ℕ → Out
string_escape_unsafe dest mem stringlenmax =
    terminate (unsafe_loop (bounded_text mem stringlenmax) (record { buffer = dest; r = 0 }))
