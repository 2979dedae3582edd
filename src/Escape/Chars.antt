-- ===== src/Escape/Chars.antt =====
-- The character functions of src/http/rp-escape.c. A `char` is its byte: a byte above 127, negative
-- as a signed `char`, is escaped either way and is no hexadecimal digit.
use rp_lib_utils.Common.{
  ℕ, ◌+◌, ◌-◌, ◌%◌, Bool, not, ◌&&◌, Option, none, some, ltb, leb, ◌==◌, if◌then◌else◌,
}

unfoldable pub should_escape : ℕ → Bool
should_escape c =
    if leb c b'Z'
    then (if ltb c b'0' then not (c == b'-') && not (c == b'.') else ltb c b'A' && ltb b'9' c)
    else if leb c b'z'
    then ltb c b'a' && not (c == b'_')
    else not (c == b'~')

unfoldable pub bin2hex : ℕ → ℕ
bin2hex f = if not (f % 16 == f) then 0 else if ltb f 10 then f + b'0' else f + (b'A' - 10)

-- `none` is -1.
unfoldable pub hex2bin : ℕ → Option ℕ
hex2bin c =
    if leb c b'F'
    then (if leb c b'9'
        then (if leb b'0' c then some (c - b'0') else none)
        else if leb b'A' c
        then some (c - (b'A' - 10))
        else none)
    else if leb b'a' c && leb c b'f'
    then some (c - (b'a' - 10))
    else none
