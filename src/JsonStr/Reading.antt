-- ===== src/JsonStr/Reading.antt =====
-- The reader of src/json/rp-jsonstr.c and the tests of strings, numbers and literals. Each loop has
-- fuel, and takes a byte in each round.
use rp_lib_utils.Common.{
  ℕ, zero, suc, ◌+◌, Bool, ◌&&◌, ◌||◌, [], ◌∷◌, Bytes, length, leb, ◌==◌, if◌then◌else◌,
}

-- `struct readtxt`: `pos` is counted from the begin of the text, and `ahead` are the bytes between
-- `pos` and `end`.
pub record Reading : Type 0 where
  pub c : ℕ
  pub pos : ℕ
  pub ahead : Bytes

-- Of a text of `lenmax` bytes.
unfoldable pub init_readtxt : Bytes → Reading
init_readtxt [] = record { c = 0; pos = 0; ahead = [] }
init_readtxt (c ∷ text) = record { c = c; pos = 1; ahead = text }

unfoldable pub next_of : ℕ → Bytes → Reading
next_of pos [] = record { c = 0; pos = pos; ahead = [] }
next_of pos (c ∷ text) =
    if c == 0
    then record { c = 0; pos = pos; ahead = [] }
    else record { c = c; pos = pos + 1; ahead = text }

abbrev pub read_readtxt : Reading → Reading
read_readtxt rt = next_of rt.pos rt.ahead

-- The returned 1 or 0 with the reader, or the lack of fuel, which has no counterpart in the code.
pub data Outcome : Type 0 where
  accepts rejects : Reading → Outcome
  out_of_fuel : Outcome

abbrev pub and_then : Outcome → (Reading → Outcome) → Outcome
and_then (accepts rt) f = f rt
and_then (rejects rt) f = rejects rt
and_then out_of_fuel f = out_of_fuel

abbrev pub expect : Bool → Reading → Outcome
expect b rt = if b then accepts rt else rejects rt

-- `while (p(rt->c)) read_readtxt(rt);`
unfoldable pub while_loop : ℕ → (ℕ → Bool) → Reading → Reading
while_loop zero p rt = rt
while_loop (suc n) p rt = let rest = while_loop n p (read_readtxt rt) in if p rt.c then rest else rt

unfoldable pub read_while : (ℕ → Bool) → Reading → Reading
read_while p rt = while_loop (suc (length rt.ahead)) p rt

unfoldable pub is_space : ℕ → Bool
is_space c = c == b' ' || c == b'\n' || c == b'\r' || c == b'\t'

unfoldable pub is_digit : ℕ → Bool
is_digit c = leb b'0' c && leb c b'9'

unfoldable pub is_hex : ℕ → Bool
is_hex c = is_digit c || leb b'a' c && leb c b'f' || leb b'A' c && leb c b'F'

-- The recursive calls are in tail position: a loop.
abbrev pub skip_whitespaces : Reading → Reading
skip_whitespaces rt = read_while is_space rt

unfoldable pub read_next_hex : Reading → Outcome
read_next_hex rt = let r = read_readtxt rt in expect (is_hex r.c) r

-- The characters that stand alone behind a backslash.
unfoldable pub is_simple : ℕ → Bool
is_simple c =
    c == b'"'
    || c == b'\\'
    || c == b'/'
    || c == b'b'
    || c == b'n'
    || c == b'f'
    || c == b'r'
    || c == b't'

-- The inner switch, behind a backslash.
unfoldable pub test_escape : Reading → Outcome
test_escape rt =
    if is_simple rt.c
    then accepts rt
    else if rt.c == b'u'
    then and_then (and_then (and_then (read_next_hex rt) read_next_hex) read_next_hex) read_next_hex
    else rejects rt

unfoldable pub string_loop : ℕ → Reading → Outcome
string_loop zero rt = out_of_fuel
string_loop (suc n) rt =
    let r = read_readtxt rt in
    let more = string_loop n r in
    let behind = and_then (test_escape (read_readtxt r)) (λ s. string_loop n s) in
    if r.c == 0
    then rejects r
    else if r.c == b'"'
    then accepts (read_readtxt r)
    else if r.c == b'\\'
    then behind
    else more

unfoldable pub test_string : Reading → Outcome
test_string rt = if rt.c == b'"' then string_loop (suc (length rt.ahead)) rt else rejects rt

unfoldable pub is_sign : ℕ → Bool
is_sign c = c == b'-' || c == b'+'

unfoldable pub test_exponent : Reading → Outcome
test_exponent rt =
    let r = if is_sign rt.c then read_readtxt rt else rt in
    if is_digit r.c then accepts (read_while is_digit r) else rejects r

unfoldable pub is_exponent : ℕ → Bool
is_exponent c = c == b'e' || c == b'E'

unfoldable pub test_number : Reading → Outcome
test_number rt =
    let whole = read_while is_digit rt in
    let r = if whole.c == b'.' then read_while is_digit (read_readtxt whole) else whole in
    if is_digit rt.c
    then (if is_exponent r.c then test_exponent (read_readtxt r) else accepts r)
    else rejects rt

unfoldable pub test_literal : Bytes → Reading → Outcome
test_literal [] rt = accepts rt
test_literal (l ∷ literal) rt =
    let rest = test_literal literal (read_readtxt rt) in if rt.c == l then rest else rejects rt
