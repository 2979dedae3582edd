-- ===== src/Base64/Decode.antt =====
-- `rp_base64_decode` of src/misc/rp-base64.c. `char` is read as its byte: a byte above 127 is in no
-- range that the code tests, whether `char` is signed or not.
use rp_lib_utils.Common.{
  ℕ, ◌+◌, ◌-◌, ◌*◌, ◌/◌, ◌%◌, ◌^◌, bit_or, Bool, true, false, ◌&&◌, ◌||◌, [], ◌∷◌, ◌++◌, Bytes,
  Option, none, some, leb, ◌==◌, if◌then◌else◌,
}
use rp_lib_utils.Base64.Result.{Result, ok, nomem, invalid, ◌>>=◌}

-- The sign of the argument `url`: negative, 0, positive.
pub data Variant : Type 0 where
  standard_only any_variant url_only : Variant

-- `url >= 0` and `url <= 0`
abbrev pub takes_url : Variant → Bool
takes_url standard_only = false
takes_url any_variant = true
takes_url url_only = true

abbrev pub takes_standard : Variant → Bool
takes_standard standard_only = true
takes_standard any_variant = true
takes_standard url_only = false

unfoldable pub value_of : Variant → ℕ → Option ℕ
value_of v c =
    if leb b'A' c && leb c b'Z'
    then some (c - b'A')
    else if leb b'a' c && leb c b'z'
    then some (c - b'a' + 26)
    else if leb b'0' c && leb c b'9'
    then some (c - b'0' + 52)
    else if c == b'-' && takes_url v
    then some 62
    else if c == b'_' && takes_url v
    then some 63
    else if c == b'+' && takes_standard v
    then some 62
    else if c == b'/' && takes_standard v
    then some 63
    else none

pub record Reader : Type 0 where
  pub u16 : ℕ
  pub iin : ℕ
  pub out : Bytes

-- What is done with the value `u8` of a character.
unfoldable pub accept : ℕ → Reader → Reader
accept u8 r =
    if r.iin == 0
    then record { u16 = u8; iin = 6; out = r.out }
    else let u = bit_or (r.u16 * 2 ^ 6) u8 % 2 ^ 16 in
      let left = r.iin - 2 in
      record { u16 = u; iin = left; out = r.out ++ ((u / 2 ^ left % 256) ∷ []) }

abbrev pub newline : ℕ → Bool
newline c = c == b'\n' || c == b'\r'

-- The second loop: behind the first `=` only `=` and line ends may follow.
unfoldable pub tail_loop : Bytes → Bytes → Result Bytes
tail_loop [] out = ok out
tail_loop (c ∷ text) out =
    let rest = tail_loop text out in if c == b'=' || newline c then rest else invalid

unfoldable pub decode_loop : Variant → Bytes → Reader → Result Bytes
decode_loop v [] r = ok r.out
decode_loop v (c ∷ text) r = elim (c == b'=') [
  | true ↦ tail_loop (c ∷ text) r.out
  | false ↦ elim (newline c) [
    | true ↦ decode_loop v text r
    | false ↦ elim (value_of v c) [ none ↦ invalid | some u8 ↦ decode_loop v text (accept u8 r) ]
  ]
]

-- The first two arguments say whether `malloc` and `realloc` succeed.
unfoldable pub decode : Bool → Bool → Bytes → Variant → Result Bytes
decode mem shrunk text v =
    let read = decode_loop v text (record { u16 = 0; iin = 0; out = [] }) in
    let kept = read >>= λ out. if shrunk then ok out else nomem in if mem then kept else nomem
