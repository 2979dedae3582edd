-- ===== src/Str2Int.antt =====
-- src/misc/rp-str2int.c: numbers read from C strings. A string is the list of its bytes.
pub mod Digits
pub mod Value
pub mod Bases
pub mod Narrow
mod Tests
use rp_lib_utils.Common.{
  ℕ, suc, ◌+◌, ◌-◌, ◌*◌, ◌/◌, ◌%◌, ◌^◌, bit_or, Bool, true, false, ◌&&◌, List, [], ◌∷◌, Bytes,
  Option, none, some, ltb, leb, ◌==◌, if◌then◌else◌,
}

-- The returned 1, -1 or 0, the first two with `*value`.
pub data Parsed : Type 0 where
  positive negative : ℕ → Parsed
  no_number : Parsed

abbrev pub uint64_max : ℕ
uint64_max = 2 ^ 64 - 1

-- The digit of a character, in any base up to 36.
unfoldable pub digit : ℕ → Option ℕ
digit c =
    if leb b'A' c && leb c b'Z'
    then some (c - b'A' + 10)
    else if leb b'a' c && leb c b'z'
    then some (c - b'a' + 10)
    else if leb b'0' c && leb c b'9'
    then some (c - b'0')
    else none

-- The loop over the digits; `none` is a break in front of the end of the string.
unfoldable pub digits_loop : ℕ → Bytes → ℕ → Option ℕ
digits_loop base [] val = some val
digits_loop base (c ∷ text) val = elim (c == b'_') [
  | true ↦ digits_loop base text val
  | false ↦ elim (digit c) [
    | none ↦ none
    | some d ↦
        let rest = digits_loop base text ((val * base + d) % 2 ^ 64) in
        if leb base d then none else if ltb (uint64_max / base) val then none else rest
  ]
]

-- The number behind the mark of the base, where there must be a character.
unfoldable pub number : ℕ → Bytes → Option ℕ
number base [] = none
number base (c ∷ text) = digits_loop base (c ∷ text) 0

-- What follows a leading `0`: the switch on `c | 32`.
unfoldable pub after_zero : Bytes → Option ℕ
after_zero [] = some 0
after_zero (c ∷ text) =
    if bit_or c 32 == b'b'
    then number 2 text
    else if bit_or c 32 == b'o'
    then number 8 text
    else if bit_or c 32 == b'd'
    then number 10 text
    else if bit_or c 32 == b'x'
    then number 16 text
    else number 8 (c ∷ text)

unfoldable pub unsigned : Bytes → Option ℕ
unsigned [] = none
unsigned (c ∷ text) = if c == b'0' then after_zero text else number 10 (c ∷ text)

abbrev pub returned : (ℕ → Parsed) → Option ℕ → Parsed
returned sign none = no_number
returned sign (some n) = sign n

-- `rp_str2u64`
unfoldable pub str2u64 : Bytes → Parsed
str2u64 [] = returned positive (unsigned [])
str2u64 (c ∷ text) =
    if c == b'-'
    then returned negative (unsigned text)
    else if c == b'+'
    then returned positive (unsigned text)
    else returned positive (unsigned (c ∷ text))

-- `negsuc n` is -(n + 1).
pub data ℤ : Type 0 where
  pos negsuc : ℕ → ℤ

-- `-(int64_t)u64`
abbrev pub negated : ℕ → ℤ
negated n = if n == 0 then pos 0 else negsuc (n - 1)

-- The code of `rp_str2int64` and of `rp_str2int32` behind the call, for a type of `w` bits.
unfoldable pub signed_of : ℕ → Parsed → Option ℤ
signed_of w (positive n) = if ltb (2 ^ (w - 1) - 1) n then none else some (pos n)
signed_of w (negative n) = if ltb (2 ^ (w - 1)) n then none else some (negated n)
signed_of w no_number = none

unfoldable pub unsigned_of : ℕ → Parsed → Option ℕ
unsigned_of w (positive n) = if leb n (2 ^ w - 1) then some n else none
unsigned_of w (negative n) = none
unsigned_of w no_number = none

pub str2int64 : Bytes → Option ℤ
str2int64 text = signed_of 64 (str2u64 text)

pub str2int32 : Bytes → Option ℤ
str2int32 text = signed_of 32 (str2u64 text)

-- `rc > 0`, with no test of the value.
unfoldable pub positive_value : Parsed → Option ℕ
positive_value (positive n) = some n
positive_value (negative n) = none
positive_value no_number = none

pub str2uint64 : Bytes → Option ℕ
str2uint64 text = positive_value (str2u64 text)

pub str2uint32 : Bytes → Option ℕ
str2uint32 text = unsigned_of 32 (str2u64 text)
