-- ===== src/Escape/Decode.antt =====
-- `rp_unescape` of src/http/rp-escape.c with the functions that it calls.
use rp_lib_utils.Common.{
  ℕ, ◌+◌, ◌-◌, ◌*◌, ◌%◌, ◌^◌, bit_or, Bool, true, false, [], ◌∷◌, Bytes, Option, none, some, take,
  replicate, ◌==◌, if◌then◌else◌,
}
use rp_lib_utils.Escape.Chars.{hex2bin}
use rp_lib_utils.Escape.Buffer.{Out, store, terminate}
use rp_lib_utils.Escape.Encode.{text_of}

-- `hex2bin(itext[i + 1]) < 0 || hex2bin(itext[i + 2]) < 0` is false.
unfoldable pub hex_pair : ℕ → ℕ → Bool
hex_pair a b = elim (hex2bin a) [
  | none ↦ false
  | some h ↦ elim (hex2bin b) [ none ↦ false | some l ↦ true ]
]

-- How much of a text can be unescaped: up to a `%` without two digits behind it.
unfoldable pub unescapable_length : Bytes → ℕ
unescapable_length [] = 0
unescapable_length (c ∷ []) = if c == b'%' then 0 else 1
unescapable_length (c ∷ a ∷ []) =
    let rest = unescapable_length (a ∷ []) in if c == b'%' then 0 else 1 + rest
unescapable_length (c ∷ a ∷ b ∷ text) =
    let behind = unescapable_length text in
    let rest = unescapable_length (a ∷ b ∷ text) in
    if c == b'%' then (if hex_pair a b then 3 + behind else 0) else 1 + rest

-- One for each character and for each `%` with the two places behind it, whatever stands there.
-- (The read behind the NUL of a text that ends within such places does not count and is left out.)
unfoldable pub unescaped_length : Bytes → ℕ
unescaped_length [] = 0
unescaped_length (c ∷ []) = 1
unescaped_length (c ∷ a ∷ []) =
    let rest = unescaped_length (a ∷ []) in if c == b'%' then 1 else 1 + rest
unescaped_length (c ∷ a ∷ b ∷ text) =
    let behind = unescaped_length text in
    let rest = unescaped_length (a ∷ b ∷ text) in if c == b'%' then 1 + behind else 1 + rest

-- `(char)((h << 4) | l)` for `h` and `l` of two characters, where a failure is -1.
unfoldable pub digit : ℕ → ℕ
digit c = elim (hex2bin c) [ none ↦ 2 ^ 32 - 1 | some h ↦ h ]

unfoldable pub pair_value : ℕ → ℕ → ℕ
pair_value a b = bit_or (digit a * 2 ^ 4) (digit b) % 256

-- The loop of `unescape_to` on the part that can be unescaped; a cut escape ends it.
unfoldable pub unescape_loop : Bytes → Out → Out
unescape_loop [] o = o
unescape_loop (c ∷ []) o = if c == b'%' then o else store (if c == b'+' then b' ' else c) o
unescape_loop (c ∷ a ∷ []) o =
    let rest = unescape_loop (a ∷ []) (store (if c == b'+' then b' ' else c) o) in
    if c == b'%' then o else rest
unescape_loop (c ∷ a ∷ b ∷ text) o =
    let behind = unescape_loop text (store (pair_value a b) o) in
    let rest = unescape_loop (a ∷ b ∷ text) (store (if c == b'+' then b' ' else c) o) in
    if c == b'%' then behind else rest

unfoldable pub unescape_to : Bytes → Out → Out
unescape_to text o = terminate (unescape_loop (take (unescapable_length text) text) o)

-- The block returned and `*reslength`.
unfoldable pub unescape : Bool → ℕ → Bytes → ℕ → Option Bytes × ℕ
unescape mem fresh text textlen =
    let t = text_of text textlen in
    let len = 1 + unescaped_length t in
    let written = unescape_to t (record { buffer = replicate len fresh; r = 0 }) in
    (if mem then some written.buffer else none, len - 1)
