-- ===== src/Pearson.antt =====
-- src/misc/rp-pearson.c and the inlines of rp-pearson.h: the 8-bit hash and its shorter variants.
pub mod Rounds
pub mod Collisions
mod Tests
use rp_lib_utils.Common.{
  ℕ, ◌+◌, ◌-◌, ◌*◌, ◌/◌, ◌%◌, ◌^◌, bit_and, bit_or, bit_xor, List, [], ◌∷◌, Bytes, get_or, length,
  ◌==◌, if◌then◌else◌,
}

-- The substitution table, a permutation of the 16 nibbles.
abbrev tp4 : List ℕ
tp4 = 4 ∷ 6 ∷ 1 ∷ 10 ∷ 9 ∷ 14 ∷ 11 ∷ 5 ∷ 3 ∷ 2 ∷ 12 ∷ 15 ∷ 0 ∷ 7 ∷ 8 ∷ 13 ∷ []

-- One round on a nibble: `TP4[r ^ nibble]`.
unfoldable pub substitute : ℕ → ℕ → ℕ
substitute r nibble = get_or tp4 (bit_xor r nibble) 0

-- `rl` and `ru`, the two halves of the hash.
pub record Halves : Type 0 where
  pub rl : ℕ
  pub ru : ℕ

abbrev pub start : Halves
start = record { rl = 0; ru = 15 }

-- The body of both loops.
unfoldable pub round : ℕ → Halves → Halves
round c s = record { rl = substitute s.rl (bit_and 15 c); ru = substitute s.ru (c / 16) }

-- `((ru << 4) | rl) ^ ((uint8_t)length)`, converted to uint8_t by the return.
unfoldable pub finish : Halves → ℕ → ℕ
finish s n = bit_xor (bit_or (s.ru * 16) s.rl) (n % 256) % 256

-- The loop of `rp_pearson8`, up to the terminating NUL; `n` is `iter - text`.
unfoldable pub pearson8_loop : Bytes → ℕ → Halves → ℕ
pearson8_loop [] n s = finish s n
pearson8_loop (c ∷ text) n s =
    let rest = pearson8_loop text (n + 1) (round c s) in if c == 0 then finish s n else rest

unfoldable pub pearson8 : Bytes → ℕ
pearson8 text = pearson8_loop text 0 start

-- The loop of `rp_pearson8_len` over the `length` bytes of the text.
unfoldable pub rounds : Bytes → Halves → Halves
rounds [] s = s
rounds (c ∷ text) s = rounds text (round c s)

unfoldable pub pearson8_len : Bytes → ℕ
pearson8_len text = finish (rounds text start) (length text)

-- `_DEF_RP_PEARSON_(N)`: the hash folded to `N` bits, 3 to 7.
pub fold_hash : ℕ → ℕ → ℕ
fold_hash n h = bit_and (bit_xor h (h / 2 ^ (8 - n))) (255 / 2 ^ (8 - n))

pub pearson_n : ℕ → Bytes → ℕ
pearson_n n text = fold_hash n (pearson8 text)

pub pearson_n_len : ℕ → Bytes → ℕ
pearson_n_len n text = fold_hash n (pearson8_len text)
