-- ===== src/Str2Int/Value.antt =====
-- What the loop over the digits returns, by the number that the digits spell.
use rp_lib_utils.Common.{
  ℕ, ◌+◌, ◌*◌, ◌/◌, ◌%◌, ◌^◌, ◌≤◌, ◌<◌, ◌≡◌, inl, inr, arith, true, false, refl, sym, ◌∙◌,
  Option-cases, [], ◌∷◌, Bytes, Option, none, some, leb, ◌==◌, if◌then◌else◌,
}
use rp_lib_utils.Str2Int.{digit, digits_loop, uint64_max}
use rp_lib_utils.Str2Int.Digits.{value_of_digit, digit-value_of_digit}

-- The number that a text of digits spells behind `n`, of any size; `_` counts for nothing.
unfoldable pub spelled : ℕ → Bytes → ℕ → Option ℕ
spelled base [] n = some n
spelled base (c ∷ text) n = elim (c == b'_') [
  | true ↦ spelled base text n
  | false ↦ elim (value_of_digit c) [
    | none ↦ none
    | some d ↦ let rest = spelled base text (n * base + d) in if leb base d then none else rest
  ]
]

-- The same with the digits of the source.
unfoldable pub read_as : ℕ → Bytes → ℕ → Option ℕ
read_as base [] n = some n
read_as base (c ∷ text) n = elim (c == b'_') [
  | true ↦ read_as base text n
  | false ↦ elim (digit c) [
    | none ↦ none
    | some d ↦ let rest = read_as base text (n * base + d) in if leb base d then none else rest
  ]
]

pub spelled-read_as : (base : ℕ) (text : Bytes) (n : ℕ) → spelled base text n ≡ read_as base text n
unfolding spelled read_as
spelled-read_as base [] n = refl
spelled-read_as base (c ∷ text) n = elim (Option-cases (digit c)) [
  | inl x ↦ ground (arith, x, sym (digit-value_of_digit c) ∙ x, spelled-read_as base text n)
  | inr (d, x) ↦ ground (
    arith,
    x,
    sym (digit-value_of_digit c) ∙ x,
    spelled-read_as base text n,
    spelled-read_as base text (n * base + d),
  )
]

-- Numbers only grow, in a base above 0.
pub le-read_as :
    (base : ℕ) (text : Bytes) (n v : ℕ) → 0 < base → read_as base text n ≡ some v → n ≤ v
unfolding read_as
le-read_as base [] n v h e = ground arith
le-read_as base (c ∷ text) n v h e = elim (Option-cases (digit c)) [
  | inl x ↦ ground (arith, x, le-read_as base text n v)
  | inr (d, x) ↦
      ground (
        arith,
        x,
        le-read_as base text n v,
        le-read_as base text (n * base + d) v,
        grows n base d h,
      )
]
  where
    grows : (n base d : ℕ) → 0 < base → n ≤ n * base + d
    grows n base d h = grind arith

-- A text that is no number in the base is refused.
pub digits_loop_refuses :
    (base : ℕ) (text : Bytes) (n m : ℕ)
    → read_as base text n ≡ none
    → digits_loop base text m ≡ none
unfolding read_as digits_loop
digits_loop_refuses base [] n m e = cc
digits_loop_refuses base (c ∷ text) n m e = elim (Option-cases (digit c)) [
  | inl x ↦ ground (arith, x, digits_loop_refuses base text n m)
  | inr (d, x) ↦ ground (
    arith,
    x,
    digits_loop_refuses base text n m,
    digits_loop_refuses base text (n * base + d) ((m * base + d) % 2 ^ 64),
  )
]

-- A base in which a number that passes the test `val > max` is too large.
module _ (base : ℕ) (positive : 0 < base)
    (over : (n : ℕ) → uint64_max / base < n → 2 ^ 64 ≤ n * base) where
  -- Each number that fits is read.
  pub digits_loop_reads :
      (text : Bytes) (n v : ℕ)
      → read_as base text n ≡ some v
      → v < 2 ^ 64
      → digits_loop base text n ≡ some v
  unfolding read_as digits_loop
  digits_loop_reads [] n v e h = e
  digits_loop_reads (c ∷ text) n v e h = elim (Option-cases (digit c)) [
    | inl x ↦ ground (arith, x, digits_loop_reads text n v)
    | inr (d, x) ↦
        let m : ℕ = n * base + d in
        ground (
          arith,
          x,
          digits_loop_reads text n v,
          digits_loop_reads text m v,
          le-read_as base text m v positive,
          over n,
        )
  ]

  -- Where no number that passes the test wraps around, larger numbers are refused.
  pub digits_loop_bounds :
      (fits : (n d : ℕ) → n ≤ uint64_max / base → d < base → n * base + d < 2 ^ 64) (text : Bytes)
      (n v : ℕ)
      → read_as base text n ≡ some v
      → n < 2 ^ 64
      → 2 ^ 64 ≤ v
      → digits_loop base text n ≡ none
  unfolding read_as digits_loop
  digits_loop_bounds fits [] n v e k h = ground arith
  digits_loop_bounds fits (c ∷ text) n v e k h = elim (Option-cases (digit c)) [
    | inl x ↦ ground (arith, x, digits_loop_bounds fits text n v)
    | inr (d, x) ↦
        let m : ℕ = n * base + d in
        ground
          (arith, x, digits_loop_bounds fits text n v, digits_loop_bounds fits text m v, fits n d)
  ]
