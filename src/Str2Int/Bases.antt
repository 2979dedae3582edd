-- ===== src/Str2Int/Bases.antt =====
-- The four bases of `rp_str2u64`: exact in base 2, 8 and 16, and what goes wrong in base 10.
use rp_lib_utils.Common.{
  ℕ, ◌+◌, ◌*◌, ◌/◌, ◌%◌, ◌^◌, ◌≤◌, ◌<◌, ◌≡◌, ◌⊎◌, inl, inr, sym, ◌∙◌, arith, Option-cases, [], ◌∷◌,
  Bytes, Option, none, some, ltb, if◌then◌else◌,
}
use rp_lib_utils.Str2Int.{digit, digits_loop, uint64_max}
use rp_lib_utils.Str2Int.Value.{
  spelled, read_as, spelled-read_as, le-read_as, digits_loop_refuses, digits_loop_reads,
  digits_loop_bounds,
}

-- A number of 64 bits, if it is one.
abbrev pub bounded : Option ℕ → Option ℕ
bounded none = none
bounded (some v) = if ltb v (2 ^ 64) then some v else none

exact :
    (base : ℕ) (text : Bytes)
    → 0 < base
    → ((n : ℕ) → uint64_max / base < n → 2 ^ 64 ≤ n * base)
    → ((n d : ℕ) → n ≤ uint64_max / base → d < base → n * base + d < 2 ^ 64)
    → digits_loop base text 0 ≡ bounded (read_as base text 0)
exact base text positive over fits = elim (Option-cases (read_as base text 0)) [
  | inl e ↦ rw e (digits_loop_refuses base text 0 0 e)
  | inr (v, e) ↦ ground (
    arith,
    e,
    digits_loop_reads base positive over text 0 v e,
    digits_loop_bounds base positive over fits text 0 v e,
  )
]

exact_base :
    (base : ℕ) (text : Bytes)
    → ((base ≡ 2) ⊎ (base ≡ 8)) ⊎ (base ≡ 16)
    → digits_loop base text 0 ≡ bounded (read_as base text 0)
exact_base base text (inl (inl e)) =
    rw e (exact 2 text (omega arith) (λ n h. omega arith) (λ n d h k. omega arith))
exact_base base text (inl (inr e)) =
    rw e (exact 8 text (omega arith) (λ n h. omega arith) (λ n d h k. omega arith))
exact_base base text (inr e) =
    rw e (exact 16 text (omega arith) (λ n h. omega arith) (λ n d h k. omega arith))

-- In base 2, 8 and 16 the loop returns the number that the digits spell, if it fits 64 bits, and
-- nothing otherwise: there is no wrap-around.
pub digits_loop-bounded :
    (base : ℕ) (text : Bytes)
    → ((base ≡ 2) ⊎ (base ≡ 8)) ⊎ (base ≡ 16)
    → digits_loop base text 0 ≡ bounded (spelled base text 0)
digits_loop-bounded base text h = rw (spelled-read_as base text 0) (exact_base base text h)

-- In base 10 the loop returns the number that the digits spell, if it fits 64 bits.
digits_loop-decimal :
    (text : Bytes) (v : ℕ)
    → spelled 10 text 0 ≡ some v
    → v < 2 ^ 64
    → digits_loop 10 text 0 ≡ some v
digits_loop-decimal text v e h =
    digits_loop_reads 10 (omega arith) (λ n k. omega arith) text 0 v
      (sym (spelled-read_as 10 text 0) ∙ e) h

-- Behind a number above 0 no digit can follow without making it ten times larger.
only_underscores :
    (text : Bytes) (n v m : ℕ)
    → read_as 10 text n ≡ some v
    → v < n * 10
    → (v ≡ n) × (digits_loop 10 text m ≡ some m)
unfolding read_as digits_loop
only_underscores [] n v m e h = ground arith
only_underscores (c ∷ text) n v m e h = elim (Option-cases (digit c)) [
  | inl x ↦ ground (arith, x, only_underscores text n v m)
  | inr (d, x) ↦
      ground
        (arith, x, only_underscores text n v m, le-read_as 10 text (n * 10 + d) v (omega arith))
]

wraps :
    (text : Bytes) (n k : ℕ)
    → read_as 10 text n ≡ some (2 ^ 64 + k)
    → k < 4
    → n < 2 ^ 64
    → digits_loop 10 text n ≡ some k
unfolding read_as digits_loop
wraps [] n k e h s = ground arith
wraps (c ∷ text) n k e h s = elim (Option-cases (digit c)) [
  | inl x ↦ ground (arith, x, wraps text n k)
  | inr (d, x) ↦
      let m : ℕ = n * 10 + d in
      ground (
        arith,
        x,
        wraps text n k,
        wraps text m k,
        le-read_as 10 text m (2 ^ 64 + k) (omega arith),
        only_underscores text m (2 ^ 64 + k) (m % 2 ^ 64),
      )
]

-- In base 10 the four numbers from 2 ^ 64 on are not refused: the loop returns 0 to 3 for them.
pub digits_loop_wraps :
    (text : Bytes) (k : ℕ)
    → spelled 10 text 0 ≡ some (2 ^ 64 + k)
    → k < 4
    → digits_loop 10 text 0 ≡ some k
digits_loop_wraps text k e h = wraps text 0 k (sym (spelled-read_as 10 text 0) ∙ e) h (omega arith)
