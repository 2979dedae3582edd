-- ===== src/Common/Bits.antt =====
-- Facts about the bit operations: tables over small ranges, and `(a << k) | b` as a sum.
use Prim.Native.Nat.{
  ℕ, zero, suc, ◌+◌, ◌*◌, ◌/◌, ◌%◌, ◌^◌, ◌≤◌, ◌<◌, min, max, bit_and, bit_and-bitwise, differ,
  bit_or, bit_xor, digits, bit_or-bitwise, bit_xor-bitwise,
}
use mathlib.Core.Path.{◌≡◌, refl, sym, subst, ap, ◌∙◌}
use mathlib.Core.Bool.{Bool, true, false}
use native.Mathlib.Omega.{arith}
use native.Mathlib.Nat.{pow-suc}
use rp_lib_utils.Common.Tests.{if◌then◌else◌}

-- A table: the test answers true from 0 up to the bound.
unfoldable pub table_true : (ℕ → Bool) → ℕ → Bool
table_true test zero = true
table_true test (suc bound) = if test bound then table_true test bound else false

pub table_entry :
    (test : ℕ → Bool) (bound i : ℕ) → i < bound → table_true test bound ≡ true → test i ≡ true
unfolding table_true
table_entry test zero i below whole = absurd (omega arith)
table_entry test (suc bound) i below whole = ground (arith, table_entry test bound i)

-- The same for a table of two arguments.
pub table_entry₂ :
    (test : ℕ → ℕ → Bool) (rows columns i j : ℕ)
    → i < rows
    → j < columns
    → table_true (λ r. table_true (test r) columns) rows ≡ true
    → test i j ≡ true
table_entry₂ test rows columns i j hi hj whole =
    table_entry (test i) columns j hj
      (table_entry (λ r. table_true (test r) columns) rows i hi whole)

-- The digit recursion behind `bit_or` adds two numbers that have no bit in common.
digits_sum :
    (n k m a b : ℕ) → a ≤ n → a ≡ m * 2 ^ k → b < 2 ^ k → digits (λ rest. rest) max n a b ≡ a + b
digits_sum zero k m a b h e s = omega arith
digits_sum (suc n) k m zero b h e s = omega arith
digits_sum (suc n) zero m (suc a) b h e s =
    omega (arith, digits_sum n zero (suc a / 2) (suc a / 2) (b / 2))
digits_sum (suc n) (suc k) m (suc a) b h e s =
    let double : m * 2 ^ suc k ≡ m * 2 ^ k * 2 =
      omega (arith, ap (λ (t : ℕ). m * t) (pow-suc 2 k)) in
    omega (arith, double, pow-suc 2 k, digits_sum n k m (suc a / 2) (b / 2))

-- `(a << k) | b` is a sum where `b` lies below the shifted value.
pub bit_or_shift : (k a b : ℕ) → b < 2 ^ k → bit_or (a * 2 ^ k) b ≡ a * 2 ^ k + b
bit_or_shift k a b s =
    bit_or-bitwise (a * 2 ^ k) b ∙ digits_sum (a * 2 ^ k) k a (a * 2 ^ k) b (omega arith) refl s

or_one : (n a : ℕ) → a ≤ n → digits (λ rest. rest) max n a 1 ≡ 2 * (a / 2) + 1
or_one zero a h = omega arith
or_one (suc n) zero h = omega arith
or_one (suc n) (suc a) h = omega (arith, digits_sum n 0 (suc a / 2) (suc a / 2) 0)

or_three : (n a : ℕ) → a ≤ n → digits (λ rest. rest) max n a 3 ≡ 4 * (a / 4) + 3
or_three zero a h = omega arith
or_three (suc n) zero h = omega arith
or_three (suc n) (suc a) h = omega (arith, or_one n (suc a / 2))

-- `a | 3` is the last number of the four that `a` is among.
pub bit_or_3 : (a : ℕ) → bit_or a 3 ≡ 4 * (a / 4) + 3
bit_or_3 a = bit_or-bitwise a 3 ∙ or_three a a (omega arith)

differ-zero : (a : ℕ) → differ a 0 ≡ a
differ-zero zero = refl
differ-zero (suc a) = refl

xor_zero : (n a : ℕ) → a ≤ n → digits (λ rest. rest) differ n a 0 ≡ a
xor_zero zero zero h = refl
xor_zero zero (suc a) h = omega arith
xor_zero (suc n) zero h = refl
xor_zero (suc n) (suc a) h = omega (arith, xor_zero n (suc a / 2), differ-zero (suc a % 2))

pub bit_xor-zero : (a : ℕ) → bit_xor a 0 ≡ a
bit_xor-zero a = bit_xor-bitwise a 0 ∙ xor_zero a a (omega arith)

digits-and : (n a b : ℕ) → digits (λ rest. zero) min n a b ≤ b
digits-and zero a b = omega arith
digits-and (suc n) zero b = omega arith
digits-and (suc n) (suc a) b =
    omega (arith, digits-and n (suc a / 2) (b / 2), min_le (suc a % 2) (b % 2))
  where
    min_le : (x y : ℕ) → min x y ≤ y
    min_le x y = omega arith

pub bit_and-le : (a b : ℕ) → bit_and a b ≤ b
bit_and-le a b = subst (λ (k : ℕ). k ≤ b) (sym (bit_and-bitwise a b)) (digits-and a a b)

digits-or : (n a b : ℕ) → b ≤ digits (λ rest. rest) max n a b
digits-or zero a b = omega arith
digits-or (suc n) zero b = omega arith
digits-or (suc n) (suc a) b =
    omega (arith, digits-or n (suc a / 2) (b / 2), max_ge (suc a % 2) (b % 2))
  where
    max_ge : (x y : ℕ) → y ≤ max x y
    max_ge x y = omega arith

pub bit_or-ge : (a b : ℕ) → b ≤ bit_or a b
bit_or-ge a b = subst (λ (k : ℕ). b ≤ k) (sym (bit_or-bitwise a b)) (digits-or a a b)
