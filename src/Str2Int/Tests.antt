-- ===== src/Str2Int/Tests.antt =====
-- Runs of the readers, and their theorems at concrete inputs.
use rp_lib_utils.Common.{◌+◌, ◌^◌, ◌≡◌, inr, refl, arith, some, codes}
use rp_lib_utils.Str2Int.{
  positive, negative, digit, digits_loop, number, after_zero, unsigned, str2u64,
}
use rp_lib_utils.Str2Int.Digits.{value_of_digit}
use rp_lib_utils.Str2Int.Value.{spelled}
use rp_lib_utils.Str2Int.Bases.{bounded, digits_loop-bounded, digits_loop_wraps}

str2u64_hex : str2u64 (codes "-0Xff_ff") ≡ negative 65535
unfolding str2u64 unsigned after_zero number digits_loop digit
str2u64_hex = refl

str2u64_octal : str2u64 (codes "0777") ≡ positive 511
unfolding str2u64 unsigned after_zero number digits_loop digit
str2u64_octal = refl

-- 2 ^ 64 is read as 0.
str2u64_wraps : str2u64 (codes "18446744073709551616") ≡ positive 0
unfolding str2u64 unsigned after_zero number digits_loop digit
str2u64_wraps = refl

digits_loop-bounded_example : digits_loop 16 (codes "1f") 0 ≡ bounded (spelled 16 (codes "1f") 0)
digits_loop-bounded_example = digits_loop-bounded 16 (codes "1f") (inr refl)

spelled_42 : spelled 10 (codes "4_2") 0 ≡ some 42
unfolding spelled value_of_digit
spelled_42 = refl

spelled_wide : spelled 10 (codes "18446744073709551618") 0 ≡ some (2 ^ 64 + 2)
unfolding spelled value_of_digit
spelled_wide = refl

digits_loop_wraps_example : digits_loop 10 (codes "18446744073709551618") 0 ≡ some 2
digits_loop_wraps_example =
    digits_loop_wraps (codes "18446744073709551618") 2 spelled_wide (omega arith)
