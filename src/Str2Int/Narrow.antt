-- ===== src/Str2Int/Narrow.antt =====
-- The typed readers of src/misc/rp-str2int.c against one another.
use rp_lib_utils.Common.{ℕ, ◌^◌, ◌<◌, ◌≡◌, ◌↔◌, arith, Bytes, some}
use rp_lib_utils.Str2Int.{
  Parsed, positive, negative, no_number, ℤ, pos, negsuc, str2u64, signed_of, unsigned_of,
  positive_value, str2int64, str2int32, str2uint64, str2uint32,
}

-- -2 ^ w ≤ z < 2 ^ w
abbrev pub Fits : ℕ → ℤ → Type 0
Fits w (pos n) = n < 2 ^ w
Fits w (negsuc n) = n < 2 ^ w

narrow_signed :
    (p : Parsed) (z : ℤ) → (signed_of 32 p ≡ some z) ↔ ((signed_of 64 p ≡ some z) × Fits 31 z)
unfolding signed_of
narrow_signed (positive n) (pos m) = (λ h. ground arith, λ h. ground arith)
narrow_signed (positive n) (negsuc m) = (λ h. ground arith, λ h. ground arith)
narrow_signed (negative n) (pos m) = (λ h. ground arith, λ h. ground arith)
narrow_signed (negative n) (negsuc m) = (λ h. ground arith, λ h. ground arith)
narrow_signed no_number z = (λ h. cc, λ h. cc h.0)

str2int32-str2int64 :
    (text : Bytes) (z : ℤ) → (str2int32 text ≡ some z) ↔ ((str2int64 text ≡ some z) × Fits 31 z)
unfolding str2int32 str2int64
str2int32-str2int64 text z = narrow_signed (str2u64 text) z

narrow_unsigned :
    (p : Parsed) (n : ℕ)
    → (unsigned_of 32 p ≡ some n) ↔ ((positive_value p ≡ some n) × (n < 2 ^ 32))
unfolding unsigned_of positive_value
narrow_unsigned (positive m) n = (λ h. ground arith, λ h. ground arith)
narrow_unsigned (negative m) n = (λ h. cc, λ h. cc h.0)
narrow_unsigned no_number n = (λ h. cc, λ h. cc h.0)

str2uint32-str2uint64 :
    (text : Bytes) (n : ℕ)
    → (str2uint32 text ≡ some n) ↔ ((str2uint64 text ≡ some n) × (n < 2 ^ 32))
unfolding str2uint32 str2uint64
str2uint32-str2uint64 text n = narrow_unsigned (str2u64 text) n

-- `rp_str2int32` succeeds exactly where `rp_str2int64` does with a number between -2 ^ 31 and
-- 2 ^ 31 - 1, and then with the same number; `rp_str2uint32` exactly where `rp_str2uint64` does with
-- a number below 2 ^ 32, and then with the same number.
str2int32-str2uint32 :
    (text : Bytes) (z : ℤ) (n : ℕ)
    → ((str2int32 text ≡ some z) ↔ ((str2int64 text ≡ some z) × Fits 31 z))
      × ((str2uint32 text ≡ some n) ↔ ((str2uint64 text ≡ some n) × (n < 2 ^ 32)))
str2int32-str2uint32 text z n = (str2int32-str2int64 text z, str2uint32-str2uint64 text n)
