-- ===== src/Str2Int/Digits.antt =====
-- The digits that src/misc/rp-str2int.c reads, as places in the text of all digits.
use rp_lib_utils.Common.{
  ℕ, zero, suc, ◌+◌, ◌<◌, ◌≤◌, ◌≡◌, refl, ap, ◌∙◌, arith, inl, inr, Bool, true, false, ◌&&◌,
  Bool-cases, [], ◌∷◌, Bytes, All, Option, none, some, codes, ltb, ◌==◌, ==_iff, if◌then◌else◌,
}
use rp_lib_utils.Str2Int.{digit}

-- Where a character stands in a text, counted from `n`.
abbrev pub place : Bytes → ℕ → ℕ → Option ℕ
place [] c n = none
place (x ∷ text) c n = if c == x then some n else place text c (n + 1)

abbrev pub small_digits : Bytes
small_digits = codes "0123456789abcdefghijklmnopqrstuvwxyz"

abbrev pub capital_digits : Bytes
capital_digits = codes "0123456789ABCDEFGHIJKLMNOPQRSTUVWXYZ"

abbrev pub or_else : Option ℕ → Option ℕ → Option ℕ
or_else none o = o
or_else (some n) o = some n

-- The value of a digit: its place among the digits, in small letters or capitals.
unfoldable pub value_of_digit : ℕ → Option ℕ
value_of_digit c = or_else (place small_digits c 0) (place capital_digits c 0)

same : Option ℕ → Option ℕ → Bool
same none none = true
same none (some n) = false
same (some n) none = false
same (some n) (some m) = n == m

same_eq : (a b : Option ℕ) → same a b ≡ true → a ≡ b
unfolding same
same_eq none none h = refl
same_eq none (some n) h = absurd (ground (arith, h))
same_eq (some n) none h = absurd (ground (arith, h))
same_eq (some n) (some m) h = ap some ((==_iff n m).0 h)

-- A test of all numbers below `n`.
all_below : ℕ → (ℕ → Bool) → Bool
all_below zero p = true
all_below (suc n) p = p n && all_below n p

all_below-at : (n c : ℕ) (p : ℕ → Bool) → all_below n p ≡ true → c < n → p c ≡ true
unfolding all_below
all_below-at zero c p h l = absurd (omega (arith, l))
all_below-at (suc n) c p h l = elim (Bool-cases (c == n)) [
  | inl e ↦ ap p ((==_iff c n).0 e) ∙ ground (arith, h)
  | inr e ↦ all_below-at n c p (ground (arith, h)) (ground (arith, e, l))
]

agree : all_below 128 (λ c. same (digit c) (value_of_digit c)) ≡ true
unfolding all_below same digit value_of_digit
agree = refl

no_place :
    (text : Bytes) (c n : ℕ) → All (λ x. ltb x 128 ≡ true) text → 128 ≤ c → place text c n ≡ none
no_place [] c n h l = refl
no_place (x ∷ text) c n (hx, h) l = ground (arith, hx, l, no_place text c (n + 1) h l)

below : Bytes → Bool
below [] = true
below (x ∷ text) = ltb x 128 && below text

below-All : (text : Bytes) → below text ≡ true → All (λ x. ltb x 128 ≡ true) text
unfolding below
below-All [] h = tt
below-All (x ∷ text) h = (ground (arith, h), below-All text (ground (arith, h)))

both_below : (below small_digits ≡ true) × (below capital_digits ≡ true)
unfolding below
both_below = (refl, refl)

digit_far : (c : ℕ) → 128 ≤ c → digit c ≡ none
unfolding digit
digit_far c h = ground (arith, h)

pub digit-value_of_digit : (c : ℕ) → digit c ≡ value_of_digit c
unfolding value_of_digit
digit-value_of_digit c = elim (Bool-cases (ltb c 128)) [
  | inl e ↦
      unfold value_of_digit in
      same_eq (digit c) (value_of_digit c)
        (all_below-at 128 c (λ c. same (digit c) (value_of_digit c)) agree (ground (arith, e)))
  | inr e ↦
      let far : 128 ≤ c = ground (arith, e) in
      digit_far c far
      ∙ rw
          (
            no_place small_digits c 0 (below-All small_digits both_below.0) far,
            no_place capital_digits c 0 (below-All capital_digits both_below.1) far,
          )
          refl
]
