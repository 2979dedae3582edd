-- ===== src/JsonStr/ExactNumbers.antt =====
-- The test of src/json/rp-jsonstr.c accepts the numbers of the grammar.
use rp_lib_utils.Common.{
  ℕ, ◌<◌, ◌≡◌, refl, ap, ◌∙◌, arith, Bool, true, false, ◌||◌, [], ◌∷◌, ◌++◌, append_assoc, Bytes,
  length, ◌==◌, ==_iff, if◌then◌else◌,
}
use rp_lib_utils.JsonStr.Reading.{
  Reading, accepts, read_readtxt, read_while, is_space, is_digit, is_sign, test_exponent,
  is_exponent, test_number,
}
use rp_lib_utils.JsonStr.Grammar.{
  Digits, Fraction, no_fraction, fraction, Sign, no_sign, sign, Exponent, no_exponent, exponent,
  Number, number,
}
use rp_lib_utils.JsonStr.Exact.{
  Accepts, holding, Left, Without, starts, stands-Without, read_while-Left,
}

-- What may stand behind a value: a space, a comma, a closing bracket or brace, or the end.
abbrev pub is_end : ℕ → Bool
is_end c = is_space c || c == b',' || c == b']' || c == b'}'

abbrev pub Ends : Bytes → Type 0
Ends [] = Unit
Ends (c ∷ t) = is_end c ≡ true

is_point : ℕ → Bool
is_point c = c == b'.'

no_end :
    (c : ℕ)
    → is_end c ≡ true
    → (is_digit c ≡ false) × (is_exponent c ≡ false) × (is_point c ≡ false)
unfolding is_space is_digit is_exponent is_point
no_end c h = (ground (arith, h), ground (arith, h), ground (arith, h))

Ends-Without :
    (p : ℕ → Bool) (t : Bytes) → ((c : ℕ) → is_end c ≡ true → p c ≡ false) → Ends t → Without p t
Ends-Without p [] h e = tt
Ends-Without p (c ∷ t) h e = h c e

no_digit : is_digit 0 ≡ false
unfolding is_digit
no_digit = refl

no_exponent_mark : is_exponent 0 ≡ false
unfolding is_exponent
no_exponent_mark = refl

exponent_mark : (c : ℕ) → is_exponent c ≡ true → (is_digit c ≡ false) × (is_point c ≡ false)
unfolding is_digit is_exponent is_point
exponent_mark c h = (ground (arith, h), ground (arith, h))

Exponent-Without :
    (e t : Bytes) → Exponent e → Ends t → Without is_digit (e ++ t) × Without is_point (e ++ t)
Exponent-Without _ t no_exponent n = (
  Ends-Without is_digit t (λ c h. (no_end c h).0) n,
  Ends-Without is_point t (λ c h. (no_end c h).2) n,
)
Exponent-Without _ t (exponent c s ds x _ _ _) n = exponent_mark c x

point_is_no_digit : is_digit b'.' ≡ false
unfolding is_digit
point_is_no_digit = refl

Fraction-Without :
    (f e t : Bytes) → Fraction f → Exponent e → Ends t → Without is_digit (f ++ (e ++ t))
Fraction-Without _ e t no_fraction x n = (Exponent-Without e t x n).0
Fraction-Without _ e t (fraction ds d) x n = point_is_no_digit

digits-Left :
    (ds t : Bytes) (rt : Reading)
    → Digits ds
    → Left (ds ++ t) rt
    → Without is_digit t
    → Left t (read_while is_digit rt)
digits-Left ds t rt d h n = read_while-Left is_digit no_digit ds t rt d h n

digit_first :
    (ds t : Bytes) (rt : Reading)
    → Digits ds
    → 0 < length ds
    → Left (ds ++ t) rt
    → is_digit rt.c ≡ true
digit_first [] t rt d z h = absurd (omega (arith, z))
digit_first (c ∷ ds) t rt (d, _) z h = ap is_digit (starts rt c (ds ++ t) h).0 ∙ d

pub digit_no_sign : (c : ℕ) → is_digit c ≡ true → is_sign c ≡ false
unfolding is_digit is_sign
digit_no_sign c h = ground (arith, h)

test_exponent-Accepts :
    (s ds t : Bytes) (rt : Reading)
    → Sign s
    → Digits ds
    → 0 < length ds
    → Ends t
    → Left (s ++ (ds ++ t)) rt
    → Accepts (Left t) (test_exponent rt)
unfolding test_exponent
test_exponent-Accepts _ ds t rt no_sign d z n h =
    let first = digit_first ds t rt d z h in
    rw (digit_no_sign rt.c first, first)
      (holding (digits-Left ds t rt d h (Ends-Without is_digit t (λ c e. (no_end c e).0) n)))
test_exponent-Accepts _ ds t rt (sign c x) d z n h =
    let (e, k) = starts rt c (ds ++ t) h in
    rw (ap is_sign e ∙ x, digit_first ds t (read_readtxt rt) d z k)
      (holding (
        digits-Left ds t (read_readtxt rt) d k (Ends-Without is_digit t (λ c e. (no_end c e).0) n)))

Fraction-Left :
    (f e t : Bytes) (rt : Reading)
    → Fraction f
    → Exponent e
    → Ends t
    → Left (f ++ (e ++ t)) rt
    → Left (e ++ t) (if rt.c == b'.' then read_while is_digit (read_readtxt rt) else rt)
unfolding is_point
Fraction-Left _ e t rt no_fraction x n h =
    rw (stands-Without is_point refl rt (e ++ t) h (Exponent-Without e t x n).1) h
Fraction-Left _ e t rt (fraction ds d) x n h =
    let (q, k) = starts rt b'.' (ds ++ (e ++ t)) h in
    rw ((==_iff rt.c b'.').1 q)
      (digits-Left ds (e ++ t) (read_readtxt rt) d k (Exponent-Without e t x n).0)

Exponent-Left :
    (e t : Bytes) (r : Reading)
    → Exponent e
    → Ends t
    → Left (e ++ t) r
    → Accepts (Left t) (if is_exponent r.c then test_exponent (read_readtxt r) else accepts r)
Exponent-Left _ t r no_exponent n h =
    rw
      (stands-Without is_exponent no_exponent_mark r t h
        (Ends-Without is_exponent t (λ c e. (no_end c e).1) n))
      (holding h)
Exponent-Left _ t r (exponent c s ds x g d z) n h =
    let (e, k) = starts r c ((s ++ ds) ++ t) h in
    rw (ap is_exponent e ∙ x)
      (test_exponent-Accepts s ds t (read_readtxt r) g d z n (k ∙ append_assoc s ds t))

pub test_number-Accepts :
    (w t : Bytes) (rt : Reading)
    → Number w
    → Ends t
    → Left (w ++ t) rt
    → Accepts (Left t) (test_number rt)
unfolding test_number
test_number-Accepts _ t rt (number whole f e d z x y) n h =
    let split : Left (whole ++ (f ++ (e ++ t))) rt =
      h ∙ append_assoc whole (f ++ e) t ∙ ap (λ u. whole ++ u) (append_assoc f e t) in
    let r = read_while is_digit rt in
    let k = digits-Left whole (f ++ (e ++ t)) rt d split (Fraction-Without f e t x y n) in
    rw (digit_first whole (f ++ (e ++ t)) rt d z split) (
      Exponent-Left e t (if r.c == b'.' then read_while is_digit (read_readtxt r) else r) y n
        (Fraction-Left f e t r x y n k))
