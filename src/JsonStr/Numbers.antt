-- ===== src/JsonStr/Numbers.antt =====
-- What the test of numbers in src/json/rp-jsonstr.c accepts.
use rp_lib_utils.Common.{
  ℕ, ◌<◌, ◌≡◌, refl, arith, inl, inr, true, false, Bool-cases, [], ◌∷◌, ◌++◌, Bytes, length, ◌==◌,
  if◌then◌else◌,
}
use rp_lib_utils.JsonStr.Reading.{
  Reading, read_readtxt, read_while, is_digit, is_sign, test_exponent, is_exponent, test_number,
}
use rp_lib_utils.JsonStr.Grammar.{
  Digits, Fraction, no_fraction, fraction, Sign, no_sign, sign, Exponent, no_exponent, exponent,
  Number, number,
}
use rp_lib_utils.JsonStr.Rest.{
  remaining-read_readtxt, remaining-char, Ensures, holds, refuses, Ensures-if, Ensures-map, Went,
  read_while-Went, read_while_some, Went-append, Went-cons,
}

is_digit_nonzero : (c : ℕ) → is_digit c ≡ true → (c == 0) ≡ false
unfolding is_digit
is_digit_nonzero c h = ground (arith, h)

is_sign_nonzero : (c : ℕ) → is_sign c ≡ true → (c == 0) ≡ false
unfolding is_sign
is_sign_nonzero c h = ground (arith, h)

is_exponent_nonzero : (c : ℕ) → is_exponent c ≡ true → (c == 0) ≡ false
unfolding is_exponent
is_exponent_nonzero c h = ground (arith, h)

digits : (rt : Reading) → Went Digits rt (read_while is_digit rt)
digits rt = read_while-Went is_digit (unfold is_digit in refl) rt

abbrev SomeDigits : Bytes → Type 0
SomeDigits w = Digits w × (0 < length w)

some_digits : (rt : Reading) → is_digit rt.c ≡ true → Went SomeDigits rt (read_while is_digit rt)
some_digits rt h = read_while_some is_digit (unfold is_digit in refl) rt h

Sign-part : (rt : Reading) → Went Sign rt (if is_sign rt.c then read_readtxt rt else rt)
Sign-part rt = elim (Bool-cases (is_sign rt.c)) [
  | inl e ↦ rw e (record {
    text = rt.c ∷ [];
    is = sign rt.c e;
    split = remaining-read_readtxt rt (is_sign_nonzero rt.c e);
  })
  | inr e ↦ rw e (record { text = []; is = no_sign; split = refl })
]

Exponent-Ensures :
    (c : ℕ) (rt : Reading)
    → is_exponent c ≡ true
    → Ensures (Went (λ w. Exponent (c ∷ w)) rt) (test_exponent rt)
unfolding test_exponent
Exponent-Ensures c rt h =
    Ensures-if (is_digit r.c) (λ e. holds (joined e (some_digits r e))) (λ e. refuses)
  where
    r : Reading
    r = if is_sign rt.c then read_readtxt rt else rt

    joined :
        is_digit r.c ≡ true
        → Went SomeDigits r (read_while is_digit r)
        → Went (λ w. Exponent (c ∷ w)) rt (read_while is_digit r)
    joined e ds =
        let s = Sign-part rt in
        Went-append _ s ds (exponent c s.text ds.text h s.is ds.is.0 ds.is.1)

Fraction-part :
    (rt : Reading)
    → Went Fraction rt (if rt.c == b'.' then read_while is_digit (read_readtxt rt) else rt)
Fraction-part rt = elim (Bool-cases (rt.c == b'.')) [
  | inl e ↦
      let ds = digits (read_readtxt rt) in
      rw e (Went-cons Fraction b'.' (remaining-char rt 45 e) ds (fraction ds.text ds.is))
  | inr e ↦ rw e (record { text = []; is = no_fraction; split = refl })
]

number_of :
    {a b c d : Reading}
    → Went SomeDigits a b
    → Went Fraction b c
    → Went Exponent c d
    → Went Number a d
number_of ds f e =
    let m = number ds.text f.text e.text ds.is.0 ds.is.1 f.is e.is in
    let fe : Went (λ w. Number (ds.text ++ w)) _ _ = Went-append _ f e m in
    Went-append Number ds fe fe.is

-- `test_number` accepts no more than a number.
pub test_number-Ensures : (rt : Reading) → Ensures (Went Number rt) (test_number rt)
unfolding test_number
test_number-Ensures rt =
    Ensures-if (is_digit rt.c)
      (λ e.
        Ensures-if (is_exponent r.c)
          (λ x. Ensures-map (Exponent-Ensures r.c (read_readtxt r) x) λ t k.
            number_of (some_digits rt e) (Fraction-part whole) (
              Went-cons Exponent r.c (remaining-read_readtxt r (is_exponent_nonzero r.c x)) k k.is))
          (λ x. holds (
            number_of (some_digits rt e) (Fraction-part whole)
              (record { text = []; is = no_exponent; split = refl }))))
      (λ e. refuses)
  where
    whole : Reading
    whole = read_while is_digit rt

    r : Reading
    r = if whole.c == b'.' then read_while is_digit (read_readtxt whole) else whole
