-- ===== src/JsonStr/Grammar.antt =====
-- The texts that src/json/rp-jsonstr.c takes for values. They are those of JSON, and beyond it: a
-- comma may stand behind the last item or member, digits may be missing behind a point, a number
-- may begin with zeros or `+`, and a string may hold control characters.
use rp_lib_utils.Common.{
  ℕ, ◌<◌, ◌≡◌, Bool, true, false, ◌||◌, [], ◌∷◌, ◌++◌, Bytes, length, All, codes, ◌==◌,
}
use rp_lib_utils.JsonStr.Reading.{is_space, is_digit, is_hex, is_simple, is_sign, is_exponent}

abbrev pub Spaces : Bytes → Type 0
Spaces = All (λ c. is_space c ≡ true)

abbrev pub Digits : Bytes → Type 0
Digits = All (λ c. is_digit c ≡ true)

-- The characters that end a run of plain ones in a string.
abbrev pub is_special : ℕ → Bool
is_special c = c == 0 || c == b'"' || c == b'\\'

-- What stands behind a backslash.
pub data Escape : Bytes → Type 0 where
  simple : (c : ℕ) → is_simple c ≡ true → Escape (c ∷ [])
  unicode :
      (a b c d : ℕ)
      → is_hex a ≡ true
      → is_hex b ≡ true
      → is_hex c ≡ true
      → is_hex d ≡ true
      → Escape (b'u' ∷ a ∷ b ∷ c ∷ d ∷ [])

-- What stands behind the opening quote, with the closing one.
pub data Body : Bytes → Type 0 where
  close : Body (b'"' ∷ [])
  plain : (c : ℕ) (w : Bytes) → is_special c ≡ false → Body w → Body (c ∷ w)
  escape : (e w : Bytes) → Escape e → Body w → Body (b'\\' ∷ (e ++ w))

pub data Fraction : Bytes → Type 0 where
  no_fraction : Fraction []
  fraction : (ds : Bytes) → Digits ds → Fraction (b'.' ∷ ds)

pub data Sign : Bytes → Type 0 where
  no_sign : Sign []
  sign : (c : ℕ) → is_sign c ≡ true → Sign (c ∷ [])

pub data Exponent : Bytes → Type 0 where
  no_exponent : Exponent []
  exponent :
      (c : ℕ) (s ds : Bytes)
      → is_exponent c ≡ true
      → Sign s
      → Digits ds
      → 0 < length ds
      → Exponent (c ∷ (s ++ ds))

pub data Number : Bytes → Type 0 where
  number :
      (whole f e : Bytes)
      → Digits whole
      → 0 < length whole
      → Fraction f
      → Exponent e
      → Number (whole ++ (f ++ e))

pub data Key : Bytes → Type 0 where
  key : (w s : Bytes) → Body w → Spaces s → Key (b'"' ∷ (w ++ (s ++ (b':' ∷ []))))

pub data Scalar : Bytes → Type 0 where
  null : Scalar (codes "null")
  true_literal : Scalar (codes "true")
  false_literal : Scalar (codes "false")
  signed : (c : ℕ) (w : Bytes) → is_sign c ≡ true → Number w → Scalar (c ∷ w)
  unsigned : (w : Bytes) → Number w → Scalar w
  string : (w : Bytes) → Body w → Scalar (b'"' ∷ w)

pub data Kind : Type 0 where
  value padded items members : Kind

-- Values, values between spaces, and what stands behind an opening bracket or brace.
pub data Text : Kind → Bytes → Type 0 where
  scalar : (w : Bytes) → Scalar w → Text value w
  array : (s w : Bytes) → Spaces s → Text items w → Text value (b'[' ∷ (s ++ w))
  object : (s w : Bytes) → Spaces s → Text members w → Text value (b'{' ∷ (s ++ w))
  between : (s w t : Bytes) → Spaces s → Text value w → Spaces t → Text padded (s ++ (w ++ t))
  no_items : Text items (b']' ∷ [])
  last_item : (v : Bytes) → Text padded v → Text items (v ++ (b']' ∷ []))
  item : (v w : Bytes) → Text padded v → Text items w → Text items (v ++ (b',' ∷ w))
  no_members : Text members (b'}' ∷ [])
  last_member : (k v : Bytes) → Key k → Text padded v → Text members (k ++ (v ++ (b'}' ∷ [])))
  member :
      (k v s w : Bytes)
      → Key k
      → Text padded v
      → Spaces s
      → Text members w
      → Text members (k ++ (v ++ (b',' ∷ (s ++ w))))
