-- ===== src/JsonStr/Strings.antt =====
-- src/json/rp-jsonstr.c: a string that is escaped is a valid text between quotes.
use rp_lib_utils.Common.{
  ℕ, zero, suc, ◌+◌, ◌*◌, ◌/◌, ◌%◌, ◌<◌, ◌≤◌, ◌≡◌, refl, ap, ◌∙◌, arith, inl, inr, true, false,
  Bool-cases, [], ◌∷◌, ◌++◌, Bytes, length, length-append, take_all, All, IsChar, IsByte, take, ltb,
  ◌==◌,
}
use rp_lib_utils.JsonStr.Escape.{
  hex_digit, is_quoted, bounded_text, string_escape_length, string_escape,
}
use rp_lib_utils.JsonStr.Escaped.{quoted, length_loop-quoted, string_escape-quoted}
use rp_lib_utils.Escape.Buffer.{overlay}
use rp_lib_utils.Escape.Encode.{until_nul}
use rp_lib_utils.JsonStr.Reading.{
  Reading, next_of, init_readtxt, accepts, while_loop, read_while, is_space, is_digit, is_hex,
  read_next_hex, is_simple, test_escape, string_loop, test_string, is_sign,
}
use rp_lib_utils.JsonStr.Values.{test_scalar, test_value, verdict, tested, fuel_for, jsonstr_test}

hex_digit-is_hex : (n : ℕ) → n < 16 → is_hex (hex_digit n) ≡ true
unfolding is_hex hex_digit is_digit
hex_digit-is_hex n h = ground arith

abbrev at : ℕ → ℕ → Bytes → Reading
at c pos ahead = record { c = c; pos = pos; ahead = ahead }

hex_nonzero : (c : ℕ) → is_hex c ≡ true → (c == 0) ≡ false
unfolding is_hex is_digit
hex_nonzero c h = ground (arith, h)

zero_is_hex : is_hex b'0' ≡ true
unfolding is_hex is_digit
zero_is_hex = refl

quoted_nonzero : (c : ℕ) → is_quoted c ≡ true → (c == 0) ≡ false
quoted_nonzero c h = ground (arith, h)

quoted_is_simple : (c : ℕ) → is_quoted c ≡ true → is_simple c ≡ true
unfolding is_simple
quoted_is_simple c h = ground (arith, h)

not_quote : (c : ℕ) → is_quoted c ≡ false → (c == b'"') ≡ false
not_quote c h = ground (arith, h)

not_backslash : (c : ℕ) → is_quoted c ≡ false → (c == b'\\') ≡ false
not_backslash c h = ground (arith, h)

next_hex :
    (c a pos : ℕ) (rest : Bytes)
    → is_hex a ≡ true
    → read_next_hex (at c pos (a ∷ rest)) ≡ accepts (at a (pos + 1) rest)
unfolding read_next_hex next_of
next_hex c a pos rest h = rw (hex_nonzero a h, h) refl

-- One step over each form of character.
control_step :
    (n c a b pos : ℕ) (rest : Bytes)
    → is_hex a ≡ true
    → is_hex b ≡ true
    → string_loop (suc n) (at c pos (b'\\' ∷ b'u' ∷ b'0' ∷ b'0' ∷ a ∷ b ∷ rest))
      ≡ string_loop n (at b (pos + 6) rest)
unfolding string_loop next_of test_escape is_simple
control_step n c a b pos rest ha hb =
    rw
      (
        next_hex b'u' b'0' (pos + 1 + 1) (b'0' ∷ a ∷ b ∷ rest) zero_is_hex,
        next_hex b'0' b'0' (pos + 1 + 1 + 1) (a ∷ b ∷ rest) zero_is_hex,
        next_hex b'0' a (pos + 1 + 1 + 1 + 1) (b ∷ rest) ha,
        next_hex a b (pos + 1 + 1 + 1 + 1 + 1) rest hb,
      )
      (ap (λ p. string_loop n (at b p rest)) (omega arith))

escape_step :
    (n c d pos : ℕ) (rest : Bytes)
    → is_quoted d ≡ true
    → string_loop (suc n) (at c pos (b'\\' ∷ d ∷ rest)) ≡ string_loop n (at d (pos + 2) rest)
unfolding string_loop next_of test_escape
escape_step n c d pos rest h =
    rw (quoted_nonzero d h, quoted_is_simple d h)
      (ap (λ p. string_loop n (at d p rest)) (omega arith))

plain_step :
    (n c d pos : ℕ) (rest : Bytes)
    → is_quoted d ≡ false
    → (d == 0) ≡ false
    → string_loop (suc n) (at c pos (d ∷ rest)) ≡ string_loop n (at d (pos + 1) rest)
unfolding string_loop next_of
plain_step n c d pos rest h z = rw (z, not_quote d h, not_backslash d h, z) refl

string_loop-quoted :
    (text : Bytes) (n c pos : ℕ)
    → All IsChar text
    → length text < n
    → string_loop n (at c pos (quoted text ++ (b'"' ∷ [])))
      ≡ accepts (at 0 (pos + (length (quoted text) + 1)) [])
unfolding quoted
string_loop-quoted text zero c pos h k = absurd (omega (arith, k))
string_loop-quoted [] (suc n) c pos h k =
    unfold string_loop next_of in ap (λ p. accepts (at 0 p [])) (omega arith)
string_loop-quoted (d ∷ text) (suc n) c pos (hd, h) k = elim (Bool-cases (ltb d 32)) [
  | inl e ↦ rw e (
      control_step n c (hex_digit (d / 16 % 16)) (hex_digit (d % 16)) pos
        (quoted text ++ (b'"' ∷ [])) (hex_digit-is_hex (d / 16 % 16) (omega arith))
        (hex_digit-is_hex (d % 16) (omega arith))
      ∙ string_loop-quoted text n (hex_digit (d % 16)) (pos + 6) h (omega (arith, k))
      ∙ ap (λ p. accepts (at 0 p [])) (omega arith))
  | inr e ↦ elim (Bool-cases (is_quoted d)) [
    | inl q ↦
        rw (e, q)
          (escape_step n c d pos (quoted text ++ (b'"' ∷ [])) q
            ∙ string_loop-quoted text n d (pos + 2) h (omega (arith, k))
            ∙ ap (λ p. accepts (at 0 p [])) (omega arith))
    | inr q ↦
        rw (e, q)
          (plain_step n c d pos (quoted text ++ (b'"' ∷ [])) q (ground (arith, hd.0))
            ∙ string_loop-quoted text n d (pos + 1) h (omega (arith, k))
            ∙ ap (λ p. accepts (at 0 p [])) (omega arith))
  ]
]

length-quoted_le : (text : Bytes) → length text ≤ length (quoted text)
unfolding quoted
length-quoted_le [] = omega arith
length-quoted_le (c ∷ text) = ground (arith, length-quoted_le text)

string_value :
    (text : Bytes) (f : ℕ)
    → All IsChar text
    → test_value (suc f) (at b'"' 1 (quoted text ++ (b'"' ∷ [])))
      ≡ accepts (at 0 (1 + (length (quoted text) + 1)) [])
unfolding test_value test_scalar read_while while_loop is_space is_sign is_digit test_string
string_value text f h =
    rw
      (string_loop-quoted text (suc (length (quoted text ++ (b'"' ∷ [])))) b'"' 1 h
        (omega (arith, length-quoted_le text, length-append (quoted text) (b'"' ∷ []))))
      refl

jsonstr_test-quoted :
    (text : Bytes)
    → All IsChar text
    → jsonstr_test
        (b'"' ∷ (quoted text ++ (b'"' ∷ [])))
        (length (b'"' ∷ (quoted text ++ (b'"' ∷ []))))
      ≡ verdict (record { valid = true; size = length (quoted text) + 2 })
unfolding jsonstr_test init_readtxt
jsonstr_test-quoted text h =
    ap (λ t. tested (test_value (fuel_for t) (init_readtxt t)))
      (take_all (b'"' ∷ (quoted text ++ (b'"' ∷ []))))
    ∙ (ap (λ f. tested (test_value f (at b'"' 1 (quoted text ++ (b'"' ∷ [])))))
          (positive (length (quoted text ++ (b'"' ∷ []))))
        ∙ ap tested (string_value text (2 * (suc (length (quoted text ++ (b'"' ∷ [])))) + 3) h)
        ∙ ap (λ n. verdict (record { valid = true; size = n })) (omega arith))
  where
    positive : (n : ℕ) → 2 * suc n + 4 ≡ suc (2 * suc n + 3)
    positive n = omega arith

take-overlay :
    (dest q : Bytes) → length q < length dest → take (length q) (overlay dest (q ++ (0 ∷ []))) ≡ q
unfolding overlay
take-overlay [] q h = absurd (omega (arith, h))
take-overlay (b ∷ dest) [] h = refl
take-overlay (b ∷ dest) (c ∷ q) h =
    ap (λ (t : Bytes). c ∷ t) (take-overlay dest q (omega (arith, h)))

until_nul-IsChar : (text : Bytes) → All IsByte text → All IsChar (until_nul text)
unfolding until_nul
until_nul-IsChar [] h = tt
until_nul-IsChar (c ∷ text) (hc, h) = ground (arith, hc, until_nul-IsChar text h)

take-IsByte : (n : ℕ) (text : Bytes) → All IsByte text → All IsByte (take n text)
take-IsByte zero text h = tt
take-IsByte (suc n) [] h = tt
take-IsByte (suc n) (c ∷ text) (hc, h) = (hc, take-IsByte n text h)

-- What `rp_jsonstr_string_escape` writes for a text, put between quotes, is found valid by
-- `rp_jsonstr_test` and read to its end, whatever the bytes of the text. (The destination is larger
-- than the length that `rp_jsonstr_string_escape_length` counts.)
pub jsonstr_test-string_escape :
    (dest mem : Bytes) (stringlenmax : ℕ)
    → All IsByte mem
    → string_escape_length mem stringlenmax < length dest
    → let o = string_escape dest mem stringlenmax in
      jsonstr_test (b'"' ∷ (take o.r o.buffer ++ (b'"' ∷ []))) (o.r + 2)
      ≡ verdict (record { valid = true; size = o.r + 2 })
jsonstr_test-string_escape dest mem stringlenmax bytes room =
    rw (string_escape-quoted dest mem stringlenmax, counted, content) valid
  where
    q : Bytes
    q = quoted (bounded_text mem stringlenmax)

    counted : string_escape_length mem stringlenmax ≡ length q
    counted =
        unfold string_escape_length in
        (omega (arith, length_loop-quoted (bounded_text mem stringlenmax) 0))

    content : take (length q) (overlay dest (q ++ (0 ∷ []))) ≡ q
    content = take-overlay dest q (omega (arith, room, counted))

    room_for : length q + 2 ≡ length (b'"' ∷ (q ++ (b'"' ∷ [])))
    room_for = omega (arith, length-append q (b'"' ∷ []))

    valid :
        jsonstr_test (b'"' ∷ (q ++ (b'"' ∷ []))) (length q + 2)
        ≡ verdict (record { valid = true; size = length q + 2 })
    valid =
        ap (jsonstr_test (b'"' ∷ (q ++ (b'"' ∷ [])))) room_for
        ∙ jsonstr_test-quoted (bounded_text mem stringlenmax)
            (until_nul-IsChar (take stringlenmax mem) (take-IsByte stringlenmax mem bytes))
