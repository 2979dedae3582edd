-- ===== src/JsonStr/Verdict.antt =====
-- What `rp_jsonstr_test` of src/json/rp-jsonstr.c answers.
use mathlib.Core.Path.{subst}
use rp_lib_utils.Common.{
  ◌<◌, length-append, Bool, false, ℕ, ◌≡◌, ◌≢◌, ◌↔◌, refl, ap, sym, ◌∙◌, arith, inl, inr, true,
  Bool-cases, [], ◌∷◌, ◌++◌, append-nil, Bytes, length, take, ◌==◌,
}
use rp_lib_utils.Escape.Encode.{until_nul}
use rp_lib_utils.JsonStr.Escape.{bounded_text}
use rp_lib_utils.JsonStr.Reading.{
  is_space, is_digit, read_while, skip_whitespaces, Reading, init_readtxt, Outcome, accepts,
  rejects, out_of_fuel,
}
use rp_lib_utils.JsonStr.Values.{
  Tested, test_value, fuel_for, verdict, gave_up, tested, jsonstr_test,
}
use rp_lib_utils.JsonStr.Grammar.{Text, padded, between}
use rp_lib_utils.JsonStr.Rest.{
  remaining, remaining_end, Ensures, holds, refuses, Went, length-until_nul,
}
use rp_lib_utils.JsonStr.Exact.{read_while-stops, Accepts, holding, Left, ended}
use rp_lib_utils.JsonStr.Complete.{test_value-Accepts}
use rp_lib_utils.JsonStr.Positions.{Keeps}
use rp_lib_utils.JsonStr.Sizes.{test_value-Keeps, init-IsAt}
use rp_lib_utils.JsonStr.Firsts.{value-Begins}
use rp_lib_utils.JsonStr.Sound.{test_value-Ensures}

remaining-init_readtxt : (text : Bytes) → remaining (init_readtxt text) ≡ until_nul text
unfolding remaining init_readtxt until_nul
remaining-init_readtxt [] = refl
remaining-init_readtxt (c ∷ text) = refl

run_of :
    (text : Bytes)
    → Ensures
        (Went (Text padded) (init_readtxt text))
        (test_value (fuel_for text) (init_readtxt text))
run_of text =
    test_value-Ensures (fuel_for text) (init_readtxt text)
      (omega (arith, ap length (remaining-init_readtxt text), length-until_nul text))

answers : {P : Reading → Type 0} {o : Outcome} → Ensures P o → tested o ≢ gave_up
answers (holds h) = cc
answers refuses = cc

gives_answer : (mem : Bytes) (stringlenmax : ℕ) → jsonstr_test mem stringlenmax ≢ gave_up
unfolding jsonstr_test
gives_answer mem stringlenmax = answers (run_of (take stringlenmax mem))

-- `rp_jsonstr_test` answers for every text: its recursion and the loops over strings, arrays and
-- objects come to an end within their rounds; and from every reader the loops over spaces and over
-- digits end because they stand before another character, not for lack of rounds.
pub jsonstr_test-ends :
    (mem : Bytes) (stringlenmax : ℕ) (rt : Reading)
    → (jsonstr_test mem stringlenmax ≢ gave_up)
      × (is_space (skip_whitespaces rt).c ≡ false)
      × (is_digit (read_while is_digit rt).c ≡ false)
jsonstr_test-ends mem stringlenmax rt = (
  gives_answer mem stringlenmax,
  read_while-stops is_space (unfold is_space in refl) rt,
  read_while-stops is_digit (unfold is_digit in refl) rt,
)

accepted :
    (text : Bytes) (o : Outcome) (size : ℕ)
    → Ensures (Went (Text padded) (init_readtxt text)) o
    → tested o ≡ verdict (record { valid = true; size = size })
    → Text padded (until_nul text)
accepted text (accepts r) size (holds g) e = elim (Bool-cases (r.c == 0)) [
  | inl z ↦
      subst (Text padded)
        (sym (append-nil g.text)
          ∙ ap (λ t. g.text ++ t) (sym (remaining_end r z))
          ∙ sym g.split
          ∙ remaining-init_readtxt text)
        g.is
  | inr z ↦ absurd (ground (arith, e, z))
]
accepted text (rejects r) size refuses e = absurd (ground (arith, e))
accepted text out_of_fuel size g e = elim g [ ]

-- What is accepted up to the end of the text is valid.
valid_of :
    (o : Outcome)
    → Accepts (Left []) o
    → (size : ℕ) × (tested o ≡ verdict (record { valid = true; size = size }))
valid_of o (holding {r} h) = (r.pos, rw (ended r h) refl)

jsonstr_test-Text :
    (mem : Bytes) (stringlenmax size : ℕ)
    → jsonstr_test mem stringlenmax ≡ verdict (record { valid = true; size = size })
    → Text padded (bounded_text mem stringlenmax)
unfolding jsonstr_test
jsonstr_test-Text mem stringlenmax size e =
    accepted (take stringlenmax mem) _ size (run_of (take stringlenmax mem)) e

-- A value takes a byte at least.
padded_some : (w : Bytes) → Text padded w → 0 < length w
padded_some _ (between s w t a x b) =
    let (c, v, e, _) = value-Begins w x in
    omega (arith, ap length e, length-append s (w ++ t), length-append w t)

abbrev size_in : Tested → ℕ
size_in (verdict v) = v.size
size_in gave_up = 0

abbrev valid_in : Tested → Bool
valid_in (verdict v) = v.valid
valid_in gave_up = false

size_at_end : (r : Reading) → (r.c == 0) ≡ true → size_in (tested (accepts r)) ≡ r.pos
size_at_end r z = rw z refl

-- The size of a valid text is that of all its bytes.
size_of :
    (total size : ℕ) (o : Outcome)
    → tested o ≡ verdict (record { valid = true; size = size })
    → Keeps total o
    → size ≡ total
size_of total size (accepts r) e (k, ahead) = elim (Bool-cases (r.c == 0)) [
  | inl z ↦
      let same : r.pos ≡ size = sym (size_at_end r z) ∙ ap size_in e in
      omega (arith, same, k, ap length (ahead z))
  | inr z ↦ absurd (ground (arith, e, z))
]
size_of total size (rejects r) e k = absurd (ground (arith, ap valid_in e))
size_of total size out_of_fuel e k = absurd (ground (arith, ap valid_in e))

not_at_end : (text : Bytes) → 0 < length (until_nul text) → ((init_readtxt text).c == 0) ≡ false
unfolding init_readtxt until_nul
not_at_end [] h = absurd (omega (arith, h))
not_at_end (c ∷ text) h = ground (arith, h)

jsonstr_test_size :
    (mem : Bytes) (stringlenmax size : ℕ)
    → jsonstr_test mem stringlenmax ≡ verdict (record { valid = true; size = size })
    → size ≡ length (bounded_text mem stringlenmax)
unfolding jsonstr_test
jsonstr_test_size mem stringlenmax size e =
    let text = take stringlenmax mem in
    let some = padded_some (until_nul text) (jsonstr_test-Text mem stringlenmax size e) in
    size_of (length (until_nul text)) size (test_value (fuel_for text) (init_readtxt text)) e (
      test_value-Keeps (length (until_nul text)) (fuel_for text) (init_readtxt text)
        (init-IsAt text (not_at_end text some)))

jsonstr_test-valid :
    (mem : Bytes) (stringlenmax : ℕ)
    → Text padded (bounded_text mem stringlenmax)
    → (size : ℕ) × (jsonstr_test mem stringlenmax ≡ verdict (record { valid = true; size = size }))
unfolding jsonstr_test
jsonstr_test-valid mem stringlenmax x =
    let text = take stringlenmax mem in
    valid_of (test_value (fuel_for text) (init_readtxt text)) (
      test_value-Accepts (fuel_for text) (until_nul text) [] (init_readtxt text) x tt
        (remaining-init_readtxt text ∙ sym (append-nil (until_nul text)))
        (omega (arith, ap length (remaining-init_readtxt text), length-until_nul text)))

-- `rp_jsonstr_test` finds a text valid exactly when the text, up to its NUL, is a value of the grammar
-- between spaces, and then reports its length as size.
pub jsonstr_test_iff :
    (mem : Bytes) (stringlenmax size : ℕ)
    → (jsonstr_test mem stringlenmax ≡ verdict (record { valid = true; size = size })) ↔ (
        Text padded (bounded_text mem stringlenmax)
        × (size ≡ length (bounded_text mem stringlenmax)))
jsonstr_test_iff mem stringlenmax size = (
  λ e. (jsonstr_test-Text mem stringlenmax size e, jsonstr_test_size mem stringlenmax size e),
  λ (x, q).
      let (n, e) = jsonstr_test-valid mem stringlenmax x in
      e
      ∙ ap (λ (k : ℕ). verdict (record { valid = true; size = k }))
          (jsonstr_test_size mem stringlenmax n e ∙ sym q),
)
