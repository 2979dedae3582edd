-- ===== src/JsonStr/Firsts.antt =====
-- How the texts that src/json/rp-jsonstr.c takes for values begin, and what stands behind them.
use mathlib.Core.Path.{subst}
use rp_lib_utils.Common.{
  ℕ, ◌≡◌, refl, sym, ◌∙◌, arith, Bool, true, false, ◌||◌, [], ◌∷◌, ◌++◌, append_assoc, Bytes,
  All-append, codes, ◌==◌,
}
use rp_lib_utils.JsonStr.Reading.{Reading, skip_whitespaces, is_space, is_digit, is_sign}
use rp_lib_utils.JsonStr.Grammar.{
  Spaces, Number, number, key, Scalar, null, true_literal, false_literal, signed, unsigned, string,
  Text, value, padded, items, members, scalar, array, object, between, no_items, last_item, item,
  no_members, last_member, member,
}
use rp_lib_utils.JsonStr.Exact.{Left, Without, read_while-Left}
use rp_lib_utils.JsonStr.ExactNumbers.{Ends}

-- A text begins with a character of `p`.
abbrev pub Begins : (ℕ → Bool) → Bytes → Type 0
Begins p w = (c : ℕ) × (v : Bytes) × (w ≡ c ∷ v) × (p c ≡ true)

unfoldable pub begins_scalar : ℕ → Bool
begins_scalar c = c == b'n' || c == b't' || c == b'f' || is_sign c || is_digit c || c == b'"'

abbrev pub begins_value : ℕ → Bool
begins_value c = begins_scalar c || c == b'[' || c == b'{'

pub Number-Begins : (w : Bytes) → Number w → Begins is_digit w
Number-Begins _ (number [] f e d z x y) = absurd (omega (arith, z))
Number-Begins _ (number (c ∷ whole) f e (d, _) z x y) = (c, whole ++ (f ++ e), refl, d)

sign_begins : (c : ℕ) → is_sign c ≡ true → begins_scalar c ≡ true
unfolding begins_scalar is_sign is_digit
sign_begins c h = ground (arith, h)

digit_begins : (c : ℕ) → is_digit c ≡ true → begins_scalar c ≡ true
unfolding begins_scalar is_sign is_digit
digit_begins c h = ground (arith, h)

pub Scalar-Begins : (w : Bytes) → Scalar w → Begins begins_scalar w
unfolding begins_scalar
Scalar-Begins _ null = (b'n', codes "ull", refl, refl)
Scalar-Begins _ true_literal = (b't', codes "rue", refl, refl)
Scalar-Begins _ false_literal = (b'f', codes "alse", refl, refl)
Scalar-Begins _ (signed c w x n) = (c, w, refl, sign_begins c x)
Scalar-Begins _ (unsigned w n) = let (c, v, e, d) = Number-Begins w n in (c, v, e, digit_begins c d)
Scalar-Begins _ (string w b) = (b'"', w, refl, unfold is_sign is_digit in refl)

value_begins : (c : ℕ) → begins_scalar c ≡ true → begins_value c ≡ true
value_begins c h = ground (arith, h)

pub value-Begins : (w : Bytes) → Text value w → Begins begins_value w
value-Begins _ (scalar w x) = let (c, v, e, b) = Scalar-Begins w x in (c, v, e, value_begins c b)
value-Begins _ (array s w x y) = (b'[', s ++ w, refl, ground arith)
value-Begins _ (object s w x y) = (b'{', s ++ w, refl, ground arith)

pub no_space : (c : ℕ) → begins_value c ≡ true → is_space c ≡ false
unfolding begins_scalar is_sign is_digit is_space
no_space c h = ground (arith, h)

pub no_bracket : (c : ℕ) → begins_value c ≡ true → (c == b']') ≡ false
unfolding begins_scalar is_sign is_digit
no_bracket c h = ground (arith, h)

space_no_bracket : (c : ℕ) → is_space c ≡ true → (c == b']') ≡ false
unfolding is_space
space_no_bracket c h = ground (arith, h)

pub Begins-Without :
    {p : ℕ → Bool} (q : ℕ → Bool) (w t : Bytes)
    → ((c : ℕ) → p c ≡ true → q c ≡ false)
    → Begins p w
    → Without q (w ++ t)
Begins-Without q w t h (c, v, e, b) = subst (λ u. Without q (u ++ t)) (sym e) (h c b)

abbrev pub is_bracket : ℕ → Bool
is_bracket c = c == b']'

-- An item begins with a space or a value, so not with a bracket.
pub padded-Without : (v t : Bytes) → Text padded v → Without is_bracket (v ++ t)
padded-Without _ t (between [] w b s x e) =
    subst (Without is_bracket) (sym (append_assoc w b t))
      (Begins-Without is_bracket w (b ++ t) no_bracket (value-Begins w x))
padded-Without _ t (between (c ∷ a) w b (s, _) x e) = space_no_bracket c s

pub members-Without : (w t : Bytes) → Text members w → Without is_space (w ++ t)
unfolding is_space
members-Without _ t no_members = refl
members-Without _ t (last_member _ v (key w s b x) y) = refl
members-Without _ t (member _ v s u (key w _ b x) y z m) = refl

-- What may stand behind a value and spaces.
abbrev pub Stops : Bytes → Type 0
Stops [] = Unit
Stops (c ∷ t) = (c == b',' || c == b']' || c == b'}') ≡ true

stop_no_space : (c : ℕ) → (c == b',' || c == b']' || c == b'}') ≡ true → is_space c ≡ false
unfolding is_space
stop_no_space c h = ground (arith, h)

pub Stops-Without : (t : Bytes) → Stops t → Without is_space t
Stops-Without [] h = tt
Stops-Without (c ∷ t) h = stop_no_space c h

pub Stops-Ends : (s t : Bytes) → Spaces s → Stops t → Ends (s ++ t)
Stops-Ends [] [] a h = tt
Stops-Ends [] (c ∷ t) a h = ground (arith, h)
Stops-Ends (c ∷ s) t (a, _) h = ground (arith, a)

pub skip-Left :
    (s t : Bytes) (rt : Reading)
    → Spaces s
    → Left (s ++ t) rt
    → Without is_space t
    → Left t (skip_whitespaces rt)
skip-Left s t rt a h o = read_while-Left is_space (unfold is_space in refl) s t rt a h o

-- Spaces in front of the first item belong to it, and are skipped with those behind the bracket.
pub skip_items :
    (s w t : Bytes) (rt : Reading)
    → Spaces s
    → Text items w
    → Left (s ++ (w ++ t)) rt
    → (u : Bytes) × Text items u × Left (u ++ t) (skip_whitespaces rt)
skip_items s _ t rt a no_items h =
    (b']' ∷ [], no_items, skip-Left s (b']' ∷ t) rt a h (unfold is_space in refl))
skip_items s _ t rt a (last_item _ (between p w b x y z)) h = (
  ([] ++ (w ++ b)) ++ (b']' ∷ []),
  last_item ([] ++ (w ++ b)) (between [] w b tt y z),
  skip-Left (s ++ p) (((w ++ b) ++ (b']' ∷ [])) ++ t) rt (All-append _ s p a x)
      (h ∙ simp append_assoc)
      (subst (Without is_space) (simp append_assoc)
        (Begins-Without is_space w (b ++ (b']' ∷ t)) no_space (value-Begins w y))),
)
skip_items s _ t rt a (item _ v (between p w b x y z) m) h = (
  ([] ++ (w ++ b)) ++ (b',' ∷ v),
  item ([] ++ (w ++ b)) v (between [] w b tt y z) m,
  skip-Left (s ++ p) (((w ++ b) ++ (b',' ∷ v)) ++ t) rt (All-append _ s p a x)
      (h ∙ simp append_assoc)
      (subst (Without is_space) (simp append_assoc)
        (Begins-Without is_space w (b ++ (b',' ∷ (v ++ t))) no_space (value-Begins w y))),
)
