-- ===== src/JsonStr/ExactParts.antt =====
-- The tests of src/json/rp-jsonstr.c accept the keys and the scalars of the grammar.
use rp_lib_utils.Common.{
  ℕ, ◌<◌, ◌≡◌, refl, ap, ◌∙◌, arith, true, false, ◌∷◌, ◌++◌, append_assoc, Bytes, codes, ◌==◌,
  ==_iff,
}
use rp_lib_utils.JsonStr.Reading.{
  Reading, read_readtxt, skip_whitespaces, is_space, is_digit, is_sign,
}
use rp_lib_utils.JsonStr.Values.{test_key, test_scalar}
use rp_lib_utils.JsonStr.Grammar.{
  Key, key, Scalar, null, true_literal, false_literal, signed, unsigned, string,
}
use rp_lib_utils.JsonStr.Exact.{Accepts, holding, Accepts-if, Accepts-and_then, Left, starts}
use rp_lib_utils.JsonStr.ExactScalars.{test_literal-Accepts, test_string-Accepts}
use rp_lib_utils.JsonStr.ExactNumbers.{digit_no_sign, Ends, test_number-Accepts}
use rp_lib_utils.JsonStr.Firsts.{begins_scalar, Number-Begins, skip-Left}

pub test_key-Accepts :
    (k t : Bytes) (rt : Reading) → Key k → Left (k ++ t) rt → Accepts (Left t) (test_key rt)
unfolding test_key
test_key-Accepts _ t rt (key w s b x) h =
    Accepts-and_then (test_string-Accepts w (s ++ (b':' ∷ t)) rt b (h ∙ simp append_assoc)) λ r k.
      let (e, l) =
        starts (skip_whitespaces r) b':' t
          (skip-Left s (b':' ∷ t) r x k (unfold is_space in refl)) in
      rw ((==_iff (skip_whitespaces r).c b':').1 e) (holding l)

digit_bounds : (c : ℕ) → is_digit c ≡ true → (47 < c) × (c < 58)
unfolding is_digit
digit_bounds c h = (ground (arith, h), ground (arith, h))

sign_bounds : (c : ℕ) → is_sign c ≡ true → (42 < c) × (c < 46)
unfolding is_sign
sign_bounds c h = (ground (arith, h), ground (arith, h))

quote_marks : (is_sign b'"' ≡ false) × (is_digit b'"' ≡ false)
unfolding is_sign is_digit
quote_marks = (refl, refl)

pub test_scalar-Accepts :
    (w t : Bytes) (rt : Reading)
    → Scalar w
    → Ends t
    → Left (w ++ t) rt
    → Accepts (Left t) (test_scalar rt)
unfolding test_scalar
test_scalar-Accepts _ t rt null n h =
    let e = (starts rt b'n' (codes "ull" ++ t) h).0 in
    rw ((==_iff rt.c b'n').1 e) (test_literal-Accepts (codes "null") t rt h)
test_scalar-Accepts _ t rt true_literal n h =
    let e = (starts rt b't' (codes "rue" ++ t) h).0 in
    Accepts-if (rt.c == b'n') (λ q. absurd (ground (arith, e, q)))
      (λ _. rw ((==_iff rt.c b't').1 e) (test_literal-Accepts (codes "true") t rt h))
test_scalar-Accepts _ t rt false_literal n h =
    let e = (starts rt b'f' (codes "alse" ++ t) h).0 in
    Accepts-if (rt.c == b'n') (λ q. absurd (ground (arith, e, q)))
      (λ _.
        Accepts-if (rt.c == b't') (λ q. absurd (ground (arith, e, q)))
          (λ _. rw ((==_iff rt.c b'f').1 e) (test_literal-Accepts (codes "false") t rt h)))
test_scalar-Accepts _ t rt (signed c w x y) n h =
    let (e, k) = starts rt c (w ++ t) h in
    let b = sign_bounds c x in
    Accepts-if (rt.c == b'n') (λ q. absurd (ground (arith, e, q, b.1)))
      (λ _.
        Accepts-if (rt.c == b't') (λ q. absurd (ground (arith, e, q, b.1)))
          (λ _.
            Accepts-if (rt.c == b'f') (λ q. absurd (ground (arith, e, q, b.1)))
              (λ _. rw (ap is_sign e ∙ x) (test_number-Accepts w t (read_readtxt rt) y n k))))
test_scalar-Accepts _ t rt (unsigned w y) n h =
    let (c, v, s, d) = Number-Begins w y in
    let e = (starts rt c (v ++ t) (h ∙ ap (λ u. u ++ t) s)).0 in
    let b = digit_bounds c d in
    Accepts-if (rt.c == b'n') (λ q. absurd (ground (arith, e, q, b.1)))
      (λ _.
        Accepts-if (rt.c == b't') (λ q. absurd (ground (arith, e, q, b.1)))
          (λ _.
            Accepts-if (rt.c == b'f') (λ q. absurd (ground (arith, e, q, b.1)))
              (λ _.
                rw (ap is_sign e ∙ digit_no_sign c d, ap is_digit e ∙ d)
                  (test_number-Accepts w t rt y n h))))
test_scalar-Accepts _ t rt (string w y) n h =
    let e = (starts rt b'"' (w ++ t) h).0 in
    Accepts-if (rt.c == b'n') (λ q. absurd (ground (arith, e, q)))
      (λ _.
        Accepts-if (rt.c == b't') (λ q. absurd (ground (arith, e, q)))
          (λ _.
            Accepts-if (rt.c == b'f') (λ q. absurd (ground (arith, e, q)))
              (λ _.
                rw
                  (
                    ap is_sign e ∙ quote_marks.0,
                    ap is_digit e ∙ quote_marks.1,
                    (==_iff rt.c b'"').1 e,
                  )
                  (test_string-Accepts w t rt y h))))

pub scalar_no_open :
    (c : ℕ) → begins_scalar c ≡ true → ((c == b'[') ≡ false) × ((c == b'{') ≡ false)
unfolding begins_scalar is_sign is_digit
scalar_no_open c h = (ground (arith, h), ground (arith, h))
