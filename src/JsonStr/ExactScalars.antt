-- ===== src/JsonStr/ExactScalars.antt =====
-- The tests of src/json/rp-jsonstr.c accept the strings and literals of the grammar.
use rp_lib_utils.Common.{
  ℕ, zero, suc, ◌<◌, ◌≡◌, refl, ap, ◌∙◌, arith, true, false, [], ◌∷◌, ◌++◌, append_assoc, Bytes,
  length, length-append, ◌==◌, ==_iff,
}
use rp_lib_utils.JsonStr.Reading.{
  Reading, read_readtxt, is_hex, read_next_hex, is_simple, test_escape, string_loop, test_string,
  test_literal,
}
use rp_lib_utils.JsonStr.Grammar.{Escape, simple, unicode, Body, close, plain, escape}
use rp_lib_utils.JsonStr.Rest.{remaining, length-remaining}
use rp_lib_utils.JsonStr.Exact.{Accepts, holding, Accepts-if, Accepts-and_then, Left, starts}

pub test_literal-Accepts :
    (literal t : Bytes) (rt : Reading)
    → Left (literal ++ t) rt
    → Accepts (Left t) (test_literal literal rt)
unfolding test_literal
test_literal-Accepts [] t rt h = holding h
test_literal-Accepts (l ∷ literal) t rt h =
    let (e, k) = starts rt l (literal ++ t) h in
    rw ((==_iff rt.c l).1 e) (test_literal-Accepts literal t (read_readtxt rt) k)

-- The reader stands on the last character of an escape.
abbrev Last : Bytes → Reading → Type 0
Last t r = Left t (read_readtxt r)

read_next_hex-Accepts :
    (rt : Reading) (c : ℕ) (t : Bytes)
    → is_hex c ≡ true
    → Last (c ∷ t) rt
    → Accepts (Last t) (read_next_hex rt)
unfolding read_next_hex
read_next_hex-Accepts rt c t x h =
    let (e, k) = starts (read_readtxt rt) c t h in rw (ap is_hex e ∙ x) (holding k)

u_is_not_simple : is_simple b'u' ≡ false
unfolding is_simple
u_is_not_simple = refl

test_escape-Accepts :
    (e t : Bytes) (rt : Reading) → Escape e → Left (e ++ t) rt → Accepts (Last t) (test_escape rt)
unfolding test_escape
test_escape-Accepts _ t rt (simple c x) h =
    let (e, k) = starts rt c t h in rw (ap is_simple e ∙ x) (holding k)
test_escape-Accepts _ t rt (unicode a b c d ha hb hc hd) h =
    let (e, k) = starts rt b'u' (a ∷ b ∷ c ∷ d ∷ t) h in
    rw (ap is_simple e ∙ u_is_not_simple, (==_iff rt.c b'u').1 e)
      (Accepts-and_then
        (Accepts-and_then
          (Accepts-and_then (read_next_hex-Accepts rt a (b ∷ c ∷ d ∷ t) ha k)
            (λ r l. read_next_hex-Accepts r b (c ∷ d ∷ t) hb l))
          (λ r l. read_next_hex-Accepts r c (d ∷ t) hc l))
        (λ r l. read_next_hex-Accepts r d t hd l))

string_loop-Accepts :
    (n : ℕ) (w t : Bytes) (rt : Reading)
    → Body w
    → Last (w ++ t) rt
    → length (remaining (read_readtxt rt)) < n
    → Accepts (Left t) (string_loop n rt)
unfolding string_loop
string_loop-Accepts zero w t rt b h l = absurd (omega (arith, l))
string_loop-Accepts (suc n) _ t rt close h l =
    let (e, k) = starts (read_readtxt rt) b'"' t h in
    Accepts-if ((read_readtxt rt).c == 0) (λ z. absurd (ground (arith, e, z)))
      (λ _.
        Accepts-if ((read_readtxt rt).c == b'"') (λ _. holding k)
          (λ q. absurd (ground (arith, e, q))))
string_loop-Accepts (suc n) _ t rt (plain c w x b) h l =
    let (e, k) = starts (read_readtxt rt) c (w ++ t) h in
    Accepts-if ((read_readtxt rt).c == 0) (λ z. absurd (ground (arith, e, z, x)))
      (λ _.
        Accepts-if ((read_readtxt rt).c == b'"') (λ q. absurd (ground (arith, e, q, x)))
          (λ _.
            Accepts-if ((read_readtxt rt).c == b'\\') (λ q. absurd (ground (arith, e, q, x)))
              (λ _.
                string_loop-Accepts n w t (read_readtxt rt) b k
                  (omega (arith, l, ap length h, ap length k)))))
string_loop-Accepts (suc n) _ t rt (escape ec w x b) h l =
    let (e, k) = starts (read_readtxt rt) b'\\' ((ec ++ w) ++ t) h in
    Accepts-if ((read_readtxt rt).c == 0) (λ z. absurd (ground (arith, e, z)))
      (λ _.
        Accepts-if ((read_readtxt rt).c == b'"') (λ q. absurd (ground (arith, e, q)))
          (λ _.
            Accepts-if ((read_readtxt rt).c == b'\\')
              (λ _.
                Accepts-and_then
                  (test_escape-Accepts ec (w ++ t) (read_readtxt (read_readtxt rt)) x
                    (k ∙ append_assoc ec w t))
                  (λ r g. string_loop-Accepts n w t r b g (
                    omega (
                      arith,
                      l,
                      ap length h,
                      ap length g,
                      length-append (ec ++ w) t,
                      length-append ec w,
                      length-append w t,
                    ))))
              (λ q. absurd (ground (arith, e, q)))))

pub test_string-Accepts :
    (w t : Bytes) (rt : Reading)
    → Body w
    → Left (b'"' ∷ (w ++ t)) rt
    → Accepts (Left t) (test_string rt)
unfolding test_string
test_string-Accepts w t rt b h =
    let (e, k) = starts rt b'"' (w ++ t) h in
    rw ((==_iff rt.c b'"').1 e) (
      string_loop-Accepts (suc (length rt.ahead)) w t rt b k
        (omega (arith, length-remaining rt, ap length h, ap length k)))
