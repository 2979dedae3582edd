-- ===== src/JsonStr/Scalars.antt =====
-- What the tests of strings, numbers and literals in src/json/rp-jsonstr.c accept.
use rp_lib_utils.Common.{
  ℕ, zero, suc, ◌<◌, ◌≡◌, refl, ap, sym, ◌∙◌, arith, true, false, [], ◌∷◌, Bytes, length, All, ◌==◌,
  ==_iff,
}
use rp_lib_utils.JsonStr.Reading.{
  Reading, read_readtxt, and_then, is_digit, is_hex, read_next_hex, is_simple, test_escape,
  string_loop, test_string, test_literal,
}
use rp_lib_utils.JsonStr.Grammar.{Escape, simple, unicode, Body, close, plain, escape}
use rp_lib_utils.JsonStr.Rest.{
  remaining, remaining-read_readtxt, remaining-char, Ensures, holds, refuses, Ensures-if,
  Ensures-and_then, Ensures-map, Went, Went-length, Went-append, Went-cons, length-remaining,
}

-- One digit has been read.
abbrev Next : Reading → Reading → Type 0
Next rt r = (r ≡ read_readtxt rt) × (is_hex r.c ≡ true)

read_next_hex-Ensures : (rt : Reading) → Ensures (Next rt) (read_next_hex rt)
unfolding read_next_hex
read_next_hex-Ensures rt =
    Ensures-if (is_hex (read_readtxt rt).c) (λ e. holds (refl, e)) (λ e. refuses)

abbrev Two : Reading → Reading → Type 0
Two rt r = (a : Reading) × Next rt a × Next a r

abbrev Three : Reading → Reading → Type 0
Three rt r = (b : Reading) × Two rt b × Next b r

Two-Ensures : (rt : Reading) → Ensures (Two rt) (and_then (read_next_hex rt) read_next_hex)
Two-Ensures rt =
    Ensures-and_then (read_next_hex-Ensures rt)
      λ a ha. Ensures-map (read_next_hex-Ensures a) λ r hr. (a, ha, hr)

Three-Ensures :
    (rt : Reading)
    → Ensures (Three rt) (and_then (and_then (read_next_hex rt) read_next_hex) read_next_hex)
Three-Ensures rt =
    Ensures-and_then (Two-Ensures rt)
      λ b hb. Ensures-map (read_next_hex-Ensures b) λ r hr. (b, hb, hr)

is_hex_nonzero : (c : ℕ) → is_hex c ≡ true → (c == 0) ≡ false
unfolding is_hex is_digit
is_hex_nonzero c h = ground (arith, h)

is_simple_nonzero : (c : ℕ) → is_simple c ≡ true → (c == 0) ≡ false
unfolding is_simple
is_simple_nonzero c h = ground (arith, h)

-- What follows a backslash, the reader standing on the last character of it at the end.
abbrev Escaped : Reading → Reading → Type 0
Escaped rt r = Went Escape rt (read_readtxt r)

four_digits :
    (rt a b c d : Reading)
    → (rt.c == b'u') ≡ true
    → Next rt a
    → Next a b
    → Next b c
    → Next c d
    → Escaped rt d
four_digits rt a b c d u (ea, ha) (eb, hb) (ec, hc) (ed, hd) = record {
  text = b'u' ∷ a.c ∷ b.c ∷ c.c ∷ d.c ∷ [];
  is = unicode a.c b.c c.c d.c ha hb hc hd;
  split =
      remaining-char rt 116 u
      ∙ ap (λ t. b'u' ∷ remaining t) (sym ea)
      ∙ ap (λ t. b'u' ∷ t)
          (step a b ha eb
            ∙ ap (λ t. a.c ∷ t)
                (step b c hb ec
                  ∙ ap (λ t. b.c ∷ t)
                      (step c d hc ed
                        ∙ ap (λ t. c.c ∷ t) (remaining-read_readtxt d (is_hex_nonzero d.c hd)))));
}
  where
    step :
        (x y : Reading) → is_hex x.c ≡ true → y ≡ read_readtxt x → remaining x ≡ x.c ∷ remaining y
    step x y h e =
        remaining-read_readtxt x (is_hex_nonzero x.c h) ∙ ap (λ t. x.c ∷ remaining t) (sym e)

test_escape-Ensures : (rt : Reading) → Ensures (Escaped rt) (test_escape rt)
unfolding test_escape
test_escape-Ensures rt =
    Ensures-if (is_simple rt.c)
      (λ e. holds (record {
        text = rt.c ∷ [];
        is = simple rt.c e;
        split = remaining-read_readtxt rt (is_simple_nonzero rt.c e);
      }))
      (λ e.
        Ensures-if (rt.c == b'u')
          (λ u. Ensures-and_then (Three-Ensures rt) λ c (b, (a, ha, hb), hc).
            Ensures-map (read_next_hex-Ensures c) λ d hd. four_digits rt a b c d u ha hb hc hd)
          (λ e. refuses))

string_loop-Ensures :
    (n : ℕ) (rt : Reading)
    → length (remaining (read_readtxt rt)) < n
    → Ensures (Went Body (read_readtxt rt)) (string_loop n rt)
unfolding string_loop
string_loop-Ensures zero rt h = absurd (omega (arith, h))
string_loop-Ensures (suc n) rt h =
    Ensures-if (r.c == 0) (λ e. refuses)
      (λ nz.
        Ensures-if (r.c == b'"')
          (λ e. holds (record { text = b'"' ∷ []; is = close; split = remaining-char r 33 e }))
          (λ nq.
            Ensures-if (r.c == b'\\')
              (λ e. Ensures-and_then (test_escape-Ensures (read_readtxt r)) λ s g.
                Ensures-map
                  (string_loop-Ensures n s
                    (omega (arith, h, ap length (remaining-char r 91 e), Went-length g)))
                  λ t k.
                    let both : Went (λ w. Body (b'\\' ∷ w)) (read_readtxt r) t =
                      Went-append _ g k (escape g.text k.text g.is k.is) in
                    Went-cons Body b'\\' (remaining-char r 91 e) both both.is)
              (λ nb.
                Ensures-map
                  (string_loop-Ensures n r
                    (omega (arith, h, ap length (remaining-read_readtxt r nz))))
                  λ t k.
                    Went-cons Body r.c (remaining-read_readtxt r nz) k
                      (plain r.c k.text (ground (arith, nz, nq, nb)) k.is))))
  where
    r : Reading
    r = read_readtxt rt

-- `test_string` accepts no more than a string.
pub test_string-Ensures :
    (rt : Reading) → Ensures (Went (λ w. (v : Bytes) × (w ≡ b'"' ∷ v) × Body v) rt) (test_string rt)
unfolding test_string
test_string-Ensures rt =
    Ensures-if (rt.c == b'"')
      (λ e.
        Ensures-map
          (string_loop-Ensures (suc (length rt.ahead)) rt
            (omega (arith, length-remaining rt, ap length (remaining-char rt 33 e))))
          λ t k. Went-cons _ b'"' (remaining-char rt 33 e) k (k.text, refl, k.is))
      (λ e. refuses)

-- A literal is read to its end.
pub test_literal-Ensures :
    (literal : Bytes) (rt : Reading)
    → All (λ l. (l == 0) ≡ false) literal
    → Ensures (Went (λ w. w ≡ literal) rt) (test_literal literal rt)
unfolding test_literal
test_literal-Ensures [] rt h = holds (record { text = []; is = refl; split = refl })
test_literal-Ensures (l ∷ literal) rt (hl, h) =
    Ensures-if (rt.c == l)
      (λ e. Ensures-map (test_literal-Ensures literal (read_readtxt rt) h) λ t k.
        Went-cons _ l
          (remaining-read_readtxt rt (ground (arith, e, hl))
            ∙ ap (λ c. c ∷ remaining (read_readtxt rt)) ((==_iff rt.c l).0 e))
          k (ap (λ w. l ∷ w) k.is))
      (λ e. refuses)
