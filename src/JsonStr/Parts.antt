-- ===== src/JsonStr/Parts.antt =====
-- How the values of src/json/rp-jsonstr.c are put together from the parts that were read.
use mathlib.Core.Path.{subst}
use rp_lib_utils.Common.{
  ℕ, zero, suc, ◌<◌, ◌≤◌, ◌≡◌, refl, ap, sym, arith, true, false, [], ◌∷◌, ◌++◌, Bytes, length,
  codes, ◌==◌,
}
use rp_lib_utils.JsonStr.Reading.{
  Reading, read_readtxt, skip_whitespaces, is_space, is_digit, is_sign, test_literal,
}
use rp_lib_utils.JsonStr.Values.{test_key, test_scalar, array_loop, object_loop}
use rp_lib_utils.JsonStr.Grammar.{
  Spaces, Body, Key, key, Scalar, null, true_literal, false_literal, signed, unsigned, string, Text,
  value, padded, items, members, array, object, between, last_item, item, last_member, member,
}
use rp_lib_utils.JsonStr.Rest.{
  remaining, remaining-read_readtxt, remaining-char, Ensures, holds, refuses, Ensures-if,
  Ensures-and_then, Ensures-map, Went, Went-length, read_while-Went, Went-append, Went-cons,
  Went-map, Went-one,
}
use rp_lib_utils.JsonStr.Scalars.{test_string-Ensures, test_literal-Ensures}
use rp_lib_utils.JsonStr.Numbers.{test_number-Ensures}

pub spaces : (rt : Reading) → Went Spaces rt (skip_whitespaces rt)
spaces rt = read_while-Went is_space (unfold is_space in refl) rt

pub Key-Ensures : (rt : Reading) → Ensures (Went Key rt) (test_key rt)
unfolding test_key
Key-Ensures rt = Ensures-and_then (test_string-Ensures rt) λ r g.
    Ensures-if ((skip_whitespaces r).c == b':')
      (λ e. holds (keyed r g (Went-one (skip_whitespaces r) 57 e))) (λ e. refuses)
  where
    keyed :
        (r : Reading)
        → Went (λ w. (v : Bytes) × (w ≡ b'"' ∷ v) × Body v) rt r
        → Went (λ w. w ≡ b':' ∷ []) (skip_whitespaces r) (read_readtxt (skip_whitespaces r))
        → Went Key rt (read_readtxt (skip_whitespaces r))
    keyed r g colon =
        let (v, q, b) = g.is in
        let s = spaces r in
        let m : Key (g.text ++ (s.text ++ colon.text)) =
          subst (λ w. Key (w ++ (s.text ++ colon.text))) (sym q)
            (subst (λ w. Key (b'"' ∷ (v ++ (s.text ++ w)))) (sym colon.is) (key v s.text b s.is)) in
        let sc : Went (λ w. Key (g.text ++ w)) _ _ = Went-append _ s colon m in
        Went-append Key g sc sc.is

is_sign_nonzero : (c : ℕ) → is_sign c ≡ true → (c == 0) ≡ false
unfolding is_sign
is_sign_nonzero c h = ground (arith, h)

literal_as :
    (rt : Reading) (literal : Bytes)
    → Scalar literal
    → Ensures (Went (λ w. w ≡ literal) rt) (test_literal literal rt)
    → Ensures (Went Scalar rt) (test_literal literal rt)
literal_as rt literal s e = Ensures-map e λ t g. Went-map g (λ w q. subst Scalar (sym q) s)

pub scalar-Ensures : (rt : Reading) → Ensures (Went Scalar rt) (test_scalar rt)
unfolding test_scalar
scalar-Ensures rt =
    Ensures-if (rt.c == b'n')
      (λ e.
        literal_as rt (codes "null") null
          (test_literal-Ensures (codes "null") rt (refl, (refl, (refl, (refl, tt))))))
      (λ e1.
        Ensures-if (rt.c == b't')
          (λ e.
            literal_as rt (codes "true") true_literal
              (test_literal-Ensures (codes "true") rt (refl, (refl, (refl, (refl, tt))))))
          (λ e2.
            Ensures-if (rt.c == b'f')
              (λ e. literal_as rt (codes "false") false_literal (
                test_literal-Ensures (codes "false") rt (refl, (refl, (refl, (refl, (refl, tt)))))))
              (λ e3.
                Ensures-if (is_sign rt.c)
                  (λ e. Ensures-map (test_number-Ensures (read_readtxt rt)) λ t g.
                    Went-cons Scalar rt.c (remaining-read_readtxt rt (is_sign_nonzero rt.c e)) g
                      (signed rt.c g.text e g.is))
                  (λ e4.
                    Ensures-if (is_digit rt.c)
                      (λ e. Ensures-map (test_number-Ensures rt) λ t g. Went-map g unsigned)
                      (λ e5.
                        Ensures-if (rt.c == b'"')
                          (λ e.
                            Ensures-map (test_string-Ensures rt)
                              λ t g. Went-map g (λ w (v, q, b). subst Scalar (sym q) (string v b)))
                          (λ e6. refuses))))))

pub array_close :
    (f : ℕ) (r : Reading)
    → 0 < f
    → (r.c == b']') ≡ true
    → Ensures (Went (λ w. w ≡ b']' ∷ []) r) (array_loop f r)
unfolding array_loop
array_close zero r h e = absurd (omega (arith, h))
array_close (suc f) r h e = rw e (holds (Went-one r 92 e))

pub object_close :
    (f : ℕ) (r : Reading)
    → 0 < f
    → (r.c == b'}') ≡ true
    → Ensures (Went (λ w. w ≡ b'}' ∷ []) r) (object_loop f r)
unfolding object_loop
object_close zero r h e = absurd (omega (arith, h))
object_close (suc f) r h e = rw e (holds (Went-one r 124 e))

pub items_from :
    {a b c : Reading}
    → Went (Text padded) a b
    → (b.c == b',') ≡ true
    → Went (Text items) (read_readtxt b) c
    → Went (Text items) a c
items_from {b = b} v e k =
    let m = item v.text k.text v.is k.is in
    let ck : Went (λ w. Text items (v.text ++ w)) b _ =
      Went-cons _ b',' (remaining-char b 43 e) k m in
    Went-append _ v ck ck.is

pub members_from :
    {a b c d : Reading}
    → Went Key a b
    → Went (Text padded) b c
    → (c.c == b',') ≡ true
    → Went (Text members) (skip_whitespaces (read_readtxt c)) d
    → Went (Text members) a d
members_from {c = c} n v e k =
    let s = spaces (read_readtxt c) in
    let m = member n.text v.text s.text k.text n.is v.is s.is k.is in
    let sk : Went (λ w. Text members (n.text ++ (v.text ++ (b',' ∷ w)))) _ _ =
      Went-append _ s k m in
    let ck : Went (λ w. Text members (n.text ++ (v.text ++ w))) c _ =
      Went-cons _ b',' (remaining-char c 43 e) sk sk.is in
    let vk : Went (λ w. Text members (n.text ++ w)) _ _ = Went-append _ v ck ck.is in
    Went-append _ n vk vk.is

pub last_item_from :
    {a b c : Reading}
    → Went (Text padded) a b
    → Went (λ w. w ≡ b']' ∷ []) b c
    → Went (Text items) a c
last_item_from v k =
    Went-append _ v k (subst (λ w. Text items (v.text ++ w)) (sym k.is) (last_item v.text v.is))

pub last_member_from :
    {a b c d : Reading}
    → Went Key a b
    → Went (Text padded) b c
    → Went (λ w. w ≡ b'}' ∷ []) c d
    → Went (Text members) a d
last_member_from n v k =
    let m =
      subst (λ w. Text members (n.text ++ (v.text ++ w))) (sym k.is)
        (last_member n.text v.text n.is v.is) in
    let vk : Went (λ w. Text members (n.text ++ w)) _ _ = Went-append _ v k m in
    Went-append _ n vk vk.is

pub padded_from :
    (rt s : Reading)
    → Went (Text value) (skip_whitespaces rt) s
    → Went (Text padded) rt (skip_whitespaces s)
padded_from rt s v =
    let a = spaces rt in
    let b = spaces s in
    let m = between a.text v.text b.text a.is v.is b.is in
    let vb : Went (λ w. Text padded (a.text ++ w)) _ _ = Went-append _ v b m in
    Went-append _ a vb vb.is

pub array_from :
    (r s : Reading)
    → (r.c == b'[') ≡ true
    → Went (Text items) (skip_whitespaces (read_readtxt r)) s
    → Went (Text value) r s
array_from r s e k =
    let b = spaces (read_readtxt r) in
    let bk : Went (λ w. Text value (b'[' ∷ w)) _ _ =
      Went-append _ b k (array b.text k.text b.is k.is) in
    Went-cons _ b'[' (remaining-char r 90 e) bk bk.is

pub object_from :
    (r s : Reading)
    → (r.c == b'{') ≡ true
    → Went (Text members) (skip_whitespaces (read_readtxt r)) s
    → Went (Text value) r s
object_from r s e k =
    let b = spaces (read_readtxt r) in
    let bk : Went (λ w. Text value (b'{' ∷ w)) _ _ =
      Went-append _ b k (object b.text k.text b.is k.is) in
    Went-cons _ b'{' (remaining-char r 122 e) bk bk.is

-- What is left behind a character and spaces.
pub left :
    (r : Reading) (k : ℕ)
    → (r.c == suc k) ≡ true
    → length (remaining (skip_whitespaces (read_readtxt r))) < length (remaining r)
left r k e = omega (arith, ap length (remaining-char r k e), Went-length (spaces (read_readtxt r)))

pub no_more :
    {K : Bytes → Type 0} {a b : Reading} → Went K a b → length (remaining b) ≤ length (remaining a)
no_more g = omega (arith, Went-length g)
