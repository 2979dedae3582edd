-- ===== src/JsonStr/Complete.antt =====
-- The test of src/json/rp-jsonstr.c accepts each value of the grammar.
use rp_lib_utils.Common.{
  ℕ, zero, suc, ◌+◌, ◌*◌, ◌<◌, ◌≡◌, refl, ap, ◌∙◌, arith, true, false, [], ◌∷◌, ◌++◌, append_assoc,
  Bytes, length, length-append, ◌==◌, ==_iff, if◌then◌else◌,
}
use rp_lib_utils.JsonStr.Reading.{Reading, read_readtxt, skip_whitespaces, is_space}
use rp_lib_utils.JsonStr.Values.{test_scalar, test_value, array_loop, object_loop}
use rp_lib_utils.JsonStr.Grammar.{
  Text, value, padded, items, members, scalar, array, object, between, no_items, last_item, item,
  no_members, Key, key, last_member, member,
}
use rp_lib_utils.JsonStr.Rest.{remaining}
use rp_lib_utils.JsonStr.Parts.{left, no_more, spaces}
use rp_lib_utils.JsonStr.Exact.{
  Accepts, holding, Accepts-if, Accepts-and_then, Left, starts, stands-Without,
}
use rp_lib_utils.JsonStr.ExactNumbers.{Ends}
use rp_lib_utils.JsonStr.ExactParts.{test_key-Accepts, test_scalar-Accepts, scalar_no_open}
use rp_lib_utils.JsonStr.Firsts.{
  Scalar-Begins, value-Begins, no_space, Begins-Without, is_bracket, padded-Without,
  members-Without, Stops, Stops-Without, Stops-Ends, skip-Left, skip_items,
}

array_loop-closes :
    (f : ℕ) (r : Reading) (t : Bytes)
    → 0 < f
    → Left (b']' ∷ t) r
    → Accepts (Left t) (array_loop f r)
unfolding array_loop
array_loop-closes zero r t z h = absurd (omega (arith, z))
array_loop-closes (suc f) r t z h =
    let (e, k) = starts r b']' t h in rw ((==_iff r.c b']').1 e) (holding k)

object_loop-closes :
    (f : ℕ) (r : Reading) (t : Bytes)
    → 0 < f
    → Left (b'}' ∷ t) r
    → Accepts (Left t) (object_loop f r)
unfolding object_loop
object_loop-closes zero r t z h = absurd (omega (arith, z))
object_loop-closes (suc f) r t z h =
    let (e, k) = starts r b'}' t h in rw ((==_iff r.c b'}').1 e) (holding k)

-- A key is no closing brace.
key_no_brace : (k t : Bytes) (rt : Reading) → Key k → Left (k ++ t) rt → (rt.c == b'}') ≡ false
key_no_brace _ t rt (key w s b x) h =
    let e = (starts rt b'"' ((w ++ (s ++ (b':' ∷ []))) ++ t) h).0 in ground (arith, e)

-- A text shrinks by what is taken of it.
shrinks :
    (v t : Bytes) (rt r : Reading)
    → Left (v ++ t) rt
    → Left t r
    → length (remaining rt) ≡ length v + length (remaining r)
shrinks v t rt r h g = omega (arith, ap length h, ap length g, length-append v t)

-- A value, where the tests behind an opening bracket and an opening brace accept what they should.
opened-Accepts :
    (f : ℕ) (w t : Bytes) (r : Reading)
    → Text value w
    → Ends t
    → Left (w ++ t) r
    → ((u : Bytes)
        → Text items u
        → (r.c == b'[') ≡ true
        → Left (u ++ t) (skip_whitespaces (read_readtxt r))
        → Accepts (Left t) (array_loop f (skip_whitespaces (read_readtxt r))))
    → ((u : Bytes)
        → Text members u
        → (r.c == b'{') ≡ true
        → Left (u ++ t) (skip_whitespaces (read_readtxt r))
        → Accepts (Left t) (object_loop f (skip_whitespaces (read_readtxt r))))
    → Accepts (Left t) (
        if r.c == b'['
        then array_loop f (skip_whitespaces (read_readtxt r))
        else if r.c == b'{'
        then object_loop f (skip_whitespaces (read_readtxt r))
        else test_scalar r)
opened-Accepts f _ t r (scalar w x) n h array_ok object_ok =
    let (c, v, s, b) = Scalar-Begins w x in
    let e = (starts r c (v ++ t) (h ∙ ap (λ u. u ++ t) s)).0 in
    let (no_array, no_object) = scalar_no_open c b in
    Accepts-if (r.c == b'[') (λ q. absurd (ground (arith, e, q, no_array)))
      (λ _.
        Accepts-if (r.c == b'{') (λ q. absurd (ground (arith, e, q, no_object)))
          (λ _. test_scalar-Accepts w t r x n h))
opened-Accepts f _ t r (array s w x y) n h array_ok object_ok =
    let (e, k) = starts r b'[' ((s ++ w) ++ t) h in
    let (u, m, g) = skip_items s w t (read_readtxt r) x y (k ∙ append_assoc s w t) in
    let q = (==_iff r.c b'[').1 e in rw q (array_ok u m q g)
opened-Accepts f _ t r (object s w x y) n h array_ok object_ok =
    let (e, k) = starts r b'{' ((s ++ w) ++ t) h in
    let g =
      skip-Left s (w ++ t) (read_readtxt r) x (k ∙ append_assoc s w t) (members-Without w t y) in
    let q = (==_iff r.c b'{').1 e in
    Accepts-if (r.c == b'[') (λ a. absurd (ground (arith, e, a))) (λ _. rw q (object_ok w y q g))

mutual
  unfolding test_value array_loop object_loop

  pub test_value-Accepts :
      (f : ℕ) (v t : Bytes) (rt : Reading)
      → Text padded v
      → Stops t
      → Left (v ++ t) rt
      → 2 * length (remaining rt) < f
      → Accepts (Left t) (test_value f rt)
  test_value-Accepts zero v t rt x n h l = absurd (omega (arith, l))
  test_value-Accepts (suc f) _ t rt (between a w b x y z) n h l =
      let r = skip_whitespaces rt in
      let k =
        skip-Left a (w ++ (b ++ t)) rt x (h ∙ simp append_assoc)
          (Begins-Without is_space w (b ++ t) no_space (value-Begins w y)) in
      Accepts-and_then
        (opened-Accepts f w (b ++ t) r y (Stops-Ends b t z n) k
          (λ u m q g.
            array_loop-Accepts f u (b ++ t) (skip_whitespaces (read_readtxt r)) m g
              (omega (arith, l, left r 90 q, no_more (spaces rt))))
          (λ u m q g.
            object_loop-Accepts f u (b ++ t) (skip_whitespaces (read_readtxt r)) m g
              (omega (arith, l, left r 122 q, no_more (spaces rt)))))
        λ s g. holding (skip-Left b t s z g (Stops-Without t n))

  array_loop-Accepts :
      (f : ℕ) (w t : Bytes) (rt : Reading)
      → Text items w
      → Left (w ++ t) rt
      → suc (2 * length (remaining rt)) < f
      → Accepts (Left t) (array_loop f rt)
  array_loop-Accepts zero w t rt x h l = absurd (omega (arith, l))
  array_loop-Accepts (suc f) _ t rt no_items h l = array_loop-closes (suc f) rt t (omega arith) h
  array_loop-Accepts (suc f) _ t rt (last_item v x) h l =
      let rest = b']' ∷ t in
      let k : Left (v ++ rest) rt = h ∙ append_assoc v (b']' ∷ []) t in
      rw (stands-Without is_bracket refl rt (v ++ rest) k (padded-Without v rest x)) (
        Accepts-and_then (test_value-Accepts f v rest rt x refl k (omega (arith, l))) λ r g.
          let e = (starts r b']' t g).0 in
          Accepts-if (r.c == b',') (λ q. absurd (ground (arith, e, q)))
            (λ _. rw ((==_iff r.c b']').1 e) (array_loop-closes f r t (omega (arith, l)) g)))
  array_loop-Accepts (suc f) _ t rt (item v w x y) h l =
      let rest = b',' ∷ (w ++ t) in
      let k : Left (v ++ rest) rt = h ∙ append_assoc v (b',' ∷ w) t in
      rw (stands-Without is_bracket refl rt (v ++ rest) k (padded-Without v rest x)) (
        Accepts-and_then (test_value-Accepts f v rest rt x refl k (omega (arith, l))) λ r g.
          let (e, m) = starts r b',' (w ++ t) g in
          rw ((==_iff r.c b',').1 e) (
            array_loop-Accepts f w t (read_readtxt r) y m
              (omega (arith, l, shrinks v rest rt r k g, ap length g, ap length m))))

  object_loop-Accepts :
      (f : ℕ) (w t : Bytes) (rt : Reading)
      → Text members w
      → Left (w ++ t) rt
      → suc (2 * length (remaining rt)) < f
      → Accepts (Left t) (object_loop f rt)
  object_loop-Accepts zero w t rt x h l = absurd (omega (arith, l))
  object_loop-Accepts (suc f) _ t rt no_members h l =
      object_loop-closes (suc f) rt t (omega arith) h
  object_loop-Accepts (suc f) _ t rt (last_member n v x y) h l =
      let rest = b'}' ∷ t in
      let k : Left (n ++ (v ++ rest)) rt = h ∙ simp append_assoc in
      rw (key_no_brace n (v ++ rest) rt x k) (
        Accepts-and_then (test_key-Accepts n (v ++ rest) rt x k) λ d j.
          Accepts-and_then
            (test_value-Accepts f v rest d y refl j
              (omega (arith, l, shrinks n (v ++ rest) rt d k j)))
            λ r g.
              let e = (starts r b'}' t g).0 in
              Accepts-if (r.c == b',') (λ q. absurd (ground (arith, e, q)))
                (λ _. rw ((==_iff r.c b'}').1 e) (object_loop-closes f r t (omega (arith, l)) g)))
  object_loop-Accepts (suc f) _ t rt (member n v s w x y z m) h l =
      let rest = b',' ∷ (s ++ (w ++ t)) in
      let k : Left (n ++ (v ++ rest)) rt = h ∙ simp append_assoc in
      rw (key_no_brace n (v ++ rest) rt x k) (
        Accepts-and_then (test_key-Accepts n (v ++ rest) rt x k) λ d j.
          Accepts-and_then
            (test_value-Accepts f v rest d y refl j
              (omega (arith, l, shrinks n (v ++ rest) rt d k j)))
            λ r g.
              let (e, i) = starts r b',' (s ++ (w ++ t)) g in
              let q = (==_iff r.c b',').1 e in
              rw q (
                object_loop-Accepts f w t (skip_whitespaces (read_readtxt r)) m
                  (skip-Left s (w ++ t) (read_readtxt r) z i (members-Without w t m))
                  (omega (
                    arith,
                    l,
                    shrinks n (v ++ rest) rt d k j,
                    shrinks v rest d r j g,
                    left r 43 q,
                  ))))
