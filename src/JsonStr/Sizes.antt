-- ===== src/JsonStr/Sizes.antt =====
-- The size that `rp_jsonstr_test` of src/json/rp-jsonstr.c reports.
use rp_lib_utils.Common.{
  either, ℕ, zero, suc, ◌≡◌, arith, false, [], ◌∷◌, Bytes, length, codes, ◌==◌, if◌then◌else◌,
}
use rp_lib_utils.Escape.Encode.{until_nul}
use rp_lib_utils.JsonStr.Reading.{
  Reading, init_readtxt, read_readtxt, accepts, rejects, skip_whitespaces, is_space, is_digit,
  test_string, is_sign, test_number, test_literal,
}
use rp_lib_utils.JsonStr.Values.{test_key, test_scalar, test_value, array_loop, object_loop}
use rp_lib_utils.JsonStr.Positions.{
  IsAt, Keeps, read-IsAt, Keeps-and_then, read_while-IsAt, test_string-Keeps, test_number-Keeps,
  test_literal-Keeps,
}

module _ (total : ℕ) where
  skip-IsAt : (rt : Reading) → IsAt total rt → IsAt total (skip_whitespaces rt)
  skip-IsAt rt h = read_while-IsAt total is_space rt h

  test_key-Keeps : (rt : Reading) → IsAt total rt → Keeps total (test_key rt)
  unfolding test_key
  test_key-Keeps rt h =
      Keeps-and_then total (test_string rt) _ (test_string-Keeps total rt h) λ r k.
        let s = skip_whitespaces r in
        either (Keeps total) (s.c == b':') (accepts (read_readtxt s)) (rejects s)
          (read-IsAt total s (skip-IsAt r k)) (skip-IsAt r k)

  test_scalar-Keeps : (rt : Reading) → IsAt total rt → Keeps total (test_scalar rt)
  unfolding test_scalar
  test_scalar-Keeps rt h =
      let null = test_literal (codes "null") rt in
      let yes = test_literal (codes "true") rt in
      let no = test_literal (codes "false") rt in
      let string = if rt.c == b'"' then test_string rt else rejects rt in
      let number = if is_digit rt.c then test_number rt else string in
      let signed = if is_sign rt.c then test_number (read_readtxt rt) else number in
      let behind_t = if rt.c == b'f' then no else signed in
      let behind_n = if rt.c == b't' then yes else behind_t in
      either (Keeps total) (rt.c == b'n') null behind_n
        (test_literal-Keeps total (codes "null") rt h)
        (either (Keeps total) (rt.c == b't') yes behind_t
          (test_literal-Keeps total (codes "true") rt h)
          (either (Keeps total) (rt.c == b'f') no signed
            (test_literal-Keeps total (codes "false") rt h)
            (either (Keeps total) (is_sign rt.c) (test_number (read_readtxt rt)) number
              (test_number-Keeps total (read_readtxt rt) (read-IsAt total rt h))
              (either (Keeps total) (is_digit rt.c) (test_number rt) string
                (test_number-Keeps total rt h)
                (either (Keeps total) (rt.c == b'"') (test_string rt) (rejects rt)
                  (test_string-Keeps total rt h) h)))))

  mutual
    unfolding test_value array_loop object_loop

    pub test_value-Keeps : (f : ℕ) (rt : Reading) → IsAt total rt → Keeps total (test_value f rt)
    test_value-Keeps zero rt h = tt
    test_value-Keeps (suc f) rt h =
        let r = skip_whitespaces rt in
        let k = skip-IsAt rt h in
        let inside = skip_whitespaces (read_readtxt r) in
        let i = skip-IsAt (read_readtxt r) (read-IsAt total r k) in
        let object = if r.c == b'{' then object_loop f inside else test_scalar r in
        Keeps-and_then total (if r.c == b'[' then array_loop f inside else object) _
          (either (Keeps total) (r.c == b'[') (array_loop f inside) object
            (array_loop-Keeps f inside i)
            (either (Keeps total) (r.c == b'{') (object_loop f inside) (test_scalar r)
              (object_loop-Keeps f inside i) (test_scalar-Keeps r k)))
          (λ s j. skip-IsAt s j)

    array_loop-Keeps : (f : ℕ) (rt : Reading) → IsAt total rt → Keeps total (array_loop f rt)
    array_loop-Keeps zero rt h = tt
    array_loop-Keeps (suc f) rt h =
        either (Keeps total) (rt.c == b']') (accepts (read_readtxt rt)) _ (read-IsAt total rt h) (
          Keeps-and_then total (test_value f rt) _ (test_value-Keeps f rt h) λ r k.
            let last = if r.c == b']' then array_loop f r else rejects r in
            either (Keeps total) (r.c == b',') (array_loop f (read_readtxt r)) last
              (array_loop-Keeps f (read_readtxt r) (read-IsAt total r k))
              (either (Keeps total) (r.c == b']') (array_loop f r) (rejects r)
                (array_loop-Keeps f r k) k))

    object_loop-Keeps : (f : ℕ) (rt : Reading) → IsAt total rt → Keeps total (object_loop f rt)
    object_loop-Keeps zero rt h = tt
    object_loop-Keeps (suc f) rt h =
        either (Keeps total) (rt.c == b'}') (accepts (read_readtxt rt)) _ (read-IsAt total rt h) (
          Keeps-and_then total (test_key rt) _ (test_key-Keeps rt h) λ v n.
            Keeps-and_then total (test_value f v) _ (test_value-Keeps f v n) λ r k.
              let next = skip_whitespaces (read_readtxt r) in
              let last = if r.c == b'}' then object_loop f r else rejects r in
              either (Keeps total) (r.c == b',') (object_loop f next) last
                (object_loop-Keeps f next (skip-IsAt (read_readtxt r) (read-IsAt total r k)))
                (either (Keeps total) (r.c == b'}') (object_loop f r) (rejects r)
                  (object_loop-Keeps f r k) k))

-- The reader at the begin of a text that does not begin with NUL.
pub init-IsAt :
    (text : Bytes)
    → ((init_readtxt text).c == 0) ≡ false
    → IsAt (length (until_nul text)) (init_readtxt text)
unfolding init_readtxt until_nul
init-IsAt [] h = absurd (ground (arith, h))
init-IsAt (c ∷ text) h = (rw h (omega arith), λ e. absurd (ground (arith, e, h)))
