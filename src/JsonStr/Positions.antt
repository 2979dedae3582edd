-- ===== src/JsonStr/Positions.antt =====
-- Where a reader of src/json/rp-jsonstr.c stands in a text of `total` bytes in front of its NUL.
use rp_lib_utils.Common.{
  either, ℕ, zero, suc, ◌+◌, ◌≡◌, refl, ap, arith, Bool, true, inl, inr, Bool-cases, [], ◌∷◌, Bytes,
  length, ◌==◌, if◌then◌else◌,
}
use rp_lib_utils.Escape.Encode.{until_nul}
use rp_lib_utils.JsonStr.Reading.{
  Reading, next_of, read_readtxt, Outcome, accepts, rejects, out_of_fuel, and_then, while_loop,
  read_while, is_digit, is_hex, read_next_hex, is_simple, test_escape, string_loop, test_string,
  is_sign, test_exponent, is_exponent, test_number, test_literal,
}

module _ (total : ℕ) where
  -- The bytes read and those ahead are all; at the end nothing is ahead.
  abbrev pub IsAt : Reading → Type 0
  IsAt rt =
      (rt.pos + length (until_nul rt.ahead) ≡ total)
      × ((rt.c == 0) ≡ true → until_nul rt.ahead ≡ [])

  abbrev pub Keeps : Outcome → Type 0
  Keeps (accepts r) = IsAt r
  Keeps (rejects r) = IsAt r
  Keeps out_of_fuel = Unit

  next_of-IsAt :
      (pos : ℕ) (text : Bytes) → pos + length (until_nul text) ≡ total → IsAt (next_of pos text)
  unfolding next_of until_nul
  next_of-IsAt pos [] h = (h, λ e. refl)
  next_of-IsAt pos (c ∷ text) h = elim (Bool-cases (c == 0)) [
    | inl z ↦ rw z (
      omega (arith, h, ap (λ (b : Bool). length (if b then [] else c ∷ until_nul text)) z),
      λ e. refl,
    )
    | inr z ↦ rw z (
      omega (arith, h, ap (λ (b : Bool). length (if b then [] else c ∷ until_nul text)) z),
      λ e. absurd (ground (arith, e, z)),
    )
  ]

  pub read-IsAt : (rt : Reading) → IsAt rt → IsAt (read_readtxt rt)
  read-IsAt rt h = next_of-IsAt rt.pos rt.ahead h.0

  pub Keeps-and_then :
      (o : Outcome) (f : Reading → Outcome)
      → Keeps o
      → ((r : Reading) → IsAt r → Keeps (f r))
      → Keeps (and_then o f)
  Keeps-and_then (accepts r) f h k = k r h
  Keeps-and_then (rejects r) f h k = h
  Keeps-and_then out_of_fuel f h k = tt

  while_loop-IsAt : (n : ℕ) (p : ℕ → Bool) (rt : Reading) → IsAt rt → IsAt (while_loop n p rt)
  unfolding while_loop
  while_loop-IsAt zero p rt h = h
  while_loop-IsAt (suc n) p rt h =
      either IsAt (p rt.c) (while_loop n p (read_readtxt rt)) rt
        (while_loop-IsAt n p (read_readtxt rt) (read-IsAt rt h)) h

  pub read_while-IsAt : (p : ℕ → Bool) (rt : Reading) → IsAt rt → IsAt (read_while p rt)
  unfolding read_while
  read_while-IsAt p rt h = while_loop-IsAt (suc (length rt.ahead)) p rt h

  read_next_hex-Keeps : (rt : Reading) → IsAt rt → Keeps (read_next_hex rt)
  unfolding read_next_hex
  read_next_hex-Keeps rt h =
      let r = read_readtxt rt in
      either Keeps (is_hex r.c) (accepts r) (rejects r) (read-IsAt rt h) (read-IsAt rt h)

  test_escape-Keeps : (rt : Reading) → IsAt rt → Keeps (test_escape rt)
  unfolding test_escape
  test_escape-Keeps rt h =
      let one = read_next_hex rt in
      let four = and_then (and_then (and_then one read_next_hex) read_next_hex) read_next_hex in
      either Keeps (is_simple rt.c) (accepts rt) (if rt.c == b'u' then four else rejects rt) h (
        either Keeps (rt.c == b'u') four (rejects rt)
          (Keeps-and_then (and_then (and_then one read_next_hex) read_next_hex) read_next_hex
            (Keeps-and_then (and_then one read_next_hex) read_next_hex
              (Keeps-and_then one read_next_hex (read_next_hex-Keeps rt h) read_next_hex-Keeps)
              read_next_hex-Keeps)
            read_next_hex-Keeps)
          h)

  string_loop-Keeps : (n : ℕ) (rt : Reading) → IsAt rt → Keeps (string_loop n rt)
  unfolding string_loop
  string_loop-Keeps zero rt h = tt
  string_loop-Keeps (suc n) rt h =
      let r = read_readtxt rt in
      let k = read-IsAt rt h in
      let more = string_loop n r in
      let behind = and_then (test_escape (read_readtxt r)) (λ s. string_loop n s) in
      either Keeps (r.c == 0) (rejects r)
        (if r.c == b'"' then accepts (read_readtxt r) else if r.c == b'\\' then behind else more) k
        (either Keeps (r.c == b'"') (accepts (read_readtxt r))
          (if r.c == b'\\' then behind else more) (read-IsAt r k)
          (either Keeps (r.c == b'\\') behind more
            (Keeps-and_then (test_escape (read_readtxt r)) (λ s. string_loop n s)
              (test_escape-Keeps (read_readtxt r) (read-IsAt r k)) (λ s i. string_loop-Keeps n s i))
            (string_loop-Keeps n r k)))

  pub test_string-Keeps : (rt : Reading) → IsAt rt → Keeps (test_string rt)
  unfolding test_string
  test_string-Keeps rt h =
      either Keeps (rt.c == b'"') (string_loop (suc (length rt.ahead)) rt) (rejects rt)
        (string_loop-Keeps (suc (length rt.ahead)) rt h) h

  test_exponent-Keeps : (rt : Reading) → IsAt rt → Keeps (test_exponent rt)
  unfolding test_exponent
  test_exponent-Keeps rt h =
      let r = if is_sign rt.c then read_readtxt rt else rt in
      let k = either IsAt (is_sign rt.c) (read_readtxt rt) rt (read-IsAt rt h) h in
      either Keeps (is_digit r.c) (accepts (read_while is_digit r)) (rejects r)
        (read_while-IsAt is_digit r k) k

  pub test_number-Keeps : (rt : Reading) → IsAt rt → Keeps (test_number rt)
  unfolding test_number
  test_number-Keeps rt h =
      let whole = read_while is_digit rt in
      let a = read_while-IsAt is_digit rt h in
      let r = if whole.c == b'.' then read_while is_digit (read_readtxt whole) else whole in
      let k =
        either IsAt (whole.c == b'.') (read_while is_digit (read_readtxt whole)) whole
          (read_while-IsAt is_digit (read_readtxt whole) (read-IsAt whole a)) a in
      let behind = if is_exponent r.c then test_exponent (read_readtxt r) else accepts r in
      either Keeps (is_digit rt.c) behind (rejects rt)
        (either Keeps (is_exponent r.c) (test_exponent (read_readtxt r)) (accepts r)
          (test_exponent-Keeps (read_readtxt r) (read-IsAt r k)) k)
        h

  pub test_literal-Keeps :
      (literal : Bytes) (rt : Reading) → IsAt rt → Keeps (test_literal literal rt)
  unfolding test_literal
  test_literal-Keeps [] rt h = h
  test_literal-Keeps (l ∷ literal) rt h =
      either Keeps (rt.c == l) (test_literal literal (read_readtxt rt)) (rejects rt)
        (test_literal-Keeps literal (read_readtxt rt) (read-IsAt rt h)) h
