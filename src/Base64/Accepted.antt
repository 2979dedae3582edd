-- ===== src/Base64/Accepted.antt =====
-- Which texts `rp_base64_decode` takes, and how much it writes.
use rp_lib_utils.Common.{
  ℕ, ◌+◌, ◌-◌, ◌*◌, ◌/◌, ◌%◌, ◌^◌, ◌≤◌, ◌<◌, ◌≡◌, ◌↔◌, ◌⊎◌, refl, ap, arith, true, false, [], ◌∷◌,
  ◌++◌, Bytes, All, length, length-append, ◌==◌, none, some, bit_or, Option-cases, Bool-cases, inl,
  inr,
}
use rp_lib_utils.Base64.Result.{Result, ok, ◌>>=◌}
use rp_lib_utils.Base64.Decode.{
  Variant, standard_only, any_variant, url_only, value_of, Reader, accept, newline, tail_loop,
  decode_loop, decode,
}

-- The characters of both alphabets.
abbrev IsCommon : ℕ → Type 0
IsCommon c = ((b'A' ≤ c) × (c ≤ b'Z')) ⊎ (((b'a' ≤ c) × (c ≤ b'z')) ⊎ ((b'0' ≤ c) × (c ≤ b'9')))

-- The characters of the alphabets that `url` admits.
abbrev pub IsSymbol : Variant → ℕ → Type 0
IsSymbol standard_only c = IsCommon c ⊎ ((c ≡ b'+') ⊎ (c ≡ b'/'))
IsSymbol url_only c = IsCommon c ⊎ ((c ≡ b'-') ⊎ (c ≡ b'_'))
IsSymbol any_variant c = IsCommon c ⊎ (((c ≡ b'+') ⊎ (c ≡ b'/')) ⊎ ((c ≡ b'-') ⊎ (c ≡ b'_')))

abbrev pub IsLineEnd : ℕ → Type 0
IsLineEnd c = (c ≡ b'\n') ⊎ (c ≡ b'\r')

abbrev pub Readable : Variant → ℕ → Type 0
Readable v c = IsLineEnd c ⊎ IsSymbol v c

newline_iff : (c : ℕ) → (newline c ≡ true) ↔ IsLineEnd c
newline_iff c = (λ h. ground (arith, h), λ h. ground (arith, h))

value_of-IsSymbol : (v : Variant) (c u : ℕ) → value_of v c ≡ some u → IsSymbol v c
unfolding value_of
value_of-IsSymbol standard_only c u h = ground (arith, h)
value_of-IsSymbol url_only c u h = ground (arith, h)
value_of-IsSymbol any_variant c u h = ground (arith, h)

no_value : (v : Variant) (c : ℕ) → value_of v c ≡ none → IsSymbol v c → ⊥
unfolding value_of
no_value standard_only c h s = ground (arith, h, s)
no_value url_only c h s = ground (arith, h, s)
no_value any_variant c h s = ground (arith, h, s)

IsSymbol-value_of : (v : Variant) (c : ℕ) → IsSymbol v c → (u : ℕ) × (value_of v c ≡ some u)
IsSymbol-value_of v c h = elim (Option-cases (value_of v c)) [
  | inl e ↦ absurd (no_value v c e h)
  | inr f ↦ f
]

not_padding : (v : Variant) (c : ℕ) → Readable v c → (c == b'=') ≡ false
not_padding standard_only c h = ground (arith, h)
not_padding url_only c h = ground (arith, h)
not_padding any_variant c h = ground (arith, h)

-- What may follow the body: nothing, or a `=` and then `=` and line ends.
abbrev Filler : ℕ → Type 0
Filler c = (c ≡ b'=') ⊎ IsLineEnd c

abbrev pub Padding : Bytes → Type 0
Padding [] = Unit
Padding (c ∷ tail) = (c ≡ b'=') × All Filler tail

pub record Accepted (v : Variant) (text : Bytes) : Type 0 where
  pub body : Bytes
  pub tail : Bytes
  pub split : text ≡ body ++ tail
  pub readable : All (Readable v) body
  pub padding : Padding tail

tail_loop_sound : (text out r : Bytes) → tail_loop text out ≡ ok r → All Filler text × (r ≡ out)
unfolding tail_loop
tail_loop_sound [] out r h = ground arith
tail_loop_sound (c ∷ text) out r h = ground (arith, tail_loop_sound text out r)

tail_loop_complete : (text out : Bytes) → All Filler text → tail_loop text out ≡ ok out
unfolding tail_loop
tail_loop_complete [] out h = refl
tail_loop_complete (c ∷ text) out (hc, h) = ground (arith, tail_loop_complete text out h)

-- A readable character in front.
read_one :
    {v : Variant} {c : ℕ} {text : Bytes} → Readable v c → Accepted v text → Accepted v (c ∷ text)
read_one {c} h a = record {
  body = c ∷ a.body;
  tail = a.tail;
  split = ap (λ t. c ∷ t) a.split;
  readable = (h, a.readable);
  padding = a.padding;
}

decode_loop_sound :
    (v : Variant) (text : Bytes) (r : Reader) (out : Bytes)
    → decode_loop v text r ≡ ok out
    → Accepted v text
unfolding decode_loop
decode_loop_sound v [] r out h = record {
  body = [];
  tail = [];
  split = refl;
  readable = tt;
  padding = tt;
}
decode_loop_sound v (c ∷ text) r out h = elim (Bool-cases (c == b'=')) [
  | inl e ↦ record {
    body = [];
    tail = c ∷ text;
    split = refl;
    readable = tt;
    padding = ground (arith, tail_loop_sound (c ∷ text) r.out out);
  }
  | inr ne ↦ elim (Bool-cases (newline c)) [
    | inl end ↦
        read_one (inl ((newline_iff c).0 end)) (decode_loop_sound v text r out (ground arith))
    | inr plain ↦ elim (Option-cases (value_of v c)) [
      | inl e ↦ absurd (ground arith)
      | inr (u, e) ↦
          read_one (inr (value_of-IsSymbol v c u e))
            (decode_loop_sound v text (accept u r) out (ground arith))
    ]
  ]
]

decode_loop_complete :
    (v : Variant) (body tail : Bytes) (r : Reader)
    → All (Readable v) body
    → Padding tail
    → (out : Bytes) × (decode_loop v (body ++ tail) r ≡ ok out)
unfolding decode_loop
decode_loop_complete v [] [] r h p = (r.out, refl)
decode_loop_complete v [] (c ∷ tail) r h (e, p) =
    (r.out, ground (arith, tail_loop_complete (c ∷ tail) r.out (inl e, p)))
decode_loop_complete v (c ∷ body) tail r (hc, h) p =
    let ne = not_padding v c hc in
    elim (Bool-cases (newline c)) [
      | inl end ↦ let (out, e) = decode_loop_complete v body tail r h p in (out, ground arith)
      | inr plain ↦
          let (u, eu) = IsSymbol-value_of v c (symbol_in hc plain) in
          let (out, e) = decode_loop_complete v body tail (accept u r) h p in (out, ground arith)
    ]
  where
    symbol_in : Readable v c → newline c ≡ false → IsSymbol v c
    symbol_in (inl end) plain = absurd (ground (arith, end, plain))
    symbol_in (inr s) plain = s

>>=-ok : (m : Result Bytes) → (m >>= λ out. ok out) ≡ m
>>=-ok (ok out) = refl
>>=-ok _ = refl

-- `rp_base64_decode` succeeds, when no allocation fails, on exactly the texts that are a body of line
-- ends and characters of the alphabets that `url` admits, followed by nothing or by a `=` and then
-- any `=` and line ends. The number of characters does not matter.
pub decode-Accepted :
    (v : Variant) (text : Bytes)
    → ((out : Bytes) × (decode true true text v ≡ ok out)) ↔ Accepted v text
unfolding decode
decode-Accepted v text = (sound, complete)
  where
    start : Reader
    start = record { u16 = 0; iin = 0; out = [] }

    sound :
        ((out : Bytes) × ((decode_loop v text start >>= λ out. ok out) ≡ ok out)) → Accepted v text
    sound (out, e) =
        decode_loop_sound v text start out (rw (>>=-ok (decode_loop v text start)) at e)

    complete :
        Accepted v text → (out : Bytes) × ((decode_loop v text start >>= λ out. ok out) ≡ ok out)
    complete a =
        let (out, e) = decode_loop_complete v a.body a.tail start a.readable a.padding in
        (out, rw (a.split, e))

-- A character brings six bits, which are written or left in `u16`.
accept_bits :
    (u : ℕ) (r : Reader)
    → r.iin % 2 ≡ 0
    → ((accept u r).iin % 2 ≡ 0)
      × (8 * length (accept u r).out + (accept u r).iin ≡ 8 * length r.out + r.iin + 6)
unfolding accept
accept_bits u r h =
    ground (
      arith,
      length-append r.out ((bit_or (r.u16 * 2 ^ 6) u % 2 ^ 16 / 2 ^ (r.iin - 2) % 256) ∷ []),
    )

decode_loop_bits :
    (v : Variant) (text : Bytes) (r : Reader) (out : Bytes)
    → r.iin % 2 ≡ 0
    → decode_loop v text r ≡ ok out
    → 8 * length out ≤ 8 * length r.out + r.iin + 6 * length text
unfolding decode_loop
decode_loop_bits v [] r out h e = ground arith
decode_loop_bits v (c ∷ text) r out h e = elim (Option-cases (value_of v c)) [
  | inl none_left ↦
      ground (arith, none_left, tail_loop_sound (c ∷ text) r.out out, decode_loop_bits v text r out)
  | inr (u, found) ↦ ground (
    arith,
    found,
    tail_loop_sound (c ∷ text) r.out out,
    decode_loop_bits v text r out,
    accept_bits u r,
    decode_loop_bits v text (accept u r) out,
  )
]

-- A successful `rp_base64_decode` wrote at most three bytes for four characters of the text, so the
-- block of `datalen + 1` bytes holds them and the zero behind them.
length-decode :
    (v : Variant) (text out : Bytes)
    → decode true true text v ≡ ok out
    → (4 * length out ≤ 3 * length text) × (length out < length text + 1)
unfolding decode
length-decode v text out e =
    omega
      (arith, decode_loop_bits v text start out refl (rw (>>=-ok (decode_loop v text start)) at e))
  where
    start : Reader
    start = record { u16 = 0; iin = 0; out = [] }
