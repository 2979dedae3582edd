-- ===== src/Base64/RoundTrip.antt =====
-- `rp_base64_decode` gives back what `rp_base64_encode` was given.
use rp_lib_utils.Common.{
  ℕ, zero, suc, ◌+◌, ◌*◌, ◌/◌, ◌%◌, ◌^◌, ◌<◌, ◌≡◌, refl, ap, sym, ◌∙◌, arith, Bool, true, false, [],
  ◌∷◌, ◌++◌, append_assoc, append-nil, map, Bytes, All, IsByte, length, replicate, ◌==◌,
  if◌then◌else◌, some, Option-cases, inl, inr,
}
use rp_lib_utils.Common.Bits.{bit_or_shift}
use rp_lib_utils.Base64.Result.{ok, ◌>>=◌}
use rp_lib_utils.Base64.Encode.{symbol, encode}
use rp_lib_utils.Base64.Decode.{
  Variant, takes_url, takes_standard, value_of, Reader, accept, newline, tail_loop, decode_loop,
  decode,
}
use rp_lib_utils.Base64.Layout.{sextets, lines, line_end, room}
use rp_lib_utils.Base64.Text.{pads, characters, encode-text}

-- The decoder's argument `url` admits the alphabet that the encoder's argument `url` chose.
abbrev pub Admits : Variant → Bool → Type 0
Admits v url = (if url then takes_url v else takes_standard v) ≡ true

-- Line ends do not matter.
tail_loop-lines :
    (width iw : ℕ) (cs out : Bytes) → tail_loop (lines width iw cs) out ≡ tail_loop cs out
unfolding tail_loop lines
tail_loop-lines width iw [] out = refl
tail_loop-lines width iw (c ∷ cs) out = ground (arith, tail_loop-lines width (room width iw) cs out)

decode_loop-line_end :
    (v : Variant) (iw : ℕ) (cs : Bytes) (r : Reader)
    → decode_loop v (line_end iw ++ cs) r ≡ decode_loop v cs r
unfolding decode_loop
decode_loop-line_end v iw cs r = ground arith

tail_loop-line_end :
    (iw : ℕ) (cs out : Bytes) → tail_loop (line_end iw ++ cs) out ≡ tail_loop cs out
unfolding tail_loop
tail_loop-line_end iw cs out = ground arith

decode_loop-lines :
    (v : Variant) (width iw : ℕ) (cs : Bytes) (r : Reader)
    → decode_loop v (lines width iw cs) r ≡ decode_loop v cs r
unfolding decode_loop lines
decode_loop-lines v width iw [] r = refl
decode_loop-lines v width iw (c ∷ cs) r = elim (Option-cases (value_of v c)) [
  | inl e ↦ ground (
    arith,
    e,
    tail_loop-lines width iw (c ∷ cs) r.out,
    decode_loop-line_end v iw (lines width (room width iw) cs) r,
    decode_loop-lines v width (room width iw) cs r,
  )
  | inr (u, e) ↦ ground (
    arith,
    e,
    tail_loop-lines width iw (c ∷ cs) r.out,
    decode_loop-line_end v iw (lines width (room width iw) cs) r,
    decode_loop-lines v width (room width iw) cs r,
    decode_loop-line_end v iw (lines width (room width iw) cs) (accept u r),
    decode_loop-lines v width (room width iw) cs (accept u r),
  )
]

value_of-symbol :
    (v : Variant) (url : Bool) (u : ℕ) → Admits v url → u < 64 → value_of v (symbol url u) ≡ some u
unfolding value_of symbol
value_of-symbol v url u h k = ground arith

symbol_plain :
    (url : Bool) (u : ℕ)
    → u < 64
    → ((symbol url u == b'=') ≡ false) × (newline (symbol url u) ≡ false)
unfolding symbol
symbol_plain url u k = ground arith

decode_symbol :
    (v : Variant) (url : Bool) (u : ℕ) (cs : Bytes) (r : Reader)
    → Admits v url
    → u < 64
    → decode_loop v (symbol url u ∷ cs) r ≡ decode_loop v cs (accept u r)
unfolding decode_loop
decode_symbol v url u cs r h k = ground (arith, symbol_plain url u k, value_of-symbol v url u h k)

tail_loop-pads : (p : ℕ) (out : Bytes) → tail_loop (replicate p b'=') out ≡ ok out
unfolding tail_loop
tail_loop-pads zero out = refl
tail_loop-pads (suc p) out = tail_loop-pads p out

decode_loop-pads :
    (v : Variant) (p : ℕ) (r : Reader) → decode_loop v (replicate p b'=') r ≡ ok r.out
unfolding decode_loop
decode_loop-pads v zero r = refl
decode_loop-pads v (suc p) r = tail_loop-pads (suc p) r.out

-- The decoder between two groups of four characters, and inside a group.
abbrev reader : ℕ → ℕ → Bytes → Reader
reader u16 iin out = record { u16 = u16; iin = iin; out = out }

module _ (v : Variant) (url : Bool) (admitted : Admits v url) where
  first_char :
      (u x : ℕ) (cs out : Bytes)
      → u < 64
      → decode_loop v (symbol url u ∷ cs) (reader x 0 out) ≡ decode_loop v cs (reader u 6 out)
  unfolding accept
  first_char u x cs out h = decode_symbol v url u cs (reader x 0 out) admitted h

  -- A later character completes `byte`.
  next_char :
      (u x n byte : ℕ) (cs out : Bytes)
      → u < 64
      → (x * 64 + u) % 2 ^ 16 / 2 ^ n % 256 ≡ byte
      → decode_loop v (symbol url u ∷ cs) (reader x (n + 2) out)
        ≡ decode_loop v cs (reader ((x * 64 + u) % 2 ^ 16) n (out ++ (byte ∷ [])))
  unfolding accept
  next_char u x n byte cs out h e =
      decode_symbol v url u cs (reader x (n + 2) out) admitted h
      ∙ ap (decode_loop v cs) (ground (arith, bit_or_shift 6 x u))

  decode_loop-sextets :
      (input out : Bytes) (p x : ℕ)
      → All IsByte input
      → decode_loop v (map (symbol url) (sextets input) ++ replicate p b'=') (reader x 0 out)
        ≡ ok (out ++ input)
  unfolding sextets
  decode_loop-sextets [] out p x k =
      decode_loop-pads v p (reader x 0 out) ∙ ap ok (sym (append-nil out))
  decode_loop-sextets (a ∷ []) out p x (ha, _) =
      first_char (a / 4) x _ out (omega arith)
      ∙ next_char (a % 4 * 16) (a / 4) 4 a _ out (omega arith) (omega arith)
      ∙ decode_loop-pads v p _
  decode_loop-sextets (a ∷ b ∷ []) out p x (ha, (hb, _)) =
      first_char (a / 4) x _ out (omega arith)
      ∙ next_char (a % 4 * 16 + b / 16) (a / 4) 4 a _ out (omega arith) (omega arith)
      ∙ next_char (b % 16 * 4) _ 2 b _ _ (omega arith) (omega arith)
      ∙ decode_loop-pads v p _
      ∙ ap ok (append_assoc out (a ∷ []) (b ∷ []))
  decode_loop-sextets (a ∷ b ∷ c ∷ input) out p x (ha, (hb, (hc, k))) =
      first_char (a / 4) x _ out (omega arith)
      ∙ next_char (a % 4 * 16 + b / 16) (a / 4) 4 a _ out (omega arith) (omega arith)
      ∙ next_char (b % 16 * 4 + c / 64) _ 2 b _ _ (omega arith) (omega arith)
      ∙ next_char (c % 64) _ 0 c _ _ (omega arith) (omega arith)
      ∙ decode_loop-sextets input _ p _ k
      ∙ ap ok (simp append_assoc)

-- Decoding what `rp_base64_encode` returned gives the input back: for every input of bytes shorter
-- than 2 ^ 61, every line width, with or without padding, in both alphabets, if the decoder's `url`
-- argument admits the encoder's alphabet and no allocation fails.
pub decode-encode :
    (input : Bytes) (width : ℕ) (pad url : Bool) (v : Variant)
    → All IsByte input
    → length input < 2 ^ 61
    → Admits v url
    → (encode true input width pad url >>= λ e. decode true true e.0 v) ≡ ok input
unfolding decode
decode-encode input width pad url v h k admitted = rw (
  encode-text input width pad url h k,
  decode_loop-lines v width width (characters input pad url) (reader 0 0 []),
  decode_loop-sextets v url admitted input [] (pads pad (length (sextets input))) 0 h,
)
