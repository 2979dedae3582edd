-- ===== src/Base64/Rounds.antt =====
-- The main loop of `rp_base64_encode`, four rounds at a time.
use rp_lib_utils.Common.{
  ℕ, suc, ◌+◌, ◌*◌, ◌/◌, ◌%◌, ◌^◌, ◌<◌, ◌≡◌, refl, ap, ◌∙◌, arith, Bool, List, [], ◌∷◌, map, Bytes,
  All, IsByte, length, bit_or,
}
use rp_lib_utils.Common.Bits.{bit_or_shift}
use rp_lib_utils.Base64.Result.{ok}
use rp_lib_utils.Base64.Encode.{
  Writer, Sextet, shift_in, first_byte, next_sextet, high_bits, symbol, put_char, encode_loop,
}
use rp_lib_utils.Base64.Layout.{sextets, put_chars}

-- `u16 << 8 | d` keeps the low byte of `u16`.
shifted : (u d : ℕ) → d < 256 → bit_or (u * 2 ^ 8 % 2 ^ 16) d ≡ u % 256 * 256 + d
shifted u d h = ap (λ (t : ℕ). bit_or t d) (low u) ∙ bit_or_shift 8 (u % 256) d h
  where
    low : (n : ℕ) → n * 2 ^ 8 % 2 ^ 16 ≡ n % 256 * 2 ^ 8
    low n = omega arith

module _ (url : Bool) (width : ℕ) where
  abbrev chars : List ℕ → Bytes
  chars = map (symbol url)

  -- One round puts the character of `v` and goes on with what `next_sextet` left.
  round :
      {s : Sextet} (k iout u v : ℕ) (input : Bytes) (w : Writer)
      → next_sextet (iout % 4) u input ≡ ok s
      → s.u8 % 64 ≡ v
      → encode_loop (suc k) url width iout u input w
        ≡ encode_loop k url width (iout + 1) s.u16 s.input (put_char width (symbol url v) w)
  unfolding encode_loop
  round k iout u v input w e hv = rw (e, hv)

  phase0 :
      (iout u a : ℕ) (input : Bytes)
      → iout % 4 ≡ 0
      → next_sextet (iout % 4) u (a ∷ input)
        ≡ ok (record { u8 = a / 2 ^ 2 % 256; u16 = a; input = input })
  unfolding next_sextet first_byte
  phase0 iout u a input h = rw h

  phase1 :
      (iout u b : ℕ) (input : Bytes)
      → iout % 4 ≡ 1
      → b < 256
      → next_sextet (iout % 4) u (b ∷ input) ≡ ok (high_bits 4 (u % 256 * 256 + b, input))
  unfolding next_sextet shift_in
  phase1 iout u b input h hb = rw (h, shifted u b hb)

  phase1_end :
      (iout u : ℕ)
      → iout % 4 ≡ 1
      → next_sextet (iout % 4) u [] ≡ ok (high_bits 4 (u * 2 ^ 8 % 2 ^ 16, []))
  unfolding next_sextet shift_in
  phase1_end iout u h = rw h

  phase2 :
      (iout u c : ℕ) (input : Bytes)
      → iout % 4 ≡ 2
      → c < 256
      → next_sextet (iout % 4) u (c ∷ input) ≡ ok (high_bits 6 (u % 256 * 256 + c, input))
  unfolding next_sextet shift_in
  phase2 iout u c input h hc = rw (h, shifted u c hc)

  phase2_end :
      (iout u : ℕ)
      → iout % 4 ≡ 2
      → next_sextet (iout % 4) u [] ≡ ok (high_bits 6 (u * 2 ^ 8 % 2 ^ 16, []))
  unfolding next_sextet shift_in
  phase2_end iout u h = rw h

  phase3 :
      (iout u : ℕ) (input : Bytes)
      → iout % 4 ≡ 3
      → next_sextet (iout % 4) u input ≡ ok (record { u8 = u % 256; u16 = u; input = input })
  unfolding next_sextet
  phase3 iout u input h = rw h

  -- From a multiple of four on, the loop puts the characters of the input's 6-bit values.
  pub encode_loop-sextets :
      (input : Bytes) (k iout u : ℕ) (w : Writer)
      → All IsByte input
      → k ≡ length (sextets input)
      → iout % 4 ≡ 0
      → encode_loop k url width iout u input w ≡ ok (put_chars width (chars (sextets input)) w)
  unfolding sextets put_chars high_bits
  encode_loop-sextets [] k iout u w h e hi = rw e (unfold encode_loop in refl)
  encode_loop-sextets (a ∷ []) k iout u w (ha, _) e hi = rw e (
      round 1 iout u (a / 4) (a ∷ []) w (phase0 iout u a [] hi) (omega arith)
      ∙ round 0 (iout + 1) a (a % 4 * 16) [] _ (phase1_end (iout + 1) a (omega arith)) (omega arith)
      ∙ (unfold encode_loop in refl))
  encode_loop-sextets (a ∷ b ∷ []) k iout u w (ha, (hb, _)) e hi = rw e (
      round 2 iout u (a / 4) (a ∷ b ∷ []) w (phase0 iout u a (b ∷ []) hi) (omega arith)
      ∙ round 1 (iout + 1) a (a % 4 * 16 + b / 16) (b ∷ []) _
          (phase1 (iout + 1) a b [] (omega arith) hb) (omega arith)
      ∙ round 0 (iout + 1 + 1) _ (b % 16 * 4) [] _ (phase2_end (iout + 1 + 1) _ (omega arith))
          (omega arith)
      ∙ (unfold encode_loop in refl))
  encode_loop-sextets (a ∷ b ∷ c ∷ input) k iout u w (ha, (hb, (hc, h))) e hi = rw e (
      round _ iout u (a / 4) (a ∷ b ∷ c ∷ input) w (phase0 iout u a (b ∷ c ∷ input) hi)
        (omega arith)
      ∙ round _ (iout + 1) a (a % 4 * 16 + b / 16) (b ∷ c ∷ input) _
          (phase1 (iout + 1) a b (c ∷ input) (omega arith) hb) (omega arith)
      ∙ round _ (iout + 1 + 1) _ (b % 16 * 4 + c / 64) (c ∷ input) _
          (phase2 (iout + 1 + 1) _ c input (omega arith) hc) (omega arith)
      ∙ round _ (iout + 1 + 1 + 1) _ (c % 64) input _
          (phase3 (iout + 1 + 1 + 1) _ input (omega arith)) (omega arith)
      ∙ encode_loop-sextets input _ (iout + 1 + 1 + 1 + 1) _ _ h refl (omega arith))
