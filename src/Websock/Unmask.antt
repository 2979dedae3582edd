-- ===== src/Websock/Unmask.antt =====
-- The unmasking of src/sandbox/websock.c against the repeated mask.
use rp_lib_utils.Common.{
  ℕ, ◌+◌, ◌%◌, ◌≡◌, refl, ap, sym, ◌∙◌, arith, bit_xor, Bool-cases, inl, inr, [], ◌∷◌, ◌++◌, Bytes,
  ◌==◌, if◌then◌else◌,
}
use mathlib.Core.Path.{ap₂}
use rp_lib_utils.Websock.Receive.{Key, rotate, front, unmask_bytes, unmask_words, unmask}

-- The byte of the mask for an index.
abbrev pub key_byte : Key → ℕ → ℕ
key_byte m i =
    if i % 4 == 0 then m.k0 else if i % 4 == 1 then m.k1 else if i % 4 == 2 then m.k2 else m.k3

-- A text from an index on, with the repeated mask.
unfoldable pub masked : Key → ℕ → Bytes → Bytes
masked m i [] = []
masked m i (b ∷ bytes) = bit_xor b (key_byte m i) ∷ masked m (i + 1) bytes

unmask_words-bytes : (m : Key) (bytes : Bytes) → unmask_words m bytes ≡ unmask_bytes m bytes
unfolding unmask_words unmask_bytes
unmask_words-bytes m [] = refl
unmask_words-bytes m (a ∷ []) = refl
unmask_words-bytes m (a ∷ b ∷ []) = refl
unmask_words-bytes m (a ∷ b ∷ c ∷ []) = refl
unmask_words-bytes m (a ∷ b ∷ c ∷ d ∷ bytes) =
    ap (front (bit_xor a m.k0 ∷ bit_xor b m.k1 ∷ bit_xor c m.k2 ∷ bit_xor d m.k3 ∷ []))
      (unmask_words-bytes m bytes)

-- Where the buffer stands makes no difference.
pub unmask-bytes :
    (address : ℕ) (m : Key) (bytes : Bytes) → unmask address m bytes ≡ unmask_bytes m bytes
unfolding unmask
unmask-bytes address m [] = unmask_words-bytes m []
unmask-bytes address m (b ∷ bytes) = elim (Bool-cases (address % 4 == 0)) [
  | inl t ↦ rw t (unmask_words-bytes m (b ∷ bytes))
  | inr t ↦ rw t (
      ap (front (bit_xor b m.k0 ∷ [])) (unmask-bytes (address + 1) (rotate m) bytes)
      ∙ (unfold unmask_bytes in refl))
]

key_byte-rotate : (m : Key) (i : ℕ) → key_byte (rotate m) i ≡ key_byte m (i + 1)
key_byte-rotate m i = ground arith

masked-rotate :
    (m : Key) (i : ℕ) (bytes : Bytes) → masked (rotate m) i bytes ≡ masked m (i + 1) bytes
unfolding masked
masked-rotate m i [] = refl
masked-rotate m i (b ∷ bytes) =
    ap₂ (λ (k : ℕ) (t : Bytes). bit_xor b k ∷ t) (key_byte-rotate m i)
      (masked-rotate m (i + 1) bytes)

pub unmask_bytes-masked :
    (m : Key) (bytes : Bytes) → (unmask_bytes m bytes).bytes ≡ masked m 0 bytes
unfolding unmask_bytes masked
unmask_bytes-masked m [] = refl
unmask_bytes-masked m (b ∷ bytes) =
    ap (λ (t : Bytes). bit_xor b m.k0 ∷ t)
      (unmask_bytes-masked (rotate m) bytes ∙ masked-rotate m 0 bytes)

-- A text in two parts: the mask goes on where it was left.
pub masked-append :
    (m : Key) (xs ys : Bytes)
    → masked m 0 (xs ++ ys) ≡ masked m 0 xs ++ masked (unmask_bytes m xs).mask 0 ys
unfolding masked unmask_bytes
masked-append m [] ys = refl
masked-append m (x ∷ xs) ys =
    ap (λ (t : Bytes). bit_xor x m.k0 ∷ t)
      (sym (masked-rotate m 0 (xs ++ ys))
        ∙ masked-append (rotate m) xs ys
        ∙ ap (λ (t : Bytes). t ++ masked (unmask_bytes (rotate m) xs).mask 0 ys)
            (masked-rotate m 0 xs))
