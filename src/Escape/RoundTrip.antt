-- ===== src/Escape/RoundTrip.antt =====
-- `rp_unescape` gives back what `rp_escape` was given.
use mathlib.Core.Path.{ap₂}
use rp_lib_utils.Common.{
  ℕ, ◌+◌, ◌*◌, ◌/◌, ◌%◌, ◌^◌, bit_or, ◌<◌, ◌≡◌, ◌≢◌, refl, ap, ◌∙◌, arith, true, false, [], ◌∷◌,
  ◌++◌, Bytes, some, take, take_all, replicate, length, length-append, length-replicate, All,
  IsByte, ◌==◌, if◌then◌else◌,
}
use rp_lib_utils.Common.Bits.{bit_or_shift}
use rp_lib_utils.Escape.Chars.{hex2bin}
use rp_lib_utils.Escape.Buffer.{
  Out, store, store_all, store_all-Wrote, overlay, overlay_exact, terminate-content, fresh-Wrote,
}
use rp_lib_utils.Escape.Encode.{until_nul, text_of, escape}
use rp_lib_utils.Escape.Decode.{
  hex_pair, unescapable_length, unescaped_length, digit, pair_value, unescape_loop, unescape_to,
  unescape,
}
use rp_lib_utils.Escape.Escaped.{hex, escaped_char, escaped, escape-escaped}

not_percent : (c : ℕ) → c ≢ b'%' → (c == b'%') ≡ false
not_percent c h = ground arith

-- A character that begins no escape.
pub unescapable_length-plain :
    (c : ℕ) (rest : Bytes) → c ≢ b'%' → unescapable_length (c ∷ rest) ≡ 1 + unescapable_length rest
unfolding unescapable_length
unescapable_length-plain c [] h = ground arith
unescapable_length-plain c (a ∷ []) h = ground arith
unescapable_length-plain c (a ∷ b ∷ rest) h = rw (not_percent c h)

pub unescaped_length-plain :
    (c : ℕ) (rest : Bytes) → c ≢ b'%' → unescaped_length (c ∷ rest) ≡ 1 + unescaped_length rest
unfolding unescaped_length
unescaped_length-plain c [] h = ground arith
unescaped_length-plain c (a ∷ []) h = ground arith
unescaped_length-plain c (a ∷ b ∷ rest) h = rw (not_percent c h)

-- `+` stands for a space.
abbrev pub plain_char : ℕ → ℕ
plain_char c = if c == b'+' then b' ' else c

pub unescape_loop-plain :
    (c : ℕ) (rest : Bytes) (o : Out)
    → c ≢ b'%'
    → unescape_loop (c ∷ rest) o ≡ unescape_loop rest (store (plain_char c) o)
unfolding unescape_loop
unescape_loop-plain c [] o h = ground arith
unescape_loop-plain c (a ∷ []) o h = ground arith
unescape_loop-plain c (a ∷ b ∷ rest) o h = rw (not_percent c h)

-- The digits that `escape_to` writes.
hex2bin-hex : (n : ℕ) → n < 16 → hex2bin (hex n) ≡ some n
unfolding hex2bin
hex2bin-hex n h = ground arith

hex_pair-hex : (h l : ℕ) → h < 16 → l < 16 → hex_pair (hex h) (hex l) ≡ true
unfolding hex_pair
hex_pair-hex h l p q = ground (arith, hex2bin-hex h p, hex2bin-hex l q)

digit-hex : (n : ℕ) → n < 16 → digit (hex n) ≡ n
unfolding digit
digit-hex n h = ground (arith, hex2bin-hex n h)

pair_value-hex : (h l : ℕ) → h < 16 → l < 16 → pair_value (hex h) (hex l) ≡ h * 16 + l
unfolding pair_value
pair_value-hex h l p q = ground (
  arith,
  digit-hex h p,
  digit-hex l q,
  ap₂ bit_or (ap (λ (t : ℕ). t * 2 ^ 4) (digit-hex h p)) (digit-hex l q),
  bit_or_shift 4 h l,
)

-- One escape that `escape_to` writes.
unescapable_length-escape :
    (h l : ℕ) (rest : Bytes)
    → h < 16
    → l < 16
    → unescapable_length (b'%' ∷ hex h ∷ hex l ∷ rest) ≡ 3 + unescapable_length rest
unfolding unescapable_length
unescapable_length-escape h l rest p q = rw (hex_pair-hex h l p q)

unescape_loop-escape :
    (h l : ℕ) (rest : Bytes) (o : Out)
    → h < 16
    → l < 16
    → unescape_loop (b'%' ∷ hex h ∷ hex l ∷ rest) o ≡ unescape_loop rest (store (h * 16 + l) o)
unfolding unescape_loop
unescape_loop-escape h l rest o p q = rw (pair_value-hex h l p q)

-- The characters of one byte.
module _ (c : ℕ) (rest : Bytes) (byte : c < 256) where
  unescapable_length-char :
      unescapable_length (escaped_char c ++ rest)
      ≡ length (escaped_char c) + unescapable_length rest
  unescapable_length-char = ground (
    arith,
    unescapable_length-plain b'+' rest,
    unescapable_length-plain c rest,
    unescapable_length-escape (c / 16) (c % 16) rest,
  )

  unescaped_length-char : unescaped_length (escaped_char c ++ rest) ≡ 1 + unescaped_length rest
  unescaped_length-char =
      ground (arith, unescaped_length-plain b'+' rest, unescaped_length-plain c rest, skip)
    where
      skip :
          unescaped_length (b'%' ∷ hex (c / 16) ∷ hex (c % 16) ∷ rest) ≡ 1 + unescaped_length rest
      skip = unfold unescaped_length in refl

  unescape_loop-char :
      (o : Out) → unescape_loop (escaped_char c ++ rest) o ≡ unescape_loop rest (store c o)
  unescape_loop-char o = ground (
    arith,
    unescape_loop-plain b'+' rest o,
    unescape_loop-plain c rest o,
    unescape_loop-escape (c / 16) (c % 16) rest o,
  )

pub unescapable_length-escaped :
    (text : Bytes) → All IsByte text → unescapable_length (escaped text) ≡ length (escaped text)
unfolding escaped
unescapable_length-escaped [] h = unfold unescapable_length in refl
unescapable_length-escaped (c ∷ text) (hc, h) = omega (
  arith,
  unescapable_length-char c (escaped text) hc,
  unescapable_length-escaped text h,
  length-append (escaped_char c) (escaped text),
)

pub unescaped_length-escaped :
    (text : Bytes) → All IsByte text → unescaped_length (escaped text) ≡ length text
unfolding escaped
unescaped_length-escaped [] h = unfold unescaped_length in refl
unescaped_length-escaped (c ∷ text) (hc, h) =
    omega (arith, unescaped_length-char c (escaped text) hc, unescaped_length-escaped text h)

pub unescape_loop-escaped :
    (text : Bytes) (o : Out) → All IsByte text → unescape_loop (escaped text) o ≡ store_all text o
unfolding escaped store_all
unescape_loop-escaped [] o h = unfold unescape_loop in refl
unescape_loop-escaped (c ∷ text) o (hc, h) =
    unescape_loop-char c (escaped text) hc o ∙ unescape_loop-escaped text (store c o) h

-- `unescape_to` decodes an escaped text into any buffer, as far as there is room.
pub unescape_to-escaped :
    (text buffer : Bytes)
    → All IsByte text
    → unescape_to (escaped text) (record { buffer = buffer; r = 0 })
      ≡ record { buffer = overlay buffer (text ++ (0 ∷ [])); r = length text }
unfolding unescape_to
unescape_to-escaped text buffer h =
    rw
      (
        unescapable_length-escaped text h,
        take_all (escaped text),
        unescape_loop-escaped text (record { buffer = buffer; r = 0 }) h,
      )
      (terminate-content (store_all-Wrote text (fresh-Wrote buffer)))

unescape-escaped :
    (fresh : ℕ) (text mem : Bytes) (len : ℕ)
    → All IsByte text
    → text_of mem len ≡ escaped text
    → unescape true fresh mem len ≡ (some (text ++ (0 ∷ [])), length text)
unfolding unescape
unescape-escaped fresh text mem len h e = ground (
  arith,
  e,
  unescaped_length-escaped text h,
  unescape_to-escaped text (replicate (1 + unescaped_length (escaped text)) fresh) h,
  overlay_exact (replicate (1 + unescaped_length (escaped text)) fresh) (text ++ (0 ∷ [])) (
      omega (
        arith,
        length-replicate {A = ℕ} (1 + unescaped_length (escaped text)) fresh,
        length-append text (0 ∷ []),
        unescaped_length-escaped text h,
      )),
)

pub take-append : (xs ys : Bytes) → take (length xs) (xs ++ ys) ≡ xs
take-append [] ys = refl
take-append (x ∷ xs) ys = ap (λ t. x ∷ t) (take-append xs ys)

-- A text that is terminated by its NUL and comes with its length.
text_of_terminated : (text : Bytes) → text_of (text ++ (0 ∷ [])) (length text) ≡ text
unfolding text_of until_nul
text_of_terminated [] = refl
text_of_terminated (c ∷ text) = ground (arith, take-append text (0 ∷ []))

-- What `rp_escape` returned for a text, handed with its length to `rp_unescape`, gives a block that
-- holds exactly the text and a NUL, and the text's length, for every text of bytes.
pub unescape-escape :
    (fresh fresh' : ℕ) (text : Bytes) (textlen : ℕ) (block : Bytes) (len : ℕ)
    → All IsByte (text_of text textlen)
    → escape true fresh text textlen ≡ (some block, len)
    → unescape true fresh' block len
      ≡ (some (text_of text textlen ++ (0 ∷ [])), length (text_of text textlen))
unescape-escape fresh fresh' text textlen block len h e = unescape-escaped fresh' t block len h same
  where
    t : Bytes
    t = text_of text textlen

    same : text_of block len ≡ escaped t
    same = ground (arith, escape-escaped fresh text textlen h, text_of_terminated (escaped t))
