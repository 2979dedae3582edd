-- ===== src/Base64/Text.antt =====
-- The padding of `rp_base64_encode`, and its whole text and length.
use rp_lib_utils.Common.{
  ℕ, zero, suc, ◌+◌, ◌-◌, ◌*◌, ◌/◌, ◌%◌, ◌^◌, ◌≤◌, ◌<◌, ◌≡◌, refl, ap, sym, ◌∙◌, arith, Bool, true,
  [], ◌∷◌, ◌++◌, map, Bytes, All, IsByte, length, length-append, length-map, length-replicate,
  replicate, Bool-cases, inl, inr, ◌==◌, if◌then◌else◌,
}
use rp_lib_utils.Base64.Result.{ok}
use rp_lib_utils.Base64.Encode.{
  Writer, symbol, put_char, pad_loop, unformatted, padded, formatted, fill, encode,
}
use rp_lib_utils.Base64.Layout.{
  sextets, put_chars, put_char_lem, put_chars_lem, put_chars-append, lines, line_end, room,
}
use rp_lib_utils.Base64.Rounds.{encode_loop-sextets}

length-sextets : (input : Bytes) → length (sextets input) ≡ unformatted (length input)
unfolding sextets unformatted
length-sextets [] = refl
length-sextets (a ∷ []) = refl
length-sextets (a ∷ b ∷ []) = refl
length-sextets (a ∷ b ∷ c ∷ input) = ground (arith, length-sextets input)

length-lines0 : (cs : Bytes) → length (lines 0 0 cs) ≡ length cs
unfolding lines
length-lines0 [] = refl
length-lines0 (c ∷ cs) = ap suc (length-lines0 cs)

div_self_add : (n w : ℕ) → 0 < w → (n + w) / w ≡ n / w + 1
div_self_add n w h = grind arith

-- A full line of `width` characters counts one more.
length-lines :
    (width iw : ℕ) (cs : Bytes)
    → 0 < iw
    → iw ≤ width
    → length (lines width iw cs) ≡ length cs + (length cs + width - iw) / width
unfolding lines
length-lines width iw [] h k = grind arith
length-lines width iw (c ∷ cs) h k = elim (Bool-cases (iw == 1)) [
  | inl last ↦ ground (arith, length-lines width width cs, div_self_add (length cs) width)
  | inr more ↦ ground (arith, length-lines width (iw - 1) cs)
]

pub length-lines-formatted :
    (width : ℕ) (cs : Bytes) → length (lines width width cs) ≡ formatted width (length cs)
unfolding formatted
length-lines-formatted zero cs = length-lines0 cs
length-lines-formatted (suc width) cs = ground (arith, length-lines (suc width) (suc width) cs)

length-le-lines : (width iw : ℕ) (cs : Bytes) → length cs ≤ length (lines width iw cs)
unfolding lines
length-le-lines width iw [] = omega arith
length-le-lines width iw (c ∷ cs) = omega (
  arith,
  length-append (line_end iw) (lines width (room width iw) cs),
  length-le-lines width (room width iw) cs,
)

-- The padding loop ends when `rlen` characters are there, if that is a number of `=` and line ends.
pad_loop_lem :
    (p f width rlen : ℕ) (w : Writer)
    → p < f
    → rlen ≡ length w.out + length (lines width w.iw (replicate p b'='))
    → pad_loop f width rlen w ≡ ok (put_chars width (replicate p b'=') w)
unfolding pad_loop lines put_chars
pad_loop_lem p zero width rlen w h e = absurd (omega arith)
pad_loop_lem zero (suc f) width rlen w h e = ground arith
pad_loop_lem (suc p) (suc f) width rlen w h e = ground (
  arith,
  pad_loop_lem p f width rlen (put_char width b'=' w),
  put_char_lem width b'=' w,
  length-append w.out (b'=' ∷ line_end w.iw),
  length-append (line_end w.iw) (lines width (room width w.iw) (replicate p b'=')),
)

-- The number of `=`.
abbrev pub pads : Bool → ℕ → ℕ
pads pad n = if pad then (4 - n % 4) % 4 else 0

abbrev pub characters : Bytes → Bool → Bool → Bytes
characters input pad url =
    map (symbol url) (sextets input) ++ replicate (pads pad (length (sextets input))) b'='

-- The text that the format prescribes.
abbrev pub text : Bytes → ℕ → Bool → Bool → Bytes
text input width pad url = lines width width (characters input pad url)

length-characters :
    (input : Bytes) (pad url : Bool)
    → length input < 2 ^ 61
    → length (characters input pad url) ≡ padded pad (unformatted (length input))
unfolding padded
length-characters input pad url h = ground (
  arith,
  length-append (map (symbol url) (sextets input))
      (replicate (pads pad (length (sextets input))) b'='),
  length-map (sextets input) (symbol url),
  length-replicate {A = ℕ} (pads pad (length (sextets input))) b'=',
  length-sextets input,
  small (length input),
)
  where
    small : (n : ℕ) → unformatted n ≤ 4 * n
    small n = unfold unformatted in ground arith

length-text :
    (input : Bytes) (width : ℕ) (pad url : Bool)
    → length input < 2 ^ 61
    → length (text input width pad url) ≡ formatted width (padded pad (unformatted (length input)))
length-text input width pad url h =
    length-lines-formatted width (characters input pad url)
    ∙ ap (formatted width) (length-characters input pad url h)

-- The two loops write the prescribed text into a block that has just the room for it.
fill-text :
    (input : Bytes) (width : ℕ) (pad url : Bool)
    → All IsByte input
    → length input < 2 ^ 61
    → fill input width url (unformatted (length input)) (length (text input width pad url))
      ≡ ok (text input width pad url, length (text input width pad url))
unfolding fill
fill-text input width pad url h k = rw (
  encode_loop-sextets url width input (unformatted (length input)) 0 0 start h
      (sym (length-sextets input)) refl,
  pad_loop_lem p (suc (length (text input width pad url))) width (length (text input width pad url))
      middle enough sizes,
  ← put_chars-append width cs ps start,
  put_chars_lem width (cs ++ ps) start,
)
  where
    start : Writer
    start = record { out = []; iw = width }

    p : ℕ
    p = pads pad (length (sextets input))

    cs : Bytes
    cs = map (symbol url) (sextets input)

    ps : Bytes
    ps = replicate p b'='

    middle : Writer
    middle = put_chars width cs start

    parts : put_chars width (cs ++ ps) start ≡ put_chars width ps middle
    parts = put_chars-append width cs ps start

    split : text input width pad url ≡ middle.out ++ lines width middle.iw ps
    split = cc (put_chars_lem width (cs ++ ps) start, parts, put_chars_lem width ps middle)

    sizes :
        length (text input width pad url) ≡ length middle.out + length (lines width middle.iw ps)
    sizes = ap length split ∙ length-append middle.out (lines width middle.iw ps)

    enough : p < suc (length (text input width pad url))
    enough =
        omega (arith, sizes, length-le-lines width middle.iw ps, length-replicate {A = ℕ} p b'=')

-- For every input of bytes that is shorter than 2 ^ 61, `rp_base64_encode` succeeds when `malloc`
-- does, without reading behind the input, and returns the prescribed text with its exact length,
-- which is the size it computed beforehand.
pub encode-text :
    (input : Bytes) (width : ℕ) (pad url : Bool)
    → All IsByte input
    → length input < 2 ^ 61
    → encode true input width pad url
      ≡ ok (text input width pad url, length (text input width pad url))
unfolding encode
encode-text input width pad url h k =
    rw (← length-text input width pad url k) (fill-text input width pad url h k)
