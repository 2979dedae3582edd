-- ===== src/Escape/Escaped.antt =====
-- What `escape_to` and `rp_escape` write, by a description of the format.
use rp_lib_utils.Common.{
  ℕ, ◌+◌, ◌-◌, ◌/◌, ◌%◌, ◌<◌, ◌≡◌, refl, ap, arith, Bool, true, not, ◌&&◌, ◌||◌, [], ◌∷◌, ◌++◌,
  Bytes, some, replicate, length, length-append, length-replicate, All, All-append, IsByte, ◌==◌,
  ltb, leb, if◌then◌else◌,
}
use rp_lib_utils.Escape.Buffer.{store_all, store_all-Wrote}
use rp_lib_utils.Escape.Chars.{should_escape, bin2hex}
use rp_lib_utils.Escape.Buffer.{Out, store, overlay, overlay_exact, terminate-content, fresh-Wrote}
use rp_lib_utils.Escape.Encode.{
  text_of, escaped_length, escape_char, escape_loop, escape_to, escape,
}

-- An upper case hexadecimal digit.
abbrev pub hex : ℕ → ℕ
hex n = if ltb n 10 then b'0' + n else b'A' + (n - 10)

-- `[-.0-9A-Z_a-z~]`
abbrev pub unreserved : ℕ → Bool
unreserved c =
    leb b'0' c && leb c b'9'
    || leb b'A' c && leb c b'Z'
    || leb b'a' c && leb c b'z'
    || c == b'-'
    || c == b'.'
    || c == b'_'
    || c == b'~'

-- The characters that stand for a byte.
abbrev pub escaped_char : ℕ → Bytes
escaped_char c =
    if c == b' '
    then b'+' ∷ []
    else if unreserved c
    then c ∷ []
    else b'%' ∷ hex (c / 16) ∷ hex (c % 16) ∷ []

unfoldable pub escaped : Bytes → Bytes
escaped [] = []
escaped (c ∷ text) = escaped_char c ++ escaped text

should_escape-unreserved : (c : ℕ) → should_escape c ≡ not (unreserved c)
unfolding should_escape
should_escape-unreserved c = ground arith

bin2hex-hex : (n : ℕ) → n < 16 → bin2hex n ≡ hex n
unfolding bin2hex
bin2hex-hex n h = ground arith

escaped_length-escaped : (text : Bytes) → escaped_length text ≡ length (escaped text)
unfolding escaped_length escaped
escaped_length-escaped [] = refl
escaped_length-escaped (c ∷ text) =
    ground (arith, should_escape-unreserved c, escaped_length-escaped text)

escape_char-store_all : (c : ℕ) (o : Out) → c < 256 → escape_char c o ≡ store_all (escaped_char c) o
unfolding escape_char store_all
escape_char-store_all c o h = ground (
  arith,
  should_escape-unreserved c,
  bin2hex-hex (c / 16),
  bin2hex-hex (c % 16),
  ap bin2hex (high c h),
)
  where
    high : (n : ℕ) → n < 256 → n / 16 % 16 ≡ n / 16
    high n k = omega arith

pub store_all-append :
    (cs ds : Bytes) (o : Out) → store_all (cs ++ ds) o ≡ store_all ds (store_all cs o)
unfolding store_all
store_all-append [] ds o = refl
store_all-append (c ∷ cs) ds o = store_all-append cs ds (store c o)

pub escape_loop-escaped :
    (text : Bytes) (o : Out) → All IsByte text → escape_loop text o ≡ store_all (escaped text) o
unfolding escape_loop escaped
escape_loop-escaped [] o h = unfold store_all in refl
escape_loop-escaped (c ∷ text) o (hc, h) = rw (
  escape_char-store_all c o hc,
  escape_loop-escaped text (store_all (escaped_char c) o) h,
  store_all-append (escaped_char c) (escaped text) o,
)

-- `escape_to` writes the escaped text and a NUL over the begin of the buffer, as far as there is
-- room, and returns the length of the whole escaped text.
escape_to-escaped :
    (text buffer : Bytes)
    → All IsByte text
    → escape_to text (record { buffer = buffer; r = 0 })
      ≡ record { buffer = overlay buffer (escaped text ++ (0 ∷ [])); r = length (escaped text) }
unfolding escape_to
escape_to-escaped text buffer h =
    rw (escape_loop-escaped text (record { buffer = buffer; r = 0 }) h)
      (terminate-content (store_all-Wrote (escaped text) (fresh-Wrote buffer)))

-- `rp_escape` returns a block that holds exactly the escaped text and its NUL, and the text's length,
-- whatever the block held before.
pub escape-escaped :
    (fresh : ℕ) (text : Bytes) (textlen : ℕ)
    → All IsByte (text_of text textlen)
    → escape true fresh text textlen
      ≡ (some (escaped (text_of text textlen) ++ (0 ∷ [])), length (escaped (text_of text textlen)))
unfolding escape
escape-escaped fresh text textlen h = ground (
  arith,
  escaped_length-escaped t,
  escape_to-escaped t (replicate (1 + escaped_length t) fresh) h,
  overlay_exact (replicate (1 + escaped_length t) fresh) (escaped t ++ (0 ∷ [])) (
      omega (
        arith,
        length-replicate {A = ℕ} (1 + escaped_length t) fresh,
        length-append (escaped t) (0 ∷ []),
        escaped_length-escaped t,
      )),
)
  where
    t : Bytes
    t = text_of text textlen

-- What may stand in an escaped text.
abbrev pub IsEscaped : ℕ → Type 0
IsEscaped c = (unreserved c || c == b'+' || c == b'%') ≡ true

hex-IsEscaped : (n : ℕ) → n < 16 → IsEscaped (hex n)
hex-IsEscaped n h = ground arith

escaped_char-IsEscaped : (c : ℕ) → c < 256 → All IsEscaped (escaped_char c)
escaped_char-IsEscaped c h = ground (arith, hex-IsEscaped (c / 16), hex-IsEscaped (c % 16))

-- Each character of an escaped text is unreserved, `+` or `%`: there is no NUL, space, `&` or `=`.
pub escaped-IsEscaped : (text : Bytes) → All IsByte text → All IsEscaped (escaped text)
unfolding escaped
escaped-IsEscaped [] h = tt
escaped-IsEscaped (c ∷ text) (hc, h) =
    All-append IsEscaped (escaped_char c) (escaped text) (escaped_char-IsEscaped c hc)
      (escaped-IsEscaped text h)
