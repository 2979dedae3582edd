-- ===== src/JsonStr/Escaped.antt =====
-- What the escaping of strings in src/json/rp-jsonstr.c writes, by a description of the format.
use mathlib.Core.Path.{subst}
use rp_lib_utils.Common.{
  ℕ, ◌+◌, ◌/◌, ◌%◌, ◌<◌, ◌≤◌, ◌≡◌, refl, ap, sym, ◌∙◌, arith, inl, inr, Bool-cases, [], ◌∷◌, ◌++◌,
  Bytes, length, ltb, if◌then◌else◌,
}
use rp_lib_utils.Escape.Buffer.{
  Out, poke, store, store_all, store_all-Wrote, overlay, terminate, terminate-content, fresh-Wrote,
}
use rp_lib_utils.Escape.Escaped.{store_all-append}
use rp_lib_utils.JsonStr.Escape.{
  hex_digit, bounded_text, is_quoted, length_loop, string_escape_length, string_escape_char,
  string_escape_loop, string_escape, unsafe_loop, string_escape_unsafe,
}

-- A character of a JSON string.
abbrev pub quoted_char : ℕ → Bytes
quoted_char c =
    if ltb c 32
    then b'\\' ∷ b'u' ∷ b'0' ∷ b'0' ∷ hex_digit (c / 16 % 16) ∷ hex_digit (c % 16) ∷ []
    else if is_quoted c
    then b'\\' ∷ c ∷ []
    else c ∷ []

unfoldable pub quoted : Bytes → Bytes
quoted [] = []
quoted (c ∷ text) = quoted_char c ++ quoted text

pub length_loop-quoted : (text : Bytes) (r : ℕ) → length_loop text r ≡ r + length (quoted text)
unfolding length_loop quoted
length_loop-quoted [] r = omega arith
length_loop-quoted (c ∷ text) r = ground (
  arith,
  length_loop-quoted text (r + 6),
  length_loop-quoted text (r + 2),
  length_loop-quoted text (r + 1),
)

string_escape_char-quoted_char :
    (c : ℕ) (o : Out) → string_escape_char c o ≡ store_all (quoted_char c) o
unfolding string_escape_char store_all
string_escape_char-quoted_char c o = ground arith

-- A full buffer is not changed any more.
store_all_full :
    (cs : Bytes) (o : Out)
    → length o.buffer ≤ o.r
    → store_all cs o ≡ record o { r = o.r + length cs }
unfolding store_all store poke
store_all_full [] o h = ap (λ r. record { buffer = o.buffer; r = r }) (omega arith)
store_all_full (c ∷ cs) o h =
    ground (arith, store_all_full cs (record { buffer = o.buffer; r = o.r + 1 }))

plus_0 : (n : ℕ) → 0 + n ≡ n
plus_0 n = omega arith

string_escape_loop-quoted :
    (text : Bytes) (o : Out) → string_escape_loop text o ≡ store_all (quoted text) o
unfolding string_escape_loop quoted
string_escape_loop-quoted [] o = unfold store_all in refl
string_escape_loop-quoted (c ∷ text) o = elim (Bool-cases (ltb o.r (length o.buffer))) [
  | inl e ↦ rw e (
      ap (string_escape_loop text) (string_escape_char-quoted_char c o)
      ∙ string_escape_loop-quoted text (store_all (quoted_char c) o)
      ∙ sym (store_all-append (quoted_char c) (quoted text) o))
  | inr e ↦ rw e (
      ap (λ n. record { buffer = o.buffer; r = o.r + n }) (length_loop-quoted (c ∷ text) 0)
      ∙ ap (λ n. record { buffer = o.buffer; r = o.r + n }) (plus_0 (length (quoted (c ∷ text))))
      ∙ sym (store_all_full (quoted (c ∷ text)) o (ground (arith, e))))
]

unsafe_loop-quoted : (text : Bytes) (o : Out) → unsafe_loop text o ≡ store_all (quoted text) o
unfolding unsafe_loop quoted
unsafe_loop-quoted [] o = unfold store_all in refl
unsafe_loop-quoted (c ∷ text) o =
    rw
      (
        string_escape_char-quoted_char c o,
        unsafe_loop-quoted text (store_all (quoted_char c) o),
        store_all-append (quoted_char c) (quoted text) o,
      )
      refl

-- `rp_jsonstr_string_escape` writes the escaped text and a NUL over the begin of its destination, as
-- far as there is room, and returns the length of the whole escaped text, which is the one that
-- `rp_jsonstr_string_escape_length` counts.
pub string_escape-quoted :
    (dest mem : Bytes) (stringlenmax : ℕ)
    → string_escape dest mem stringlenmax ≡ record {
      buffer = overlay dest (quoted (bounded_text mem stringlenmax) ++ (0 ∷ []));
      r = string_escape_length mem stringlenmax;
    }
unfolding string_escape string_escape_length
string_escape-quoted dest mem stringlenmax =
    ap terminate (string_escape_loop-quoted text (record { buffer = dest; r = 0 }))
    ∙ terminate-content (store_all-Wrote (quoted text) (fresh-Wrote dest))
    ∙ ap (λ n. record { buffer = overlay dest (quoted text ++ (0 ∷ [])); r = n })
        (sym (length_loop-quoted text 0 ∙ plus_0 (length (quoted text))))
  where
    text : Bytes
    text = bounded_text mem stringlenmax

-- In a destination that is larger than the length counted beforehand, `rp_jsonstr_string_escape_unsafe`
-- writes and returns the same as `rp_jsonstr_string_escape`: the escaped text with its NUL, and
-- behind it what stood there.
string_escape_unsafe-string_escape :
    (dest mem : Bytes) (stringlenmax : ℕ)
    → string_escape_length mem stringlenmax < length dest
    → (string_escape_unsafe dest mem stringlenmax ≡ string_escape dest mem stringlenmax)
      × ((string_escape_unsafe dest mem stringlenmax).r < length dest)
unfolding string_escape string_escape_unsafe
string_escape_unsafe-string_escape dest mem stringlenmax h = (
  same,
  subst (λ o. o.r < length dest) (sym (same ∙ string_escape-quoted dest mem stringlenmax)) h,
)
  where
    text : Bytes
    text = bounded_text mem stringlenmax

    same : string_escape_unsafe dest mem stringlenmax ≡ string_escape dest mem stringlenmax
    same = ap terminate (
        unsafe_loop-quoted text (record { buffer = dest; r = 0 })
        ∙ sym (string_escape_loop-quoted text (record { buffer = dest; r = 0 })))
