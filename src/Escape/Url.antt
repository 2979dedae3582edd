-- ===== src/Escape/Url.antt =====
-- The builders of URLs in src/http/rp-escape.c.
use rp_lib_utils.Common.{
  ℕ, ◌+◌, Bool, true, false, not, ◌&&◌, List, [], ◌∷◌, Bytes, Option, none, some, take, replicate,
  ◌==◌, if◌then◌else◌,
}
use rp_lib_utils.Escape.Buffer.{Out, store, store_all, terminate}
use rp_lib_utils.Escape.Encode.{escape_to}

-- The pair `args[i]`, `args[i + 1]`, where the second one can be NULL.
pub record Arg : Type 0 where
  pub key : Bytes
  pub value : Option Bytes

abbrev pub is_empty : Bytes → Bool
is_empty [] = true
is_empty (c ∷ text) = false

-- `memchr`
unfoldable pub has : ℕ → Bytes → Bool
has c [] = false
has c (d ∷ text) = let rest = has c text in if d == c then true else rest

abbrev pub starts_with : ℕ → Bytes → Bool
starts_with c [] = false
starts_with c (d ∷ text) = d == c

unfoldable pub ends_with : ℕ → Bytes → Bool
ends_with c [] = false
ends_with c (d ∷ []) = d == c
ends_with c (d ∷ e ∷ text) = ends_with c (e ∷ text)

-- The test for a slash between the base and the path.
unfoldable pub lacks_slash : Bytes → Bytes → Bool
lacks_slash base path =
    not (ends_with b'/' base) && not (is_empty path) && not (starts_with b'/' path)

-- The base and what separates it from the path.
unfoldable pub put_base : Bytes → Bytes → Out → Out
put_base [] path o = o
put_base (b ∷ base) path o =
    if lacks_slash (b ∷ base) path
    then store b'/' (store_all (b ∷ base) o)
    else store_all (b ∷ base) o

-- `memchr(buffer, '?', l) ? '&' : '?'`
unfoldable pub put_question : Out → Out
put_question o = store (if has b'?' (take o.r o.buffer) then b'&' else b'?') o

-- What stands in front of the pair at the index `i`; `front` is `lenbase | lenpath`.
unfoldable pub put_separator : ℕ → Bool → Out → Out
put_separator i front o = if not (i == 0) then store b'&' o else if front then put_question o else o

unfoldable pub put_value : Option Bytes → Out → Out
put_value none o = o
put_value (some value) o = escape_to value (store b'=' o)

-- The loop over the pairs.
unfoldable pub args_loop : ℕ → Bool → List Arg → Out → Out
args_loop i front [] o = o
args_loop i front (arg ∷ args) o =
    args_loop (i + 2) front args (put_value arg.value (escape_to arg.key (put_separator i front o)))

-- `escape_url_to` on a buffer from its begin, for texts that the lengths are those of.
unfoldable pub escape_url_to_lengths : Bytes → Bytes → List Arg → Bytes → Out
escape_url_to_lengths base path args buffer = terminate (
    args_loop 0 (not (is_empty base && is_empty path)) args
      (store_all path (put_base base path (record { buffer = buffer; r = 0 }))))

-- NULL counts as empty.
abbrev pub text_or_empty : Option Bytes → Bytes
text_or_empty none = []
text_or_empty (some text) = text

abbrev pub args_or_none : Option (List Arg) → List Arg
args_or_none none = []
args_or_none (some args) = args

unfoldable pub escape_url_to : Option Bytes → Option Bytes → Option (List Arg) → Bytes → Out
escape_url_to base path args buffer =
    escape_url_to_lengths (text_or_empty base) (text_or_empty path) (args_or_none args) buffer

-- The block returned and `*length`; the first two arguments are the outcome of `malloc`.
unfoldable pub escape_url :
    Bool → ℕ → Option Bytes → Option Bytes → Option (List Arg) → Option Bytes × ℕ
escape_url mem fresh base path args =
    let rlen = (escape_url_to base path args []).r in
    let written = escape_url_to base path args (replicate (rlen + 1) fresh) in
    (if mem then some written.buffer else none, rlen)

unfoldable pub escape_args : Bool → ℕ → List Arg → Option Bytes × ℕ
escape_args mem fresh args = escape_url mem fresh none none (some args)

unfoldable pub escape_str : Bool → ℕ → Bytes → Option Bytes × ℕ
escape_str mem fresh str =
    escape_url mem fresh none none (some (record { key = str; value = none } ∷ []))
