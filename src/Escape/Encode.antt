-- ===== src/Escape/Encode.antt =====
-- `rp_escape` of src/http/rp-escape.c with the functions that it calls.
use rp_lib_utils.Common.{
  ℕ, ◌+◌, ◌-◌, ◌/◌, ◌%◌, Bool, not, ◌&&◌, [], ◌∷◌, Bytes, Option, none, some, take, replicate, ◌==◌,
  if◌then◌else◌,
}
use rp_lib_utils.Escape.Chars.{should_escape, bin2hex}
use rp_lib_utils.Escape.Buffer.{Out, store, terminate}

-- The bytes in front of the terminating NUL: `strlen` is their number.
unfoldable pub until_nul : Bytes → Bytes
until_nul [] = []
until_nul (c ∷ mem) = let rest = until_nul mem in if c == 0 then [] else c ∷ rest

-- The text that a pointer to memory and a length stand for, where the length 0 asks for `strlen`.
unfoldable pub text_of : Bytes → ℕ → Bytes
text_of mem len = if len == 0 then until_nul mem else take len mem

unfoldable pub escaped_length : Bytes → ℕ
escaped_length [] = 0
escaped_length (c ∷ text) =
    (if not (c == b' ') && should_escape c then 3 else 1) + escaped_length text

-- The body of the loop of `escape_to`.
unfoldable pub escape_char : ℕ → Out → Out
escape_char c o =
    if c == b' '
    then store b'+' o
    else if should_escape c
    then store (bin2hex (c % 16)) (store (bin2hex (c / 16 % 16)) (store b'%' o))
    else store c o

unfoldable pub escape_loop : Bytes → Out → Out
escape_loop [] o = o
escape_loop (c ∷ text) o = escape_loop text (escape_char c o)

-- `escape_to` at a place of a buffer.
unfoldable pub escape_to : Bytes → Out → Out
escape_to text o = terminate (escape_loop text o)

-- The block returned and `*reslength`. The first argument says whether `malloc` succeeds, the second
-- one is what a fresh block is filled with.
unfoldable pub escape : Bool → ℕ → Bytes → ℕ → Option Bytes × ℕ
escape mem fresh text textlen =
    let t = text_of text textlen in
    let len = 1 + escaped_length t in
    let written = escape_to t (record { buffer = replicate len fresh; r = 0 }) in
    (if mem then some written.buffer else none, len - 1)
