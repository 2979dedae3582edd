-- ===== src/ExpandVars/Scan.antt =====
-- The inner loop of `expand` of src/misc/rp-expand-vars.c. A C string is the list of its bytes.
pub mod Account
pub mod Passes
use rp_lib_utils.Common.{
  ℕ, zero, suc, ◌+◌, Bool, true, false, ◌&&◌, ◌||◌, List, [], ◌∷◌, ◌++◌, Bytes, Option, none, some,
  length, take, leb, ◌==◌, if◌then◌else◌,
}

-- What a resolution function returns and stores: `found`, the memory at `value`, `length`.
pub record Answer : Type 0 where
  pub found : Bool
  pub value : Option Bytes
  pub len : ℕ

-- The function is called with the bytes of a name, and answers alike each time.
abbrev pub Resolver : Type 0
Resolver = Bytes → Answer

-- The text of a default, behind `-` or behind `:-`.
pub data Default : Type 0 where
  no_default : Default
  dash colon_dash : Bytes → Default

-- `write != NULL`, what is written, and the counters.
pub record State : Type 0 where
  pub writing : Bool
  pub out : Bytes
  pub remove : ℕ
  pub add : ℕ
  pub again : ℕ

-- A round's state and what `begin` points to.
abbrev pub Next : Type 0
Next = State × Bytes

unfoldable pub put : Bytes → State → State
put bs s = if s.writing then record s { out = s.out ++ bs } else s

unfoldable pub removing : ℕ → State → State
removing n s = record s { remove = s.remove + n }

-- `isalnum(c) || c == '_'` in the C locale.
unfoldable pub is_name : ℕ → Bool
is_name c =
    leb b'0' c && leb c b'9' || leb b'A' c && leb c b'Z' || leb b'a' c && leb c b'z' || c == b'_'

-- The bytes in front of the first one that is no part of a name, and the rest.
unfoldable pub split_name : Bytes → Bytes × Bytes
split_name [] = ([], [])
split_name (c ∷ text) =
    let (name, rest) = split_name text in if is_name c then (c ∷ name, rest) else ([], c ∷ text)

-- The bytes in front of the closing character, and the rest behind that if there is one.
unfoldable pub split_close : ℕ → Bytes → Bytes × Option Bytes
split_close close [] = ([], none)
split_close close (c ∷ text) =
    let (body, rest) = split_close close text in
    if c == close then ([], some text) else (c ∷ body, rest)

abbrev pub starts_dash : Bytes → Bool
starts_dash [] = false
starts_dash (c ∷ text) = c == b'-'

abbrev pub tail : Bytes → Bytes
tail [] = []
tail (c ∷ text) = text

-- The name and the default of a braced variable: the first `-` or `:-` counts.
unfoldable pub split_default : Bytes → Bytes × Default
split_default [] = ([], no_default)
split_default (c ∷ body) =
    let (name, d) = split_default body in
    if c == b'-'
    then ([], dash body)
    else if c == b':' && starts_dash body
    then ([], colon_dash (tail body))
    else (c ∷ name, d)

-- The bytes in front of the first NUL.
unfoldable pub until_nul : Bytes → Bytes
until_nul [] = []
until_nul (c ∷ mem) = let rest = until_nul mem in if c == 0 then [] else c ∷ rest

-- `expval.value && *expval.value`
unfoldable pub has_text : Option Bytes → Bool
has_text none = false
has_text (some []) = false
has_text (some (c ∷ mem)) = if c == 0 then false else true

-- The bytes of a value that was found; `strlen` counts them if `length` is 0.
unfoldable pub found_text : Answer → Option Bytes
found_text a = elim a.value [
  | none ↦ none
  | some mem ↦ if a.found then some (if a.len == 0 then until_nul mem else take a.len mem) else none
]

-- The bytes to insert for a variable.
unfoldable pub replacement : Default → Answer → Option Bytes
replacement no_default a = found_text a
replacement (dash def) a = if a.found then found_text a else some def
replacement (colon_dash def) a = if a.found && has_text a.value then found_text a else some def

unfoldable pub contains_dollar : Bytes → Bool
contains_dollar [] = false
contains_dollar (c ∷ text) = c == b'$' || contains_dollar text

-- `again` is counted only when writing.
unfoldable pub insert : Option Bytes → State → State
insert none s = s
insert (some bs) s =
    let more = if s.writing && contains_dollar bs then 1 else 0 in
    record (put bs s) { add = s.add + length bs; again = s.again + more }

unfoldable pub escape_round : Bytes → State → Next
escape_round [] s = (put (b'\\' ∷ []) s, [])
escape_round (oc ∷ rest) s =
    if oc == b'\\' || oc == b'$'
    then (put (oc ∷ []) (removing 1 s), rest)
    else (put (b'\\' ∷ []) s, oc ∷ rest)

unfoldable pub bare_round : Resolver → Bytes → State → Next
bare_round f text s =
    let (name, rest) = split_name text in
    (insert (replacement no_default (f name)) (removing (1 + length name) s), rest)

-- `remove += 3 + (end - begin)`, where `end` is behind the closing character, or
-- `remove += 2 + (end - begin)` with nothing inserted, where there is none.
unfoldable pub braced : Resolver → Bytes → Option Bytes → State → Next
braced f body (some rest) s =
    let (name, d) = split_default body in
    (insert (replacement d (f name)) (removing (3 + (length body + 1)) s), rest)
braced f body none s = (removing (2 + length body) s, [])

unfoldable pub braced_round : Resolver → ℕ → Bytes → State → Next
braced_round f close text s = let (body, rest) = split_close close text in braced f body rest s

-- The round behind a `$`.
unfoldable pub dollar_round : Resolver → Bytes → State → Next
dollar_round f [] s = bare_round f [] s
dollar_round f (d ∷ rest) s =
    if d == b'$'
    then (put (b'$' ∷ []) (removing 1 s), rest)
    else if d == b'('
    then braced_round f b')' rest s
    else if d == b'{'
    then braced_round f b'}' rest s
    else bare_round f (d ∷ rest) s

unfoldable pub round : Resolver → ℕ → Bytes → State → Next
round f c rest s =
    if c == b'\\'
    then escape_round rest s
    else if c == b'$'
    then dollar_round f rest s
    else (put (c ∷ []) s, rest)

-- `while ((c = *begin++))`. Each round takes a byte at least: the length of the text is enough fuel.
unfoldable pub scan_loop : ℕ → Resolver → Bytes → State → State
scan_loop fuel f [] s = s
scan_loop zero f (c ∷ text) s = s
scan_loop (suc fuel) f (c ∷ text) s = let next = round f c text s in scan_loop fuel f next.1 next.0

-- One pass over a text, first to count and then to write.
unfoldable pub scan : Bool → Resolver → Bytes → State
scan writing f text =
    scan_loop (length text) f text
      (record { writing = writing; out = []; remove = 0; add = 0; again = 0 })
