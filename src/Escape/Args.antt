-- ===== src/Escape/Args.antt =====
-- `rp_unescape_args` and `rp_unescaped_args_get` of src/http/rp-escape.c.
use rp_lib_utils.Common.{
  ℕ, zero, suc, ◌+◌, ◌-◌, Bool, true, false, ◌||◌, List, [], ◌∷◌, ◌++◌, Bytes, Option, none, some,
  length, take, drop, replicate, ◌==◌, if◌then◌else◌,
}
use rp_lib_utils.Escape.Buffer.{Out}
use rp_lib_utils.Escape.Encode.{until_nul}
use rp_lib_utils.Escape.Decode.{unescaped_length, unescape_to}

-- `"&="` and `"&"`
abbrev pub ends_key : ℕ → Bool
ends_key c = c == b'&' || c == b'='

abbrev pub ends_value : ℕ → Bool
ends_value c = c == b'&'

unfoldable pub strcspn : (ℕ → Bool) → Bytes → ℕ
strcspn stop [] = 0
strcspn stop (c ∷ text) = let rest = strcspn stop text in if stop c then 0 else 1 + rest

-- One pair of the text: the key, the value behind `=`, and what is behind the `&`; at the NUL there
-- is nothing behind.
pub record Part : Type 0 where
  pub key : Bytes
  pub value : Option Bytes
  pub next : Option Bytes

-- Behind a value.
abbrev pub behind : Bytes → Option Bytes
behind [] = none
behind (c ∷ args) = some args

unfoldable pub part_from : Bytes → Bytes → Part
part_from key [] = record { key = key; value = none; next = none }
part_from key (c ∷ args) =
    if c == b'='
    then record {
      key = key;
      value = some (take (strcspn ends_value args) args);
      next = behind (drop (strcspn ends_value args) args);
    }
    else record { key = key; value = none; next = some args }

-- Both loops split the text in this way.
unfoldable pub part_of : Bytes → Part
part_of args = part_from (take (strcspn ends_key args) args) (drop (strcspn ends_key args) args)

-- `n` and `lt`.
pub record Counted : Type 0 where
  pub n : ℕ
  pub lt : ℕ

abbrev pub value_size : Option Bytes → ℕ
value_size none = 0
value_size (some value) = 1 + unescaped_length value

abbrev pub part_size : Part → ℕ
part_size p = 1 + unescaped_length p.key + value_size p.value

-- The loop that counts, on fuel.
unfoldable pub count_loop : ℕ → Bytes → Counted
count_loop zero args = record { n = 0; lt = 0 }
count_loop (suc fuel) args = elim (part_of args).next [
  | none ↦ record { n = 1; lt = part_size (part_of args) }
  | some more ↦
      let rest = count_loop fuel more in
      record { n = 1 + rest.n; lt = part_size (part_of args) + rest.lt }
]

-- The places `q[0]` and `q[1]` in the area of the texts.
pub record Pair : Type 0 where
  pub key : ℕ
  pub value : ℕ

-- `unescape_to` at `p`, and the step behind the NUL.
unfoldable pub put_text : Bytes → Out → Out
put_text text o = let w = unescape_to text o in record w { r = w.r + 1 }

abbrev pub put_value_text : Option Bytes → Out → Out
put_value_text none o = o
put_value_text (some value) o = put_text value o

-- Without a value, `q[1]` is the NUL of the key.
abbrev pub value_place : Option Bytes → ℕ → ℕ
value_place none p = p - 1
value_place (some value) p = p

pub record Filled : Type 0 where
  pub pairs : List Pair
  pub out : Out

-- The body of the loop that fills.
unfoldable pub fill_part : Part → Out → Filled
fill_part p o =
    let k = put_text p.key o in
    record {
      pairs = record { key = o.r; value = value_place p.value k.r } ∷ [];
      out = put_value_text p.value k;
    }

abbrev pub one_more : Filled → Filled → Filled
one_more first rest = record { pairs = first.pairs ++ rest.pairs; out = rest.out }

-- The loop that fills, on fuel.
unfoldable pub fill_loop : ℕ → Bytes → Out → Filled
fill_loop zero args o = record { pairs = []; out = o }
fill_loop (suc fuel) args o = elim (part_of args).next [
  | none ↦ fill_part (part_of args) o
  | some more ↦
      let first = fill_part (part_of args) o in one_more first (fill_loop fuel more first.out)
]

-- The block returned: its pairs of pointers, and the area of the texts behind them.
pub record Unescaped : Type 0 where
  pub pairs : List Pair
  pub area : Bytes

unfoldable pub counted_of : Bytes → Counted
counted_of [] = record { n = 0; lt = 0 }
counted_of (c ∷ args) = count_loop (2 + length args) (c ∷ args)

unfoldable pub filled_of : Bytes → Out → Filled
filled_of [] o = record { pairs = []; out = o }
filled_of (c ∷ args) o = fill_loop (2 + length args) (c ∷ args) o

-- The first two arguments are the outcome of `malloc`.
unfoldable pub unescape_args : Bool → ℕ → Bytes → Option Unescaped
unescape_args mem fresh args =
    let filled = filled_of args (record { buffer = replicate (counted_of args).lt fresh; r = 0 }) in
    if mem then some (record { pairs = filled.pairs; area = filled.out.buffer }) else none

-- The C string at a place.
unfoldable pub text_at : Bytes → ℕ → Bytes
text_at area p = until_nul (drop p area)

-- `strcmp` is 0.
unfoldable pub same_text : Bytes → Bytes → Bool
same_text [] [] = true
same_text [] (d ∷ ds) = false
same_text (c ∷ cs) [] = false
same_text (c ∷ cs) (d ∷ ds) = let rest = same_text cs ds in if c == d then rest else false

-- The place of the value, `none` for NULL.
unfoldable pub args_get : Bytes → List Pair → Bytes → Option ℕ
args_get area [] key = none
args_get area (pair ∷ pairs) key =
    let rest = args_get area pairs key in
    if same_text (text_at area pair.key) key then some pair.value else rest
