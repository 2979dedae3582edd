-- ===== src/EnumMap.antt =====
-- src/misc/rp-enum-map.c: labels and their values, in an array that ends with a NULL label. An `int`
-- is the number of its 32 bits. `strcasecmp` of the C library is a parameter.
pub mod Entries
pub mod RoundTrip
mod Tests
use rp_lib_utils.Common.{
  ℕ, Bool, true, false, not, ◌&&◌, List, [], ◌∷◌, Bytes, Option, none, some, ◌==◌, if◌then◌else◌,
}

-- `rp_enum_map_t`
pub record Entry : Type 0 where
  pub label : Bytes
  pub value : ℕ

abbrev pub EnumMap : Type 0
EnumMap = List Entry

-- `!= NULL`
abbrev pub found : Option Entry → Bool
found none = false
found (some kv) = true

-- What a check returns, and whether it has reported an error.
pub record Checked : Type 0 where
  pub valid : Bool
  pub reported : Bool

-- `!valid && context != NULL` in front of the report.
abbrev checked : Bool → Bool → Checked
checked valid context = record { valid = valid; reported = not valid && context }

unfoldable pub search_value : EnumMap → ℕ → Option Entry
search_value [] v = none
search_value (kv ∷ keyvals) v =
    let rest = search_value keyvals v in if kv.value == v then some kv else rest

-- The flag tells whether there is a context.
unfoldable pub enum_map_check_value : EnumMap → ℕ → Bool → Checked
enum_map_check_value keyvals v context = checked (found (search_value keyvals v)) context

unfoldable pub enum_map_has_value : EnumMap → ℕ → Bool
enum_map_has_value keyvals v = (enum_map_check_value keyvals v false).valid

-- `*result` if `true` is returned.
unfoldable pub enum_map_label : EnumMap → ℕ → Option Bytes
enum_map_label keyvals v = elim (search_value keyvals v) [ none ↦ none | some kv ↦ some kv.label ]

unfoldable pub enum_map_label_def : EnumMap → ℕ → Bytes → Bytes
enum_map_label_def keyvals v def = elim (enum_map_label keyvals v) [
  | none ↦ def
  | some label ↦ label
]

module _ (strcasecmp : Bytes → Bytes → ℕ) where
  unfoldable pub search_label : EnumMap → Bytes → Option Entry
  search_label [] l = none
  search_label (kv ∷ keyvals) l =
      let rest = search_label keyvals l in if 0 == strcasecmp kv.label l then some kv else rest

  unfoldable pub enum_map_has_label : EnumMap → Bytes → Bool
  enum_map_has_label keyvals l = found (search_label keyvals l)

  unfoldable pub enum_map_check_label : EnumMap → Bytes → Bool → Checked
  enum_map_check_label keyvals l context = checked (found (search_label keyvals l)) context

  unfoldable pub enum_map_value : EnumMap → Bytes → Option ℕ
  enum_map_value keyvals l = elim (search_label keyvals l) [ none ↦ none | some kv ↦ some kv.value ]

  unfoldable pub enum_map_value_def : EnumMap → Bytes → ℕ → ℕ
  enum_map_value_def keyvals l def = elim (enum_map_value keyvals l) [ none ↦ def | some v ↦ v ]
