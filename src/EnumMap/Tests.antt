-- ===== src/EnumMap/Tests.antt =====
-- Runs of the searches in a map of two labels, and their theorems at this map.
use rp_lib_utils.Common.{
  ℕ, ◌+◌, ◌≡◌, refl, arith, true, false, ◌&&◌, [], ◌∷◌, Bytes, some, leb, ◌==◌, if◌then◌else◌,
  codes,
}
use rp_lib_utils.EnumMap.{
  EnumMap, search_value, search_label, enum_map_label, enum_map_value, enum_map_has_value,
  enum_map_check_value, enum_map_check_label, enum_map_label_def,
}
use rp_lib_utils.EnumMap.RoundTrip.{enum_map_value-enum_map_label}

-- 0 for texts that are equal up to case, 1 for others.
lower : ℕ → ℕ
lower c = if leb b'A' c && leb c b'Z' then c + 32 else c

case_difference : Bytes → Bytes → ℕ
case_difference [] [] = 0
case_difference [] (b ∷ bs) = 1
case_difference (a ∷ more) [] = 1
case_difference (a ∷ more) (b ∷ bs) =
    let rest = case_difference more bs in if lower a == lower b then rest else 1

case_difference_same : (l : Bytes) → case_difference l l ≡ 0
unfolding case_difference
case_difference_same [] = refl
case_difference_same (c ∷ l) = ground (arith, case_difference_same l)

abbrev switch : EnumMap
switch = record { label = codes "on"; value = 1 } ∷ record { label = codes "off"; value = 0 } ∷ []

off_label : enum_map_label switch 0 ≡ some (codes "off")
unfolding enum_map_label search_value
off_label = refl

off_value : enum_map_value case_difference switch (codes "OFF") ≡ some 0
unfolding enum_map_value search_label case_difference lower
off_value = refl

unknown_is_reported :
    (enum_map_check_label case_difference switch (codes "of") true).reported ≡ true
unfolding enum_map_check_label search_label case_difference lower
unknown_is_reported = refl

unknown_value : enum_map_has_value switch 2 ≡ false
unfolding enum_map_has_value enum_map_check_value search_value
unknown_value = refl

default_label : enum_map_label_def switch 2 (codes "x") ≡ codes "x"
unfolding enum_map_label_def enum_map_label search_value
default_label = refl

enum_map_value-enum_map_label_example : enum_map_value case_difference switch (codes "off") ≡ some 0
unfolding case_difference lower
enum_map_value-enum_map_label_example =
    enum_map_value-enum_map_label case_difference case_difference_same switch 0 (codes "off")
      ((refl, tt), (tt, tt)) off_label
