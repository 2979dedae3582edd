-- ===== src/Subpath/Tests.antt =====
-- Runs of the checks on paths, and their theorems at concrete inputs.
use rp_lib_utils.Common.{◌≡◌, ◌≢◌, ◌↔◌, refl, true, false, some, codes, Bytes, arith}
use rp_lib_utils.Subpath.{
  subpath_is_valid, subpath, subpath_force, skip_slashes, inspect, turn, one_dot, two_dots,
  name_turn, skip_name, up, down,
}
use rp_lib_utils.Subpath.Validity.{is_absolute, StaysBelowRoot, subpath_is_valid_iff}

abbrev inside : Bytes
inside = codes "a/b/c/../../../."

abbrev outside : Bytes
outside = codes "a/../////.."

inside_is_valid : subpath_is_valid inside ≡ true
unfolding subpath_is_valid inspect turn one_dot two_dots name_turn skip_name up down
inside_is_valid = refl

outside_is_valid : subpath_is_valid outside ≡ false
unfolding subpath_is_valid inspect turn one_dot two_dots name_turn skip_name up down
outside_is_valid = refl

forced : subpath_force (some (codes "//a/..")) ≡ some (codes "a/..")
unfolding subpath_force subpath skip_slashes subpath_is_valid inspect turn one_dot two_dots
    name_turn skip_name up down
forced = refl

subpath_is_valid_iff_example :
    (subpath_is_valid inside ≡ true) ↔ ((is_absolute inside ≡ false) × StaysBelowRoot inside)
subpath_is_valid_iff_example = subpath_is_valid_iff inside

inside_not_empty : inside ≢ codes ""
inside_not_empty e = ground (arith, e)
