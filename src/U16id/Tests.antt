-- ===== src/U16id/Tests.antt =====
-- Runs of the maps of src/sandbox/u16id.c, and the theorems about them at concrete inputs.
use rp_lib_utils.Common.{
  ◌≡◌, ◌⊎◌, refl, arith, Bool, true, false, List, [], ◌∷◌, Option, none, some,
}
use rp_lib_utils.U16id.Memory.{Block, Heap, put_cell, load, store, realloc}
use rp_lib_utils.U16id.Block.{
  get_capacity, flatofup, flatof, search_from, search, move_up, write_entry, add_grown,
  add_in_place, add, move_down, fill_gap, drop_cells, drop_at,
}
use rp_lib_utils.U16id.Pointers.{
  success, no_entry, ptr_at, set_ptr, add_new, u16id2ptr_add, u16id2ptr_set, u16id2ptr_get,
  u16id2ptr_drop, u16id2ptr_count, forall_from, u16id2ptr_forall,
}
use rp_lib_utils.U16id.Bits.{field_of, u16id2bool_get, change_field, u16id2bool_set}
use rp_lib_utils.U16id.Update.{Updated}
use rp_lib_utils.U16id.Map.{
  u16id2ptr_get-u16id2ptr_set, u16id2ptr_get-u16id2ptr_add, u16id2ptr_add-unchanged,
}
use rp_lib_utils.U16id.Deletion.{u16id2ptr_get-u16id2ptr_drop}

abbrev ample : Heap
ample = record { has_room = true; fresh = λ p. 0 }

abbrev full : Heap
full = record { has_room = false; fresh = λ p. 0 }

-- Five pointers, for which the block grows once.
abbrev five : Option Block
five =
    (u16id2ptr_set ample
      (u16id2ptr_set ample
        (u16id2ptr_set ample (u16id2ptr_set ample (u16id2ptr_set ample none 7 42).map 8 43).map 9
          44).map
        10 45).map
      11 46).map

five_pairs : u16id2ptr_forall five ≡ (11, 46) ∷ (10, 45) ∷ (9, 44) ∷ (8, 43) ∷ (7, 42) ∷ []
unfolding u16id2ptr_set u16id2ptr_forall forall_from add_new add add_grown add_in_place realloc
    move_up write_entry get_capacity flatofup flatof search search_from set_ptr ptr_at put_cell load
    store
five_pairs = refl

five_dropped :
    u16id2ptr_forall (u16id2ptr_drop (u16id2ptr_drop five 8).0.map 10).0.map
    ≡ (9, 44) ∷ (11, 46) ∷ (7, 42) ∷ []
unfolding u16id2ptr_set u16id2ptr_forall forall_from add_new add add_grown add_in_place realloc
    move_up write_entry get_capacity flatofup flatof search search_from set_ptr ptr_at put_cell load
    store u16id2ptr_drop drop_at drop_cells fill_gap move_down
five_dropped = refl

u16id2ptr_get-u16id2ptr_set_example : Updated none 7 (some 42) (u16id2ptr_set ample none 7 42).map
unfolding u16id2ptr_set u16id2ptr_count add_new add add_grown realloc get_capacity flatof search
u16id2ptr_get-u16id2ptr_set_example =
    u16id2ptr_get-u16id2ptr_set ample none 7 42 tt (λ p. omega arith) (omega arith) (omega arith)
      (omega arith) refl

abbrev one : Option Block
one = (u16id2ptr_set ample none 7 42).map

one-Updated : Updated none 7 (some 42) one
unfolding u16id2ptr_set u16id2ptr_count add_new add add_grown realloc get_capacity flatof search
one-Updated =
    u16id2ptr_get-u16id2ptr_set ample none 7 42 tt (λ p. omega arith) (omega arith) (omega arith)
      (omega arith) refl

u16id2ptr_get-u16id2ptr_add_example :
    (u16id2ptr_get one 8 ≡ none) × Updated one 8 (some 43) (u16id2ptr_add ample one 8 43).map
unfolding u16id2ptr_set u16id2ptr_add u16id2ptr_count add_new add add_grown add_in_place realloc
    move_up write_entry get_capacity flatofup flatof search search_from put_cell store
u16id2ptr_get-u16id2ptr_add_example =
    u16id2ptr_get-u16id2ptr_add ample one 8 43 one-Updated.0 (λ p. omega arith) (omega arith)
      (omega arith) (omega arith) refl

u16id2ptr_add-unchanged_example :
    (((u16id2ptr_add full none 7 42).status ≡ success)
      ⊎ ((u16id2ptr_add full none 7 42).map ≡ none))
    × (((u16id2ptr_set full none 7 42).status ≡ success)
        ⊎ ((u16id2ptr_set full none 7 42).map ≡ none))
u16id2ptr_add-unchanged_example = u16id2ptr_add-unchanged full none 7 42

u16id2ptr_get-u16id2ptr_drop_example :
    ((u16id2ptr_drop one 7).1 ≡ u16id2ptr_get one 7)
    × ((u16id2ptr_drop one 7).0.status
        ≡ elim (u16id2ptr_get one 7) [ none ↦ no_entry | some v ↦ success ])
    × Updated one 7 none (u16id2ptr_drop one 7).0.map
u16id2ptr_get-u16id2ptr_drop_example = u16id2ptr_get-u16id2ptr_drop one 7 one-Updated.0

-- Identifiers of one field, one of another, and one that is taken back.
abbrev flags : Option Block
flags =
    (u16id2bool_set ample
      (u16id2bool_set ample
        (u16id2bool_set ample (u16id2bool_set ample none 3 true).0.map 5 true).0.map 70 true).0.map
      3 false).0.map

flags_set : List Bool
flags_set =
    u16id2bool_get flags 3
    ∷ u16id2bool_get flags 5
    ∷ u16id2bool_get flags 70
    ∷ u16id2bool_get flags 71
    ∷ []

flags_run : flags_set ≡ false ∷ true ∷ true ∷ false ∷ []
unfolding flags_set u16id2bool_set u16id2bool_get field_of change_field add add_grown add_in_place
    realloc move_up write_entry get_capacity flatofup flatof search search_from set_ptr ptr_at
    put_cell load store drop_at drop_cells fill_gap move_down
flags_run = refl
