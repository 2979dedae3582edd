-- ===== src/U16id/Block.antt =====
-- The flat block of src/sandbox/u16id.c: the upper index, the identifiers and the pointers.
use rp_lib_utils.Common.{
  ℕ, zero, suc, ◌+◌, ◌-◌, ◌*◌, ◌%◌, ◌^◌, bit_or, not, Option, none, some, ltb, ◌==◌, if◌then◌else◌,
}
use rp_lib_utils.U16id.Memory.{Cells, put_cell, load, store, Block, Heap, realloc}

-- `upper | (N - 1)`
unfoldable pub get_capacity : ℕ → ℕ
get_capacity upper = bit_or upper 3

-- `flat_t`: the pointers `ids` and `ptrs` follow from the block and the capacity.
pub record Flat : Type 0 where
  pub upper : ℕ
  pub capacity : ℕ
  pub block : Option Block

unfoldable pub flatofup : Block → ℕ → Flat
flatofup base up = record { upper = up; capacity = get_capacity up; block = some base }

unfoldable pub flatof : Option Block → Flat
flatof none = record { upper = 0; capacity = 0; block = none }
flatof (some base) = flatofup base (base.cell 0)

-- The cell of `ptrs[i]` for an index above 0.
abbrev pub slot : ℕ → ℕ → ℕ
slot capacity i = capacity + 1 + 4 * (i - 1)

-- In cells of two bytes.
abbrev pub size : ℕ → ℕ
size capacity = (capacity + 1) + 4 * capacity

-- The loop of `search`: `count` identifiers behind the index `i` are left.
unfoldable pub search_from : Cells → ℕ → ℕ → ℕ → ℕ
search_from cell id zero i = 0
search_from cell id (suc count) i =
    let rest = search_from cell id count (i + 1) in if id == cell (i + 1) then i + 1 else rest

unfoldable pub search : Flat → ℕ → ℕ
search flat id = elim flat.block [ none ↦ 0 | some b ↦ search_from b.cell id flat.upper 0 ]

-- The loop that moves the pointers to the slots of a larger capacity, from the last one down.
unfoldable pub move_up : Cells → ℕ → ℕ → ℕ → Cells
move_up cell new old zero = cell
move_up cell new old (suc i) =
    move_up (store cell (slot new (suc i)) (load cell (slot old (suc i)))) new old i

-- The three stores at the end of `add`.
unfoldable pub write_entry : Cells → ℕ → ℕ → ℕ → ℕ → Cells
write_entry cell capacity nupper id ptr =
    store (put_cell (put_cell cell 0 nupper) nupper id) (slot capacity nupper) ptr

abbrev pub with_cells : Block → Cells → Block
with_cells b cell = record b { cell = cell }

-- `add` where the capacity does not do.
unfoldable pub add_grown : Heap → Flat → ℕ → ℕ → Option Block
add_grown heap flat id ptr =
    let nupper = (flat.upper + 1) % 2 ^ 16 in
    let capacity = get_capacity nupper in
    elim (realloc heap flat.block (size capacity)) [
      | none ↦ none
      | some grown ↦ some (
          with_cells grown (
            write_entry (move_up grown.cell capacity (get_capacity flat.upper) flat.upper) capacity
              nupper id ptr))
    ]

unfoldable pub add_in_place : Flat → ℕ → ℕ → Option Block
add_in_place flat id ptr = elim flat.block [
  | none ↦ none
  | some b ↦
      some (with_cells b (write_entry b.cell flat.capacity ((flat.upper + 1) % 2 ^ 16) id ptr))
]

-- The block, or NULL.
unfoldable pub add : Heap → Flat → ℕ → ℕ → Option Block
add heap flat id ptr =
    if ltb flat.capacity ((flat.upper + 1) % 2 ^ 16)
    then add_grown heap flat id ptr
    else add_in_place flat id ptr

-- The loop that moves the pointers to the slots of a smaller capacity: `count` of them from the
-- index `i` on.
unfoldable pub move_down : Cells → ℕ → ℕ → ℕ → ℕ → Cells
move_down cell new old zero i = cell
move_down cell new old (suc count) i =
    move_down (store cell (slot new i) (load cell (slot old i))) new old count (i + 1)

-- The last entry in the place of the one that is dropped.
unfoldable pub fill_gap : Cells → ℕ → ℕ → ℕ → Cells
fill_gap cell capacity upper index =
    if not (index == upper)
    then store (put_cell cell index (cell upper)) (slot capacity index)
        (load (put_cell cell index (cell upper)) (slot capacity upper))
    else cell

unfoldable pub drop_cells : Cells → ℕ → ℕ → ℕ → Cells
drop_cells cell capacity upper index =
    let filled = put_cell (fill_gap cell capacity upper index) 0 (upper - 1) in
    let capa = get_capacity (upper - 1) in
    if not (capa == capacity) then move_down filled capa capacity (upper - 1) 1 else filled

-- `drop` at an index above 0.
unfoldable pub drop_at : Flat → ℕ → Option Block
drop_at flat index = elim flat.block [
  | none ↦ none
  | some b ↦ some (with_cells b (drop_cells b.cell flat.capacity flat.upper index))
]

unfoldable pub dropall : Option Block → Option Block
dropall none = none
dropall (some b) = some (with_cells b (put_cell b.cell 0 0))

abbrev pub destroy : Option Block → Option Block
destroy base = none

-- The new `*pbase`; it is NULL where the code returns X_ENOMEM.
unfoldable pub create : Heap → Option Block
create heap = dropall (realloc heap none (size (get_capacity 0)))
