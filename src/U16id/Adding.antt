-- ===== src/U16id/Adding.antt =====
-- What `add` of src/sandbox/u16id.c does to the entries, with the block in place or grown.
use mathlib.Core.Path.{subst, ap₂}
use rp_lib_utils.Common.{
  ℕ, ◌+◌, ◌*◌, ◌/◌, ◌%◌, ◌^◌, ◌<◌, ◌≤◌, ◌≡◌, ◌≢◌, inl, refl, ap, sym, ◌∙◌, arith, true, ◌&&◌,
  Option, none, some, ltb, if◌then◌else◌,
}
use rp_lib_utils.Common.Bits.{bit_or_3}
use rp_lib_utils.U16id.Memory.{Cells, put_cell, load, Block, Heap, realloc}
use rp_lib_utils.U16id.Block.{
  flatof, flatofup, get_capacity, slot, size, move_up, write_entry, with_cells, add_grown,
  add_in_place,
}
use rp_lib_utils.U16id.Pointers.{id_at, ptr_at, u16id2ptr_count}
use rp_lib_utils.U16id.Slots.{
  Words, put_cell_self, put_cell_off, store_off, load-store, load-store_off, put_cell-Words,
  store-Words, load_same,
}
use rp_lib_utils.U16id.Lookup.{InRange, Distinct}

pub get_capacity_lem : (n : ℕ) → get_capacity n ≡ 4 * (n / 4) + 3
unfolding get_capacity
get_capacity_lem n = bit_or_3 n

-- The block has room for its capacity, and no identifier stands twice.
pub record IsValidBlock (b : Block) : Type 0 where
  pub words : Words b.cell
  pub room : size (get_capacity (b.cell 0)) ≤ b.size
  pub distinct : Distinct (some b)

abbrev pub IsValid : Option Block → Type 0
IsValid none = Unit
IsValid (some b) = IsValidBlock b

pub ptr_at-some :
    (b : Block) (i : ℕ) → ptr_at (some b) i ≡ load b.cell (slot (get_capacity (b.cell 0)) i)
unfolding ptr_at flatof flatofup
ptr_at-some b i = refl

-- The old entries, and one more behind them.
pub record Added (m : Option Block) (id ptr : ℕ) (b : Block) : Type 0 where
  pub count : b.cell 0 ≡ u16id2ptr_count m + 1
  pub words : Words b.cell
  pub room : size (get_capacity (b.cell 0)) ≤ b.size
  pub kept : (i : ℕ) → InRange m i → (b.cell i ≡ id_at m i) × (ptr_at (some b) i ≡ ptr_at m i)
  pub new_id : b.cell (u16id2ptr_count m + 1) ≡ id
  pub new_ptr : ptr_at (some b) (u16id2ptr_count m + 1) ≡ ptr

-- Cells that have the entries of a map, with the pointers in the slots of a capacity.
abbrev pub Prepared : Option Block → Cells → ℕ → Type 0
Prepared m cell capacity =
    Words cell
    × ((i : ℕ) → InRange m i → (cell i ≡ id_at m i) × (load cell (slot capacity i) ≡ ptr_at m i))

module _ (cell : Cells) (capacity n id ptr : ℕ) (z : 0 < n) (fits : n ≤ capacity) where
  ids : Cells
  ids = put_cell (put_cell cell 0 n) n id

  write_entry_low : (p : ℕ) → p ≤ capacity → write_entry cell capacity n id ptr p ≡ ids p
  unfolding write_entry ids
  write_entry_low p h = store_off ids (slot capacity n) ptr p (inl (omega (arith, h)))

  ids_off : (p : ℕ) → p ≢ 0 → p ≢ n → ids p ≡ cell p
  unfolding ids
  ids_off p h k = put_cell_off (put_cell cell 0 n) n id p k ∙ put_cell_off cell 0 n p h

  ids_count : ids 0 ≡ n
  unfolding ids
  ids_count =
      put_cell_off (put_cell cell 0 n) n id 0 (λ e. omega (arith, z, e)) ∙ put_cell_self cell 0 n

  ids_new : ids n ≡ id
  unfolding ids
  ids_new = put_cell_self (put_cell cell 0 n) n id

  ids-slot : (i : ℕ) → load ids (slot capacity i) ≡ load cell (slot capacity i)
  ids-slot i =
      load_same ids cell (slot capacity i)
        (λ p g k. ids_off p (λ e. omega (arith, g, e)) (λ e. omega (arith, g, e, fits)))

  write_entry-slot :
      (i : ℕ)
      → 0 < i
      → i < n
      → load (write_entry cell capacity n id ptr) (slot capacity i) ≡ load cell (slot capacity i)
  unfolding write_entry ids
  write_entry-slot i p h =
      load-store_off ids (slot capacity n) ptr (slot capacity i) (inl (omega (arith, p, h)))
      ∙ ids-slot i

  write_entry_new : ptr < 2 ^ 64 → load (write_entry cell capacity n id ptr) (slot capacity n) ≡ ptr
  unfolding write_entry ids
  write_entry_new h = load-store ids (slot capacity n) ptr h

  write_entry-Words :
      Words cell → n < 2 ^ 16 → id < 2 ^ 16 → Words (write_entry cell capacity n id ptr)
  unfolding write_entry ids
  write_entry-Words w hn hid =
      store-Words ids (slot capacity n) ptr
        (put_cell-Words (put_cell cell 0 n) n id (put_cell-Words cell 0 n w hn) hid)

unfoldable pub written : Option Block → ℕ → ℕ → Cells → ℕ → Block
written m id ptr cell s = record {
  size = s;
  cell = write_entry cell (get_capacity (u16id2ptr_count m + 1)) (u16id2ptr_count m + 1) id ptr;
}

module _ (m : Option Block) (id ptr : ℕ) (few : u16id2ptr_count m + 1 < 2 ^ 16)
    (small : id < 2 ^ 16) (pointer : ptr < 2 ^ 64) where
  pub written-Added :
      (cell : Cells) (s : ℕ)
      → Prepared m cell (get_capacity (u16id2ptr_count m + 1))
      → size (get_capacity (u16id2ptr_count m + 1)) ≤ s
      → Added m id ptr (written m id ptr cell s)
  unfolding written
  written-Added cell s (w, h) room = record {
    count = count;
    words = write_entry-Words cell cap n id ptr z fits w few small;
    room = subst (λ k. size (get_capacity k) ≤ s) (sym count) room;
    kept = λ i r. (
      write_entry_low cell cap n id ptr z fits i (omega (arith, fits, r.1))
          ∙ ids_off cell cap n id ptr z fits i (λ e. omega (arith, r.0, e))
              (λ e. omega (arith, r.1, e))
          ∙ (h i r).0,
      at_slot i ∙ write_entry-slot cell cap n id ptr z fits i r.0 (omega (arith, r.1)) ∙ (h i r).1,
    );
    new_id = write_entry_low cell cap n id ptr z fits n fits ∙ ids_new cell cap n id ptr z fits;
    new_ptr = at_slot n ∙ write_entry_new cell cap n id ptr z fits pointer;
  }
    where
      n : ℕ
      n = u16id2ptr_count m + 1

      cap : ℕ
      cap = get_capacity n

      z : 0 < n
      z = omega arith

      fits : n ≤ cap
      fits = omega (arith, get_capacity_lem n)

      b : Block
      b = written m id ptr cell s

      count : b.cell 0 ≡ n
      count =
          write_entry_low cell cap n id ptr z fits 0 (omega arith)
          ∙ ids_count cell cap n id ptr z fits

      at_slot : (i : ℕ) → ptr_at (some b) i ≡ load b.cell (slot cap i)
      at_slot i = ptr_at-some b i ∙ ap (λ k. load b.cell (slot (get_capacity k) i)) count

nupper_of : (n : ℕ) → n + 1 < 2 ^ 16 → (n + 1) % 2 ^ 16 ≡ n + 1
nupper_of n h = omega (arith, h)

pub in_place_lem :
    (a : Block) (id ptr : ℕ)
    → a.cell 0 + 1 < 2 ^ 16
    → a.cell 0 + 1 ≤ get_capacity (a.cell 0)
    → add_in_place (flatof (some a)) id ptr ≡ some (written (some a) id ptr a.cell a.size)
unfolding add_in_place flatof flatofup written u16id2ptr_count
in_place_lem a id ptr few h =
    ap₂ (λ cap n. some (with_cells a (write_entry a.cell cap n id ptr)))
      (omega (arith, h, get_capacity_lem (a.cell 0), get_capacity_lem (a.cell 0 + 1)))
      (nupper_of (a.cell 0) few)

-- The cells of a block that was enlarged.
unfoldable pub regrown : Heap → Block → ℕ → Cells
regrown heap a s p = if ltb p a.size && ltb p s then a.cell p else heap.fresh p

pub grown_lem :
    (heap : Heap) (a : Block) (id ptr : ℕ)
    → a.cell 0 + 1 < 2 ^ 16
    → heap.has_room ≡ true
    → add_grown heap (flatof (some a)) id ptr
      ≡ some (
          written
            (some a)
            id
            ptr
            (move_up
              (regrown heap a (size (get_capacity (a.cell 0 + 1))))
              (get_capacity (a.cell 0 + 1))
              (get_capacity (a.cell 0))
              (a.cell 0))
            (size (get_capacity (a.cell 0 + 1))))
unfolding add_grown flatof flatofup written u16id2ptr_count realloc regrown
grown_lem heap a id ptr few h = rw (h, nupper_of (a.cell 0) few) refl

pub first_lem :
    (heap : Heap) (id ptr : ℕ)
    → heap.has_room ≡ true
    → add_grown heap (flatof none) id ptr
      ≡ some (written none id ptr heap.fresh (size (get_capacity 1)))
unfolding add_grown flatof flatofup written u16id2ptr_count realloc move_up
first_lem heap id ptr h = rw h refl
