-- ===== src/U16id/Memory.antt =====
-- Memory in cells of 16 bits, in which a pointer takes four. A block has its cells below its size;
-- what stands behind them is not its own.
use rp_lib_utils.Common.{
  ℕ, ◌+◌, ◌*◌, ◌/◌, ◌%◌, ◌^◌, Bool, ◌&&◌, Option, none, some, ltb, ◌==◌, if◌then◌else◌,
}

abbrev pub Cells : Type 0
Cells = ℕ → ℕ

unfoldable pub put_cell : Cells → ℕ → ℕ → Cells
put_cell cell a v p = if p == a then v else cell p

-- The four cells of a pointer, the lowest bits first.
unfoldable pub load : Cells → ℕ → ℕ
load cell a = cell a + 2 ^ 16 * cell (a + 1) + 2 ^ 32 * cell (a + 2) + 2 ^ 48 * cell (a + 3)

unfoldable pub store : Cells → ℕ → ℕ → Cells
store cell a v p =
    if p == a
    then v % 2 ^ 16
    else if p == a + 1
    then v / 2 ^ 16 % 2 ^ 16
    else if p == a + 2
    then v / 2 ^ 32 % 2 ^ 16
    else if p == a + 3
    then v / 2 ^ 48 % 2 ^ 16
    else cell p

-- A block that was allocated.
pub record Block : Type 0 where
  pub size : ℕ
  pub cell : Cells

-- What `malloc` and `realloc` find: whether they succeed, and what new cells hold.
pub record Heap : Type 0 where
  pub has_room : Bool
  pub fresh : Cells

-- `realloc`, of NULL `malloc`; `size` is in cells.
unfoldable pub realloc : Heap → Option Block → ℕ → Option Block
realloc heap none size =
    if heap.has_room then some (record { size = size; cell = heap.fresh }) else none
realloc heap (some b) size =
    if heap.has_room
    then some (record {
      size = size;
      cell = λ p. if ltb p b.size && ltb p size then b.cell p else heap.fresh p;
    })
    else none
