-- ===== src/U16id/Pointers.antt =====
-- The operations of `u16id2ptr` in src/sandbox/u16id.c.
use rp_lib_utils.Common.{
  ℕ, zero, suc, ◌+◌, Bool, not, List, [], ◌∷◌, Option, none, some, leb, ◌==◌, if◌then◌else◌,
}
use rp_lib_utils.U16id.Memory.{load, store, Block, Heap}
use rp_lib_utils.U16id.Block.{
  flatof, slot, search, with_cells, add, drop_at, dropall, destroy, create,
}

-- 0, X_EEXIST, X_ENOENT, X_ENOMEM and X_EINVAL.
pub data Status : Type 0 where
  success exists no_entry no_memory invalid : Status

-- The status with the new `*pi2p`.
pub record Reply : Type 0 where
  pub status : Status
  pub map : Option Block

abbrev pub reply : Status → Option Block → Reply
reply s b = record { status = s; map = b }

abbrev pub id_at : Option Block → ℕ → ℕ
id_at none i = 0
id_at (some b) i = b.cell i

-- `flat.ptrs[i]`
unfoldable pub ptr_at : Option Block → ℕ → ℕ
ptr_at none i = 0
ptr_at (some b) i = load b.cell (slot (flatof (some b)).capacity i)

-- `flat.ptrs[i] = ptr;`
unfoldable pub set_ptr : Option Block → ℕ → ℕ → Option Block
set_ptr none i ptr = none
set_ptr (some b) i ptr = some (with_cells b (store b.cell (slot (flatof (some b)).capacity i) ptr))

pub u16id2ptr_create : Heap → Reply
u16id2ptr_create heap = elim (create heap) [
  | none ↦ reply no_memory none
  | some b ↦ reply success (some b)
]

pub u16id2ptr_destroy : Option Block → Option Block
u16id2ptr_destroy i2p = destroy i2p

unfoldable pub u16id2ptr_dropall : Option Block → Option Block
u16id2ptr_dropall i2p = dropall i2p

abbrev pub index_of : Option Block → ℕ → ℕ
index_of i2p id = search (flatof i2p) id

unfoldable pub u16id2ptr_has : Option Block → ℕ → Bool
u16id2ptr_has i2p id = not (index_of i2p id == 0)

-- The outcome of an allocation.
abbrev pub stored : Option Block → Option Block → Reply
stored i2p none = reply no_memory i2p
stored i2p (some b) = reply success (some b)

-- What both `add` and `set` do with an identifier that is not there.
unfoldable pub add_new : Heap → Option Block → ℕ → ℕ → Reply
add_new heap i2p id ptr = stored i2p (add heap (flatof i2p) id ptr)

unfoldable pub u16id2ptr_add : Heap → Option Block → ℕ → ℕ → Reply
u16id2ptr_add heap i2p id ptr =
    if index_of i2p id == 0 then add_new heap i2p id ptr else reply exists i2p

unfoldable pub u16id2ptr_set : Heap → Option Block → ℕ → ℕ → Reply
u16id2ptr_set heap i2p id ptr =
    if index_of i2p id == 0
    then add_new heap i2p id ptr
    else reply success (set_ptr i2p (index_of i2p id) ptr)

unfoldable pub u16id2ptr_put : Option Block → ℕ → ℕ → Reply
u16id2ptr_put i2p id ptr =
    if index_of i2p id == 0
    then reply no_entry i2p
    else reply success (set_ptr i2p (index_of i2p id) ptr)

-- `none` is X_ENOENT.
unfoldable pub u16id2ptr_get : Option Block → ℕ → Option ℕ
u16id2ptr_get i2p id = if index_of i2p id == 0 then none else some (ptr_at i2p (index_of i2p id))

-- With the pointer that was dropped.
unfoldable pub u16id2ptr_drop : Option Block → ℕ → Reply × Option ℕ
u16id2ptr_drop i2p id =
    if index_of i2p id == 0
    then (reply no_entry i2p, none)
    else (stored i2p (drop_at (flatof i2p) (index_of i2p id)), some (ptr_at i2p (index_of i2p id)))

unfoldable pub u16id2ptr_count : Option Block → ℕ
u16id2ptr_count i2p = (flatof i2p).upper

-- For an index of 0 or more.
unfoldable pub u16id2ptr_at : Option Block → ℕ → Option (ℕ × ℕ)
u16id2ptr_at i2p index =
    if leb (flatof i2p).upper index
    then none
    else some (id_at i2p (index + 1), ptr_at i2p (index + 1))

-- The pairs that the callback is called with, in order.
unfoldable pub forall_from : Option Block → ℕ → List (ℕ × ℕ)
forall_from i2p zero = []
forall_from i2p (suc upper) =
    (id_at i2p (suc upper), ptr_at i2p (suc upper)) ∷ forall_from i2p upper

unfoldable pub u16id2ptr_forall : Option Block → List (ℕ × ℕ)
u16id2ptr_forall i2p = forall_from i2p (flatof i2p).upper
