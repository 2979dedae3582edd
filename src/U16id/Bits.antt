-- ===== src/U16id/Bits.antt =====
-- The operations of `u16id2bool` in src/sandbox/u16id.c: a pointer is a field of 64 bits.
use rp_lib_utils.Common.{
  ℕ, ◌-◌, ◌^◌, bit_and, bit_or, Bool, true, false, not, Option, none, some, ◌==◌, if◌then◌else◌,
}
use rp_lib_utils.U16id.Memory.{Block, Heap}
use rp_lib_utils.U16id.Block.{flatof, add, drop_at, dropall, destroy, create}
use rp_lib_utils.U16id.Pointers.{
  success, no_memory, Reply, reply, stored, index_of, ptr_at, set_ptr,
}

-- `id & ~(P - 1)`
abbrev pub group_of : ℕ → ℕ
group_of id = bit_and id (2 ^ 16 - 1 - 63)

-- `1 << (id & (P - 1))`
abbrev pub mask_of : ℕ → ℕ
mask_of id = 2 ^ bit_and id 63

pub u16id2bool_create : Heap → Reply
u16id2bool_create heap = elim (create heap) [
  | none ↦ reply no_memory none
  | some b ↦ reply success (some b)
]

pub u16id2bool_destroy : Option Block → Option Block
u16id2bool_destroy i2b = destroy i2b

unfoldable pub u16id2bool_clearall : Option Block → Option Block
u16id2bool_clearall i2b = dropall i2b

-- The field of the identifier's group, 0 if there is none.
unfoldable pub field_of : Option Block → ℕ → ℕ
field_of i2b id =
    if index_of i2b (group_of id) == 0 then 0 else ptr_at i2b (index_of i2b (group_of id))

unfoldable pub u16id2bool_get : Option Block → ℕ → Bool
u16id2bool_get i2b id = not (bit_and (field_of i2b id) (mask_of id) == 0)

abbrev pub new_field : ℕ → ℕ → Bool → ℕ
new_field ofield mask true = bit_or ofield mask
new_field ofield mask false = bit_and ofield (2 ^ 64 - 1 - mask)

-- The part of `u16id2bool_set` for a field that changes.
unfoldable pub change_field : Heap → Option Block → ℕ → ℕ → Reply
change_field heap i2b id field =
    let index = index_of i2b (group_of id) in
    if not (field == 0)
    then (if not (index == 0)
        then reply success (set_ptr i2b index field)
        else stored i2b (add heap (flatof i2b) (group_of id) field))
    else if not (index == 0)
    then stored i2b (drop_at (flatof i2b) index)
    else reply success i2b

-- The reply, and the returned old value behind a success.
unfoldable pub u16id2bool_set : Heap → Option Block → ℕ → Bool → Reply × Bool
u16id2bool_set heap i2b id value =
    let ofield = field_of i2b id in
    let field = new_field ofield (mask_of id) value in
    (
      (if not (field == ofield) then change_field heap i2b id field else reply success i2b),
      not (bit_and ofield (mask_of id) == 0),
    )
