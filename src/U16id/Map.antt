-- ===== src/U16id/Map.antt =====
-- `u16id2ptr` of src/sandbox/u16id.c is a finite map: what each operation does to the pointers that
-- `u16id2ptr_get` gives.
use mathlib.Core.Path.{subst}
use rp_lib_utils.Common.{
  ℕ, ◌+◌, ◌^◌, ◌<◌, ◌≡◌, ◌≢◌, ◌⊎◌, inl, inr, refl, ap, sym, arith, true, false, Bool-cases,
  Option-cases, Option, none, some, ◌==◌, ==_iff,
}
use rp_lib_utils.U16id.Memory.{Block, Heap}
use rp_lib_utils.U16id.Block.{flatof, add}
use rp_lib_utils.U16id.Pointers.{
  success, exists, no_entry, no_memory, Reply, reply, stored, set_ptr, index_of, add_new,
  u16id2ptr_add, u16id2ptr_set, u16id2ptr_put, u16id2ptr_get, u16id2ptr_count,
}
use rp_lib_utils.U16id.Slots.{Words}
use rp_lib_utils.U16id.Lookup.{get_miss}
use rp_lib_utils.U16id.Adding.{IsValid}
use rp_lib_utils.U16id.Growing.{add-Added}
use rp_lib_utils.U16id.Update.{Updated, Added-Updated, set_ptr-Updated}

add_new-none :
    (heap : Heap) (m : Option Block) (id ptr : ℕ)
    → add heap (flatof m) id ptr ≡ none
    → add_new heap m id ptr ≡ reply no_memory m
unfolding add_new
add_new-none heap m id ptr e = ap (stored m) e

add_new-some :
    (heap : Heap) (m : Option Block) (id ptr : ℕ) (b : Block)
    → add heap (flatof m) id ptr ≡ some b
    → add_new heap m id ptr ≡ reply success (some b)
unfolding add_new
add_new-some heap m id ptr b e = ap (stored m) e

set_absent :
    (heap : Heap) (m : Option Block) (id ptr : ℕ)
    → (index_of m id == 0) ≡ true
    → u16id2ptr_set heap m id ptr ≡ add_new heap m id ptr
unfolding u16id2ptr_set
set_absent heap m id ptr t = rw t refl

add_absent :
    (heap : Heap) (m : Option Block) (id ptr : ℕ)
    → (index_of m id == 0) ≡ true
    → u16id2ptr_add heap m id ptr ≡ add_new heap m id ptr
unfolding u16id2ptr_add
add_absent heap m id ptr t = rw t refl

add_present :
    (heap : Heap) (m : Option Block) (id ptr : ℕ)
    → (index_of m id == 0) ≡ false
    → u16id2ptr_add heap m id ptr ≡ reply exists m
unfolding u16id2ptr_add
add_present heap m id ptr t = rw t refl

set_present :
    (heap : Heap) (m : Option Block) (id ptr : ℕ)
    → (index_of m id == 0) ≡ false
    → u16id2ptr_set heap m id ptr ≡ reply success (set_ptr m (index_of m id) ptr)
unfolding u16id2ptr_set
set_present heap m id ptr t = rw t refl

-- What a reply says of the map, if it is a success.
abbrev pub Succeeds : Option Block → ℕ → Option ℕ → Reply → Type 0
Succeeds m id o r = r.status ≡ success → Updated m id o r.map

pub nonzero : (n : ℕ) → (n == 0) ≡ false → n ≢ 0
nonzero n t e = ground (arith, t, e)

module _ (heap : Heap) (m : Option Block) (id ptr : ℕ) (valid : IsValid m)
    (fresh : Words heap.fresh) (few : u16id2ptr_count m + 1 < 2 ^ 16) (small : id < 2 ^ 16)
    (pointer : ptr < 2 ^ 64) where
  add_new-Succeeds : (index_of m id == 0) ≡ true → Succeeds m id (some ptr) (add_new heap m id ptr)
  add_new-Succeeds t = elim (Option-cases (add heap (flatof m) id ptr)) [
    | inl e ↦
        subst (Succeeds m id (some ptr)) (sym (add_new-none heap m id ptr e)) (λ h. absurd (cc))
    | inr (b, e) ↦ subst (Succeeds m id (some ptr)) (sym (add_new-some heap m id ptr b e)) (λ h.
        Added-Updated m id ptr b valid ((==_iff (index_of m id) 0).0 t)
          (add-Added heap m id ptr b valid fresh few small pointer e))
  ]

  present : (index_of m id == 0) ≡ false → Updated m id (some ptr) (set_ptr m (index_of m id) ptr)
  present t = set_ptr-Updated m id ptr valid (nonzero (index_of m id) t) pointer

  set_lem : Succeeds m id (some ptr) (u16id2ptr_set heap m id ptr)
  set_lem = elim (Bool-cases (index_of m id == 0)) [
    | inl t ↦
        subst (Succeeds m id (some ptr)) (sym (set_absent heap m id ptr t)) (add_new-Succeeds t)
    | inr t ↦ subst (Succeeds m id (some ptr)) (sym (set_present heap m id ptr t)) (λ h. present t)
  ]

  -- A successful `u16id2ptr_set` leaves a valid map that gives the pointer for the identifier, and
  -- for all others what was given before, whether the entry is new, the block grows or neither.
  -- (The map is valid and has fewer than 65535 identifiers; identifiers and what `realloc` leaves in
  -- new cells have 16 bits, the pointer 64.)
  pub u16id2ptr_get-u16id2ptr_set :
      (u16id2ptr_set heap m id ptr).status ≡ success
      → Updated m id (some ptr) (u16id2ptr_set heap m id ptr).map
  u16id2ptr_get-u16id2ptr_set h = set_lem h

  -- If `u16id2ptr_add` succeeds, the map had no pointer for the identifier, and what it leaves is a
  -- valid map that gives the new pointer for it and for all others what was given before. (The map
  -- is valid and has fewer than 65535 identifiers; identifiers and what `realloc` leaves in new
  -- cells have 16 bits, the pointer 64.)
  pub u16id2ptr_get-u16id2ptr_add :
      (u16id2ptr_add heap m id ptr).status ≡ success
      → (u16id2ptr_get m id ≡ none) × Updated m id (some ptr) (u16id2ptr_add heap m id ptr).map
  u16id2ptr_get-u16id2ptr_add = elim (Bool-cases (index_of m id == 0)) [
    | inl t ↦
        subst
          (λ r. r.status ≡ success → (u16id2ptr_get m id ≡ none) × Updated m id (some ptr) r.map)
          (sym (add_absent heap m id ptr t)) (λ h. (get_miss m id t, add_new-Succeeds t h))
    | inr t ↦
        subst
          (λ r. r.status ≡ success → (u16id2ptr_get m id ≡ none) × Updated m id (some ptr) r.map)
          (sym (add_present heap m id ptr t)) (λ h. absurd (cc))
  ]

put_absent :
    (m : Option Block) (id ptr : ℕ)
    → (index_of m id == 0) ≡ true
    → u16id2ptr_put m id ptr ≡ reply no_entry m
unfolding u16id2ptr_put
put_absent m id ptr t = rw t refl

-- What the three writing operations leave of a map when they fail.
abbrev Untouched : Option Block → Reply → Type 0
Untouched m r = (r.status ≡ success) ⊎ (r.map ≡ m)

add_new-Untouched :
    (heap : Heap) (m : Option Block) (id ptr : ℕ) → Untouched m (add_new heap m id ptr)
add_new-Untouched heap m id ptr = elim (Option-cases (add heap (flatof m) id ptr)) [
  | inl e ↦ subst (Untouched m) (sym (add_new-none heap m id ptr e)) (inr refl)
  | inr (b, e) ↦ subst (Untouched m) (sym (add_new-some heap m id ptr b e)) (inl refl)
]

set-Untouched :
    (heap : Heap) (m : Option Block) (id ptr : ℕ) → Untouched m (u16id2ptr_set heap m id ptr)
set-Untouched heap m id ptr = elim (Bool-cases (index_of m id == 0)) [
  | inl t ↦ subst (Untouched m) (sym (set_absent heap m id ptr t)) (add_new-Untouched heap m id ptr)
  | inr t ↦ subst (Untouched m) (sym (set_present heap m id ptr t)) (inl refl)
]

add-Untouched :
    (heap : Heap) (m : Option Block) (id ptr : ℕ) → Untouched m (u16id2ptr_add heap m id ptr)
add-Untouched heap m id ptr = elim (Bool-cases (index_of m id == 0)) [
  | inl t ↦ subst (Untouched m) (sym (add_absent heap m id ptr t)) (add_new-Untouched heap m id ptr)
  | inr t ↦ subst (Untouched m) (sym (add_present heap m id ptr t)) (inr refl)
]

-- Where `u16id2ptr_add` or `u16id2ptr_set` does not succeed, the map is the one that was given:
-- no identifier or pointer is lost when memory is short or the identifier is already there.
pub u16id2ptr_add-unchanged :
    (heap : Heap) (m : Option Block) (id ptr : ℕ)
    → (((u16id2ptr_add heap m id ptr).status ≡ success) ⊎ ((u16id2ptr_add heap m id ptr).map ≡ m))
      × (((u16id2ptr_set heap m id ptr).status ≡ success) ⊎ ((u16id2ptr_set heap m id ptr).map ≡ m))
u16id2ptr_add-unchanged heap m id ptr = (add-Untouched heap m id ptr, set-Untouched heap m id ptr)
