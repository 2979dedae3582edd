-- ===== src/U16id/Deletion.antt =====
-- `u16id2ptr_drop` of src/sandbox/u16id.c: what it returns and what it leaves.
use mathlib.Core.Path.{subst}
use rp_lib_utils.Common.{
  ℕ, ◌≡◌, inl, inr, refl, ap, sym, ◌∙◌, arith, true, false, Bool-cases, Option, none, some, ◌==◌,
  ==_iff, if◌then◌else◌,
}
use rp_lib_utils.U16id.Memory.{Block}
use rp_lib_utils.U16id.Pointers.{
  success, no_entry, Reply, reply, stored, ptr_at, index_of, u16id2ptr_get, u16id2ptr_drop,
}
use rp_lib_utils.U16id.Lookup.{index_of-none, get_hit, get_miss}
use rp_lib_utils.U16id.Adding.{IsValid}
use rp_lib_utils.U16id.Update.{Updated}
use rp_lib_utils.U16id.Map.{nonzero}
use rp_lib_utils.U16id.Removal.{dropped, drop_at_lem, drop_at-Updated}

drop_present :
    (a : Block) (id : ℕ)
    → (index_of (some a) id == 0) ≡ false
    → u16id2ptr_drop (some a) id ≡ (
      reply success (some (dropped a (index_of (some a) id))),
      some (ptr_at (some a) (index_of (some a) id)),
    )
unfolding u16id2ptr_drop
drop_present a id t =
    (rw t refl)
    ∙ ap (λ o. (stored (some a) o, some (ptr_at (some a) (index_of (some a) id))))
        (drop_at_lem a (index_of (some a) id))

drop_absent :
    (m : Option Block) (id : ℕ)
    → (index_of m id == 0) ≡ true
    → u16id2ptr_drop m id ≡ (reply no_entry m, none)
unfolding u16id2ptr_drop
drop_absent m id t = rw t refl

-- What a reply of `u16id2ptr_drop` says.
abbrev Drops : Option Block → ℕ → Reply × Option ℕ → Type 0
Drops m id (r, dropped_ptr) =
    (dropped_ptr ≡ u16id2ptr_get m id)
    × (r.status ≡ elim (u16id2ptr_get m id) [ none ↦ no_entry | some v ↦ success ])
    × Updated m id none r.map

no_other :
    (m : Option Block) (id other : ℕ)
    → u16id2ptr_get m id ≡ none
    → u16id2ptr_get m other ≡ (if other == id then none else u16id2ptr_get m other)
no_other m id other e = elim (Bool-cases (other == id)) [
  | inl t ↦ rw t (ap (u16id2ptr_get m) ((==_iff other id).0 t) ∙ e)
  | inr t ↦ rw t refl
]

drop-Drops : (m : Option Block) (id : ℕ) → IsValid m → Drops m id (u16id2ptr_drop m id)
drop-Drops m id valid = elim (Bool-cases (index_of m id == 0)) [
  | inl t ↦
      let e = get_miss m id t in
      subst (Drops m id) (sym (drop_absent m id t)) (
        sym e,
        ap (λ o. elim o [ none ↦ no_entry | some v ↦ success ]) (sym e),
        (valid, λ other. no_other m id other e),
      )
  | inr t ↦ drop-Drops_present m id valid t
]
  where
    drop-Drops_present :
        (m : Option Block) (id : ℕ)
        → IsValid m
        → (index_of m id == 0) ≡ false
        → Drops m id (u16id2ptr_drop m id)
    drop-Drops_present none id v t = absurd (ground (arith, t, index_of-none id))
    drop-Drops_present (some a) id v t =
        let e = get_hit (some a) id t in
        subst (Drops (some a) id) (sym (drop_present a id t)) (
          sym e,
          ap (λ o. elim o [ none ↦ no_entry | some v ↦ success ]) (sym e),
          drop_at-Updated a id v (nonzero (index_of (some a) id) t),
        )

-- `u16id2ptr_drop` of a valid map returns the pointer that `u16id2ptr_get` gives and succeeds, or
-- returns none and reports X_ENOENT; what it leaves is a valid map without the identifier, with all
-- others as they were, also where the last entry takes the place of the dropped one and the block
-- is rearranged for the smaller capacity.
pub u16id2ptr_get-u16id2ptr_drop :
    (m : Option Block) (id : ℕ)
    → IsValid m
    → ((u16id2ptr_drop m id).1 ≡ u16id2ptr_get m id)
      × ((u16id2ptr_drop m id).0.status
          ≡ elim (u16id2ptr_get m id) [ none ↦ no_entry | some v ↦ success ])
      × Updated m id none (u16id2ptr_drop m id).0.map
u16id2ptr_get-u16id2ptr_drop m id valid = drop-Drops m id valid
