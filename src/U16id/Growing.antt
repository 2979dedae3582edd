-- ===== src/U16id/Growing.antt =====
-- `add` of src/sandbox/u16id.c keeps the entries, whether the block grows or not.
use mathlib.Core.Path.{subst}
use mathlib.Core.Option.{some-injective}
use rp_lib_utils.Common.{
  ℕ, ◌+◌, ◌%◌, ◌^◌, ◌<◌, ◌≤◌, ◌≡◌, inl, inr, refl, ap, sym, ◌∙◌, arith, true, false, Bool-cases,
  Option, none, some, ltb,
}
use rp_lib_utils.U16id.Memory.{Cells, load, Block, Heap, realloc}
use rp_lib_utils.U16id.Block.{
  flatof, flatofup, get_capacity, slot, size, move_up, add_grown, add_in_place, add,
}
use rp_lib_utils.U16id.Pointers.{u16id2ptr_count}
use rp_lib_utils.U16id.Slots.{Words, load_same}
use rp_lib_utils.U16id.Moves.{move_up-Words, move_up_below, move_up_moves}
use rp_lib_utils.U16id.Lookup.{count_none, count_some}
use rp_lib_utils.U16id.Adding.{
  get_capacity_lem, IsValidBlock, IsValid, ptr_at-some, Added, Prepared, written, written-Added,
  regrown, in_place_lem, grown_lem, first_lem,
}

Prepared-in_place :
    (a : Block)
    → IsValidBlock a
    → a.cell 0 + 1 ≤ get_capacity (a.cell 0)
    → Prepared (some a) a.cell (get_capacity (u16id2ptr_count (some a) + 1))
Prepared-in_place a v h =
    (v.words, λ i r. (refl, ap (λ c. load a.cell (slot c i)) same ∙ sym (ptr_at-some a i)))
  where
    same : get_capacity (u16id2ptr_count (some a) + 1) ≡ get_capacity (a.cell 0)
    same = omega (
      arith,
      h,
      count_some a,
      get_capacity_lem (a.cell 0),
      get_capacity_lem (u16id2ptr_count (some a) + 1),
    )

regrown-Words :
    (heap : Heap) (a : Block) (s : ℕ) → Words heap.fresh → Words a.cell → Words (regrown heap a s)
unfolding regrown
regrown-Words heap a s w v p = ground (arith, w p, v p)

regrown_kept :
    (heap : Heap) (a : Block) (s p : ℕ) → p < a.size → p < s → regrown heap a s p ≡ a.cell p
unfolding regrown
regrown_kept heap a s p h k = ground (arith, h, k)

module _ (heap : Heap) (a : Block) (v : IsValidBlock a)
    (full : get_capacity (a.cell 0) < a.cell 0 + 1) where
  old : ℕ
  old = get_capacity (a.cell 0)

  new : ℕ
  new = get_capacity (a.cell 0 + 1)

  grown_by_4 : new ≡ old + 4
  unfolding new old
  grown_by_4 = omega (arith, full, get_capacity_lem (a.cell 0), get_capacity_lem (a.cell 0 + 1))

  all_used : a.cell 0 ≡ old
  unfolding old
  all_used = omega (arith, full, get_capacity_lem (a.cell 0))

  kept_load :
      (i : ℕ)
      → 0 < i
      → i ≤ old
      → load (regrown heap a (size new)) (slot old i) ≡ load a.cell (slot old i)
  unfolding old
  kept_load i z h = load_same (regrown heap a (size new)) a.cell (slot old i) (λ p g k.
      regrown_kept heap a (size new) p (omega (arith, k, h, z, v.room))
        (omega (arith, k, h, z, grown_by_4)))

  Prepared-grown :
      Words heap.fresh
      → Prepared
          (some a)
          (move_up (regrown heap a (size new)) new old (a.cell 0))
          (get_capacity (u16id2ptr_count (some a) + 1))
  unfolding old new
  Prepared-grown w = (
    move_up-Words new old grown_by_4 (a.cell 0) (regrown heap a (size new))
        (regrown-Words heap a (size new) w v.words),
    λ i r. (
      move_up_below new old grown_by_4 (a.cell 0) (regrown heap a (size new)) i
            (omega (arith, r.1, count_some a, all_used, grown_by_4))
          ∙ regrown_kept heap a (size new) i (omega (arith, r.1, count_some a, all_used, v.room))
              (omega (arith, r.1, count_some a, all_used, grown_by_4)),
      ap
            (λ n.
              load (move_up (regrown heap a (size new)) new old (a.cell 0))
                (slot (get_capacity (n + 1)) i))
            (count_some a)
          ∙ move_up_moves new old grown_by_4 (a.cell 0) (regrown heap a (size new)) i
              (regrown-Words heap a (size new) w v.words) r.0 (omega (arith, r.1, count_some a))
          ∙ kept_load i r.0 (omega (arith, r.1, count_some a, all_used))
          ∙ sym (ptr_at-some a i),
    ),
  )

place_of :
    (heap : Heap) (m : Option Block) (id ptr : ℕ)
    → ltb (flatof m).capacity (((flatof m).upper + 1) % 2 ^ 16) ≡ false
    → add heap (flatof m) id ptr ≡ add_in_place (flatof m) id ptr
unfolding add
place_of heap m id ptr t = rw t refl

grown_of :
    (heap : Heap) (m : Option Block) (id ptr : ℕ)
    → ltb (flatof m).capacity (((flatof m).upper + 1) % 2 ^ 16) ≡ true
    → add heap (flatof m) id ptr ≡ add_grown heap (flatof m) id ptr
unfolding add
grown_of heap m id ptr t = rw t refl

no_room :
    (heap : Heap) (m : Option Block) (id ptr : ℕ)
    → heap.has_room ≡ false
    → add_grown heap (flatof m) id ptr ≡ none
no_room heap none id ptr h = unfold add_grown flatof realloc in rw h refl
no_room heap (some a) id ptr h = unfold add_grown flatof flatofup realloc in rw h refl

found_block :
    {m : Option Block} {id ptr : ℕ} {o : Option Block} (b c : Block)
    → o ≡ some b
    → o ≡ some c
    → Added m id ptr c
    → Added m id ptr b
found_block {m} {id} {ptr} b c e f h = subst (Added m id ptr) (some-injective c b (sym f ∙ e)) h

module _ (heap : Heap) (id ptr : ℕ) (fresh : Words heap.fresh) (small : id < 2 ^ 16)
    (pointer : ptr < 2 ^ 64) where
  add_first : (b : Block) → add heap (flatof none) id ptr ≡ some b → Added none id ptr b
  add_first b e = elim (Bool-cases heap.has_room) [
    | inl r ↦
        found_block b _ e
          (grown_of heap none id ptr (unfold flatof in refl) ∙ first_lem heap id ptr r)
          (written-Added none id ptr (omega (arith, count_none)) small pointer heap.fresh
            (size (get_capacity 1)) (fresh, λ i k. absurd (omega (arith, k.0, k.1, count_none)))
            (subst (λ n. size (get_capacity (n + 1)) ≤ size (get_capacity 1)) (sym count_none)
              (omega arith)))
    | inr r ↦ absurd (
        ground (
          arith,
          sym e ∙ grown_of heap none id ptr (unfold flatof in refl) ∙ no_room heap none id ptr r,
        ))
  ]

  add_more :
      (a b : Block)
      → IsValidBlock a
      → a.cell 0 + 1 < 2 ^ 16
      → add heap (flatof (some a)) id ptr ≡ some b
      → Added (some a) id ptr b
  add_more a b v few e =
      elim (Bool-cases (ltb (get_capacity (a.cell 0)) ((a.cell 0 + 1) % 2 ^ 16))) [
        | inl t ↦ grown (ground (arith, t, few)) t
        | inr t ↦ stays (ground (arith, t, few)) t
      ]
    where
      few' : u16id2ptr_count (some a) + 1 < 2 ^ 16
      few' = omega (arith, few, count_some a)

      stays :
          a.cell 0 + 1 ≤ get_capacity (a.cell 0)
          → ltb (get_capacity (a.cell 0)) ((a.cell 0 + 1) % 2 ^ 16) ≡ false
          → Added (some a) id ptr b
      stays h t =
          found_block b (written (some a) id ptr a.cell a.size) e
            (place_of heap (some a) id ptr (unfold flatof flatofup in t)
              ∙ in_place_lem a id ptr few h)
            (written-Added (some a) id ptr few' small pointer a.cell a.size
              (Prepared-in_place a v h)
              (omega (
                arith,
                v.room,
                h,
                count_some a,
                get_capacity_lem (a.cell 0),
                get_capacity_lem (u16id2ptr_count (some a) + 1),
              )))

      cells : Cells
      cells =
          move_up (regrown heap a (size (get_capacity (a.cell 0 + 1))))
            (get_capacity (a.cell 0 + 1)) (get_capacity (a.cell 0)) (a.cell 0)

      grown :
          get_capacity (a.cell 0) < a.cell 0 + 1
          → ltb (get_capacity (a.cell 0)) ((a.cell 0 + 1) % 2 ^ 16) ≡ true
          → Added (some a) id ptr b
      grown h t = elim (Bool-cases heap.has_room) [
        | inl r ↦
            found_block b (written (some a) id ptr cells (size (get_capacity (a.cell 0 + 1)))) e
              (grown_of heap (some a) id ptr (unfold flatof flatofup in t)
                ∙ grown_lem heap a id ptr few r)
              (written-Added (some a) id ptr few' small pointer cells
                (size (get_capacity (a.cell 0 + 1)))
                (unfold old new in Prepared-grown heap a v h fresh)
                (omega (
                  arith,
                  get_capacity_lem (a.cell 0 + 1),
                  count_some a,
                  get_capacity_lem (u16id2ptr_count (some a) + 1),
                )))
        | inr r ↦ absurd (
            ground (
              arith,
              sym e
                  ∙ grown_of heap (some a) id ptr (unfold flatof flatofup in t)
                  ∙ no_room heap (some a) id ptr r,
            ))
      ]

-- A successful `add` keeps all entries, puts the new one behind them, and has room for them.
pub add-Added :
    (heap : Heap) (m : Option Block) (id ptr : ℕ) (b : Block)
    → IsValid m
    → Words heap.fresh
    → u16id2ptr_count m + 1 < 2 ^ 16
    → id < 2 ^ 16
    → ptr < 2 ^ 64
    → add heap (flatof m) id ptr ≡ some b
    → Added m id ptr b
add-Added heap none id ptr b v w few small pointer e = add_first heap id ptr w small pointer b e
add-Added heap (some a) id ptr b v w few small pointer e =
    add_more heap id ptr w small pointer a b v (omega (arith, few, count_some a)) e
