-- ===== src/U16id/Removal.antt =====
-- `drop` of src/sandbox/u16id.c removes one identifier from the map.
use mathlib.Core.Path.{subst}
use rp_lib_utils.Common.{
  ℕ, ◌-◌, ◌<◌, ◌≤◌, ◌≡◌, ◌≢◌, inl, inr, refl, ap, sym, ◌∙◌, arith, Bool-cases, none, some, ◌==◌,
  ==_iff,
}
use rp_lib_utils.U16id.Memory.{load, Block}
use rp_lib_utils.U16id.Block.{
  flatof, flatofup, get_capacity, slot, size, with_cells, drop_cells, drop_at,
}
use rp_lib_utils.U16id.Pointers.{ptr_at, index_of}
use rp_lib_utils.U16id.Lookup.{InRange, count_some, index_of_hit, Entry, get-no-Entry}
use rp_lib_utils.U16id.Adding.{get_capacity_lem, IsValidBlock, ptr_at-some}
use rp_lib_utils.U16id.Update.{Updated, Updated-of}
use rp_lib_utils.U16id.Dropping.{
  source, capacity, result, smaller, result-load, result-Words, result_count, result_id,
}

-- The block with `drop` at an index.
unfoldable pub dropped : Block → ℕ → Block
dropped a index = with_cells a (drop_cells a.cell (get_capacity (a.cell 0)) (a.cell 0) index)

pub drop_at_lem : (a : Block) (index : ℕ) → drop_at (flatof (some a)) index ≡ some (dropped a index)
unfolding drop_at flatof flatofup dropped
drop_at_lem a index = refl

module _ (a : Block) (index : ℕ) (valid : IsValidBlock a) (range : InRange (some a) index) where
  high : index ≤ a.cell 0
  high = omega (arith, range.1, count_some a)

  b : Block
  b = dropped a index

  count_cell : b.cell 0 ≡ a.cell 0 - 1
  unfolding b dropped
  count_cell =
      unfold result capacity in result_count a.cell (a.cell 0) index valid.words range.0 high

  before : (j : ℕ) → InRange (some b) j → j < a.cell 0
  before j r = omega (arith, r.0, r.1, count_some b, count_cell)

  id_of : (j : ℕ) → InRange (some b) j → b.cell j ≡ a.cell (source (a.cell 0) index j)
  unfolding b dropped
  id_of j r =
      unfold result capacity in
      result_id a.cell (a.cell 0) index valid.words range.0 high j r.0 (before j r)

  ptr_of :
      (j : ℕ) → InRange (some b) j → ptr_at (some b) j ≡ ptr_at (some a) (source (a.cell 0) index j)
  unfolding b dropped result capacity smaller
  ptr_of j r =
      ptr_at-some b j
      ∙ ap (λ n. load b.cell (slot (get_capacity n) j)) count_cell
      ∙ result-load a.cell (a.cell 0) index valid.words range.0 high j (valid.words 0) r.0
          (before j r)
      ∙ sym (ptr_at-some a (source (a.cell 0) index j))

  source_range : (j : ℕ) → InRange (some b) j → InRange (some a) (source (a.cell 0) index j)
  source_range j r = ground (arith, r.0, before j r, count_some a)

  source_ne : (j : ℕ) → InRange (some b) j → source (a.cell 0) index j ≢ index
  source_ne j r e = ground (arith, before j r, e)

  source_injective :
      (j k : ℕ)
      → InRange (some b) j
      → InRange (some b) k
      → source (a.cell 0) index j ≡ source (a.cell 0) index k
      → j ≡ k
  source_injective j k r s e = ground (arith, before j r, before k s, e)

  dropped-IsValid : IsValidBlock b
  unfolding b dropped result capacity
  dropped-IsValid = record {
    words = result-Words a.cell (a.cell 0) index valid.words range.0 high (valid.words 0);
    room =
        subst (λ n. size (get_capacity n) ≤ a.size) (sym count_cell)
          (omega (arith, valid.room, get_capacity_lem (a.cell 0), get_capacity_lem (a.cell 0 - 1)));
    distinct = λ j k r s e. source_injective j k r s (
        valid.distinct (source (a.cell 0) index j) (source (a.cell 0) index k) (source_range j r)
          (source_range k s) (sym (id_of j r) ∙ e ∙ id_of k s));
  }

  -- The entry at an index other than the dropped one is still there.
  place_of :
      (i : ℕ)
      → InRange (some a) i
      → i ≢ index
      → (j : ℕ) × InRange (some b) j × (source (a.cell 0) index j ≡ i)
  place_of i r h = elim (Bool-cases (i == a.cell 0)) [
    | inl t ↦
        let e : i ≡ a.cell 0 = (==_iff i (a.cell 0)).0 t in
        (index, (range.0, ground (arith, high, h, e, count_some b, count_cell)), ground (arith, e))
    | inr t ↦ (
      i,
      (r.0, ground (arith, t, r.1, count_some a, count_some b, count_cell)),
      ground (arith, h),
    )
  ]

  dropped-Updated : (id : ℕ) → a.cell index ≡ id → Updated (some a) id none (some b)
  dropped-Updated id e =
      Updated-of (some a) (some b) id none valid dropped-IsValid
        (get-no-Entry (some b) id (λ j r q. source_ne j r (
          valid.distinct (source (a.cell 0) index j) index (source_range j r) range
            (sym (id_of j r) ∙ q ∙ sym e))))
        to from
    where
      to : (other v : ℕ) → other ≢ id → Entry (some b) other v → Entry (some a) other v
      to other v h (j, r, x, q) =
          (source (a.cell 0) index j, source_range j r, sym (id_of j r) ∙ x, sym (ptr_of j r) ∙ q)

      from : (other v : ℕ) → other ≢ id → Entry (some a) other v → Entry (some b) other v
      from other v h (i, r, x, q) =
          let (j, s, w) = place_of i r (λ u. h (sym x ∙ ap a.cell u ∙ e)) in
          (j, s, id_of j s ∙ ap a.cell w ∙ x, ptr_of j s ∙ ap (ptr_at (some a)) w ∙ q)

-- `drop` at the index that was found for an identifier removes it, and nothing else.
pub drop_at-Updated :
    (a : Block) (id : ℕ)
    → IsValidBlock a
    → index_of (some a) id ≢ 0
    → Updated (some a) id none (some (dropped a (index_of (some a) id)))
drop_at-Updated a id v h =
    let (r, e) = index_of_hit (some a) id h in
    unfold b in dropped-Updated a (index_of (some a) id) v r id e
