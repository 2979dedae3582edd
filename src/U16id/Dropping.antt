-- ===== src/U16id/Dropping.antt =====
-- What `drop` of src/sandbox/u16id.c does to the entries: the last one takes the place of the
-- dropped one.
use mathlib.Core.Path.{subst}
use rp_lib_utils.Common.{
  ℕ, ◌+◌, ◌-◌, ◌^◌, ◌<◌, ◌≤◌, ◌≡◌, ◌≢◌, inl, inr, refl, ap, sym, ◌∙◌, arith, true, false,
  Bool-cases, ◌==◌, ==_iff, if◌then◌else◌,
}
use rp_lib_utils.U16id.Memory.{Cells, put_cell, load, store}
use rp_lib_utils.U16id.Block.{get_capacity, slot, move_down, fill_gap, drop_cells}
use rp_lib_utils.U16id.Slots.{
  Words, load_lt, put_cell_self, put_cell_off, store_off, load-store, load-store_off,
  load-put_cell_off, put_cell-Words, store-Words,
}
use rp_lib_utils.U16id.Moves.{move_down-Words, move_down_below, move_down_moves}
use rp_lib_utils.U16id.Adding.{get_capacity_lem}
use rp_lib_utils.U16id.Update.{slots_apart}

-- Where the entry at an index comes from.
abbrev pub source : ℕ → ℕ → ℕ → ℕ
source upper index j = if j == index then upper else j

module _ (cell : Cells) (upper index : ℕ) (words : Words cell) (low : 0 < index)
    (high : index ≤ upper) where
  unfoldable pub capacity : ℕ
  capacity = get_capacity upper

  fits : upper ≤ capacity
  unfolding capacity
  fits = omega (arith, get_capacity_lem upper)

  put : Cells
  put = put_cell cell index (cell upper)

  gap : Cells
  gap = store put (slot capacity index) (load put (slot capacity upper))

  put-load : (j : ℕ) → load put (slot capacity j) ≡ load cell (slot capacity j)
  unfolding put
  put-load j =
      load-put_cell_off cell index (cell upper) (slot capacity j) (inl (omega (arith, high, fits)))

  put-Words : Words put
  unfolding put
  put-Words = put_cell-Words cell index (cell upper) words (words upper)

  gap_id : (j : ℕ) → j ≤ upper → gap j ≡ cell (source upper index j)
  unfolding gap put
  gap_id j h =
      store_off put (slot capacity index) (load put (slot capacity upper)) j
        (inl (omega (arith, h, fits)))
      ∙ elim (Bool-cases (j == index)) [
        | inl t ↦ rw t (ap put ((==_iff j index).0 t) ∙ put_cell_self cell index (cell upper))
        | inr t ↦ rw t (put_cell_off cell index (cell upper) j (λ e. ground (arith, t, e)))
      ]

  gap-load :
      (j : ℕ)
      → 0 < j
      → load gap (slot capacity j) ≡ load cell (slot capacity (source upper index j))
  unfolding gap
  gap-load j p = elim (Bool-cases (j == index)) [
    | inl t ↦ rw t (
        ap (λ i. load gap (slot capacity i)) ((==_iff j index).0 t)
        ∙ load-store put (slot capacity index) (load put (slot capacity upper))
            (load_lt put (slot capacity upper) put-Words)
        ∙ put-load upper)
    | inr t ↦ rw t (
        load-store_off put (slot capacity index) (load put (slot capacity upper)) (slot capacity j)
          (slots_apart capacity index j low p (λ e. ground (arith, t, e)))
        ∙ put-load j)
  ]

  gap-Words : Words gap
  unfolding gap
  gap-Words = store-Words put (slot capacity index) (load put (slot capacity upper)) put-Words

  filled : Cells
  filled = fill_gap cell capacity upper index

  filled-gap : (index == upper) ≡ false → filled ≡ gap
  unfolding filled fill_gap gap put
  filled-gap t = rw t refl

  filled_last : (index == upper) ≡ true → filled ≡ cell
  unfolding filled fill_gap
  filled_last t = rw t refl

  filled_id : (j : ℕ) → j < upper → filled j ≡ cell (source upper index j)
  filled_id j h = elim (Bool-cases (index == upper)) [
    | inl t ↦ ap (λ c. c j) (filled_last t) ∙ ap cell (ground (arith, t, h))
    | inr t ↦ ap (λ c. c j) (filled-gap t) ∙ gap_id j (omega (arith, h))
  ]

  filled-load :
      (j : ℕ)
      → 0 < j
      → j < upper
      → load filled (slot capacity j) ≡ load cell (slot capacity (source upper index j))
  filled-load j p h = elim (Bool-cases (index == upper)) [
    | inl t ↦
        ap (λ c. load c (slot capacity j)) (filled_last t)
        ∙ ap (λ i. load cell (slot capacity i)) (same t)
    | inr t ↦ ap (λ c. load c (slot capacity j)) (filled-gap t) ∙ gap-load j p
  ]
    where
      same : (index == upper) ≡ true → j ≡ source upper index j
      same t = ground (arith, t, h)

  filled-Words : Words filled
  filled-Words = elim (Bool-cases (index == upper)) [
    | inl t ↦ subst Words (sym (filled_last t)) words
    | inr t ↦ subst Words (sym (filled-gap t)) gap-Words
  ]

  counted : Cells
  counted = put_cell filled 0 (upper - 1)

  unfoldable pub result : Cells
  result = drop_cells cell capacity upper index

  unfoldable pub smaller : ℕ
  smaller = get_capacity (upper - 1)

  smaller_le : smaller ≤ capacity
  unfolding smaller capacity
  smaller_le = omega (arith, get_capacity_lem upper, get_capacity_lem (upper - 1))

  holds_all : upper - 1 ≤ smaller
  unfolding smaller
  holds_all = omega (arith, get_capacity_lem (upper - 1))

  shrunk : (smaller == capacity) ≡ false → capacity ≡ smaller + 4
  unfolding smaller capacity
  shrunk t = differ (λ e. ground (arith, t, e))
    where
      differ :
          get_capacity (upper - 1) ≢ get_capacity upper
          → get_capacity upper ≡ get_capacity (upper - 1) + 4
      differ n = ground (arith, n, get_capacity_lem upper, get_capacity_lem (upper - 1), low, high)

  result_same : (smaller == capacity) ≡ true → result ≡ counted
  unfolding result drop_cells counted filled smaller
  result_same t = rw t refl

  result_moved :
      (smaller == capacity) ≡ false → result ≡ move_down counted smaller capacity (upper - 1) 1
  unfolding result drop_cells counted filled smaller
  result_moved t = rw t refl

  counted_id : (j : ℕ) → 0 < j → counted j ≡ filled j
  unfolding counted
  counted_id j p = put_cell_off filled 0 (upper - 1) j (λ e. omega (arith, p, e))

  counted_load : (j : ℕ) → load counted (slot capacity j) ≡ load filled (slot capacity j)
  unfolding counted
  counted_load j = load-put_cell_off filled 0 (upper - 1) (slot capacity j) (inl (omega arith))

  counted-Words : upper < 2 ^ 16 → Words counted
  unfolding counted
  counted-Words h = put_cell-Words filled 0 (upper - 1) filled-Words (omega (arith, h))

  result_low : (p : ℕ) → p ≤ smaller → result p ≡ counted p
  result_low p h = elim (Bool-cases (smaller == capacity)) [
    | inl t ↦ ap (λ c. c p) (result_same t)
    | inr t ↦
        ap (λ c. c p) (result_moved t)
        ∙ move_down_below smaller capacity (shrunk t) (upper - 1) 1 counted p h
  ]

  pub result-load :
      (j : ℕ)
      → upper < 2 ^ 16
      → 0 < j
      → j < upper
      → load result (slot smaller j) ≡ load cell (slot capacity (source upper index j))
  result-load j few p h = moved ∙ counted_load j ∙ filled-load j p h
    where
      moved : load result (slot smaller j) ≡ load counted (slot capacity j)
      moved = elim (Bool-cases (smaller == capacity)) [
        | inl t ↦
            ap (λ c. load c (slot smaller j)) (result_same t)
            ∙ ap (λ n. load counted (slot n j)) ((==_iff smaller capacity).0 t)
        | inr t ↦
            ap (λ c. load c (slot smaller j)) (result_moved t)
            ∙ move_down_moves smaller capacity (shrunk t) (upper - 1) 1 counted j
                (counted-Words few) (omega arith) (omega (arith, p)) (omega (arith, h))
      ]

  pub result-Words : upper < 2 ^ 16 → Words result
  result-Words h = elim (Bool-cases (smaller == capacity)) [
    | inl t ↦ subst Words (sym (result_same t)) (counted-Words h)
    | inr t ↦
        subst Words (sym (result_moved t))
          (move_down-Words smaller capacity (shrunk t) (upper - 1) 1 counted (counted-Words h))
  ]

  pub result_count : result 0 ≡ upper - 1
  unfolding counted
  result_count = result_low 0 (omega arith) ∙ put_cell_self filled 0 (upper - 1)

  pub result_id : (j : ℕ) → 0 < j → j < upper → result j ≡ cell (source upper index j)
  result_id j p h = result_low j (omega (arith, h, holds_all)) ∙ counted_id j p ∙ filled_id j h
