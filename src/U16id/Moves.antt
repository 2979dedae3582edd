-- ===== src/U16id/Moves.antt =====
-- The loops of src/sandbox/u16id.c that move the pointers when the capacity changes by one grain.
use rp_lib_utils.Common.{
  ℕ, zero, suc, ◌+◌, ◌<◌, ◌≤◌, ◌≡◌, inl, inr, refl, ap, sym, ◌∙◌, arith, Bool-cases, false, ◌==◌,
  ==_iff,
}
use rp_lib_utils.U16id.Memory.{Cells, load, store}
use rp_lib_utils.U16id.Block.{slot, move_up, move_down}
use rp_lib_utils.U16id.Slots.{Words, load_lt, load-store, load-store_off, store_off, store-Words}

module _ (new old : ℕ) (grown : new ≡ old + 4) where
  pub move_up-Words : (k : ℕ) (cell : Cells) → Words cell → Words (move_up cell new old k)
  unfolding move_up
  move_up-Words zero cell w = w
  move_up-Words (suc k) cell w =
      move_up-Words k (store cell (slot new (suc k)) (load cell (slot old (suc k))))
        (store-Words cell (slot new (suc k)) (load cell (slot old (suc k))) w)

  pub move_up_below : (k : ℕ) (cell : Cells) (p : ℕ) → p ≤ new → move_up cell new old k p ≡ cell p
  unfolding move_up
  move_up_below zero cell p h = refl
  move_up_below (suc k) cell p h =
      move_up_below k (store cell (slot new (suc k)) (load cell (slot old (suc k)))) p h
      ∙ store_off cell (slot new (suc k)) (load cell (slot old (suc k))) p (inl (omega (arith, h)))

  move_up_above :
      (k : ℕ) (cell : Cells) (i : ℕ)
      → k < i
      → load (move_up cell new old k) (slot new i) ≡ load cell (slot new i)
  unfolding move_up
  move_up_above zero cell i h = refl
  move_up_above (suc k) cell i h =
      move_up_above k (store cell (slot new (suc k)) (load cell (slot old (suc k)))) i
        (omega (arith, h))
      ∙ load-store_off cell (slot new (suc k)) (load cell (slot old (suc k))) (slot new i)
          (inr (omega (arith, h)))

  -- Each pointer comes to the new slot of its index.
  pub move_up_moves :
      (k : ℕ) (cell : Cells) (i : ℕ)
      → Words cell
      → 0 < i
      → i ≤ k
      → load (move_up cell new old k) (slot new i) ≡ load cell (slot old i)
  unfolding move_up
  move_up_moves zero cell i w p h = absurd (omega (arith, p, h))
  move_up_moves (suc k) cell i w p h = elim (Bool-cases (i == suc k)) [
    | inl e ↦ last ((==_iff i (suc k)).0 e)
    | inr e ↦
        move_up_moves k (store cell (slot new (suc k)) v) i
          (store-Words cell (slot new (suc k)) v w) p (before e)
        ∙ load-store_off cell (slot new (suc k)) v (slot old i)
            (inl (omega (arith, grown, before e)))
  ]
    where
      v : ℕ
      v = load cell (slot old (suc k))

      before : (i == suc k) ≡ false → i ≤ k
      before e = ground (arith, e, h)

      last : i ≡ suc k → load (move_up cell new old (suc k)) (slot new i) ≡ load cell (slot old i)
      last e =
          ap (λ j. load (move_up cell new old (suc k)) (slot new j)) e
          ∙ move_up_above k (store cell (slot new (suc k)) v) (suc k) (omega arith)
          ∙ load-store cell (slot new (suc k)) v (load_lt cell (slot old (suc k)) w)
          ∙ ap (λ j. load cell (slot old j)) (sym e)

module _ (new old : ℕ) (shrunk : old ≡ new + 4) where
  pub move_down-Words : (k i : ℕ) (cell : Cells) → Words cell → Words (move_down cell new old k i)
  unfolding move_down
  move_down-Words zero i cell w = w
  move_down-Words (suc k) i cell w =
      move_down-Words k (i + 1) (store cell (slot new i) (load cell (slot old i)))
        (store-Words cell (slot new i) (load cell (slot old i)) w)

  pub move_down_below :
      (k i : ℕ) (cell : Cells) (p : ℕ) → p ≤ new → move_down cell new old k i p ≡ cell p
  unfolding move_down
  move_down_below zero i cell p h = refl
  move_down_below (suc k) i cell p h =
      move_down_below k (i + 1) (store cell (slot new i) (load cell (slot old i))) p h
      ∙ store_off cell (slot new i) (load cell (slot old i)) p (inl (omega (arith, h)))

  move_down_before :
      (k i : ℕ) (cell : Cells) (j : ℕ)
      → 0 < j
      → j < i
      → load (move_down cell new old k i) (slot new j) ≡ load cell (slot new j)
  unfolding move_down
  move_down_before zero i cell j p h = refl
  move_down_before (suc k) i cell j p h =
      move_down_before k (i + 1) (store cell (slot new i) (load cell (slot old i))) j p
        (omega (arith, h))
      ∙ load-store_off cell (slot new i) (load cell (slot old i)) (slot new j)
          (inl (omega (arith, p, h)))

  pub move_down_moves :
      (k i : ℕ) (cell : Cells) (j : ℕ)
      → Words cell
      → 0 < i
      → i ≤ j
      → j < i + k
      → load (move_down cell new old k i) (slot new j) ≡ load cell (slot old j)
  unfolding move_down
  move_down_moves zero i cell j w z p h = absurd (omega (arith, p, h))
  move_down_moves (suc k) i cell j w z p h = elim (Bool-cases (j == i)) [
    | inl e ↦ first ((==_iff j i).0 e)
    | inr e ↦
        move_down_moves k (i + 1) (store cell (slot new i) v) j (store-Words cell (slot new i) v w)
          (omega arith) (behind e) (omega (arith, h))
        ∙ load-store_off cell (slot new i) v (slot old j) (inr (omega (arith, shrunk, behind e)))
  ]
    where
      v : ℕ
      v = load cell (slot old i)

      behind : (j == i) ≡ false → i + 1 ≤ j
      behind e = ground (arith, e, p)

      first : j ≡ i → load (move_down cell new old (suc k) i) (slot new j) ≡ load cell (slot old j)
      first e =
          ap (λ n. load (move_down cell new old (suc k) i) (slot new n)) e
          ∙ move_down_before k (i + 1) (store cell (slot new i) v) i z (omega arith)
          ∙ load-store cell (slot new i) v (load_lt cell (slot old i) w)
          ∙ ap (λ n. load cell (slot old n)) (sym e)
