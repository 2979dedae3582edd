-- ===== src/U16id/Slots.antt =====
-- Reads behind writes in the memory of src/sandbox/u16id.c.
use rp_lib_utils.Common.{ℕ, ◌+◌, ◌/◌, ◌%◌, ◌^◌, ◌<◌, ◌≤◌, ◌≡◌, ◌≢◌, ◌⊎◌, inl, inr, arith}
use rp_lib_utils.U16id.Memory.{Cells, put_cell, load, store}

-- Each cell holds 16 bits.
abbrev pub Words : Cells → Type 0
Words cell = (p : ℕ) → cell p < 2 ^ 16

pub load_lt : (cell : Cells) (a : ℕ) → Words cell → load cell a < 2 ^ 64
unfolding load
load_lt cell a h = omega (arith, h a, h (a + 1), h (a + 2), h (a + 3))

pub put_cell_self : (cell : Cells) (a v : ℕ) → put_cell cell a v a ≡ v
unfolding put_cell
put_cell_self cell a v = ground arith

pub put_cell_off : (cell : Cells) (a v p : ℕ) → p ≢ a → put_cell cell a v p ≡ cell p
unfolding put_cell
put_cell_off cell a v p h = ground (arith, h)

pub store_off : (cell : Cells) (a v p : ℕ) → (p < a) ⊎ (a + 4 ≤ p) → store cell a v p ≡ cell p
unfolding store
store_off cell a v p h = ground (arith, h)

pub load-store : (cell : Cells) (a v : ℕ) → v < 2 ^ 64 → load (store cell a v) a ≡ v
unfolding load
load-store cell a v h = omega (arith, first, second, third, fourth)
  where
    first : store cell a v a ≡ v % 2 ^ 16
    first = unfold store in ground arith

    second : store cell a v (a + 1) ≡ v / 2 ^ 16 % 2 ^ 16
    second = unfold store in ground arith

    third : store cell a v (a + 2) ≡ v / 2 ^ 32 % 2 ^ 16
    third = unfold store in ground arith

    fourth : store cell a v (a + 3) ≡ v / 2 ^ 48 % 2 ^ 16
    fourth = unfold store in ground arith

-- Loads of the same cells.
pub load_same :
    (c d : Cells) (a : ℕ) → ((p : ℕ) → a ≤ p → p < a + 4 → c p ≡ d p) → load c a ≡ load d a
unfolding load
load_same c d a h = omega (
  arith,
  h a (omega arith) (omega arith),
  h (a + 1) (omega arith) (omega arith),
  h (a + 2) (omega arith) (omega arith),
  h (a + 3) (omega arith) (omega arith),
)

pub load-store_off :
    (cell : Cells) (a v b : ℕ) → (b + 4 ≤ a) ⊎ (a + 4 ≤ b) → load (store cell a v) b ≡ load cell b
load-store_off cell a v b h = load_same (store cell a v) cell b (λ p g k.
    store_off cell a v p
      (elim h [ inl x ↦ inl (omega (arith, x, k)) | inr x ↦ inr (omega (arith, x, g)) ]))

pub load-put_cell_off :
    (cell : Cells) (a v b : ℕ) → (a < b) ⊎ (b + 4 ≤ a) → load (put_cell cell a v) b ≡ load cell b
load-put_cell_off cell a v b h = load_same (put_cell cell a v) cell b (λ p g k.
    put_cell_off cell a v p (λ e. elim h [
      | inl x ↦ absurd (omega (arith, x, g, e))
      | inr x ↦ absurd (omega (arith, x, k, e))
    ]))

pub put_cell-Words : (cell : Cells) (a v : ℕ) → Words cell → v < 2 ^ 16 → Words (put_cell cell a v)
unfolding put_cell
put_cell-Words cell a v w h p = ground (arith, w p)

pub store-Words : (cell : Cells) (a v : ℕ) → Words cell → Words (store cell a v)
unfolding store
store-Words cell a v w p = ground (arith, w p)
