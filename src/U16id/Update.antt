-- ===== src/U16id/Update.antt =====
-- How the operations of `u16id2ptr` in src/sandbox/u16id.c change a map: additions and changes.
use mathlib.Core.Path.{subst}
use rp_lib_utils.Common.{
  ℕ, ◌+◌, ◌^◌, ◌<◌, ◌≤◌, ◌≡◌, ◌≢◌, ◌⊎◌, inl, inr, refl, ap, sym, ◌∙◌, arith, Bool-cases, Option,
  none, some, ltb, ltb→lt, ◌==◌, ==_iff, if◌then◌else◌,
}
use rp_lib_utils.U16id.Memory.{load, store, Block}
use rp_lib_utils.U16id.Block.{flatof, flatofup, get_capacity, slot, size, with_cells}
use rp_lib_utils.U16id.Pointers.{ptr_at, set_ptr, index_of, u16id2ptr_get, u16id2ptr_count}
use rp_lib_utils.U16id.Slots.{store_off, load-store, load-store_off, store-Words}
use rp_lib_utils.U16id.Lookup.{
  InRange, count_none, count_some, index_of-none, index_of_hit, index_of_miss, Distinct, Entry,
  get-Entry, get_same,
}
use rp_lib_utils.U16id.Adding.{get_capacity_lem, IsValidBlock, IsValid, ptr_at-some, Added}

pub IsValid-Distinct : (m : Option Block) → IsValid m → Distinct m
IsValid-Distinct none v i j r s e = absurd (omega (arith, r.0, r.1, count_none))
IsValid-Distinct (some b) v i j r s e = v.distinct i j r s e

-- The map that gives `o` for an identifier, and for all others what it gave before.
abbrev pub Updated : Option Block → ℕ → Option ℕ → Option Block → Type 0
Updated m id o n =
    IsValid n
    × ((other : ℕ) → u16id2ptr_get n other ≡ (if other == id then o else u16id2ptr_get m other))

pub Updated-of :
    (m n : Option Block) (id : ℕ) (o : Option ℕ)
    → IsValid m
    → IsValid n
    → u16id2ptr_get n id ≡ o
    → ((other v : ℕ) → other ≢ id → Entry n other v → Entry m other v)
    → ((other v : ℕ) → other ≢ id → Entry m other v → Entry n other v)
    → Updated m id o n
Updated-of m n id o vm vn e to from = (
  vn,
  λ other. elim (Bool-cases (other == id)) [
    | inl t ↦ rw t (ap (u16id2ptr_get n) ((==_iff other id).0 t) ∙ e)
    | inr t ↦
        let h : other ≢ id = λ w. ground (arith, t, w) in
        rw t (
          get_same n m other (IsValid-Distinct n vn) (IsValid-Distinct m vm) (λ v. to other v h)
            (λ v. from other v h))
  ],
)

module _ (m : Option Block) (id ptr : ℕ) (b : Block) (valid : IsValid m)
    (absent : index_of m id ≡ 0) (added : Added m id ptr b) where
  count_of : u16id2ptr_count (some b) ≡ u16id2ptr_count m + 1
  count_of = count_some b ∙ added.count

  in_old : (i : ℕ) → InRange (some b) i → (InRange m i) ⊎ (i ≡ u16id2ptr_count m + 1)
  in_old i r = elim (Bool-cases (i == u16id2ptr_count m + 1)) [
    | inl t ↦ inr ((==_iff i (u16id2ptr_count m + 1)).0 t)
    | inr t ↦ inl (r.0, ground (arith, t, r.1, count_of))
  ]

  new_ne_old : (i : ℕ) → InRange m i → b.cell i ≢ id
  new_ne_old i r e = index_of_miss m id i absent r (sym (added.kept i r).0 ∙ e)

  added-Distinct : Distinct (some b)
  added-Distinct i j ri rj e = elim (in_old i ri) [
    | inl oi ↦ elim (in_old j rj) [
      | inl oj ↦
          IsValid-Distinct m valid i j oi oj (sym (added.kept i oi).0 ∙ e ∙ (added.kept j oj).0)
      | inr nj ↦ absurd (new_ne_old i oi (e ∙ ap b.cell nj ∙ added.new_id))
    ]
    | inr ni ↦ elim (in_old j rj) [
      | inl oj ↦ absurd (new_ne_old j oj (sym e ∙ ap b.cell ni ∙ added.new_id))
      | inr nj ↦ ni ∙ sym nj
    ]
  ]

  added-IsValid : IsValidBlock b
  added-IsValid = record { words = added.words; room = added.room; distinct = added-Distinct }

  -- The block with the new entry is the map with the new pointer.
  pub Added-Updated : Updated m id (some ptr) (some b)
  Added-Updated =
      Updated-of m (some b) id (some ptr) valid added-IsValid
        (get-Entry (some b) id ptr added-Distinct (
          u16id2ptr_count m + 1,
          (omega arith, omega (arith, count_of)),
          added.new_id,
          added.new_ptr,
        ))
        to from
    where
      to : (other v : ℕ) → other ≢ id → Entry (some b) other v → Entry m other v
      to other v h (i, r, e, q) = elim (in_old i r) [
        | inl o ↦ (i, o, sym (added.kept i o).0 ∙ e, sym (added.kept i o).1 ∙ q)
        | inr n ↦ absurd (h (sym e ∙ ap b.cell n ∙ added.new_id))
      ]

      from : (other v : ℕ) → other ≢ id → Entry m other v → Entry (some b) other v
      from other v h (i, r, e, q) =
          (i, (r.0, omega (arith, r.1, count_of)), (added.kept i r).0 ∙ e, (added.kept i r).1 ∙ q)

pub slots_apart :
    (c i j : ℕ) → 0 < i → 0 < j → j ≢ i → (slot c j + 4 ≤ slot c i) ⊎ (slot c i + 4 ≤ slot c j)
slots_apart c i j p q h = elim (Bool-cases (ltb j i)) [
  | inl t ↦ inl (omega (arith, ltb→lt j i t, p, q))
  | inr t ↦
      let le : i ≤ j = ground (arith, t) in
      let lt : i < j = ground (arith, le, h) in inr (omega (arith, lt, p, q))
]

set_ptr_cells :
    (a : Block) (i ptr : ℕ)
    → set_ptr (some a) i ptr
      ≡ some (with_cells a (store a.cell (slot (get_capacity (a.cell 0)) i) ptr))
unfolding set_ptr flatof flatofup
set_ptr_cells a i ptr = refl

module _ (a : Block) (i ptr : ℕ) (valid : IsValidBlock a) (range : InRange (some a) i)
    (pointer : ptr < 2 ^ 64) where
  cap : ℕ
  cap = get_capacity (a.cell 0)

  b : Block
  b = with_cells a (store a.cell (slot cap i) ptr)

  same_low : (p : ℕ) → p ≤ cap → b.cell p ≡ a.cell p
  unfolding b
  same_low p h = store_off a.cell (slot cap i) ptr p (inl (omega (arith, h)))

  same_count : u16id2ptr_count (some b) ≡ u16id2ptr_count (some a)
  same_count = count_some b ∙ same_low 0 (omega arith) ∙ sym (count_some a)

  same_id : (j : ℕ) → InRange (some a) j → b.cell j ≡ a.cell j
  unfolding cap
  same_id j r = same_low j (omega (arith, r.1, count_some a, get_capacity_lem (a.cell 0)))

  ptr_of : (j : ℕ) → ptr_at (some b) j ≡ load b.cell (slot cap j)
  unfolding cap
  ptr_of j =
      ptr_at-some b j ∙ ap (λ n. load b.cell (slot (get_capacity n) j)) (same_low 0 (omega arith))

  same_ptr : (j : ℕ) → InRange (some a) j → j ≢ i → ptr_at (some b) j ≡ ptr_at (some a) j
  unfolding b cap
  same_ptr j r h =
      ptr_of j
      ∙ load-store_off a.cell (slot cap i) ptr (slot cap j) (slots_apart cap i j range.0 r.0 h)
      ∙ sym (ptr_at-some a j)

  same_range : (j : ℕ) → InRange (some b) j → InRange (some a) j
  same_range j r = (r.0, omega (arith, r.1, same_count))

  set_range : (j : ℕ) → InRange (some a) j → InRange (some b) j
  set_range j r = (r.0, omega (arith, r.1, same_count))

  new_ptr : ptr_at (some b) i ≡ ptr
  unfolding b cap
  new_ptr = ptr_of i ∙ load-store a.cell (slot cap i) ptr pointer

  set-IsValid : IsValidBlock b
  unfolding b cap
  set-IsValid = record {
    words = store-Words a.cell (slot cap i) ptr valid.words;
    room = subst (λ n. size (get_capacity n) ≤ a.size) (sym (same_low 0 (omega arith))) valid.room;
    distinct = λ j k r s e.
        valid.distinct j k (same_range j r) (same_range k s)
          (sym (same_id j (same_range j r)) ∙ e ∙ same_id k (same_range k s));
  }

  -- The block with another pointer at an index is the map with the new pointer.
  set-Updated : (id : ℕ) → a.cell i ≡ id → Updated (some a) id (some ptr) (some b)
  set-Updated id e =
      Updated-of (some a) (some b) id (some ptr) valid set-IsValid
        (get-Entry (some b) id ptr set-IsValid.distinct
          (i, set_range i range, same_id i range ∙ e, new_ptr))
        to from
    where
      not_i : (j other : ℕ) → a.cell j ≡ other → other ≢ id → j ≢ i
      not_i j other q h w = h (sym q ∙ ap a.cell w ∙ e)

      to : (other v : ℕ) → other ≢ id → Entry (some b) other v → Entry (some a) other v
      to other v h (j, r, x, q) =
          let ra = same_range j r in
          let xa : a.cell j ≡ other = sym (same_id j ra) ∙ x in
          (j, ra, xa, sym (same_ptr j ra (not_i j other xa h)) ∙ q)

      from : (other v : ℕ) → other ≢ id → Entry (some a) other v → Entry (some b) other v
      from other v h (j, r, x, q) =
          (j, set_range j r, same_id j r ∙ x, same_ptr j r (not_i j other x h) ∙ q)

pub set_ptr-Updated :
    (m : Option Block) (id ptr : ℕ)
    → IsValid m
    → index_of m id ≢ 0
    → ptr < 2 ^ 64
    → Updated m id (some ptr) (set_ptr m (index_of m id) ptr)
set_ptr-Updated none id ptr v h p = absurd (h (index_of-none id))
set_ptr-Updated (some a) id ptr v h p =
    let (r, e) = index_of_hit (some a) id h in
    subst (Updated (some a) id (some ptr)) (sym (set_ptr_cells a (index_of (some a) id) ptr))
      (unfold b cap in set-Updated a (index_of (some a) id) ptr v r p id e)
