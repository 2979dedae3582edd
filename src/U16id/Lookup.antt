-- ===== src/U16id/Lookup.antt =====
-- What the search of src/sandbox/u16id.c finds, and the entries of a map.
use rp_lib_utils.Common.{
  ℕ, zero, suc, ◌+◌, ◌<◌, ◌≤◌, ◌≡◌, ◌≢◌, inl, inr, refl, ap, sym, ◌∙◌, arith, true, false,
  Bool-cases, Option, none, some, ◌==◌, ==_iff,
}
use rp_lib_utils.U16id.Memory.{Cells, Block}
use rp_lib_utils.U16id.Block.{flatof, flatofup, search_from, search}
use rp_lib_utils.U16id.Pointers.{id_at, ptr_at, index_of, u16id2ptr_get, u16id2ptr_count}

module _ (cell : Cells) (id : ℕ) where
  search_here :
      (count i : ℕ) → (id == cell (i + 1)) ≡ true → search_from cell id (suc count) i ≡ i + 1
  unfolding search_from
  search_here count i e = rw e refl

  search_behind :
      (count i : ℕ)
      → (id == cell (i + 1)) ≡ false
      → search_from cell id (suc count) i ≡ search_from cell id count (i + 1)
  unfolding search_from
  search_behind count i e = rw e refl

  search_from_hit :
      (count i r : ℕ)
      → search_from cell id count i ≡ r
      → r ≢ 0
      → (i < r) × (r ≤ i + count) × (cell r ≡ id)
  search_from_hit zero i r h n = absurd (n (sym h ∙ (unfold search_from in refl)))
  search_from_hit (suc count) i r h n = elim (Bool-cases (id == cell (i + 1))) [
    | inl e ↦
        let q : i + 1 ≡ r = sym (search_here count i e) ∙ h in
        (omega (arith, q), omega (arith, q), ap cell (sym q) ∙ sym ((==_iff id (cell (i + 1))).0 e))
    | inr e ↦
        let (a, b, c) = search_from_hit count (i + 1) r (sym (search_behind count i e) ∙ h) n in
        (omega (arith, a), omega (arith, b), c)
  ]

  search_from_miss :
      (count i j : ℕ) → search_from cell id count i ≡ 0 → i < j → j ≤ i + count → cell j ≢ id
  search_from_miss zero i j h p q e = omega (arith, p, q)
  search_from_miss (suc count) i j h p q e = elim (Bool-cases (id == cell (i + 1))) [
    | inl t ↦ omega (arith, sym (search_here count i t) ∙ h)
    | inr t ↦ elim (Bool-cases (j == i + 1)) [
      | inl w ↦ ground (arith, t, e, ap cell ((==_iff j (i + 1)).0 w))
      | inr w ↦
          search_from_miss count (i + 1) j (sym (search_behind count i t) ∙ h)
            (ground (arith, w, p)) (omega (arith, q)) e
    ]
  ]

-- The entries are at the indices from 1 on.
abbrev pub InRange : Option Block → ℕ → Type 0
InRange m i = (0 < i) × (i ≤ u16id2ptr_count m)

pub index_of-none : (id : ℕ) → index_of none id ≡ 0
unfolding search flatof
index_of-none id = refl

index_of-some : (b : Block) (id : ℕ) → index_of (some b) id ≡ search_from b.cell id (b.cell 0) 0
unfolding search flatof flatofup
index_of-some b id = refl

pub count_none : u16id2ptr_count none ≡ 0
unfolding u16id2ptr_count flatof
count_none = refl

pub count_some : (b : Block) → u16id2ptr_count (some b) ≡ b.cell 0
unfolding u16id2ptr_count flatof flatofup
count_some b = refl

pub index_of_hit :
    (m : Option Block) (id : ℕ)
    → index_of m id ≢ 0
    → InRange m (index_of m id) × (id_at m (index_of m id) ≡ id)
index_of_hit none id h = absurd (h (index_of-none id))
index_of_hit (some b) id h =
    let (p, q, e) =
      search_from_hit b.cell id (b.cell 0) 0 (index_of (some b) id) (sym (index_of-some b id)) h in
    ((p, omega (arith, q, count_some b)), e)

pub index_of_miss : (m : Option Block) (id j : ℕ) → index_of m id ≡ 0 → InRange m j → id_at m j ≢ id
index_of_miss none id j h r = absurd (omega (arith, r.0, r.1, count_none))
index_of_miss (some b) id j h r =
    search_from_miss b.cell id (b.cell 0) 0 j (sym (index_of-some b id) ∙ h) r.0
      (omega (arith, r.1, count_some b))

-- No identifier stands twice.
abbrev pub Distinct : Option Block → Type 0
Distinct m = (i j : ℕ) → InRange m i → InRange m j → id_at m i ≡ id_at m j → i ≡ j

-- An entry of the map.
abbrev pub Entry : Option Block → ℕ → ℕ → Type 0
Entry m id v = (i : ℕ) × InRange m i × (id_at m i ≡ id) × (ptr_at m i ≡ v)

pub index_of-Distinct :
    (m : Option Block) (id i : ℕ) → Distinct m → InRange m i → id_at m i ≡ id → index_of m id ≡ i
index_of-Distinct m id i d r e = elim (Bool-cases (index_of m id == 0)) [
  | inl z ↦ absurd (index_of_miss m id i ((==_iff (index_of m id) 0).0 z) r e)
  | inr z ↦
      let (s, q) = index_of_hit m id (λ w. ground (arith, z, w)) in
      d (index_of m id) i s r (q ∙ sym e)
]

pub get_hit :
    (m : Option Block) (id : ℕ)
    → (index_of m id == 0) ≡ false
    → u16id2ptr_get m id ≡ some (ptr_at m (index_of m id))
unfolding u16id2ptr_get
get_hit m id h = rw h refl

pub get_miss : (m : Option Block) (id : ℕ) → (index_of m id == 0) ≡ true → u16id2ptr_get m id ≡ none
unfolding u16id2ptr_get
get_miss m id h = rw h refl

pub get-Entry :
    (m : Option Block) (id v : ℕ) → Distinct m → Entry m id v → u16id2ptr_get m id ≡ some v
get-Entry m id v d (i, r, e, q) =
    let w : index_of m id ≡ i = index_of-Distinct m id i d r e in
    get_hit m id (ground (arith, w, r.0)) ∙ ap (λ j. some (ptr_at m j)) w ∙ ap some q

pub get-no-Entry :
    (m : Option Block) (id : ℕ)
    → ((i : ℕ) → InRange m i → id_at m i ≢ id)
    → u16id2ptr_get m id ≡ none
get-no-Entry m id h = elim (Bool-cases (index_of m id == 0)) [
  | inl z ↦ get_miss m id z
  | inr z ↦
      let (s, q) = index_of_hit m id (λ w. ground (arith, z, w)) in absurd (h (index_of m id) s q)
]

pub Entry-get :
    (m : Option Block) (id : ℕ)
    → (index_of m id == 0) ≡ false
    → Entry m id (ptr_at m (index_of m id))
Entry-get m id z =
    let (s, q) = index_of_hit m id (λ w. ground (arith, z, w)) in (index_of m id, s, q, refl)

-- Maps that have the same entries for an identifier give the same for it.
pub get_same :
    (m n : Option Block) (id : ℕ)
    → Distinct m
    → Distinct n
    → ((v : ℕ) → Entry m id v → Entry n id v)
    → ((v : ℕ) → Entry n id v → Entry m id v)
    → u16id2ptr_get m id ≡ u16id2ptr_get n id
get_same m n id dm dn to from = elim (Bool-cases (index_of m id == 0)) [
  | inl z ↦
      get_miss m id z
      ∙ sym (get-no-Entry n id (λ i r e. absent z (from (ptr_at n i) (i, r, e, refl))))
  | inr z ↦
      let e = Entry-get m id z in
      get_hit m id z
      ∙ sym (get-Entry n id (ptr_at m (index_of m id)) dn (to (ptr_at m (index_of m id)) e))
]
  where
    absent : {v : ℕ} → (index_of m id == 0) ≡ true → Entry m id v → ⊥
    absent z (i, r, e, q) = index_of_miss m id i ((==_iff (index_of m id) 0).0 z) r e
