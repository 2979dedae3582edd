-- ===== src/Globset/Moving.antt =====
-- What the growing of the dictionary of src/sandbox/globset.c keeps.
use rp_lib_utils.Common.{
  ℕ, ◌≡◌, refl, ap, sym, ◌∙◌, arith, true, false, Bool-cases, inl, inr, List, [], ◌∷◌, All, Bytes,
  Option, none, some, ◌==◌, ==_iff, if◌then◌else◌,
}
use rp_lib_utils.Globset.{hash_of, same_text, Pathndl, Lists, change_at, place, move_list, find}

-- The same text, in Boolean form and as an equation.
pub same_text-eq : (x y : Bytes) → same_text x y ≡ true → x ≡ y
unfolding same_text
same_text-eq [] [] e = refl
same_text-eq [] (b ∷ y) e = absurd (cc)
same_text-eq (a ∷ x) [] e = absurd (cc)
same_text-eq (a ∷ x) (b ∷ y) e = elim (Bool-cases (a == b)) [
  | inl h ↦ cons ((==_iff a b).0 h) (same_text-eq x y (sym (rw h refl) ∙ e))
  | inr h ↦ absurd (cc)
]
  where
    cons : a ≡ b → x ≡ y → (a ∷ x) ≡ (b ∷ y)
    cons p q = cc

pub same_text_refl : (x : Bytes) → same_text x x ≡ true
unfolding same_text
same_text_refl [] = refl
same_text_refl (a ∷ x) = rw ((==_iff a a).1 refl) (same_text_refl x)

-- The first of two results.
abbrev pub or_else : Option Pathndl → Option Pathndl → Option Pathndl
or_else none b = b
or_else (some a) b = some a

pub or_else-none : (o : Option Pathndl) → o ≡ or_else o none
or_else-none none = refl
or_else-none (some a) = refl

-- No two elements have the same text.
abbrev pub Distinct : List Pathndl → Type 0
Distinct [] = Unit
Distinct (ph ∷ list) = (find ph.pattern list ≡ none) × Distinct list

-- An element has the hash of its text, which is the hash of an exact name.
abbrev pub IsHashed : Pathndl → Type 0
IsHashed ph = (ph.hash ≡ hash_of ph.pattern) × ((ph.hash == 0) ≡ false)

-- An element stands in its list.
abbrev pub IsPlaced : ℕ → ℕ → Pathndl → Type 0
IsPlaced gmask i ph = IsHashed ph × (place ph.hash gmask ≡ i)

-- A dictionary: each element stands in its list, and no two have the same text.
pub record IsDictionary (gmask : ℕ) (lists : Lists) : Type 0 where
  pub placed : (i : ℕ) → All (IsPlaced gmask i) (lists i)
  pub distinct : (i : ℕ) → Distinct (lists i)

-- What is found in a list has the text.
pub find-placed :
    (gmask i : ℕ) (text : Bytes) (list : List Pathndl)
    → All (IsPlaced gmask i) list
    → (place (hash_of text) gmask == i) ≡ false
    → find text list ≡ none
unfolding find
find-placed gmask i text [] p h = refl
find-placed gmask i text (ph ∷ list) ((e, q), ps) h =
    elim (Bool-cases (same_text text ph.pattern)) [
      | inl t ↦ absurd (
          ground (
            arith,
            h,
            q,
            ap (λ (k : ℕ). place k gmask) e.0,
            ap (λ (x : Bytes). place (hash_of x) gmask) (same_text-eq text ph.pattern t),
          ))
      | inr t ↦ rw t (find-placed gmask i text list ps h)
    ]

-- The list of a text behind one element has been put in front of its list.
find-put :
    (gmask : ℕ) (text : Bytes) (ph : Pathndl) (lists : Lists)
    → IsHashed ph
    → find text (change_at (place ph.hash gmask) (λ l. ph ∷ l) lists (place (hash_of text) gmask))
      ≡ (if same_text text ph.pattern
          then some ph
          else find text (lists (place (hash_of text) gmask)))
unfolding find
find-put gmask text ph lists h =
    elim (Bool-cases (place (hash_of text) gmask == place ph.hash gmask)) [
      | inl t ↦ rw t refl
      | inr t ↦ elim (Bool-cases (same_text text ph.pattern)) [
        | inl s ↦ absurd (
            ground (
              arith,
              t,
              ap (λ (k : ℕ). place k gmask) h.0,
              ap (λ (x : Bytes). place (hash_of x) gmask) (same_text-eq text ph.pattern s),
            ))
        | inr s ↦ rw (t, s) refl
      ]
    ]

-- Where nothing is found, no element has the text.
pub find-differs :
    (text : Bytes) (list : List Pathndl)
    → find text list ≡ none
    → All (λ ph. same_text text ph.pattern ≡ false) list
unfolding find
find-differs text [] e = tt
find-differs text (ph ∷ list) e = elim (Bool-cases (same_text text ph.pattern)) [
  | inl t ↦ absurd (cc)
  | inr t ↦ (t, find-differs text list (sym (rw t refl) ∙ e))
]

pub same_text-sym : (x y : Bytes) → same_text x y ≡ false → same_text y x ≡ false
same_text-sym x y e = elim (Bool-cases (same_text y x)) [
  | inl t ↦
      absurd (cc (e, same_text_refl x, ap (λ (z : Bytes). same_text x z) (same_text-eq y x t)))
  | inr t ↦ t
]

module _ (gmask : ℕ) where
  -- The list for a text.
  abbrev pub found_in : Lists → Bytes → Option Pathndl
  found_in lists text = find text (lists (place (hash_of text) gmask))

  abbrev pub put : Pathndl → Lists → Lists
  put ph lists = change_at (place ph.hash gmask) (λ l. ph ∷ l) lists

  -- The text of the element is not in the dictionary.
  abbrev pub IsFree : Lists → Pathndl → Type 0
  IsFree lists ph = found_in lists ph.pattern ≡ none

  put-IsFree :
      (ph : Pathndl) (lists : Lists) (list : List Pathndl)
      → IsHashed ph
      → All (λ q. same_text ph.pattern q.pattern ≡ false) list
      → All (IsFree lists) list
      → All (IsFree (put ph lists)) list
  put-IsFree ph lists [] h d f = tt
  put-IsFree ph lists (q ∷ list) h (d, ds) (f, fs) = (
    find-put gmask q.pattern ph lists h ∙ rw (same_text-sym ph.pattern q.pattern d) f,
    put-IsFree ph lists list h ds fs,
  )

  pub move_list-find :
      (list : List Pathndl) (lists : Lists) (text : Bytes)
      → All IsHashed list
      → Distinct list
      → All (IsFree lists) list
      → found_in (move_list gmask list lists) text ≡ or_else (found_in lists text) (find text list)
  unfolding move_list find
  move_list-find [] lists text h d f = or_else-none (found_in lists text)
  move_list-find (ph ∷ list) lists text (h, hs) (d, ds) (f, fs) =
      move_list-find list (put ph lists) text hs ds
        (put-IsFree ph lists list h (find-differs ph.pattern list d) fs)
      ∙ ap (λ (o : Option Pathndl). or_else o (find text list)) (find-put gmask text ph lists h)
      ∙ elim (Bool-cases (same_text text ph.pattern)) [
        | inl t ↦ rw (t, ap (found_in lists) (same_text-eq text ph.pattern t) ∙ f) refl
        | inr t ↦ rw t refl
      ]

  put-IsDictionary :
      (ph : Pathndl) (lists : Lists)
      → IsHashed ph
      → IsFree lists ph
      → IsDictionary gmask lists
      → IsDictionary gmask (put ph lists)
  put-IsDictionary ph lists h f d = record {
    placed = λ i. elim (Bool-cases (i == place ph.hash gmask)) [
      | inl t ↦ rw t ((h, sym ((==_iff i (place ph.hash gmask)).0 t)), d.placed i)
      | inr t ↦ rw t (d.placed i)
    ];
    distinct = λ i. elim (Bool-cases (i == place ph.hash gmask)) [
      | inl t ↦ rw t (free i ((==_iff i (place ph.hash gmask)).0 t), d.distinct i)
      | inr t ↦ rw t (d.distinct i)
    ];
  }
    where
      free : (i : ℕ) → i ≡ place ph.hash gmask → find ph.pattern (lists i) ≡ none
      free i e =
          ap (λ (k : ℕ). find ph.pattern (lists k)) (e ∙ ap (λ (k : ℕ). place k gmask) h.0) ∙ f

  pub move_list-IsDictionary :
      (list : List Pathndl) (lists : Lists)
      → All IsHashed list
      → Distinct list
      → All (IsFree lists) list
      → IsDictionary gmask lists
      → IsDictionary gmask (move_list gmask list lists)
  unfolding move_list
  move_list-IsDictionary [] lists h d f k = k
  move_list-IsDictionary (ph ∷ list) lists (h, hs) (d, ds) (f, fs) k =
      move_list-IsDictionary list (put ph lists) hs ds
        (put-IsFree ph lists list h (find-differs ph.pattern list d) fs)
        (put-IsDictionary ph lists h f k)
