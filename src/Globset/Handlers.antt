-- ===== src/Globset/Handlers.antt =====
-- The operations of src/sandbox/globset.c that add and delete handlers.
use mathlib.Core.Path.{subst}
use rp_lib_utils.Common.{
  ℕ, ◌≡◌, refl, ap, sym, ◌∙◌, true, false, Bool-cases, Option-cases, inl, inr, List, [], ◌∷◌, ◌++◌,
  All, All-append, Bytes, Option, none, some, ◌==◌, if◌then◌else◌,
}
use rp_lib_utils.Globset.{
  hash_of, same_text, Pathndl, Lists, change_at, place, find, GlobSet, fault, change_list, put_back,
  remove,
}
use rp_lib_utils.Globset.Moving.{IsPlaced, Distinct, same_text-eq, same_text-sym}
use rp_lib_utils.Globset.Growing.{IsGlob, IsValid}
use rp_lib_utils.Globset.Editing.{Edit, Edited, unedited, change-globs, change-exacts}

find-append :
    (text : Bytes) (list : List Pathndl) (ph : Pathndl)
    → find ph.pattern list ≡ none
    → find text (list ++ (ph ∷ []))
      ≡ (if same_text text ph.pattern then some ph else find text list)
unfolding find
find-append text [] ph e = refl
find-append text (q ∷ list) ph e = elim (Bool-cases (same_text ph.pattern q.pattern)) [
  | inl t ↦ absurd (cc)
  | inr t ↦ elim (Bool-cases (same_text text q.pattern)) [
    | inl s ↦ rw (s, other s t) refl
    | inr s ↦ rw s (find-append text list ph (sym (rw t refl) ∙ e))
  ]
]
  where
    other :
        same_text text q.pattern ≡ true
        → same_text ph.pattern q.pattern ≡ false
        → same_text text ph.pattern ≡ false
    other s t =
        ap (λ (x : Bytes). same_text x ph.pattern) (same_text-eq text q.pattern s)
        ∙ same_text-sym ph.pattern q.pattern t

Distinct-append :
    (list : List Pathndl) (ph : Pathndl)
    → find ph.pattern list ≡ none
    → Distinct list
    → Distinct (list ++ (ph ∷ []))
unfolding find
Distinct-append [] ph e d = (refl, tt)
Distinct-append (q ∷ list) ph e (d, ds) = elim (Bool-cases (same_text ph.pattern q.pattern)) [
  | inl t ↦ absurd (cc)
  | inr t ↦
      let none_in : find ph.pattern list ≡ none = sym (rw t refl) ∙ e in
      (
        find-append q.pattern list ph none_in ∙ rw (same_text-sym ph.pattern q.pattern t) d,
        Distinct-append list ph none_in ds,
      )
]

pub append-Edit :
    (P : Pathndl → Type 0) (list : List Pathndl) (ph : Pathndl)
    → P ph
    → All P list
    → Distinct list
    → find ph.pattern list ≡ none
    → Edit P list ph.pattern (λ l. l ++ (ph ∷ [])) (some ph)
append-Edit P list ph h p d e = record {
  belong = All-append P list (ph ∷ []) p (h, tt);
  distinct = Distinct-append list ph e d;
  finds = λ text. find-append text list ph e;
}

find-remove :
    (pat text : Bytes) (list : List Pathndl)
    → Distinct list
    → find text (remove pat list) ≡ (if same_text text pat then none else find text list)
unfolding find remove
find-remove pat text [] d = elim (Bool-cases (same_text text pat)) [
  | inl t ↦ rw t refl
  | inr t ↦ rw t refl
]
find-remove pat text (q ∷ list) (d, ds) = elim (Bool-cases (same_text pat q.pattern)) [
  | inl t ↦
      let p : same_text text pat ≡ same_text text q.pattern =
        ap (same_text text) (same_text-eq pat q.pattern t) in
      elim (Bool-cases (same_text text q.pattern)) [
        | inl u ↦
            rw (t, p ∙ u) (ap (λ (x : Bytes). find x list) (same_text-eq text q.pattern u) ∙ d)
        | inr u ↦ rw (t, p ∙ u, u) refl
      ]
  | inr t ↦ elim (Bool-cases (same_text text q.pattern)) [
    | inl u ↦ rw (t, u, other u t) refl
    | inr u ↦ rw (t, u) (find-remove pat text list ds)
  ]
]
  where
    other :
        same_text text q.pattern ≡ true
        → same_text pat q.pattern ≡ false
        → same_text text pat ≡ false
    other u t =
        ap (λ (x : Bytes). same_text x pat) (same_text-eq text q.pattern u)
        ∙ same_text-sym pat q.pattern t

Distinct-remove : (pat : Bytes) (list : List Pathndl) → Distinct list → Distinct (remove pat list)
unfolding remove
Distinct-remove pat [] d = tt
Distinct-remove pat (q ∷ list) (d, ds) = elim (Bool-cases (same_text pat q.pattern)) [
  | inl t ↦ rw t ds
  | inr t ↦ rw t (
    find-remove pat q.pattern list ds ∙ rw (same_text-sym pat q.pattern t) d,
    Distinct-remove pat list ds,
  )
]

All-remove :
    (P : Pathndl → Type 0) (pat : Bytes) (list : List Pathndl)
    → All P list
    → All P (remove pat list)
unfolding remove
All-remove P pat [] h = tt
All-remove P pat (q ∷ list) (h, hs) = elim (Bool-cases (same_text pat q.pattern)) [
  | inl t ↦ rw t hs
  | inr t ↦ rw t (h, All-remove P pat list hs)
]

pub remove-Edit :
    (P : Pathndl → Type 0) (list : List Pathndl) (pat : Bytes)
    → All P list
    → Distinct list
    → Edit P list pat (remove pat) none
remove-Edit P list pat p d = record {
  belong = All-remove P pat list p;
  distinct = Distinct-remove pat list d;
  finds = λ text. find-remove pat text list d;
}

-- A change of the list for a hash that is put back.
module _ (set : GlobSet) (count : ℕ) (pat : Bytes) (f : List Pathndl → List Pathndl)
    (new : Option Pathndl) (v : IsValid set) where
  change_list-null :
      (hash_of pat == 0) ≡ false
      → set.exacts ≡ none
      → change_list (hash_of pat) f (record set { count = count }) ≡ none
  unfolding change_list
  change_list-null t x = rw (t, x) refl

  change_list-array :
      (lists : Lists)
      → (hash_of pat == 0) ≡ false
      → set.exacts ≡ some lists
      → change_list (hash_of pat) f (record set { count = count })
        ≡ some (record set {
          count = count;
          exacts = some (change_at (place (hash_of pat) set.gmask) f lists);
        })
  unfolding change_list
  change_list-array lists t x = rw (t, x) refl

  pub put_back-Edited :
      ((hash_of pat == 0) ≡ true → Edit IsGlob set.globs pat f new)
      → ((lists : Lists)
          → (hash_of pat == 0) ≡ false
          → set.exacts ≡ some lists
          → Edit
              (IsPlaced set.gmask (place (hash_of pat) set.gmask))
              (lists (place (hash_of pat) set.gmask))
              pat
              f
              new)
      → Edited set pat new
          (put_back set (change_list (hash_of pat) f (record set { count = count })))
  put_back-Edited g e = elim (Bool-cases (hash_of pat == 0)) [
    | inl t ↦ change-globs set count pat f new t v (g t)
    | inr t ↦ elim (Option-cases set.exacts) [
      | inl x ↦
          subst (λ (o : Option GlobSet). Edited set pat new (put_back set o))
            (sym (change_list-null t x)) (unedited set set pat new fault refl v (λ text. refl))
      | inr (lists, x) ↦
          subst (λ (o : Option GlobSet). Edited set pat new (put_back set o))
            (sym (change_list-array lists t x))
            (change-exacts set lists count pat f new t x v (e lists t x))
    ]
  ]
