-- ===== src/Globset/Editing.antt =====
-- How a handler is put in a set of src/sandbox/globset.c, and taken out.
use mathlib.Core.Path.{subst}
use rp_lib_utils.Common.{
  ℕ, ◌≡◌, refl, ap, sym, ◌∙◌, arith, Bool, true, false, ◌&&◌, Bool-cases, inl, inr, List, All,
  Bytes, Option, some, ◌==◌, ==_iff, if◌then◌else◌,
}
use rp_lib_utils.Globset.{
  hash_of, same_text, Pathndl, Lists, change_at, lists_of, place, find, GlobSet, Status, done,
  exists, absent, overflow, no_memory, fault, list_for, search, change_list, put_back,
}
use rp_lib_utils.Globset.Moving.{IsPlaced, Distinct, same_text-eq}
use rp_lib_utils.Globset.Growing.{IsGlob, is_null, IsValid, searched}

-- A change of a list whose elements have `P`, behind which `new` is found for a text.
pub record Edit (P : Pathndl → Type 0) (list : List Pathndl) (pat : Bytes)
    (f : List Pathndl → List Pathndl) (new : Option Pathndl) : Type 0 where
  pub belong : All P (f list)
  pub distinct : Distinct (f list)
  pub finds :
      (text : Bytes) → find text (f list) ≡ (if same_text text pat then new else find text list)

abbrev pub is_done : Status → Bool
is_done done = true
is_done exists = false
is_done absent = false
is_done overflow = false
is_done no_memory = false
is_done fault = false

-- A set behind an operation: `new` is found for the text if it has succeeded, and what was found
-- before for all others.
pub record Edited (set : GlobSet) (pat : Bytes) (new : Option Pathndl) (r : Status × GlobSet)
    : Type 0 where
  pub valid : IsValid r.1
  pub found :
      (text : Bytes)
      → searched r.1 text ≡ (if is_done r.0 && same_text text pat then new else searched set text)

pub unedited :
    (set set' : GlobSet) (pat : Bytes) (new : Option Pathndl) (status : Status)
    → is_done status ≡ false
    → IsValid set'
    → ((text : Bytes) → searched set' text ≡ searched set text)
    → Edited set pat new (status, set')
unedited set set' pat new status e v s = record { valid = v; found = λ text. rw e (s text) }

-- Texts with different hashes are different.
same_text-hash : (x y : Bytes) → (hash_of x == hash_of y) ≡ false → same_text x y ≡ false
same_text-hash x y h = elim (Bool-cases (same_text x y)) [
  | inl t ↦ absurd (ground (arith, h, ap hash_of (same_text-eq x y t)))
  | inr t ↦ t
]

pub change-globs :
    (set : GlobSet) (count : ℕ) (pat : Bytes) (f : List Pathndl → List Pathndl)
    (new : Option Pathndl)
    → (hash_of pat == 0) ≡ true
    → IsValid set
    → Edit IsGlob set.globs pat f new
    → Edited set pat new (put_back set (change_list (hash_of pat) f (record set { count = count })))
unfolding change_list list_for search
change-globs set count pat f new t v e = rw t (record {
  valid = record {
    dictionary = v.dictionary;
    present = v.present;
    patterns = e.belong;
    distinct = e.distinct;
  };
  found = λ text. elim (Bool-cases (hash_of text == 0)) [
    | inl z ↦ rw z (e.finds text)
    | inr z ↦ rw (z, same_text-hash text pat (ground (arith, z, t))) refl
  ];
})

-- A set of which one list is changed, that of the hash of the pattern.
module _ (set : GlobSet) (lists : Lists) (count : ℕ) (pat : Bytes) (f : List Pathndl → List Pathndl)
    (new : Option Pathndl) where
  abbrev k : ℕ
  k = place (hash_of pat) set.gmask

  abbrev changed : GlobSet
  changed = record set { count = count; exacts = some (change_at k f lists) }

  change-IsValid :
      set.exacts ≡ some lists
      → IsValid set
      → Edit (IsPlaced set.gmask k) (lists k) pat f new
      → IsValid changed
  change-IsValid x v e = record {
    dictionary = record {
      placed = λ i. elim (Bool-cases (i == k)) [
        | inl h ↦ rw h (
            subst (λ (j : ℕ). All (IsPlaced set.gmask j) (f (lists j))) (sym ((==_iff i k).0 h))
              e.belong)
        | inr h ↦ rw h (old i).0
      ];
      distinct = λ i. elim (Bool-cases (i == k)) [
        | inl h ↦
            rw h (subst (λ (j : ℕ). Distinct (f (lists j))) (sym ((==_iff i k).0 h)) e.distinct)
        | inr h ↦ rw h (old i).1
      ];
    };
    present = ap is_null (sym x) ∙ v.present;
    patterns = v.patterns;
    distinct = v.distinct;
  }
    where
      old : (i : ℕ) → All (IsPlaced set.gmask i) (lists i) × Distinct (lists i)
      old i =
          subst
            (λ (o : Option Lists).
              All (IsPlaced set.gmask i) (lists_of o i) × Distinct (lists_of o i))
            x (v.dictionary.placed i, v.dictionary.distinct i)

  change-searched :
      (hash_of pat == 0) ≡ false
      → set.exacts ≡ some lists
      → Edit (IsPlaced set.gmask k) (lists k) pat f new
      → (text : Bytes)
      → searched changed text ≡ (if same_text text pat then new else searched set text)
  unfolding list_for search
  change-searched t x e text = elim (Bool-cases (hash_of text == 0)) [
    | inl z ↦ rw (z, same_text-hash text pat (ground (arith, z, t))) refl
    | inr z ↦ elim (Bool-cases (place (hash_of text) set.gmask == k)) [
      | inl h ↦
          rw (z, h, x)
            (subst
              (λ (j : ℕ).
                find text (f (lists j)) ≡ (if same_text text pat then new else find text (lists j)))
              (sym ((==_iff (place (hash_of text) set.gmask) k).0 h)) (e.finds text))
      | inr h ↦ rw (z, h, x, same_text-hash text pat (ground (arith, h))) refl
    ]
  ]

  pub change-exacts :
      (hash_of pat == 0) ≡ false
      → set.exacts ≡ some lists
      → IsValid set
      → Edit (IsPlaced set.gmask k) (lists k) pat f new
      → Edited set pat new (done, changed)
  change-exacts t x v e = record { valid = change-IsValid x v e; found = change-searched t x e }
