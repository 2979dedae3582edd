-- ===== src/Globset/Deleting.antt =====
-- The deletion of handlers in src/sandbox/globset.c.
use mathlib.Core.Path.{subst}
use rp_lib_utils.Common.{
  ℕ, ◌≡◌, refl, ap, ◌∙◌, Bool, true, false, not, ◌&&◌, ◌||◌, Bool-cases, Option-cases, inl, inr,
  List, Bytes, Option, none, some, ◌==◌, if◌then◌else◌,
}
use rp_lib_utils.Globset.{
  hash_of, normal, same_text, Pathndl, place, find, GlobSet, Status, absent, list_for, search,
  change_list, put_back, count_down, remove, globset_del, globset_search,
}
use rp_lib_utils.Globset.Moving.{IsPlaced}
use rp_lib_utils.Globset.Growing.{IsGlob, is_null, IsValid}
use rp_lib_utils.Globset.Editing.{is_done, Edited, unedited}
use rp_lib_utils.Globset.Handlers.{remove-Edit, put_back-Edited}
use rp_lib_utils.Globset.Sets.{hash_of-normal, array_facts, searched-globset_search}

abbrev pub closure_of : Option Pathndl → Option ℕ
closure_of none = none
closure_of (some ph) = some ph.closure

abbrev pub is_some : Option Pathndl → Bool
is_some none = false
is_some (some ph) = true

-- A change of a list succeeds where there is one.
pub change_list-done :
    (set : GlobSet) (count hash : ℕ) (f : List Pathndl → List Pathndl)
    → ((hash == 0) || not (is_null set.exacts)) ≡ true
    → is_done (put_back set (change_list hash f (record set { count = count }))).0 ≡ true
unfolding change_list
change_list-done set count hash f h = elim (Bool-cases (hash == 0)) [
  | inl t ↦ rw t refl
  | inr t ↦ elim (Option-cases set.exacts) [
    | inl x ↦ absurd (cc (h, t, ap is_null x))
    | inr (lists, x) ↦ rw (t, x) refl
  ]
]

null_search :
    (set : GlobSet) (text : Bytes) (hash : ℕ)
    → (hash == 0) ≡ false
    → set.exacts ≡ none
    → search set text hash ≡ none
unfolding search list_for find
null_search set text hash t x = rw (t, x) refl

-- Where something is found there is a list.
found_list :
    (set : GlobSet) (text : Bytes) (hash : ℕ) (ph : Pathndl)
    → search set text hash ≡ some ph
    → ((hash == 0) || not (is_null set.exacts)) ≡ true
unfolding search list_for find
found_list set text hash ph e = elim (Bool-cases (hash == 0)) [
  | inl t ↦ rw t refl
  | inr t ↦ elim (Option-cases set.exacts) [
    | inl x ↦ absurd (cc (null_search set text hash t x, e))
    | inr (lists, x) ↦ rw (t, x) refl
  ]
]

-- What a deletion of a normalized text does.
record Deleted (set : GlobSet) (pat : Bytes) (found : Option Pathndl)
    (r : Option ℕ × (Status × GlobSet)) : Type 0 where
  edited : Edited set pat none r.1
  given : r.0 ≡ closure_of found
  success : is_done r.1.0 ≡ is_some found

del-Deleted :
    (set : GlobSet) (pat : Bytes) (o : Option Pathndl)
    → IsValid set
    → search set pat (hash_of pat) ≡ o
    → Deleted set pat o (elim o [
      | none ↦ (none, (absent, set))
      | some ph ↦ (
        some ph.closure,
        put_back set (change_list (hash_of pat) (remove pat) (count_down (hash_of pat) set)),
      )
    ])
del-Deleted set pat none v e = record {
  edited = unedited set set pat none absent refl v (λ text. refl);
  given = refl;
  success = refl;
}
del-Deleted set pat (some ph) v e = record {
  edited =
      put_back-Edited set (count_down (hash_of pat) set).count pat (remove pat) none v
        (λ t. remove-Edit IsGlob set.globs pat v.patterns v.distinct)
        (λ lists t x.
          let (p, d) = array_facts set pat lists x v in
          remove-Edit (IsPlaced set.gmask (place (hash_of pat) set.gmask))
            (lists (place (hash_of pat) set.gmask)) pat p d);
  given = refl;
  success =
      change_list-done set (count_down (hash_of pat) set).count (hash_of pat) (remove pat)
        (found_list set pat (hash_of pat) ph e);
}

globset_del-Deleted :
    (set : GlobSet) (pattern : Bytes)
    → IsValid set
    → Deleted set (normal pattern) (globset_search set pattern) (globset_del set pattern)
unfolding globset_del globset_search
globset_del-Deleted set pattern v =
    let pat = normal pattern in
    subst
      (λ (h : ℕ). Deleted set pat (search set pat h) (elim (search set pat h) [
        | none ↦ (none, (absent, set))
        | some ph ↦ (some ph.closure, put_back set (change_list h (remove pat) (count_down h set)))
      ]))
      (hash_of-normal pattern) (del-Deleted set pat (search set pat (hash_of pat)) v refl)

-- `globset_del` succeeds exactly when `globset_search` finds a handler for the pattern, and gives its
-- closure. It leaves a set that is well formed, in which no handler is found for all spellings of the
-- pattern that differ in the case of letters, and for all other texts what was found before. (The set
-- is well formed.)
pub globset_search-globset_del :
    (set : GlobSet) (pattern : Bytes) (text : Bytes)
    → IsValid set
    → ((globset_del set pattern).0 ≡ closure_of (globset_search set pattern))
      × (is_done (globset_del set pattern).1.0 ≡ is_some (globset_search set pattern))
      × IsValid (globset_del set pattern).1.1
      × (globset_search (globset_del set pattern).1.1 text ≡ (
          if is_some (globset_search set pattern) && same_text (normal text) (normal pattern)
          then none
          else globset_search set text))
globset_search-globset_del set pattern text v =
    let d = globset_del-Deleted set pattern v in
    (
      d.given,
      d.success,
      d.edited.valid,
      searched-globset_search set pattern none (globset_del set pattern).1 d.edited text
          ∙ ap
              (λ (b : Bool).
                if b && same_text (normal text) (normal pattern)
                then none
                else globset_search set text)
              d.success,
    )
