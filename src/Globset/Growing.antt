-- ===== src/Globset/Growing.antt =====
-- The growing of the dictionary of src/sandbox/globset.c, and its well-formed sets.
use rp_lib_utils.Common.{
  ℕ, zero, suc, ◌*◌, ◌%◌, ◌^◌, ◌≡◌, refl, ap, sym, ◌∙◌, arith, Bool, true, false, Bool-cases, inl,
  inr, List, [], ◌∷◌, All, Bytes, Option, none, some, ltb, ◌==◌, ==_iff, if◌then◌else◌,
}
use rp_lib_utils.Common.Bits.{bit_and-le, bit_or-ge}
use rp_lib_utils.Globset.{
  hash_of, Pathndl, Lists, empties, lists_of, place, move_lists, find, GlobSet, wider, grown,
  list_for, search,
}
use rp_lib_utils.Globset.Moving.{
  IsHashed, IsPlaced, IsDictionary, Distinct, IsFree, found_in, or_else, or_else-none, find-placed,
  move_list-find, move_list-IsDictionary,
}

empties-IsDictionary : (gmask : ℕ) → IsDictionary gmask empties
empties-IsDictionary gmask = record { placed = λ i. tt; distinct = λ i. tt }

placed-IsHashed :
    (gmask i : ℕ) (list : List Pathndl) → All (IsPlaced gmask i) list → All IsHashed list
placed-IsHashed gmask i [] p = tt
placed-IsHashed gmask i (ph ∷ list) (p, ps) = (p.0, placed-IsHashed gmask i list ps)

-- What is known when the first `n` lists of `old` have been moved to `new`.
record Moved (gmask wide n : ℕ) (old new : Lists) : Type 0 where
  dictionary : IsDictionary wide new
  found :
      (text : Bytes)
      → found_in wide new text
        ≡ (if ltb (place (hash_of text) gmask) n then found_in gmask old text else none)

Moved-IsFree :
    (gmask wide n : ℕ) (old new : Lists) (list : List Pathndl)
    → Moved gmask wide n old new
    → All (IsPlaced gmask n) list
    → All (IsFree wide new) list
Moved-IsFree gmask wide n old new [] m p = tt
Moved-IsFree gmask wide n old new (ph ∷ list) m ((h, e), ps) =
    (m.found ph.pattern ∙ rw not_yet refl, Moved-IsFree gmask wide n old new list m ps)
  where
    not_yet : ltb (place (hash_of ph.pattern) gmask) n ≡ false
    not_yet = ground (arith, e, ap (λ (k : ℕ). place k gmask) h.0)

-- What is found in the first `n` lists, and then in list `n`, is what is found in all of them.
found-suc :
    (gmask n : ℕ) (old : Lists) (text : Bytes)
    → All (IsPlaced gmask n) (old n)
    → or_else
        (if ltb (place (hash_of text) gmask) n then found_in gmask old text else none)
        (find text (old n))
      ≡ (if ltb (place (hash_of text) gmask) (suc n) then found_in gmask old text else none)
unfolding find
found-suc gmask n old text p =
    let k = place (hash_of text) gmask in
    elim (Bool-cases (k == n)) [
      | inl t ↦
          let e : k ≡ n = (==_iff k n).0 t in
          rw (before k e, within k e) (ap (λ (i : ℕ). find text (old i)) (sym e))
      | inr t ↦
          let absent = find-placed gmask n text (old n) p t in
          ap (or_else (if ltb k n then found_in gmask old text else none)) absent
          ∙ sym (or_else-none (if ltb k n then found_in gmask old text else none))
          ∙ ap (λ (b : Bool). if b then found_in gmask old text else none) (same k t)
    ]
  where
    before : (k : ℕ) → k ≡ n → ltb k n ≡ false
    before k e = ground (arith, e)

    within : (k : ℕ) → k ≡ n → ltb k (suc n) ≡ true
    within k e = ground (arith, e)

    same : (k : ℕ) → (k == n) ≡ false → ltb k n ≡ ltb k (suc n)
    same k t = ground (arith, t)

move_lists-Moved :
    (gmask wide n : ℕ) (old : Lists)
    → IsDictionary gmask old
    → Moved gmask wide n old (move_lists wide n old)
unfolding move_lists find
move_lists-Moved gmask wide zero old d = record {
  dictionary = empties-IsDictionary wide;
  found = λ text. rw (none_yet (place (hash_of text) gmask)) refl;
}
  where
    none_yet : (k : ℕ) → ltb k 0 ≡ false
    none_yet k = ground arith
move_lists-Moved gmask wide (suc n) old d =
    let m = move_lists-Moved gmask wide n old d in
    let new = move_lists wide n old in
    let hashed = placed-IsHashed gmask n (old n) (d.placed n) in
    let free = Moved-IsFree gmask wide n old new (old n) m (d.placed n) in
    record {
      dictionary = move_list-IsDictionary wide (old n) new hashed (d.distinct n) free m.dictionary;
      found = λ text.
          move_list-find wide (old n) new text hashed (d.distinct n) free
          ∙ ap (λ (o : Option Pathndl). or_else o (find text (old n))) (m.found text)
          ∙ found-suc gmask n old text (d.placed n);
    }

abbrev pub is_null : Option Lists → Bool
is_null none = true
is_null (some lists) = false

-- A pattern with a glob has no hash.
abbrev pub IsGlob : Pathndl → Type 0
IsGlob ph = (hash_of ph.pattern == 0) ≡ true

-- A well-formed set.
pub record IsValid (set : GlobSet) : Type 0 where
  pub dictionary : IsDictionary set.gmask (lists_of set.exacts)
  pub present : is_null set.exacts ≡ (set.gmask == 0)
  pub patterns : All IsGlob set.globs
  pub distinct : Distinct set.globs

-- What is found for a normalized text.
abbrev pub searched : GlobSet → Bytes → Option Pathndl
searched set text = search set text (hash_of text)

-- A set that holds what another one holds.
pub record SameSet (set set' : GlobSet) : Type 0 where
  pub valid : IsValid set'
  pub same : (text : Bytes) → searched set' text ≡ searched set text

null-empties : (exacts : Option Lists) → is_null exacts ≡ true → lists_of exacts ≡ empties
null-empties none e = refl
null-empties (some lists) e = absurd (cc)

search-lists :
    (set set' : GlobSet) (text : Bytes)
    → set'.globs ≡ set.globs
    → found_in set'.gmask (lists_of set'.exacts) text
      ≡ found_in set.gmask (lists_of set.exacts) text
    → searched set' text ≡ searched set text
unfolding search list_for
search-lists set set' text g e = elim (Bool-cases (hash_of text == 0)) [
  | inl t ↦ rw t (ap (find text) g)
  | inr t ↦ rw t e
]

pub grown-SameSet : (set : GlobSet) → IsValid set → SameSet set (grown set)
unfolding find
grown-SameSet set v = elim (Bool-cases (set.gmask == 0)) [
  | inl t ↦
      let none_yet = null-empties set.exacts (v.present ∙ t) in
      record {
        valid = record {
          dictionary = rw t (empties-IsDictionary (wider set.gmask));
          present = not_null;
          patterns = v.patterns;
          distinct = v.distinct;
        };
        same = λ text.
            search-lists set (grown set) text refl
              (rw t (ap (λ (lists : Lists). found_in set.gmask lists text) (sym none_yet)));
      }
  | inr t ↦
      let moved =
        move_lists-Moved set.gmask (wider set.gmask) (suc set.gmask) (lists_of set.exacts)
          v.dictionary in
      record {
        valid = record {
          dictionary = rw t moved.dictionary;
          present = not_null;
          patterns = v.patterns;
          distinct = v.distinct;
        };
        same = λ text.
            search-lists set (grown set) text refl
              (rw t (moved.found text ∙ rw (within text) refl));
      }
]
  where
    not_null : false ≡ (wider set.gmask == 0)
    not_null = ground (arith, bit_or-ge (set.gmask * 2 % 2 ^ 32) 15)

    within : (text : Bytes) → ltb (place (hash_of text) set.gmask) (suc set.gmask) ≡ true
    within text = ground (arith, bit_and-le (hash_of text) set.gmask)
