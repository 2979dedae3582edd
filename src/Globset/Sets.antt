-- ===== src/Globset/Sets.antt =====
-- The sets of src/sandbox/globset.c as maps from normalized texts to handlers.
use mathlib.Core.Path.{subst}
use rp_lib_utils.Common.{
  either, ℕ, ◌+◌, ◌-◌, ◌/◌, ◌%◌, ◌^◌, ◌≡◌, refl, ap, sym, ◌∙◌, arith, Bool, true, false, ◌&&◌, [],
  ◌∷◌, length-map, All, Bytes, Option, none, some, ltb, leb, ◌==◌, if◌then◌else◌,
}
use rp_lib_utils.Globmatch.{glob}
use rp_lib_utils.Globset.{
  lower, mix, is_glob, mixed, hash_of, normal, same_text, Pathndl, Lists, lists_of, place, find,
  GlobSet, Status, done, exists, absent, overflow, no_memory, fault, wider, grown, grow, list_for,
  search, change_list, put_back, append_new, count_up, add_new, add_grown, globset_add,
  globset_search,
}
use rp_lib_utils.Globset.Moving.{IsPlaced, Distinct}
use rp_lib_utils.Globset.Growing.{IsGlob, IsValid, searched, SameSet, grown-SameSet}
use rp_lib_utils.Globset.Editing.{is_done, Edited, unedited}
use rp_lib_utils.Globset.Handlers.{append-Edit, put_back-Edited}

-- A normalized text has the same hash.
lower-lower : (c : ℕ) → lower (lower c) ≡ lower c
lower-lower c = ground arith

lower-glob : (c : ℕ) → (lower c == glob) ≡ (c == glob)
lower-glob c = ground arith

is_glob-normal : (from : Bytes) → is_glob (normal from) ≡ is_glob from
is_glob-normal [] = refl
is_glob-normal (c ∷ from) =
    ap (λ (b : Bool). if b then true else is_glob (normal from)) (lower-glob c)
    ∙ ap (λ (b : Bool). if c == glob then true else b) (is_glob-normal from)

mixed-normal : (from : Bytes) (hash : ℕ) → mixed hash (normal from) ≡ mixed hash from
unfolding mixed mix
mixed-normal [] hash = refl
mixed-normal (c ∷ from) hash =
    mixed-normal from (mix hash (lower c)) ∙ ap (λ (h : ℕ). mixed h from) (same hash c)
  where
    same : (hash c : ℕ) → mix hash (lower c) ≡ mix hash c
    same hash c = rw (lower-lower c) refl

pub hash_of-normal : (from : Bytes) → hash_of (normal from) ≡ hash_of from
unfolding hash_of
hash_of-normal from = rw (is_glob-normal from, length-map from lower, mixed-normal from 0) refl

pub globset_search-searched :
    (set : GlobSet) (text : Bytes) → globset_search set text ≡ searched set (normal text)
unfolding globset_search
globset_search-searched set text = ap (search set (normal text)) (sym (hash_of-normal text))

pub grow-SameSet : (calloc : Bool) (set : GlobSet) → IsValid set → SameSet set (grow calloc set).1
unfolding grow
grow-SameSet calloc set v =
    let same : SameSet set set = record { valid = v; same = λ text. refl } in
    let kept : Status × GlobSet → Type 0 = λ (r : Status × GlobSet). SameSet set r.1 in
    either kept (ltb ((set.count + 1) % 2 ^ 32) (set.gmask - set.gmask / 4)) (done, set)
      (if leb ((wider set.gmask + 1) % 2 ^ 32) (wider set.gmask)
        then (overflow, set)
        else if calloc
        then (done, grown set)
        else (no_memory, set))
      same
      (either kept (leb ((wider set.gmask + 1) % 2 ^ 32) (wider set.gmask)) (overflow, set)
        (if calloc then (done, grown set) else (no_memory, set)) same
        (either kept calloc (done, grown set) (no_memory, set) (grown-SameSet set v) same))

absent_pattern :
    (set : GlobSet) (pat : Bytes)
    → (hash_of pat == 0) ≡ true
    → search set pat (hash_of pat) ≡ none
    → find pat set.globs ≡ none
unfolding search list_for
absent_pattern set pat t e = sym (rw t refl) ∙ e

absent_exact :
    (set : GlobSet) (pat : Bytes) (lists : Lists)
    → (hash_of pat == 0) ≡ false
    → set.exacts ≡ some lists
    → search set pat (hash_of pat) ≡ none
    → find pat (lists (place (hash_of pat) set.gmask)) ≡ none
unfolding search list_for
absent_exact set pat lists t x e = sym (rw (t, x) refl) ∙ e

pub array_facts :
    (set : GlobSet) (pat : Bytes) (lists : Lists)
    → set.exacts ≡ some lists
    → IsValid set
    → All
        (IsPlaced set.gmask (place (hash_of pat) set.gmask))
        (lists (place (hash_of pat) set.gmask))
      × Distinct (lists (place (hash_of pat) set.gmask))
array_facts set pat lists x v =
    let i = place (hash_of pat) set.gmask in
    subst
      (λ (o : Option Lists). All (IsPlaced set.gmask i) (lists_of o i) × Distinct (lists_of o i)) x
      (v.dictionary.placed i, v.dictionary.distinct i)

-- The handler that is added.
abbrev pub handler : ℕ → ℕ → Bytes → Pathndl
handler callback closure pat = record {
  hash = hash_of pat;
  callback = callback;
  closure = closure;
  pattern = pat;
}

module _ (callback closure : ℕ) (pat : Bytes) where
  add_new-Edited :
      (malloc : Bool) (set : GlobSet)
      → IsValid set
      → Edited set pat
          (some (handler callback closure pat))
          (add_new malloc pat (hash_of pat) callback closure set)
  unfolding add_new
  add_new-Edited malloc set v = go (search set pat (hash_of pat)) refl
    where
      new : Pathndl
      new = handler callback closure pat

      same : (status : Status) → is_done status ≡ false → Edited set pat (some new) (status, set)
      same status e = unedited set set pat (some new) status e v (λ text. refl)

      go :
          (o : Option Pathndl)
          → search set pat (hash_of pat) ≡ o
          → Edited set pat (some new) (elim o [
            | some ph ↦ (exists, set)
            | none ↦
                if malloc
                then put_back set (
                    change_list
                      (hash_of pat)
                      (append_new pat (hash_of pat) callback closure)
                      (count_up (hash_of pat) set))
                else (no_memory, set)
          ])
      go (some ph) e = same exists refl
      go none e =
          either (Edited set pat (some new)) malloc
            (put_back set (
              change_list (hash_of pat) (append_new pat (hash_of pat) callback closure)
                (count_up (hash_of pat) set)))
            (no_memory, set)
            (put_back-Edited set (count_up (hash_of pat) set).count pat
              (append_new pat (hash_of pat) callback closure) (some new) v
              (λ t.
                append-Edit IsGlob set.globs new t v.patterns v.distinct
                  (absent_pattern set pat t e))
              (λ lists t x.
                let (p, d) = array_facts set pat lists x v in
                append-Edit (IsPlaced set.gmask (place (hash_of pat) set.gmask))
                  (lists (place (hash_of pat) set.gmask)) new ((refl, t), refl) p d
                  (absent_exact set pat lists t x e)))
            (same no_memory refl)

  add_grown-Edited :
      (malloc : Bool) (set : GlobSet) (r : Status × GlobSet)
      → SameSet set r.1
      → Edited set pat
          (some (handler callback closure pat))
          (add_grown malloc pat (hash_of pat) callback closure r)
  add_grown-Edited malloc set (done, grew) s =
      let added = add_new-Edited malloc grew s.valid in
      let r = add_new malloc pat (hash_of pat) callback closure grew in
      record {
        valid = added.valid;
        found = λ text.
            added.found text
            ∙ ap
                (λ (o : Option Pathndl).
                  if is_done r.0 && same_text text pat
                  then some (handler callback closure pat)
                  else o)
                (s.same text);
      }
  add_grown-Edited malloc set (exists, grew) s =
      unedited set grew pat (some (handler callback closure pat)) exists refl s.valid s.same
  add_grown-Edited malloc set (absent, grew) s =
      unedited set grew pat (some (handler callback closure pat)) absent refl s.valid s.same
  add_grown-Edited malloc set (overflow, grew) s =
      unedited set grew pat (some (handler callback closure pat)) overflow refl s.valid s.same
  add_grown-Edited malloc set (no_memory, grew) s =
      unedited set grew pat (some (handler callback closure pat)) no_memory refl s.valid s.same
  add_grown-Edited malloc set (fault, grew) s =
      unedited set grew pat (some (handler callback closure pat)) fault refl s.valid s.same

-- What `globset_search` finds behind an operation.
pub searched-globset_search :
    (set : GlobSet) (pattern : Bytes) (new : Option Pathndl) (r : Status × GlobSet)
    → Edited set (normal pattern) new r
    → (text : Bytes)
    → globset_search r.1 text ≡ (
        if is_done r.0 && same_text (normal text) (normal pattern)
        then new
        else globset_search set text)
searched-globset_search set pattern new r e text =
    globset_search-searched r.1 text
    ∙ e.found (normal text)
    ∙ ap
        (λ (o : Option Pathndl).
          if is_done r.0 && same_text (normal text) (normal pattern) then new else o)
        (sym (globset_search-searched set text))

globset_add-Edited :
    (calloc malloc : Bool) (set : GlobSet) (pattern : Bytes) (callback closure : ℕ)
    → IsValid set
    → Edited set
        (normal pattern)
        (some (handler callback closure (normal pattern)))
        (globset_add calloc malloc set pattern callback closure)
unfolding globset_add
globset_add-Edited calloc malloc set pattern callback closure v =
    subst
      (λ (h : ℕ). Edited set (normal pattern) (some (handler callback closure (normal pattern))) (
        add_grown malloc (normal pattern) h callback closure
          (if h == 0 then (done, set) else grow calloc set)))
      (hash_of-normal pattern)
      (add_grown-Edited callback closure (normal pattern) malloc set
        (if hash_of (normal pattern) == 0 then (done, set) else grow calloc set)
        (either (λ (r : Status × GlobSet). SameSet set r.1) (hash_of (normal pattern) == 0)
          (done, set) (grow calloc set) (record { valid = v; same = λ text. refl })
          (grow-SameSet calloc set v)))

-- `globset_add` leaves a set that is well formed, in which `globset_search` finds the new handler for
-- all spellings of its pattern that differ in the case of letters, and for all other texts what it
-- found before, however the dictionary has grown. When it fails, for whatever reason, it finds the
-- same as before for all texts. (The set is well formed.)
pub globset_search-globset_add :
    (calloc malloc : Bool) (set : GlobSet) (pattern : Bytes) (callback closure : ℕ) (text : Bytes)
    → IsValid set
    → IsValid (globset_add calloc malloc set pattern callback closure).1
      × (globset_search (globset_add calloc malloc set pattern callback closure).1 text ≡ (
          if is_done (globset_add calloc malloc set pattern callback closure).0
            && same_text (normal text) (normal pattern)
          then some (handler callback closure (normal pattern))
          else globset_search set text))
globset_search-globset_add calloc malloc set pattern callback closure text v =
    let e = globset_add-Edited calloc malloc set pattern callback closure v in
    (
      e.valid,
      searched-globset_search set pattern (some (handler callback closure (normal pattern)))
          (globset_add calloc malloc set pattern callback closure) e text,
    )
