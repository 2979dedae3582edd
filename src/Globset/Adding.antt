-- ===== src/Globset/Adding.antt =====
-- When `globset_add` of src/sandbox/globset.c succeeds.
use mathlib.Core.Path.{subst}
use rp_lib_utils.Common.{
  ℕ, ◌+◌, ◌-◌, ◌/◌, ◌%◌, ◌^◌, ◌≡◌, refl, ap, sym, ◌∙◌, arith, Bool, true, not, ◌||◌, Bool-cases,
  inl, inr, Bytes, Option, none, some, ltb, leb, ◌==◌, if◌then◌else◌,
}
use rp_lib_utils.Globset.{
  hash_of, normal, Pathndl, GlobSet, Status, done, exists, overflow, no_memory, wider, grow,
  change_list, put_back, append_new, count_up, add_new, add_grown, globset_add, globset_search,
}
use rp_lib_utils.Globset.Growing.{is_null, IsValid, searched, SameSet}
use rp_lib_utils.Globset.Editing.{is_done}
use rp_lib_utils.Globset.Sets.{hash_of-normal, grow-SameSet, globset_search-searched}
use rp_lib_utils.Globset.Deleting.{is_some, change_list-done}

-- Behind a successful growing there is an array.
grow-present :
    (calloc : Bool) (set : GlobSet)
    → IsValid set
    → (grow calloc set).0 ≡ done
    → not (is_null (grow calloc set).1.exacts) ≡ true
unfolding grow
grow-present calloc set v e =
    elim (Bool-cases (ltb ((set.count + 1) % 2 ^ 32) (set.gmask - set.gmask / 4))) [
      | inl t ↦ rw t (ap not v.present ∙ ground (arith, t))
      | inr t ↦ elim (Bool-cases (leb ((wider set.gmask + 1) % 2 ^ 32) (wider set.gmask))) [
        | inl u ↦ absurd (is_overflow (sym (rw (t, u) refl) ∙ e))
        | inr u ↦ elim (Bool-cases calloc) [
          | inl c ↦ rw (t, u, c) refl
          | inr c ↦ absurd (is_no_memory (sym (rw (t, u, c) refl) ∙ e))
        ]
      ]
    ]
  where
    is_overflow : overflow ≡ done → ⊥
    is_overflow h = absurd (cc)

    is_no_memory : no_memory ≡ done → ⊥
    is_no_memory h = absurd (cc)

module _ (callback closure : ℕ) (pat : Bytes) where
  add_new-done :
      (set : GlobSet)
      → ((hash_of pat == 0) || not (is_null set.exacts)) ≡ true
      → is_done (add_new true pat (hash_of pat) callback closure set).0
        ≡ not (is_some (searched set pat))
  unfolding add_new
  add_new-done set h = go (searched set pat)
    where
      go :
          (o : Option Pathndl)
          → is_done
              (elim o as (λ q. Status × GlobSet) [
                | some ph ↦ (exists, set)
                | none ↦ put_back set (
                    change_list
                      (hash_of pat)
                      (append_new pat (hash_of pat) callback closure)
                      (count_up (hash_of pat) set))
              ]).0
            ≡ not (is_some o)
      go (some ph) = refl
      go none =
          change_list-done set (count_up (hash_of pat) set).count (hash_of pat)
            (append_new pat (hash_of pat) callback closure) h

  add_grown-done :
      (set : GlobSet) (r : Status × GlobSet)
      → SameSet set r.1
      → r.0 ≡ done
      → ((hash_of pat == 0) || not (is_null r.1.exacts)) ≡ true
      → is_done (add_grown true pat (hash_of pat) callback closure r).0
        ≡ not (is_some (searched set pat))
  add_grown-done set (status, g) s e h =
      subst
        (λ (status : Status).
          is_done (add_grown true pat (hash_of pat) callback closure (status, g)).0
          ≡ not (is_some (searched set pat)))
        (sym e) (add_new-done g h ∙ ap (λ (o : Option Pathndl). not (is_some o)) (s.same pat))

-- When there is memory, and the dictionary has grown where it must, `globset_add` succeeds exactly
-- when `globset_search` finds no handler for the pattern. (The set is well formed.)
pub globset_add-done :
    (calloc : Bool) (set : GlobSet) (pattern : Bytes) (callback closure : ℕ)
    → IsValid set
    → (grow calloc set).0 ≡ done
    → is_done (globset_add calloc true set pattern callback closure).0
      ≡ not (is_some (globset_search set pattern))
unfolding globset_add
globset_add-done calloc set pattern callback closure v e =
    subst
      (λ (h : ℕ).
        is_done
          (add_grown true (normal pattern) h callback closure
            (if h == 0 then (done, set) else grow calloc set)).0
        ≡ not (is_some (searched set (normal pattern))))
      (hash_of-normal pattern) (whole (normal pattern))
    ∙ ap (λ (o : Option Pathndl). not (is_some o)) (sym (globset_search-searched set pattern))
  where
    whole :
        (pat : Bytes)
        → is_done
            (add_grown true pat
              (hash_of pat)
              callback
              closure
              (if hash_of pat == 0 then (done, set) else grow calloc set)).0
          ≡ not (is_some (searched set pat))
    whole pat = elim (Bool-cases (hash_of pat == 0)) [
      | inl t ↦ rw t (
          add_grown-done callback closure pat set (done, set)
            (record { valid = v; same = λ text. refl }) refl (rw t refl))
      | inr t ↦ rw t (
          add_grown-done callback closure pat set (grow calloc set) (grow-SameSet calloc set v) e
            (rw t (grow-present calloc set v e)))
    ]
