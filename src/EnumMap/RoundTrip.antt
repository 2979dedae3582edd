-- ===== src/EnumMap/RoundTrip.antt =====
-- src/misc/rp-enum-map.c: from a value to its label and back, and from a label to its value and back.
use mathlib.Core.Path.{subst}
use mathlib.Core.Option.{some-injective}
use rp_lib_utils.Common.{
  ℕ, ◌≡◌, ◌↔◌, refl, sym, ◌∙◌, ap, arith, inl, inr, true, false, Bool-cases, Option-cases, [], ◌∷◌,
  Bytes, Option, none, some, ◌==◌, ==_iff, All,
}
use rp_lib_utils.EnumMap.{
  Entry, EnumMap, search_value, search_label, enum_map_label, enum_map_value, enum_map_has_label,
  enum_map_value_def, found,
}
use rp_lib_utils.EnumMap.Entries.{
  search_value-All, search_label-All, search_value-value, search_label-label, search_value_here,
  search_value_behind, search_label_here, search_label_behind,
}

-- No label stands twice, up to case.
abbrev pub DistinctLabels : (Bytes → Bytes → ℕ) → EnumMap → Type 0
DistinctLabels strcasecmp [] = Unit
DistinctLabels strcasecmp (kv ∷ keyvals) =
    All (λ other. (0 == strcasecmp kv.label other.label) ≡ false) keyvals
    × DistinctLabels strcasecmp keyvals

abbrev pub DistinctValues : EnumMap → Type 0
DistinctValues [] = Unit
DistinctValues (kv ∷ keyvals) =
    All (λ other. (kv.value == other.value) ≡ false) keyvals × DistinctValues keyvals

module _ (strcasecmp : Bytes → Bytes → ℕ) where
  label-found :
      (same : (l : Bytes) → strcasecmp l l ≡ 0) (keyvals : EnumMap) (v : ℕ) (kv : Entry)
      → DistinctLabels strcasecmp keyvals
      → search_value keyvals v ≡ some kv
      → search_label strcasecmp keyvals kv.label ≡ some kv
  label-found same [] v kv h e = unfold search_value in absurd (ground (arith, e))
  label-found same (x ∷ keyvals) v kv (hx, h) e = elim (Bool-cases (x.value == v)) [
    | inl t ↦
        subst (λ y. search_label strcasecmp (x ∷ keyvals) y.label ≡ some y)
          (some-injective x kv (sym (search_value_here x keyvals v t) ∙ e))
          (search_label_here x keyvals strcasecmp x.label
            ((==_iff 0 (strcasecmp x.label x.label)).1 (sym (same x.label))))
    | inr t ↦
        let e' : search_value keyvals v ≡ some kv = sym (search_value_behind x keyvals v t) ∙ e in
        search_label_behind x keyvals strcasecmp kv.label (
          search_value-All (λ other. (0 == strcasecmp x.label other.label) ≡ false) keyvals v kv hx
            e')
        ∙ label-found same keyvals v kv h e'
  ]

  value-found :
      (keyvals : EnumMap) (l : Bytes) (kv : Entry)
      → DistinctValues keyvals
      → search_label strcasecmp keyvals l ≡ some kv
      → search_value keyvals kv.value ≡ some kv
  value-found [] l kv h e = unfold search_label in absurd (ground (arith, e))
  value-found (x ∷ keyvals) l kv (hx, h) e = elim (Bool-cases (0 == strcasecmp x.label l)) [
    | inl t ↦
        subst (λ y. search_value (x ∷ keyvals) y.value ≡ some y)
          (some-injective x kv (sym (search_label_here x keyvals strcasecmp l t) ∙ e))
          (search_value_here x keyvals x.value ((==_iff x.value x.value).1 refl))
    | inr t ↦
        let e' : search_label strcasecmp keyvals l ≡ some kv =
          sym (search_label_behind x keyvals strcasecmp l t) ∙ e in
        search_value_behind x keyvals kv.value (
          search_label-All (λ other. (x.value == other.value) ≡ false) strcasecmp keyvals l kv hx
            e')
        ∙ value-found keyvals l kv h e'
  ]

  label_lem :
      (keyvals : EnumMap) (v : ℕ) (kv : Entry)
      → search_value keyvals v ≡ some kv
      → enum_map_label keyvals v ≡ some kv.label
  unfolding enum_map_label
  label_lem keyvals v kv t = rw (enum_map_label, t) refl

  value_lem :
      (keyvals : EnumMap) (l : Bytes) (kv : Entry)
      → search_label strcasecmp keyvals l ≡ some kv
      → enum_map_value strcasecmp keyvals l ≡ some kv.value
  unfolding enum_map_value
  value_lem keyvals l kv t = rw (enum_map_value, t) refl

  -- The label found for a value leads back to the value, in a map in which no label stands twice
  -- up to case, if `strcasecmp` finds a text equal to itself.
  pub enum_map_value-enum_map_label :
      (same : (l : Bytes) → strcasecmp l l ≡ 0) (keyvals : EnumMap) (v : ℕ) (l : Bytes)
      → DistinctLabels strcasecmp keyvals
      → enum_map_label keyvals v ≡ some l
      → enum_map_value strcasecmp keyvals l ≡ some v
  unfolding enum_map_value enum_map_label
  enum_map_value-enum_map_label same keyvals v l h e =
      elim (Option-cases (search_value keyvals v)) [
        | inl t ↦ absurd (ground (arith, e, t))
        | inr (kv, t) ↦
            subst (λ x. enum_map_value strcasecmp keyvals x ≡ some v)
              (some-injective kv.label l (sym (label_lem keyvals v kv t) ∙ e))
              (value_lem keyvals kv.label kv (label-found same keyvals v kv h t)
                ∙ ap some (search_value-value keyvals v kv t))
      ]

  -- The value found for a label leads back to a label that `strcasecmp` finds equal to it, in a
  -- map in which no value stands twice.
  enum_map_label-enum_map_value :
      (keyvals : EnumMap) (l : Bytes) (v : ℕ)
      → DistinctValues keyvals
      → enum_map_value strcasecmp keyvals l ≡ some v
      → (found : Bytes) × (enum_map_label keyvals v ≡ some found) × (strcasecmp found l ≡ 0)
  unfolding enum_map_value enum_map_label
  enum_map_label-enum_map_value keyvals l v h e =
      elim (Option-cases (search_label strcasecmp keyvals l)) [
        | inl t ↦ absurd (ground (arith, e, t))
        | inr (kv, t) ↦ (
          kv.label,
          subst (λ x. enum_map_label keyvals x ≡ some kv.label)
              (some-injective kv.value v (sym (value_lem keyvals l kv t) ∙ e))
              (label_lem keyvals kv.value kv (value-found keyvals l kv h t)),
          search_label-label strcasecmp keyvals l kv t,
        )
      ]

  -- A label is in the map exactly when the value found for it does not depend on the default.
  enum_map_has_label-enum_map_value_def :
      (keyvals : EnumMap) (l : Bytes)
      → (enum_map_has_label strcasecmp keyvals l ≡ true) ↔ (
          (a b : ℕ)
          → enum_map_value_def strcasecmp keyvals l a ≡ enum_map_value_def strcasecmp keyvals l b)
  unfolding enum_map_has_label enum_map_value_def enum_map_value
  enum_map_has_label-enum_map_value_def keyvals l =
      elim (search_label strcasecmp keyvals l)
        as (λ o. (found o ≡ true) ↔ (
          (a b : ℕ)
          → elim (elim o as (λ x. Option ℕ) [ none ↦ none | some kv ↦ some kv.value ]) as (λ x. ℕ) [
            | none ↦ a
            | some v ↦ v
          ]
            ≡ elim (elim o as (λ x. Option ℕ) [ none ↦ none | some kv ↦ some kv.value ])
                as (λ x. ℕ) [ none ↦ b | some v ↦ v ])) [
                  | none ↦ (λ h. absurd (ground (arith, h)), λ h. absurd (ground (arith, h 0 1)))
                  | some kv ↦ (λ h a b. refl, λ h. refl)
                ]
