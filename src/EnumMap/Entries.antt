-- ===== src/EnumMap/Entries.antt =====
-- Which entries the searches of src/misc/rp-enum-map.c find.
use mathlib.Core.Path.{subst}
use mathlib.Core.Option.{some-injective}
use rp_lib_utils.Common.{
  ℕ, ◌≡◌, refl, sym, ◌∙◌, ap, arith, inl, inr, true, false, Bool-cases, [], ◌∷◌, Bytes, some, ◌==◌,
  ==_iff, All,
}
use rp_lib_utils.EnumMap.{Entry, EnumMap, search_value, search_label}

module _ (x : Entry) (keyvals : EnumMap) where
  pub search_value_here : (v : ℕ) → (x.value == v) ≡ true → search_value (x ∷ keyvals) v ≡ some x
  unfolding search_value
  search_value_here v t = rw t refl

  pub search_value_behind :
      (v : ℕ) → (x.value == v) ≡ false → search_value (x ∷ keyvals) v ≡ search_value keyvals v
  unfolding search_value
  search_value_behind v t = rw t refl

  module _ (strcasecmp : Bytes → Bytes → ℕ) (l : Bytes) where
    pub search_label_here :
        (0 == strcasecmp x.label l) ≡ true → search_label strcasecmp (x ∷ keyvals) l ≡ some x
    unfolding search_label
    search_label_here t = rw t refl

    pub search_label_behind :
        (0 == strcasecmp x.label l) ≡ false
        → search_label strcasecmp (x ∷ keyvals) l ≡ search_label strcasecmp keyvals l
    unfolding search_label
    search_label_behind t = rw t refl

module _ {ℓ} (P : Entry → Type ℓ) where
  -- What holds of all entries holds of the one that is found.
  pub search_value-All :
      (keyvals : EnumMap) (v : ℕ) (kv : Entry)
      → All P keyvals
      → search_value keyvals v ≡ some kv
      → P kv
  search_value-All [] v kv h e = unfold search_value in absurd (ground (arith, e))
  search_value-All (x ∷ keyvals) v kv (px, h) e = elim (Bool-cases (x.value == v)) [
    | inl t ↦ subst P (some-injective x kv (sym (search_value_here x keyvals v t) ∙ e)) px
    | inr t ↦ search_value-All keyvals v kv h (sym (search_value_behind x keyvals v t) ∙ e)
  ]

  pub search_label-All :
      (strcasecmp : Bytes → Bytes → ℕ) (keyvals : EnumMap) (l : Bytes) (kv : Entry)
      → All P keyvals
      → search_label strcasecmp keyvals l ≡ some kv
      → P kv
  search_label-All strcasecmp [] l kv h e = unfold search_label in absurd (ground (arith, e))
  search_label-All strcasecmp (x ∷ keyvals) l kv (px, h) e =
      elim (Bool-cases (0 == strcasecmp x.label l)) [
        | inl t ↦
            subst P (some-injective x kv (sym (search_label_here x keyvals strcasecmp l t) ∙ e)) px
        | inr t ↦
            search_label-All strcasecmp keyvals l kv h
              (sym (search_label_behind x keyvals strcasecmp l t) ∙ e)
      ]

-- The entry that is found has the value.
pub search_value-value :
    (keyvals : EnumMap) (v : ℕ) (kv : Entry) → search_value keyvals v ≡ some kv → kv.value ≡ v
search_value-value [] v kv e = unfold search_value in absurd (ground (arith, e))
search_value-value (x ∷ keyvals) v kv e = elim (Bool-cases (x.value == v)) [
  | inl t ↦
      ap (λ (y : Entry). y.value)
        (sym (some-injective x kv (sym (search_value_here x keyvals v t) ∙ e)))
      ∙ (==_iff x.value v).0 t
  | inr t ↦ search_value-value keyvals v kv (sym (search_value_behind x keyvals v t) ∙ e)
]

pub search_label-label :
    (strcasecmp : Bytes → Bytes → ℕ) (keyvals : EnumMap) (l : Bytes) (kv : Entry)
    → search_label strcasecmp keyvals l ≡ some kv
    → strcasecmp kv.label l ≡ 0
search_label-label strcasecmp [] l kv e = unfold search_label in absurd (ground (arith, e))
search_label-label strcasecmp (x ∷ keyvals) l kv e = elim (Bool-cases (0 == strcasecmp x.label l)) [
  | inl t ↦
      subst (λ (y : Entry). strcasecmp y.label l ≡ 0)
        (some-injective x kv (sym (search_label_here x keyvals strcasecmp l t) ∙ e))
        (sym ((==_iff 0 (strcasecmp x.label l)).0 t))
  | inr t ↦
      search_label-label strcasecmp keyvals l kv
        (sym (search_label_behind x keyvals strcasecmp l t) ∙ e)
]
