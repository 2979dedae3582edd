-- ===== src/Subpath/Join.antt =====
-- src/sandbox/subpath.c: paths that are put together with a slash.
use rp_lib_utils.Common.{
  ℕ, zero, suc, ◌+◌, ◌≡◌, ◌≢◌, inl, inr, refl, ap, sym, ◌∙◌, arith, Bool, true, false, Option-cases,
  List, [], ◌∷◌, ◌++◌, Bytes, Option, none, some, ◌==◌, if◌then◌else◌,
}
use rp_lib_utils.Subpath.{subpath_is_valid}
use rp_lib_utils.Subpath.Depth.{components, walk_one, walk, take_name, others, components-others}
use rp_lib_utils.Subpath.Validity.{is_absolute, StaysBelowRoot, subpath_is_valid_iff}

-- A walk that ends at a depth does so as much deeper as it starts deeper.
walk_one_deeper :
    (name : Bytes) (k m n : ℕ)
    → walk_one name (some m) ≡ some n
    → walk_one name (some (m + k)) ≡ some (n + k)
unfolding walk_one
walk_one_deeper [] k m n h = ground (arith, h)
walk_one_deeper (a ∷ []) k m n h = ground (arith, h)
walk_one_deeper (a ∷ b ∷ []) k zero n h = ground (arith, h)
walk_one_deeper (a ∷ b ∷ []) k (suc m) n h = ground (arith, h)
walk_one_deeper (a ∷ b ∷ c ∷ name) k m n h = ground (arith, h)

walk-none : (names : List Bytes) → walk names none ≡ none
unfolding walk walk_one
walk-none [] = refl
walk-none (name ∷ names) = walk-none names

walk_deeper :
    (names : List Bytes) (k m n : ℕ)
    → walk names (some m) ≡ some n
    → walk names (some (m + k)) ≡ some (n + k)
unfolding walk
walk_deeper [] k m n h = ground (arith, h)
walk_deeper (name ∷ names) k m n h = elim (Option-cases (walk_one name (some m))) [
  | inl e ↦ absurd (ground (arith, sym h ∙ ap (walk names) e ∙ walk-none names))
  | inr (x, e) ↦
      ap (walk names) (walk_one_deeper name k m x e)
      ∙ walk_deeper names k x n (sym (ap (walk names) e) ∙ h)
]

walk_both : (a b : List Bytes) (d : Option ℕ) → walk (a ++ b) d ≡ walk b (walk a d)
unfolding walk
walk_both [] b d = refl
walk_both (name ∷ a) b d = walk_both a b (walk_one name d)

components-append : (a b : Bytes) → components (a ++ b'/' ∷ b) ≡ components a ++ components b
unfolding components
components-append [] b = rw (components-others b) refl
components-append (c ∷ a) b = rw (components-append a b, components-others a) (branches (c == b'/'))
  where
    branches :
        (t : Bool)
        → (if t
            then [] ∷ take_name a ∷ (others a ++ components b)
            else (c ∷ take_name a) ∷ (others a ++ components b))
          ≡ (if t then [] ∷ take_name a ∷ others a else (c ∷ take_name a) ∷ others a)
            ++ components b
    branches true = refl
    branches false = refl

plus_0 : (m : ℕ) → m ≡ 0 + m
plus_0 m = omega arith

-- A valid path, a slash and a valid path are a valid path, but for an empty first one.
subpath_is_valid-append :
    (a b : Bytes)
    → a ≢ []
    → subpath_is_valid a ≡ true
    → subpath_is_valid b ≡ true
    → subpath_is_valid (a ++ b'/' ∷ b) ≡ true
subpath_is_valid-append [] b ne ha hb = absurd (ne refl)
subpath_is_valid-append (c ∷ a) b ne ha hb =
    joined ((subpath_is_valid_iff (c ∷ a)).0 ha) ((subpath_is_valid_iff b).0 hb).1
  where
    joined :
        (is_absolute (c ∷ a) ≡ false) × StaysBelowRoot (c ∷ a)
        → StaysBelowRoot b
        → subpath_is_valid (c ∷ a ++ b'/' ∷ b) ≡ true
    joined (e, (m, h)) (n, g) = (subpath_is_valid_iff (c ∷ a ++ b'/' ∷ b)).1 (
      e,
      (
        n + m,
        ap (λ names. walk names (some 0)) (components-append (c ∷ a) b)
            ∙ walk_both (components (c ∷ a)) (components b) (some 0)
            ∙ ap (walk (components b)) h
            ∙ ap (λ d. walk (components b) (some d)) (plus_0 m)
            ∙ walk_deeper (components b) m 0 n g,
      ),
    )
