-- ===== src/Globmatch/Patterns.antt =====
-- Which texts match a pattern of src/sandbox/globmatch.c, where a slash has no meaning of its own.
use mathlib.Core.Path.{subst}
use rp_lib_utils.Common.{
  ℕ, ◌+◌, ◌<◌, ◌≡◌, ◌↔◌, ◌⊎◌, inl, inr, refl, ap, sym, arith, Bool, true, false, Bool-cases, [],
  ◌∷◌, ◌++◌, append-nil, Bytes, ltb, ◌==◌, ==_iff, if◌then◌else◌,
}
use rp_lib_utils.Globmatch.{glob, Flags, eq, last_glob, best, total, match_from, match_score}

module _ (is_c : ℕ → Bool) (remaining : Bytes → ℕ) where
  -- A place in the text where the loop finds its character and the rest matches.
  abbrev pub Place : Bytes → Type 0
  Place [] = ⊥
  Place (x ∷ str) = ((is_c x ≡ true) × (0 < remaining str)) ⊎ Place str

  pub best_iff :
      (str : Bytes) (rs : ℕ) → (0 < best is_c remaining false str rs) ↔ ((0 < rs) ⊎ Place str)
  unfolding best
  best_iff [] rs = (λ h. inl h, λ h. elim h [ inl p ↦ p | inr f ↦ absurd f ])
  best_iff (x ∷ str) rs =
      ground (
        arith,
        best_iff str rs,
        best_iff str (if ltb rs (remaining str) then remaining str else rs),
      )

  Place-at :
      (before : Bytes) (x : ℕ) (rest : Bytes)
      → is_c x ≡ true
      → 0 < remaining rest
      → Place (before ++ x ∷ rest)
  Place-at [] x rest e h = inl (e, h)
  Place-at (y ∷ before) x rest e h = inr (Place-at before x rest e h)

  abbrev pub Found : Bytes → Type 0
  Found str =
      (before : Bytes) × (x : ℕ) × (rest : Bytes) × (str ≡ before ++ x ∷ rest)
      × (is_c x ≡ true)
      × (0 < remaining rest)

  Place-Found : (str : Bytes) → Place str → Found str
  Place-Found [] p = absurd p
  Place-Found (x ∷ str) (inl (e, h)) = ([], x, str, refl, e, h)
  Place-Found (x ∷ str) (inr p) = further (Place-Found str p)
    where
      further : Found str → Found (x ∷ str)
      further (before, y, rest, q, e, h) = (x ∷ before, y, rest, ap (λ s. x ∷ s) q, e, h)

  pub Place-iff : (str : Bytes) → Place str ↔ Found str
  Place-iff str = (
    Place-Found str,
    λ (before, x, rest, q, e, h). subst Place (sym q) (Place-at before x rest e h),
  )

-- A character of a pattern stands for itself or, where the case does not count, for those that are the
-- same in lower case.
abbrev pub Same : (ℕ → ℕ) → Bool → ℕ → ℕ → Type 0
Same tolower true p x = tolower p ≡ tolower x
Same tolower false p x = p ≡ x

eq-Same :
    (tolower : ℕ → ℕ) (casefold : Bool) (p x : ℕ)
    → (eq tolower (record { casefold = casefold; pathname = false }) p x ≡ true)
      ↔ Same tolower casefold p x
unfolding eq
eq-Same tolower true p x = ==_iff (tolower p) (tolower x)
eq-Same tolower false p x = ==_iff p x

-- Two globs do not follow one another.
abbrev pub SingleGlobs : Bytes → Type 0
SingleGlobs [] = Unit
SingleGlobs (p ∷ []) = Unit
SingleGlobs (p ∷ c ∷ pat) = ((p == b'*') ≡ true → (c == b'*') ≡ false) × SingleGlobs (c ∷ pat)

rest_single : (c : ℕ) (pat : Bytes) → SingleGlobs (c ∷ pat) → SingleGlobs pat
rest_single c [] h = tt
rest_single c (d ∷ pat) h = h.1

module _ (tolower : ℕ → ℕ) (casefold : Bool) where
  abbrev pub plain : Flags
  plain = record { casefold = casefold; pathname = false }

  -- A pattern matches a text: `*` stands for any characters, and any other character for the same.
  unfoldable pub Matches : Bytes → Bytes → Type 0
  Matches [] str = str ≡ []
  Matches (p ∷ pat) str = elim (p == b'*') [
    | true ↦ (before rest : Bytes) × (str ≡ before ++ rest) × Matches pat rest
    | false ↦ elim str [ [] ↦ ⊥ | x ∷ rest ↦ Same tolower casefold p x × Matches pat rest ]
  ]

  last_step :
      (p r : ℕ) (str : Bytes) → (p == glob) ≡ true → match_from tolower plain (p ∷ []) str r ≡ r
  unfolding match_from last_glob
  last_step p r [] e = rw e refl
  last_step p r (x ∷ str) e = rw e refl

  abbrev Score : ℕ → Bytes → ℕ → Bytes → Type 0
  Score p pat r [] = ⊥
  Score p pat r (x ∷ str) =
      (eq tolower plain p x ≡ true) × (0 < match_from tolower plain pat str (r + 1))

  char_step :
      (p : ℕ) (pat : Bytes) (r : ℕ) (str : Bytes)
      → (p == glob) ≡ false
      → (0 < match_from tolower plain (p ∷ pat) str r) ↔ Score p pat r str
  char_step p [] r [] e = unfold match_from in rw e (ground arith)
  char_step p (c ∷ pat) r [] e = unfold match_from in (ground arith)
  char_step p [] r (x ∷ str) e = unfold match_from in rw e (ground arith)
  char_step p (c ∷ pat) r (x ∷ str) e = unfold match_from in rw e (ground arith)

  abbrev Tried : ℕ → Bytes → Bytes → Type 0
  Tried c pat = Place (eq tolower plain c) (λ s. match_from tolower plain pat s 1)

  total_pos : (r rs : ℕ) → (0 < total r rs) ↔ (0 < rs)
  total_pos r rs = ground arith

  best_pos :
      (c : ℕ) (pat str : Bytes)
      → (0 < best (eq tolower plain c) (λ s. match_from tolower plain pat s 1) false str 0)
        ↔ Tried c pat str
  best_pos c pat str =
      let h = best_iff (eq tolower plain c) (λ s. match_from tolower plain pat s 1) str 0 in
      (λ g. elim (h.0 g) [ inl z ↦ absurd (omega (arith, z)) | inr f ↦ f ], λ f. h.1 (inr f))

  glob_step :
      (p c : ℕ) (pat : Bytes) (r : ℕ) (str : Bytes)
      → (p == glob) ≡ true
      → (0 < match_from tolower plain (p ∷ c ∷ pat) str r) ↔ Tried c pat str
  glob_step p c pat r [] e = unfold match_from in (ground arith)
  glob_step p c pat r (x ∷ str) e =
      let h =
        total_pos r
          (best (eq tolower plain c) (λ s. match_from tolower plain pat s 1) false (x ∷ str) 0) in
      unfold match_from in
      rw e (λ g. (best_pos c pat (x ∷ str)).0 (h.0 g), λ g. h.1 ((best_pos c pat (x ∷ str)).1 g))

  abbrev Splits : Bytes → Bytes → Type 0
  Splits pat str = (before rest : Bytes) × (str ≡ before ++ rest) × Matches pat rest

  abbrev Step : ℕ → Bytes → Bytes → Type 0
  Step p pat [] = ⊥
  Step p pat (x ∷ rest) = (eq tolower plain p x ≡ true) × Matches pat rest

  Matches-glob :
      (p : ℕ) (pat str : Bytes) → (p == glob) ≡ true → Matches (p ∷ pat) str ↔ Splits pat str
  unfolding Matches
  Matches-glob p pat str e = rw (Matches, e) (λ g. g, λ g. g)

  Matches-char :
      (p : ℕ) (pat str : Bytes) → (p == glob) ≡ false → Matches (p ∷ pat) str ↔ Step p pat str
  unfolding Matches
  Matches-char p pat [] e = rw (Matches, e) (λ g. g, λ g. g)
  Matches-char p pat (x ∷ rest) e =
      rw (Matches, e)
        (
          λ (t, m). ((eq-Same tolower casefold p x).1 t, m),
          λ (t, m). ((eq-Same tolower casefold p x).0 t, m),
        )

  char_iff :
      (p : ℕ) (pat : Bytes) (r : ℕ) (str : Bytes)
      → ((s : Bytes) → (0 < match_from tolower plain pat s (r + 1)) ↔ Matches pat s)
      → (p == glob) ≡ false
      → (0 < match_from tolower plain (p ∷ pat) str r) ↔ Matches (p ∷ pat) str
  char_iff p pat r str ih e = (
    λ g. (Matches-char p pat str e).1 (to str ((char_step p pat r str e).0 g)),
    λ g. (char_step p pat r str e).1 (from str ((Matches-char p pat str e).0 g)),
  )
    where
      to : (s : Bytes) → Score p pat r s → Step p pat s
      to [] f = absurd f
      to (x ∷ s) (t, h) = (t, (ih s).0 h)

      from : (s : Bytes) → Step p pat s → Score p pat r s
      from [] f = absurd f
      from (x ∷ s) (t, h) = (t, (ih s).1 h)

  glob_iff :
      (p c : ℕ) (pat : Bytes) (r : ℕ) (str : Bytes)
      → ((s : Bytes) → (0 < match_from tolower plain pat s 1) ↔ Matches pat s)
      → (p == glob) ≡ true
      → (c == glob) ≡ false
      → (0 < match_from tolower plain (p ∷ c ∷ pat) str r) ↔ Matches (p ∷ c ∷ pat) str
  glob_iff p c pat r str ih e ec = (
    λ g. (Matches-glob p (c ∷ pat) str e).1 (to (place.0 ((glob_step p c pat r str e).0 g))),
    λ g. (glob_step p c pat r str e).1 (place.1 (split ((Matches-glob p (c ∷ pat) str e).0 g))),
  )
    where
      After : Type 0
      After = Found (eq tolower plain c) (λ s. match_from tolower plain pat s 1) str

      place : Tried c pat str ↔ After
      place = Place-iff (eq tolower plain c) (λ s. match_from tolower plain pat s 1) str

      to : After → Splits (c ∷ pat) str
      to (before, x, rest, q, t, h) =
          (before, x ∷ rest, q, (Matches-char c pat (x ∷ rest) ec).1 (t, (ih rest).0 h))

      from : (before rest : Bytes) → str ≡ before ++ rest → Step c pat rest → After
      from before [] q f = absurd f
      from before (x ∷ rest) q (t, h) = (before, x, rest, q, t, (ih rest).1 h)

      split : Splits (c ∷ pat) str → After
      split (before, rest, q, m) = from before rest q ((Matches-char c pat rest ec).0 m)

  last_iff :
      (p r : ℕ) (str : Bytes)
      → (p == glob) ≡ true
      → 0 < r
      → (0 < match_from tolower plain (p ∷ []) str r) ↔ Matches (p ∷ []) str
  last_iff p r str e hr = (
    λ g. (Matches-glob p [] str e).1 (str, [], sym (append-nil str), unfold Matches in refl),
    λ g. subst (λ n. 0 < n) (sym (last_step p r str e)) hr,
  )

  match_from_iff :
      (pat str : Bytes) (r : ℕ)
      → SingleGlobs pat
      → 0 < r
      → (0 < match_from tolower plain pat str r) ↔ Matches pat str
  match_from_iff [] [] r h hr = unfold match_from Matches in (λ g. refl, λ g. hr)
  match_from_iff [] (x ∷ str) r h hr = unfold match_from Matches in ground arith
  match_from_iff (p ∷ []) str r h hr = elim (Bool-cases (p == glob)) [
    | inl e ↦ last_iff p r str e hr
    | inr e ↦ char_iff p [] r str (λ s. match_from_iff [] s (r + 1) tt (omega arith)) e
  ]
  match_from_iff (p ∷ c ∷ pat) str r h hr = elim (Bool-cases (p == glob)) [
    | inl e ↦
        glob_iff p c pat r str (λ s. match_from_iff pat s 1 (rest_single c pat h.1) (omega arith)) e
          (h.0 e)
    | inr e ↦
        char_iff p (c ∷ pat) r str (λ s. match_from_iff (c ∷ pat) s (r + 1) h.1 (omega arith)) e
  ]

  -- The score is above 0 exactly where the pattern matches the text, if no glob follows a glob and
  -- slashes are not special. The letters' case counts or not, as the flag says.
  pub match_score_iff :
      (pat str : Bytes)
      → SingleGlobs pat
      → (0 < match_score tolower plain pat str) ↔ Matches pat str
  match_score_iff pat str h = unfold match_score in match_from_iff pat str 1 h (omega arith)
