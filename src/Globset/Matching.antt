-- ===== src/Globset/Matching.antt =====
-- Which handler `globset_match` of src/sandbox/globset.c finds.
use rp_lib_utils.Common.{
  ℕ, ◌≤◌, ◌≡◌, refl, ap, sym, ◌∙◌, arith, true, not, Bool-cases, inl, inr, ◌⊎◌, List, [], ◌∷◌, All,
  Bytes, Option, none, some, ltb, ◌==◌, ==_iff, if◌then◌else◌,
}
use rp_lib_utils.Globmatch.{globmatch}
use rp_lib_utils.Globset.{
  hash_of, normal, same_text, Pathndl, lists_of, place, GlobSet, find, list_for, search,
  globset_search, find_exact, best_match, globset_match,
}
use rp_lib_utils.Globset.Moving.{IsPlaced, same_text-eq, or_else}
use rp_lib_utils.Globset.Growing.{IsValid}
use rp_lib_utils.Globset.Sets.{hash_of-normal}
use rp_lib_utils.Globset.Deleting.{is_some}

-- The hash is no further condition.
find_exact-find :
    (gmask i hash : ℕ) (text : Bytes) (list : List Pathndl)
    → hash ≡ hash_of text
    → All (IsPlaced gmask i) list
    → find_exact hash text list ≡ find text list
unfolding find_exact find
find_exact-find gmask i hash text [] h p = refl
find_exact-find gmask i hash text (ph ∷ list) h ((e, q), ps) =
    elim (Bool-cases (same_text text ph.pattern)) [
      | inl t ↦ rw (t, same_hash t) refl
      | inr t ↦ elim (Bool-cases (ph.hash == hash)) [
        | inl u ↦ rw (t, u) (find_exact-find gmask i hash text list h ps)
        | inr u ↦ rw (t, u) (find_exact-find gmask i hash text list h ps)
      ]
    ]
  where
    same_hash : same_text text ph.pattern ≡ true → (ph.hash == hash) ≡ true
    same_hash t =
        (==_iff ph.hash hash).1 (e.0 ∙ ap hash_of (sym (same_text-eq text ph.pattern t)) ∙ sym h)

module _ (tolower : ℕ → ℕ) (text : Bytes) where
  abbrev pub score : Pathndl → ℕ
  score ph = globmatch tolower ph.pattern text

  abbrev pub score_of : Option Pathndl → ℕ
  score_of none = 0
  score_of (some ph) = score ph

  -- One of the list.
  abbrev pub Among : Option Pathndl → List Pathndl → Type 0
  Among ph [] = ⊥
  Among ph (q ∷ list) = (ph ≡ some q) ⊎ Among ph list

  -- The handler with the best score of a list: there is one if any score is positive.
  pub record IsBest (list : List Pathndl) (start ph : Option Pathndl) : Type 0 where
    pub best : All (λ q. score q ≤ score_of ph) list
    pub among : (ph ≡ start) ⊎ Among ph list
    pub matches : is_some ph ≡ not (score_of ph == 0)
    pub better : score_of start ≤ score_of ph

  best_match-IsBest :
      (list : List Pathndl) (s : ℕ) (ph : Option Pathndl)
      → score_of ph ≡ s
      → is_some ph ≡ not (score_of ph == 0)
      → IsBest list ph (best_match tolower text list s ph)
  unfolding best_match
  best_match-IsBest [] s ph e m = record {
    best = tt;
    among = inl refl;
    matches = m;
    better = omega arith;
  }
  best_match-IsBest (q ∷ list) s ph e m = elim (Bool-cases (ltb s (score q))) [
    | inl t ↦
        let b = best_match-IsBest list (score q) (some q) refl (ground (arith, t)) in
        rw t (record {
          best = (b.better, b.best);
          among = inr b.among;
          matches = b.matches;
          better = ground (arith, t, e, b.better);
        })
    | inr t ↦
        let b = best_match-IsBest list s ph e m in
        rw t (record {
          best = (ground (arith, t, e, b.better), b.best);
          among = elim b.among [ inl h ↦ inl h | inr h ↦ inr (inr h) ];
          matches = b.matches;
          better = b.better;
        })
  ]

-- The handler for the exact name.
abbrev pub exact : GlobSet → Bytes → Option Pathndl
exact set text = if hash_of text == 0 then none else globset_search set text

elim-or_else :
    (o b : Option Pathndl)
    → (elim o as (λ q. Option Pathndl) [ none ↦ b | some ph ↦ some ph ]) ≡ or_else o b
elim-or_else none b = refl
elim-or_else (some ph) b = refl

-- The search in the dictionary.
find_exact-exact :
    (set : GlobSet) (text : Bytes)
    → IsValid set
    → (if hash_of text == 0
        then none
        else find_exact
            (hash_of text)
            (normal text)
            (lists_of set.exacts (place (hash_of text) set.gmask)))
      ≡ exact set text
unfolding globset_search search list_for
find_exact-exact set text v = elim (Bool-cases (hash_of text == 0)) [
  | inl t ↦ rw t refl
  | inr t ↦
      let k = place (hash_of text) set.gmask in
      rw t (
        find_exact-find set.gmask k (hash_of text) (normal text) (lists_of set.exacts k)
          (sym (hash_of-normal text)) (v.dictionary.placed k))
]

match-or_else :
    (tolower : ℕ → ℕ) (set : GlobSet) (text : Bytes)
    → IsValid set
    → globset_match tolower set text
      ≡ or_else (exact set text) (best_match tolower (normal text) set.globs 0 none)
unfolding globset_match
match-or_else tolower set text v =
    let best = best_match tolower (normal text) set.globs 0 none in
    elim-or_else
      (if hash_of text == 0
        then none
        else find_exact (hash_of text) (normal text)
            (lists_of set.exacts (place (hash_of text) set.gmask)))
      best
    ∙ ap (λ (o : Option Pathndl). or_else o best) (find_exact-exact set text v)

-- `globset_match` finds the handler that `globset_search` finds for a text that is an exact name, and
-- otherwise one of the patterns with the highest score that `globmatch` gives to any of them for the
-- normalized text; it finds none of them exactly when all scores are 0. (The set is well formed.)
pub globset_match-IsBest :
    (tolower : ℕ → ℕ) (set : GlobSet) (text : Bytes)
    → IsValid set
    → (ph : Option Pathndl) × (globset_match tolower set text ≡ or_else (exact set text) ph)
      × IsBest tolower (normal text) set.globs none ph
globset_match-IsBest tolower set text v = (
  best_match tolower (normal text) set.globs 0 none,
  match-or_else tolower set text v,
  best_match-IsBest tolower (normal text) set.globs 0 none refl refl,
)
