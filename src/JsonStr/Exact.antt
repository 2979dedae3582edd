-- ===== src/JsonStr/Exact.antt =====
-- What a reader of src/json/rp-jsonstr.c takes of a text that is known.
use rp_lib_utils.Common.{
  ℕ, zero, suc, ◌≤◌, ◌≡◌, refl, ap, sym, ◌∙◌, arith, inl, inr, Bool, true, false, Bool-cases, [],
  ◌∷◌, ◌++◌, Bytes, length, length-append, All, ◌==◌, ==_iff, if◌then◌else◌,
}
use rp_lib_utils.JsonStr.Reading.{
  Reading, read_readtxt, Outcome, accepts, and_then, while_loop, read_while,
}
use rp_lib_utils.JsonStr.Rest.{remaining, remaining-read_readtxt, remaining_end, length-remaining}

-- The test accepts, and `P` holds of the reader.
pub data Accepts (P : Reading → Type 0) : Outcome → Type 0 where
  holding : {r : Reading} → P r → Accepts P (accepts r)

module _ {P : Reading → Type 0} where
  pub Accepts-if :
      (b : Bool) {x y : Outcome}
      → (b ≡ true → Accepts P x)
      → (b ≡ false → Accepts P y)
      → Accepts P (if b then x else y)
  Accepts-if true hx hy = hx refl
  Accepts-if false hx hy = hy refl

  pub Accepts-and_then :
      {Q : Reading → Type 0} {o : Outcome} {f : Reading → Outcome}
      → Accepts P o
      → ((r : Reading) → P r → Accepts Q (f r))
      → Accepts Q (and_then o f)
  Accepts-and_then (holding {r} h) k = k r h

-- A text is left.
abbrev pub Left : Bytes → Reading → Type 0
Left t r = remaining r ≡ t

-- The text does not begin with a character of `p`.
abbrev pub Without : (ℕ → Bool) → Bytes → Type 0
Without p [] = Unit
Without p (c ∷ t) = p c ≡ false

abbrev head_or : ℕ → Bytes → ℕ
head_or d [] = d
head_or d (c ∷ t) = c

abbrev tail_of : Bytes → Bytes
tail_of [] = []
tail_of (c ∷ t) = t

-- The reader stands on the first character of what is left.
pub starts :
    (rt : Reading) (c : ℕ) (t : Bytes)
    → remaining rt ≡ c ∷ t
    → (rt.c ≡ c) × (remaining (read_readtxt rt) ≡ t)
starts rt c t h = elim (Bool-cases (rt.c == 0)) [
  | inl z ↦ absurd (ground (arith, ap length (sym (remaining_end rt z) ∙ h)))
  | inr z ↦
      let e : rt.c ∷ remaining (read_readtxt rt) ≡ c ∷ t = sym (remaining-read_readtxt rt z) ∙ h in
      (ap (head_or 0) e, ap tail_of e)
]

pub ended : (rt : Reading) → remaining rt ≡ [] → (rt.c == 0) ≡ true
ended rt h = elim (Bool-cases (rt.c == 0)) [
  | inl z ↦ z
  | inr z ↦ absurd (ground (arith, ap length (sym (remaining-read_readtxt rt z) ∙ h)))
]

module _ (p : ℕ → Bool) (z : p 0 ≡ false) where
  pub stands-Without : (rt : Reading) (t : Bytes) → Left t rt → Without p t → p rt.c ≡ false
  stands-Without rt [] h n = elim (Bool-cases (p rt.c)) [
    | inl e ↦ absurd (ground (arith, e, ended rt h, z))
    | inr e ↦ e
  ]
  stands-Without rt (c ∷ t) h n = ap p (starts rt c t h).0 ∙ n

  while_loop-Left :
      (w t : Bytes) (n : ℕ) (rt : Reading)
      → All (λ c. p c ≡ true) w
      → Left (w ++ t) rt
      → Without p t
      → length w ≤ n
      → Left t (while_loop n p rt)
  unfolding while_loop
  while_loop-Left [] t zero rt a h o l = h
  while_loop-Left [] t (suc n) rt a h o l = rw (stands-Without rt t h o) h
  while_loop-Left (c ∷ w) t zero rt a h o l = absurd (omega (arith, l))
  while_loop-Left (c ∷ w) t (suc n) rt (a, hs) h o l =
      let (e, k) = starts rt c (w ++ t) h in
      rw (ap p e ∙ a) (while_loop-Left w t n (read_readtxt rt) hs k o (omega (arith, l)))

  -- The loop stops behind the last of its characters.
  pub read_while-Left :
      (w t : Bytes) (rt : Reading)
      → All (λ c. p c ≡ true) w
      → Left (w ++ t) rt
      → Without p t
      → Left t (read_while p rt)
  unfolding read_while
  read_while-Left w t rt a h o =
      while_loop-Left w t (suc (length rt.ahead)) rt a h o
        (omega (arith, length-remaining rt, ap length h, length-append w t))

  while_loop-stops :
      (n : ℕ) (rt : Reading) → length (remaining rt) ≤ n → p (while_loop n p rt).c ≡ false
  unfolding while_loop
  while_loop-stops zero rt h = elim (Bool-cases (rt.c == 0)) [
    | inl e ↦ ap p ((==_iff rt.c 0).0 e) ∙ z
    | inr e ↦ absurd (omega (arith, h, ap length (remaining-read_readtxt rt e)))
  ]
  while_loop-stops (suc n) rt h = elim (Bool-cases (p rt.c)) [
    | inr e ↦ rw e e
    | inl e ↦ elim (Bool-cases (rt.c == 0)) [
      | inl q ↦ absurd (ground (arith, e, ap p ((==_iff rt.c 0).0 q), z))
      | inr q ↦ rw e (
          while_loop-stops n (read_readtxt rt)
            (omega (arith, h, ap length (remaining-read_readtxt rt q))))
    ]
  ]

  -- The loop ends by its test, and not for lack of rounds.
  pub read_while-stops : (rt : Reading) → p (read_while p rt).c ≡ false
  unfolding read_while
  read_while-stops rt = while_loop-stops (suc (length rt.ahead)) rt (length-remaining rt)
