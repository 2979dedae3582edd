-- ===== src/JsonStr/Rest.antt =====
-- The text that is left to a reader of src/json/rp-jsonstr.c, and what a test takes of it.
use rp_lib_utils.Common.{
  ℕ, zero, suc, ◌+◌, ◌<◌, ◌≤◌, ◌≡◌, ◌≢◌, refl, ap, sym, ◌∙◌, arith, inl, inr, Bool, true, false,
  Bool-cases, [], ◌∷◌, ◌++◌, append_assoc, Bytes, length, length-append, All, ◌==◌, ==_iff,
  if◌then◌else◌,
}
use rp_lib_utils.Escape.Encode.{until_nul}
use rp_lib_utils.JsonStr.Reading.{
  Reading, next_of, read_readtxt, Outcome, accepts, rejects, out_of_fuel, and_then, while_loop,
  read_while,
}

-- The current character and those ahead, up to the NUL.
unfoldable pub remaining : Reading → Bytes
remaining rt = if rt.c == 0 then [] else rt.c ∷ until_nul rt.ahead

remaining-next_of : (pos : ℕ) (text : Bytes) → remaining (next_of pos text) ≡ until_nul text
unfolding remaining next_of until_nul
remaining-next_of pos [] = refl
remaining-next_of pos (c ∷ text) = ground arith

remaining_more : (rt : Reading) → (rt.c == 0) ≡ false → remaining rt ≡ rt.c ∷ until_nul rt.ahead
unfolding remaining
remaining_more rt h = rw h refl

pub remaining-read_readtxt :
    (rt : Reading) → (rt.c == 0) ≡ false → remaining rt ≡ rt.c ∷ remaining (read_readtxt rt)
remaining-read_readtxt rt h =
    remaining_more rt h ∙ ap (λ t. rt.c ∷ t) (sym (remaining-next_of rt.pos rt.ahead))

-- The same for a character that is not NUL.
pub remaining-char :
    (rt : Reading) (k : ℕ)
    → (rt.c == suc k) ≡ true
    → remaining rt ≡ suc k ∷ remaining (read_readtxt rt)
remaining-char rt k h =
    remaining-read_readtxt rt (ground (arith, h))
    ∙ ap (λ c. c ∷ remaining (read_readtxt rt)) ((==_iff rt.c (suc k)).0 h)

pub remaining_end : (rt : Reading) → (rt.c == 0) ≡ true → remaining rt ≡ []
unfolding remaining
remaining_end rt h = rw h refl

-- The test kept within its fuel, and `P` holds of the reader if it has accepted.
pub data Ensures (P : Reading → Type 0) : Outcome → Type 0 where
  holds : {r : Reading} → P r → Ensures P (accepts r)
  refuses : {r : Reading} → Ensures P (rejects r)

module _ {P : Reading → Type 0} where
  pub Ensures-if :
      (b : Bool) {x y : Outcome}
      → (b ≡ true → Ensures P x)
      → (b ≡ false → Ensures P y)
      → Ensures P (if b then x else y)
  Ensures-if true hx hy = hx refl
  Ensures-if false hx hy = hy refl

  pub Ensures-and_then :
      {Q : Reading → Type 0} {o : Outcome} {f : Reading → Outcome}
      → Ensures P o
      → ((r : Reading) → P r → Ensures Q (f r))
      → Ensures Q (and_then o f)
  Ensures-and_then (holds {r} h) k = k r h
  Ensures-and_then refuses k = refuses

  pub Ensures-map :
      {Q : Reading → Type 0} {o : Outcome} → Ensures P o → ((r : Reading) → P r → Q r) → Ensures Q o
  Ensures-map (holds {r} h) k = holds (k r h)
  Ensures-map refuses k = refuses

  pub Ensures-ne : {o : Outcome} → Ensures P o → o ≢ out_of_fuel
  Ensures-ne (holds h) = cc
  Ensures-ne refuses = cc

-- A reader has gone over a text of the kind `K`.
pub record Went (K : Bytes → Type 0) (rt r : Reading) : Type 0 where
  pub text : Bytes
  pub is : K text
  pub split : remaining rt ≡ text ++ remaining r

nonzero : (p : ℕ → Bool) → p 0 ≡ false → (c : ℕ) → p c ≡ true → (c == 0) ≡ false
nonzero p z c h = elim (Bool-cases (c == 0)) [
  | inl t ↦ absurd (ground (arith, sym h ∙ ap p ((==_iff c 0).0 t) ∙ z))
  | inr t ↦ t
]

while_loop-Went :
    (p : ℕ → Bool)
    → p 0 ≡ false
    → (n : ℕ) (rt : Reading) → length (remaining rt) ≤ n
    → Went (All (λ c. p c ≡ true)) rt (while_loop n p rt)
unfolding while_loop
while_loop-Went p z zero rt h = record { text = []; is = tt; split = refl }
while_loop-Went p z (suc n) rt h = elim (Bool-cases (p rt.c)) [
  | inl e ↦
      let q = remaining-read_readtxt rt (nonzero p z rt.c e) in
      let g = while_loop-Went p z n (read_readtxt rt) (omega (arith, h, ap length q)) in
      rw e (record { text = rt.c ∷ g.text; is = (e, g.is); split = q ∙ ap (λ t. rt.c ∷ t) g.split })
  | inr e ↦ rw e (record { text = []; is = tt; split = refl })
]

pub length-until_nul : (mem : Bytes) → length (until_nul mem) ≤ length mem
unfolding until_nul
length-until_nul [] = omega arith
length-until_nul (c ∷ mem) = ground (arith, length-until_nul mem)

pub length-remaining : (rt : Reading) → length (remaining rt) ≤ suc (length rt.ahead)
unfolding remaining
length-remaining rt = ground (arith, length-until_nul rt.ahead)

-- The loop goes over characters that its test holds for.
pub read_while-Went :
    (p : ℕ → Bool)
    → p 0 ≡ false
    → (rt : Reading) → Went (All (λ c. p c ≡ true)) rt (read_while p rt)
unfolding read_while
read_while-Went p z rt = while_loop-Went p z (suc (length rt.ahead)) rt (length-remaining rt)

-- Where the test holds at the begin, the loop takes a character at least.
pub read_while_some :
    (p : ℕ → Bool)
    → p 0 ≡ false
    → (rt : Reading) → p rt.c ≡ true
    → Went (λ w. All (λ c. p c ≡ true) w × (0 < length w)) rt (read_while p rt)
unfolding read_while while_loop
read_while_some p z rt e =
    let q = remaining-read_readtxt rt (nonzero p z rt.c e) in
    let g =
      while_loop-Went p z (length rt.ahead) (read_readtxt rt)
        (omega (arith, length-remaining rt, ap length q)) in
    rw e (record {
      text = rt.c ∷ g.text;
      is = ((e, g.is), omega arith);
      split = q ∙ ap (λ t. rt.c ∷ t) g.split;
    })

-- What is left is no more, and less behind a part that is not empty.
pub Went-length :
    {K : Bytes → Type 0} {a b : Reading} (g : Went K a b)
    → length (remaining a) ≡ length g.text + length (remaining b)
Went-length {a = a} {b = b} g = ap length g.split ∙ length-append g.text (remaining b)

-- Two parts of a text that follow one another.
pub Went-append :
    {K L : Bytes → Type 0} {a b c : Reading} (M : Bytes → Type 0)
    → (g : Went K a b) (h : Went L b c) → M (g.text ++ h.text)
    → Went M a c
Went-append M g h m = record {
  text = g.text ++ h.text;
  is = m;
  split = g.split ∙ ap (λ t. g.text ++ t) h.split ∙ sym (append_assoc g.text h.text _);
}

-- A character in front of a part.
pub Went-cons :
    {L : Bytes → Type 0} {a b c : Reading} (M : Bytes → Type 0) (k : ℕ)
    → remaining a ≡ k ∷ remaining b
    → (h : Went L b c) → M (k ∷ h.text)
    → Went M a c
Went-cons M k e h m = record { text = k ∷ h.text; is = m; split = e ∙ ap (λ t. k ∷ t) h.split }

pub Went-map :
    {K L : Bytes → Type 0} {a b : Reading} → Went K a b → ((w : Bytes) → K w → L w) → Went L a b
Went-map g f = record { text = g.text; is = f g.text g.is; split = g.split }

-- One character.
pub Went-one :
    (rt : Reading) (k : ℕ)
    → (rt.c == suc k) ≡ true
    → Went (λ w. w ≡ suc k ∷ []) rt (read_readtxt rt)
Went-one rt k h = record { text = suc k ∷ []; is = refl; split = remaining-char rt k h }
