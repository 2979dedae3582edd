-- ===== src/Escape/Malformed.antt =====
-- `rp_unescape` on any text: the block it allocates is large enough, and its length is that of the
-- decoded text exactly where no escape is malformed.
use mathlib.Core.Path.{subst}
use rp_lib_utils.Common.{
  ℕ, suc, ◌+◌, ◌≤◌, ◌<◌, ◌≡◌, ◌≢◌, ◌↔◌, ◌⊎◌, ==_iff, inl, inr, refl, sym, arith, true, false,
  Bool-cases, [], ◌∷◌, Bytes, take, length, ◌==◌,
}
use rp_lib_utils.Escape.Chars.{hex2bin}
use rp_lib_utils.Escape.Buffer.{Out, store, terminate}
use rp_lib_utils.Escape.Decode.{
  hex_pair, unescapable_length, unescaped_length, pair_value, unescape_loop, unescape_to,
}
use rp_lib_utils.Escape.RoundTrip.{
  unescapable_length-plain, unescaped_length-plain, unescape_loop-plain, plain_char,
}

-- `u` bytes of a text can be unescaped, and the loop wrote `n` characters for them, where the whole
-- text counts for `m`.
record Gap (len u n m : ℕ) : Type 0 where
  within : u ≤ len
  whole : u ≡ len → n ≡ m
  cut : u < len → n < m

-- The relation for a text and a state of the loop.
abbrev LoopGap : Bytes → Out → Type 0
LoopGap text o =
    Gap (length text) (unescapable_length text)
      (unescape_loop (take (unescapable_length text) text) o).r (o.r + unescaped_length text)

store-r : (c : ℕ) (o : Out) → (store c o).r ≡ o.r + 1
unfolding store
store-r c o = refl

plain_step :
    (c : ℕ) (rest : Bytes) (o : Out)
    → c ≢ b'%'
    → LoopGap rest (store (plain_char c) o)
    → LoopGap (c ∷ rest) o
plain_step c rest o h g =
    rw
      (
        u,
        unescape_loop-plain c (take (unescapable_length rest) rest) o h,
        unescaped_length-plain c rest h,
      )
      (record {
        within = omega (arith, g.within);
        whole = λ e. omega (arith, store-r (plain_char c) o, g.whole (omega arith));
        cut = λ k. omega (arith, store-r (plain_char c) o, g.cut (omega arith));
      })
  where
    u : unescapable_length (c ∷ rest) ≡ suc (unescapable_length rest)
    u = omega (arith, unescapable_length-plain c rest h)

malformed_step :
    (c : ℕ) (rest : Bytes) (o : Out)
    → unescapable_length (c ∷ rest) ≡ 0
    → 1 ≤ unescaped_length (c ∷ rest)
    → LoopGap (c ∷ rest) o
malformed_step c rest o u h = rw u (record {
  within = omega arith;
  whole = λ e. absurd (omega arith);
  cut = λ k. unfold unescape_loop in omega arith;
})

pair_step :
    (a b : ℕ) (rest : Bytes) (o : Out)
    → hex_pair a b ≡ true
    → LoopGap rest (store (pair_value a b) o)
    → LoopGap (b'%' ∷ a ∷ b ∷ rest) o
pair_step a b rest o h g =
    rw (u, n, m)
      (record {
        within = omega (arith, g.within);
        whole = λ e. omega (arith, store-r (pair_value a b) o, g.whole (omega arith));
        cut = λ k. omega (arith, store-r (pair_value a b) o, g.cut (omega arith));
      })
  where
    u : unescapable_length (b'%' ∷ a ∷ b ∷ rest) ≡ suc (suc (suc (unescapable_length rest)))
    u = unfold unescapable_length in rw h (omega arith)

    n :
        (t : Bytes)
        → unescape_loop (b'%' ∷ a ∷ b ∷ t) o ≡ unescape_loop t (store (pair_value a b) o)
    n t = unfold unescape_loop in refl

    m : unescaped_length (b'%' ∷ a ∷ b ∷ rest) ≡ 1 + unescaped_length rest
    m = unfold unescaped_length in refl

is_percent : (c : ℕ) → (c == b'%') ≡ true → c ≡ b'%'
is_percent c h = ground arith

not_percent : (c : ℕ) → (c == b'%') ≡ false → c ≢ b'%'
not_percent c h = ground arith

loop-Gap : (text : Bytes) (o : Out) → LoopGap text o
loop-Gap [] o = unfold unescapable_length unescape_loop unescaped_length in omega arith
loop-Gap (c ∷ []) o = elim (Bool-cases (c == b'%')) [
  | inl p ↦
      malformed_step c [] o (unfold unescapable_length in rw p)
        (unfold unescaped_length in omega arith)
  | inr q ↦ plain_step c [] o (not_percent c q) (loop-Gap [] (store (plain_char c) o))
]
loop-Gap (c ∷ a ∷ []) o = elim (Bool-cases (c == b'%')) [
  | inl p ↦
      malformed_step c (a ∷ []) o (unfold unescapable_length in rw p)
        (unfold unescaped_length in rw p (omega arith))
  | inr q ↦ plain_step c (a ∷ []) o (not_percent c q) (loop-Gap (a ∷ []) (store (plain_char c) o))
]
loop-Gap (c ∷ a ∷ b ∷ text) o = elim (Bool-cases (c == b'%')) [
  | inl p ↦ elim (Bool-cases (hex_pair a b)) [
    | inl valid ↦
        subst (λ d. LoopGap (d ∷ a ∷ b ∷ text) o) (sym (is_percent c p))
          (pair_step a b text o valid (loop-Gap text (store (pair_value a b) o)))
    | inr invalid ↦
        malformed_step c (a ∷ b ∷ text) o (unfold unescapable_length in rw (p, invalid))
          (unfold unescaped_length in rw p (omega arith))
  ]
  | inr q ↦
      plain_step c (a ∷ b ∷ text) o (not_percent c q)
        (loop-Gap (a ∷ b ∷ text) (store (plain_char c) o))
]

-- A hexadecimal digit.
abbrev pub IsHex : ℕ → Type 0
IsHex c = ((b'0' ≤ c) × (c ≤ b'9')) ⊎ (((b'A' ≤ c) × (c ≤ b'F')) ⊎ ((b'a' ≤ c) × (c ≤ b'f')))

-- A text in which two hexadecimal digits stand behind each `%`.
pub data WellFormed : Bytes → Type 0 where
  nothing : WellFormed []
  plain : (c : ℕ) (text : Bytes) → c ≢ b'%' → WellFormed text → WellFormed (c ∷ text)
  escaped :
      (a b : ℕ) (text : Bytes)
      → IsHex a
      → IsHex b
      → WellFormed text
      → WellFormed (b'%' ∷ a ∷ b ∷ text)

hex_pair_iff : (a b : ℕ) → (hex_pair a b ≡ true) ↔ (IsHex a × IsHex b)
unfolding hex_pair hex2bin
hex_pair_iff a b = (λ h. ground (arith, h), λ h. ground (arith, h))

unescapable_length-pair :
    (a b : ℕ) (text : Bytes)
    → hex_pair a b ≡ true
    → unescapable_length (b'%' ∷ a ∷ b ∷ text) ≡ 3 + unescapable_length text
unfolding unescapable_length
unescapable_length-pair a b text h = rw h refl

WellFormed-length : (text : Bytes) → WellFormed text → unescapable_length text ≡ length text
WellFormed-length _ nothing = unfold unescapable_length in refl
WellFormed-length _ (plain c text n w) =
    omega (arith, unescapable_length-plain c text n, WellFormed-length text w)
WellFormed-length _ (escaped a b text ha hb w) = omega (
  arith,
  unescapable_length-pair a b text ((hex_pair_iff a b).1 (ha, hb)),
  WellFormed-length text w,
)

plain-WellFormed :
    (c : ℕ) (text : Bytes)
    → (c == b'%') ≡ false
    → unescapable_length (c ∷ text) ≡ length (c ∷ text)
    → (unescapable_length text ≡ length text → WellFormed text)
    → WellFormed (c ∷ text)
plain-WellFormed c text q e ih =
    let n = not_percent c q in
    plain c text n (ih (omega (arith, e, unescapable_length-plain c text n)))

cut_short :
    (c : ℕ) (text : Bytes)
    → unescapable_length (c ∷ text) ≡ 0
    → unescapable_length (c ∷ text) ≡ length (c ∷ text)
    → ⊥
cut_short c text z e = omega (arith, z, e)

length-WellFormed : (text : Bytes) → unescapable_length text ≡ length text → WellFormed text
length-WellFormed [] e = nothing
length-WellFormed (c ∷ []) e = elim (Bool-cases (c == b'%')) [
  | inl p ↦ absurd (cut_short c [] (unfold unescapable_length in rw p refl) e)
  | inr q ↦ plain-WellFormed c [] q e (length-WellFormed [])
]
length-WellFormed (c ∷ a ∷ []) e = elim (Bool-cases (c == b'%')) [
  | inl p ↦ absurd (cut_short c (a ∷ []) (unfold unescapable_length in rw p refl) e)
  | inr q ↦ plain-WellFormed c (a ∷ []) q e (length-WellFormed (a ∷ []))
]
length-WellFormed (c ∷ a ∷ b ∷ text) e = elim (Bool-cases (c == b'%')) [
  | inl p ↦ elim (Bool-cases (hex_pair a b)) [
    | inl valid ↦
        let (ha, hb) = (hex_pair_iff a b).0 valid in
        let full : unescapable_length (b'%' ∷ a ∷ b ∷ text) ≡ length (b'%' ∷ a ∷ b ∷ text) =
          subst (λ d. unescapable_length (d ∷ a ∷ b ∷ text) ≡ length (d ∷ a ∷ b ∷ text))
            (is_percent c p) e in
        subst (λ d. WellFormed (d ∷ a ∷ b ∷ text)) (sym (is_percent c p))
          (escaped a b text ha hb
            (length-WellFormed text (omega (arith, full, unescapable_length-pair a b text valid))))
    | inr invalid ↦
        absurd (cut_short c (a ∷ b ∷ text) (unfold unescapable_length in rw (p, invalid) refl) e)
  ]
  | inr q ↦ plain-WellFormed c (a ∷ b ∷ text) q e (length-WellFormed (a ∷ b ∷ text))
]

-- The number of characters that `unescape_to` makes of a text is at most what `unescaped_length`
-- says, so that the block of `rp_unescape` has room for them and the NUL. It is less exactly when
-- the text has a malformed escape, a `%` without two hexadecimal digits behind it: then
-- `*reslength` is more than the length of the string.
pub unescape_to_gap :
    (text buffer : Bytes)
    → let o = unescape_to text (record { buffer = buffer; r = 0 }) in
      (o.r ≤ unescaped_length text) × ((o.r < unescaped_length text) ↔ (¬ WellFormed text))
unfolding unescape_to terminate
unescape_to_gap text buffer =
    let g : LoopGap text (record { buffer = buffer; r = 0 }) =
      loop-Gap text (record { buffer = buffer; r = 0 }) in
    (
      grind (arith, g),
      (
        λ h w. omega (arith, h, g.whole (WellFormed-length text w)),
        λ n. omega (arith, g.cut (cut_text g.within n)),
      ),
    )
  where
    cut_text :
        unescapable_length text ≤ length text
        → (¬ WellFormed text)
        → unescapable_length text < length text
    cut_text within n = elim (Bool-cases (unescapable_length text == length text)) [
      | inl e ↦ absurd (n (length-WellFormed text ((==_iff _ _).0 e)))
      | inr e ↦ ground (arith, e, within)
    ]
