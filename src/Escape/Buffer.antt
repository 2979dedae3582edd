-- ===== src/Escape/Buffer.antt =====
-- A buffer of a given length that is written from its begin: characters behind its end are counted
-- and not stored.
use mathlib.Core.Path.{subst}
use rp_lib_utils.Common.{
  ℕ, zero, suc, ◌+◌, ◌≤◌, ◌≡◌, refl, ap, sym, ◌∙◌, arith, [], ◌∷◌, ◌++◌, append_assoc, append-nil,
  Bytes, length, length-append, set, ltb, if◌then◌else◌,
}

-- `otext` of `olen` bytes, and `r`.
pub record Out : Type 0 where
  pub buffer : Bytes
  pub r : ℕ

-- `if (r < olen) otext[r] = c;`
unfoldable pub poke : ℕ → Out → Bytes
poke c o = if ltb o.r (length o.buffer) then set o.buffer o.r c else o.buffer

-- The same, and `r++`.
unfoldable pub store : ℕ → Out → Out
store c o = record { buffer = poke c o; r = o.r + 1 }

-- The same for each byte of a text: `memcpy` of as much of it as there is room for.
unfoldable pub store_all : Bytes → Out → Out
store_all [] o = o
store_all (c ∷ cs) o = store_all cs (store c o)

-- A NUL behind the text, if there is room.
unfoldable pub terminate : Out → Out
terminate o = record o { buffer = poke 0 o }

-- The buffer with a text over its begin, as far as there is room.
unfoldable pub overlay : Bytes → Bytes → Bytes
overlay [] cs = []
overlay (b ∷ buffer) [] = b ∷ buffer
overlay (b ∷ buffer) (c ∷ cs) = c ∷ overlay buffer cs

pub length-overlay : (buffer cs : Bytes) → length (overlay buffer cs) ≡ length buffer
unfolding overlay
length-overlay [] cs = refl
length-overlay (b ∷ buffer) [] = refl
length-overlay (b ∷ buffer) (c ∷ cs) = ap suc (length-overlay buffer cs)

pub overlay-nil : (buffer : Bytes) → overlay buffer [] ≡ buffer
unfolding overlay
overlay-nil [] = refl
overlay-nil (b ∷ buffer) = refl

-- A block that is just large enough holds the text.
pub overlay_exact : (buffer cs : Bytes) → length buffer ≡ length cs → overlay buffer cs ≡ cs
unfolding overlay
overlay_exact [] [] h = refl
overlay_exact [] (c ∷ cs) h = absurd (omega arith)
overlay_exact (b ∷ buffer) [] h = absurd (omega arith)
overlay_exact (b ∷ buffer) (c ∷ cs) h = ap (λ t. c ∷ t) (overlay_exact buffer cs (omega arith))

-- Whatever stood behind the text so far is overwritten.
set-overlay :
    (buffer cs rest : Bytes) (c : ℕ)
    → length rest ≤ 1
    → set (overlay buffer (cs ++ rest)) (length cs) c ≡ overlay buffer (cs ++ (c ∷ []))
unfolding overlay
set-overlay [] cs rest c h = refl
set-overlay (b ∷ buffer) [] [] c h = rw overlay-nil
set-overlay (b ∷ buffer) [] (d ∷ []) c h = refl
set-overlay (b ∷ buffer) [] (d ∷ e ∷ rest) c h = absurd (omega arith)
set-overlay (b ∷ buffer) (a ∷ cs) rest c h = ap (λ t. a ∷ t) (set-overlay buffer cs rest c h)

set_behind : (xs : Bytes) (i v : ℕ) → length xs ≤ i → set xs i v ≡ xs
set_behind [] i v h = refl
set_behind (x ∷ xs) zero v h = absurd (omega arith)
set_behind (x ∷ xs) (suc i) v h = ap (λ t. x ∷ t) (set_behind xs i v (omega arith))

-- `cs` was written to `buffer`, and at most one more byte, a NUL, behind it.
pub record Wrote (buffer cs : Bytes) (o : Out) : Type 0 where
  pub counted : o.r ≡ length cs
  pub rest : Bytes
  pub short : length rest ≤ 1
  pub content : o.buffer ≡ overlay buffer (cs ++ rest)

poke-Wrote :
    {buffer cs : Bytes} {o : Out} (c : ℕ)
    → Wrote buffer cs o
    → poke c o ≡ overlay buffer (cs ++ (c ∷ []))
unfolding poke
poke-Wrote {buffer} {cs} {o} c w =
    ground (
      arith,
      w.content,
      w.counted,
      set-overlay buffer cs w.rest c w.short,
      set_behind o.buffer o.r c,
    )

pub store-Wrote :
    {buffer cs : Bytes} {o : Out} (c : ℕ)
    → Wrote buffer cs o
    → Wrote buffer (cs ++ (c ∷ [])) (store c o)
unfolding store
store-Wrote {buffer} {cs} {o} c w = record {
  counted = omega (arith, w.counted, length-append cs (c ∷ []));
  rest = [];
  short = omega arith;
  content = poke-Wrote c w ∙ ap (overlay buffer) (sym (append-nil (cs ++ (c ∷ []))));
}

pub terminate-Wrote :
    {buffer cs : Bytes} {o : Out} → Wrote buffer cs o → Wrote buffer cs (terminate o)
unfolding terminate
terminate-Wrote w = record {
  counted = w.counted;
  rest = 0 ∷ [];
  short = omega arith;
  content = poke-Wrote 0 w;
}

pub terminate-content :
    {buffer cs : Bytes} {o : Out}
    → Wrote buffer cs o
    → terminate o ≡ record { buffer = overlay buffer (cs ++ (0 ∷ [])); r = length cs }
unfolding terminate
terminate-content w = ground (arith, poke-Wrote 0 w, w.counted)

pub store_all-Wrote :
    (more : Bytes) {buffer cs : Bytes} {o : Out}
    → Wrote buffer cs o
    → Wrote buffer (cs ++ more) (store_all more o)
unfolding store_all
store_all-Wrote [] {buffer} {cs} {o} w = subst (λ t. Wrote buffer t o) (sym (append-nil cs)) w
store_all-Wrote (c ∷ more) {buffer} {cs} {o} w =
    subst (λ t. Wrote buffer t (store_all more (store c o))) (append_assoc cs (c ∷ []) more)
      (store_all-Wrote more (store-Wrote c w))

pub fresh-Wrote : (buffer : Bytes) → Wrote buffer [] (record { buffer = buffer; r = 0 })
fresh-Wrote buffer = record {
  counted = refl;
  rest = [];
  short = omega arith;
  content = sym (overlay-nil buffer);
}
