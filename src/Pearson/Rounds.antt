-- ===== src/Pearson/Rounds.antt =====
-- The rounds of the hash: both halves stay nibbles, and a round can be undone.
use rp_lib_utils.Common.{
  ℕ, ◌/◌, ◌%◌, ◌<◌, bit_and, bit_xor, Bool, true, ◌&&◌, List, [], ◌∷◌, Bytes, All, IsByte, get_or,
  ltb, ◌==◌, ==_iff, ◌≡◌, refl, arith,
}
use rp_lib_utils.Common.Bits.{table_true, table_entry, table_entry₂}
use rp_lib_utils.Pearson.{Halves, substitute, round, rounds}

-- The inverse of the table.
abbrev tp4_inverse : List ℕ
tp4_inverse = 12 ∷ 2 ∷ 9 ∷ 8 ∷ 0 ∷ 7 ∷ 1 ∷ 13 ∷ 14 ∷ 4 ∷ 3 ∷ 6 ∷ 10 ∷ 15 ∷ 5 ∷ 11 ∷ []

undo : ℕ → ℕ → ℕ
undo x known = bit_xor (get_or tp4_inverse x 0) known

-- Over all nibbles: the result is a nibble, and each argument comes back from the other one.
nibble_test : ℕ → ℕ → Bool
nibble_test r k =
    ltb (substitute r k) 16 && undo (substitute r k) k == r && undo (substitute r k) r == k

nibble_table : table_true (λ r. table_true (nibble_test r) 16) 16 ≡ true
unfolding table_true nibble_test undo substitute
nibble_table = refl

nibble_holds : (r k : ℕ) → r < 16 → k < 16 → nibble_test r k ≡ true
nibble_holds r k hr hk = table_entry₂ nibble_test 16 16 r k hr hk nibble_table

substitute_facts :
    (r k : ℕ)
    → r < 16
    → k < 16
    → (substitute r k < 16) × (undo (substitute r k) k ≡ r) × (undo (substitute r k) r ≡ k)
unfolding nibble_test
substitute_facts r k hr hk = ground (arith, nibble_holds r k hr hk)

pub low_nibble : (c : ℕ) → c < 256 → bit_and 15 c ≡ c % 16
low_nibble c h = (==_iff _ _).0 (table_entry (λ d. bit_and 15 d == d % 16) 256 c h table)
  where
    table : table_true (λ d. bit_and 15 d == d % 16) 256 ≡ true
    table = unfold table_true in refl

-- Both halves are nibbles.
pub record IsValid (s : Halves) : Type 0 where
  pub rl_fits : s.rl < 16
  pub ru_fits : s.ru < 16

pub round-IsValid : (c : ℕ) (s : Halves) → c < 256 → IsValid s → IsValid (round c s)
unfolding round
round-IsValid c s h v =
    ground (arith, low_nibble c h, substitute_facts s.rl (c % 16), substitute_facts s.ru (c / 16))

pub rounds-IsValid :
    (text : Bytes) (s : Halves) → All IsByte text → IsValid s → IsValid (rounds text s)
unfolding rounds
rounds-IsValid [] s h v = v
rounds-IsValid (c ∷ text) s (hc, h) v = rounds-IsValid text (round c s) h (round-IsValid c s hc v)

-- The state before a round is determined by the state behind it, and so is the byte.
pub round_state :
    (c : ℕ) (s t : Halves) → c < 256 → IsValid s → IsValid t → round c s ≡ round c t → s ≡ t
unfolding round
round_state c s t h vs vt e = ground (
  arith,
  low_nibble c h,
  substitute_facts s.rl (c % 16),
  substitute_facts s.ru (c / 16),
  substitute_facts t.rl (c % 16),
  substitute_facts t.ru (c / 16),
)

pub round_byte :
    (a b : ℕ) (s : Halves) → a < 256 → b < 256 → IsValid s → round a s ≡ round b s → a ≡ b
unfolding round
round_byte a b s ha hb v e = ground (
  arith,
  low_nibble a ha,
  low_nibble b hb,
  substitute_facts s.rl (a % 16),
  substitute_facts s.ru (a / 16),
  substitute_facts s.rl (b % 16),
  substitute_facts s.ru (b / 16),
)

pub rounds_state :
    (text : Bytes) (s t : Halves)
    → All IsByte text
    → IsValid s
    → IsValid t
    → rounds text s ≡ rounds text t
    → s ≡ t
unfolding rounds
rounds_state [] s t h vs vt e = e
rounds_state (c ∷ text) s t (hc, h) vs vt e = round_state c s t hc vs vt (
    rounds_state text (round c s) (round c t) h (round-IsValid c s hc vs) (round-IsValid c t hc vt)
      e)
