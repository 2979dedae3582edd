-- ===== src/Pearson/Collisions.antt =====
-- What the hash of src/misc/rp-pearson.c promises: the two entry points agree, the ranges, and no
-- collision between texts that differ in one byte.
use rp_lib_utils.Common.{
  ℕ, suc, ◌+◌, ◌*◌, ◌%◌, ◌^◌, ◌≤◌, ◌<◌, bit_or, bit_xor, Bool, true, [], ◌∷◌, ◌++◌, Bytes, All,
  IsByte, IsChar, length, length-append, ltb, ltb→lt, ◌==◌, ==_iff, ◌≡◌, ◌≢◌, refl, ap, sym, ◌∙◌,
  arith,
}
use rp_lib_utils.Common.Bits.{table_true, table_entry₂, bit_or_shift}
use rp_lib_utils.Pearson.{
  Halves, start, round, rounds, finish, pearson8_loop, pearson8, pearson8_len, fold_hash,
  pearson_n_len,
}
use rp_lib_utils.Pearson.Rounds.{IsValid, rounds-IsValid, rounds_state, round_byte, round-IsValid}

start-IsValid : IsValid start
start-IsValid = omega arith

pearson8_loop-rounds :
    (text rest : Bytes) (n : ℕ) (s : Halves)
    → All IsChar text
    → pearson8_loop (text ++ (0 ∷ rest)) n s ≡ finish (rounds text s) (n + length text)
unfolding pearson8_loop rounds
pearson8_loop-rounds [] rest n s h = ap (finish s) (omega arith)
pearson8_loop-rounds (c ∷ text) rest n s (hc, h) = ground (
  arith,
  pearson8_loop-rounds text rest (n + 1) (round c s) h,
  ap (finish (rounds text (round c s))) (sum n (length text)),
)
  where
    sum : (a b : ℕ) → a + 1 + b ≡ a + suc b
    sum a b = omega arith

-- On a text with no NUL byte in it, `rp_pearson8`, which stops at the terminating NUL whatever
-- memory follows it, returns what `rp_pearson8_len` returns when it is given the text's length.
pearson8-pearson8_len :
    (text rest : Bytes) → All IsChar text → pearson8 (text ++ (0 ∷ rest)) ≡ pearson8_len text
unfolding pearson8 pearson8_len
pearson8-pearson8_len text rest h =
    pearson8_loop-rounds text rest 0 start h ∙ ap (finish (rounds text start)) (omega arith)

-- The last line keeps the two halves apart, for a given length.
xor_test : ℕ → ℕ → Bool
xor_test x n = bit_xor (bit_xor x n % 256) n == x

xor_table : table_true (λ x. table_true (xor_test x) 256) 256 ≡ true
unfolding table_true xor_test
xor_table = refl

xor_undo : (x n : ℕ) → x < 256 → n < 256 → bit_xor (bit_xor x n % 256) n ≡ x
unfolding xor_test
xor_undo x n hx hn = (==_iff _ _).0 (table_entry₂ xor_test 256 256 x n hx hn xor_table)

finish_undo : (s : Halves) (n : ℕ) → IsValid s → bit_xor (finish s n) (n % 256) ≡ s.ru * 16 + s.rl
unfolding finish
finish_undo s n v =
    let joined : bit_or (s.ru * 16) s.rl ≡ s.ru * 16 + s.rl = bit_or_shift 4 s.ru s.rl v.rl_fits in
    ap (λ (t : ℕ). bit_xor (bit_xor t (n % 256) % 256) (n % 256)) joined
    ∙ xor_undo (s.ru * 16 + s.rl) (n % 256) (omega arith) (omega arith)

finish_state : (s t : Halves) (n : ℕ) → IsValid s → IsValid t → finish s n ≡ finish t n → s ≡ t
finish_state s t n vs vt e = ground (arith, sums)
  where
    sums : s.ru * 16 + s.rl ≡ t.ru * 16 + t.rl
    sums = sym (finish_undo s n vs) ∙ ap (λ (h : ℕ). bit_xor h (n % 256)) e ∙ finish_undo t n vt

rounds-append : (xs ys : Bytes) (s : Halves) → rounds (xs ++ ys) s ≡ rounds ys (rounds xs s)
unfolding rounds
rounds-append [] ys s = refl
rounds-append (x ∷ xs) ys s = rounds-append xs ys (round x s)

-- Two texts of bytes that differ in exactly one byte, at any place, never have the same 8-bit hash.
pub pearson8_len-ne :
    (front back : Bytes) (a b : ℕ)
    → All IsByte front
    → All IsByte back
    → a < 256
    → b < 256
    → a ≢ b
    → pearson8_len (front ++ (a ∷ back)) ≢ pearson8_len (front ++ (b ∷ back))
unfolding pearson8_len rounds
pearson8_len-ne front back a b hf hb ha hb' ne e = ne (round_byte a b s ha hb' vs same_round)
  where
    s : Halves
    s = rounds front start

    vs : IsValid s
    vs = rounds-IsValid front start hf start-IsValid

    state : (c : ℕ) → rounds (front ++ (c ∷ back)) start ≡ rounds back (round c s)
    state c = rounds-append front (c ∷ back) start

    valid : (c : ℕ) → c < 256 → IsValid (rounds back (round c s))
    valid c hc = rounds-IsValid back (round c s) hb (round-IsValid c s hc vs)

    n : ℕ
    n = length (front ++ (a ∷ back))

    same_length : length (front ++ (b ∷ back)) ≡ n
    same_length = omega (arith, length-append front (a ∷ back), length-append front (b ∷ back))

    same_finish : finish (rounds back (round a s)) n ≡ finish (rounds back (round b s)) n
    same_finish = cc (e, state a, state b, same_length)

    same_state : rounds back (round a s) ≡ rounds back (round b s)
    same_state = finish_state _ _ n (valid a ha) (valid b hb') same_finish

    same_round : round a s ≡ round b s
    same_round =
        rounds_state back (round a s) (round b s) hb (round-IsValid a s ha vs)
          (round-IsValid b s hb' vs) same_state

fold_test : ℕ → ℕ → Bool
fold_test n h = ltb (fold_hash n h) (2 ^ n)

fold_table : table_true (λ n. table_true (fold_test n) 256) 9 ≡ true
unfolding table_true fold_test fold_hash
fold_table = refl

finish-lt : (s : Halves) (n : ℕ) → finish s n < 256
unfolding finish
finish-lt s n = omega arith

-- The variant of N bits, for N up to 8, returns a number below 2 ^ N, so that it can index a table
-- of that size.
pearson_n_len-lt : (n : ℕ) (text : Bytes) → n ≤ 8 → pearson_n_len n text < 2 ^ n
unfolding pearson_n_len pearson8_len fold_test
pearson_n_len-lt n text h = ltb→lt _ _ (
    table_entry₂ fold_test 9 256 n (pearson8_len text) (omega arith)
      (finish-lt (rounds text start) (length text)) fold_table)
