-- ===== src/ExpandVars/Scan/Account.antt =====
-- The counters of a pass: what they say of the text that is written.
use rp_lib_utils.Common.{
  ℕ, suc, ◌+◌, ◌≡◌, refl, arith, true, [], ◌∷◌, Bytes, Option, none, some, length, length-append,
  ◌==◌, if◌then◌else◌,
}
use rp_lib_utils.ExpandVars.Scan.{
  Resolver, no_default, State, Next, put, removing, split_name, split_close, split_default,
  replacement, insert, escape_round, bare_round, braced, braced_round, dollar_round, round,
}

-- 1 if there is text behind the closing character, so that there is a closing character.
abbrev closed : Option Bytes → ℕ
closed (some rest) = 1
closed none = 0

-- The number of braced variables with a closing character that the round on `c` meets.
abbrev pub braced_here : ℕ → Bytes → ℕ
braced_here c [] = 0
braced_here c (d ∷ rest) =
    if c == b'$'
    then (if d == b'('
        then closed (split_close b')' rest).1
        else if d == b'{'
        then closed (split_close b'}' rest).1
        else 0)
    else 0

pub length-split_name :
    (text : Bytes) → length (split_name text).0 + length (split_name text).1 ≡ length text
unfolding split_name
length-split_name [] = refl
length-split_name (c ∷ text) = ground (arith, length-split_name text)

-- The closing character and the bytes behind it.
abbrev pub rest_size : Option Bytes → ℕ
rest_size (some rest) = 1 + length rest
rest_size none = 0

pub length-split_close :
    (close : ℕ) (text : Bytes)
    → length (split_close close text).0 + rest_size (split_close close text).1 ≡ length text
unfolding split_close
length-split_close close [] = refl
length-split_close close (c ∷ text) = ground (arith, length-split_close close text)

-- What a pass that writes does from one state to another: `taken` bytes are consumed, and `b` is the
-- number of closed braced variables among them.
abbrev Balance : State → State → ℕ → ℕ → Type 0
Balance s t taken b =
    (t.writing ≡ true)
    × (length t.out + t.remove + s.add ≡ length s.out + s.remove + t.add + taken + b)

-- The same for a round, where `size` bytes stood at its begin.
abbrev pub RoundBalance : State → Next → ℕ → ℕ → Type 0
RoundBalance s n size b =
    (n.0.writing ≡ true)
    × (length n.0.out + n.0.remove + s.add + length n.1
        ≡ length s.out + s.remove + n.0.add + size + b)

module _ (s : State) (writes : s.writing ≡ true) where
  insert-Balance : (r : Option Bytes) (n : ℕ) → Balance s (insert r (removing n s)) 0 n
  unfolding insert put removing
  insert-Balance none n = ground arith
  insert-Balance (some bs) n = ground (arith, length-append s.out bs)

  put-Balance : (c n : ℕ) → Balance s (put (c ∷ []) (removing n s)) (1 + n) 0
  unfolding put removing
  put-Balance c n = ground (arith, length-append s.out (c ∷ []))

  put1-Balance : (c : ℕ) → Balance s (put (c ∷ []) s) 1 0
  unfolding put
  put1-Balance c = ground (arith, length-append s.out (c ∷ []))

  bare_round-Balance :
      (f : Resolver) (text : Bytes) → RoundBalance s (bare_round f text s) (suc (length text)) 0
  unfolding bare_round
  bare_round-Balance f text =
      let r : Option Bytes = replacement no_default (f (split_name text).0) in
      ground (arith, insert-Balance r (1 + length (split_name text).0), length-split_name text)

  braced-Balance :
      (f : Resolver) (body : Bytes) (rest : Option Bytes)
      → RoundBalance s (braced f body rest s) (2 + length body + rest_size rest) (closed rest)
  unfolding braced
  braced-Balance f body none = unfold removing in ground arith
  braced-Balance f body (some rest) =
      let (name, d) = split_default body in
      ground (arith, insert-Balance (replacement d (f name)) (3 + (length body + 1)))

  braced_round-Balance :
      (f : Resolver) (close : ℕ) (text : Bytes)
      → RoundBalance s
          (braced_round f close text s)
          (2 + length text)
          (closed (split_close close text).1)
  unfolding braced_round
  braced_round-Balance f close text =
      let (body, rest) = split_close close text in
      ground (arith, braced-Balance f body rest, length-split_close close text)

  dollar_round-Balance :
      (f : Resolver) (text : Bytes)
      → RoundBalance s (dollar_round f text s) (1 + length text) (braced_here b'$' text)
  unfolding dollar_round
  dollar_round-Balance f [] = ground (arith, bare_round-Balance f [])
  dollar_round-Balance f (d ∷ rest) = ground (
    arith,
    bare_round-Balance f (d ∷ rest),
    braced_round-Balance f b')' rest,
    braced_round-Balance f b'}' rest,
    put-Balance b'$' 1,
  )

  escape_round-Balance : (text : Bytes) → RoundBalance s (escape_round text s) (1 + length text) 0
  unfolding escape_round
  escape_round-Balance [] = ground (arith, put1-Balance b'\\')
  escape_round-Balance (oc ∷ rest) = ground (arith, put1-Balance b'\\', put-Balance oc 1)

  pub round-Balance :
      (f : Resolver) (c : ℕ) (rest : Bytes)
      → RoundBalance s (round f c rest s) (1 + length rest) (braced_here c rest)
  unfolding round
  round-Balance f c [] =
      ground (arith, put1-Balance c, dollar_round-Balance f [], escape_round-Balance [])
  round-Balance f c (d ∷ rest) =
      ground
        (arith, put1-Balance c, dollar_round-Balance f (d ∷ rest), escape_round-Balance (d ∷ rest))
