-- ===== src/ExpandVars/Scan/Passes.antt =====
-- The two passes of `expand` read a text alike, and a pass reads it whole.
use mathlib.Core.Path.{subst}
use rp_lib_utils.Common.{
  ℕ, zero, suc, ◌+◌, ◌≤◌, ◌≡◌, refl, sym, arith, Bool, true, false, [], ◌∷◌, Bytes, Option, none,
  some, length,
}
use rp_lib_utils.ExpandVars.Scan.{
  Resolver, no_default, State, Next, put, removing, split_name, split_close, split_default,
  replacement, insert, escape_round, bare_round, braced, braced_round, dollar_round, round,
  scan_loop, scan,
}
use rp_lib_utils.ExpandVars.Scan.Account.{
  braced_here, RoundBalance, round-Balance, length-split_name, length-split_close,
}

-- The counters that decide on the size of the block.
abbrev Alike : State → State → Type 0
Alike s t = (s.remove ≡ t.remove) × (s.add ≡ t.add)

-- The states are alike and `begin` is the same.
abbrev NextAlike : Next → Next → Type 0
NextAlike m n = Alike m.0 n.0 × (m.1 ≡ n.1)

module _ (s t : State) (alike : Alike s t) where
  put-Alike : (bs : Bytes) (n : ℕ) → Alike (put bs (removing n s)) (put bs (removing n t))
  unfolding put removing
  put-Alike bs n = ground arith

  put0-Alike : (bs : Bytes) → Alike (put bs s) (put bs t)
  unfolding put
  put0-Alike bs = ground arith

  insert-Alike :
      (r : Option Bytes) (n : ℕ) → Alike (insert r (removing n s)) (insert r (removing n t))
  unfolding insert put removing
  insert-Alike none n = ground arith
  insert-Alike (some bs) n = ground arith

  braced-Alike :
      (f : Resolver) (body : Bytes) (rest : Option Bytes)
      → NextAlike (braced f body rest s) (braced f body rest t)
  unfolding braced
  braced-Alike f body none = unfold removing in ground arith
  braced-Alike f body (some rest) =
      let (name, d) = split_default body in
      (insert-Alike (replacement d (f name)) (3 + (length body + 1)), refl)

  dollar_round-Alike :
      (f : Resolver) (text : Bytes) → NextAlike (dollar_round f text s) (dollar_round f text t)
  unfolding dollar_round bare_round braced_round
  dollar_round-Alike f [] = (insert-Alike _ _, refl)
  dollar_round-Alike f (d ∷ rest) = ground (
    arith,
    put-Alike (b'$' ∷ []) 1,
    insert-Alike (replacement no_default (f (split_name (d ∷ rest)).0))
        (1 + length (split_name (d ∷ rest)).0),
    braced-Alike f (split_close b')' rest).0 (split_close b')' rest).1,
    braced-Alike f (split_close b'}' rest).0 (split_close b'}' rest).1,
  )

  escape_round-Alike : (text : Bytes) → NextAlike (escape_round text s) (escape_round text t)
  unfolding escape_round
  escape_round-Alike [] = (put0-Alike _, refl)
  escape_round-Alike (oc ∷ rest) = ground (arith, put0-Alike (b'\\' ∷ []), put-Alike (oc ∷ []) 1)

  round-Alike :
      (f : Resolver) (c : ℕ) (rest : Bytes) → NextAlike (round f c rest s) (round f c rest t)
  unfolding round
  round-Alike f c rest =
      ground (arith, put0-Alike (c ∷ []), dollar_round-Alike f rest, escape_round-Alike rest)

scan_loop-Alike :
    (fuel : ℕ) (f : Resolver) (text : Bytes) (s t : State)
    → Alike s t
    → Alike (scan_loop fuel f text s) (scan_loop fuel f text t)
unfolding scan_loop
scan_loop-Alike fuel f [] s t h = h
scan_loop-Alike zero f (c ∷ text) s t h = h
scan_loop-Alike (suc fuel) f (c ∷ text) s t h =
    let (a, e) = round-Alike s t h f c text in
    subst
      (λ b.
        Alike (scan_loop fuel f b (round f c text s).0)
          (scan_loop fuel f (round f c text t).1 (round f c text t).0))
      (sym e) (scan_loop-Alike fuel f _ (round f c text s).0 (round f c text t).0 a)

-- The first pass computes the counters of the second one.
pub scan-passes :
    (f : Resolver) (text : Bytes)
    → ((scan false f text).remove ≡ (scan true f text).remove)
      × ((scan false f text).add ≡ (scan true f text).add)
unfolding scan
scan-passes f text = scan_loop-Alike (length text) f text _ _ (refl, refl)

-- A round takes its byte at least.
round_progress :
    (f : Resolver) (c : ℕ) (text : Bytes) (s : State) → length (round f c text s).1 ≤ length text
unfolding round escape_round dollar_round bare_round braced_round braced split_name
round_progress f c [] s = ground arith
round_progress f c (d ∷ rest) s = ground (
  arith,
  length-split_name (d ∷ rest),
  length-split_close b')' rest,
  length-split_close b'}' rest,
)

braced_here-le : (c : ℕ) (text : Bytes) → braced_here c text ≤ 1
braced_here-le c [] = omega arith
braced_here-le c (d ∷ rest) = ground arith

-- The number of braced variables with their closing character that a pass meets in a text.
braced_loop : ℕ → Resolver → Bytes → State → ℕ
braced_loop fuel f [] s = 0
braced_loop zero f (c ∷ text) s = 0
braced_loop (suc fuel) f (c ∷ text) s =
    let n = round f c text s in braced_here c text + braced_loop fuel f n.1 n.0

abbrev start : State
start = record { writing = true; out = []; remove = 0; add = 0; again = 0 }

pub braced_vars : Resolver → Bytes → ℕ
braced_vars f text = braced_loop (length text) f text start

scan_loop-Balance :
    (fuel : ℕ) (f : Resolver) (text : Bytes) (s : State)
    → length text ≤ fuel
    → s.writing ≡ true
    → length (scan_loop fuel f text s).out + (scan_loop fuel f text s).remove + s.add
      ≡ length s.out
        + s.remove
        + (scan_loop fuel f text s).add
        + length text
        + braced_loop fuel f text s
unfolding scan_loop braced_loop
scan_loop-Balance fuel f [] s h w = omega arith
scan_loop-Balance zero f (c ∷ text) s h w = absurd (omega arith)
scan_loop-Balance (suc fuel) f (c ∷ text) s h w =
    let n : Next = round f c text s in
    let b : RoundBalance s n (1 + length text) (braced_here c text) = round-Balance s w f c text in
    omega
      (arith, b, scan_loop-Balance fuel f n.1 n.0 (omega (arith, round_progress f c text s)) b.0)

-- What the writing pass writes and what the counting pass counted: the bytes written and `remove`
-- make up the text, `add` and one more for each braced variable with its closing character.
pub scan_balance :
    (f : Resolver) (text : Bytes)
    → length (scan true f text).out + (scan false f text).remove
      ≡ length text + (scan false f text).add + braced_vars f text
unfolding scan braced_vars
scan_balance f text =
    let (r, a) = scan-passes f text in
    omega (arith, scan_loop-Balance (length text) f text start (omega arith) refl, r, a)

-- More fuel changes nothing: a pass reads its text to the end.
pub scan_loop_enough :
    (fuel more : ℕ) (f : Resolver) (text : Bytes) (s : State)
    → length text ≤ fuel
    → fuel ≤ more
    → scan_loop more f text s ≡ scan_loop fuel f text s
unfolding scan_loop
scan_loop_enough fuel more f [] s h k = refl
scan_loop_enough zero more f (c ∷ text) s h k = absurd (omega arith)
scan_loop_enough (suc fuel) zero f (c ∷ text) s h k = absurd (omega arith)
scan_loop_enough (suc fuel) (suc more) f (c ∷ text) s h k =
    let n : Next = round f c text s in
    scan_loop_enough fuel more f n.1 n.0 (omega (arith, round_progress f c text s)) (omega arith)

braced_loop-le :
    (fuel : ℕ) (f : Resolver) (text : Bytes) (s : State) → braced_loop fuel f text s ≤ length text
unfolding braced_loop
braced_loop-le fuel f [] s = omega arith
braced_loop-le zero f (c ∷ text) s = omega arith
braced_loop-le (suc fuel) f (c ∷ text) s =
    let n : Next = round f c text s in
    omega (arith, braced_here-le c text, round_progress f c text s, braced_loop-le fuel f n.1 n.0)

pub braced_vars-le : (f : Resolver) (text : Bytes) → braced_vars f text ≤ length text
unfolding braced_vars
braced_vars-le f text = braced_loop-le (length text) f text start

-- A whole pass from a state on, and its first round.
pub scan_from : Resolver → Bytes → State → State
scan_from f text s = scan_loop (length text) f text s

pub scan_from-round :
    (f : Resolver) (c : ℕ) (text : Bytes) (s : State)
    → scan_from f (c ∷ text) s ≡ scan_from f (round f c text s).1 (round f c text s).0
unfolding scan_from scan_loop
scan_from-round f c text s =
    let n : Next = round f c text s in
    scan_loop_enough (length n.1) (length text) f n.1 n.0 (omega arith) (round_progress f c text s)

pub scan-scan_from :
    (writing : Bool) (f : Resolver) (text : Bytes)
    → scan writing f text
      ≡ scan_from f text (record { writing = writing; out = []; remove = 0; add = 0; again = 0 })
unfolding scan scan_from
scan-scan_from writing f text = refl

pub scan_from-nil : (f : Resolver) (s : State) → scan_from f [] s ≡ s
unfolding scan_from scan_loop
scan_from-nil f s = refl
