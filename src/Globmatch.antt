-- ===== src/Globmatch.antt =====
-- src/sandbox/globmatch.c: patterns with `*` and the scores of what they match. `tolower` of the C
-- library is a parameter that is taken to keep the terminating NUL apart from all characters; the two
-- flags are Booleans.
pub mod Patterns
mod Tests
use rp_lib_utils.Common.{ℕ, ◌+◌, Bool, true, false, ◌&&◌, [], ◌∷◌, Bytes, ltb, ◌==◌, if◌then◌else◌}

abbrev pub glob : ℕ
glob = b'*'

pub record Flags : Type 0 where
  pub casefold : Bool
  pub pathname : Bool

-- `EQ`
unfoldable pub eq : (ℕ → ℕ) → Flags → ℕ → ℕ → Bool
eq tolower flags a b = if flags.casefold then tolower a == tolower b else a == b

abbrev pub has_slash : Bytes → Bool
has_slash [] = false
has_slash (x ∷ str) = let rest = has_slash str in if x == b'/' then true else rest

-- A glob at the end of the pattern.
unfoldable pub last_glob : Flags → ℕ → Bytes → ℕ
last_glob flags r str = if flags.pathname && has_slash str then 0 else r

-- The loop for the best score `rs`; `c` is the character behind the glob and `remaining` matches
-- what follows it.
unfoldable pub best : (ℕ → Bool) → (Bytes → ℕ) → Bool → Bytes → ℕ → ℕ
best is_c remaining pathname [] rs = rs
best is_c remaining pathname (x ∷ str) rs =
    let rr = remaining str in
    let better = best is_c remaining pathname str (if ltb rs rr then rr else rs) in
    let same = best is_c remaining pathname str rs in
    if is_c x then better else if pathname && x == b'/' then 0 else same

-- `rs ? rs + r : 0`
abbrev pub total : ℕ → ℕ → ℕ
total r rs = if rs == 0 then 0 else rs + r

module _ (tolower : ℕ → ℕ) (flags : Flags) where
  -- `match` with the score `r` so far.
  unfoldable pub match_from : Bytes → Bytes → ℕ → ℕ
  match_from [] [] r = r
  match_from [] (x ∷ str) r = 0
  match_from (p ∷ []) [] r = if p == glob then last_glob flags r [] else 0
  match_from (p ∷ []) (x ∷ str) r =
      let rest = match_from [] str (r + 1) in
      if p == glob then last_glob flags r (x ∷ str) else if eq tolower flags p x then rest else 0
  match_from (p ∷ c ∷ pat) [] r = 0
  match_from (p ∷ c ∷ pat) (x ∷ str) r =
      let rest = match_from (c ∷ pat) str (r + 1) in
      let rs = best (eq tolower flags c) (λ s. match_from pat s 1) flags.pathname (x ∷ str) 0 in
      if p == glob then total r rs else if eq tolower flags p x then rest else 0

  unfoldable pub match_score : Bytes → Bytes → ℕ
  match_score pat str = match_from pat str 1

-- `globmatch` and `globmatchi`
unfoldable pub globmatch : (ℕ → ℕ) → Bytes → Bytes → ℕ
globmatch tolower = match_score tolower (record { casefold = false; pathname = false })

unfoldable pub globmatchi : (ℕ → ℕ) → Bytes → Bytes → ℕ
globmatchi tolower = match_score tolower (record { casefold = true; pathname = false })

-- 0 when it matches.
unfoldable pub fnmatch : (ℕ → ℕ) → Flags → Bytes → Bytes → ℕ
fnmatch tolower flags pat str = if match_score tolower flags pat str == 0 then 1 else 0
