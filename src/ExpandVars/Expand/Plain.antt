-- ===== src/ExpandVars/Expand/Plain.antt =====
-- Expansion of a value with no variable, and of one with a single variable.
use rp_lib_utils.Common.{
  ℕ, ◌+◌, ◌<◌, ◌≡◌, ◌≢◌, refl, arith, Bool, true, false, [], ◌∷◌, ◌++◌, append_assoc, append-nil,
  Bytes, some, length, length-append, All, if◌then◌else◌,
}
use rp_lib_utils.ExpandVars.Scan.{
  Resolver, no_default, State, put, removing, split_close, split_default, found_text, replacement,
  insert, braced, braced_round, dollar_round, round, scan, contains_dollar,
}
use rp_lib_utils.ExpandVars.Scan.Passes.{scan_from, scan_from-round, scan-scan_from, scan_from-nil}
use rp_lib_utils.ExpandVars.Expand.{
  null, text, block_size, write_pass, expand_once, expand_loop, expand, expand_function, or_copy,
  limit,
}

-- Neither `$` nor the escape.
abbrev pub Plain : ℕ → Type 0
Plain c = (c ≢ b'$') × (c ≢ b'\\')

put-put : (bs more : Bytes) (s : State) → put more (put bs s) ≡ put (bs ++ more) s
unfolding put
put-put bs more s = ground (arith, append_assoc s.out bs more)

put-nil : (s : State) → put [] s ≡ s
unfolding put
put-nil s = ground (arith, append-nil s.out)

round-Plain :
    (f : Resolver) (c : ℕ) (rest : Bytes) (s : State)
    → Plain c
    → round f c rest s ≡ (put (c ∷ []) s, rest)
unfolding round
round-Plain f c rest s h = ground arith

scan_from-Plain :
    (f : Resolver) (plain rest : Bytes) (s : State)
    → All Plain plain
    → scan_from f (plain ++ rest) s ≡ scan_from f rest (put plain s)
scan_from-Plain f [] rest s h = rw put-nil
scan_from-Plain f (c ∷ plain) rest s (hc, h) = rw (
  scan_from-round f c (plain ++ rest) s,
  round-Plain f c (plain ++ rest) s hc,
  scan_from-Plain f plain rest (put (c ∷ []) s) h,
  put-put (c ∷ []) plain s,
)

scan-Plain :
    (writing : Bool) (f : Resolver) (value : Bytes)
    → All Plain value
    → (scan writing f value).remove ≡ 0
unfolding put
scan-Plain writing f value h =
    rw
      (
        ← append-nil value,
        scan-scan_from writing f (value ++ []),
        scan_from-Plain f value [] _ h,
        scan_from-nil,
      )
      (ground arith)

-- A value with no `$` and no escape in it gives NULL, or its copy when that is asked for.
expand_function-Plain :
    (value : Bytes) (copy : Bool) (f : Resolver)
    → All Plain value
    → expand_function true (some value) copy f ≡ (if copy then text value else null)
unfolding expand_function or_copy expand expand_loop expand_once
expand_function-Plain value copy f h = ground (arith, scan-Plain false f value h)

split_close-Lacks :
    (close : ℕ) (body rest : Bytes)
    → All (λ c. c ≢ close) body
    → split_close close (body ++ (close ∷ rest)) ≡ (body, some rest)
unfolding split_close
split_close-Lacks close [] rest h = ground arith
split_close-Lacks close (c ∷ body) rest (hc, h) =
    ground (arith, split_close-Lacks close body rest h)

split_default-Lacks :
    (name : Bytes) → All (λ c. c ≢ b'-') name → split_default name ≡ (name, no_default)
unfolding split_default
split_default-Lacks [] h = refl
split_default-Lacks (c ∷ []) (hc, h) = ground arith
split_default-Lacks (c ∷ d ∷ name) (hc, (hd, h)) =
    ground (arith, split_default-Lacks (d ∷ name) (hd, h))

-- A name that stands between braces: no closing brace, and no mark of a default.
abbrev pub BraceName : ℕ → Type 0
BraceName c = (c ≢ b'}') × (c ≢ b'-')

module _ (f : Resolver) (name v : Bytes) (is_name : All BraceName name)
    (found : found_text (f name) ≡ some v) where
  lacks_close : (n : Bytes) → All BraceName n → All (λ c. c ≢ b'}') n
  lacks_close [] h = tt
  lacks_close (c ∷ n) (hc, h) = (hc.0, lacks_close n h)

  lacks_dash : (n : Bytes) → All BraceName n → All (λ c. c ≢ b'-') n
  lacks_dash [] h = tt
  lacks_dash (c ∷ n) (hc, h) = (hc.1, lacks_dash n h)

  -- The round on a braced variable.
  round_variable :
      (rest : Bytes) (s : State)
      → round f b'$' (b'{' ∷ (name ++ (b'}' ∷ rest))) s
        ≡ (insert (some v) (removing (3 + (length name + 1)) s), rest)
  unfolding round dollar_round braced_round braced replacement
  round_variable rest s = rw (
    split_close-Lacks b'}' name rest (lacks_close name is_name),
    split_default-Lacks name (lacks_dash name is_name),
    found,
  )

  -- A whole pass over a value with one variable.
  scan_variable :
      (pre post : Bytes) (s : State)
      → All Plain pre
      → All Plain post
      → scan_from f (pre ++ (b'$' ∷ b'{' ∷ (name ++ (b'}' ∷ post)))) s
        ≡ put post (insert (some v) (removing (3 + (length name + 1)) (put pre s)))
  scan_variable pre post s hpre hpost = rw (
    scan_from-Plain f pre (b'$' ∷ b'{' ∷ (name ++ (b'}' ∷ post))) s hpre,
    scan_from-round f b'$' (b'{' ∷ (name ++ (b'}' ∷ post))) (put pre s),
    round_variable post (put pre s),
    ← append-nil post,
    scan_from-Plain f post [] _ hpost,
    scan_from-nil,
    append-nil,
  )

  abbrev value_of_one : Bytes → Bytes → Bytes
  value_of_one pre post = pre ++ (b'$' ∷ b'{' ∷ (name ++ (b'}' ∷ post)))

  length-value_of_one :
      (pre post : Bytes)
      → length (value_of_one pre post) ≡ length pre + length name + length post + 3
  length-value_of_one pre post = omega (
    arith,
    length-append pre (b'$' ∷ b'{' ∷ (name ++ (b'}' ∷ post))),
    length-append name (b'}' ∷ post),
  )

  -- What the two passes leave.
  counted :
      (pre post : Bytes)
      → All Plain pre
      → All Plain post
      → ((scan false f (value_of_one pre post)).remove ≡ length name + 4)
        × ((scan false f (value_of_one pre post)).add ≡ length v)
  unfolding put insert removing
  counted pre post hpre hpost =
      rw (scan-scan_from false f (value_of_one pre post), scan_variable pre post _ hpre hpost)
        (ground arith)

  written :
      (pre post : Bytes)
      → All Plain pre
      → All Plain post
      → contains_dollar v ≡ false
      → ((scan true f (value_of_one pre post)).out ≡ pre ++ (v ++ post))
        × ((scan true f (value_of_one pre post)).again ≡ 0)
  unfolding put insert removing
  written pre post hpre hpost plain =
      rw (scan-scan_from true f (value_of_one pre post), scan_variable pre post _ hpre hpost)
        (ground (arith, append_assoc pre v post))

  -- A value with one braced variable between plain texts, whose value was found and has no `$`, is
  -- expanded to these texts with the variable's value between them, if the result is shorter than
  -- RP_EXPAND_VARS_LIMIT and `malloc` succeeds. The name has no closing brace and no `-` in it.
  pub expand_variable :
      (pre post : Bytes)
      → All Plain pre
      → All Plain post
      → contains_dollar v ≡ false
      → length (pre ++ (v ++ post)) < limit
      → expand true (some (pre ++ (b'$' ∷ b'{' ∷ (name ++ (b'}' ∷ post))))) f
        ≡ text (pre ++ (v ++ post))
  unfolding expand expand_loop expand_once write_pass block_size
  expand_variable pre post hpre hpost plain fits = ground (
    arith,
    counted pre post hpre hpost,
    written pre post hpre hpost plain,
    length-value_of_one pre post,
    length-append pre (v ++ post),
    length-append v post,
  )
