-- ===== src/Globmatch/Tests.antt =====
-- Runs of the matching, and its theorem at a pattern.
use rp_lib_utils.Common.{
  ℕ, ◌+◌, ◌<◌, ◌≡◌, ◌↔◌, refl, arith, true, false, ◌&&◌, leb, if◌then◌else◌, codes,
}
use rp_lib_utils.Globmatch.{
  Flags, eq, best, match_from, match_score, globmatch, globmatchi, fnmatch,
}
use rp_lib_utils.Globmatch.Patterns.{SingleGlobs, Matches, match_score_iff}

lower : ℕ → ℕ
lower c = if leb b'A' c && leb c b'Z' then c + 32 else c

abbrev paths : Flags
paths = record { casefold = false; pathname = true }

scored : globmatchi lower (codes "a*C") (codes "abcc") ≡ 3
unfolding globmatchi match_score match_from best eq lower
scored = refl

cased : globmatch lower (codes "a*C") (codes "abc") ≡ 0
unfolding globmatch match_score match_from best eq lower
cased = refl

-- The second glob is compared as a character.
two_globs : globmatch lower (codes "**a") (codes "xa") ≡ 0
unfolding globmatch match_score match_from best eq lower
two_globs = refl

-- The slash behind the place that matches ends the search.
found_and_lost : fnmatch lower paths (codes "*a/b") (codes "a/b") ≡ 1
unfolding fnmatch match_score match_from best eq lower
found_and_lost = refl

-- A glob runs over the slash that the next character of the pattern equals.
over_slash : fnmatch lower paths (codes "*/b") (codes "a/x/b") ≡ 0
unfolding fnmatch match_score match_from best eq lower
over_slash = refl

single : SingleGlobs (codes "a*c")
single = (λ e. absurd (ground (arith, e)), (λ e. refl, tt))

match_score_iff_example :
    (0
      < match_score lower
          (record { casefold = true; pathname = false })
          (codes "a*c")
          (codes "abc"))
    ↔ Matches lower true (codes "a*c") (codes "abc")
match_score_iff_example = match_score_iff lower true (codes "a*c") (codes "abc") single
