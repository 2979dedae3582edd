-- ===== src/JsonStr/Sound.antt =====
-- The test of src/json/rp-jsonstr.c stays within its fuel and accepts no text but a value.
use mathlib.Core.Path.{subst}
use rp_lib_utils.Common.{ℕ, zero, suc, ◌*◌, ◌<◌, ap, sym, arith, length, ◌==◌}
use rp_lib_utils.JsonStr.Reading.{Reading, read_readtxt, skip_whitespaces}
use rp_lib_utils.JsonStr.Values.{test_value, array_loop, object_loop}
use rp_lib_utils.JsonStr.Grammar.{Text, padded, items, members, scalar, no_items, no_members}
use rp_lib_utils.JsonStr.Rest.{
  remaining, remaining-char, Ensures, holds, refuses, Ensures-if, Ensures-and_then, Ensures-map,
  Went, Went-map, Went-one,
}
use rp_lib_utils.JsonStr.Parts.{
  scalar-Ensures, Key-Ensures, array_close, object_close, items_from, members_from, last_item_from,
  last_member_from, padded_from, array_from, object_from, left, no_more, spaces,
}

mutual
  unfolding test_value array_loop object_loop

  pub test_value-Ensures :
      (f : ℕ) (rt : Reading)
      → 2 * length (remaining rt) < f
      → Ensures (Went (Text padded) rt) (test_value f rt)
  test_value-Ensures zero rt h = absurd (omega (arith, h))
  test_value-Ensures (suc f) rt h =
      let r = skip_whitespaces rt in
      Ensures-and_then
        (Ensures-if (r.c == b'[')
          (λ e.
            Ensures-map
              (array_loop-Ensures f (skip_whitespaces (read_readtxt r))
                (omega (arith, h, left r 90 e, no_more (spaces rt))))
              λ s k. array_from r s e k)
          (λ ne.
            Ensures-if (r.c == b'{')
              (λ e.
                Ensures-map
                  (object_loop-Ensures f (skip_whitespaces (read_readtxt r))
                    (omega (arith, h, left r 122 e, no_more (spaces rt))))
                  λ s k. object_from r s e k)
              (λ nb. Ensures-map (scalar-Ensures r) λ s k. Went-map k scalar)))
        λ s g. holds (padded_from rt s g)

  array_loop-Ensures :
      (f : ℕ) (rt : Reading)
      → suc (2 * length (remaining rt)) < f
      → Ensures (Went (Text items) rt) (array_loop f rt)
  array_loop-Ensures zero rt h = absurd (omega (arith, h))
  array_loop-Ensures (suc f) rt h =
      Ensures-if (rt.c == b']')
        (λ e. holds (Went-map (Went-one rt 92 e) (λ w q. subst (Text items) (sym q) no_items)))
        (λ ne. Ensures-and_then (test_value-Ensures f rt (omega (arith, h))) λ r g.
          Ensures-if (r.c == b',')
            (λ e.
              Ensures-map
                (array_loop-Ensures f (read_readtxt r)
                  (omega (arith, h, no_more g, ap length (remaining-char r 43 e))))
                λ s k. items_from g e k)
            (λ nc.
              Ensures-if (r.c == b']')
                (λ e. Ensures-map (array_close f r (omega (arith, h)) e) λ s k. last_item_from g k)
                (λ no. refuses)))

  object_loop-Ensures :
      (f : ℕ) (rt : Reading)
      → suc (2 * length (remaining rt)) < f
      → Ensures (Went (Text members) rt) (object_loop f rt)
  object_loop-Ensures zero rt h = absurd (omega (arith, h))
  object_loop-Ensures (suc f) rt h =
      Ensures-if (rt.c == b'}')
        (λ e. holds (Went-map (Went-one rt 124 e) (λ w q. subst (Text members) (sym q) no_members)))
        (λ ne. Ensures-and_then (Key-Ensures rt) λ v n.
          Ensures-and_then (test_value-Ensures f v (omega (arith, h, no_more n))) λ r g.
            Ensures-if (r.c == b',')
              (λ e.
                Ensures-map
                  (object_loop-Ensures f (skip_whitespaces (read_readtxt r))
                    (omega (arith, h, no_more n, no_more g, left r 43 e)))
                  λ s k. members_from n g e k)
              (λ nc.
                Ensures-if (r.c == b'}')
                  (λ e.
                    Ensures-map (object_close f r (omega (arith, h)) e)
                      λ s k. last_member_from n g k)
                  (λ no. refuses)))
