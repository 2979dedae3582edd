-- ===== src/Escape/ArgsCount.antt =====
-- The room that `rp_unescape_args` of src/http/rp-escape.c counts for escaped pairs.
use mathlib.Core.Path.{ap₂}
use rp_lib_utils.Common.{
  ℕ, zero, suc, ◌+◌, ◌<◌, ◌≡◌, refl, ap, sym, ◌∙◌, arith, List, [], ◌∷◌, ◌++◌, append-nil, Bytes,
  Option, none, some, length, length-append, All, IsByte,
}
use rp_lib_utils.Escape.RoundTrip.{unescaped_length-escaped}
use rp_lib_utils.Escape.Url.{Arg, text_or_empty}
use rp_lib_utils.Escape.UrlForm.{IsArg}
use rp_lib_utils.Escape.Args.{Part, part_of, Counted, value_size, part_size, count_loop}
use rp_lib_utils.Escape.ArgsParts.{escaped_value, escaped_part, args_text, part_of-args_text}
use rp_lib_utils.Escape.ArgsText.{packed_value, packed_arg, packed}

part_size-escaped :
    (arg : Arg) (next : Option Bytes)
    → IsArg arg
    → part_size (escaped_part arg next) ≡ length (packed_arg arg)
part_size-escaped arg next (hk, hv) = omega (
  arith,
  unescaped_length-escaped arg.key hk,
  value arg.value hv,
  length-append arg.key (0 ∷ []),
  length-append (arg.key ++ (0 ∷ [])) (packed_value arg.value),
)
  where
    value :
        (v : Option Bytes)
        → All IsByte (text_or_empty v)
        → value_size (escaped_value v) ≡ length (packed_value v)
    value none h = refl
    value (some v) h = omega (arith, unescaped_length-escaped v h, length-append v (0 ∷ []))

count_loop-part :
    (fuel : ℕ) (args : Bytes) (p : Part)
    → part_of args ≡ p
    → count_loop (suc fuel) args ≡ elim p.next [
      | none ↦ record { n = 1; lt = part_size p }
      | some more ↦
          let rest = count_loop fuel more in record { n = 1 + rest.n; lt = part_size p + rest.lt }
    ]
unfolding count_loop
count_loop-part fuel args p e =
    ap
      (λ (q : Part). elim q.next [
        | none ↦ record { n = 1; lt = part_size q }
        | some more ↦
            let rest = count_loop fuel more in record { n = 1 + rest.n; lt = part_size q + rest.lt }
      ])
      e

length-packed :
    (arg : Arg) (args : List Arg)
    → length (packed (arg ∷ args)) ≡ length (packed_arg arg) + length (packed args)
unfolding packed
length-packed arg args = length-append (packed_arg arg) (packed args)

-- The loop that counts finds as much room as the texts take.
pub count_loop-packed :
    (fuel : ℕ) (args : List Arg) (arg : Arg)
    → length args < fuel
    → IsArg arg
    → All IsArg args
    → (count_loop fuel (args_text arg args)).lt ≡ length (packed (arg ∷ args))
count_loop-packed zero args arg f h hs = absurd (omega (arith, f))
count_loop-packed (suc fuel) [] arg f h hs =
    ap (λ (c : Counted). c.lt)
      (count_loop-part fuel (args_text arg []) (escaped_part arg none) (part_of-args_text arg [] h))
    ∙ part_size-escaped arg none h
    ∙ (unfold packed in ap length (sym (append-nil (packed_arg arg))))
count_loop-packed (suc fuel) (next ∷ args) arg f h (hn, hs) =
    ap (λ (c : Counted). c.lt)
      (count_loop-part fuel (args_text arg (next ∷ args))
        (escaped_part arg (some (args_text next args))) (part_of-args_text arg (next ∷ args) h))
    ∙ ap₂ (λ (a b : ℕ). a + b) (part_size-escaped arg (some (args_text next args)) h)
        (count_loop-packed fuel args next (omega (arith, f)) hn hs)
    ∙ sym (length-packed arg (next ∷ args))
