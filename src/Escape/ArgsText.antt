-- ===== src/Escape/ArgsText.antt =====
-- What the loops of `rp_unescape_args` in src/http/rp-escape.c count and fill for escaped pairs.
use mathlib.Core.Path.{subst, ap₂}
use rp_lib_utils.Common.{
  ℕ, zero, suc, ◌+◌, ◌-◌, ◌<◌, ◌≡◌, refl, ap, sym, ◌∙◌, arith, List, [], ◌∷◌, ◌++◌, append_assoc,
  append-nil, Bytes, Option, none, some, length, length-append, take_all, All, IsByte,
}
use rp_lib_utils.Escape.Buffer.{
  Out, store, store_all, terminate, Wrote, store-Wrote, store_all-Wrote,
}
use rp_lib_utils.Escape.Decode.{unescape_to}
use rp_lib_utils.Escape.Escaped.{escaped}
use rp_lib_utils.Escape.RoundTrip.{unescapable_length-escaped, unescape_loop-escaped}
use rp_lib_utils.Escape.Url.{Arg, text_or_empty}
use rp_lib_utils.Escape.UrlForm.{IsArg}
use rp_lib_utils.Escape.Args.{
  Part, part_of, Pair, put_text, put_value_text, value_place, Filled, fill_part, one_more,
  fill_loop,
}
use rp_lib_utils.Escape.ArgsParts.{escaped_value, escaped_part, args_text, part_of-args_text}

-- The texts of the pairs, each with its NUL.
abbrev pub packed_value : Option Bytes → Bytes
packed_value none = []
packed_value (some value) = value ++ (0 ∷ [])

abbrev pub packed_arg : Arg → Bytes
packed_arg arg = (arg.key ++ (0 ∷ [])) ++ packed_value arg.value

unfoldable pub packed : List Arg → Bytes
packed [] = []
packed (arg ∷ args) = packed_arg arg ++ packed args

-- The places of the pairs' texts, from a place on.
abbrev pub value_offset : Option Bytes → ℕ → ℕ
value_offset none p = p - 1
value_offset (some value) p = p

unfoldable pub places : ℕ → List Arg → List Pair
places p [] = []
places p (arg ∷ args) =
    record { key = p; value = value_offset arg.value (p + length arg.key + 1) }
    ∷ places (p + length (packed_arg arg)) args

put_text-store :
    (text : Bytes) (o : Out)
    → All IsByte text
    → put_text (escaped text) o ≡ store 0 (store_all text o)
unfolding put_text unescape_to terminate store
put_text-store text o h =
    rw (unescapable_length-escaped text h, take_all (escaped text), unescape_loop-escaped text o h)
      refl

put_text-Wrote :
    {buffer cs : Bytes} {o : Out} (text : Bytes)
    → All IsByte text
    → Wrote buffer cs o
    → Wrote buffer (cs ++ (text ++ (0 ∷ []))) (put_text (escaped text) o)
put_text-Wrote {buffer} {cs} {o} text h w =
    ◌▸◌ (append_assoc cs text (0 ∷ [])) (put_text-store text o h)
      (store-Wrote 0 (store_all-Wrote text w))
  where
    ◌▸◌ : {x y : Bytes} {p q : Out} → x ≡ y → q ≡ p → Wrote buffer x p → Wrote buffer y q
    ◌▸◌ {x} {y} {p} {q} e f v = subst (λ t. Wrote buffer t q) e (subst (Wrote buffer x) (sym f) v)

put_value_text-Wrote :
    {buffer cs : Bytes} {o : Out} (value : Option Bytes)
    → All IsByte (text_or_empty value)
    → Wrote buffer cs o
    → Wrote buffer (cs ++ packed_value value) (put_value_text (escaped_value value) o)
put_value_text-Wrote {buffer} {cs} {o} none h w =
    subst (λ t. Wrote buffer t o) (sym (append-nil cs)) w
put_value_text-Wrote (some value) h w = put_text-Wrote value h w

value_place-offset :
    (value : Option Bytes) (p : ℕ) → value_place (escaped_value value) p ≡ value_offset value p
value_place-offset none p = refl
value_place-offset (some value) p = refl

-- What the loop leaves behind pairs.
abbrev pub Fills : Bytes → Bytes → List Arg → Filled → Type 0
Fills buffer cs args f =
    (f.pairs ≡ places (length cs) args) × Wrote buffer (cs ++ packed args) f.out

fill_part-Fills :
    {buffer cs : Bytes} {o : Out} (arg : Arg) (next : Option Bytes)
    → IsArg arg
    → Wrote buffer cs o
    → Fills buffer cs (arg ∷ []) (fill_part (escaped_part arg next) o)
unfolding fill_part places packed
fill_part-Fills {buffer} {cs} {o} arg next (hk, hv) w = (
  ap₂ (λ k v. record { key = k; value = v } ∷ []) w.counted place,
  subst
      (λ t.
        Wrote buffer t (put_value_text (escaped_value arg.value) (put_text (escaped arg.key) o)))
      whole (put_value_text-Wrote arg.value hv key_written),
)
  where
    key_written : Wrote buffer (cs ++ (arg.key ++ (0 ∷ []))) (put_text (escaped arg.key) o)
    key_written = put_text-Wrote arg.key hk w

    place :
        value_place (escaped_value arg.value) (put_text (escaped arg.key) o).r
        ≡ value_offset arg.value (length cs + length arg.key + 1)
    place =
        value_place-offset arg.value (put_text (escaped arg.key) o).r
        ∙ ap (value_offset arg.value) (
            omega (
              arith,
              key_written.counted,
              length-append cs (arg.key ++ (0 ∷ [])),
              length-append arg.key (0 ∷ []),
            ))

    whole : (cs ++ (arg.key ++ (0 ∷ []))) ++ packed_value arg.value ≡ cs ++ (packed_arg arg ++ [])
    whole =
        append_assoc cs (arg.key ++ (0 ∷ [])) (packed_value arg.value)
        ∙ ap (λ t. cs ++ t) (sym (append-nil (packed_arg arg)))

places-one :
    (p : ℕ) (arg : Arg) (args : List Arg)
    → places p (arg ∷ args) ≡ places p (arg ∷ []) ++ places (p + length (packed_arg arg)) args
unfolding places
places-one p arg args = refl

one_more-Fills :
    {buffer : Bytes} (cs : Bytes) {first rest : Filled} (arg : Arg) (args : List Arg)
    → Fills buffer cs (arg ∷ []) first
    → Fills buffer (cs ++ packed_arg arg) args rest
    → Fills buffer cs (arg ∷ args) (one_more first rest)
unfolding packed
one_more-Fills {buffer} cs {first} {rest} arg args (e, w) (q, v) = (
  ap₂ (λ xs ys. xs ++ ys) e (q ∙ ap (λ n. places n args) (length-append cs (packed_arg arg)))
      ∙ sym (places-one (length cs) arg args),
  subst (λ t. Wrote buffer t rest.out) (append_assoc cs (packed_arg arg) (packed args)) v,
)

first-Wrote :
    {buffer : Bytes} (cs : Bytes) {first : Filled} (arg : Arg)
    → Fills buffer cs (arg ∷ []) first
    → Wrote buffer (cs ++ packed_arg arg) first.out
unfolding packed
first-Wrote {buffer} cs {first} arg (e, w) =
    subst (λ t. Wrote buffer (cs ++ t) first.out) (append-nil (packed_arg arg)) w

fill_loop-part :
    (fuel : ℕ) (args : Bytes) (o : Out) (p : Part)
    → part_of args ≡ p
    → fill_loop (suc fuel) args o ≡ elim p.next [
      | none ↦ fill_part p o
      | some more ↦ let first = fill_part p o in one_more first (fill_loop fuel more first.out)
    ]
unfolding fill_loop
fill_loop-part fuel args o p e =
    ap
      (λ (q : Part). elim q.next [
        | none ↦ fill_part q o
        | some more ↦ let first = fill_part q o in one_more first (fill_loop fuel more first.out)
      ])
      e

-- The loop fills in all pairs, in their order.
pub fill_loop-Fills :
    {buffer : Bytes} (fuel : ℕ) (args : List Arg) {cs : Bytes} {o : Out} (arg : Arg)
    → length args < fuel
    → IsArg arg
    → All IsArg args
    → Wrote buffer cs o
    → Fills buffer cs (arg ∷ args) (fill_loop fuel (args_text arg args) o)
fill_loop-Fills zero args arg f h hs w = absurd (omega (arith, f))
fill_loop-Fills {buffer} (suc fuel) [] {cs} {o} arg f h hs w =
    subst (Fills buffer cs (arg ∷ []))
      (sym (
        fill_loop-part fuel (args_text arg []) o (escaped_part arg none)
          (part_of-args_text arg [] h)))
      (fill_part-Fills arg none h w)
fill_loop-Fills {buffer} (suc fuel) (next ∷ args) {cs} {o} arg f h (hn, hs) w =
    let first = fill_part-Fills arg (some (args_text next args)) h w in
    subst (Fills buffer cs (arg ∷ next ∷ args))
      (sym (
        fill_loop-part fuel (args_text arg (next ∷ args)) o
          (escaped_part arg (some (args_text next args))) (part_of-args_text arg (next ∷ args) h)))
      (one_more-Fills cs arg (next ∷ args) first
        (fill_loop-Fills fuel args next (omega (arith, f)) hn hs (first-Wrote cs arg first)))
