-- ===== src/Escape/ArgsRoundTrip.antt =====
-- `rp_escape_args` and `rp_unescape_args` of src/http/rp-escape.c together.
use mathlib.Core.Path.{subst, ap₂}
use rp_lib_utils.Common.{
  ℕ, ◌+◌, ◌<◌, ◌≡◌, refl, ap, sym, ◌∙◌, arith, true, List, [], ◌∷◌, ◌++◌, Bytes, Option, none, some,
  length, length-append, length-replicate, replicate, All, All-append, IsByte,
}
use rp_lib_utils.Escape.Buffer.{Out, fresh-Wrote}
use rp_lib_utils.Escape.Encode.{until_nul}
use rp_lib_utils.Escape.Escaped.{escaped, IsEscaped, escaped-IsEscaped}
use rp_lib_utils.Escape.Url.{Arg, text_or_empty, escape_args}
use rp_lib_utils.Escape.UrlForm.{value_text, arg_text, more_args, url, IsArg}
use rp_lib_utils.Escape.UrlText.{url_of, escape_url-url}
use rp_lib_utils.Escape.Args.{
  Counted, Filled, Pair, count_loop, fill_loop, counted_of, filled_of, unescape_args,
}
use rp_lib_utils.Escape.ArgsParts.{All-map, args_text, length-more_args}
use rp_lib_utils.Escape.ArgsText.{packed, Fills, fill_loop-Fills}
use rp_lib_utils.Escape.ArgsCount.{count_loop-packed}
use rp_lib_utils.Escape.ArgsReading.{
  read_pairs, read_block, texts_of, IsText, IsText-IsArg, until_nul-append, read_pairs-places,
  overlay_whole,
}

abbrev Positive : ℕ → Type 0
Positive c = 0 < c

escaped-Positive : (text : Bytes) → All IsByte text → All Positive (escaped text)
escaped-Positive text h =
    All-map (escaped text) (λ c (e : IsEscaped c). ground (arith, e)) (escaped-IsEscaped text h)

value_text-Positive :
    (value : Option Bytes) → All IsByte (text_or_empty value) → All Positive (value_text value)
value_text-Positive none h = tt
value_text-Positive (some value) h = (omega arith, escaped-Positive value h)

arg_text-Positive : (arg : Arg) → IsArg arg → All Positive (arg_text arg)
arg_text-Positive arg (hk, hv) =
    All-append Positive (escaped arg.key) (value_text arg.value) (escaped-Positive arg.key hk)
      (value_text-Positive arg.value hv)

more_args-Positive : (args : List Arg) → All IsArg args → All Positive (more_args args)
unfolding more_args
more_args-Positive [] h = tt
more_args-Positive (arg ∷ args) (h, hs) = (
  omega arith,
  All-append Positive (arg_text arg) (more_args args) (arg_text-Positive arg h)
      (more_args-Positive args hs),
)

counted_of-loop : (t : Bytes) → 0 < length t → counted_of t ≡ count_loop (1 + length t) t
unfolding counted_of
counted_of-loop [] h = absurd (omega (arith, h))
counted_of-loop (c ∷ t) h = ap (λ (n : ℕ). count_loop n (c ∷ t)) (omega arith)

filled_of-loop : (t : Bytes) (o : Out) → 0 < length t → filled_of t o ≡ fill_loop (1 + length t) t o
unfolding filled_of
filled_of-loop [] o h = absurd (omega (arith, h))
filled_of-loop (c ∷ t) o h = ap (λ (n : ℕ). fill_loop n (c ∷ t) o) (omega arith)

url-args_text :
    (arg : Arg) (args : List Arg) → url_of none none (some (arg ∷ args)) ≡ args_text arg args
unfolding url
url-args_text arg args = refl

url-nil : url_of none none (some []) ≡ []
unfolding url
url-nil = refl

module _ (fresh : ℕ) (arg : Arg) (args : List Arg) (texts : All IsText (arg ∷ args))
    (some_text : 0 < length (args_text arg args)) where
  valid : All IsArg (arg ∷ args)
  valid = IsText-IsArg (arg ∷ args) texts

  text : Bytes
  text = args_text arg args

  enough : length args < 1 + length text
  unfolding text
  enough = omega (arith, length-more_args args, length-append (arg_text arg) (more_args args))

  area : Bytes
  area = replicate (counted_of text).lt fresh

  length-area : length area ≡ length (packed (arg ∷ args))
  unfolding area text
  length-area =
      length-replicate (counted_of text).lt fresh
      ∙ ap (λ (c : Counted). c.lt) (counted_of-loop text some_text)
      ∙ count_loop-packed (1 + length text) args arg enough valid.0 valid.1

  filled : Filled
  filled = filled_of text (record { buffer = area; r = 0 })

  filled-Fills : Fills area [] (arg ∷ args) filled
  unfolding filled text
  filled-Fills =
      subst (Fills area [] (arg ∷ args))
        (sym (filled_of-loop text (record { buffer = area; r = 0 }) some_text))
        (fill_loop-Fills (1 + length text) args arg enough valid.0 valid.1 (fresh-Wrote area))

  filled_area : filled.out.buffer ≡ packed (arg ∷ args)
  filled_area =
      filled-Fills.1.content
      ∙ overlay_whole area (packed (arg ∷ args)) filled-Fills.1.rest length-area

  unescape_args-args_text :
      read_block (unescape_args true fresh (args_text arg args)) ≡ some (texts_of (arg ∷ args))
  unfolding unescape_args filled area text
  unescape_args-args_text =
      ap₂ (λ (t : Bytes) (ps : List Pair). some (read_pairs t ps)) filled_area filled-Fills.0
      ∙ ap some (read_pairs-places (arg ∷ args) [] texts)

escape_args-url :
    (fresh : ℕ) (args : List Arg)
    → All IsText args
    → escape_args true fresh args
      ≡ (some (url_of none none (some args) ++ (0 ∷ [])), length (url_of none none (some args)))
unfolding escape_args
escape_args-url fresh args h = escape_url-url fresh none none (some args) (IsText-IsArg args h)

abbrev block_of : Option Bytes × ℕ → Bytes
block_of (none, n) = []
block_of (some block, n) = block

-- What `rp_escape_args` returned for pairs of a key and a value, handed to `rp_unescape_args`, gives
-- a block whose pointers lead to the same keys and values in the same order, with an empty value for
-- a missing one. (Keys and values are C strings, the text is not empty, and memory is found.)
pub unescape_args-escape_args :
    (fresh fresh' : ℕ) (args : List Arg) (block : Bytes) (len : ℕ)
    → All IsText args
    → escape_args true fresh args ≡ (some block, len)
    → 0 < len
    → read_block (unescape_args true fresh' (until_nul block)) ≡ some (texts_of args)
unescape_args-escape_args fresh fresh' args block len h e z = from_url args h written size
  where
    written : block ≡ url_of none none (some args) ++ (0 ∷ [])
    written = ap block_of (sym e ∙ escape_args-url fresh args h)

    size : 0 < length (url_of none none (some args))
    size =
        subst (λ n. 0 < n)
          (ap (λ (p : Option Bytes × ℕ). p.1) (sym e ∙ escape_args-url fresh args h)) z

    from_url :
        (args : List Arg)
        → All IsText args
        → block ≡ url_of none none (some args) ++ (0 ∷ [])
        → 0 < length (url_of none none (some args))
        → read_block (unescape_args true fresh' (until_nul block)) ≡ some (texts_of args)
    from_url [] h w z = absurd (omega (arith, z, ap length url-nil))
    from_url (arg ∷ args) h w z =
        let valid = IsText-IsArg (arg ∷ args) h in
        let front : until_nul block ≡ args_text arg args =
          ap until_nul (w ∙ ap (λ t. t ++ (0 ∷ [])) (url-args_text arg args))
          ∙ until_nul-append (args_text arg args) [] (
              All-append Positive (arg_text arg) (more_args args) (arg_text-Positive arg valid.0)
                (more_args-Positive args valid.1)) in
        ap (λ t. read_block (unescape_args true fresh' t)) front
        ∙ unescape_args-args_text fresh' arg args h
            (subst (λ t. 0 < length t) (url-args_text arg args) z)
