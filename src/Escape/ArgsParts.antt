-- ===== src/Escape/ArgsParts.antt =====
-- How the loops of `rp_unescape_args` in src/http/rp-escape.c split a text of escaped pairs.
use rp_lib_utils.Common.{
  ℕ, ◌≤◌, ◌≡◌, refl, ap, ◌∙◌, arith, Bool, true, false, List, [], ◌∷◌, ◌++◌, append_assoc, Bytes,
  Option, none, some, length, length-append, drop, All, IsByte,
}
use rp_lib_utils.Escape.Escaped.{escaped, IsEscaped, escaped-IsEscaped}
use rp_lib_utils.Escape.RoundTrip.{take-append}
use rp_lib_utils.Escape.Url.{Arg, text_or_empty}
use rp_lib_utils.Escape.UrlForm.{value_text, arg_text, more_args, IsArg}
use rp_lib_utils.Escape.Args.{ends_key, ends_value, strcspn, Part, behind, part_from, part_of}

pub drop-append : (xs ys : Bytes) → drop (length xs) (xs ++ ys) ≡ ys
drop-append [] ys = refl
drop-append (x ∷ xs) ys = drop-append xs ys

pub All-map : {P Q : ℕ → Type 0} (xs : Bytes) → ((c : ℕ) → P c → Q c) → All P xs → All Q xs
All-map [] f h = tt
All-map (x ∷ xs) f (hx, h) = (f x hx, All-map xs f h)

-- A text that is at its end or at a character that stops the search.
abbrev pub Stops : (ℕ → Bool) → Bytes → Type 0
Stops stop [] = Unit
Stops stop (c ∷ rest) = stop c ≡ true

strcspn-append :
    (stop : ℕ → Bool) (xs rest : Bytes)
    → All (λ c. stop c ≡ false) xs
    → Stops stop rest
    → strcspn stop (xs ++ rest) ≡ length xs
unfolding strcspn
strcspn-append stop [] [] h s = refl
strcspn-append stop [] (c ∷ rest) h s = rw s refl
strcspn-append stop (x ∷ xs) rest (hx, h) s = rw hx (omega (arith, strcspn-append stop xs rest h s))

-- What is left behind a pair.
abbrev pub tail : Option Bytes → Bytes
tail none = []
tail (some more) = b'&' ∷ more

abbrev pub escaped_value : Option Bytes → Option Bytes
escaped_value none = none
escaped_value (some value) = some (escaped value)

-- An escaped pair, and what is behind it.
abbrev pub escaped_part : Arg → Option Bytes → Part
escaped_part arg next = record {
  key = escaped arg.key;
  value = escaped_value arg.value;
  next = next;
}

escaped_no_key_end : (text : Bytes) → All IsByte text → All (λ c. ends_key c ≡ false) (escaped text)
escaped_no_key_end text h =
    All-map (escaped text) (λ c (e : IsEscaped c). ground (arith, e)) (escaped-IsEscaped text h)

escaped_no_value_end :
    (text : Bytes) → All IsByte text → All (λ c. ends_value c ≡ false) (escaped text)
escaped_no_value_end text h =
    All-map (escaped text) (λ c (e : IsEscaped c). ground (arith, e)) (escaped-IsEscaped text h)

value-Stops : (value next : Option Bytes) → Stops ends_key (value_text value ++ tail next)
value-Stops none none = tt
value-Stops none (some more) = refl
value-Stops (some value) next = refl

tail-Stops : (next : Option Bytes) → Stops ends_value (tail next)
tail-Stops none = tt
tail-Stops (some more) = refl

behind-tail : (next : Option Bytes) → behind (tail next) ≡ next
behind-tail none = refl
behind-tail (some more) = refl

part_from-value :
    (key : Bytes) (value next : Option Bytes)
    → All IsByte (text_or_empty value)
    → part_from key (value_text value ++ tail next)
      ≡ record { key = key; value = escaped_value value; next = next }
unfolding part_from
part_from-value key none none h = refl
part_from-value key none (some more) h = refl
part_from-value key (some value) next h =
    rw
      (
        strcspn-append ends_value (escaped value) (tail next) (escaped_no_value_end value h)
            (tail-Stops next),
        take-append (escaped value) (tail next),
        drop-append (escaped value) (tail next),
        behind-tail next,
      )
      refl

-- The first pair of a text is found as it was escaped.
pub part_of-arg_text :
    (arg : Arg) (next : Option Bytes)
    → IsArg arg
    → part_of (arg_text arg ++ tail next) ≡ escaped_part arg next
unfolding part_of
part_of-arg_text arg next (hk, hv) =
    rw
      (
        append_assoc (escaped arg.key) (value_text arg.value) (tail next),
        strcspn-append ends_key (escaped arg.key) (value_text arg.value ++ tail next)
            (escaped_no_key_end arg.key hk) (value-Stops arg.value next),
        take-append (escaped arg.key) (value_text arg.value ++ tail next),
        drop-append (escaped arg.key) (value_text arg.value ++ tail next),
      )
      (part_from-value (escaped arg.key) arg.value next hv)

-- The text of pairs, the first one without an ampersand in front.
abbrev pub args_text : Arg → List Arg → Bytes
args_text arg args = arg_text arg ++ more_args args

abbrev pub next_text : List Arg → Option Bytes
next_text [] = none
next_text (arg ∷ args) = some (args_text arg args)

pub more_args-tail : (args : List Arg) → more_args args ≡ tail (next_text args)
unfolding more_args
more_args-tail [] = refl
more_args-tail (arg ∷ args) = refl

pub part_of-args_text :
    (arg : Arg) (args : List Arg)
    → IsArg arg
    → part_of (args_text arg args) ≡ escaped_part arg (next_text args)
part_of-args_text arg args h =
    ap (λ t. part_of (arg_text arg ++ t)) (more_args-tail args)
    ∙ part_of-arg_text arg (next_text args) h

pub length-more_args : (args : List Arg) → length args ≤ length (more_args args)
unfolding more_args
length-more_args [] = omega arith
length-more_args (arg ∷ args) =
    omega (arith, length-more_args args, length-append (arg_text arg) (more_args args))
