-- ===== src/Escape/ArgsReading.antt =====
-- What the pointers that `rp_unescape_args` of src/http/rp-escape.c returns lead to.
use mathlib.Core.Path.{ap₂}
use mathlib.Core.List.{map}
use rp_lib_utils.Common.{
  ℕ, ◌+◌, ◌-◌, ◌<◌, ◌≡◌, refl, ap, sym, ◌∙◌, arith, List, [], ◌∷◌, ◌++◌, append_assoc, append-nil,
  Bytes, Option, none, some, length, length-append, drop, All, IsByte, IsChar,
}
use rp_lib_utils.Escape.Buffer.{overlay}
use rp_lib_utils.Escape.Encode.{until_nul}
use rp_lib_utils.Escape.Url.{Arg, text_or_empty}
use rp_lib_utils.Escape.UrlForm.{IsArg}
use rp_lib_utils.Escape.Args.{Pair, Unescaped, text_at}
use rp_lib_utils.Escape.ArgsParts.{drop-append, All-map}
use rp_lib_utils.Escape.ArgsText.{packed_value, packed_arg, packed, value_offset, places}

-- The C strings that the pointers of a block lead to.
unfoldable pub read_pairs : Bytes → List Pair → List (Bytes × Bytes)
read_pairs area pairs = map (λ (q : Pair). (text_at area q.key, text_at area q.value)) pairs

abbrev pub read_block : Option Unescaped → Option (List (Bytes × Bytes))
read_block none = none
read_block (some u) = some (read_pairs u.area u.pairs)

-- A key and its value, where none is the empty one.
abbrev pub texts_of : List Arg → List (Bytes × Bytes)
texts_of args = map (λ (a : Arg). (a.key, text_or_empty a.value)) args

-- The key and the value are C strings.
abbrev pub IsText : Arg → Type 0
IsText arg = All IsChar arg.key × All IsChar (text_or_empty arg.value)

pub Char-Byte : (text : Bytes) → All IsChar text → All IsByte text
Char-Byte text h = All-map text (λ c (e : IsChar c). e.1) h

pub IsText-IsArg : (args : List Arg) → All IsText args → All IsArg args
IsText-IsArg [] h = tt
IsText-IsArg (arg ∷ args) ((hk, hv), hs) =
    ((Char-Byte arg.key hk, Char-Byte (text_or_empty arg.value) hv), IsText-IsArg args hs)

pub until_nul-append :
    (text rest : Bytes) → All (λ c. 0 < c) text → until_nul (text ++ (0 ∷ rest)) ≡ text
unfolding until_nul
until_nul-append [] rest h = refl
until_nul-append (c ∷ text) rest (hc, h) = ground (arith, hc, until_nul-append text rest h)

-- A string is found behind what stands in front of it.
text_at-append :
    (front text rest : Bytes) (p : ℕ)
    → p ≡ length front
    → All IsChar text
    → text_at (front ++ (text ++ (0 ∷ rest))) p ≡ text
unfolding text_at
text_at-append front text rest p e h =
    ap (λ n. until_nul (drop n (front ++ (text ++ (0 ∷ rest))))) e
    ∙ ap until_nul (drop-append front (text ++ (0 ∷ rest)))
    ∙ until_nul-append text rest (All-map text (λ c (k : IsChar c). k.0) h)

text_at-key :
    (front : Bytes) (arg : Arg) (rest : Bytes)
    → All IsChar arg.key
    → text_at (front ++ (packed_arg arg ++ rest)) (length front) ≡ arg.key
text_at-key front arg rest h =
    ap (λ t. text_at (front ++ t) (length front))
      (append_assoc (arg.key ++ (0 ∷ [])) (packed_value arg.value) rest
        ∙ append_assoc arg.key (0 ∷ []) (packed_value arg.value ++ rest))
    ∙ text_at-append front arg.key (packed_value arg.value ++ rest) (length front) refl h

text_at-value :
    (front key : Bytes) (value : Option Bytes) (rest : Bytes)
    → All IsChar (text_or_empty value)
    → text_at
        (front ++ (((key ++ (0 ∷ [])) ++ packed_value value) ++ rest))
        (value_offset value (length front + length key + 1))
      ≡ text_or_empty value
text_at-value front key none rest h =
    ap (λ t. text_at t (length front + length key + 1 - 1)) whole
    ∙ text_at-append (front ++ key) [] rest (length front + length key + 1 - 1)
        (omega (arith, length-append front key)) tt
  where
    whole : front ++ (((key ++ (0 ∷ [])) ++ []) ++ rest) ≡ (front ++ key) ++ (0 ∷ rest)
    whole =
        ap (λ t. front ++ (t ++ rest)) (append-nil (key ++ (0 ∷ [])))
        ∙ ap (λ t. front ++ t) (append_assoc key (0 ∷ []) rest)
        ∙ sym (append_assoc front key (0 ∷ rest))
text_at-value front key (some value) rest h =
    ap (λ t. text_at t (length front + length key + 1)) whole
    ∙ text_at-append (front ++ (key ++ (0 ∷ []))) value rest (length front + length key + 1)
        (omega (arith, length-append front (key ++ (0 ∷ [])), length-append key (0 ∷ []))) h
  where
    whole :
        front ++ (((key ++ (0 ∷ [])) ++ (value ++ (0 ∷ []))) ++ rest)
        ≡ (front ++ (key ++ (0 ∷ []))) ++ (value ++ (0 ∷ rest))
    whole =
        ap (λ t. front ++ t)
          (append_assoc (key ++ (0 ∷ [])) (value ++ (0 ∷ [])) rest
            ∙ ap (λ t. (key ++ (0 ∷ [])) ++ t) (append_assoc value (0 ∷ []) rest))
        ∙ sym (append_assoc front (key ++ (0 ∷ [])) (value ++ (0 ∷ rest)))

pub read_pairs-places :
    (args : List Arg) (front : Bytes)
    → All IsText args
    → read_pairs (front ++ packed args) (places (length front) args) ≡ texts_of args
unfolding read_pairs packed places
read_pairs-places [] front h = refl
read_pairs-places (arg ∷ args) front ((hk, hv), hs) =
    ap₂ (λ (x : Bytes × Bytes) (xs : List (Bytes × Bytes)). x ∷ xs)
      (ap₂ (λ (k v : Bytes). (k, v)) (text_at-key front arg (packed args) hk)
        (text_at-value front arg.key arg.value (packed args) hv))
      (ap₂ (λ (t : Bytes) (n : ℕ). read_pairs t (places n args))
          (sym (append_assoc front (packed_arg arg) (packed args)))
          (sym (length-append front (packed_arg arg)))
        ∙ read_pairs-places args (front ++ packed_arg arg) hs)

pub overlay_whole :
    (buffer cs rest : Bytes) → length buffer ≡ length cs → overlay buffer (cs ++ rest) ≡ cs
unfolding overlay
overlay_whole [] [] rest h = refl
overlay_whole [] (c ∷ cs) rest h = absurd (omega arith)
overlay_whole (b ∷ buffer) [] rest h = absurd (omega arith)
overlay_whole (b ∷ buffer) (c ∷ cs) rest h =
    ap (λ t. c ∷ t) (overlay_whole buffer cs rest (omega arith))
