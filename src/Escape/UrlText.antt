-- ===== src/Escape/UrlText.antt =====
-- The URL that src/http/rp-escape.c builds.
use mathlib.Core.Path.{subst}
use rp_lib_utils.Common.{
  ℕ, ◌+◌, ◌≡◌, inl, inr, refl, ap, sym, ◌∙◌, arith, Bool, true, false, not, Bool-cases, ◌&&◌, List,
  [], ◌∷◌, ◌++◌, append_assoc, append-nil, Bytes, Option, some, length, length-append,
  length-replicate, replicate, All, ◌==◌, if◌then◌else◌,
}
use rp_lib_utils.Escape.Buffer.{
  Out, store, store_all, overlay, overlay_exact, Wrote, store-Wrote, store_all-Wrote,
  terminate-content, fresh-Wrote,
}
use rp_lib_utils.Escape.Url.{
  Arg, is_empty, lacks_slash, put_base, put_separator, args_loop, escape_url_to_lengths,
  text_or_empty, args_or_none, escape_url_to, escape_url,
}
use rp_lib_utils.Escape.UrlForm.{joined, arg_text, more_args, opening, query, url, IsArg}
use rp_lib_utils.Escape.UrlWriting.{put_question-Wrote, arg-Wrote}

separator_of-more :
    (i : ℕ) (front : Bool) (o : Out) → (i == 0) ≡ false → put_separator i front o ≡ store b'&' o
unfolding put_separator
separator_of-more i front o h = rw h refl

args_loop-Wrote :
    {buffer : Bytes} (args : List Arg) (i : ℕ) (front : Bool) {cs : Bytes} {o : Out}
    → (i == 0) ≡ false
    → All IsArg args
    → Wrote buffer cs o
    → Wrote buffer (cs ++ more_args args) (args_loop i front args o)
unfolding args_loop more_args
args_loop-Wrote {buffer} [] i front {cs} {o} h ha w =
    subst (λ t. Wrote buffer t o) (sym (append-nil cs)) w
args_loop-Wrote {buffer} (arg ∷ args) i front {cs} {o} h (ha, hs) w =
    subst (λ t. Wrote buffer t (args_loop i front (arg ∷ args) o)) whole
      (args_loop-Wrote args (i + 2) front (ground (arith, h)) hs (arg-Wrote arg ha separated))
  where
    separated : Wrote buffer (cs ++ (b'&' ∷ [])) (put_separator i front o)
    separated =
        subst (Wrote buffer (cs ++ (b'&' ∷ []))) (sym (separator_of-more i front o h))
          (store-Wrote b'&' w)

    whole :
        ((cs ++ (b'&' ∷ [])) ++ arg_text arg) ++ more_args args
        ≡ cs ++ ((b'&' ∷ arg_text arg) ++ more_args args)
    whole =
        ap (λ t. t ++ more_args args) (append_assoc cs (b'&' ∷ []) (arg_text arg))
        ∙ append_assoc cs (b'&' ∷ arg_text arg) (more_args args)

opening-Wrote :
    {buffer : Bytes} {o : Out} (cs : Bytes)
    → Wrote buffer cs o
    → Wrote buffer (cs ++ opening cs) (put_separator 0 (not (is_empty cs)) o)
unfolding put_separator
opening-Wrote [] w = w
opening-Wrote (c ∷ cs) w = put_question-Wrote w

query-Wrote :
    {buffer : Bytes} {o : Out} (args : List Arg) (cs : Bytes)
    → All IsArg args
    → Wrote buffer cs o
    → Wrote buffer (cs ++ query cs args) (args_loop 0 (not (is_empty cs)) args o)
unfolding args_loop
query-Wrote {buffer} {o} [] cs h w = subst (λ t. Wrote buffer t o) (sym (append-nil cs)) w
query-Wrote {buffer} {o} (arg ∷ args) cs (h, hs) w =
    subst (λ t. Wrote buffer t (args_loop 0 (not (is_empty cs)) (arg ∷ args) o)) whole
      (args_loop-Wrote args 2 (not (is_empty cs)) refl hs (arg-Wrote arg h (opening-Wrote cs w)))
  where
    whole :
        ((cs ++ opening cs) ++ arg_text arg) ++ more_args args
        ≡ cs ++ (opening cs ++ (arg_text arg ++ more_args args))
    whole =
        append_assoc (cs ++ opening cs) (arg_text arg) (more_args args)
        ∙ append_assoc cs (opening cs) (arg_text arg ++ more_args args)

slash-Wrote :
    {buffer : Bytes} {o : Out} (b : ℕ) (base path : Bytes)
    → Wrote buffer [] o
    → Wrote buffer
        ((b ∷ base) ++ (if lacks_slash (b ∷ base) path then b'/' ∷ [] else []))
        (put_base (b ∷ base) path o)
unfolding put_base
slash-Wrote b base path w = elim (Bool-cases (lacks_slash (b ∷ base) path)) [
  | inl t ↦ rw t (store-Wrote b'/' (store_all-Wrote (b ∷ base) w))
  | inr t ↦ rw (t, append-nil (b ∷ base)) (store_all-Wrote (b ∷ base) w)
]

joined-Wrote :
    {buffer : Bytes} {o : Out} (base path : Bytes)
    → Wrote buffer [] o
    → Wrote buffer (joined base path) (store_all path (put_base base path o))
unfolding put_base
joined-Wrote [] path w = store_all-Wrote path w
joined-Wrote {buffer} {o} (b ∷ base) path w =
    subst (λ t. Wrote buffer t (store_all path (put_base (b ∷ base) path o)))
      (append_assoc (b ∷ base) (if lacks_slash (b ∷ base) path then b'/' ∷ [] else []) path)
      (store_all-Wrote path (slash-Wrote b base path w))

joined_empty : (base path : Bytes) → is_empty (joined base path) ≡ (is_empty base && is_empty path)
joined_empty [] path = refl
joined_empty (b ∷ base) path = refl

lengths_lem :
    (base path : Bytes) (args : List Arg) (buffer : Bytes)
    → All IsArg args
    → escape_url_to_lengths base path args buffer ≡ record {
      buffer = overlay buffer (url base path args ++ (0 ∷ []));
      r = length (url base path args);
    }
unfolding escape_url_to_lengths url
lengths_lem base path args buffer h = terminate-content (
    subst
      (λ e. Wrote buffer (joined base path ++ query (joined base path) args) (
        args_loop 0 (not e) args
          (store_all path (put_base base path (record { buffer = buffer; r = 0 })))))
      (joined_empty base path)
      (query-Wrote args (joined base path) h (joined-Wrote base path (fresh-Wrote buffer))))

-- The URL of what can be NULL.
abbrev pub url_of : Option Bytes → Option Bytes → Option (List Arg) → Bytes
url_of base path args = url (text_or_empty base) (text_or_empty path) (args_or_none args)

-- `rp_escape_url_to` writes the URL and a NUL over the begin of any buffer, as far as there is room,
-- and returns the length of the whole URL: the base, a slash where it is missing, the path, and the
-- escaped pairs behind `?` or, where the front has a `?` already, `&`. (The pairs consist of bytes.)
pub escape_url_to-url :
    (base path : Option Bytes) (args : Option (List Arg)) (buffer : Bytes)
    → All IsArg (args_or_none args)
    → escape_url_to base path args buffer ≡ record {
      buffer = overlay buffer (url_of base path args ++ (0 ∷ []));
      r = length (url_of base path args);
    }
unfolding escape_url_to
escape_url_to-url base path args buffer h =
    lengths_lem (text_or_empty base) (text_or_empty path) (args_or_none args) buffer h

pub escape_url-url :
    (fresh : ℕ) (base path : Option Bytes) (args : Option (List Arg))
    → All IsArg (args_or_none args)
    → escape_url true fresh base path args
      ≡ (some (url_of base path args ++ (0 ∷ [])), length (url_of base path args))
unfolding escape_url
escape_url-url fresh base path args h =
    rw
      (
        escape_url_to-url base path args [] h,
        escape_url_to-url base path args (replicate (length (url_of base path args) + 1) fresh) h,
        overlay_exact (replicate (length (url_of base path args) + 1) fresh)
            (url_of base path args ++ (0 ∷ []))
            (length-replicate (length (url_of base path args) + 1) fresh
              ∙ sym (length-append (url_of base path args) (0 ∷ []))),
      )
      refl
