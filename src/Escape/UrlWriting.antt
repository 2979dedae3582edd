-- ===== src/Escape/UrlWriting.antt =====
-- What the steps of the building of a URL in src/http/rp-escape.c write.
use mathlib.Core.Path.{subst}
use rp_lib_utils.Common.{
  ℕ, ◌≤◌, ◌≡◌, inl, inr, refl, ap, sym, ◌∙◌, arith, false, Bool-cases, [], ◌∷◌, ◌++◌, append_assoc,
  append-nil, Bytes, Option, none, some, length, take, All, IsByte, ltb, if◌then◌else◌,
}
use rp_lib_utils.Escape.Buffer.{
  Out, poke, store, terminate, overlay, length-overlay, Wrote, store-Wrote, terminate-Wrote,
  store_all-Wrote,
}
use rp_lib_utils.Escape.Encode.{escape_to}
use rp_lib_utils.Escape.Escaped.{escaped, escape_loop-escaped}
use rp_lib_utils.Escape.Url.{Arg, has, put_question, put_value, text_or_empty}
use rp_lib_utils.Escape.UrlForm.{value_text, arg_text, IsArg}

take-overlay :
    (buffer cs rest : Bytes)
    → length cs ≤ length buffer
    → take (length cs) (overlay buffer (cs ++ rest)) ≡ cs
unfolding overlay
take-overlay buffer [] rest h = refl
take-overlay [] (c ∷ cs) rest h = absurd (omega arith)
take-overlay (b ∷ buffer) (c ∷ cs) rest h =
    ap (λ t. c ∷ t) (take-overlay buffer cs rest (omega arith))

store_full : (c d : ℕ) (o : Out) → ltb o.r (length o.buffer) ≡ false → store c o ≡ store d o
unfolding store poke
store_full c d o h = rw h refl

module _ {buffer cs : Bytes} {o : Out} (w : Wrote buffer cs o) where
  -- The search for a question mark looks at what was written.
  pub put_question-Wrote :
      Wrote buffer (cs ++ ((if has b'?' cs then b'&' else b'?') ∷ [])) (put_question o)
  unfolding put_question
  put_question-Wrote = elim (Bool-cases (ltb o.r (length o.buffer))) [
    | inl t ↦
        let e : take o.r o.buffer ≡ cs =
          ap (λ n. take n o.buffer) w.counted
          ∙ ap (take (length cs)) w.content
          ∙ take-overlay buffer cs w.rest (
              ground
                (arith, t, w.counted, ap length w.content, length-overlay buffer (cs ++ w.rest))) in
        subst
          (λ x.
            Wrote buffer (cs ++ ((if has b'?' cs then b'&' else b'?') ∷ []))
              (store (if has b'?' x then b'&' else b'?') o))
          (sym e) (store-Wrote (if has b'?' cs then b'&' else b'?') w)
    | inr t ↦
        subst (Wrote buffer (cs ++ ((if has b'?' cs then b'&' else b'?') ∷ [])))
          (store_full (if has b'?' cs then b'&' else b'?')
            (if has b'?' (take o.r o.buffer) then b'&' else b'?') o t)
          (store-Wrote (if has b'?' cs then b'&' else b'?') w)
  ]

  escape_to-Wrote :
      (text : Bytes) → All IsByte text → Wrote buffer (cs ++ escaped text) (escape_to text o)
  unfolding escape_to
  escape_to-Wrote text h =
      subst (λ x. Wrote buffer (cs ++ escaped text) (terminate x))
        (sym (escape_loop-escaped text o h)) (terminate-Wrote (store_all-Wrote (escaped text) w))

pub put_value-Wrote :
    {buffer cs : Bytes} {o : Out} (value : Option Bytes)
    → All IsByte (text_or_empty value)
    → Wrote buffer cs o
    → Wrote buffer (cs ++ value_text value) (put_value value o)
unfolding put_value
put_value-Wrote {buffer} {cs} {o} none h w = subst (λ t. Wrote buffer t o) (sym (append-nil cs)) w
put_value-Wrote {buffer} {cs} {o} (some value) h w =
    subst (λ t. Wrote buffer t (escape_to value (store b'=' o)))
      (append_assoc cs (b'=' ∷ []) (escaped value)) (escape_to-Wrote (store-Wrote b'=' w) value h)

pub arg-Wrote :
    {buffer cs : Bytes} {o : Out} (arg : Arg)
    → IsArg arg
    → Wrote buffer cs o
    → Wrote buffer (cs ++ arg_text arg) (put_value arg.value (escape_to arg.key o))
arg-Wrote {buffer} {cs} {o} arg (hk, hv) w =
    subst (λ t. Wrote buffer t (put_value arg.value (escape_to arg.key o)))
      (append_assoc cs (escaped arg.key) (value_text arg.value))
      (put_value-Wrote arg.value hv (escape_to-Wrote w arg.key hk))
