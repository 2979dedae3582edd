-- ===== src/Websock/Parts.antt =====
-- `websock_dispatch` of src/sandbox/websock.c does not depend on how the head of a frame is cut.
use mathlib.Core.Path.{subst}
use rp_lib_utils.Common.{
  either, All, ltb, ℕ, suc, ◌+◌, ◌-◌, ◌<◌, ◌≤◌, ◌≡◌, refl, ap, sym, ◌∙◌, arith, true, List, [], ◌∷◌,
  ◌++◌, append_assoc, append-nil, Bytes, some, length, length-append, take,
}
use rp_lib_utils.Websock.Frame.{more_head}
use rp_lib_utils.Websock.Receive.{state_start, state_length, Conn, Itf}
use rp_lib_utils.Websock.Dispatch.{
  Pass, returns, again, hangs, heading_size, Run, head_known, pass, websock_dispatch,
}
use rp_lib_utils.Websock.Gathering.{waits, came, silent, outcome, Sized}
use rp_lib_utils.Websock.Arriving.{
  joined_chunks, feed, feed-returns, initial, settled, waiting, take_two, heading_size-take,
  pass-chunk, websock_dispatch-pass,
}

-- What comes behind a pass, if it returns.
abbrev following : (Conn → List Pass) → Pass → List Pass
following next (returns ok d) = next d
following next (again d) = []
following next hangs = []

-- What each call of `websock_dispatch` comes to, as long as they return.
unfoldable pub passes : Itf → Run → List Bytes → Conn → List Pass
passes itf run [] c = []
passes itf run (bytes ∷ chunks) c =
    let p = websock_dispatch itf run (came bytes c) in
    p ∷ following (λ d. passes itf run chunks d) p

-- The call has returned without a failure, and since `c` nothing was called and no frame sent.
abbrev pub IsQuiet : Conn → Pass → Type 0
IsQuiet c p = (d : Conn) × (p ≡ returns true d) × (d.calls ≡ c.calls) × (d.frames ≡ c.frames)

module _ (itf : Itf) (run : Run) (fuel : ℕ) (enough : run.fuel ≡ suc fuel) (head : Bytes)
    (two : 2 ≤ length head) (size : heading_size (take 2 head) 2 ≡ some (length head)) where
  -- Where all of the head is there.
  abbrev known : Conn → Pass
  known c =
      settled fuel itf run (head_known itf run (waits state_length (length head) head (silent c)))

  Sized-prefix :
      (c : Conn) (header more : Bytes)
      → header ++ more ≡ head
      → Sized itf run (length head) c header
  Sized-prefix c header more e h =
      ap (λ (x : Bytes). heading_size x 2) (sym (take_two header more h) ∙ ap (take 2) e) ∙ size

  feed_last :
      (header last : Bytes) (c : Conn)
      → 0 < length last
      → header ++ last ≡ head
      → websock_dispatch itf run (came last (waiting (length head) header c)) ≡ known c
  feed_last header last c z e =
      let total = length-append header last ∙ refl in
      websock_dispatch-pass itf run (length head) fuel (came last (waiting (length head) header c))
        enough
      ∙ ap (settled fuel itf run) (
          pass-chunk itf run (length head) c header last two
            (omega (arith, z, ap length e, length-append header last))
            (omega (arith, ap length e, length-append header last))
            (Sized-prefix c (header ++ last) [] (append-nil (header ++ last) ∙ e))
          ∙ ap (outcome itf run (length head) c) e
          ∙ whole)
    where
      whole :
          outcome itf run (length head) c head
          ≡ head_known itf run (waits state_length (length head) head (silent c))
      whole = ground (arith, two)

  feed_chunk :
      (header bytes more : Bytes) (c : Conn)
      → 0 < length more
      → header ++ (bytes ++ more) ≡ head
      → websock_dispatch itf run (came bytes (waiting (length head) header c))
        ≡ returns true (waiting (length head) (header ++ bytes) (silent c))
  feed_chunk header bytes more c z e =
      websock_dispatch-pass itf run (length head) fuel (came bytes (waiting (length head) header c))
        enough
      ∙ ap (settled fuel itf run) (
          pass-chunk itf run (length head) c header bytes two (omega (arith, z, shorter))
            (omega (arith, z, shorter))
            (Sized-prefix c (header ++ bytes) more (append_assoc header bytes more ∙ e))
          ∙ part)
    where
      shorter : length header + (length bytes + length more) ≡ length head
      shorter =
          omega (arith, ap length e, length-append header (bytes ++ more), length-append bytes more)

      part :
          outcome itf run (length head) c (header ++ bytes)
          ≡ returns true (waiting (length head) (header ++ bytes) (silent c))
      part = ground (arith, z, shorter, length-append header bytes)

  feed-known :
      (chunks : List Bytes) (header last : Bytes) (c : Conn)
      → 0 < length last
      → header ++ (joined_chunks chunks ++ last) ≡ head
      → feed itf run chunks last (waiting (length head) header c) ≡ known c
  unfolding feed
  feed-known [] header last c z e = feed_last header last c z e
  feed-known (bytes ∷ chunks) header last c z e =
      feed-returns itf run bytes chunks last (waiting (length head) header c)
        (waiting (length head) (header ++ bytes) (silent c))
        (feed_chunk header bytes (joined_chunks chunks ++ last) c
          (omega (arith, z, length-append (joined_chunks chunks) last))
          (ap (λ (t : Bytes). header ++ t) (sym (append_assoc bytes (joined_chunks chunks) last))
            ∙ e))
      ∙ feed-known chunks (header ++ bytes) last (silent c) z (
          append_assoc header bytes (joined_chunks chunks ++ last)
          ∙ ap (λ (t : Bytes). header ++ t) (sym (append_assoc bytes (joined_chunks chunks) last))
          ∙ e)

  -- Behind each part but the last, nothing has been called or sent.
  parts-AllQuiet :
      (chunks : List Bytes) (header last : Bytes) (c d : Conn)
      → 0 < length last
      → header ++ (joined_chunks chunks ++ last) ≡ head
      → (c.calls ≡ d.calls) × (c.frames ≡ d.frames)
      → All (IsQuiet d) (passes itf run chunks (waiting (length head) header c))
  unfolding passes
  parts-AllQuiet [] header last c d z e q = tt
  parts-AllQuiet (bytes ∷ chunks) header last c d z e q =
      let next = waiting (length head) (header ++ bytes) (silent c) in
      let returned =
        feed_chunk header bytes (joined_chunks chunks ++ last) c
          (omega (arith, z, length-append (joined_chunks chunks) last))
          (ap (λ (t : Bytes). header ++ t) (sym (append_assoc bytes (joined_chunks chunks) last))
            ∙ e) in
      let quiet =
        either (λ (k : Conn). (k.calls ≡ d.calls) × (k.frames ≡ d.frames))
          (ltb (length (header ++ bytes)) 2) (waits state_start 2 (header ++ bytes) (silent c))
          (waits state_length (length head) (header ++ bytes) (silent c)) q q in
      (
        (next, returned, quiet.0, quiet.1),
        subst (λ (p : Pass). All (IsQuiet d) (following (λ d. passes itf run chunks d) p))
            (sym returned)
            (parts-AllQuiet chunks (header ++ bytes) last (silent c) d z
              (append_assoc header bytes (joined_chunks chunks ++ last)
                ∙ ap (λ (t : Bytes). header ++ t)
                    (sym (append_assoc bytes (joined_chunks chunks) last))
                ∙ e)
              q),
      )

  dispatch-initial :
      (bytes : Bytes) (c : Conn)
      → websock_dispatch itf run (came bytes (initial c))
        ≡ websock_dispatch itf run (came bytes (waiting (length head) [] c))
  unfolding pass
  dispatch-initial bytes c =
      websock_dispatch-pass itf run (length head) fuel (came bytes (initial c)) enough
      ∙ sym (
          websock_dispatch-pass itf run (length head) fuel (came bytes (waiting (length head) [] c))
            enough)

  pub feed-initial :
      (chunks : List Bytes) (last : Bytes) (c : Conn)
      → 0 < length last
      → joined_chunks chunks ++ last ≡ head
      → feed itf run chunks last (initial c) ≡ known c
  unfolding feed
  feed-initial [] last c z e = dispatch-initial last c ∙ feed-known [] [] last c z e
  feed-initial (bytes ∷ chunks) last c z e =
      ap
        (λ (p : Pass). elim p [
          | returns ok d ↦ feed itf run chunks last d
          | again d ↦ again d
          | hangs ↦ hangs
        ])
        (dispatch-initial bytes c)
      ∙ feed-known (bytes ∷ chunks) [] last c z e

  parts-initial :
      (chunks : List Bytes) (last : Bytes) (c : Conn)
      → 0 < length last
      → joined_chunks chunks ++ last ≡ head
      → All (IsQuiet c) (passes itf run chunks (initial c))
  unfolding passes
  parts-initial [] last c z e = tt
  parts-initial (bytes ∷ chunks) last c z e =
      subst (λ (p : Pass). All (IsQuiet c) (p ∷ following (λ d. passes itf run chunks d) p))
        (sym (dispatch-initial bytes c))
        (parts-AllQuiet (bytes ∷ chunks) [] last c c z e (refl, refl))

heading_size-length : (head : Bytes) (n : ℕ) → heading_size head 2 ≡ some n → 2 ≤ n
unfolding heading_size more_head
heading_size-length head n e = ground (arith, e)

-- However the head of a frame is cut into the parts that arrive, `websock_dispatch`, called for each
-- of them, comes to what it comes to for the head as a whole: to the same state of the connection
-- and the same calls and frames. For each part but the last it returns without a failure, has called
-- nothing and sent nothing. (The head has the size that its first bytes tell, the last part is not
-- empty, and at least one pass is made.)
pub feed-whole :
    (itf : Itf) (run : Run) (chunks : List Bytes) (last : Bytes) (c : Conn)
    → heading_size (joined_chunks chunks ++ last) 2 ≡ some (length (joined_chunks chunks ++ last))
    → 0 < length last
    → 0 < run.fuel
    → (feed itf run chunks last (initial c)
        ≡ websock_dispatch itf run (came (joined_chunks chunks ++ last) (initial c)))
      × All (IsQuiet c) (passes itf run chunks (initial c))
feed-whole itf run chunks last c size z f =
    let head = joined_chunks chunks ++ last in
    let two = heading_size-length head (length head) size in
    let sized = heading_size-take head ∙ size in
    let enough : run.fuel ≡ suc (run.fuel - 1) = omega (arith, f) in
    (
      feed-initial itf run (run.fuel - 1) enough head two sized chunks last c z refl
          ∙ sym (
              feed-initial itf run (run.fuel - 1) enough head two sized [] head c
                (omega (arith, two)) refl
              ∙ refl)
          ∙ (unfold feed in refl),
      parts-initial itf run (run.fuel - 1) enough head two sized chunks last c z refl,
    )
