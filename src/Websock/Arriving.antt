-- ===== src/Websock/Arriving.antt =====
-- Heads of frames that arrive in parts, and what src/sandbox/websock.c makes of them.
use rp_lib_utils.Common.{
  ℕ, suc, ◌+◌, ◌<◌, ◌≤◌, ◌≡◌, refl, ap, ◌∙◌, arith, true, false, Bool-cases, inl, inr, List, [],
  ◌∷◌, ◌++◌, Bytes, length, length-append, take, ltb, if◌then◌else◌,
}
use rp_lib_utils.Websock.Frame.{check_control_header, more_head}
use rp_lib_utils.Websock.Receive.{state_init, state_start, state_length, Conn, Itf, with_ws}
use rp_lib_utils.Websock.Dispatch.{
  Pass, returns, again, hangs, heading_size, Run, pass, dispatch_loop, websock_dispatch,
}
use rp_lib_utils.Websock.Gathering.{
  waits, came, outcome, Sized, from_length-chunk, from_start-chunk,
}

abbrev pub joined_chunks : List Bytes → Bytes
joined_chunks [] = []
joined_chunks (bytes ∷ chunks) = bytes ++ joined_chunks chunks

-- A call of `websock_dispatch` for each chunk that comes, and one for the last.
unfoldable pub feed : Itf → Run → List Bytes → Bytes → Conn → Pass
feed itf run [] last c = websock_dispatch itf run (came last c)
feed itf run (bytes ∷ chunks) last c = elim (websock_dispatch itf run (came bytes c)) [
  | returns ok d ↦ feed itf run chunks last d
  | again d ↦ again d
  | hangs ↦ hangs
]

pub feed-returns :
    (itf : Itf) (run : Run) (bytes : Bytes) (chunks : List Bytes) (last : Bytes) (c d : Conn)
    → websock_dispatch itf run (came bytes c) ≡ returns true d
    → feed itf run (bytes ∷ chunks) last c ≡ feed itf run chunks last d
unfolding feed
feed-returns itf run bytes chunks last c d e =
    ap
      (λ (p : Pass). elim p [
        | returns ok d ↦ feed itf run chunks last d
        | again d ↦ again d
        | hangs ↦ hangs
      ])
      e

abbrev pub initial : Conn → Conn
initial c = with_ws c (record (c.ws) { state = state_init })

-- The passes that follow one.
abbrev pub settled : ℕ → Itf → Run → Pass → Pass
settled fuel itf run (returns ok d) = returns ok d
settled fuel itf run (again d) = dispatch_loop fuel itf run d
settled fuel itf run hangs = hangs

-- Waiting for the rest of a head of `n` bytes.
abbrev pub waiting : ℕ → Bytes → Conn → Conn
waiting n header c =
    if ltb (length header) 2 then waits state_start 2 header c else waits state_length n header c

pub take_two : (header more : Bytes) → 2 ≤ length header → take 2 (header ++ more) ≡ take 2 header
take_two [] more h = absurd (omega arith)
take_two (a ∷ []) more h = absurd (omega arith)
take_two (a ∷ b ∷ header) more h = refl

pub heading_size-take : (header : Bytes) → heading_size (take 2 header) 2 ≡ heading_size header 2
unfolding heading_size check_control_header more_head
heading_size-take [] = refl
heading_size-take (a ∷ []) = refl
heading_size-take (a ∷ b ∷ header) = refl

module _ (itf : Itf) (run : Run) (n : ℕ) where
  pub pass-chunk :
      (c : Conn) (header bytes : Bytes)
      → 2 ≤ n
      → length header < n
      → length header + length bytes ≤ n
      → Sized itf run n c (header ++ bytes)
      → pass itf run (came bytes (waiting n header c)) ≡ outcome itf run n c (header ++ bytes)
  unfolding pass
  pass-chunk c header bytes two h m s = elim (Bool-cases (ltb (length header) 2)) [
    | inl t ↦ rw t (from_start-chunk itf run n c header bytes (ground (arith, t)) two m s)
    | inr t ↦
        let e : ltb (length (header ++ bytes)) 2 ≡ false =
          ground (arith, t, length-append header bytes) in
        rw (t, e) (from_length-chunk itf run n c header bytes h m)
  ]

  pub websock_dispatch-pass :
      (fuel : ℕ) (c : Conn)
      → run.fuel ≡ suc fuel
      → websock_dispatch itf run c ≡ settled fuel itf run (pass itf run c)
  unfolding websock_dispatch
  websock_dispatch-pass fuel c e = ap (λ (f : ℕ). dispatch_loop f itf run c) e ∙ one fuel c
    where
      one :
          (fuel : ℕ) (c : Conn)
          → dispatch_loop (suc fuel) itf run c ≡ settled fuel itf run (pass itf run c)
      one fuel c = unfold dispatch_loop in settled_lem fuel (pass itf run c)
        where
          settled_lem :
              (fuel : ℕ) (p : Pass)
              → (elim p [
                | returns ok d ↦ returns ok d
                | again d ↦ dispatch_loop fuel itf run d
                | hangs ↦ hangs
              ])
                ≡ settled fuel itf run p
          settled_lem fuel (returns ok d) = refl
          settled_lem fuel (again d) = refl
          settled_lem fuel hangs = refl
