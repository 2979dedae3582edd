-- ===== src/Websock/Control.antt =====
-- The control frames that src/sandbox/websock.c writes and the test that it makes of those it reads.
use rp_lib_utils.Common.{
  ℕ, ◌+◌, ◌/◌, ◌%◌, ◌^◌, ◌<◌, ◌≤◌, ◌≡◌, ◌≢◌, ◌⊎◌, inl, inr, ap, sym, ◌∙◌, arith, Bool, true,
  Bool-cases, ◌&&◌, List, [], ◌∷◌, Bytes, length, ltb, ◌==◌,
}
use rp_lib_utils.Websock.Frame.{
  make_header, filled_blocks, total_size, Sent, invalid, failed, sent, send_internal_v,
  send_internal, first_byte, websock_send, websock_send_v, opcode_close, opcode_ping, opcode_pong,
  code_not_set, websock_close, websock_ping, websock_pong, check_control_header,
}
use rp_lib_utils.Websock.Heads.{make_header_short, first_byte_sum}

control_head :
    (opcode size : ℕ)
    → opcode < 16
    → size ≤ 125
    → (opcode ≡ opcode_close → size ≢ 1)
    → check_control_header (make_header (first_byte true opcode) size) ≡ true
unfolding check_control_header
control_head opcode size o h c =
    rw (make_header_short (first_byte true opcode) size (ground (arith, h)))
      (ground (arith, first_byte_sum true opcode, o, h, c))

head_of : Sent → Bytes
head_of invalid = []
head_of failed = []
head_of (sent []) = []
head_of (sent (head ∷ blocks)) = head

invalid_ne_sent : (iov : List Bytes) → invalid ≢ sent iov
invalid_ne_sent iov e = absurd (cc)

failed_ne_sent : (iov : List Bytes) → failed ≢ sent iov
failed_ne_sent iov e = absurd (cc)

module _ (writev : List Bytes → Bool) (head : Bytes) (blocks : List Bytes) where
  -- What was sent begins with the head for its size.
  head-send_internal_v :
      (first : ℕ) (iovec : List Bytes)
      → send_internal_v writev first iovec ≡ sent (head ∷ blocks)
      → head ≡ make_header first (total_size iovec)
  unfolding send_internal_v head_of
  head-send_internal_v first iovec = elim (Bool-cases (ltb 32 (length iovec + 1))) [
    | inl t ↦ rw t (λ e. absurd (invalid_ne_sent (head ∷ blocks) e))
    | inr t ↦
        elim (Bool-cases (writev (make_header first (total_size iovec) ∷ filled_blocks iovec))) [
          | inl w ↦ rw (t, w) (λ e. sym (ap head_of e))
          | inr w ↦ rw (t, w) (λ e. absurd (failed_ne_sent (head ∷ blocks) e))
        ]
  ]

  send_checked :
      (opcode : ℕ) (payload : Bytes)
      → opcode < 16
      → length payload ≤ 125
      → (opcode ≡ opcode_close → length payload ≢ 1)
      → websock_send writev true opcode payload ≡ sent (head ∷ blocks)
      → check_control_header head ≡ true
  unfolding websock_send send_internal total_size
  send_checked opcode payload o h c e =
      ap check_control_header (head-send_internal_v (first_byte true opcode) (payload ∷ []) e)
      ∙ control_head opcode (length payload + 0) o (omega (arith, h))
          (λ q w. c q (omega (arith, w)))

  ping_checked :
      (payload : Bytes)
      → websock_ping writev payload ≡ sent (head ∷ blocks)
      → check_control_header head ≡ true
  unfolding websock_ping
  ping_checked payload = elim (Bool-cases (ltb 125 (length payload))) [
    | inl t ↦ rw t (λ e. absurd (invalid_ne_sent (head ∷ blocks) e))
    | inr t ↦ rw t (λ e.
        send_checked opcode_ping payload (omega arith) (ground (arith, t))
          (λ q. absurd (omega (arith, q))) e)
  ]

  pong_checked :
      (payload : Bytes)
      → websock_pong writev payload ≡ sent (head ∷ blocks)
      → check_control_header head ≡ true
  unfolding websock_pong
  pong_checked payload = elim (Bool-cases (ltb 125 (length payload))) [
    | inl t ↦ rw t (λ e. absurd (invalid_ne_sent (head ∷ blocks) e))
    | inr t ↦ rw t (λ e.
        send_checked opcode_pong payload (omega arith) (ground (arith, t))
          (λ q. absurd (omega (arith, q))) e)
  ]

  body_checked :
      (code : ℕ) (payload : Bytes)
      → length payload ≤ 123
      → websock_send_v writev true opcode_close
          ((code / 2 ^ 8 % 256 ∷ code % 256 ∷ []) ∷ payload ∷ [])
        ≡ sent (head ∷ blocks)
      → check_control_header head ≡ true
  unfolding websock_send_v total_size
  body_checked code payload h e =
      ap check_control_header (
        head-send_internal_v (first_byte true opcode_close)
          ((code / 2 ^ 8 % 256 ∷ code % 256 ∷ []) ∷ payload ∷ []) e)
      ∙ control_head opcode_close (2 + (length payload + 0)) (omega arith) (omega (arith, h))
          (λ q w. omega (arith, w))

  close_checked :
      (code : ℕ) (payload : Bytes)
      → websock_close writev code payload ≡ sent (head ∷ blocks)
      → check_control_header head ≡ true
  unfolding websock_close
  close_checked code payload = elim (Bool-cases (code == code_not_set && length payload == 0)) [
    | inl t ↦
        rw t (λ e.
          send_checked opcode_close [] (omega arith) (omega arith) (λ q w. omega (arith, w)) e)
    | inr t ↦ elim (Bool-cases (ltb 123 (length payload))) [
      | inl w ↦ rw (t, w) (λ e. absurd (invalid_ne_sent (head ∷ blocks) e))
      | inr w ↦ rw (t, w) (λ e. body_checked code payload (ground (arith, w)) e)
    ]
  ]

  -- The head of each control frame that `websock_close`, `websock_ping` or `websock_pong` sends is
  -- one that the receiving side's test of control frames accepts, whatever code or payload was given.
  check_control_header-sent :
      (code : ℕ) (payload : Bytes)
      → (websock_close writev code payload ≡ sent (head ∷ blocks))
        ⊎ (websock_ping writev payload ≡ sent (head ∷ blocks))
        ⊎ (websock_pong writev payload ≡ sent (head ∷ blocks))
      → check_control_header head ≡ true
  check_control_header-sent code payload (inl e) = close_checked code payload e
  check_control_header-sent code payload (inr (inl e)) = ping_checked payload e
  check_control_header-sent code payload (inr (inr e)) = pong_checked payload e
