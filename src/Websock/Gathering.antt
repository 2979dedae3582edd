-- ===== src/Websock/Gathering.antt =====
-- How `websock_dispatch` of src/sandbox/websock.c gathers the head of a frame.
use mathlib.Core.Path.{ap₂}
use rp_lib_utils.Common.{
  ℕ, zero, suc, ◌+◌, ◌-◌, ◌<◌, ◌≤◌, ◌≡◌, refl, ap, ◌∙◌, arith, true, Bool-cases, inl, inr, List, [],
  ◌∷◌, ◌++◌, append-nil, Bytes, some, length, length-append, take, drop, ltb, if◌then◌else◌,
}
use rp_lib_utils.Websock.Receive.{
  State, state_start, state_length, Arrival, arrives, Conn, Itf, with_ws, readv,
}
use rp_lib_utils.Websock.Dispatch.{
  Pass, returns, read_header, heading_size, Run, head_known, from_length, head_started, from_start,
}

-- A connection that has read a part of a head, and looks for `size` bytes of it.
abbrev pub waits : State → ℕ → Bytes → Conn → Conn
waits state size header c =
    with_ws c (record (c.ws) { state = state; szhead = size; header = header })

-- The reading of what came, no more than is looked for, and all at once.
abbrev pub came : Bytes → Conn → Conn
came bytes c = record c { input = arrives bytes ∷ [] }

abbrev pub silent : Conn → Conn
silent c = record c { input = [] }

take_all_of : (n : ℕ) (bytes : Bytes) → length bytes ≤ n → take n bytes ≡ bytes
take_all_of zero [] h = refl
take_all_of zero (b ∷ bytes) h = absurd (omega arith)
take_all_of (suc n) [] h = refl
take_all_of (suc n) (b ∷ bytes) h = ap (λ (t : Bytes). b ∷ t) (take_all_of n bytes (omega arith))

readv_whole :
    (n : ℕ) (bytes : Bytes) → length bytes ≤ n → readv n (arrives bytes ∷ []) ≡ (some bytes, [])
unfolding readv
readv_whole n bytes h = rw (take_all_of n bytes h) (ground (arith, h))

readv_part :
    (n : ℕ) (bytes : Bytes)
    → n < length bytes
    → readv n (arrives bytes ∷ []) ≡ (some (take n bytes), arrives (drop n bytes) ∷ [])
unfolding readv
readv_part n bytes h = ground (arith, h)

read_header-some :
    (c : Conn) (bytes : Bytes) (input : List Arrival)
    → length c.ws.header < c.ws.szhead
    → readv (c.ws.szhead - length c.ws.header) c.input ≡ (some bytes, input)
    → read_header c
      ≡ (true, record c { ws = record (c.ws) { header = c.ws.header ++ bytes }; input = input })
unfolding read_header
read_header-some c bytes input h e = rw e (ground (arith, h))

read_header-full : (c : Conn) → c.ws.szhead ≤ length c.ws.header → read_header c ≡ (true, c)
unfolding read_header
read_header-full c h = ground (arith, h)

module _ (itf : Itf) (run : Run) where
  from_length-waits :
      (c d : Conn)
      → read_header c ≡ (true, d)
      → length d.ws.header < d.ws.szhead
      → from_length itf run c ≡ returns true d
  unfolding from_length
  from_length-waits c d e h = rw e (ground (arith, h))

  from_length-knows :
      (c d : Conn)
      → read_header c ≡ (true, d)
      → d.ws.szhead ≤ length d.ws.header
      → from_length itf run c ≡ head_known itf run d
  unfolding from_length
  from_length-knows c d e h = rw e (ground (arith, h))

  from_start-waits :
      (c d : Conn)
      → read_header c ≡ (true, d)
      → length d.ws.header < d.ws.szhead
      → from_start itf run c ≡ returns true d
  unfolding from_start
  from_start-waits c d e h = rw e (ground (arith, h))

  from_start-goes_on :
      (c d : Conn) (n : ℕ)
      → read_header c ≡ (true, d)
      → d.ws.szhead ≤ length d.ws.header
      → heading_size d.ws.header d.ws.szhead ≡ some n
      → from_start itf run c
        ≡ from_length itf run (with_ws d (record (d.ws) { szhead = n; state = state_length }))
  unfolding from_start head_started
  from_start-goes_on c d n e h s = rw e (ground (arith, h, s))

  module _ (n : ℕ) (c : Conn) where
    -- What a chunk comes to, for the header with it.
    abbrev pub gathered : Bytes → Pass
    gathered header =
        if ltb (length header) n
        then returns true (waits state_length n header (silent c))
        else head_known itf run (waits state_length n header (silent c))

    pub from_length-chunk :
        (header bytes : Bytes)
        → length header < n
        → length header + length bytes ≤ n
        → from_length itf run (waits state_length n header (came bytes c))
          ≡ gathered (header ++ bytes)
    from_length-chunk header bytes h k =
        let e =
          read_header-some (waits state_length n header (came bytes c)) bytes [] h
            (readv_whole (n - length header) bytes (omega arith)) in
        elim (Bool-cases (ltb (length (header ++ bytes)) n)) [
          | inl t ↦ rw t (
              from_length-waits (waits state_length n header (came bytes c))
                (waits state_length n (header ++ bytes) (silent c)) e (ground (arith, t)))
          | inr t ↦ rw t (
              from_length-knows (waits state_length n header (came bytes c))
                (waits state_length n (header ++ bytes) (silent c)) e (ground (arith, t)))
        ]

    from_length-silent :
        (header : Bytes)
        → length header ≤ n
        → from_length itf run (waits state_length n header (silent c)) ≡ gathered header
    from_length-silent header h = elim (Bool-cases (ltb (length header) n)) [
      | inl t ↦ rw t (
          from_length-waits (waits state_length n header (silent c))
            (waits state_length n header (silent c))
            (read_header-some (waits state_length n header (silent c)) [] [] (ground (arith, t))
                (unfold readv in refl)
              ∙ ap (λ (x : Bytes). (true, waits state_length n x (silent c))) (append-nil header))
            (ground (arith, t)))
      | inr t ↦ rw t (
          from_length-knows (waits state_length n header (silent c))
            (waits state_length n header (silent c))
            (read_header-full (waits state_length n header (silent c)) (ground (arith, t)))
            (ground (arith, t)))
    ]

    -- The same for a header that may still lack its second byte.
    abbrev pub outcome : Bytes → Pass
    outcome header =
        if ltb (length header) 2
        then returns true (waits state_start 2 header (silent c))
        else gathered header

    -- The size of the head follows from its first two bytes.
    abbrev pub Sized : Bytes → Type 0
    Sized header = 2 ≤ length header → heading_size (take 2 header) 2 ≡ some n

    start_waits :
        (header bytes : Bytes)
        → length header + length bytes < 2
        → from_start itf run (waits state_start 2 header (came bytes c))
          ≡ returns true (waits state_start 2 (header ++ bytes) (silent c))
    start_waits header bytes h =
        from_start-waits (waits state_start 2 header (came bytes c))
          (waits state_start 2 (header ++ bytes) (silent c))
          (read_header-some (waits state_start 2 header (came bytes c)) bytes [] (omega arith)
            (readv_whole (2 - length header) bytes (omega arith)))
          (omega (arith, length-append header bytes))

    start_exact :
        (header bytes : Bytes)
        → length header < 2
        → length header + length bytes ≡ 2
        → 2 ≤ n
        → heading_size (header ++ bytes) 2 ≡ some n
        → from_start itf run (waits state_start 2 header (came bytes c))
          ≡ gathered (header ++ bytes)
    start_exact header bytes h e k s =
        from_start-goes_on (waits state_start 2 header (came bytes c))
          (waits state_start 2 (header ++ bytes) (silent c)) n
          (read_header-some (waits state_start 2 header (came bytes c)) bytes [] h
            (readv_whole (2 - length header) bytes (omega arith)))
          (omega (arith, e, length-append header bytes)) s
        ∙ from_length-silent (header ++ bytes) (omega (arith, e, k, length-append header bytes))

    start_more :
        (header bytes : Bytes) (first rest : Bytes)
        → length header < 2
        → take (2 - length header) bytes ≡ first
        → drop (2 - length header) bytes ≡ rest
        → 2 - length header < length bytes
        → length (header ++ first) ≡ 2
        → 2 + length rest ≤ n
        → 0 < length rest
        → heading_size (header ++ first) 2 ≡ some n
        → from_start itf run (waits state_start 2 header (came bytes c))
          ≡ gathered ((header ++ first) ++ rest)
    start_more header bytes first rest h e f m two k z s =
        from_start-goes_on (waits state_start 2 header (came bytes c))
          (waits state_start 2 (header ++ first) (came rest c)) n
          (read_header-some (waits state_start 2 header (came bytes c)) first (arrives rest ∷ []) h
            (readv_part (2 - length header) bytes m
              ∙ ap₂ (λ (x y : Bytes). (some x, arrives y ∷ [])) e f))
          (omega (arith, two)) s
        ∙ from_length-chunk (header ++ first) rest (omega (arith, two, k, z))
            (omega (arith, two, k))

    pub from_start-chunk :
        (header bytes : Bytes)
        → length header < 2
        → 2 ≤ n
        → length header + length bytes ≤ n
        → Sized (header ++ bytes)
        → from_start itf run (waits state_start 2 header (came bytes c)) ≡ outcome (header ++ bytes)
    from_start-chunk [] [] h k m s = start_waits [] [] (omega arith)
    from_start-chunk [] (b ∷ []) h k m s = start_waits [] (b ∷ []) (omega arith)
    from_start-chunk [] (b ∷ b' ∷ []) h k m s =
        start_exact [] (b ∷ b' ∷ []) (omega arith) (omega arith) k (s (omega arith))
    from_start-chunk [] (b ∷ b' ∷ x ∷ rest) h k m s =
        start_more [] (b ∷ b' ∷ x ∷ rest) (b ∷ b' ∷ []) (x ∷ rest) (omega arith) refl refl
          (omega arith) (omega arith) (omega arith) (omega arith) (s (omega arith))
        ∙ (ground arith)
    from_start-chunk (a ∷ []) [] h k m s = start_waits (a ∷ []) [] (omega arith)
    from_start-chunk (a ∷ []) (b ∷ []) h k m s =
        start_exact (a ∷ []) (b ∷ []) (omega arith) (omega arith) k (s (omega arith))
    from_start-chunk (a ∷ []) (b ∷ x ∷ rest) h k m s =
        start_more (a ∷ []) (b ∷ x ∷ rest) (b ∷ []) (x ∷ rest) (omega arith) refl refl (omega arith)
          (omega arith) (omega arith) (omega arith) (s (omega arith))
        ∙ (ground arith)
    from_start-chunk (a ∷ a' ∷ header) bytes h k m s = absurd (omega arith)
