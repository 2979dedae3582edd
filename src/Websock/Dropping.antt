-- ===== src/Websock/Dropping.antt =====
-- When `websock_drop` of src/sandbox/websock.c returns.
use mathlib.Core.Path.{subst}
use rp_lib_utils.Common.{
  ℕ, zero, suc, ◌+◌, ◌-◌, ◌<◌, ◌≤◌, ◌≡◌, refl, ap, sym, ◌∙◌, arith, Bool, true, false, not, ◌&&◌,
  Bool-cases, inl, inr, List, [], ◌∷◌, Bytes, Option, none, some, length, length-append, take, drop,
  ltb, ◌==◌, ==_iff, if◌then◌else◌,
}
use rp_lib_utils.Websock.Receive.{
  is_key, unmask, Arrival, fails, arrives, Conn, readv, min, in_data, take_payload, websock_read,
  websock_drop,
}
use rp_lib_utils.Websock.Reading.{pending, found_bytes, readv-Takes}

-- There are bytes in each arrival.
abbrev pub Full : List Arrival → Type 0
Full [] = Unit
Full (fails ∷ input) = ⊥
Full (arrives bytes ∷ input) = (0 < length bytes) × Full input

length-take_pos : (n : ℕ) (bytes : Bytes) → 0 < n → 0 < length bytes → 0 < length (take n bytes)
length-take_pos zero bytes h k = absurd (omega arith)
length-take_pos (suc n) [] h k = absurd (omega arith)
length-take_pos (suc n) (b ∷ bytes) h k = omega arith

length-drop_pos : (n : ℕ) (bytes : Bytes) → n < length bytes → 0 < length (drop n bytes)
length-drop_pos zero bytes h = h
length-drop_pos (suc n) [] h = absurd (omega arith)
length-drop_pos (suc n) (b ∷ bytes) h = length-drop_pos n bytes (omega arith)

-- A read that finds something and leaves the rest as full as it was.
readv-Full :
    (n : ℕ) (input : List Arrival)
    → 0 < n
    → Full input
    → 0 < length (pending input)
    → (b : Bytes) × ((readv n input).0 ≡ some b) × (0 < length b) × Full (readv n input).1
unfolding readv pending
readv-Full n [] h f p = absurd (omega arith)
readv-Full n (fails ∷ input) h f p = absurd f
readv-Full n (arrives bytes ∷ input) h (k, f) p =
    (take n bytes, refl, length-take_pos n bytes h k, rest)
  where
    rest : Full (if ltb n (length bytes) then arrives (drop n bytes) ∷ input else input)
    rest = elim (Bool-cases (ltb n (length bytes))) [
      | inl t ↦ rw t (length-drop_pos n bytes (ground (arith, t)), f)
      | inr t ↦ rw t f
    ]

-- Something was read.
record Found (c : Conn) (bytes : Bytes) (input : List Arrival) (r : Option Bytes × Conn)
    : Type 0 where
  read : (x : Bytes) × (r.0 ≡ some x)
  state : r.1.ws.state ≡ c.ws.state
  rest : r.1.input ≡ input
  left : r.1.ws.length ≡ c.ws.length - length bytes

take_payload-Found :
    (address : ℕ) (c : Conn) (bytes : Bytes) (input : List Arrival)
    → Found c bytes input (take_payload address c (some bytes, input))
unfolding take_payload
take_payload-Found address c bytes input =
    elim (Bool-cases (not (length bytes == 0) && is_key c.ws.mask)) [
      | inl t ↦ rw t (record {
        read = ((unmask address c.ws.mask bytes).bytes, refl);
        state = refl;
        rest = refl;
        left = refl;
      })
      | inr t ↦ rw t (record { read = (bytes, refl); state = refl; rest = refl; left = refl })
    ]

-- The payload has come, or is coming.
abbrev pub IsComing : Conn → Type 0
IsComing c = (in_data c.ws.state ≡ true) × Full c.input × (c.ws.length ≤ length (pending c.input))

record Advances (c : Conn) (r : Option Bytes × Conn) : Type 0 where
  read : (x : Bytes) × (r.0 ≡ some x)
  less : r.1.ws.length < c.ws.length
  coming : IsComing r.1

min_pos : (a b : ℕ) → 0 < a → 0 < b → 0 < min a b
unfolding min
min_pos a b h k = ground arith

websock_read-Advances :
    (address size : ℕ) (c : Conn)
    → 0 < size
    → 0 < c.ws.length
    → IsComing c
    → Advances c (websock_read address size c)
unfolding websock_read
websock_read-Advances address size c s l (d, f, p) =
    let n = min size c.ws.length in
    let (b, e, z, g) =
      readv-Full n c.input (min_pos size c.ws.length s l) f (omega (arith, l, p)) in
    let r = (readv n c.input).1 in
    let found = take_payload-Found address c b r in
    rw d (
      subst (λ (o : Option Bytes). Advances c (take_payload address c (o, r))) (sym e)
        (record {
          read = found.read;
          less = omega (arith, found.left, z, l);
          coming = (
            ap in_data found.state ∙ d,
            subst Full (sym found.rest) g,
            subst
                (λ (i : List Arrival).
                  (take_payload address c (some b, r)).1.ws.length ≤ length (pending i))
                (sym found.rest) (omega (arith, found.left, p, shorter n b r e)),
          );
        }))
  where
    shorter :
        (n : ℕ) (b : Bytes) (r : List Arrival)
        → (readv n c.input).0 ≡ some b
        → length (pending c.input) ≡ length b + length (pending (readv n c.input).1)
    shorter n b r e =
        let takes = readv-Takes n c.input in
        omega (
          arith,
          ap (λ (t : Bytes). length t) takes.1,
          length-append (found_bytes (readv n c.input).0) (pending (readv n c.input).1),
          ap (λ (o : Option Bytes). length (found_bytes o)) e,
        )

drop_step :
    (address fuel : ℕ) (c : Conn) (x : Bytes) (d : Conn)
    → (c.ws.length == 0) ≡ false
    → websock_read address 8000 c ≡ (some x, d)
    → websock_drop address (suc fuel) c ≡ websock_drop address fuel d
unfolding websock_drop
drop_step address fuel c x d h e = rw h (
    ap
      (λ (r : Option Bytes × Conn).
        let rest : Option (Bool × Conn) = elim (r.0) [
          | none ↦ some (false, r.1)
          | some b ↦ websock_drop address fuel (r.1)
        ] in
        rest)
      e)

drop_done :
    (address fuel : ℕ) (c : Conn)
    → (c.ws.length == 0) ≡ true
    → websock_drop address (suc fuel) c ≡ some (true, c)
unfolding websock_drop
drop_done address fuel c h = rw h refl

drop_lem :
    (fuel address : ℕ) (c : Conn)
    → c.ws.length < fuel
    → IsComing c
    → (d : Conn) × (websock_drop address fuel c ≡ some (true, d)) × (d.ws.length ≡ 0)
drop_lem zero address c f h = absurd (omega arith)
drop_lem (suc fuel) address c f h = elim (Bool-cases (c.ws.length == 0)) [
  | inl t ↦ (c, drop_done address fuel c t, (==_iff c.ws.length 0).0 t)
  | inr t ↦
      let a = websock_read-Advances address 8000 c (omega arith) (ground (arith, t)) h in
      let (d, e, z) =
        drop_lem fuel address (websock_read address 8000 c).1 (omega (arith, a.less, f)) a.coming in
      (
        d,
        drop_step address fuel c a.read.0 (websock_read address 8000 c).1 t
              (ap (λ (o : Option Bytes). (o, (websock_read address 8000 c).1)) a.read.1)
            ∙ e,
        z,
      )
]

websock_read-nothing :
    (address size : ℕ) (c : Conn)
    → in_data c.ws.state ≡ true
    → c.input ≡ []
    → Found c [] [] (websock_read address size c)
unfolding websock_read readv
websock_read-nothing address size c d e = rw d (
    subst
      (λ (i : List Arrival).
        Found c [] [] (take_payload address c (readv (min size c.ws.length) i)))
      (sym e) (take_payload-Found address c [] []))

drop_hangs :
    (fuel address : ℕ) (c : Conn)
    → 0 < c.ws.length
    → in_data c.ws.state ≡ true
    → c.input ≡ []
    → websock_drop address fuel c ≡ none
drop_hangs zero address c z d e = unfold websock_drop in refl
drop_hangs (suc fuel) address c z d e =
    let found = websock_read-nothing address 8000 c d e in
    let next = (websock_read address 8000 c).1 in
    drop_step address fuel c found.read.0 next (ground (arith, z))
      (ap (λ (o : Option Bytes). (o, next)) found.read.1)
    ∙ drop_hangs fuel address next (omega (arith, z, found.left)) (ap in_data found.state ∙ d)
        found.rest

-- `websock_drop` returns with nothing left of the payload as soon as the payload comes, in arrivals
-- of any sizes that are not empty, within one round more than the payload has bytes. Where nothing
-- comes, as behind the end of a stream, it does not return in any number of rounds. (There is a
-- payload to drop.)
pub websock_drop-returns :
    (address : ℕ) (c : Conn)
    → 0 < c.ws.length
    → in_data c.ws.state ≡ true
    → Full c.input
    → c.ws.length ≤ length (pending c.input)
    → ((d : Conn) × (websock_drop address (suc c.ws.length) c ≡ some (true, d)) × (d.ws.length ≡ 0))
      × ((fuel : ℕ) → websock_drop address fuel (record c { input = [] }) ≡ none)
websock_drop-returns address c z d f p = (
  drop_lem (suc c.ws.length) address c (omega arith) (d, f, p),
  λ fuel. drop_hangs fuel address (record c { input = [] }) z d refl,
)
