-- ===== src/Websock/Reading.antt =====
-- How `websock_read` of src/sandbox/websock.c hands out the payload of a frame.
use mathlib.Core.Path.{ap₂}
use rp_lib_utils.Common.{
  ℕ, zero, suc, ◌+◌, ◌-◌, ◌≤◌, ◌≡◌, refl, ap, sym, ◌∙◌, arith, bit_xor, true, false, not, ◌&&◌,
  Bool-cases, inl, inr, List, [], ◌∷◌, ◌++◌, append_assoc, Bytes, Option, none, some, length,
  length-append, take, drop, ltb, ◌==◌,
}
use rp_lib_utils.Common.Bits.{bit_xor-zero}
use rp_lib_utils.Websock.Receive.{
  Key, is_key, rotate, Unmasked, unmask_bytes, unmask, Arrival, fails, arrives, Conn, readv, min,
  in_data, take_payload, websock_read,
}
use rp_lib_utils.Websock.Unmask.{masked, unmask-bytes, unmask_bytes-masked, masked-append}

-- The bytes that are still to come.
unfoldable pub pending : List Arrival → Bytes
pending [] = []
pending (fails ∷ input) = pending input
pending (arrives bytes ∷ input) = bytes ++ pending input

-- What is left of the payload, in the clear.
unfoldable pub clear : Conn → Bytes
clear c = masked c.ws.mask 0 (take c.ws.length (pending c.input))

-- What a read found, nothing on a failure.
abbrev pub found_bytes : Option Bytes → Bytes
found_bytes none = []
found_bytes (some bytes) = bytes

-- Reads into buffers at addresses, of sizes, one after the other.
unfoldable pub reads : List (ℕ × ℕ) → Conn → Bytes × Conn
reads [] c = ([], c)
reads ((address, size) ∷ more) c =
    let (bytes, d) = websock_read address size c in
    let (rest, e) = reads more d in (found_bytes bytes ++ rest, e)

split_take : (n : ℕ) (bytes : Bytes) → bytes ≡ take n bytes ++ drop n bytes
split_take zero bytes = refl
split_take (suc n) [] = refl
split_take (suc n) (b ∷ bytes) = ap (λ (t : Bytes). b ∷ t) (split_take n bytes)

length-take : (n : ℕ) (bytes : Bytes) → length (take n bytes) ≤ n
length-take zero bytes = omega arith
length-take (suc n) [] = omega arith
length-take (suc n) (b ∷ bytes) = omega (arith, length-take n bytes)

take_whole : (n : ℕ) (bytes : Bytes) → length bytes ≤ n → take n bytes ≡ bytes
take_whole zero [] h = refl
take_whole zero (b ∷ bytes) h = absurd (omega arith)
take_whole (suc n) [] h = refl
take_whole (suc n) (b ∷ bytes) h = ap (λ (t : Bytes). b ∷ t) (take_whole n bytes (omega arith))

take_behind :
    (n : ℕ) (xs ys : Bytes) → length xs ≤ n → take n (xs ++ ys) ≡ xs ++ take (n - length xs) ys
take_behind n [] ys h = ap (λ (k : ℕ). take k ys) (omega arith)
take_behind zero (x ∷ xs) ys h = absurd (omega arith)
take_behind (suc n) (x ∷ xs) ys h =
    ap (λ (t : Bytes). x ∷ t)
      (take_behind n xs ys (omega arith) ∙ ap (λ (k : ℕ). xs ++ take k ys) (omega arith))

-- A read takes bytes off what is to come, and no more than it was asked for.
abbrev pub Takes : ℕ → List Arrival → Option Bytes × List Arrival → Type 0
Takes n input (bytes, rest) =
    (length (found_bytes bytes) ≤ n) × (pending input ≡ found_bytes bytes ++ pending rest)

pub readv-Takes : (n : ℕ) (input : List Arrival) → Takes n input (readv n input)
unfolding readv pending
readv-Takes n [] = (omega arith, refl)
readv-Takes n (fails ∷ input) = (omega arith, refl)
readv-Takes n (arrives bytes ∷ input) = elim (Bool-cases (ltb n (length bytes))) [
  | inl t ↦ rw t (
    length-take n bytes,
    ap (λ (x : Bytes). x ++ pending input) (split_take n bytes)
        ∙ append_assoc (take n bytes) (drop n bytes) (pending input),
  )
  | inr t ↦ rw t (
    length-take n bytes,
    ap (λ (x : Bytes). x ++ pending input) (sym (take_whole n bytes (ground (arith, t)))),
  )
]

unmask_bytes-no_key :
    (m : Key) (bytes : Bytes) → is_key m ≡ false → (unmask_bytes m bytes).bytes ≡ bytes
unfolding unmask_bytes
unmask_bytes-no_key m [] h = refl
unmask_bytes-no_key m (b ∷ bytes) h =
    ap₂ (λ (x : ℕ) (t : Bytes). x ∷ t) (ap (bit_xor b) (ground (arith, h)) ∙ bit_xor-zero b)
      (unmask_bytes-no_key (rotate m) bytes (ground (arith, h)))

masked-no_key : (m : Key) (bytes : Bytes) → is_key m ≡ false → masked m 0 bytes ≡ bytes
masked-no_key m bytes h = sym (unmask_bytes-masked m bytes) ∙ unmask_bytes-no_key m bytes h

-- What a read leaves, and what it hands out.
pub record Hands (c : Conn) (r : Option Bytes × Conn) : Type 0 where
  pub same_state : r.1.ws.state ≡ c.ws.state
  pub counted : r.1.ws.length + length (found_bytes r.0) ≡ c.ws.length
  pub kept : clear c ≡ found_bytes r.0 ++ clear r.1

length-unmask_bytes : (m : Key) (bytes : Bytes) → length (unmask_bytes m bytes).bytes ≡ length bytes
unfolding unmask_bytes
length-unmask_bytes m [] = refl
length-unmask_bytes m (b ∷ bytes) = omega (arith, length-unmask_bytes (rotate m) bytes)

module _ (address : ℕ) (c : Conn) (n : ℕ) (fits : n ≤ c.ws.length) where
  module _ (bytes : Bytes) (input : List Arrival)
      (takes : Takes n c.input (some bytes, input)) where
    left : Bytes
    left = take (c.ws.length - length bytes) (pending input)

    taken : take c.ws.length (pending c.input) ≡ bytes ++ left
    unfolding left
    taken =
        ap (take c.ws.length) takes.1
        ∙ take_behind c.ws.length bytes (pending input) (omega (arith, takes.0, fits))

    masked_part : Hands c (
      some (unmask address c.ws.mask bytes).bytes,
      record c {
        ws = record (c.ws) {
          length = c.ws.length - length bytes;
          mask = (unmask address c.ws.mask bytes).mask;
        };
        input = input;
      },
    )
    unfolding clear left
    masked_part =
        let e : (unmask address c.ws.mask bytes) ≡ unmask_bytes c.ws.mask bytes =
          unmask-bytes address c.ws.mask bytes in
        record {
          same_state = refl;
          counted = omega (
            arith,
            takes.0,
            fits,
            ap (λ (u : Unmasked). length u.bytes) e,
            length-unmask_bytes c.ws.mask bytes,
          );
          kept =
              ap (masked c.ws.mask 0) taken
              ∙ masked-append c.ws.mask bytes left
              ∙ ap₂ (λ (x : Bytes) (k : Key). x ++ masked k 0 left)
                  (sym (ap (λ (u : Unmasked). u.bytes) e ∙ unmask_bytes-masked c.ws.mask bytes))
                  (sym (ap (λ (u : Unmasked). u.mask) e));
        }

    plain_part :
        (not (length bytes == 0) && is_key c.ws.mask) ≡ false
        → Hands c (
          some bytes,
          record c { ws = record (c.ws) { length = c.ws.length - length bytes }; input = input },
        )
    unfolding clear left
    plain_part h = record {
      same_state = refl;
      counted = omega (arith, takes.0, fits);
      kept = ap (masked c.ws.mask 0) taken ∙ whole bytes left h;
    }
      where
        whole :
            (bytes left : Bytes)
            → (not (length bytes == 0) && is_key c.ws.mask) ≡ false
            → masked c.ws.mask 0 (bytes ++ left) ≡ bytes ++ masked c.ws.mask 0 left
        whole [] left h = refl
        whole (b ∷ bytes) left h =
            let k : is_key c.ws.mask ≡ false = ground (arith, h) in
            masked-no_key c.ws.mask (b ∷ bytes ++ left) k
            ∙ ap (λ (t : Bytes). b ∷ bytes ++ t) (sym (masked-no_key c.ws.mask left k))

  take_payload-Hands :
      (r : Option Bytes × List Arrival) → Takes n c.input r → Hands c (take_payload address c r)
  unfolding take_payload clear
  take_payload-Hands (none, input) takes = record {
    same_state = refl;
    counted = omega arith;
    kept = ap (λ (t : Bytes). masked c.ws.mask 0 (take c.ws.length t)) takes.1;
  }
  take_payload-Hands (some bytes, input) takes =
      elim (Bool-cases (not (length bytes == 0) && is_key c.ws.mask)) [
        | inl t ↦ rw t (masked_part bytes input takes)
        | inr t ↦ rw t (plain_part bytes input takes t)
      ]

min-le : (a b : ℕ) → min a b ≤ b
unfolding min
min-le a b = ground arith

websock_read-Hands :
    (address size : ℕ) (c : Conn)
    → in_data c.ws.state ≡ true
    → Hands c (websock_read address size c)
unfolding websock_read
websock_read-Hands address size c h = rw h (
    take_payload-Hands address c (min size c.ws.length) (min-le size c.ws.length)
      (readv (min size c.ws.length) c.input) (readv-Takes (min size c.ws.length) c.input))

-- However the payload of a frame arrives, and with whatever buffers, sizes and failures it is read,
-- what the calls of `websock_read` hand out followed by what is left is the payload with the frame's
-- mask over it, byte for byte, and `length` counts what is left.
pub reads-clear :
    (calls : List (ℕ × ℕ)) (c : Conn)
    → in_data c.ws.state ≡ true
    → ((reads calls c).0 ++ clear (reads calls c).1 ≡ clear c)
      × ((reads calls c).1.ws.length + length (reads calls c).0 ≡ c.ws.length)
unfolding reads
reads-clear [] c h = (refl, omega arith)
reads-clear ((address, size) ∷ more) c h =
    let first = websock_read-Hands address size c h in
    let d = (websock_read address size c).1 in
    let got = found_bytes (websock_read address size c).0 in
    let (kept, counted) = reads-clear more d (ap in_data first.same_state ∙ h) in
    (
      append_assoc got (reads more d).0 (clear (reads more d).1)
          ∙ ap (λ (t : Bytes). got ++ t) kept
          ∙ sym first.kept,
      omega (arith, counted, first.counted, length-append got (reads more d).0),
    )
