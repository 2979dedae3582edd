-- ===== src/Websock/Heads.antt =====
-- The heads that src/sandbox/websock.c writes are read back by it.
use mathlib.Core.Path.{subst}
use rp_lib_utils.Common.{
  ℕ, zero, suc, ◌+◌, ◌*◌, ◌%◌, ◌^◌, ◌<◌, ◌≡◌, inl, inr, refl, ap, sym, ◌∙◌, arith, bit_or, Bool,
  true, false, Bool-cases, [], ◌∷◌, Bytes, length, ltb, if◌then◌else◌,
}
use rp_lib_utils.Common.Bits.{bit_or_shift}
use rp_lib_utils.Websock.Frame.{
  get_fin, get_rsv1, get_rsv2, get_rsv3, get_opcode, set_length, make_header, first_byte, at,
  more_head, joined_bytes, head_length,
}

-- The lowest bytes of a number.
abbrev size_bytes : ℕ → ℕ → Bytes
size_bytes size zero = []
size_bytes size (suc n) = set_length size n ∷ size_bytes size n

joined_step :
    (b : ℕ) (bytes : Bytes) (n : ℕ)
    → joined_bytes bytes ≡ n
    → n < 2 ^ (8 * length bytes)
    → joined_bytes (b ∷ bytes) ≡ b * 2 ^ (8 * length bytes) + n
unfolding joined_bytes
joined_step b bytes n e h =
    ap (λ (x : ℕ). bit_or (b * 2 ^ (8 * length bytes)) x) e ∙ bit_or_shift (8 * length bytes) b n h

module _ (size : ℕ) where
  joined_0 : joined_bytes (size_bytes size 0) ≡ 0
  unfolding joined_bytes
  joined_0 = refl

  joined_1 : joined_bytes (size_bytes size 1) ≡ size % 2 ^ 8
  joined_1 =
      joined_step (set_length size 0) (size_bytes size 0) 0 joined_0 (omega arith) ∙ omega arith

  joined_2 : joined_bytes (size_bytes size 2) ≡ size % 2 ^ 16
  joined_2 =
      joined_step (set_length size 1) (size_bytes size 1) (size % 2 ^ 8) joined_1 (omega arith)
      ∙ omega arith

  joined_3 : joined_bytes (size_bytes size 3) ≡ size % 2 ^ 24
  joined_3 =
      joined_step (set_length size 2) (size_bytes size 2) (size % 2 ^ 16) joined_2 (omega arith)
      ∙ omega arith

  joined_4 : joined_bytes (size_bytes size 4) ≡ size % 2 ^ 32
  joined_4 =
      joined_step (set_length size 3) (size_bytes size 3) (size % 2 ^ 24) joined_3 (omega arith)
      ∙ omega arith

  joined_5 : joined_bytes (size_bytes size 5) ≡ size % 2 ^ 40
  joined_5 =
      joined_step (set_length size 4) (size_bytes size 4) (size % 2 ^ 32) joined_4 (omega arith)
      ∙ omega arith

  joined_6 : joined_bytes (size_bytes size 6) ≡ size % 2 ^ 48
  joined_6 =
      joined_step (set_length size 5) (size_bytes size 5) (size % 2 ^ 40) joined_5 (omega arith)
      ∙ omega arith

  joined_7 : joined_bytes (size_bytes size 7) ≡ size % 2 ^ 56
  joined_7 =
      joined_step (set_length size 6) (size_bytes size 6) (size % 2 ^ 48) joined_6 (omega arith)
      ∙ omega arith

  joined_8 : joined_bytes (size_bytes size 8) ≡ size % 2 ^ 64
  joined_8 =
      joined_step (set_length size 7) (size_bytes size 7) (size % 2 ^ 56) joined_7 (omega arith)
      ∙ omega arith

-- A head in one of its three forms tells its size.
abbrev Reads : ℕ → ℕ → Bytes → Type 0
Reads first size header =
    (at header 0 ≡ first) × (2 + more_head header ≡ length header) × (head_length header ≡ size)

pub make_header_short :
    (first size : ℕ) → ltb size 126 ≡ true → make_header first size ≡ first ∷ set_length size 0 ∷ []
unfolding make_header
make_header_short first size h = rw h refl

make_header_middle :
    (first size : ℕ)
    → ltb size 126 ≡ false
    → ltb size 65536 ≡ true
    → make_header first size ≡ first ∷ 126 ∷ size_bytes size 2
unfolding make_header
make_header_middle first size h k = rw (h, k) refl

make_header_long :
    (first size : ℕ)
    → ltb size 126 ≡ false
    → ltb size 65536 ≡ false
    → make_header first size ≡ first ∷ 127 ∷ size_bytes size 8
unfolding make_header
make_header_long first size h k = rw (h, k) refl

short-Reads : (first size : ℕ) → size < 126 → Reads first size (first ∷ set_length size 0 ∷ [])
unfolding more_head head_length
short-Reads first size h = (refl, ground (arith, h), ground (arith, h))

middle-Reads : (first size : ℕ) → size < 65536 → Reads first size (first ∷ 126 ∷ size_bytes size 2)
unfolding more_head head_length
middle-Reads first size h = (refl, refl, joined_2 size ∙ omega (arith, h))

long-Reads : (first size : ℕ) → size < 2 ^ 64 → Reads first size (first ∷ 127 ∷ size_bytes size 8)
unfolding more_head head_length
long-Reads first size h = (refl, refl, joined_8 size ∙ omega (arith, h))

make_header-Reads : (first size : ℕ) → size < 2 ^ 64 → Reads first size (make_header first size)
make_header-Reads first size h = elim (Bool-cases (ltb size 126)) [
  | inl s ↦
      subst (Reads first size) (sym (make_header_short first size s))
        (short-Reads first size (ground (arith, s)))
  | inr s ↦ elim (Bool-cases (ltb size 65536)) [
    | inl m ↦
        subst (Reads first size) (sym (make_header_middle first size s m))
          (middle-Reads first size (ground (arith, m)))
    | inr m ↦
        subst (Reads first size) (sym (make_header_long first size s m)) (long-Reads first size h)
  ]
]

pub first_byte_sum :
    (last : Bool) (opcode : ℕ) → first_byte last opcode ≡ (if last then 2 ^ 7 else 0) + opcode % 16
unfolding first_byte
first_byte_sum true opcode = bit_or_shift 7 1 (opcode % 16) (omega arith)
first_byte_sum false opcode = bit_or_shift 7 0 (opcode % 16) (omega arith)

-- The head of a frame that is sent is read back by the receiving side: it looks for as many bytes as
-- the head has, in each of the three forms, finds the size of the payload, the mark of the last
-- frame and the opcode, and no reserved bit. (The size is below 2 ^ 64, the opcode below 16.)
pub make_header-head_length :
    (last : Bool) (opcode size : ℕ)
    → opcode < 16
    → size < 2 ^ 64
    → (2 + more_head (make_header (first_byte last opcode) size)
        ≡ length (make_header (first_byte last opcode) size))
      × (head_length (make_header (first_byte last opcode) size) ≡ size)
      × (get_fin (at (make_header (first_byte last opcode) size) 0) ≡ (if last then 1 else 0))
      × (get_opcode (at (make_header (first_byte last opcode) size) 0) ≡ opcode)
      × (get_rsv1 (at (make_header (first_byte last opcode) size) 0)
            + get_rsv2 (at (make_header (first_byte last opcode) size) 0)
            + get_rsv3 (at (make_header (first_byte last opcode) size) 0)
          ≡ 0)
make_header-head_length last opcode size o h =
    let (f, l, s) = make_header-Reads (first_byte last opcode) size h in
    let e : at (make_header (first_byte last opcode) size) 0
        ≡ (if last then 2 ^ 7 else 0) + opcode % 16 =
      f ∙ first_byte_sum last opcode in
    (l, s, ground (arith, e, o), ground (arith, e, o), ground (arith, e, o))
