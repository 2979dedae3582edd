-- ===== src/Base64/Encode.antt =====
-- `rp_base64_encode` of src/misc/rp-base64.c. The input is a list of bytes; `result[out++] = c`
-- appends to the output. A negative width is its number of 32 bits, and `--iw`
-- steps as in two's complement; sizes are below 2 ^ 64.
use rp_lib_utils.Common.{
  ℕ, zero, suc, ◌+◌, ◌-◌, ◌*◌, ◌/◌, ◌%◌, ◌^◌, bit_or, Bool, [], ◌∷◌, ◌++◌, Bytes, length, ltb, ◌==◌,
  if◌then◌else◌,
}
use rp_lib_utils.Base64.Result.{Result, ok, nomem, fault, stuck, ◌>>=◌}

-- What `switch (iout & 3)` computes: `u8`, `u16` and the input behind `in`.
pub record Sextet : Type 0 where
  pub u8 : ℕ
  pub u16 : ℕ
  pub input : Bytes

-- `u16 <<= 8` and, if there is input left, `u16 |= data[in++]`.
unfoldable pub shift_in : ℕ → Bytes → (ℕ × Bytes)
shift_in u16 [] = (u16 * 2 ^ 8 % 2 ^ 16, [])
shift_in u16 (d ∷ input) = (bit_or (u16 * 2 ^ 8 % 2 ^ 16) d, input)

-- `data[in++]` with no test of `in`.
unfoldable pub first_byte : Bytes → Result Sextet
first_byte [] = fault
first_byte (d ∷ input) = ok (record { u8 = d / 2 ^ 2 % 256; u16 = d; input = input })

-- `u8` holds the bits of the shifted `u16` from bit `n` on.
unfoldable pub high_bits : ℕ → (ℕ × Bytes) → Sextet
high_bits n p = record { u8 = p.0 / 2 ^ n % 256; u16 = p.0; input = p.1 }

unfoldable pub next_sextet : ℕ → ℕ → Bytes → Result Sextet
next_sextet phase u16 input =
    if phase == 0
    then first_byte input
    else if phase == 1
    then ok (high_bits 4 (shift_in u16 input))
    else if phase == 2
    then ok (high_bits 6 (shift_in u16 input))
    else ok (record { u8 = u16 % 256; u16 = u16; input = input })

-- The character of a value below 64.
unfoldable pub symbol : Bool → ℕ → ℕ
symbol url u8 =
    if ltb u8 52
    then if ltb u8 26 then b'A' + u8 else b'a' + u8 - 26
    else if ltb u8 62
    then b'0' + u8 - 52
    else if u8 == 62
    then if url then b'-' else b'+'
    else if url
    then b'_'
    else b'/'

-- The output so far, and `iw`, the room that is left on the line.
pub record Writer : Type 0 where
  pub out : Bytes
  pub iw : ℕ

-- `result[out++] = c; if (iw && !--iw) { result[out++] = '\n'; iw = width; }`
unfoldable pub put_char : ℕ → ℕ → Writer → Writer
put_char width c w =
    let written = w.out ++ (c ∷ []) in
    if w.iw == 0
    then record { out = written; iw = 0 }
    else if w.iw - 1 == 0
    then record { out = written ++ (b'\n' ∷ []); iw = width }
    else record { out = written; iw = w.iw - 1 }

-- The loop on `iout`; the first argument is `nout - iout`.
unfoldable pub encode_loop : ℕ → Bool → ℕ → ℕ → ℕ → Bytes → Writer → Result Writer
encode_loop zero url width iout u16 input w = ok w
encode_loop (suc k) url width iout u16 input w = next_sextet (iout % 4) u16 input >>= λ s.
    encode_loop k url width (iout + 1) s.u16 s.input (put_char width (symbol url (s.u8 % 64)) w)

-- `while (out < rlen)`, with fuel.
unfoldable pub pad_loop : ℕ → ℕ → ℕ → Writer → Result Writer
pad_loop zero width rlen w = stuck
pad_loop (suc f) width rlen w =
    let rest = pad_loop f width rlen (put_char width b'=' w) in
    if ltb (length w.out) rlen then rest else ok w

-- `nout`, the unformatted length.
unfoldable pub unformatted : ℕ → ℕ
unformatted datalen = 4 * (datalen / 3) + datalen % 3 + (if datalen % 3 == 0 then 0 else 1)

-- `rlen += ((~rlen) + 1) & 3`
unfoldable pub padded : Bool → ℕ → ℕ
padded pad rlen = if pad then rlen + (2 ^ 64 - rlen) % 2 ^ 64 % 4 else rlen

-- `rlen += rlen / width`
unfoldable pub formatted : ℕ → ℕ → ℕ
formatted width rlen = if width == 0 then rlen else rlen + rlen / width

-- The output of the two loops, in a block of `rlen + 1` bytes.
unfoldable pub fill : Bytes → ℕ → Bool → ℕ → ℕ → Result (Bytes × ℕ)
fill input width url nout rlen = do
  w ← encode_loop nout url width 0 0 input (record { out = []; iw = width })
  v ← pad_loop (suc rlen) width rlen w
  ok (v.out, rlen)

-- The text and `*encodedlen`. The first argument says whether `malloc` succeeds.
unfoldable pub encode : Bool → Bytes → ℕ → Bool → Bool → Result (Bytes × ℕ)
encode mem input width pad url =
    let nout = unformatted (length input) in
    let filled = fill input width url nout (formatted width (padded pad nout)) in
    if mem then filled else nomem
