-- ===== src/Websock/Frame.antt =====
-- The frames of src/sandbox/websock.c: what is sent, and what the fields of a head are.
use rp_lib_utils.Common.{
  ℕ, zero, suc, ◌+◌, ◌*◌, ◌/◌, ◌%◌, ◌^◌, bit_or, Bool, true, false, not, ◌&&◌, List, [], ◌∷◌, Bytes,
  length, ltb, ◌==◌, if◌then◌else◌,
}

-- `FRAME_GET_FIN` to `FRAME_GET_PAYLOAD_LEN`
abbrev pub get_fin : ℕ → ℕ
get_fin b = b / 2 ^ 7 % 2

abbrev pub get_rsv1 : ℕ → ℕ
get_rsv1 b = b / 2 ^ 6 % 2

abbrev pub get_rsv2 : ℕ → ℕ
get_rsv2 b = b / 2 ^ 5 % 2

abbrev pub get_rsv3 : ℕ → ℕ
get_rsv3 b = b / 2 ^ 4 % 2

abbrev pub get_opcode : ℕ → ℕ
get_opcode b = b % 16

abbrev pub get_mask : ℕ → ℕ
get_mask b = b / 2 ^ 7 % 2

abbrev pub get_payload_len : ℕ → ℕ
get_payload_len b = b % 2 ^ 7

-- `FRAME_SET_LENGTH` for an index below 8.
abbrev pub set_length : ℕ → ℕ → ℕ
set_length size i = size / 2 ^ (8 * i) % 256

-- `OPCODE_CONTINUATION` to `OPCODE_PONG`
abbrev pub opcode_continuation : ℕ
opcode_continuation = 0

abbrev pub opcode_text : ℕ
opcode_text = 1

abbrev pub opcode_binary : ℕ
opcode_binary = 2

abbrev pub opcode_close : ℕ
opcode_close = 8

abbrev pub opcode_ping : ℕ
opcode_ping = 9

abbrev pub opcode_pong : ℕ
opcode_pong = 10

-- The head of a frame.
unfoldable pub make_header : ℕ → ℕ → Bytes
make_header first size =
    if ltb size 126
    then first ∷ set_length size 0 ∷ []
    else if ltb size 65536
    then first ∷ 126 ∷ set_length size 1 ∷ set_length size 0 ∷ []
    else first
      ∷ 127
      ∷ set_length size 7
      ∷ set_length size 6
      ∷ set_length size 5
      ∷ set_length size 4
      ∷ set_length size 3
      ∷ set_length size 2
      ∷ set_length size 1
      ∷ set_length size 0
      ∷ []

-- The blocks that are not empty, and the size of all.
unfoldable pub filled_blocks : List Bytes → List Bytes
filled_blocks [] = []
filled_blocks ([] ∷ iovec) = filled_blocks iovec
filled_blocks ((c ∷ block) ∷ iovec) = (c ∷ block) ∷ filled_blocks iovec

unfoldable pub total_size : List Bytes → ℕ
total_size [] = 0
total_size (block ∷ iovec) = length block + total_size iovec

-- X_EINVAL, a failure of `writev`, or the blocks that were handed to it.
pub data Sent : Type 0 where
  invalid : Sent
  failed : Sent
  sent : List Bytes → Sent

-- The client's `writev` as the test whether it succeeds.
unfoldable pub send_internal_v : (List Bytes → Bool) → ℕ → List Bytes → Sent
send_internal_v writev first iovec =
    let iov = make_header first (total_size iovec) ∷ filled_blocks iovec in
    if ltb 32 (length iovec + 1) then invalid else if writev iov then sent iov else failed

unfoldable pub send_internal : (List Bytes → Bool) → ℕ → Bytes → Sent
send_internal writev first buffer = send_internal_v writev first (buffer ∷ [])

-- The first byte of a frame without reserved bits; `last` is 0 or 1.
unfoldable pub first_byte : Bool → ℕ → ℕ
first_byte last opcode = bit_or (if last then 2 ^ 7 else 0) (opcode % 16)

unfoldable pub websock_send : (List Bytes → Bool) → Bool → ℕ → Bytes → Sent
websock_send writev last opcode buffer = send_internal writev (first_byte last opcode) buffer

unfoldable pub websock_send_v : (List Bytes → Bool) → Bool → ℕ → List Bytes → Sent
websock_send_v writev last opcode iovec = send_internal_v writev (first_byte last opcode) iovec

-- `WEBSOCKET_CODE_NOT_SET`
abbrev pub code_not_set : ℕ
code_not_set = 1005

unfoldable pub websock_close : (List Bytes → Bool) → ℕ → Bytes → Sent
websock_close writev code payload =
    if code == code_not_set && length payload == 0
    then websock_send writev true opcode_close []
    else if ltb 123 (length payload)
    then invalid
    else websock_send_v writev true opcode_close
        ((code / 2 ^ 8 % 256 ∷ code % 256 ∷ []) ∷ payload ∷ [])

pub websock_close_empty : (List Bytes → Bool) → Sent
websock_close_empty writev = websock_close writev code_not_set []

unfoldable pub websock_ping : (List Bytes → Bool) → Bytes → Sent
websock_ping writev payload =
    if ltb 125 (length payload) then invalid else websock_send writev true opcode_ping payload

unfoldable pub websock_pong : (List Bytes → Bool) → Bytes → Sent
websock_pong writev payload =
    if ltb 125 (length payload) then invalid else websock_send writev true opcode_pong payload

pub websock_text : (List Bytes → Bool) → Bool → Bytes → Sent
websock_text writev last text = websock_send writev last opcode_text text

pub websock_text_v : (List Bytes → Bool) → Bool → List Bytes → Sent
websock_text_v writev last iovec = websock_send_v writev last opcode_text iovec

pub websock_binary : (List Bytes → Bool) → Bool → Bytes → Sent
websock_binary writev last block = websock_send writev last opcode_binary block

pub websock_binary_v : (List Bytes → Bool) → Bool → List Bytes → Sent
websock_binary_v writev last iovec = websock_send_v writev last opcode_binary iovec

pub websock_continue : (List Bytes → Bool) → Bool → Bytes → Sent
websock_continue writev last block = websock_send writev last opcode_continuation block

pub websock_continue_v : (List Bytes → Bool) → Bool → List Bytes → Sent
websock_continue_v writev last iovec = websock_send_v writev last opcode_continuation iovec

-- A byte of a head.
abbrev pub at : Bytes → ℕ → ℕ
at [] i = 0
at (b ∷ header) zero = b
at (b ∷ header) (suc i) = at header i

unfoldable pub check_control_header : Bytes → Bool
check_control_header header =
    if not (get_rsv1 (at header 0) == 0)
    then false
    else if not (get_rsv2 (at header 0) == 0)
    then false
    else if not (get_rsv3 (at header 0) == 0)
    then false
    else if ltb 125 (get_payload_len (at header 1))
    then false
    else if get_opcode (at header 0) == opcode_close
    then not (get_payload_len (at header 1) == 1)
    else true

-- How much of a head there is behind its two first bytes, less what a closing frame has.
unfoldable pub more_head : Bytes → ℕ
more_head header =
    let mask = 4 * get_mask (at header 1) in
    if get_payload_len (at header 1) == 127
    then 6 + (2 + mask)
    else if get_payload_len (at header 1) == 126
    then 2 + mask
    else mask

-- Bytes put together, the highest first.
unfoldable pub joined_bytes : Bytes → ℕ
joined_bytes [] = 0
joined_bytes (b ∷ bytes) = bit_or (b * 2 ^ (8 * length bytes)) (joined_bytes bytes)

-- The length in a head that was read, before the two bytes of a closing frame are taken off.
unfoldable pub head_length : Bytes → ℕ
head_length header =
    if get_payload_len (at header 1) == 127
    then joined_bytes (
        at header 2
        ∷ at header 3
        ∷ at header 4
        ∷ at header 5
        ∷ at header 6
        ∷ at header 7
        ∷ at header 8
        ∷ at header 9
        ∷ [])
    else if get_payload_len (at header 1) == 126
    then joined_bytes (at header 2 ∷ at header 3 ∷ [])
    else get_payload_len (at header 1)
