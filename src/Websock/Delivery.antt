-- ===== src/Websock/Delivery.antt =====
-- Frames that one side of src/sandbox/websock.c sends and the other dispatches.
use rp_lib_utils.Common.{
  ℕ, suc, ◌+◌, ◌-◌, ◌^◌, ◌<◌, ◌≤◌, ◌≡◌, refl, ap, ◌∙◌, arith, Bool, true, false, List, ◌++◌, Bytes,
  none, some, length, ◌==◌, if◌then◌else◌,
}
use rp_lib_utils.Websock.Frame.{
  get_fin, get_rsv1, get_rsv2, get_rsv3, get_opcode, get_mask, opcode_continuation, opcode_text, at,
  make_header, first_byte, more_head, head_length,
}
use rp_lib_utils.Websock.Heads.{make_header-head_length}
use rp_lib_utils.Websock.Receive.{
  no_key, state_length, state_data, Call, on_continue, on_text, on_binary, Conn, Itf, with_ws, call,
}
use rp_lib_utils.Websock.Dispatch.{
  returns, heading_size, frame_length, frame_mask, Run, handle, check_reserved, offer_extension,
  head_known,
}
use rp_lib_utils.Websock.Gathering.{waits, silent}
use rp_lib_utils.Websock.Arriving.{joined_chunks, feed, initial, settled, heading_size-take}
use rp_lib_utils.Websock.Parts.{feed-initial}

-- The call for a frame of data.
abbrev pub event_of : ℕ → ℕ → ℕ → Call
event_of opcode fin size =
    if opcode == opcode_continuation
    then on_continue fin size
    else if opcode == opcode_text
    then on_text fin size
    else on_binary fin size

-- The connection with the payload still to be read.
abbrev pub with_payload : Bytes → ℕ → Conn → Conn
with_payload head size c = with_ws (silent c) (record (c.ws) {
  state = state_data;
  szhead = length head;
  length = size;
  mask = no_key;
  header = head;
})

make_header-get_mask : (first size : ℕ) → get_mask (at (make_header first size) 1) ≡ 0
unfolding make_header
make_header-get_mask first size = ground arith

module _ (last : Bool) (opcode size : ℕ) (few : opcode < 3) (small : size < 2 ^ 64) where
  head : Bytes
  head = make_header (first_byte last opcode) size

  facts :
      (2 + more_head head ≡ length head)
      × (head_length head ≡ size)
      × (get_fin (at head 0) ≡ (if last then 1 else 0))
      × (get_opcode (at head 0) ≡ opcode)
      × (get_rsv1 (at head 0) + get_rsv2 (at head 0) + get_rsv3 (at head 0) ≡ 0)
  unfolding head
  facts = make_header-head_length last opcode size (omega (arith, few)) small

  no_mask : get_mask (at head 1) ≡ 0
  unfolding head
  no_mask = make_header-get_mask (first_byte last opcode) size

  sized : heading_size head 2 ≡ some (length head)
  unfolding heading_size
  sized = ground (arith, facts, few)

  frame_length-size : frame_length head ≡ size
  unfolding frame_length
  frame_length-size = ground (arith, facts, few)

  frame_mask-none : frame_mask head (length head) ≡ no_key
  unfolding frame_mask
  frame_mask-none = rw no_mask refl

  module _ (itf : Itf) (run : Run) (c : Conn) (plain : itf.on_extension ≡ none)
      (room : size ≤ c.ws.maxlength) (one : run.loop ≡ false) where
    handle_data :
        handle itf run (with_payload head size c)
        ≡ returns true
            (call itf (event_of opcode (if last then 1 else 0) size) (with_payload head size c))
    unfolding handle
    handle_data = ground (arith, facts, few, one)

    offered :
        offer_extension itf run (with_payload head size c)
        ≡ returns true
            (call itf (event_of opcode (if last then 1 else 0) size) (with_payload head size c))
    unfolding offer_extension check_reserved
    offered = rw plain (ground (arith, facts, handle_data))

    known_data :
        head_known itf run (waits state_length (length head) head (silent c))
        ≡ returns true
            (call itf (event_of opcode (if last then 1 else 0) size) (with_payload head size c))
    unfolding head_known
    known_data = rw (frame_length-size, frame_mask-none) (ground (arith, room, offered))

-- The head that one side writes for a frame of data, cut into whatever parts, makes the other side
-- call the client's function for the frame's opcode once, with the mark of the last frame and the
-- size of the payload, and wait for a payload of that size without a mask. (The opcode is one of
-- data, the size below 2 ^ 64 and no more than the receiver takes, no extension is there, and the
-- call is not told to loop.)
pub feed-make_header :
    (last : Bool) (opcode size : ℕ) (itf : Itf) (run : Run) (chunks : List Bytes) (part : Bytes)
    (c : Conn)
    → opcode < 3
    → size < 2 ^ 64
    → size ≤ c.ws.maxlength
    → itf.on_extension ≡ none
    → run.loop ≡ false
    → 0 < run.fuel
    → 0 < length part
    → joined_chunks chunks ++ part ≡ make_header (first_byte last opcode) size
    → feed itf run chunks part (initial c)
      ≡ returns true (
          call itf
            (event_of opcode (if last then 1 else 0) size)
            (with_payload (make_header (first_byte last opcode) size) size c))
unfolding head
feed-make_header last opcode size itf run chunks part c few small room plain one f z e =
    let enough : run.fuel ≡ suc (run.fuel - 1) = omega (arith, f) in
    let fits : 2 ≤ length (make_header (first_byte last opcode) size) =
      omega (arith, facts last opcode size few small) in
    feed-initial itf run (run.fuel - 1) enough (make_header (first_byte last opcode) size) fits
      (heading_size-take (make_header (first_byte last opcode) size)
        ∙ sized last opcode size few small)
      chunks part c z e
    ∙ ap (settled (run.fuel - 1) itf run)
        (known_data last opcode size few small itf run c plain room one)
