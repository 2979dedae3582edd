-- ===== src/Websock/Tests.antt =====
-- Runs of the frames of src/sandbox/websock.c, and their theorems at concrete inputs.
use rp_lib_utils.Common.{
  All, ℕ, ◌+◌, ◌≡◌, refl, sym, arith, Bool, true, false, List, [], ◌∷◌, ◌++◌, none, some, Bytes,
  codes, length,
}
use rp_lib_utils.Websock.Frame.{
  make_header, filled_blocks, total_size, sent, send_internal_v, send_internal, first_byte,
  websock_send, websock_send_v, websock_close, websock_ping, more_head, head_length,
  check_control_header,
}
use rp_lib_utils.Websock.Receive.{
  no_key, unmask_bytes, unmask_words, unmask, state_init, state_data, arrives, fails, Call,
  on_close, Conn, Itf, readv, call, take_payload, min, websock_read, websock_drop,
}
use rp_lib_utils.Websock.Dispatch.{
  Pass, returns, again, hangs, Run, read_header, heading_size, frame_length, frame_mask, close_code,
  handle, check_reserved, offer_extension, head_known, from_length, head_started, from_start, pass,
  dispatch_loop, websock_dispatch,
}
use rp_lib_utils.Websock.Reading.{pending, clear, reads, reads-clear}
use rp_lib_utils.Websock.Dropping.{websock_drop-returns}
use rp_lib_utils.Websock.Gathering.{came}
use rp_lib_utils.Websock.Arriving.{feed, initial}
use rp_lib_utils.Websock.Parts.{IsQuiet, passes, feed-whole}
use rp_lib_utils.Websock.Delivery.{event_of, with_payload, feed-make_header}

abbrev accept_all : List Bytes → Bool
accept_all iov = true

ping_run : websock_ping accept_all (codes "hi") ≡ sent ((137 ∷ 2 ∷ []) ∷ codes "hi" ∷ [])
unfolding websock_ping websock_send send_internal send_internal_v first_byte make_header total_size
    filled_blocks
ping_run = refl

-- A closing frame without a text has two bytes of payload, and the empty block is left out.
close_run : websock_close accept_all 1000 [] ≡ sent ((136 ∷ 2 ∷ []) ∷ (3 ∷ 232 ∷ []) ∷ [])
unfolding websock_close websock_send websock_send_v send_internal send_internal_v first_byte
    make_header total_size filled_blocks
close_run = refl

abbrev client : Itf
client = record {
  react = λ event c. c;
  has_ping = false;
  has_pong = false;
  has_error = true;
  on_extension = none;
  writev = accept_all;
}

abbrev once : Run
once = record { loop = false; address = 2; garbage = []; fuel = 4 }

abbrev start : Conn
start = record {
  ws = record {
    state = state_init;
    maxlength = 1000;
    szhead = 0;
    length = 0;
    mask = no_key;
    header = [];
  };
  input = [];
  calls = [];
  frames = [];
}

-- A text of three bytes with a mask, cut in the middle of its head.
abbrev masked_head : Bytes
masked_head = 129 ∷ 131 ∷ 1 ∷ 2 ∷ 3 ∷ 4 ∷ []

feed-whole_example :
    (feed client once ((129 ∷ 131 ∷ 1 ∷ []) ∷ []) (2 ∷ 3 ∷ 4 ∷ []) (initial start)
      ≡ websock_dispatch client once (came masked_head (initial start)))
    × All (IsQuiet start) (passes client once ((129 ∷ 131 ∷ 1 ∷ []) ∷ []) (initial start))
unfolding heading_size more_head
feed-whole_example =
    feed-whole client once ((129 ∷ 131 ∷ 1 ∷ []) ∷ []) (2 ∷ 3 ∷ 4 ∷ []) start refl (omega arith)
      (omega arith)

make_header_hi : make_header (first_byte true 1) 2 ≡ 129 ∷ 2 ∷ []
unfolding make_header first_byte
make_header_hi = refl

feed-make_header_example :
    feed client once ((129 ∷ []) ∷ []) (2 ∷ []) (initial start)
    ≡ returns true
        (call client (event_of 1 1 2) (with_payload (make_header (first_byte true 1) 2) 2 start))
feed-make_header_example =
    feed-make_header true 1 2 client once ((129 ∷ []) ∷ []) (2 ∷ []) start (omega arith)
      (omega arith) (omega arith) refl refl (omega arith) (omega arith) (sym make_header_hi)

-- A payload of four bytes that comes in two parts, between them a failure.
abbrev reading : Conn
reading = record start {
  ws = record (start.ws) {
    state = state_data;
    length = 4;
    mask = record { k0 = 1; k1 = 2; k2 = 3; k3 = 4 };
  };
  input = arrives (97 ∷ 98 ∷ 99 ∷ []) ∷ fails ∷ arrives (100 ∷ 101 ∷ []) ∷ [];
}

reads-clear_example :
    ((reads ((1, 2) ∷ (0, 9) ∷ (3, 9) ∷ (2, 9) ∷ []) reading).0
        ++ clear (reads ((1, 2) ∷ (0, 9) ∷ (3, 9) ∷ (2, 9) ∷ []) reading).1
      ≡ clear reading)
    × ((reads ((1, 2) ∷ (0, 9) ∷ (3, 9) ∷ (2, 9) ∷ []) reading).1.ws.length
          + length (reads ((1, 2) ∷ (0, 9) ∷ (3, 9) ∷ (2, 9) ∷ []) reading).0
        ≡ 4)
reads-clear_example = reads-clear ((1, 2) ∷ (0, 9) ∷ (3, 9) ∷ (2, 9) ∷ []) reading refl

reads_run : (reads ((1, 2) ∷ (0, 9) ∷ (3, 9) ∷ (2, 9) ∷ []) reading).0 ≡ codes "```" ++ (96 ∷ [])
unfolding reads websock_read min readv take_payload unmask unmask_words unmask_bytes
reads_run = refl

abbrev coming : Conn
coming = record reading { input = arrives (97 ∷ 98 ∷ 99 ∷ []) ∷ arrives (100 ∷ 101 ∷ []) ∷ [] }

websock_drop-returns_example :
    ((d : Conn) × (websock_drop 0 5 coming ≡ some (true, d)) × (d.ws.length ≡ 0))
    × ((fuel : ℕ) → websock_drop 0 fuel (record coming { input = [] }) ≡ none)
unfolding pending
websock_drop-returns_example =
    websock_drop-returns 0 coming (omega arith) refl (omega arith) (omega arith)

-- A closing frame with the code 1000 and no text, as `websock_close` sends it: the client is told that
-- there is no code.
abbrev closing : Conn
closing = came (136 ∷ 2 ∷ 3 ∷ 232 ∷ []) (initial start)

-- The code 1000 and one more byte with the mask 1, 2, 3, 4: the code is passed on under the mask.
abbrev masked_closing : Conn
masked_closing = came (136 ∷ 131 ∷ 1 ∷ 2 ∷ 3 ∷ 4 ∷ 2 ∷ 234 ∷ 1 ∷ []) (initial start)

abbrev calls_of : Pass → List Call
calls_of (returns ok c) = c.calls
calls_of (again c) = c.calls
calls_of hangs = []

close_code_run : calls_of (websock_dispatch client once closing) ≡ on_close 1005 0 ∷ []
unfolding websock_dispatch dispatch_loop pass from_start read_header readv head_started heading_size
    check_control_header more_head from_length head_known frame_length head_length frame_mask
    offer_extension check_reserved handle close_code call
close_code_run = refl

masked_close_code_run : calls_of (websock_dispatch client once masked_closing) ≡ on_close 746 1 ∷ []
unfolding websock_dispatch dispatch_loop pass from_start read_header readv head_started heading_size
    check_control_header more_head from_length head_known frame_length head_length frame_mask
    offer_extension check_reserved handle close_code call
masked_close_code_run = refl
