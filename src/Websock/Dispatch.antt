-- ===== src/Websock/Dispatch.antt =====
-- `websock_dispatch` of src/sandbox/websock.c.
use rp_lib_utils.Common.{
  ℕ, zero, suc, ◌+◌, ◌-◌, ◌*◌, ◌%◌, ◌^◌, bit_or, Bool, true, false, not, ◌&&◌, ◌||◌, List, [], ◌++◌,
  Bytes, Option, none, some, length, take, drop, ltb, ◌==◌, if◌then◌else◌,
}
use rp_lib_utils.Websock.Frame.{
  get_fin, get_rsv1, get_rsv2, get_rsv3, get_opcode, get_mask, get_payload_len, opcode_continuation,
  opcode_text, opcode_binary, opcode_close, opcode_ping, opcode_pong, code_not_set, websock_close,
  websock_pong, at, check_control_header, more_head, head_length,
}
use rp_lib_utils.Websock.Receive.{
  Key, no_key, state_init, state_start, state_length, state_data, Websock, Arrival, on_continue,
  on_text, on_binary, on_close, on_ping, on_pong, on_error, Conn, Itf, with_ws, call, send, readv,
  min, websock_read, websock_drop,
}

-- `WEBSOCKET_CODE_PROTOCOL_ERROR` and `WEBSOCKET_CODE_MESSAGE_TOO_LARGE`
abbrev pub code_protocol_error : ℕ
code_protocol_error = 1002

abbrev pub code_message_too_large : ℕ
code_message_too_large = 1009

-- What a pass of `websock_dispatch` comes to: a return with or without a failure, `goto loop`, or a
-- payload that is never dropped.
pub data Pass : Type 0 where
  returns : Bool → Conn → Pass
  again : Conn → Pass
  hangs : Pass

unfoldable pub websock_error : Itf → ℕ → Bytes → Conn → Conn
websock_error itf code payload c =
    let d = send (websock_close itf.writev code payload) c in
    if itf.has_error then call itf (on_error code) d else d

abbrev pub protocol_error : Itf → Conn → Pass
protocol_error itf c = returns true (websock_error itf code_protocol_error [] c)

abbrev pub too_long_error : Itf → Conn → Pass
too_long_error itf c = returns true (websock_error itf code_message_too_large [] c)

abbrev pub with_header : Conn → Option Bytes → List Arrival → Bool × Conn
with_header c none input = (false, record c { input = input })
with_header c (some bytes) input =
    (true, record c { ws = record (c.ws) { header = c.ws.header ++ bytes }; input = input })

-- `ws_read` into the header; the Boolean is false on a failure.
unfoldable pub read_header : Conn → Bool × Conn
read_header c =
    let (bytes, input) = readv (c.ws.szhead - length c.ws.header) c.input in
    if ltb (length c.ws.header) c.ws.szhead then with_header c bytes input else (true, c)

abbrev pub begin : Websock → Websock
begin ws = record ws { header = []; szhead = 2; state = state_start }

-- The two switches that find the size of the head; `none` is a protocol error.
unfoldable pub heading_size : Bytes → ℕ → Option ℕ
heading_size header szhead =
    if get_opcode (at header 0) == opcode_close
    then (if not (check_control_header header)
        then none
        else some
            (szhead + (if get_payload_len (at header 1) == 0 then 0 else 2) + more_head header))
    else if (get_opcode (at header 0) == opcode_ping || get_opcode (at header 0) == opcode_pong)
        && not (check_control_header header)
    then none
    else some (szhead + more_head header)

-- The length of the payload, less the code of a closing frame.
unfoldable pub frame_length : Bytes → ℕ
frame_length header =
    let l = head_length header in
    if get_opcode (at header 0) == opcode_close && not (l == 0)
    then (l + 2 ^ 64 - 2) % 2 ^ 64
    else l

unfoldable pub frame_mask : Bytes → ℕ → Key
frame_mask header szhead = if get_mask (at header 1) == 0 then no_key else record {
  k0 = at header (szhead - 4);
  k1 = at header (szhead - 3);
  k2 = at header (szhead - 2);
  k3 = at header (szhead - 1);
}

-- The code of a closing frame.
unfoldable pub close_code : Websock → ℕ
close_code ws =
    if ws.length == 0
    then code_not_set
    else bit_or (at ws.header (ws.szhead - 2) * 2 ^ 8) (at ws.header (ws.szhead - 1))

-- The client's function was called: `if (!loop) return 0; break;`
abbrev pub called : Bool → Conn → Pass
called true c = again c
called false c = returns true c

abbrev pub dropped : Option (Bool × Conn) → Option Conn
dropped none = none
dropped (some (rc, c)) = some c

-- `websock_pong` of as much of the buffer as the payload is long, whatever was read into it.
abbrev pub answer : Itf → ℕ → Bytes → Option Bytes → Conn → Conn
answer itf count garbage none c = c
answer itf count garbage (some read) c =
    send (websock_pong itf.writev (take count (read ++ drop (length read) garbage))) c

-- The answer to a ping that the client does not take; `garbage` is what the buffer held.
unfoldable pub pong : Itf → ℕ → ℕ → Bytes → Conn → Option Conn
pong itf address fuel garbage c =
    let (bytes, d) = websock_read address 8000 c in
    dropped (websock_drop address fuel (answer itf (min 8000 c.ws.length) garbage bytes d))

abbrev pub restart : Conn → Conn
restart c = with_ws c (record (c.ws) { state = state_init })

abbrev pub restarted : Bool → Option Conn → Pass
restarted loop none = hangs
restarted loop (some c) = called loop (restart c)

-- What the loop is called with: `loop`, where buffers stand and what they hold, and fuel.
pub record Run : Type 0 where
  pub loop : Bool
  pub address : ℕ
  pub garbage : Bytes
  pub fuel : ℕ

-- The switch over the opcodes.
unfoldable pub handle : Itf → Run → Conn → Pass
handle itf run c =
    let opcode = get_opcode (at c.ws.header 0) in
    let fin = get_fin (at c.ws.header 0) in
    if opcode == opcode_continuation
    then called run.loop (call itf (on_continue fin c.ws.length) c)
    else if opcode == opcode_text
    then called run.loop (call itf (on_text fin c.ws.length) c)
    else if opcode == opcode_binary
    then called run.loop (call itf (on_binary fin c.ws.length) c)
    else if opcode == opcode_close
    then returns true (call itf (on_close (close_code c.ws) c.ws.length) c)
    else if opcode == opcode_ping
    then (if itf.has_ping
        then called run.loop (restart (call itf (on_ping c.ws.length) c))
        else restarted run.loop (pong itf run.address run.fuel run.garbage c))
    else if opcode == opcode_pong
    then (if itf.has_pong
        then called run.loop (restart (call itf (on_pong c.ws.length) c))
        else restarted run.loop (dropped (websock_drop run.address run.fuel c)))
    else protocol_error itf c

-- Without an extension that takes the frame.
unfoldable pub check_reserved : Itf → Run → Conn → Pass
check_reserved itf run c =
    if not (get_rsv1 (at c.ws.header 0) == 0)
    then protocol_error itf c
    else if not (get_rsv2 (at c.ws.header 0) == 0)
    then protocol_error itf c
    else if not (get_rsv3 (at c.ws.header 0) == 0)
    then protocol_error itf c
    else handle itf run c

unfoldable pub offer_extension : Itf → Run → Conn → Pass
offer_extension itf run c = elim itf.on_extension [
  | none ↦ check_reserved itf run c
  | some takes ↦ if takes c.ws then returns true c else check_reserved itf run c
]

-- The whole head is there.
unfoldable pub head_known : Itf → Run → Conn → Pass
head_known itf run c =
    let ws = record (c.ws) { length = frame_length c.ws.header } in
    if ltb ws.maxlength ws.length
    then too_long_error itf (with_ws c ws)
    else offer_extension itf run
        (with_ws c (record ws { mask = frame_mask ws.header ws.szhead; state = state_data }))

unfoldable pub from_length : Itf → Run → Conn → Pass
from_length itf run c =
    let (ok, d) = read_header c in
    if not ok
    then returns false d
    else if ltb (length d.ws.header) d.ws.szhead
    then returns true d
    else head_known itf run d

-- The first two bytes are there.
unfoldable pub head_started : Itf → Run → Conn → Pass
head_started itf run c = elim (heading_size c.ws.header c.ws.szhead) [
  | none ↦ protocol_error itf c
  | some n ↦ from_length itf run (with_ws c (record (c.ws) { szhead = n; state = state_length }))
]

unfoldable pub from_start : Itf → Run → Conn → Pass
from_start itf run c =
    let (ok, d) = read_header c in
    if not ok
    then returns false d
    else if ltb (length d.ws.header) d.ws.szhead
    then returns true d
    else head_started itf run d

-- The switch over the states.
unfoldable pub pass : Itf → Run → Conn → Pass
pass itf run c = elim c.ws.state [
  | state_init ↦ from_start itf run (with_ws c (begin c.ws))
  | state_start ↦ from_start itf run c
  | state_length ↦ from_length itf run c
  | state_data ↦ if not (c.ws.length == 0) then returns true c else again (restart c)
]

-- `again` where the passes do not end on the fuel.
unfoldable pub dispatch_loop : ℕ → Itf → Run → Conn → Pass
dispatch_loop zero itf run c = again c
dispatch_loop (suc fuel) itf run c = elim (pass itf run c) [
  | returns ok d ↦ returns ok d
  | again d ↦ dispatch_loop fuel itf run d
  | hangs ↦ hangs
]

unfoldable pub websock_dispatch : Itf → Run → Conn → Pass
websock_dispatch itf run c = dispatch_loop run.fuel itf run c
