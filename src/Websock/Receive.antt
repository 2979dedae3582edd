-- ===== src/Websock/Receive.antt =====
-- How src/sandbox/websock.c receives: reading, the mask of payloads, and `websock_dispatch`.
use rp_lib_utils.Common.{
  ℕ, zero, suc, ◌+◌, ◌-◌, ◌%◌, bit_xor, Bool, true, false, not, ◌&&◌, ◌||◌, List, [], ◌∷◌, ◌++◌,
  Bytes, Option, none, some, length, take, drop, get_or, codes, ltb, ◌==◌, if◌then◌else◌,
}
use rp_lib_utils.Websock.Frame.{Sent}

-- The bytes of the mask.
pub record Key : Type 0 where
  pub k0 : ℕ
  pub k1 : ℕ
  pub k2 : ℕ
  pub k3 : ℕ

abbrev pub no_key : Key
no_key = record { k0 = 0; k1 = 0; k2 = 0; k3 = 0 }

-- `ws->mask != 0`
abbrev pub is_key : Key → Bool
is_key m = not (m.k0 == 0 && m.k1 == 0 && m.k2 == 0 && m.k3 == 0)

abbrev pub rotate : Key → Key
rotate m = record { k0 = m.k1; k1 = m.k2; k2 = m.k3; k3 = m.k0 }

-- `umask` and the buffer.
pub record Unmasked : Type 0 where
  pub mask : Key
  pub bytes : Bytes

abbrev pub front : Bytes → Unmasked → Unmasked
front bytes u = record { mask = u.mask; bytes = bytes ++ u.bytes }

-- The loop over single bytes.
unfoldable pub unmask_bytes : Key → Bytes → Unmasked
unmask_bytes m [] = record { mask = m; bytes = [] }
unmask_bytes m (b ∷ bytes) = front (bit_xor b m.k0 ∷ []) (unmask_bytes (rotate m) bytes)

-- The loop over words of four bytes, and what is left.
unfoldable pub unmask_words : Key → Bytes → Unmasked
unmask_words m (a ∷ b ∷ c ∷ d ∷ bytes) =
    front (bit_xor a m.k0 ∷ bit_xor b m.k1 ∷ bit_xor c m.k2 ∷ bit_xor d m.k3 ∷ [])
      (unmask_words m bytes)
unmask_words m (a ∷ b ∷ c ∷ []) = unmask_bytes m (a ∷ b ∷ c ∷ [])
unmask_words m (a ∷ b ∷ []) = unmask_bytes m (a ∷ b ∷ [])
unmask_words m (a ∷ []) = unmask_bytes m (a ∷ [])
unmask_words m [] = unmask_bytes m []

-- A buffer at an address: single bytes up to the next multiple of 4.
unfoldable pub unmask : ℕ → Key → Bytes → Unmasked
unmask address m [] = unmask_words m []
unmask address m (b ∷ bytes) =
    let single = front (bit_xor b m.k0 ∷ []) (unmask (address + 1) (rotate m) bytes) in
    let words = unmask_words m (b ∷ bytes) in if not (address % 4 == 0) then single else words

-- `STATE_INIT` to `STATE_DATA`
pub data State : Type 0 where
  state_init state_start state_length state_data : State

-- The header is what was read of it, `lenhead` its length.
pub record Websock : Type 0 where
  pub state : State
  pub maxlength : ℕ
  pub szhead : ℕ
  pub length : ℕ
  pub mask : Key
  pub header : Bytes

-- What the client's `readv` meets.
pub data Arrival : Type 0 where
  fails : Arrival
  arrives : Bytes → Arrival

-- The calls of the client's functions.
pub data Call : Type 0 where
  on_continue on_text on_binary : ℕ → ℕ → Call
  on_close : ℕ → ℕ → Call
  on_ping on_pong : ℕ → Call
  on_error : ℕ → Call

-- A connection: what is still to be read, the calls made, the frames sent.
pub record Conn : Type 0 where
  pub ws : Websock
  pub input : List Arrival
  pub calls : List Call
  pub frames : List Sent

-- At most `size` bytes, none if there are none yet; `none` is a failure.
unfoldable pub readv : ℕ → List Arrival → Option Bytes × List Arrival
readv size [] = (some [], [])
readv size (fails ∷ input) = (none, input)
readv size (arrives bytes ∷ input) = (
  some (take size bytes),
  if ltb size (length bytes) then arrives (drop size bytes) ∷ input else input,
)

-- The client: what its functions do with the connection, which ones there are, how it writes.
pub record Itf : Type 0 where
  pub react : Call → Conn → Conn
  pub has_ping : Bool
  pub has_pong : Bool
  pub has_error : Bool
  pub on_extension : Option (Websock → Bool)
  pub writev : List Bytes → Bool

abbrev pub with_ws : Conn → Websock → Conn
with_ws c ws = record c { ws = ws }

unfoldable pub call : Itf → Call → Conn → Conn
call itf event c = itf.react event (record c { calls = event ∷ c.calls })

abbrev pub send : Sent → Conn → Conn
send frame c = record c { frames = frame ∷ c.frames }

-- `websock_read` after its guards; what is read, `none` on a failure.
unfoldable pub take_payload : ℕ → Conn → Option Bytes × List Arrival → Option Bytes × Conn
take_payload address c (none, input) = (none, record c { input = input })
take_payload address c (some bytes, input) =
    let ws = record (c.ws) { length = c.ws.length - length bytes } in
    let u = unmask address ws.mask bytes in
    if not (length bytes == 0) && is_key ws.mask
    then (some u.bytes, record c { ws = record ws { mask = u.mask }; input = input })
    else (some bytes, record c { ws = ws; input = input })

unfoldable pub min : ℕ → ℕ → ℕ
min a b = if ltb b a then b else a

abbrev pub in_data : State → Bool
in_data state_data = true
in_data state_init = false
in_data state_start = false
in_data state_length = false

-- Into a buffer at an address.
unfoldable pub websock_read : ℕ → ℕ → Conn → Option Bytes × Conn
websock_read address size c =
    if not (in_data c.ws.state)
    then (some [], c)
    else take_payload address c (readv (min size c.ws.length) c.input)

-- `none` where the loop does not end on the fuel; the Boolean is false on a failure.
unfoldable pub websock_drop : ℕ → ℕ → Conn → Option (Bool × Conn)
websock_drop address zero c = none
websock_drop address (suc fuel) c =
    let (bytes, d) = websock_read address 8000 c in
    let rest : Option (Bool × Conn) = elim bytes [
      | none ↦ some (false, d)
      | some b ↦ websock_drop address fuel d
    ] in
    if c.ws.length == 0 then some (true, c) else rest

-- `calloc` succeeds; `maxlength` is the default one.
unfoldable pub websock_create_v13 : Bool → ℕ → Option Websock
websock_create_v13 mem default_maxlength =
    if mem
    then some (record {
      state = state_init;
      maxlength = default_maxlength;
      szhead = 0;
      length = 0;
      mask = no_key;
      header = [];
    })
    else none

-- For a length of 64 bits.
pub websock_set_max_length : Websock → ℕ → Websock
websock_set_max_length ws maxlen = record ws { maxlength = maxlen }

abbrev messages : List Bytes
messages =
    codes "OK"
    ∷ codes "GOING_AWAY"
    ∷ codes "PROTOCOL_ERROR"
    ∷ codes "CANT_ACCEPT"
    ∷ codes "RESERVED"
    ∷ codes "NOT_SET"
    ∷ codes "ABNORMAL"
    ∷ codes "INVALID_UTF8"
    ∷ codes "POLICY_VIOLATION"
    ∷ codes "MESSAGE_TOO_LARGE"
    ∷ codes "EXPECT_EXTENSION"
    ∷ codes "INTERNAL_ERROR"
    ∷ []

pub websocket_explain_error : ℕ → Bytes
websocket_explain_error code =
    if ltb code 1000 || not (ltb (code - 1000) 12)
    then codes "?"
    else get_or messages (code - 1000) (codes "?")
