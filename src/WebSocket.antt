-- ===== src/WebSocket.antt =====
-- src/websocket.c: the state of a WebSocket connection, and what it asks of its surroundings.
-- Its input window is the list of the bytes from `in_head` to `in_tail`; see `CharBuffer` for the
-- buffer behind it. An error that the source logs and returns is `failure`.
pub mod Opcode
pub mod Frame
pub mod Send
pub mod Http
pub mod Recv
pub mod Loop
pub mod Consumed
pub mod Headers
pub mod Progress
pub mod Bytes
pub mod Accept
pub mod RoundTrip
pub mod Sending
use bootstrap_agency_templat.Prelude.{
  ℕ, ◌+◌, ◌%◌, ◌/◌, ◌^◌, Bool, true, false, not, ◌&&◌, ◌||◌, Option, none, some, List, [], ◌∷◌, leb,
  ltb, ◌==◌,
}
use bootstrap_agency_templat.CharBuffer.{Cb}
use bootstrap_agency_templat.CharBuffer

pub data State : Type 0 where
  error read_http_request read_http_headers keep_alive read_frame_length read_frame closed : State

-- `ws_status`
pub data Status : Type 0 where
  success failure : Status

-- `struct ws_private`, without the buffer `in`
pub record Ws : Type 0 where
  pub state : State
  pub out : Cb
  pub payload : Cb
  pub method : Option (List ℕ)
  pub resource : Option (List ℕ)
  pub http_version : Option (List ℕ)
  pub req_host : Option (List ℕ)
  pub protocol : Option (List ℕ)
  pub version : ℕ
  pub sec_key : Option (List ℕ)
  pub is_websocket : Bool
  pub sec_answer : Option (List ℕ)
  pub needed_length : ℕ
  pub frame_length : ℕ
  pub continued_opcode : ℕ
  pub sent_close : Bool

-- `ws_private_new`
unfoldable pub new : Ws
unfolding CharBuffer.new
new = record {
  state = State.read_http_request;
  out = CharBuffer.new;
  payload = CharBuffer.new;
  method = none;
  resource = none;
  http_version = none;
  req_host = none;
  protocol = none;
  version = 0;
  sec_key = none;
  is_websocket = false;
  sec_answer = none;
  needed_length = 0;
  frame_length = 0;
  continued_opcode = 0;
  sent_close = false;
}

-- What stands outside: the allocator, the table of validate_utf8.h, the random bytes, the SHA-1 and
-- base64 copies of PolarSSL, and the `send_data` callback, over a state of its own.
pub record Outside (E : Type 0) : Type 0 where
  pub alloc : ℕ → Bool
  pub validate_utf8 : ℕ → ℕ
  pub random_buf : ℕ → E → List ℕ × E
  pub sha1 : List ℕ → List ℕ
  pub base64 : List ℕ → Option (List ℕ)
  pub send_data : List ℕ → E → E × Status

-- the opcodes that the protocol defines
abbrev pub is_known : ℕ → Bool
is_known opcode =
    opcode == Opcode.continuation
    || opcode == Opcode.text
    || opcode == Opcode.binary
    || opcode == Opcode.close
    || opcode == Opcode.ping
    || opcode == Opcode.pong

abbrev pub is_control : ℕ → Bool
is_control opcode = leb Opcode.close opcode

-- The loop over `validate_utf8`: no byte leads to the error state.
unfoldable pub utf8_accepts : (ℕ → ℕ) → ℕ → List ℕ → Bool
utf8_accepts table state [] = true
utf8_accepts table state (ch ∷ s) =
    let state' = table (state + ch) in not (state' == 0x800) && utf8_accepts table state' s

-- bits of a byte: `b & 0x80`, `b & 0x70`, `b & 0x0F`, `b & 0x7f`
abbrev pub top_bit : ℕ → Bool
top_bit b = b / 128 % 2 == 1

abbrev pub reserved_bits : ℕ → ℕ
reserved_bits b = b / 16 % 8

abbrev pub low_nibble : ℕ → ℕ
low_nibble b = b % 16

abbrev pub low_seven : ℕ → ℕ
low_seven b = b % 128
