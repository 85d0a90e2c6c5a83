-- ===== src/WebSocket/Opcode.antt =====
-- The opcodes of include/ios-webkit-debug-proxy/websocket.h.
use bootstrap_agency_templat.Prelude.{ℕ}

abbrev pub continuation : ℕ
continuation = 0x0

abbrev pub text : ℕ
text = 0x1

abbrev pub binary : ℕ
binary = 0x2

abbrev pub close : ℕ
close = 0x8

abbrev pub ping : ℕ
ping = 0x9

abbrev pub pong : ℕ
pong = 0xA
