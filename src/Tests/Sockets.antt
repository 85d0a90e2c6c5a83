-- ===== src/Tests/Sockets.antt =====
-- src/websocket.c: a masked text frame, a close frame, and a handshake that is not for a WebSocket.
use bootstrap_agency_templat.Prelude.{
  ℕ, ◌+◌, ◌≡◌, refl, true, false, ◌&&◌, Option, some, List, [], ◌∷◌, ◌++◌, arith, length,
}
use bootstrap_agency_templat.Libc.{codes}
use bootstrap_agency_templat.CharBuffer
use bootstrap_agency_templat.CharBuffer.{Cb, ensure_capacity}
use bootstrap_agency_templat.WebSocket
use bootstrap_agency_templat.WebSocket.{Ws, Status, success}
use bootstrap_agency_templat.WebSocket.Opcode
use bootstrap_agency_templat.WebSocket.Frame
use bootstrap_agency_templat.WebSocket.Frame.{
  flag, mask_bytes, is_some, any_nonzero, encode, length_code, ask, read_frame_length, read_frame,
}
use bootstrap_agency_templat.WebSocket.RoundTrip.{read_frame-encode}
use bootstrap_agency_templat.WebSocket.Send
use bootstrap_agency_templat.WebSocket.Send.{send_frame, wire_opcode}
use bootstrap_agency_templat.WebSocket.Sending.{Request, send_all, accepts-sent, send_frame-close}
use bootstrap_agency_templat.WebSocket.Loop.{Done, recv_loop}
use bootstrap_agency_templat.WebSocket.Http.{crlf, Headers}
use bootstrap_agency_templat.WebSocket.Progress.{recv_loop-total}
use bootstrap_agency_templat.Tests.Fixtures.{outside, callbacks}

abbrev fresh : Ws
fresh = WebSocket.new

abbrev hi : List ℕ
hi = codes "Hi"

abbrev mask : Option (List ℕ)
mask = some (1 ∷ 2 ∷ 3 ∷ 4 ∷ [])

abbrev room : Cb
room = (ensure_capacity outside.alloc fresh.payload 2).1

abbrev frame : List ℕ
frame = encode true Opcode.text mask hi

read_frame-encode_example :
    (read_frame_length fresh (frame ++ (5 ∷ [])) ≡ (ask fresh 0 (length frame), success))
    × (read_frame outside (ask fresh 0 (length frame)) (frame ++ (5 ∷ [])) ≡ record {
      ws = record fresh {
        needed_length = 0;
        frame_length = length frame;
        payload = CharBuffer.append room hi;
      };
      head = some (record {
        is_fin = true;
        opcode = Opcode.text;
        is_masking = is_some mask && any_nonzero (mask_bytes mask);
      });
      rest = 5 ∷ [];
    })
unfolding Frame.is_refused ensure_capacity CharBuffer.new WebSocket.new length_code
    WebSocket.utf8_accepts CharBuffer.first_alloc
read_frame-encode_example =
    read_frame-encode true Opcode.text mask hi (5 ∷ []) (omega arith) (omega arith) refl outside
      fresh room refl refl refl

accepts-sent_example :
    Frame.is_refused fresh
      (flag false + wire_opcode fresh Opcode.binary)
      (flag true + length_code 2)
    ≡ false
unfolding Send.is_refused WebSocket.new
accepts-sent_example = accepts-sent fresh fresh false true Opcode.binary 2 refl (omega arith) refl

abbrev later : List (Request outside)
later = record { is_fin = true; opcode = Opcode.text; is_masking = false; payload = some hi } ∷ []

send_frame-close_example :
    send_all outside
      (send_frame outside fresh true Opcode.close false (some []) 0).ws
      later
      (send_frame outside fresh true Opcode.close false (some []) 0).outside
    ≡ (
      (send_frame outside fresh true Opcode.close false (some []) 0).ws,
      (send_frame outside fresh true Opcode.close false (some []) 0).outside,
    )
unfolding send_frame ensure_capacity CharBuffer.new WebSocket.new CharBuffer.clear
    CharBuffer.first_alloc Frame.length_bytes
send_frame-close_example = send_frame-close outside fresh true false [] 0 later refl

abbrev request : List ℕ
request = codes "GET /json HTTP/1.1" ++ (13 ∷ 10 ∷ 13 ∷ 10 ∷ [])

recv_loop-total_example :
    (done : Done ℕ) × recv_loop outside callbacks [] 100 fresh 0 request ≡ some done
recv_loop-total_example = recv_loop-total outside callbacks [] 100 fresh 0 request (omega arith)

abbrev unread : Headers
unread = record { ws = fresh; is_connection = false; is_upgrade = false }

abbrev header_lines : List ℕ
header_lines = codes "Upgrade: websocket" ++ crlf ++ crlf
