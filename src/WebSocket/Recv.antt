-- ===== src/WebSocket/Recv.antt =====
-- The receiving half of src/websocket.c: `ws_recv_request`, `ws_recv_headers`,
-- `ws_recv_frame_length`, `ws_recv_frame`, `ws_recv_loop` and `ws_on_recv`. The callbacks may send,
-- so they take the connection and leave another one.
use bootstrap_agency_templat.Prelude.{
  ℕ, Bool, not, ◌||◌, Option, none, some, List, [], ◌++◌, ltb, ◌==◌, if◌then◌else◌, length, take,
  drop,
}
use bootstrap_agency_templat.Libc.{strnstr}
use bootstrap_agency_templat.CharBuffer
use bootstrap_agency_templat.CharBuffer.{Cb, memory, window, begin_input, end_input, advance}
use bootstrap_agency_templat.WebSocket.{State, Status, Ws, Outside}
use bootstrap_agency_templat.WebSocket.{success, failure}
use bootstrap_agency_templat.WebSocket.Opcode
use bootstrap_agency_templat.WebSocket.Frame.{read_frame_length, read_frame, Head}
use bootstrap_agency_templat.WebSocket.Http.{crlf, read_http_request, read_headers}

-- What a callback leaves; `flag` is what it writes through its last pointer.
pub record Heard (E : Type 0) : Type 0 where
  pub ws : Ws
  pub outside : E
  pub status : Status
  pub flag : Bool

-- The callbacks. `on_http_request` and `on_upgrade` are handed fields of the connection, which they
-- read from it here, and the former the bytes at the header pointer.
pub record Callbacks (E : Type 0) : Type 0 where
  pub on_http_request : Ws → List ℕ → E → Heard E
  pub on_upgrade : Ws → E → Heard E
  pub on_frame : Ws → Head → List ℕ → E → Heard E

-- What one `ws_recv_…` leaves; `next` is `none` for the return value -1.
pub record Step (E : Type 0) : Type 0 where
  pub ws : Ws
  pub outside : E
  pub left : List ℕ
  pub next : Option State

module _ {E : Type 0} (out : Outside E) (calls : Callbacks E) (beyond : List ℕ) where
  -- `ws_recv_request`
  unfoldable pub recv_request : Ws → E → List ℕ → Step E
  unfolding read_http_request
  recv_request ws e w = elim (strnstr crlf w) [
    | none ↦ record { ws = ws; outside = e; left = w; next = none }
    | some _ ↦
        let p = read_http_request ws w in
        record {
          ws = p.ws;
          outside = e;
          left = p.left;
          next = some (elim p.status [ success ↦ State.read_http_headers | failure ↦ State.error ]);
        }
  ]

  -- the end of `ws_recv_headers`, for a WebSocket
  unfoldable pub upgrade : Ws → E → List ℕ → Step E
  upgrade ws e left =
      let heard = calls.on_upgrade ws e in
      record {
        ws = heard.ws;
        outside = heard.outside;
        left = left;
        next =
            some (elim heard.status [ success ↦ State.read_frame_length | failure ↦ State.error ]);
      }

  -- what follows `on_http_request`
  unfoldable pub answered : Heard E → List ℕ → Step E
  unfolding upgrade
  answered heard left = elim heard.status [
    | failure ↦ record {
      ws = heard.ws;
      outside = heard.outside;
      left = left;
      next = some State.error;
    }
    | success ↦ if (heard.ws).is_websocket then upgrade heard.ws heard.outside left else record {
      ws = heard.ws;
      outside = heard.outside;
      left = left;
      next = some (if heard.flag then State.read_http_request else State.closed);
    }
  ]

  -- `ws_recv_headers`
  unfoldable pub recv_headers : Ws → E → List ℕ → Step E
  unfolding read_headers answered
  recv_headers ws e w = elim (strnstr (crlf ++ crlf) w) [
    | none ↦ record { ws = ws; outside = e; left = w; next = none }
    | some _ ↦
        let (ws', left) = read_headers beyond ws (drop 2 w) in
        answered (calls.on_http_request ws' w e) left
  ]

  -- `ws_recv_frame_length`
  unfoldable pub recv_frame_length : Ws → E → List ℕ → Step E
  unfolding read_frame_length
  recv_frame_length ws e w =
      let (ws', status) = read_frame_length ws w in
      let waits = not (ws'.needed_length == 0) || ws'.frame_length == 0 in
      record {
        ws = ws';
        outside = e;
        left = w;
        next = elim status [
          | failure ↦ some State.error
          | success ↦ if waits then none else some State.read_frame
        ];
      }

  -- the end of `ws_recv_frame`, after the callback
  unfoldable pub settle : Head → Heard E → List ℕ → Step E
  settle head heard left =
      let ws = heard.ws in
      let kept =
        if head.is_fin || not heard.flag
        then record ws { payload = CharBuffer.clear (ws.payload) }
        else ws in
      let continued =
        if head.is_fin
        then 0
        else if head.opcode == Opcode.continuation
        then kept.continued_opcode
        else head.opcode in
      elim heard.status [
        | failure ↦ record {
          ws = ws;
          outside = heard.outside;
          left = left;
          next = some State.error;
        }
        | success ↦ record {
          ws = record kept { continued_opcode = continued };
          outside = heard.outside;
          left = left;
          next =
              some (if head.opcode == Opcode.close then State.closed else State.read_frame_length);
        }
      ]

  -- all the payload that is kept
  abbrev pub payload_bytes : Ws → List ℕ
  payload_bytes ws = take (ws.payload).tail (memory ws.payload)

  -- `ws_recv_frame`
  unfoldable pub recv_frame : Ws → E → List ℕ → Step E
  unfolding read_frame settle
  recv_frame ws e w =
      let r = read_frame out ws w in
      if not (ws.needed_length == 0) || ws.frame_length == 0 || ltb (length w) ws.frame_length
      then record { ws = ws; outside = e; left = w; next = none }
      else elim r.head [
        | none ↦ record { ws = r.ws; outside = e; left = r.rest; next = some State.error }
        | some head ↦ settle head (calls.on_frame r.ws head (payload_bytes r.ws) e) r.rest
      ]

  -- The `switch` of `ws_recv_loop`; `none` is its `return WS_ERROR`. No operation sets the state
  -- keep_alive; what it discards from an own buffer is taken here, and in C stays in the buffer.
  unfoldable pub turn : State → Ws → E → List ℕ → Option (Step E)
  unfolding recv_request recv_headers recv_frame_length recv_frame
  turn State.read_http_request ws e w = some (recv_request ws e w)
  turn State.read_http_headers ws e w = some (recv_headers ws e w)
  turn State.keep_alive ws e w = some (record { ws = ws; outside = e; left = []; next = none })
  turn State.read_frame_length ws e w = some (recv_frame_length ws e w)
  turn State.read_frame ws e w = some (recv_frame ws e w)
  turn State.closed ws e w = none
  turn State.error ws e w = none
