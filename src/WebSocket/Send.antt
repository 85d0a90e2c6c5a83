-- ===== src/WebSocket/Send.antt =====
-- `ws_send_frame`, `ws_send_close`, `ws_compute_answer`, `ws_send_upgrade` and `ws_send_connect` of
-- src/websocket.c. Text that `sprintf` writes is a list of bytes.
use bootstrap_agency_templat.Prelude.{
  ℕ, ◌+◌, ◌/◌, ◌%◌, Bool, true, false, not, ◌&&◌, ◌||◌, Option, none, some, List, [], ◌∷◌, ◌++◌,
  length, ltb, ◌==◌, if◌then◌else◌,
}
use bootstrap_agency_templat.Libc.{codes}
use bootstrap_agency_templat.CharBuffer
use bootstrap_agency_templat.CharBuffer.{Cb, ensure_capacity}
use bootstrap_agency_templat.WebSocket.{
  Ws, Status, success, failure, Outside, is_known, is_control, utf8_accepts,
}
use bootstrap_agency_templat.WebSocket.Opcode
use bootstrap_agency_templat.WebSocket.Frame.{length_bytes, encode, mask_size}

-- What an operation leaves: the connection, the state outside, and the status.
pub record Sent (E : Type 0) : Type 0 where
  pub ws : Ws
  pub outside : E
  pub status : Status

-- the checks of `ws_send_frame` up to the payload, `true` where it is refused
unfoldable pub is_refused : Ws → Bool → ℕ → ℕ → Bool
is_refused ws is_fin opcode payload_length =
    ws.sent_close
    || not (is_known opcode)
    || (is_control opcode && (not is_fin || ltb 125 payload_length))
    || (not (is_control opcode)
        && not (ws.continued_opcode == 0)
        && not (ws.continued_opcode == opcode))

-- `opcode2`: a data frame after an unfinished one is sent as a continuation
unfoldable pub wire_opcode : Ws → ℕ → ℕ
wire_opcode ws opcode =
    if not (is_control opcode) && not (ws.continued_opcode == 0)
    then Opcode.continuation
    else opcode

abbrev pub is_success : Status → Bool
is_success success = true
is_success failure = false

module _ {E : Type 0} (out : Outside E) where
  -- `cb_clear(my->out); cb_ensure_capacity(my->out, needed)`
  abbrev pub make_room : Ws → ℕ → Bool × Cb
  make_room ws needed = ensure_capacity out.alloc (CharBuffer.clear ws.out) needed

  -- write the bytes to the output buffer and hand them to `send_data`
  unfoldable pub emit : Ws → Cb → List ℕ → E → Sent E
  emit ws buffer bytes e =
      let (e', status) = out.send_data bytes e in
      record {
        ws = record ws { out = CharBuffer.append buffer bytes };
        outside = e';
        status = status;
      }

  abbrev pub fail : Ws → E → Sent E
  fail ws e = record { ws = ws; outside = e; status = failure }

  -- the mask of a frame, where it is masked
  abbrev pub draw_mask : Bool → E → Option (List ℕ) × E
  draw_mask false e = (none, e)
  draw_mask true e = let (m, e') = out.random_buf 4 e in (some m, e')

  -- the end of `ws_send_frame`, once the output buffer has room
  unfoldable pub send_encoded : Ws → Cb → Bool → ℕ → Bool → List ℕ → E → Sent E
  unfolding emit
  send_encoded ws buffer is_fin opcode is_masking payload e =
      let (mask, e') = draw_mask is_masking e in
      let started =
        if not is_fin && ws.continued_opcode == 0 then opcode else ws.continued_opcode in
      let sent =
        emit (record ws { continued_opcode = started }) buffer
          (encode is_fin (wire_opcode ws opcode) mask payload) e' in
      if is_success sent.status && opcode == Opcode.close
      then record sent { ws = record (sent.ws) { sent_close = true } }
      else sent

  -- `ws_send_frame`; the payload is `none` where its pointer is null
  unfoldable pub send_frame : Ws → Bool → ℕ → Bool → Option (List ℕ) → E → Sent E
  unfolding is_refused wire_opcode send_encoded
  send_frame ws is_fin opcode is_masking none e = fail ws e
  send_frame ws is_fin opcode is_masking (some payload) e =
      let needed = 2 + length_bytes (length payload) + mask_size is_masking + length payload in
      let (fits, buffer) = make_room ws needed in
      if is_refused ws is_fin opcode (length payload)
      then fail ws e
      else (if wire_opcode ws opcode == Opcode.text
            && not (utf8_accepts out.validate_utf8 0 payload)
          then fail ws e
          else (if fits
              then send_encoded ws buffer is_fin opcode is_masking payload e
              else fail (record ws { out = buffer }) e))

  -- `ws_send_close`; an allocation of `length + 1` bytes may fail
  unfoldable pub send_close : Ws → ℕ → Option (List ℕ) → E → Sent E
  unfolding send_frame
  send_close ws close_code reason e =
      let text : List ℕ = elim reason [ none ↦ [] | some r ↦ r ] in
      let payload = (close_code / 256 % 256) ∷ (close_code % 256) ∷ text in
      if out.alloc (length payload + 1)
      then send_frame ws true Opcode.close false (some payload) e
      else fail ws e

  magic : List ℕ
  magic = codes "258EAFA5-E914-47DA-95CA-C5AB0DC85B11"

  -- `ws_compute_answer`: base64 of the SHA-1 of the key and the constant
  unfoldable pub compute_answer : Option (List ℕ) → Option (List ℕ)
  unfolding magic
  compute_answer none = none
  compute_answer (some sec_key) =
      if out.alloc (length sec_key + length magic + 1)
      then out.base64 (out.sha1 (sec_key ++ magic))
      else none

  crlf : List ℕ
  crlf = 13 ∷ 10 ∷ []

  -- a header line that is written only where there is a value
  header_line : List ℕ → Option (List ℕ) → List ℕ
  unfolding crlf
  header_line name none = []
  header_line name (some value) = name ++ (value ++ crlf)

  abbrev text_length : Option (List ℕ) → ℕ
  text_length none = 0
  text_length (some s) = length s

  unfoldable pub upgrade_text : Option (List ℕ) → List ℕ → List ℕ
  unfolding header_line crlf
  upgrade_text protocol answer =
      codes "HTTP/1.1 101 WebSocket Protocol Handshake"
      ++ (crlf
          ++ (codes "Upgrade: WebSocket"
              ++ (crlf
                  ++ (codes "Connection: Upgrade"
                      ++ (crlf
                          ++ (header_line (codes "Sec-WebSocket-Protocol: ") protocol
                              ++ (codes "Sec-WebSocket-Accept: "
                                  ++ (answer ++ (crlf ++ crlf)))))))))

  -- `ws_send_upgrade`
  unfoldable pub send_upgrade : Ws → E → Sent E
  unfolding emit compute_answer upgrade_text
  send_upgrade ws e = elim ws.resource [
    | none ↦ fail ws e
    | some _ ↦ elim ws.sec_key [
      | none ↦ fail ws e
      | some _ ↦
          let answer = compute_answer ws.sec_key in
          let answered = record ws { sec_answer = answer } in
          elim answer [
            | none ↦ fail answered e
            | some a ↦
                let (fits, buffer) = make_room ws (1024 + length a + text_length ws.protocol) in
                if fits
                then emit answered buffer (upgrade_text ws.protocol a) e
                else fail (record answered { out = buffer }) e
          ]
    ]
  ]

  unfoldable pub connect_text :
      List ℕ → List ℕ → Option (List ℕ) → Option (List ℕ) → Option (List ℕ) → List ℕ
  unfolding header_line crlf
  connect_text resource key protocol host origin =
      codes "GET "
      ++ (resource
          ++ (codes " HTTP/1.1"
              ++ (crlf
                  ++ (codes "Upgrade: WebSocket"
                      ++ (crlf
                          ++ (codes "Connection: Upgrade"
                              ++ (crlf
                                  ++ (codes "Sec-WebSocket-Version: 13"
                                      ++ (crlf
                                          ++ (codes "Sec-WebSocket-Key: "
                                              ++ (key
                                                  ++ (crlf
                                                      ++ (header_line
                                                            (codes "Sec-WebSocket-Protocol: ")
                                                            protocol
                                                          ++ (header_line (codes "Host: ") host
                                                            ++ (header_line (codes "Origin: ")
                                                            origin
                                                            ++ crlf)))))))))))))))

  -- `ws_send_connect`
  unfoldable pub send_connect :
      Ws → Option (List ℕ) → Option (List ℕ) → Option (List ℕ) → Option (List ℕ) → E → Sent E
  unfolding emit connect_text
  send_connect ws none protocol host origin e = fail ws e
  send_connect ws (some resource) protocol host origin e =
      let (sec_ukey, e') = out.random_buf 20 e in
      elim (out.base64 sec_ukey) [
        | none ↦ fail ws e'
        | some key ↦
            let (fits, buffer) = make_room ws (
              1024
              + length resource
              + length key
              + text_length protocol
              + text_length host
              + text_length origin) in
            if fits
            then emit ws buffer (connect_text resource key protocol host origin) e'
            else fail (record ws { out = buffer }) e'
      ]
