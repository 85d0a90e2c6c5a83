-- ===== src/WebSocket/Sending.antt =====
-- What `ws_send_frame` of src/websocket.c does on every branch, and how its checks agree with those
-- of `ws_read_frame_length`.
use bootstrap_agency_templat.Prelude.{
  ℕ, ◌+◌, ◌≤◌, ◌<◌, ◌≡◌, refl, sym, ap, ◌∙◌, ◌≢◌, ◌⊎◌, inl, inr, Bool, true, false, not, ◌&&◌, ◌||◌,
  Option, some, List, [], ◌∷◌, arith, ltb, ◌==◌, if◌then◌else◌, ltb-false, ==_ne, Bool-cases,
  Option-cases, length,
}
use bootstrap_agency_templat.CharBuffer.{Cb}
use bootstrap_agency_templat.WebSocket.{Ws, Outside, is_known, is_control, utf8_accepts}
use bootstrap_agency_templat.WebSocket.{success, failure}
use bootstrap_agency_templat.WebSocket.Opcode
use bootstrap_agency_templat.WebSocket.Frame
use bootstrap_agency_templat.WebSocket.Frame.{flag, length_bytes, length_code, encode, mask_size}
use bootstrap_agency_templat.WebSocket.Bytes.{
  top_bit-flag, low_seven-flag, low_nibble-flag, reserved_bits-flag, length_code_bound,
}
use bootstrap_agency_templat.WebSocket.Send.{
  Sent, is_refused, wire_opcode, is_success, make_room, emit, fail, draw_mask, send_encoded,
  send_frame,
}

-- the checks of the receiver on the four fields of the head
abbrev refuses : Ws → Bool → ℕ → ℕ → Bool
refuses ws is_fin opcode code =
    not (is_known opcode)
    || (is_control opcode && not is_fin)
    || (if opcode == Opcode.continuation
        then ws.continued_opcode == 0
        else not (is_control opcode) && not (ws.continued_opcode == 0))
    || (is_control opcode && ltb 125 code)

is_refused-flag :
    (ws : Ws) (is_fin has_mask : Bool) (w c : ℕ)
    → w < 16
    → c < 128
    → Frame.is_refused ws (flag is_fin + w) (flag has_mask + c) ≡ refuses ws is_fin w c
unfolding Frame.is_refused
is_refused-flag ws is_fin has_mask w c h k =
    let low = low_nibble-flag is_fin w h in
    let seven = low_seven-flag has_mask c k in
    let reserved = reserved_bits-flag is_fin w h in
    let top = top_bit-flag is_fin w (omega arith) in rw (reserved, low, top, seven) refl

known_bound : (w : ℕ) → is_known w ≡ true → w < 16
known_bound w h = ground arith

wire_bound : (ws : Ws) (opcode : ℕ) → is_known opcode ≡ true → wire_opcode ws opcode < 16
unfolding wire_opcode
wire_bound ws opcode h = ground (arith, known_bound opcode h)

sent-is_known :
    (ws : Ws) (is_fin : Bool) (opcode n : ℕ)
    → is_refused ws is_fin opcode n ≡ false
    → is_known opcode ≡ true
unfolding is_refused
sent-is_known ws is_fin opcode n h = ground arith

small_code : (n : ℕ) → n ≤ 125 → length_code n ≡ n
unfolding length_code length_bytes
small_code n h = ground arith

sent-refuses :
    (sender receiver : Ws) (is_fin : Bool) (opcode n : ℕ)
    → is_refused sender is_fin opcode n ≡ false
    → opcode ≢ Opcode.continuation
    → receiver.continued_opcode ≡ sender.continued_opcode
    → refuses receiver is_fin (wire_opcode sender opcode) (length_code n) ≡ false
unfolding is_refused wire_opcode
sent-refuses sender receiver is_fin opcode n sent bare same =
    let known = sent-is_known sender is_fin opcode n sent in
    let nz = ==_ne opcode Opcode.continuation bare in
    elim (Bool-cases (is_control opcode)) [
      | inl e ↦
          let fin : is_fin ≡ true = ground arith in
          let short : n ≤ 125 = ground arith in
          let fits = ltb-false 125 (length_code n) (omega (arith, small_code n short)) in
          rw (same, e, known, fin, nz, e, fits) refl
      | inr e ↦ elim (Bool-cases (sender.continued_opcode == 0)) [
        | inl z ↦ rw (same, e, z, known, nz, e) refl
        | inr z ↦ rw (same, e, z) refl
      ]
    ]

-- The receiver accepts the head of every frame that the sender does not refuse, whatever its mask
-- bit, if both are at the same continued opcode and the sender was not asked for a bare
-- continuation.
pub accepts-sent :
    (sender receiver : Ws) (is_fin has_mask : Bool) (opcode n : ℕ)
    → is_refused sender is_fin opcode n ≡ false
    → opcode ≢ Opcode.continuation
    → receiver.continued_opcode ≡ sender.continued_opcode
    → Frame.is_refused receiver
        (flag is_fin + wire_opcode sender opcode)
        (flag has_mask + length_code n)
      ≡ false
unfolding is_refused wire_opcode Frame.is_refused length_code length_bytes
accepts-sent sender receiver is_fin has_mask opcode n sent bare same =
    let known = sent-is_known sender is_fin opcode n sent in
    is_refused-flag receiver is_fin has_mask (wire_opcode sender opcode) (length_code n)
      (wire_bound sender opcode known) (length_code_bound n)
    ∙ sent-refuses sender receiver is_fin opcode n sent bare same

module _ {E : Type 0} (out : Outside E) where
  -- Nothing was sent: the state outside and the protocol state are as they were.
  abbrev IsHeldBack : Ws → E → Sent E → Type 0
  IsHeldBack ws e r =
      (r.outside ≡ e × r.status ≡ failure)
      × (r.ws.continued_opcode ≡ ws.continued_opcode × r.ws.sent_close ≡ ws.sent_close)

  -- One frame was handed to `send_data`, whose answer is the status.
  abbrev IsEmitted : Ws → Bool → ℕ → Bool → List ℕ → E → Sent E → Type 0
  IsEmitted ws is_fin opcode is_masking payload e r =
      let drawn = draw_mask out is_masking e in
      let called =
        out.send_data (encode is_fin (wire_opcode ws opcode) (drawn.0) payload) (drawn.1) in
      (r.outside ≡ called.0 × r.status ≡ called.1)
      × ((r.ws.continued_opcode
            ≡ (if not is_fin && ws.continued_opcode == 0 then opcode else ws.continued_opcode))
          × (r.ws.sent_close ≡ (is_success (called.1) && opcode == Opcode.close || ws.sent_close)))

  send_encoded-IsEmitted :
      (ws : Ws) (buffer : Cb) (is_fin : Bool) (opcode : ℕ) (is_masking : Bool) (payload : List ℕ)
      (e : E)
      → IsEmitted ws is_fin opcode is_masking payload e
          (send_encoded out ws buffer is_fin opcode is_masking payload e)
  unfolding send_encoded emit
  send_encoded-IsEmitted ws buffer is_fin opcode is_masking payload e = ground arith

  abbrev needed : Bool → List ℕ → ℕ
  needed is_masking payload =
      2 + length_bytes (length payload) + mask_size is_masking + length payload

  -- No check refuses the frame, a text payload has no invalid UTF-8, and there is room for it.
  abbrev may_send : Ws → Bool → ℕ → Bool → List ℕ → Bool
  may_send ws is_fin opcode is_masking payload =
      not (is_refused ws is_fin opcode (length payload))
      && (not
            (wire_opcode ws opcode == Opcode.text && not (utf8_accepts out.validate_utf8 0 payload))
          && (make_room out ws (needed is_masking payload)).0)

  -- `ws_send_frame` hands exactly one frame to `send_data` where no check refuses it, and otherwise
  -- fails and changes neither what is outside nor the protocol's state.
  send_frame-outcome :
      (ws : Ws) (is_fin : Bool) (opcode : ℕ) (is_masking : Bool) (payload : List ℕ) (e : E)
      → (may_send ws is_fin opcode is_masking payload ≡ true
          × IsEmitted ws is_fin opcode is_masking payload e
              (send_frame out ws is_fin opcode is_masking (some payload) e))
        ⊎ (may_send ws is_fin opcode is_masking payload ≡ false
            × IsHeldBack ws e (send_frame out ws is_fin opcode is_masking (some payload) e))
  unfolding send_frame
  send_frame-outcome ws is_fin opcode is_masking payload e =
      let room = make_room out ws (needed is_masking payload) in
      elim (Bool-cases (is_refused ws is_fin opcode (length payload))) [
        | inl r ↦ inr (rw (r) (refl, ((refl, refl), (refl, refl))))
        | inr r ↦
            elim (Bool-cases (
              wire_opcode ws opcode == Opcode.text
              && not (utf8_accepts out.validate_utf8 0 payload))) [
                | inl u ↦ inr (rw (r, u) (refl, ((refl, refl), (refl, refl))))
                | inr u ↦ elim (Bool-cases (room.0)) [
                  | inl f ↦ inl (
                      rw (r, u, f)
                        (
                          refl,
                          send_encoded-IsEmitted ws (room.1) is_fin opcode is_masking payload e,
                        ))
                  | inr f ↦ inr (rw (r, u, f) (refl, ((refl, refl), (refl, refl))))
                ]
              ]
      ]

  -- what can be asked of the sender
  pub record Request : Type 0 where
    pub is_fin : Bool
    pub opcode : ℕ
    pub is_masking : Bool
    pub payload : Option (List ℕ)

  -- The requests one after the other.
  unfoldable pub send_all : Ws → List Request → E → Ws × E
  send_all ws [] e = (ws, e)
  send_all ws (q ∷ qs) e =
      let sent = send_frame out ws q.is_fin q.opcode q.is_masking q.payload e in
      send_all (sent.ws) qs (sent.outside)

  after_close :
      (ws : Ws) (q : Request) (e : E)
      → ws.sent_close ≡ true
      → send_frame out ws q.is_fin q.opcode q.is_masking q.payload e ≡ fail out ws e
  unfolding send_frame is_refused
  after_close ws q e h = elim (Option-cases q.payload) [
    | inl n ↦ rw n refl
    | inr (p, s) ↦ rw (s, h) refl
  ]

  stays_closed :
      (ws : Ws) (qs : List Request) (e : E) → ws.sent_close ≡ true → send_all ws qs e ≡ (ws, e)
  unfolding send_all
  stays_closed ws [] e h = refl
  stays_closed ws (q ∷ qs) e h =
      ap (λ r. send_all r.ws qs r.outside) (after_close ws q e h) ∙ stays_closed ws qs e h

  -- Once a close frame was sent with success, no later request changes what is outside, whatever
  -- the requests are.
  pub send_frame-close :
      (ws : Ws) (is_fin is_masking : Bool) (payload : List ℕ) (e : E) (later : List Request)
      → (send_frame out ws is_fin Opcode.close is_masking (some payload) e).status ≡ success
      → let sent = send_frame out ws is_fin Opcode.close is_masking (some payload) e in
        send_all sent.ws later sent.outside ≡ (sent.ws, sent.outside)
  send_frame-close ws is_fin is_masking payload e later ok =
      let sent = send_frame out ws is_fin Opcode.close is_masking (some payload) e in
      stays_closed sent.ws later sent.outside
        (elim (send_frame-outcome ws is_fin Opcode.close is_masking payload e) [
          | inl (_, ((_, st), (_, closed))) ↦
              closed ∙ ap (λ k. is_success k && true || ws.sent_close) (sym st ∙ ok)
          | inr (_, ((_, st), _)) ↦ absurd (cc (sym st ∙ ok))
        ])
