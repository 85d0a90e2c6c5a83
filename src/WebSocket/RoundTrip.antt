-- ===== src/WebSocket/RoundTrip.antt =====
-- Reading back the frames of src/websocket.c: `ws_read_frame_length` and `ws_read_frame` on the
-- bytes that `ws_send_frame` writes.
use bootstrap_agency_templat.Prelude.{
  ℕ, ◌+◌, ◌^◌, ◌≤◌, ◌<◌, ◌≡◌, refl, ap, ap₂, ◌∙◌, Bool, true, false, not, ◌&&◌, Option, none, some,
  List, ◌∷◌, ◌++◌, append_assoc, arith, ltb, ◌==◌, if◌then◌else◌, ltb-false, ==_ne, length, drop,
  length-append, drop_seam,
}
use bootstrap_agency_templat.CharBuffer
use bootstrap_agency_templat.CharBuffer.{Cb, ensure_capacity}
use bootstrap_agency_templat.WebSocket.{Ws, Outside, utf8_accepts, top_bit, low_nibble, low_seven}
use bootstrap_agency_templat.WebSocket.{success}
use bootstrap_agency_templat.WebSocket.Opcode
use bootstrap_agency_templat.WebSocket.Frame.{
  length_bytes, length_code, write_length, flag, mask_bytes, is_some, masked, encode, extra_bytes,
  is_refused, mask_size, whole_length, ask, read_frame_length, any_nonzero, payload_length,
  read_payload, read_frame,
}
use bootstrap_agency_templat.WebSocket.Bytes.{
  length-apply_mask, length-write_length, top_bit-flag, low_seven-flag, low_nibble-flag,
  length_code_bound, extra_bytes-code, length_bytes-cases, length_bytes_bound, read-length_code,
}
use bootstrap_agency_templat.WebSocket.Accept.{unpack, unpack-masked, complete, accept}

module _ (is_fin : Bool) (opcode : ℕ) (mask : Option (List ℕ)) (payload rest : List ℕ)
    (small_opcode : opcode < 16) (small : length payload < 2 ^ 63)
    (mask_fits : length (mask_bytes mask) ≡ mask_size (is_some mask)) where
  abbrev b0 : ℕ
  b0 = flag is_fin + opcode

  abbrev b1 : ℕ
  b1 = flag (is_some mask) + length_code (length payload)

  -- what follows the extended length
  abbrev body : List ℕ
  body = mask_bytes mask ++ masked mask payload

  abbrev extended : List ℕ
  extended = write_length (length_bytes (length payload)) (length payload)

  length-masked : length (masked mask payload) ≡ length payload
  length-masked = elim mask as (λ k. length (masked k payload) ≡ length payload) [
    | none ↦ refl
    | some m ↦ length-apply_mask m 0 payload
  ]

  encode-parts : encode is_fin opcode mask payload ++ rest ≡ b0 ∷ b1 ∷ (extended ++ (body ++ rest))
  unfolding encode
  encode-parts =
      ap₂ (λ x xs. x ∷ b1 ∷ xs) (ap (λ x. flag is_fin + x) (omega arith))
        (append_assoc extended body rest)

  length-encode :
      length (encode is_fin opcode mask payload)
      ≡ 2 + length_bytes (length payload) + mask_size (is_some mask) + length payload
  unfolding encode
  length-encode = omega (
    arith,
    length-append extended body,
    length-append (mask_bytes mask) (masked mask payload),
    length-write_length (length_bytes (length payload)) (length payload),
    length-masked,
    mask_fits,
  )

  top_bit_1 : top_bit b1 ≡ is_some mask
  top_bit_1 =
      top_bit-flag (is_some mask) (length_code (length payload))
        (length_code_bound (length payload))

  low_seven_1 : low_seven b1 ≡ length_code (length payload)
  low_seven_1 =
      low_seven-flag (is_some mask) (length_code (length payload))
        (length_code_bound (length payload))

  extra_1 : extra_bytes (low_seven b1) ≡ length_bytes (length payload)
  extra_1 = ap extra_bytes low_seven_1 ∙ extra_bytes-code (length payload)

  bound : mask_size (is_some mask) ≤ 4
  bound = elim mask as (λ k. mask_size (is_some k) ≤ 4) [
    | none ↦ omega arith
    | some m ↦ omega arith
  ]

  whole_length-encode :
      whole_length b1 (extended ++ (body ++ rest)) ≡ length (encode is_fin opcode mask payload)
  unfolding whole_length
  whole_length-encode =
      rw
        (
          extra_1,
          low_seven_1,
          top_bit_1,
          read-length_code (length payload) (body ++ rest) (omega arith),
        )
        (omega (arith, length-encode, bound, length_bytes_bound (length payload)))

  waits : ltb (2 + length (extended ++ (body ++ rest))) (2 + extra_bytes (low_seven b1)) ≡ false
  waits = ltb-false (2 + length (extended ++ (body ++ rest))) (2 + extra_bytes (low_seven b1)) (
      omega (
        arith,
        extra_1,
        length-append extended (body ++ rest),
        length-write_length (length_bytes (length payload)) (length payload),
      ))

  pub read_frame_length-encode :
      (ws : Ws)
      → is_refused ws b0 b1 ≡ false
      → read_frame_length ws (encode is_fin opcode mask payload ++ rest)
        ≡ (ask ws 0 (length (encode is_fin opcode mask payload)), success)
  read_frame_length-encode ws accepted =
      ap (read_frame_length ws) encode-parts
      ∙ complete ws b0 b1 (extended ++ (body ++ rest)) accepted waits
      ∙ ap (λ n. (ask ws 0 n, success)) whole_length-encode

  payload_length-encode :
      payload_length b1 (length (encode is_fin opcode mask payload)) ≡ length payload
  payload_length-encode =
      rw (extra_1, top_bit_1, length-encode)
        (ground (arith, low_seven_1, length_bytes-cases (length payload), bound))

  abbrev after : List ℕ
  after = drop (extra_bytes (low_seven b1)) (extended ++ (body ++ rest))

  body_after : after ≡ body ++ rest
  body_after =
      drop_seam (extra_bytes (low_seven b1)) extended (body ++ rest) (
        omega
          (arith, extra_1, length-write_length (length_bytes (length payload)) (length payload)))

  read_payload-encode :
      read_payload b1 (length (encode is_fin opcode mask payload)) (extended ++ (body ++ rest))
      ≡ record {
        is_masking = is_some mask && any_nonzero (mask_bytes mask);
        bytes = payload;
        rest = rest;
      }
  unfolding read_payload
  read_payload-encode =
      ap (λ k. unpack (top_bit b1) k after) payload_length-encode
      ∙ ap₂ (λ t s. unpack t (length payload) s) top_bit_1 body_after
      ∙ unpack-masked mask payload rest mask_fits

  top_bit_0 : top_bit b0 ≡ is_fin
  top_bit_0 = top_bit-flag is_fin opcode (omega arith)

  low_nibble_0 : low_nibble b0 ≡ opcode
  low_nibble_0 = low_nibble-flag is_fin opcode small_opcode

  -- the opcode that the receiver reports
  abbrev meant : Ws → ℕ
  meant ws = if opcode == Opcode.continuation then ws.continued_opcode else opcode

  -- Reading a frame that `encode` wrote, before any bytes `rest`, with an opcode below 16, a payload
  -- shorter than 2^63 bytes and a mask of 4 bytes if there is one: if the receiver accepts the head,
  -- has room for the payload and finds no invalid UTF-8 in a text payload, then
  -- `ws_read_frame_length` gives the length of the frame and `ws_read_frame` appends the payload
  -- without its mask, reports the head, and leaves exactly `rest`.
  pub read_frame-encode :
      {E : Type 0} (out : Outside E) (ws : Ws) (buffer : Cb)
      → is_refused ws b0 b1 ≡ false
      → ensure_capacity out.alloc ws.payload (length payload) ≡ (true, buffer)
      → (meant ws == Opcode.text && not (utf8_accepts out.validate_utf8 0 payload)) ≡ false
      → (read_frame_length ws (encode is_fin opcode mask payload ++ rest)
          ≡ (ask ws 0 (length (encode is_fin opcode mask payload)), success))
        × (read_frame out
              (ask ws 0 (length (encode is_fin opcode mask payload)))
              (encode is_fin opcode mask payload ++ rest)
            ≡ record {
              ws = record ws {
                needed_length = 0;
                frame_length = length (encode is_fin opcode mask payload);
                payload = CharBuffer.append buffer payload;
              };
              head = some (record {
                is_fin = is_fin;
                opcode = meant ws;
                is_masking = is_some mask && any_nonzero (mask_bytes mask);
              });
              rest = rest;
            })
  read_frame-encode out ws buffer accepted fits valid = (
    read_frame_length-encode ws accepted,
    ap (read_frame out (ask ws 0 (length (encode is_fin opcode mask payload)))) encode-parts
        ∙ accept out ws b0 b1 (length (encode is_fin opcode mask payload)) (length payload)
            (extended ++ (body ++ rest))
            (record {
              is_masking = is_some mask && any_nonzero (mask_bytes mask);
              bytes = payload;
              rest = rest;
            })
            buffer read_payload-encode payload_length-encode fits
            (==_ne (length (encode is_fin opcode mask payload)) 0 (omega (arith, length-encode)))
            (ltb-false (2 + length (extended ++ (body ++ rest)))
              (length (encode is_fin opcode mask payload))
              (omega (
                arith,
                length-encode,
                length-append extended (body ++ rest),
                length-append body rest,
                length-append (mask_bytes mask) (masked mask payload),
                length-masked,
                mask_fits,
                length-write_length (length_bytes (length payload)) (length payload),
              )))
            (ap
                (λ k.
                  (if k == Opcode.continuation then ws.continued_opcode else k) == Opcode.text
                  && not (utf8_accepts out.validate_utf8 0 payload))
                low_nibble_0
              ∙ valid)
        ∙ rw (top_bit_0, low_nibble_0) refl,
  )
