-- ===== src/WebSocket/Accept.antt =====
-- `ws_read_frame_length` and `ws_read_frame` of src/websocket.c where every check passes.
use bootstrap_agency_templat.Prelude.{
  ℕ, ◌+◌, ◌≡◌, refl, sym, ap, ap₂, ◌∙◌, inl, inr, Bool, true, false, not, ◌&&◌, Option, none, some,
  List, ◌∷◌, ◌++◌, append_assoc, ltb, ◌==◌, if◌then◌else◌, Bool-cases, length, take, drop,
  take-append_length, drop-append_length, take_seam, drop_seam,
}
use bootstrap_agency_templat.CharBuffer
use bootstrap_agency_templat.CharBuffer.{Cb, ensure_capacity}
use bootstrap_agency_templat.WebSocket.{Ws, Outside, utf8_accepts, top_bit, low_nibble, low_seven}
use bootstrap_agency_templat.WebSocket.{success}
use bootstrap_agency_templat.WebSocket.Opcode
use bootstrap_agency_templat.WebSocket.Frame.{
  apply_mask, mask_bytes, is_some, masked, extra_bytes, is_refused, mask_size, whole_length, ask,
  read_frame_length, any_nonzero, payload_length, Payload, read_payload, keep_payload, read_frame,
}
use bootstrap_agency_templat.WebSocket.Bytes.{apply_mask-zeros, apply_mask-twice, length-apply_mask}

-- `read_payload` from the mask on.
abbrev pub unpack : Bool → ℕ → List ℕ → Payload
unpack has_mask n after =
    let mask = take 4 after in
    let coded = if has_mask then drop 4 after else after in
    let is_masking = has_mask && any_nonzero mask in
    record {
      is_masking = is_masking;
      bytes = if is_masking then apply_mask mask 0 (take n coded) else take n coded;
      rest = drop n coded;
    }

pub unpack-masked :
    (mask : Option (List ℕ)) (payload rest : List ℕ)
    → length (mask_bytes mask) ≡ mask_size (is_some mask)
    → unpack (is_some mask) (length payload) ((mask_bytes mask ++ masked mask payload) ++ rest)
      ≡ record {
        is_masking = is_some mask && any_nonzero (mask_bytes mask);
        bytes = payload;
        rest = rest;
      }
unpack-masked none payload rest fits =
    rw (take-append_length payload rest, drop-append_length payload rest) refl
unpack-masked (some m) payload rest fits =
    let coded = apply_mask m 0 payload in
    let n : length payload ≡ length coded = sym (length-apply_mask m 0 payload) in
    rw
      (
        append_assoc m coded rest,
        take_seam 4 m (coded ++ rest) (sym fits),
        drop_seam 4 m (coded ++ rest) (sym fits),
        take_seam (length payload) coded rest n,
        drop_seam (length payload) coded rest n,
      )
      (elim (Bool-cases (any_nonzero m)) [
        | inl e ↦ rw (e, apply_mask-twice m 0 payload) refl
        | inr e ↦ rw (e, apply_mask-zeros m 0 payload e) refl
      ])

pub complete :
    (ws : Ws) (b0 b1 : ℕ) (s : List ℕ)
    → is_refused ws b0 b1 ≡ false
    → ltb (2 + length s) (2 + extra_bytes (low_seven b1)) ≡ false
    → read_frame_length ws (b0 ∷ b1 ∷ s) ≡ (ask ws 0 (whole_length b1 s), success)
unfolding read_frame_length
complete ws b0 b1 s e f = rw (e, f) refl

kept :
    {E : Type 0} (out : Outside E) (ws : Ws) (b0 len : ℕ) (s : List ℕ) (p : Payload) (buffer : Cb)
    → ((if low_nibble b0 == Opcode.continuation then ws.continued_opcode else low_nibble b0)
          == Opcode.text
        && not (utf8_accepts out.validate_utf8 0 p.bytes))
      ≡ false
    → keep_payload out (ask ws 0 len) b0 s p (true, buffer) ≡ record {
      ws = record ws {
        needed_length = 0;
        frame_length = len;
        payload = CharBuffer.append buffer p.bytes;
      };
      head = some (record {
        is_fin = top_bit b0;
        opcode =
            if low_nibble b0 == Opcode.continuation then ws.continued_opcode else low_nibble b0;
        is_masking = p.is_masking;
      });
      rest = p.rest;
    }
unfolding keep_payload
kept out ws b0 len s p buffer ev = rw ev refl

-- `read_frame` where every check passes, from what it reads.
pub accept :
    {E : Type 0} (out : Outside E) (ws : Ws) (b0 b1 len n : ℕ) (s : List ℕ) (p : Payload)
    (buffer : Cb)
    → read_payload b1 len s ≡ p
    → payload_length b1 len ≡ n
    → ensure_capacity out.alloc ws.payload n ≡ (true, buffer)
    → (len == 0) ≡ false
    → ltb (2 + length s) len ≡ false
    → ((if low_nibble b0 == Opcode.continuation then ws.continued_opcode else low_nibble b0)
          == Opcode.text
        && not (utf8_accepts out.validate_utf8 0 p.bytes))
      ≡ false
    → read_frame out (ask ws 0 len) (b0 ∷ b1 ∷ s) ≡ record {
      ws = record ws {
        needed_length = 0;
        frame_length = len;
        payload = CharBuffer.append buffer p.bytes;
      };
      head = some (record {
        is_fin = top_bit b0;
        opcode =
            if low_nibble b0 == Opcode.continuation then ws.continued_opcode else low_nibble b0;
        is_masking = p.is_masking;
      });
      rest = p.rest;
    }
unfolding read_frame keep_payload
accept out ws b0 b1 len n s p buffer ep en eb el es ev =
    rw (el, es)
      (ap₂ (keep_payload out (ask ws 0 len) b0 (b0 ∷ b1 ∷ s)) ep
          (ap (ensure_capacity out.alloc ws.payload) en ∙ eb)
        ∙ kept out ws b0 len (b0 ∷ b1 ∷ s) p buffer ev)
