-- ===== src/WebSocket/Frame.antt =====
-- The layout of a frame in src/websocket.c: the bytes that `ws_send_frame` writes, and how
-- `ws_read_frame_length` and `ws_read_frame` read them.
use bootstrap_agency_templat.Prelude.{
  ℕ, zero, suc, ◌+◌, ◌-◌, ◌*◌, ◌/◌, ◌%◌, ◌^◌, Bool, true, false, not, ◌&&◌, ◌||◌, Option, none,
  some, List, [], ◌∷◌, ◌++◌, length, get_or, take, drop, ltb, ◌==◌, if◌then◌else◌,
}
use Prim.Native.Nat.{bit_xor}
use bootstrap_agency_templat.CharBuffer
use bootstrap_agency_templat.CharBuffer.{Cb, ensure_capacity}
use bootstrap_agency_templat.WebSocket.{
  Ws, Status, success, failure, is_known, is_control, utf8_accepts, top_bit, reserved_bits,
  low_nibble, low_seven, Outside,
}
use bootstrap_agency_templat.WebSocket.Opcode

-- `payload_n` of the sender: the number of bytes of an extended length
unfoldable pub length_bytes : ℕ → ℕ
length_bytes n = if ltb n 126 then 0 else if ltb n 65535 then 2 else 8

-- the seven bits of the second byte
unfoldable pub length_code : ℕ → ℕ
unfolding length_bytes
length_code n = if length_bytes n == 0 then n else if length_bytes n == 2 then 126 else 127

-- the loop `for (j = payload_n - 1; j >= 0; j--)`
unfoldable pub write_length : ℕ → ℕ → List ℕ
write_length zero n = []
write_length (suc j) n = (n / 2 ^ (8 * j) % 256) ∷ write_length j n

-- `ch ^ mask[mask_offset++ & 3]` over a payload
unfoldable pub apply_mask : List ℕ → ℕ → List ℕ → List ℕ
apply_mask mask offset [] = []
apply_mask mask offset (ch ∷ s) =
    bit_xor ch (get_or mask (offset % 4) 0) ∷ apply_mask mask ((offset + 1) % 2 ^ 32) s

abbrev pub flag : Bool → ℕ
flag b = if b then 0x80 else 0

abbrev pub mask_bytes : Option (List ℕ) → List ℕ
mask_bytes none = []
mask_bytes (some m) = m

abbrev pub is_some : Option (List ℕ) → Bool
is_some none = false
is_some (some m) = true

abbrev pub masked : Option (List ℕ) → List ℕ → List ℕ
masked none payload = payload
masked (some m) payload = apply_mask m 0 payload

-- all the bytes of a frame; a mask is given if the frame is masked
unfoldable pub encode : Bool → ℕ → Option (List ℕ) → List ℕ → List ℕ
unfolding length_bytes length_code write_length apply_mask
encode is_fin opcode mask payload =
    (flag is_fin + low_nibble opcode)
    ∷ (flag (is_some mask) + length_code (length payload))
    ∷ (write_length (length_bytes (length payload)) (length payload)
        ++ (mask_bytes mask ++ masked mask payload))

-- `payload_n` of the reader, from the seven bits
unfoldable pub extra_bytes : ℕ → ℕ
extra_bytes code = if ltb code 126 then 0 else if ltb code 127 then 2 else 8

-- `payload_length <<= 8; payload_length |= *in_head++`
unfoldable pub read_length : ℕ → List ℕ → ℕ → ℕ
read_length zero s n = n
read_length (suc j) [] n = n
read_length (suc j) (b ∷ s) n = read_length j s (n * 256 % 2 ^ 64 + b)

-- the checks of the two head bytes, `true` where the frame is refused
unfoldable pub is_refused : Ws → ℕ → ℕ → Bool
is_refused ws b0 b1 =
    let opcode = low_nibble b0 in
    not (reserved_bits b0 == 0)
    || not (is_known opcode)
    || (is_control opcode && not (top_bit b0))
    || (if opcode == Opcode.continuation
        then ws.continued_opcode == 0
        else not (is_control opcode) && not (ws.continued_opcode == 0))
    || (is_control opcode && ltb 125 (low_seven b1))

abbrev pub mask_size : Bool → ℕ
mask_size b = if b then 4 else 0

-- the length of the whole frame, from the second byte and what follows it
unfoldable pub whole_length : ℕ → List ℕ → ℕ
unfolding extra_bytes read_length
whole_length b1 rest =
    let n = extra_bytes (low_seven b1) in
    let payload_length = if n == 0 then low_seven b1 else read_length n rest 0 in
    (2 + n + mask_size (top_bit b1) + payload_length) % 2 ^ 64

abbrev pub ask : Ws → ℕ → ℕ → Ws
ask ws needed whole = record ws { needed_length = needed; frame_length = whole }

-- `ws_read_frame_length`; it consumes nothing
unfoldable pub read_frame_length : Ws → List ℕ → Ws × Status
unfolding is_refused whole_length
read_frame_length ws [] = (ask ws 2 0, success)
read_frame_length ws (b0 ∷ []) = (ask ws 2 0, success)
read_frame_length ws (b0 ∷ b1 ∷ rest) =
    let n = extra_bytes (low_seven b1) in
    if is_refused ws b0 b1
    then (ask ws 0 0, failure)
    else (if ltb (2 + length rest) (2 + n)
        then (ask ws (2 + n) 0, success)
        else (ask ws 0 (whole_length b1 rest), success))

-- what `ws_read_frame` gives back through its pointers
pub record Head : Type 0 where
  pub is_fin : Bool
  pub opcode : ℕ
  pub is_masking : Bool

-- a mask of zeros counts as none
unfoldable pub any_nonzero : List ℕ → Bool
any_nonzero [] = false
any_nonzero (b ∷ m) = not (b == 0) || any_nonzero m

-- the length of the payload, and where it begins
abbrev pub payload_length : ℕ → ℕ → ℕ
payload_length b1 whole =
    let n = extra_bytes (low_seven b1) in
    if n == 0 then low_seven b1 else (whole + (2 ^ 64 - (2 + mask_size (top_bit b1) + n))) % 2 ^ 64

pub record Payload : Type 0 where
  pub is_masking : Bool
  pub bytes : List ℕ
  pub rest : List ℕ

-- the bytes after the two head bytes
unfoldable pub read_payload : ℕ → ℕ → List ℕ → Payload
unfolding extra_bytes any_nonzero apply_mask
read_payload b1 whole s =
    let n = payload_length b1 whole in
    let after = drop (extra_bytes (low_seven b1)) s in
    let mask = take 4 after in
    let coded = if top_bit b1 then drop 4 after else after in
    let is_masking = top_bit b1 && any_nonzero mask in
    record {
      is_masking = is_masking;
      bytes = if is_masking then apply_mask mask 0 (take n coded) else take n coded;
      rest = drop n coded;
    }

-- The result of `ws_read_frame`: the state, the head where it succeeds, and the bytes that are left.
pub record FrameResult : Type 0 where
  pub ws : Ws
  pub head : Option Head
  pub rest : List ℕ

-- `ws_read_frame` once the frame is complete: the buffer is asked for room, the payload written to
-- it and checked. A payload that is refused is consumed, but not kept.
unfoldable pub keep_payload :
    {E : Type 0} → Outside E → Ws → ℕ → List ℕ → Payload → Bool × Cb → FrameResult
keep_payload out ws b0 s p (fits, buffer) =
    let opcode = low_nibble b0 in
    let opcode2 = if opcode == Opcode.continuation then ws.continued_opcode else opcode in
    let filled = CharBuffer.append buffer p.bytes in
    if not fits
    then record { ws = record ws { payload = buffer }; head = none; rest = s }
    else (if opcode2 == Opcode.text && not (utf8_accepts out.validate_utf8 0 p.bytes)
        then record {
          ws = record ws { payload = record filled { tail = buffer.tail } };
          head = none;
          rest = p.rest;
        }
        else record {
          ws = record ws { payload = filled };
          head = some (record { is_fin = top_bit b0; opcode = opcode2; is_masking = p.is_masking });
          rest = p.rest;
        })

unfoldable pub read_frame : {E : Type 0} → Outside E → Ws → List ℕ → FrameResult
unfolding read_payload keep_payload
read_frame out ws [] = record { ws = ws; head = none; rest = [] }
read_frame out ws (b0 ∷ []) = record { ws = ws; head = none; rest = b0 ∷ [] }
read_frame out ws (b0 ∷ b1 ∷ s) =
    if not (ws.needed_length == 0) || ws.frame_length == 0 || ltb (2 + length s) ws.frame_length
    then record { ws = ws; head = none; rest = b0 ∷ b1 ∷ s }
    else keep_payload out ws b0 (b0 ∷ b1 ∷ s) (read_payload b1 ws.frame_length s)
        (ensure_capacity out.alloc ws.payload (payload_length b1 ws.frame_length))
