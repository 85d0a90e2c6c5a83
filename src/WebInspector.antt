-- ===== src/WebInspector.antt =====
-- src/webinspector.c: messages to and from the web inspector, each a property list behind its length.
-- A message that is too long for the inspector is sent in parts, and put together again.
pub mod Loop
pub mod Reassembly
pub mod Pipe
pub mod Progress
use bootstrap_agency_templat.Prelude.{
  ℕ, zero, suc, ◌+◌, ◌-◌, ◌*◌, ◌/◌, ◌%◌, ◌^◌, ◌≤◌, ◌<◌, min, max, ◌≡◌, refl, sym, ap, ap₂, ◌∙◌,
  subst, fun_ext, ◌≢◌, ◌↔◌, ◌⊎◌, inl, inr, Bool, true, false, not, ◌&&◌, ◌||◌, Option, none, some,
  List, [], ◌∷◌, ◌++◌, map, append-nil, append_assoc, arith, ltb, leb, ◌==◌, if◌then◌else◌, ltb→lt,
  lt→ltb, leb→le, le→leb, ltb-false, ==_iff, ==_refl, ==_ne, tests, Bool-cases, Option-cases,
  length, get_or, set, take, drop, replicate, length-append, length-set, length-take, length-drop,
  length-replicate, get_or-set_self, get_or-set_ne, take-append-drop, take-append_length,
  drop-append_length, take-append_le, drop-append_le, take_all, drop_all, drop-drop, take-nil,
  take_seam, drop_seam, drop-take, nil_of_length, bit_xor_twice, bit_xor-bits, bit_xor-halves,
}
use bootstrap_agency_templat.Libc.{codes}
use bootstrap_agency_templat.CharBuffer
use bootstrap_agency_templat.CharBuffer.{
  Cb, memory, slice, ensure_capacity, append, window, begin_input, end_input, advance,
}

abbrev pub max_rpc_len : ℕ
max_rpc_len = 8096 - 500

abbrev pub max_body_length : ℕ
max_body_length = 2 ^ 26

-- `wi_status`
pub data Status : Type 0 where
  success error : Status

-- `struct wi_private`, without the buffer `in`
pub record Wi : Type 0 where
  pub partials_supported : Bool
  pub partial : Cb
  pub has_length : Bool
  pub body_length : ℕ

-- What the source asks of libplist, over a type of nodes.
pub record Plist (N : Type 0) : Type 0 where
  -- `plist_to_bin`; `none` where it leaves the text null
  pub to_bin : N → Option (List ℕ)
  -- `plist_from_bin`; `none` where it leaves the node null
  pub from_bin : List ℕ → Option N
  -- `plist_dict_get_item`
  pub get_item : N → List ℕ → Option N
  -- `plist_get_data_val`; `none` where it leaves the data null
  pub data_val : N → Option (List ℕ)
  -- a dictionary with one key, whose value is data
  pub dict_of : List ℕ → List ℕ → N

abbrev pub partial_key : List ℕ
partial_key = codes "WIRPartialMessageKey"

abbrev pub final_key : List ℕ
final_key = codes "WIRFinalMessageKey"

-- the big-endian length in front of a packet
unfoldable pub length_prefix : ℕ → List ℕ
length_prefix n = (n / 2 ^ 24 % 256) ∷ (n / 2 ^ 16 % 256) ∷ (n / 2 ^ 8 % 256) ∷ (n % 256) ∷ []

-- The four bytes as an `int`, converted to a `size_t`; `none` where there are fewer.
unfoldable pub read_int : List ℕ → Option ℕ
read_int (a ∷ b ∷ c ∷ d ∷ s) =
    let n = a % 256 * 2 ^ 24 + b % 256 * 2 ^ 16 + c % 256 * 2 ^ 8 + d % 256 in
    some (if ltb n (2 ^ 31) then n else n + (2 ^ 64 - 2 ^ 32))
read_int _ = none

-- `wi_parse_length`; `none` is its error
unfoldable pub parse_length : List ℕ → Option ℕ
unfolding read_int
parse_length s = elim (read_int s) [
  | none ↦ none
  | some n ↦ if ltb max_body_length n then none else some n
]

unfoldable pub new : Bool → Wi
unfolding CharBuffer.new
new partials_supported = record {
  partials_supported = partials_supported;
  partial = CharBuffer.new;
  has_length = false;
  body_length = 0;
}

-- What the sender leaves.
pub record Sent (E : Type 0) : Type 0 where
  pub outside : E
  pub status : Status

-- What `wi_parse_plist` leaves.
pub record Parsed (N : Type 0) : Type 0 where
  pub wi : Wi
  pub dict : Option N
  pub is_partial : Bool
  pub status : Status

-- What `wi_recv_packet` leaves.
pub record Received (E : Type 0) : Type 0 where
  pub wi : Wi
  pub outside : E
  pub status : Status

module _ {N : Type 0} (plist : Plist N) (alloc : ℕ → Bool) where
  -- the bytes of one packet: all of the message, or the next part of it in a dictionary
  unfoldable pub packet_data : Bool → Bool → List ℕ → Option (List ℕ)
  packet_data false is_partial rest = some rest
  packet_data true is_partial rest = plist.to_bin (
      plist.dict_of (if is_partial then partial_key else final_key)
        (if is_partial then take max_rpc_len rest else rest))

  -- the loop of `wi_send_plist` on fuel, from the bytes that are not yet sent; `none` says that the
  -- fuel is used up
  unfoldable pub send_loop :
      {E : Type 0} → ℕ → Bool → (List ℕ → E → E × Status) → List ℕ → E → Option (Sent E)
  unfolding length_prefix packet_data
  send_loop zero partials send_packet rest e = none
  send_loop (suc fuel) partials send_packet rest e =
      let is_partial = partials && ltb max_rpc_len (length rest) in
      elim (packet_data partials is_partial rest) [
        | none ↦ some (record { outside = e; status = error })
        | some bytes ↦ elim (alloc (length bytes + 4)) [
          | false ↦ some (record { outside = e; status = error })
          | true ↦
              let (e', status) = send_packet (length_prefix (length bytes) ++ bytes) e in
              elim status [
                | error ↦ some (record { outside = e'; status = error })
                | success ↦ elim is_partial [
                  | false ↦ some (record { outside = e'; status = success })
                  | true ↦ send_loop fuel partials send_packet (drop max_rpc_len rest) e'
                ]
              ]
        ]
      ]

  abbrev failed : Wi → Bool → Parsed N
  failed wi is_partial = record { wi = wi; dict = none; is_partial = is_partial; status = error }

  -- the end of `wi_parse_plist`, on the bytes of a message
  unfoldable pub decoded : Wi → List ℕ → Parsed N
  decoded wi bytes = elim (plist.from_bin bytes) [
    | none ↦ failed wi false
    | some dict ↦ record { wi = wi; dict = some dict; is_partial = false; status = success }
  ]

  -- a part of a message, behind those that are kept
  unfoldable pub receive_part : Wi → Bool → List ℕ → Parsed N
  unfolding decoded
  receive_part wi is_partial rpc =
      let p_length = (wi.partial).tail - (wi.partial).head in
      let (fits, buffer) = ensure_capacity alloc wi.partial (length rpc) in
      let filled = append buffer rpc in
      if is_partial || not (p_length == 0)
      then (if not fits
          then failed (record wi { partial = buffer }) is_partial
          else (if is_partial
              then record {
                wi = record wi { partial = filled };
                dict = none;
                is_partial = true;
                status = success;
              }
              else decoded (record wi { partial = CharBuffer.clear filled })
                  (slice filled.head ((p_length + length rpc) % 2 ^ 32) (memory filled))))
      else decoded wi rpc

  -- the data of a part, and whether more of them follow
  unfoldable pub part_of : N → Option (Bool × N)
  part_of dict = elim (plist.get_item dict final_key) [
    | some node ↦ some (false, node)
    | none ↦ elim (plist.get_item dict partial_key) [ some node ↦ some (true, node) | none ↦ none ]
  ]

  -- `wi_parse_plist`
  unfoldable pub parse_plist : Wi → List ℕ → Parsed N
  unfolding receive_part part_of
  parse_plist wi bytes =
      if not wi.partials_supported then decoded wi bytes else elim (plist.from_bin bytes) [
        | none ↦ failed wi false
        | some dict ↦ elim (part_of dict) [
          | none ↦ failed wi false
          | some (is_partial, node) ↦ elim (plist.data_val node) [
            | none ↦ failed wi is_partial
            | some rpc ↦ receive_part wi is_partial rpc
          ]
        ]
      ]

  -- the end of `wi_recv_packet`: a whole message goes to the callback
  unfoldable pub deliver : {E : Type 0} → (N → E → E × Status) → E → Parsed N → Received E
  deliver recv_plist e p = elim p.status [
    | error ↦ record { wi = p.wi; outside = e; status = error }
    | success ↦ elim p.dict [
      | none ↦ record { wi = p.wi; outside = e; status = success }
      | some dict ↦
          let (e', status) = recv_plist dict e in
          record { wi = p.wi; outside = e'; status = status }
    ]
  ]

  -- `wi_recv_packet`, with the callback `recv_plist`
  unfoldable pub recv_packet : {E : Type 0} → (N → E → E × Status) → Wi → E → List ℕ → Received E
  unfolding parse_plist parse_length deliver
  recv_packet recv_plist wi e packet = elim (parse_length packet) [
    | none ↦ record { wi = wi; outside = e; status = error }
    | some body_length ↦ deliver recv_plist e (parse_plist wi (take body_length (drop 4 packet)))
  ]

  -- `wi_send_plist`
  unfoldable pub send_plist :
      {E : Type 0} → Bool → (List ℕ → E → E × Status) → N → E → Option (Sent E)
  unfolding send_loop
  send_plist partials send_packet rpc_dict e =
      let rpc_bin : List ℕ = elim (plist.to_bin rpc_dict) [ none ↦ [] | some bytes ↦ bytes ] in
      send_loop (suc (length rpc_bin)) partials send_packet rpc_bin e
