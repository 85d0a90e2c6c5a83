-- ===== src/DeviceListener.antt =====
-- src/device_listener.c: the packets of usbmuxd, a length and a property list each, cut out of a byte
-- stream, and the table of the devices that are attached.
pub mod Packets
pub mod Stream
pub mod Chunks
pub mod Devices
pub mod Input
use bootstrap_agency_templat.Prelude.{
  ℕ, zero, suc, ◌+◌, ◌-◌, ◌*◌, ◌/◌, ◌%◌, ◌^◌, ◌≤◌, ◌<◌, min, max, ◌≡◌, refl, sym, ap, ap₂, ◌∙◌,
  subst, fun_ext, ◌≢◌, ◌↔◌, ◌⊎◌, inl, inr, Bool, true, false, not, ◌&&◌, ◌||◌, Option, none, some,
  List, [], ◌∷◌, ◌++◌, map, append-nil, append_assoc, arith, ltb, leb, ◌==◌, if◌then◌else◌, ltb→lt,
  lt→ltb, leb→le, le→leb, ltb-false, ==_iff, ==_refl, ==_ne, tests, Bool-cases, Option-cases,
  length, get_or, set, take, drop, replicate, length-append, length-set, length-take, length-drop,
  length-replicate, get_or-set_self, get_or-set_ne, take-append-drop, take-append_length,
  drop-append_length, take-append_le, drop-append_le, take_all, drop_all, drop-drop, take-nil,
  take_seam, drop_seam, drop-take, nil_of_length, bit_xor_twice, bit_xor-bits, bit_xor-halves,
}
use bootstrap_agency_templat.Libc.{codes, strcmp_equal}
use bootstrap_agency_templat.CharBuffer.{Cb, window, begin_input, end_input, advance}
use bootstrap_agency_templat.HashTable
use bootstrap_agency_templat.HashTable.{Table, put, remove}
use bootstrap_agency_templat.HashTable.Keys.{int_key}
use bootstrap_agency_templat.Plist.{Plist, string_of, uint_of}

abbrev pub type_plist : ℕ
type_plist = 8

-- `dl_status`
pub data Status : Type 0 where
  success error : Status

-- `struct dl_private`, without the buffer `in`
pub record Dl : Type 0 where
  pub device_num_to_device_id : Table ℕ (List ℕ)
  pub has_length : Bool
  pub body_length : ℕ

-- The callbacks, over a state of their own; a device number is an `int`, as a 32-bit pattern.
pub record Callbacks (E : Type 0) : Type 0 where
  pub on_attach : Option (List ℕ) → ℕ → E → E × Status
  pub on_detach : List ℕ → ℕ → E → E × Status

unfoldable pub new : Dl
unfolding HashTable.new
new = record { device_num_to_device_id = HashTable.new; has_length = false; body_length = 0 }

-- the loop of `dl_sprintf_uint32`, from byte `i` on
unfoldable pub write_bytes : ℕ → ℕ → ℕ → List ℕ
write_bytes zero i value = []
write_bytes (suc k) i value = (value / 2 ^ (8 * i) % 256) ∷ write_bytes k (suc i) value

unfoldable pub sprintf_uint32 : ℕ → List ℕ
unfolding write_bytes
sprintf_uint32 value = write_bytes 4 0 value

-- the loop of `dl_sscanf_uint32`; its bytes do not overlap
unfoldable pub read_bytes : ℕ → ℕ → List ℕ → ℕ
read_bytes zero i s = 0
read_bytes (suc k) i [] = 0
read_bytes (suc k) i (b ∷ s) = b % 256 * 2 ^ (8 * i) + read_bytes k (suc i) s

unfoldable pub sscanf_uint32 : List ℕ → ℕ
unfolding read_bytes
sscanf_uint32 s = read_bytes 4 0 s

-- the packet that `dl_start` sends, around the text of its property list
unfoldable pub listen_packet : List ℕ → List ℕ
unfolding sprintf_uint32
listen_packet xml =
    sprintf_uint32 (16 + length xml)
    ++ (sprintf_uint32 1 ++ (sprintf_uint32 type_plist ++ (sprintf_uint32 1 ++ xml)))

-- a serial number of 24 characters is given a dash behind the eighth
unfoldable pub dashed : List ℕ → List ℕ
dashed device_id =
    if length device_id == 24 then take 8 device_id ++ (b'-' ∷ drop 8 device_id) else device_id

-- What `dl_recv_packet` leaves.
pub record Received (E : Type 0) : Type 0 where
  pub dl : Dl
  pub outside : E
  pub status : Status

module _ {N E : Type 0} (plist : Plist N) (calls : Callbacks E) where
  -- the branch of `Attached`, on the properties of the device
  unfoldable pub attach : Dl → E → N → Received E
  unfolding dashed put
  attach dl e props =
      let device_num = uint_of plist (plist.get_item props (codes "DeviceID")) in
      let device_id : Option (List ℕ) =
        elim (string_of plist (plist.get_item props (codes "SerialNumber"))) [
          | none ↦ none
          | some s ↦ some (dashed s)
        ] in
      let (devices, _) = put dl.device_num_to_device_id device_num device_id in
      let (e', status) = calls.on_attach device_id (device_num % 2 ^ 32) e in
      record { dl = record dl { device_num_to_device_id = devices }; outside = e'; status = status }

  -- the branch of `Detached`, on the node of the device number
  unfoldable pub detach : Dl → E → N → Received E
  unfolding remove
  detach dl e node =
      let device_num = uint_of plist (some node) in
      let (devices, device_id) = remove dl.device_num_to_device_id device_num in
      let dl' = record dl { device_num_to_device_id = devices } in
      elim device_id [
        | none ↦ record { dl = dl'; outside = e; status = error }
        | some id ↦
            let (e', status) = calls.on_detach id (device_num % 2 ^ 32) e in
            record { dl = dl'; outside = e'; status = status }
      ]

  -- the chain of `strcmp` tests on the message type
  unfoldable pub dispatch : Dl → E → N → List ℕ → Received E
  unfolding attach detach strcmp_equal
  dispatch dl e dict message =
      let failed : Received E = record { dl = dl; outside = e; status = error } in
      if strcmp_equal message (codes "Result")
      then elim (plist.get_item dict (codes "Number")) [
        | none ↦ failed
        | some node ↦ record {
          dl = dl;
          outside = e;
          status = if uint_of plist (some node) == 0 then success else error;
        }
      ]
      else if strcmp_equal message (codes "Attached")
      then elim (plist.get_item dict (codes "Properties")) [
        | none ↦ failed
        | some props ↦ attach dl e props
      ]
      else if strcmp_equal message (codes "Detached")
      then elim (plist.get_item dict (codes "DeviceID")) [
        | none ↦ failed
        | some node ↦ detach dl e node
      ]
      else failed

  -- `dl_recv_packet`
  unfoldable pub recv_packet : Dl → E → List ℕ → ℕ → Received E
  unfolding sscanf_uint32 dispatch
  recv_packet dl e packet n =
      let len = sscanf_uint32 packet in
      let version = sscanf_uint32 (drop 4 packet) in
      let kind = sscanf_uint32 (drop 8 packet) in
      if not (len == n) || ltb len 16
      then record { dl = dl; outside = e; status = error }
      else if not (version == 1) || not (kind == type_plist)
      then record { dl = dl; outside = e; status = success }
      else elim (plist.from_xml (take (n - 16) (drop 16 packet))) [
        | none ↦ record { dl = dl; outside = e; status = error }
        | some dict ↦ elim (string_of plist (plist.get_item dict (codes "MessageType"))) [
          | none ↦ record { dl = dl; outside = e; status = error }
          | some message ↦ dispatch dl e dict message
        ]
      ]

  -- The loop is over: what it leaves.
  pub record Done : Type 0 where
    pub dl : Dl
    pub outside : E
    pub left : List ℕ
    pub status : Status

  -- `dl_recv_loop` on fuel; `none` says that the fuel is used up. A packet is its `body_length` bytes:
  -- one that is shorter than its own length field is refused whatever follows it.
  unfoldable pub recv_loop : ℕ → Dl → E → List ℕ → Option Done
  unfolding recv_packet
  recv_loop zero dl e w = none
  recv_loop (suc fuel) dl e w = elim (not dl.has_length && leb 4 (length w)) [
    | true ↦ recv_loop fuel (record dl { has_length = true; body_length = sscanf_uint32 w }) e w
    | false ↦ elim (dl.has_length && leb dl.body_length (length w)) [
      | true ↦
          let r = recv_packet dl e (take dl.body_length w) dl.body_length in
          let dl' = record (r.dl) { has_length = false; body_length = 0 } in
          elim r.status [
            | success ↦ recv_loop fuel dl' r.outside (drop dl.body_length w)
            | error ↦ some (record {
              dl = dl';
              outside = r.outside;
              left = drop dl.body_length w;
              status = error;
            })
          ]
      | false ↦ some (record { dl = dl; outside = e; left = w; status = success })
    ]
  ]

  -- turns enough for a window, see `Stream`
  abbrev pub enough : List ℕ → ℕ
  enough w = 2 * length w + 2

  pub record Heard : Type 0 where
    pub input : Cb
    pub dl : Dl
    pub outside : E
    pub status : Status

  -- `dl_on_recv`; the bytes are `none` for a negative length
  unfoldable pub on_recv : (ℕ → Bool) → Cb → Dl → E → Option (List ℕ) → Heard
  unfolding begin_input end_input advance recv_loop
  on_recv alloc cb dl e none = record { input = cb; dl = dl; outside = e; status = error }
  on_recv alloc cb dl e (some []) = record { input = cb; dl = dl; outside = e; status = success }
  on_recv alloc cb dl e (some (b ∷ buf)) =
      let (began, opened) = begin_input alloc cb (some (b ∷ buf)) in
      let w = window (b ∷ buf) opened in
      elim began [
        | false ↦ record { input = opened; dl = dl; outside = e; status = error }
        | true ↦ elim (recv_loop (enough w) dl e w) [
          | none ↦ record { input = opened; dl = dl; outside = e; status = error }
          | some done ↦
              let (ended, closed) =
                end_input alloc (advance (length w - length done.left) opened) (b ∷ buf) in
              record {
                input = closed;
                dl = done.dl;
                outside = done.outside;
                status = elim ended [ true ↦ done.status | false ↦ error ];
              }
        ]
      ]
