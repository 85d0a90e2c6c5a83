-- ===== src/Proxy/Listen.antt =====
-- `iwdp_listen` of src/ios_webkit_debug_proxy.c: the port on which a device is offered to browsers.
-- Descriptors and ports are 32-bit patterns; a `select_port` that is null is one that leaves the port
-- and gives -1 twice.
use bootstrap_agency_templat.Prelude.{
  ℕ, zero, suc, ◌+◌, ◌-◌, Bool, false, not, ◌&&◌, ◌||◌, Option, none, some, List, [], ◌∷◌, ◌==◌,
  if◌then◌else◌,
}
use bootstrap_agency_templat.HashTable.Keys.{strcmp_equal}
use bootstrap_agency_templat.PortConfig.{negative_one, less}
use bootstrap_agency_templat.Rpc.{Status, success, error}
use bootstrap_agency_templat.Proxy.{Iport}

-- What the operation calls, over a state of its own.
pub record Net (E : Type 0) : Type 0 where
  -- port, min_port and max_port; `none` where it fails
  pub select_port : Option (List ℕ) → ℕ → E → E × Option (ℕ × ℕ × ℕ)
  pub listen : ℕ → E → E × ℕ
  pub add_fd : ℕ → E → E × Status

-- `device_id_to_iport`
unfoldable pub find_iport : Option (List ℕ) → List Iport → Option Iport
find_iport device_id [] = none
find_iport device_id (iport ∷ iports) =
    if strcmp_equal iport.device_id device_id then some iport else find_iport device_id iports

unfoldable pub update_iport : Option (List ℕ) → (Iport → Iport) → List Iport → List Iport
update_iport device_id f [] = []
update_iport device_id f (iport ∷ iports) =
    if strcmp_equal iport.device_id device_id
    then f iport ∷ iports
    else iport ∷ update_iport device_id f iports

-- `iwdp_iport_new`, with its device
abbrev pub new_iport : Option (List ℕ) → Iport
new_iport device_id = record {
  port = 0;
  s_fd = 0;
  is_sticky = false;
  ws_id_to_iws = λ id. none;
  clients = λ w. none;
  device_id = device_id;
  device_name = none;
  device_os_version = 0;
  iwi = none;
  pages = [];
}

-- `is_taken`
unfoldable pub is_taken : ℕ → List Iport → Bool
is_taken p [] = false
is_taken p (iport ∷ iports) = iport.port == p || is_taken p iports

-- `s_fd` and `port` after the attempts to listen
pub record Bound (E : Type 0) : Type 0 where
  pub outside : E
  pub s_fd : ℕ
  pub port : ℕ

-- nothing is to be chosen from
abbrev pub is_ignored : ℕ → ℕ → ℕ → Bool
is_ignored port min_port max_port = less port 0 && (less min_port 0 || less max_port min_port)

-- the range is tried
abbrev pub wants_range : ℕ → ℕ → ℕ → Bool
wants_range s_fd min_port max_port =
    less s_fd 0 && (less 0 min_port && not (less max_port min_port))

-- the table with a port for the device
unfoldable pub with_iport : Option (List ℕ) → List Iport → List Iport
with_iport device_id iports = elim (find_iport device_id iports) [
  | some _ ↦ iports
  | none ↦ new_iport device_id ∷ iports
]

module _ {E : Type 0} (net : Net E) where
  -- the loop over the ports from `p` on, of which `count` are left
  unfoldable pub scan : List Iport → ℕ → ℕ → ℕ → ℕ → E → Bound E
  scan iports port zero p s_fd e = record { outside = e; s_fd = s_fd; port = port }
  scan iports port (suc count) p s_fd e =
      let tried = net.listen p e in
      let skips = is_taken p iports || p == port in
      let next : E × ℕ = if skips then (e, s_fd) else tried in
      let rest = scan iports port count (p + 1) next.1 next.0 in
      if not skips && less 0 tried.1
      then record { outside = tried.0; s_fd = tried.1; port = p }
      else rest

  -- the attempt at the port that was selected
  unfoldable pub first_try : ℕ → E → E × ℕ
  first_try port e = if less 0 port then net.listen port e else (e, negative_one)

  -- both attempts: the port that was selected, and the range
  unfoldable pub bind : List Iport → ℕ → ℕ → ℕ → E → Bound E
  bind iports port min_port max_port e =
      let first = first_try port e in
      if wants_range first.1 min_port max_port
      then scan iports port (max_port + 1 - min_port) min_port first.1 first.0
      else record { outside = first.0; s_fd = first.1; port = port }

  -- the end of `iwdp_listen`: the descriptor is registered, and the device has it
  unfoldable pub settle : Option (List ℕ) → List Iport → Bound E → List Iport × E × Status
  settle device_id iports bound =
      let added = net.add_fd bound.s_fd bound.outside in
      if less bound.s_fd 0 then (iports, bound.outside, error) else elim added.1 [
        | error ↦ (iports, added.0, error)
        | success ↦ (
          update_iport device_id (λ iport. record iport { s_fd = bound.s_fd; port = bound.port })
              iports,
          added.0,
          success,
        )
      ]

  -- `iwdp_listen`
  unfoldable pub listen : Option (List ℕ) → List Iport → E → List Iport × E × Status
  listen device_id iports e =
      let old = find_iport device_id iports in
      let is_open : Bool = elim old [ none ↦ false | some iport ↦ less 0 iport.s_fd ] in
      let old_port : ℕ = elim old [ none ↦ negative_one | some iport ↦ iport.port ] in
      let ignored : Status = elim device_id [ none ↦ success | some _ ↦ error ] in
      let selected = net.select_port device_id old_port e in
      if is_open then (iports, e, error) else elim selected.1 [
        | none ↦ (iports, selected.0, ignored)
        | some (port, min_port, max_port) ↦
            let iports' = with_iport device_id iports in
            if is_ignored port min_port max_port
            then (iports, selected.0, ignored)
            else settle device_id iports' (bind iports' port min_port max_port selected.0)
      ]
