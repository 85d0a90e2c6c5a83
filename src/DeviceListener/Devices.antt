-- ===== src/DeviceListener/Devices.antt =====
-- The table of attached devices in src/device_listener.c, over the laws of the hash table.
use bootstrap_agency_templat.Prelude.{
  ℕ, ◌%◌, ◌^◌, ◌≡◌, refl, sym, ◌∙◌, subst, inl, inr, Option, none, some, List, ◌==◌, if◌then◌else◌,
  ==_refl, Bool-cases,
}
use bootstrap_agency_templat.Libc.{codes}
use bootstrap_agency_templat.Plist.{Plist, string_of, uint_of}
use bootstrap_agency_templat.HashTable.{put, remove}
use bootstrap_agency_templat.HashTable.Keys.{int_key}
use bootstrap_agency_templat.HashTable.Buckets.{IsValid, view}
use bootstrap_agency_templat.HashTable.Laws.{put-Writes, remove-Writes}
use bootstrap_agency_templat.DeviceListener.{Dl, Callbacks, dashed, attach, detach}

module _ {N E : Type 0} (plist : Plist N) (calls : Callbacks E) where
  abbrev pub num_of : N → ℕ
  num_of props = uint_of plist (plist.get_item props (codes "DeviceID"))

  abbrev pub serial_of : N → Option (List ℕ)
  serial_of props = string_of plist (plist.get_item props (codes "SerialNumber"))

  attach_lem :
      (dl : Dl) (e : E) (props : N) (serial : List ℕ)
      → serial_of props ≡ some serial
      → attach plist calls dl e props ≡ record {
        dl = record dl {
          device_num_to_device_id =
              (put dl.device_num_to_device_id (num_of props) (some (dashed serial))).0;
        };
        outside = (calls.on_attach (some (dashed serial)) (num_of props % 2 ^ 32) e).0;
        status = (calls.on_attach (some (dashed serial)) (num_of props % 2 ^ 32) e).1;
      }
  unfolding attach
  attach_lem dl e props serial h = rw (h, attach) refl

  -- the table, the state outside and the status after a device was attached and another message
  -- detached its number
  detach_lem :
      (dl : Dl) (e : E) (node : N) (id : List ℕ)
      → (remove dl.device_num_to_device_id (uint_of plist (some node))).1 ≡ some id
      → detach plist calls dl e node ≡ record {
        dl = record dl {
          device_num_to_device_id =
              (remove dl.device_num_to_device_id (uint_of plist (some node))).0;
        };
        outside = (calls.on_detach id (uint_of plist (some node) % 2 ^ 32) e).0;
        status = (calls.on_detach id (uint_of plist (some node) % 2 ^ 32) e).1;
      }
  unfolding detach
  detach_lem dl e node id h = rw (h, detach) refl

  -- A device that was attached under a number, with a serial number, is detached under that number
  -- with the same name, dashed as it was attached; then the table is valid, and has what it had
  -- before but nothing at that number.
  pub detach-attach :
      (dl : Dl) (e : E) (props node : N) (serial : List ℕ)
      → IsValid dl.device_num_to_device_id
      → serial_of props ≡ some serial
      → uint_of plist (some node) ≡ num_of props
      → let a = attach plist calls dl e props in
        let d = detach plist calls a.dl a.outside node in
        (d.outside ≡ (calls.on_detach (dashed serial) (num_of props % 2 ^ 32) a.outside).0)
        × (d.status ≡ (calls.on_detach (dashed serial) (num_of props % 2 ^ 32) a.outside).1)
        × IsValid d.dl.device_num_to_device_id
        × ((q : ℕ)
            → view d.dl.device_num_to_device_id q
              ≡ (if num_of props == q then none else view dl.device_num_to_device_id q))
  detach-attach dl e props node serial valid h same =
      let num = num_of props in
      let table = dl.device_num_to_device_id in
      let wrote = put-Writes table num (some (dashed serial)) valid in
      let table' = (put table num (some (dashed serial))).0 in
      let gone = remove-Writes table' num wrote.valid in
      let found : (remove table' num).1 ≡ some (dashed serial) =
        gone.returned ∙ wrote.reads num ∙ rw (==_refl num) refl in
      let found' = subst (λ n. (remove table' n).1 ≡ some (dashed serial)) (sym same) found in
      let e' = (calls.on_attach (some (dashed serial)) (num % 2 ^ 32) e).0 in
      let dl' = record dl { device_num_to_device_id = table' } in
      rw (attach_lem dl e props serial h, detach_lem dl' e' node (dashed serial) found', same)
        (
          refl,
          refl,
          gone.valid,
          λ q. gone.reads q ∙ elim (Bool-cases (num == q)) [
            | inl t ↦ rw t refl
            | inr t ↦ rw t (wrote.reads q ∙ rw t refl)
          ],
        )
