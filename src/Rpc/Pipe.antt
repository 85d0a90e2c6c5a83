-- ===== src/Rpc/Pipe.antt =====
-- What src/rpc.c sends is what the other side of src/rpc.c receives.
use bootstrap_agency_templat.Prelude.{
  ℕ, ◌^◌, ◌<◌, ◌≡◌, refl, ◌∙◌, Bool, false, Option, some, List, arith, length,
}
use bootstrap_agency_templat.Libc.{codes, strcmp_equal}
use bootstrap_agency_templat.Rpc.{
  Plist, Callbacks, item_of, get_required_string, get_required_uint, get_required_data,
}
use bootstrap_agency_templat.Rpc.Send.{message, send_msg, data_args}
use bootstrap_agency_templat.Rpc.Recv.{recv_msg, recv_plist}

-- What libplist documents of dictionaries and values.
pub record IsPlist {N : Type 0} (plist : Plist N) : Type 0 where
  pub get-set_self :
      (dict : N) (key : List ℕ) (item : N)
      → plist.get_item (plist.set_item dict key item) key ≡ some item
  pub get-set_ne :
      (dict : N) (key : List ℕ) (item : N) (other : List ℕ)
      → strcmp_equal key other ≡ false
      → plist.get_item (plist.set_item dict key item) other ≡ plist.get_item dict other
  pub string_lem : (s : List ℕ) → plist.string_val (plist.new_string s) ≡ some s
  pub bool_lem : (b : Bool) → plist.bool_val (plist.new_bool b) ≡ some b
  pub uint_lem : (n : ℕ) → plist.uint_val (plist.new_uint n) ≡ some n
  pub data_lem : (s : List ℕ) → plist.data_val (plist.new_data s) ≡ some s

module _ {N E : Type 0} (plist : Plist N) (is : IsPlist plist) where
  -- A message that is sent to a receiver on the same side of a transport is handled with the selector
  -- and the arguments that it was sent with. libplist gives back what was put into a dictionary.
  pub send_msg-recv_msg :
      (calls peer : Callbacks N E) (selector : List ℕ) (args : N) (e : E)
      → calls.send_plist ≡ recv_plist plist peer
      → send_msg plist calls (some selector) (some args) e
        ≡ recv_msg plist peer (some selector) (some args) e
  unfolding send_msg recv_plist message strcmp_equal
  send_msg-recv_msg calls peer selector args e wire =
      let dict = plist.set_item plist.new_dict (codes "__selector") (plist.new_string selector) in
      rw
        (
          wire,
          recv_plist,
          is.get-set_ne dict (codes "__argument") args (codes "__selector") refl,
          is.get-set_self plist.new_dict (codes "__selector") (plist.new_string selector),
          is.get-set_self dict (codes "__argument") args,
          is.string_lem selector,
        )
        refl

module _ {N : Type 0} (plist : Plist N) (is : IsPlist plist) where
  -- What a key has is what was put there last, whatever was put under other keys since.
  set_self :
      (dict : N) (key : List ℕ) (item : N)
      → item_of plist (some (plist.set_item dict key item)) key ≡ some item
  set_self dict key item = is.get-set_self dict key item

  set_ne :
      (dict : N) (key : List ℕ) (item : N) (other : List ℕ) {found : Option N}
      → strcmp_equal key other ≡ false
      → item_of plist (some dict) other ≡ found
      → item_of plist (some (plist.set_item dict key item)) other ≡ found
  set_ne dict key item other ne h = is.get-set_ne dict key item other ne ∙ h

-- The arguments of `rpc_send_forwardSocketData` are read back by the getters, each under its key, if
-- the page and the number of the bytes fit 32 bits. libplist gives back what was put into a
-- dictionary.
pub data_args-reads :
    {N : Type 0} (plist : Plist N) (is : IsPlist plist) (connection_id app_id : List ℕ)
    (page_id : ℕ) (sender_id bytes : List ℕ)
    → page_id < 2 ^ 32
    → length bytes < 2 ^ 32
    → let args = some (data_args plist connection_id app_id page_id sender_id bytes) in
      (get_required_string plist args (codes "WIRConnectionIdentifierKey") ≡ some connection_id)
      × (get_required_string plist args (codes "WIRApplicationIdentifierKey") ≡ some app_id)
      × (get_required_uint plist args (codes "WIRPageIdentifierKey") ≡ some page_id)
      × (get_required_string plist args (codes "WIRSenderKey") ≡ some sender_id)
      × (get_required_data plist args (codes "WIRSocketDataKey") ≡ some bytes)
unfolding data_args strcmp_equal get_required_string get_required_uint get_required_data
data_args-reads plist is connection_id app_id page_id sender_id bytes small short =
    let c = plist.new_string connection_id in
    let a = plist.new_string app_id in
    let p = plist.new_uint page_id in
    let s = plist.new_string sender_id in
    let b = plist.new_data bytes in
    let d0 = plist.set_item plist.new_dict (codes "WIRConnectionIdentifierKey") c in
    let d1 = plist.set_item d0 (codes "WIRApplicationIdentifierKey") a in
    let d2 = plist.set_item d1 (codes "WIRPageIdentifierKey") p in
    let d3 = plist.set_item d2 (codes "WIRSenderKey") s in
    let app_key = codes "WIRApplicationIdentifierKey" in
    let page_key = codes "WIRPageIdentifierKey" in
    let sender_key = codes "WIRSenderKey" in
    let data_key = codes "WIRSocketDataKey" in
    let connection_key = codes "WIRConnectionIdentifierKey" in
    (
      rw
          (set_ne plist is d3 data_key b connection_key refl (
            set_ne plist is d2 sender_key s connection_key refl (
              set_ne plist is d1 page_key p connection_key refl (
                set_ne plist is d0 app_key a connection_key refl
                  (set_self plist is plist.new_dict connection_key c)))))
          (is.string_lem connection_id),
      rw
          (set_ne plist is d3 data_key b app_key refl (
            set_ne plist is d2 sender_key s app_key refl
              (set_ne plist is d1 page_key p app_key refl (set_self plist is d0 app_key a))))
          (is.string_lem app_id),
      rw
          (
            set_ne plist is d3 data_key b page_key refl
                (set_ne plist is d2 sender_key s page_key refl (set_self plist is d1 page_key p)),
            is.uint_lem page_id,
          )
          (ground arith),
      rw (set_ne plist is d3 data_key b sender_key refl (set_self plist is d2 sender_key s))
          (is.string_lem sender_id),
      rw (set_self plist is d3 data_key b, is.data_lem bytes) (ground arith),
    )
