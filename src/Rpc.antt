-- ===== src/Rpc.antt =====
-- src/rpc.c: the calls of the web inspector, each a property list with a selector and an argument.
pub mod Parse
pub mod Send
pub mod Recv
pub mod Xml
pub mod Pipe
pub mod Errors
pub mod Pages
pub mod Trim
use bootstrap_agency_templat.Prelude.{
  ℕ, zero, suc, ◌+◌, ◌-◌, ◌*◌, ◌/◌, ◌%◌, ◌^◌, ◌≤◌, ◌<◌, min, max, ◌≡◌, refl, sym, ap, ap₂, ◌∙◌,
  subst, fun_ext, ◌≢◌, ◌↔◌, ◌⊎◌, inl, inr, Bool, true, false, not, ◌&&◌, ◌||◌, Option, none, some,
  List, [], ◌∷◌, ◌++◌, map, append-nil, append_assoc, arith, ltb, leb, ◌==◌, if◌then◌else◌, ltb→lt,
  lt→ltb, leb→le, le→leb, ltb-false, ==_iff, ==_refl, ==_ne, tests, Bool-cases, Option-cases,
  length, get_or, set, take, drop, replicate, length-append, length-set, length-take, length-drop,
  length-replicate, get_or-set_self, get_or-set_ne, take-append-drop, take-append_length,
  drop-append_length, take-append_le, drop-append_le, take_all, drop_all, drop-drop, take-nil,
  take_seam, drop_seam, drop-take, nil_of_length, bit_xor_twice, bit_xor-bits, bit_xor-halves,
}
use bootstrap_agency_templat.Libc.{
  codes, tolower, starts_with, strcmp_equal, strcasecmp_equal, starts_with_case, contains_case,
  before_nul, strchr, strrchr, strnstr, Number, strtol, to_int,
}

-- `rpc_status`
pub data Status : Type 0 where
  success error : Status

-- What the source asks of libplist, over a type of nodes. A getter is `none` where the type of the node
-- is another one.
pub record Plist (N : Type 0) : Type 0 where
  -- `plist_dict_get_item`
  pub get_item : N → List ℕ → Option N
  -- the entries of a dictionary in the order of `plist_dict_next_item`, with keys and values that may
  -- be null
  pub items : N → Option (List (Option (List ℕ) × Option N))
  pub string_val : N → Option (List ℕ)
  pub bool_val : N → Option Bool
  pub uint_val : N → Option ℕ
  pub data_val : N → Option (List ℕ)
  -- `plist_to_xml`; `none` where it leaves the text null
  pub to_xml : N → Option (List ℕ)
  pub new_dict : N
  pub set_item : N → List ℕ → N → N
  pub new_string : List ℕ → N
  pub new_bool : Bool → N
  pub new_uint : ℕ → N
  pub new_data : List ℕ → N

-- `struct rpc_app_struct`
pub record App : Type 0 where
  pub app_id : List ℕ
  pub app_name : Option (List ℕ)
  pub is_proxy : Bool

-- `struct rpc_page_struct`
pub record Page : Type 0 where
  pub page_id : ℕ
  pub connection_id : Option (List ℕ)
  pub title : Option (List ℕ)
  pub url : Option (List ℕ)

-- The callbacks, over a state of their own. `send_plist` is the transport.
pub record Callbacks (N E : Type 0) : Type 0 where
  pub send_plist : N → E → E × Status
  pub on_report_setup : E → E × Status
  pub on_report_connected_application_list : List App → E → E × Status
  pub on_application_connected : App → E → E × Status
  pub on_application_disconnected : App → E → E × Status
  pub on_application_sent_listing : List ℕ → List Page → E → E × Status
  pub on_application_sent_data : List ℕ → List ℕ → List ℕ → E → E × Status
  pub on_application_updated : List ℕ → List ℕ → E → E × Status

infixl 5 ◌>>=◌
abbrev pub ◌>>=◌ : {A B : Type 0} → Option A → (A → Option B) → Option B
none >>= f = none
some a >>= f = f a

module _ {N : Type 0} (plist : Plist N) where
  -- the getters of a node that may be null
  abbrev pub item_of : Option N → List ℕ → Option N
  item_of node key = node >>= λ n. plist.get_item n key

  -- `rpc_dict_get_required_string`; `none` is its error
  unfoldable pub get_required_string : Option N → List ℕ → Option (List ℕ)
  get_required_string node key = item_of node key >>= plist.string_val

  -- `rpc_dict_get_optional_string`; the inner `none` is a value that is not there
  unfoldable pub get_optional_string : Option N → List ℕ → Option (Option (List ℕ))
  unfolding get_required_string
  get_optional_string none key = none
  get_optional_string (some node) key = elim (plist.get_item node key) [
    | none ↦ some none
    | some item ↦ get_required_string (some node) key >>= λ s. some (some s)
  ]

  -- `rpc_dict_get_required_bool`
  unfoldable pub get_required_bool : Option N → List ℕ → Option Bool
  get_required_bool node key = item_of node key >>= plist.bool_val

  -- `rpc_dict_get_optional_bool`, into a value that starts as false
  unfoldable pub get_optional_bool : Option N → List ℕ → Option Bool
  unfolding get_required_bool
  get_optional_bool none key = none
  get_optional_bool (some node) key = elim (plist.get_item node key) [
    | none ↦ some false
    | some item ↦ get_required_bool (some node) key
  ]

  -- a number that fits 32 bits
  abbrev pub fits : ℕ → Option ℕ
  fits value = if ltb (2 ^ 32 - 1) value then none else some value

  -- `rpc_dict_get_required_uint`
  unfoldable pub get_required_uint : Option N → List ℕ → Option ℕ
  get_required_uint node key = item_of node key >>= plist.uint_val >>= fits

  abbrev pub fitting : List ℕ → Option (List ℕ)
  fitting bytes = if ltb (2 ^ 32 - 1) (length bytes) then none else some bytes

  -- `rpc_dict_get_required_data`
  unfoldable pub get_required_data : Option N → List ℕ → Option (List ℕ)
  get_required_data node key = item_of node key >>= plist.data_val >>= fitting
