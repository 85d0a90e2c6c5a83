-- ===== src/Plist.antt =====
-- What src/device_listener.c asks of libplist, which is not part of the repository: an interface over
-- a type of nodes.
use bootstrap_agency_templat.Prelude.{ℕ, Option, none, some, List}

pub record Plist (N : Type 0) : Type 0 where
  -- `plist_from_xml`; `none` where it leaves the node null
  pub from_xml : List ℕ → Option N
  -- `plist_dict_get_item` with the bytes of a key
  pub get_item : N → List ℕ → Option N
  -- `plist_get_string_val`; `none` where the node is no string
  pub string_val : N → Option (List ℕ)
  -- `plist_get_uint_val`; `none` where the node is no number
  pub uint_val : N → Option ℕ

module _ {N : Type 0} (plist : Plist N) where
  -- the value of a string node that may be null
  abbrev pub string_of : Option N → Option (List ℕ)
  string_of none = none
  string_of (some node) = plist.string_val node

  -- a number that starts as 0 and is written where the node is a number
  abbrev pub uint_of : Option N → ℕ
  uint_of none = 0
  uint_of (some node) = elim (plist.uint_val node) [ none ↦ 0 | some n ↦ n ]
