-- ===== src/Rpc/Parse.antt =====
-- The applications and pages of src/rpc.c, read from property lists.
use bootstrap_agency_templat.Prelude.{
  ℕ, ◌-◌, ◌^◌, min, Bool, ◌&&◌, Option, none, some, List, [], ◌∷◌, ◌==◌, if◌then◌else◌,
}
use bootstrap_agency_templat.Libc.{codes, strcmp_equal, Number, strtol}
use bootstrap_agency_templat.Rpc.{
  Plist, App, Page, ◌>>=◌, get_required_string, get_optional_string, get_optional_bool,
  get_required_uint,
}

module _ {N : Type 0} (plist : Plist N) where
  -- `rpc_parse_app`; `none` is its error
  unfoldable pub parse_app : Option N → Option App
  unfolding get_required_string get_optional_string get_optional_bool
  parse_app node = do
    app_id ← get_required_string plist node (codes "WIRApplicationIdentifierKey")
    app_name ← get_optional_string plist node (codes "WIRApplicationNameKey")
    is_proxy ← get_optional_bool plist node (codes "WIRIsApplicationProxyKey")
    some (record { app_id = app_id; app_name = app_name; is_proxy = is_proxy })

  -- an application whose identifier is its key
  unfoldable pub keyed_app : Option (List ℕ) × Option N → Option App
  unfolding parse_app
  keyed_app (none, value) = none
  keyed_app (some key, value) =
      parse_app value >>= λ app. if strcmp_equal key app.app_id then some app else none

  -- `rpc_parse_page`
  unfoldable pub parse_page : Option N → Option Page
  unfolding get_required_uint get_optional_string
  parse_page node = do
    page_id ← get_required_uint plist node (codes "WIRPageIdentifierKey")
    connection_id ← get_optional_string plist node (codes "WIRConnectionIdentifierKey")
    title ← get_optional_string plist node (codes "WIRTitleKey")
    url ← get_optional_string plist node (codes "WIRURLKey")
    some (record { page_id = page_id; connection_id = connection_id; title = title; url = url })

  -- `page_id == strtol(key, NULL, 0)`, as a `long`
  abbrev pub is_number : Number → ℕ → Bool
  is_number n page_id =
      if n.negative
      then n.magnitude == 0 && page_id == 0
      else min n.magnitude (2 ^ 63 - 1) == page_id

  -- a page whose number is its key
  unfoldable pub keyed_page : Option (List ℕ) × Option N → Option Page
  unfolding parse_page
  keyed_page (none, value) = none
  keyed_page (some key, value) =
      parse_page value >>= λ page. if is_number (strtol key) page.page_id then some page else none

  -- the loops of `rpc_parse_apps` and `rpc_parse_pages`: the first entry that fails ends them
  unfoldable pub parse_each :
      {A : Type 0}
      → (Option (List ℕ) × Option N → Option A)
      → List (Option (List ℕ) × Option N)
      → Option (List A)
  parse_each parse [] = some []
  parse_each parse (entry ∷ entries) = do
    a ← parse entry
    rest ← parse_each parse entries
    some (a ∷ rest)

  -- `rpc_parse_apps`
  unfoldable pub parse_apps : Option N → Option (List App)
  unfolding parse_each keyed_app
  parse_apps node = node >>= plist.items >>= parse_each keyed_app

  -- `rpc_parse_pages`
  unfoldable pub parse_pages : Option N → Option (List Page)
  unfolding parse_each keyed_page
  parse_pages node = node >>= plist.items >>= parse_each keyed_page
