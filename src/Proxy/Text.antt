-- ===== src/Proxy/Text.antt =====
-- The lists of devices and of pages in src/ios_webkit_debug_proxy.c, as JSON and as HTML. Allocation
-- succeeds. The lengths of texts that are in memory together add up without a wrap-around.
pub mod Pages
pub mod Sorted
pub mod Json
use bootstrap_agency_templat.Prelude.{
  ℕ, zero, suc, ◌+◌, ◌-◌, ◌*◌, ◌/◌, ◌%◌, ◌^◌, ◌≤◌, ◌<◌, min, max, ◌≡◌, refl, sym, ap, ap₂, ◌∙◌,
  subst, fun_ext, ◌≢◌, ◌↔◌, ◌⊎◌, inl, inr, Bool, true, false, not, ◌&&◌, ◌||◌, Option, none, some,
  List, [], ◌∷◌, ◌++◌, map, append-nil, append_assoc, arith, ltb, leb, ◌==◌, if◌then◌else◌, ltb→lt,
  lt→ltb, leb→le, le→leb, ltb-false, ==_iff, ==_refl, ==_ne, tests, Bool-cases, Option-cases,
  length, get_or, set, take, drop, replicate, length-append, length-set, length-take, length-drop,
  length-replicate, get_or-set_self, get_or-set_ne, take-append-drop, take-append_length,
  drop-append_length, take-append_le, drop-append_le, take_all, drop_all, drop-drop, take-nil,
  take_seam, drop_seam, drop-take, nil_of_length, bit_xor_twice, bit_xor-bits, bit_xor-halves,
}
use mathlib.Core.List.{flatten}
use bootstrap_agency_templat.Libc.{codes, print_int}
use bootstrap_agency_templat.Proxy.{Ipage, Iport}
use bootstrap_agency_templat.Proxy.Escape.{escape_json_string_val}

-- `s ? s : other`
abbrev pub or_else : Option (List ℕ) → List ℕ → List ℕ
or_else none other = other
or_else (some s) other = s

abbrev localhost : List ℕ
localhost = codes "localhost"

module _ {A : Type 0} where
  -- `qsort` by the comparison of a number
  pub insert : (A → ℕ) → A → List A → List A
  insert key a [] = a ∷ []
  insert key a (b ∷ bs) = if leb (key a) (key b) then a ∷ b ∷ bs else b ∷ insert key a bs

  unfoldable pub sort : (A → ℕ) → List A → List A
  unfolding insert
  sort key [] = []
  sort key (a ∷ rest) = insert key a (sort key rest)

  -- the loop that prints the items: each is told whether something is printed before it
  unfoldable pub collect : (Bool → A → Option (List ℕ)) → ℕ → List A → List (List ℕ)
  collect item sum_len [] = []
  collect item sum_len (a ∷ rest) = elim (item (not (sum_len == 0)) a) [
    | none ↦ collect item sum_len rest
    | some s ↦ s ∷ collect item (sum_len + length s) rest
  ]

-- `sum_len ? "," : ""`
abbrev pub comma : Bool → List ℕ
comma behind = if behind then codes "," else []

-- the object of a device
unfoldable pub device_object : Option (List ℕ) → Iport → List ℕ
unfolding escape_json_string_val print_int
device_object host iport =
    codes "{\n   \"deviceId\": \""
    ++ escape_json_string_val (or_else iport.device_id [])
    ++ codes "\",\n   \"deviceName\": \""
    ++ escape_json_string_val (or_else iport.device_name [])
    ++ codes "\",\n   \"deviceOSVersion\": \""
    ++ print_int (iport.device_os_version / 65536 % 256)
    ++ codes "."
    ++ print_int (iport.device_os_version / 256 % 256)
    ++ codes "."
    ++ print_int (iport.device_os_version % 256)
    ++ codes "\",\n   \"url\": \""
    ++ or_else host localhost
    ++ codes ":"
    ++ print_int iport.port
    ++ codes "\"\n}"

-- the list item of a device, with a link where its inspector is there
unfoldable pub device_line : Option (List ℕ) → Iport → List ℕ → List ℕ
unfolding print_int
device_line host iport device_id =
    codes "<li><a"
    ++ elim iport.iwi [
      | none ↦ []
      | some _ ↦
          codes " href=\"http://"
          ++ or_else host localhost
          ++ codes ":"
          ++ print_int iport.port
          ++ codes "/\""
    ]
    ++ codes ">"
    ++ or_else host localhost
    ++ codes ":"
    ++ print_int iport.port
    ++ codes "</a> - <a title=\""
    ++ device_id
    ++ codes "\">"
    ++ or_else iport.device_name (codes "?")
    ++ codes "</a></li>\n"

-- the body of the loop: the registry port is skipped, and in JSON a device without an inspector
unfoldable pub device_item : Bool → Option (List ℕ) → Bool → Iport → Option (List ℕ)
device_item want_json host behind iport = elim iport.device_id [
  | none ↦ none
  | some device_id ↦
      if want_json
      then elim iport.iwi [ none ↦ none | some _ ↦ some (comma behind ++ device_object host iport) ]
      else some (device_line host iport device_id)
]

-- `iwdp_iports_to_text`
unfoldable pub iports_to_text : List Iport → Bool → Option (List ℕ) → List ℕ
unfolding sort collect device_item
iports_to_text iports want_json host =
    (if want_json
      then codes "["
      else codes "<html><head><title>iOS Devices</title></head><body>iOS Devices:<p><ol>\n")
    ++ flatten (collect (device_item want_json host) 0 (sort (λ iport. iport.port) iports))
    ++ (if want_json then codes "]" else codes "</ol></body></html>")

-- `href`: where the frontend debugs the page
unfoldable pub page_href : Option (List ℕ) → Option (List ℕ) → ℕ → Ipage → Option (List ℕ)
unfolding print_int
page_href none host port ipage = none
page_href (some frontend_url) host port ipage = some (
    frontend_url
    ++ codes "?ws="
    ++ or_else host localhost
    ++ codes ":"
    ++ print_int port
    ++ codes "/devtools/page/"
    ++ print_int ipage.page_num)

-- the link in the object of a page: none if a client has it
abbrev offered : Option (List ℕ) → Ipage → List ℕ
offered href ipage = elim ipage.iws [ none ↦ or_else href [] | some _ ↦ [] ]

unfoldable pub page_object : Option (List ℕ) → Option (List ℕ) → ℕ → Ipage → List ℕ
unfolding escape_json_string_val print_int
page_object href host port ipage =
    let escaped_page_url = escape_json_string_val (or_else ipage.url []) in
    codes "{\n   \"devtoolsFrontendUrl\": \""
    ++ offered href ipage
    ++ codes "\",\n   \"faviconUrl\": \"\",\n   \"thumbnailUrl\": \"/thumb/"
    ++ escaped_page_url
    ++ codes "\",\n   \"title\": \""
    ++ escape_json_string_val (or_else ipage.title [])
    ++ codes "\",\n   \"url\": \""
    ++ escaped_page_url
    ++ codes "\",\n   \"webSocketDebuggerUrl\": \"ws://"
    ++ or_else host localhost
    ++ codes ":"
    ++ print_int port
    ++ codes "/devtools/page/"
    ++ print_int ipage.page_num
    ++ codes "\",\n   \"appId\": \""
    ++ escape_json_string_val ipage.app_id
    ++ codes "\"\n}"

-- the attribute of the link in the list item of a page
abbrev link : Option (List ℕ) → Ipage → List ℕ
link none ipage = []
link (some href) ipage =
    elim ipage.iws [ none ↦ codes " href=\"" | some _ ↦ codes " alt=\"" ] ++ href ++ codes "\""

unfoldable pub page_line : Option (List ℕ) → Ipage → List ℕ
unfolding print_int
page_line href ipage =
    codes "<li value=\""
    ++ print_int ipage.page_num
    ++ codes "\"><a"
    ++ link href ipage
    ++ codes " title=\""
    ++ or_else ipage.title (codes "?")
    ++ codes "\">"
    ++ or_else ipage.url (codes "?")
    ++ codes "</a></li>\n"
