-- ===== src/Proxy/Text/Pages.antt =====
-- `iwdp_ipages_to_text` of src/ios_webkit_debug_proxy.c.
use bootstrap_agency_templat.Prelude.{
  ℕ, Bool, false, not, ◌&&◌, Option, none, some, List, [], ◌++◌, ◌==◌, if◌then◌else◌, length,
}
use mathlib.Core.List.{flatten}
use bootstrap_agency_templat.Libc.{codes, starts_with_case}
use bootstrap_agency_templat.Proxy.{Ipage}
use bootstrap_agency_templat.Proxy.Text.{sort, collect, comma, page_href, page_object, page_line}

-- the body of the loop
unfoldable pub page_item :
    Bool → Option (List ℕ) → Option (List ℕ) → ℕ → Bool → Ipage → Option (List ℕ)
unfolding page_href page_object page_line
page_item want_json frontend_url host port behind ipage =
    let href = page_href frontend_url host port ipage in
    some
      (if want_json then comma behind ++ page_object href host port ipage else page_line href ipage)

-- the note on links that the browser may block
abbrev chrome_note : List ℕ
chrome_note =
    codes "<p><b>Note:</b> Your browser may block<sup><a href=\""
    ++ codes "https://code.google.com/p/chromium/issues/detail?id=87815"
    ++ codes "\"1\">1,</a><a href=\""
    ++ codes "https://codereview.chromium.org/12621008#msg11"
    ++ codes "\">2</a></sup> the above links with JavaScript console error:<br><tt>"
    ++ codes "&nbsp;&nbsp;Not allowed to load local resource: chrome-devtools://..."
    ++ codes "</tt><br>To open a link: right-click on the link (control-click on"
    ++ codes " Mac), 'Copy Link Address', and paste it into address bar."

-- `is_chrome_dev`
abbrev is_chrome_dev : List (List ℕ) → Option (List ℕ) → Bool
is_chrome_dev items none = false
is_chrome_dev items (some frontend_url) =
    not (length (flatten items) == 0) && starts_with_case (codes "chrome-devtools://") frontend_url

abbrev page_header : List ℕ → List ℕ → List ℕ
page_header device_id device_name =
    codes "<html><head><title>"
    ++ device_name
    ++ codes "</title></head><body>Inspectable pages for <a title=\""
    ++ device_id
    ++ codes "\">"
    ++ device_name
    ++ codes "</a>:<p><ol>\n"

abbrev page_footer : List (List ℕ) → Option (List ℕ) → List ℕ
page_footer items frontend_url =
    codes "</ol>"
    ++ (if is_chrome_dev items frontend_url then chrome_note else [])
    ++ codes "</body></html>"

-- `iwdp_ipages_to_text`
unfoldable pub ipages_to_text :
    List Ipage → Bool → List ℕ → List ℕ → Option (List ℕ) → Option (List ℕ) → ℕ → List ℕ
unfolding sort collect page_item starts_with_case
ipages_to_text ipages want_json device_id device_name frontend_url host port =
    let items =
      collect (page_item want_json frontend_url host port) 0
        (sort (λ ipage. ipage.page_num) ipages) in
    (if want_json then codes "[" else page_header device_id device_name)
    ++ flatten items
    ++ (if want_json then codes "]" else page_footer items frontend_url)
