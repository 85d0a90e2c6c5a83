-- ===== src/Proxy/Requests.antt =====
-- The requests of a browser in src/ios_webkit_debug_proxy.c: `iwdp_on_http_request`,
-- `iwdp_on_devtools_request`, `iwdp_send_http` and `iwdp_on_not_found`. A text is shorter than 2^31.
use bootstrap_agency_templat.Prelude.{
  ℕ, ◌-◌, ◌^◌, ◌≡◌, sym, ap, Bool, true, false, not, ◌&&◌, ◌||◌, Option, none, some, List, [], ◌∷◌,
  ◌++◌, append-nil, ltb, leb, ◌==◌, if◌then◌else◌, length, drop,
}
use bootstrap_agency_templat.Libc.{codes, print_int, strcmp_equal, starts_with, strtol, to_int}
use bootstrap_agency_templat.Proxy.{Ipage, Iport}
use bootstrap_agency_templat.Proxy.Pages.{find_page}
use bootstrap_agency_templat.Proxy.Path.{get_content_type}
use bootstrap_agency_templat.Proxy.Text.{or_else}

-- the head of the answer in `iwdp_send_http`
unfoldable pub http_head : List ℕ → List ℕ → Option (List ℕ) → List ℕ
unfolding print_int get_content_type
http_head status resource content =
    let ctype = get_content_type resource in
    codes "HTTP/1.1 "
    ++ status
    ++ codes "\r\nContent-length: "
    ++ print_int (length (or_else content []))
    ++ codes "\r\nConnection: close"
    ++ elim ctype [ none ↦ [] | some _ ↦ codes "\r\nContent-Type: " ]
    ++ or_else ctype []
    ++ codes "\r\n\r\n"

-- `iwdp_send_http`: the bytes that are sent
unfoldable pub send_http : Bool → List ℕ → List ℕ → Option (List ℕ) → List ℕ
send_http is_head status resource content =
    http_head status resource content ++ (if is_head then [] else or_else content [])

-- `iwdp_on_not_found`
unfoldable pub on_not_found : Bool → List ℕ → Option (List ℕ) → List ℕ
unfolding send_http
on_not_found is_head resource details = send_http is_head (codes "404 Not Found") (codes ".html") (
    some (
      codes "<html><title>Error 404 (Not Found)</title>\n"
      ++ codes "<p><b>404.</b> <ins>That's an error.</ins>\n"
      ++ codes "<p>The requested URL <code>"
      ++ resource
      ++ codes "</code> was not found.\n"
      ++ or_else details []
      ++ codes "</html>"))

-- Who answers a request.
pub data Route : Type 0 where
  -- `iwdp_on_devtools_request`
  devtools : Route
  -- `iwdp_on_list_request`
  listing : (is_head want_json : Bool) → Route
  -- `iwdp_on_static_request`
  static : (is_head : Bool) → Route
  -- `iwdp_on_not_found`
  not_found : (is_head : Bool) (details : Option (List ℕ)) → Route

-- `iwdp_on_http_request`
unfoldable pub on_http_request : List ℕ → List ℕ → Bool → Route
unfolding strcmp_equal starts_with
on_http_request method resource is_websocket =
    let is_get = strcmp_equal method (codes "GET") in
    let is_head = not is_get && strcmp_equal method (codes "HEAD") in
    if is_websocket
    then (if is_get && starts_with (codes "/devtools/page/") resource
        then devtools
        else not_found is_head none)
    else if not is_get && not is_head
    then not_found is_head (some (codes "Method Not Allowed"))
    else if length resource == 0 || strcmp_equal resource (codes "/")
    then listing is_head false
    else if strcmp_equal resource (codes "/json") || strcmp_equal resource (codes "/json/list")
    then listing is_head true
    else if starts_with (codes "/devtools/") resource
    then static is_head
    else not_found is_head none

-- the number in the resource of a page, as a 32-bit pattern; -1 where it is none
unfoldable pub requested_num : List ℕ → ℕ
unfolding strtol to_int
requested_num s =
    let number = strtol s in
    elim number.end [ _ ∷ _ ↦ 2 ^ 32 - 1 | [] ↦ elim s [ [] ↦ 2 ^ 32 - 1 | _ ∷ _ ↦ to_int number ] ]

-- `iwdp_on_devtools_request`: the page whose debugging starts; `none` where it is not found
unfoldable pub requested_page : Iport → List ℕ → Option Ipage
unfolding requested_num find_page
requested_page iport resource =
    let n = requested_num (drop 15 resource) in
    elim iport.iwi [
      | none ↦ none
      | some iwi ↦
          if ltb 0 n && ltb n (2 ^ 31) && leb n iwi.max_page_num
          then find_page n iport.pages
          else none
    ]

-- A GET is answered by what the same HEAD is answered by, followed by the content, whose length the head
-- has told.
pub send_http-head :
    (status resource content : List ℕ)
    → send_http false status resource (some content)
      ≡ send_http true status resource (some content) ++ content
unfolding send_http
send_http-head status resource content =
    ap (λ head. head ++ content) (sym (append-nil (http_head status resource (some content))))
