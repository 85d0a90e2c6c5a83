-- ===== src/Tests/Proxying.antt =====
-- src/ios_webkit_debug_proxy.c on a port with two clients and one page.
use mathlib.Core.List.{flatten, Perm}
use bootstrap_agency_templat.Prelude.{
  false, ℕ, ◌≡◌, refl, true, none, some, List, [], ◌∷◌, ◌++◌, arith,
}
use bootstrap_agency_templat.Libc.{
  starts_with_case, strtol, to_int, codes, strcmp_equal, starts_with, strrchr, strnstr, print_int,
}
use bootstrap_agency_templat.Rpc.{Page, success}
use bootstrap_agency_templat.Proxy.{Ipage, Iws, Iwi, Iport}
use bootstrap_agency_templat.Proxy.Pages.{find_page, update_page, remove_page, put_page}
use bootstrap_agency_templat.Proxy.Session.{
  stolen_client, unclaimed, did_close, socket_setup, Call, Outside, check_client, check_page,
  check_stop, tell_closed, stop_devtools, take_page, start_devtools,
}
use bootstrap_agency_templat.Proxy.Clients.{new_client, accept, iws_close}
use bootstrap_agency_templat.Proxy.Listing.{
  has_app, find_known, place, claim_remote, add_page, add_pages, is_unlisted, remove_pages,
  on_application_sent_listing,
}
use bootstrap_agency_templat.Proxy.Frames.{Goes, on_frame, on_message, on_frame-forwards}
use bootstrap_agency_templat.Proxy.Requests
use bootstrap_agency_templat.Proxy.Lists.{frontend_url, get_frontend_path-frontend_url}
use bootstrap_agency_templat.Proxy.Requests.{on_http_request, requested_num}
use bootstrap_agency_templat.Proxy.Owned.{Held}
use bootstrap_agency_templat.Proxy.Reach.{
  Reaches, start, after, listed, accepted, inspected, Reaches-Held,
}
use bootstrap_agency_templat.Proxy.Dangling.{iws_close-dangling}
use bootstrap_agency_templat.Proxy.Path.{
  get_frontend_path, res_len, dir_len, chosen, slashes, allowed_len, is_allowed,
}
use bootstrap_agency_templat.Proxy.Path.Contained.{
  AllAllowed, one_more, none_left, Contained, get_frontend_path-Contained, get_frontend_path-root,
}
use bootstrap_agency_templat.Proxy.Escape.{escape_json_string_val, Denotes, escape-Denotes}
use bootstrap_agency_templat.Proxy.Text.{iports_to_text, device_item, collect, device_object, sort}
use bootstrap_agency_templat.Proxy.Text.Sorted.{InOrder}
use bootstrap_agency_templat.Proxy.Text.Json.{separated, objects, shown_device, iports_to_text-json}

abbrev out : Outside (List Call)
out = record { send = λ call calls. (calls ++ (call ∷ []), success); remove_fd = λ fd calls. calls }

abbrev vacant : Iport
vacant = record {
  port = 9222;
  s_fd = 3;
  is_sticky = true;
  ws_id_to_iws = λ id. none;
  clients = λ w. none;
  device_id = some (codes "d");
  device_name = some (codes "a \"phone\"");
  device_os_version = 721408;
  iwi = some (record {
    connection_id = some (codes "us");
    app = none;
    connected = true;
    max_page_num = 0;
    app_id_to_true = codes "app" ∷ [];
  });
  pages = [];
}

abbrev page_of : List ℕ → Page
page_of connection_id = record {
  page_id = 7;
  connection_id = some connection_id;
  title = some (codes "t");
  url = some (codes "u");
}

abbrev listing : List ℕ → Iport → Iport
listing connection_id a =
    (on_application_sent_listing out (codes "app") (page_of connection_id ∷ []) a []).iport

abbrev opened : Iport
opened = accept 11 5 (codes "x") (accept 10 4 (codes "w") (listing (codes "us") vacant))

abbrev inspected_once : Iport
inspected_once = (start_devtools out 1 10 opened []).iport

abbrev inspected_twice : Iport
inspected_twice = (start_devtools out 1 11 inspected_once []).iport

-- the second client takes the page from the first
taken :
    (check_stop 1 opened ≡ unclaimed)
    × ((start_devtools out 1 11 inspected_once []).outside
        ≡ did_close (some (codes "us")) (codes "app") 7 (some (codes "w"))
          ∷ socket_setup (some (codes "us")) (codes "app") 7 (some (codes "x"))
          ∷ [])
unfolding on_application_sent_listing has_app add_pages add_page place find_known put_page
    remove_page claim_remote find_page update_page strcmp_equal remove_pages is_unlisted
    stop_devtools check_stop check_page check_client tell_closed accept start_devtools take_page
taken = (refl, refl)

abbrev newest : Iws
newest = record { ws_fd = 5; ws_id = codes "x"; page_num = 1; ipage = some 1; ifs = none }

reached : Reaches out vacant inspected_twice
unfolding on_application_sent_listing has_app add_pages add_page place find_known put_page
    remove_page claim_remote find_page update_page strcmp_equal remove_pages is_unlisted
    stop_devtools check_stop check_page check_client tell_closed accept start_devtools take_page
reached =
    after
      (after
        (after
          (after (after start (listed (codes "app") (page_of (codes "us") ∷ []) [] (omega arith)))
            (accepted 10 4 (codes "w") refl refl))
          (accepted 11 5 (codes "x") refl refl))
        (inspected 1 10 []))
      (inspected 1 11 [])

Reaches-Held_example :
    Held inspected_twice.pages 11 (codes "x") 1
    × ((k : ℕ) (other : Iws)
        → inspected_twice.clients k ≡ some other
        → other.ipage ≡ some 1
        → k ≡ 11)
unfolding on_application_sent_listing has_app add_pages add_page place find_known put_page
    remove_page claim_remote find_page update_page strcmp_equal remove_pages is_unlisted
    stop_devtools check_stop check_page check_client tell_closed accept start_devtools take_page
Reaches-Held_example =
    Reaches-Held out vacant inspected_twice (λ w. refl, refl) reached 11 newest 1 refl refl

-- the first client, when another inspector has the page
abbrev cut : Iport
cut = listing (codes "them") inspected_once

abbrev lost : Iws
lost = record { ws_fd = 4; ws_id = codes "w"; page_num = 1; ipage = none; ifs = none }

abbrev lost_page : Ipage
lost_page = record {
  page_num = 1;
  app_id = codes "app";
  page_id = 7;
  connection_id = some (codes "them");
  title = some (codes "t");
  url = some (codes "u");
  sender_id = some (codes "w");
  iws = some 10;
}

abbrev cut_iwi : Iwi
cut_iwi = record {
  connection_id = some (codes "us");
  app = none;
  connected = true;
  max_page_num = 1;
  app_id_to_true = codes "app" ∷ [];
}

abbrev idle_client : Iws
idle_client = new_client 5 (codes "x")

iws_close-dangling_example :
    let closed = (iws_close out 10 cut []).iport in
    let reused = accept 10 6 (codes "y") closed in
    (closed.clients 10 ≡ none)
    × (find_page 1 closed.pages ≡ some lost_page)
    × (reused.clients 10 ≡ some (new_client 6 (codes "y")))
    × ((start_devtools out 1 11 reused []).iport.clients 10
        ≡ some (stolen_client 1 (new_client 6 (codes "y"))))
unfolding on_application_sent_listing has_app add_pages add_page place find_known put_page
    remove_page claim_remote find_page update_page strcmp_equal remove_pages is_unlisted
    stop_devtools check_stop check_page check_client tell_closed accept start_devtools take_page
iws_close-dangling_example =
    iws_close-dangling out 10 1 11 6 (codes "y") lost idle_client cut_iwi lost_page cut [] [] refl
      refl refl refl (λ h. absurd (omega (arith, h))) refl refl

get_frontend_path-Contained_example : Contained (codes "/qux/i.html") (codes "/qux/a/b.js")
unfolding get_frontend_path starts_with strnstr res_len dir_len chosen slashes allowed_len
    is_allowed strrchr
get_frontend_path-Contained_example =
    get_frontend_path-Contained (codes "/qux/i.html") (codes "/devtools/a/b.js?x")
      (codes "/qux/a/b.js") refl

etc-AllAllowed : AllAllowed (codes "/a")
unfolding is_allowed
etc-AllAllowed = one_more refl (one_more refl none_left)

get_frontend_path-root_example :
    get_frontend_path (some (codes "i.html")) (some (codes "/devtools//a")) ≡ some (codes "/a")
unfolding strnstr strrchr starts_with
get_frontend_path-root_example =
    get_frontend_path-root (codes "i.html") b'/' (codes "a") refl etc-AllAllowed refl

escape-Denotes_example : Denotes (codes "a\\u0010\\\"") (b'a' ∷ 16 ∷ b'"' ∷ [])
unfolding escape_json_string_val
escape-Denotes_example = escape-Denotes (b'a' ∷ 10 ∷ b'"' ∷ [])

-- a second device, on a lower port
abbrev lower : Iport
lower = record vacant { port = 9221; device_id = some (codes "e"); device_name = none }

iports_to_text-json_example :
    (sorted : List Iport) × Perm sorted (vacant ∷ lower ∷ [])
    × InOrder (λ iport. iport.port) sorted
    × (iports_to_text (vacant ∷ lower ∷ []) true none
        ≡ codes "[" ++ separated (objects (shown_device none) sorted) ++ codes "]")
iports_to_text-json_example = iports_to_text-json (vacant ∷ lower ∷ []) none

-- the array itself
json :
    iports_to_text (vacant ∷ []) true none
    ≡ codes
        "[{\n   \"deviceId\": \"d\",\n   \"deviceName\": \"a \\\"phone\\\"\",\n   \"deviceOSVersion\": \"11.2.0\",\n   \"url\": \"localhost:9222\"\n}]"
unfolding iports_to_text device_item collect device_object escape_json_string_val print_int sort
    mathlib.Core.List.flatten
json = refl

on_frame-forwards_example :
    (true ≡ true)
    × (true ≡ true)
    × (true ≡ true)
    × (goes : Goes inspected_twice newest
        (codes "p")
        (some (codes "us"))
        (codes "app")
        7
        (some (codes "x"))
        (codes "p"))
    × (goes.ipage.iws ≡ some 11)
    × (some (codes "x") ≡ some (codes "x"))
unfolding on_application_sent_listing has_app add_pages add_page place find_known put_page
    remove_page claim_remote find_page update_page strcmp_equal remove_pages is_unlisted
    stop_devtools check_stop check_page check_client tell_closed accept start_devtools take_page
    on_frame on_message
on_frame-forwards_example =
    on_frame-forwards out vacant inspected_twice (λ w. refl, refl) reached 11 newest refl true 1
      true (codes "p") (some (codes "us")) (codes "app") 7 (some (codes "x")) (codes "p") refl

-- the pages and the lists that a browser asks for
routes :
    (on_http_request (codes "GET") (codes "/json") false ≡ Requests.listing false true)
    × (requested_num (codes "12") ≡ 12)
    × (requested_num (codes "x") ≡ 4294967295)
unfolding on_http_request strcmp_equal requested_num strtol to_int
routes = (refl, refl, refl)

name-AllAllowed : AllAllowed (codes "i.h")
unfolding is_allowed
name-AllAllowed = one_more refl (one_more refl (one_more refl none_left))

get_frontend_path-frontend_url_example :
    get_frontend_path (some (codes "/q/i.h")) (frontend_url (some (codes "/q/i.h")))
    ≡ some (codes "/q/i.h")
unfolding strnstr strrchr starts_with starts_with_case
get_frontend_path-frontend_url_example =
    get_frontend_path-frontend_url (codes "/q") b'i' (codes ".h") refl name-AllAllowed refl refl
      refl
