-- ===== src/Proxy/Listing.antt =====
-- What the inspector reports, in src/ios_webkit_debug_proxy.c: the applications and their pages.
use bootstrap_agency_templat.Prelude.{
  ℕ, ◌+◌, ◌%◌, ◌^◌, Bool, true, false, not, ◌&&◌, ◌||◌, Option, none, some, List, [], ◌∷◌, map,
  ◌==◌, if◌then◌else◌,
}
use bootstrap_agency_templat.Libc.{strcmp_equal}
use bootstrap_agency_templat.Rpc.{Page, success, error}
use bootstrap_agency_templat.Proxy.{Ipage, Iws, Iwi, Iport}
use bootstrap_agency_templat.Proxy.Pages.{find_page, remove_page, put_page}
use bootstrap_agency_templat.Proxy.Session.{
  Outside, Done, get_listing, with_client, with_page, stop_devtools,
}

-- the set `app_id_to_true`
unfoldable pub has_app : List ℕ → List (List ℕ) → Bool
unfolding strcmp_equal
has_app app_id [] = false
has_app app_id (a ∷ rest) = strcmp_equal app_id a || has_app app_id rest

-- `iwdp_update_string`
abbrev pub update_string : Option (List ℕ) → Option (List ℕ) → Option (List ℕ)
update_string none new_value = new_value
update_string (some old_value) none = none
update_string (some old_value) (some new_value) =
    if strcmp_equal old_value new_value then some old_value else some new_value

-- the first of the pages before the listing that has these identifiers
unfoldable pub find_known : List ℕ → ℕ → List ℕ → List Ipage → Option ℕ
unfolding find_page strcmp_equal
find_known app_id page_id [] pages = none
find_known app_id page_id (n ∷ ns) pages =
    let rest = find_known app_id page_id ns pages in
    elim (find_page n pages) [
      | none ↦ rest
      | some p ↦ if p.page_id == page_id && strcmp_equal app_id p.app_id then some n else rest
    ]

-- `++iwi->max_page_num` on a `uint32_t`
abbrev pub next_num : ℕ → ℕ
next_num max_page_num = (max_page_num + 1) % 2 ^ 32

abbrev pub new_page : ℕ → List ℕ → ℕ → Ipage
new_page n app_id page_id = record {
  page_num = n;
  app_id = app_id;
  page_id = page_id;
  connection_id = none;
  title = none;
  url = none;
  sender_id = none;
  iws = none;
}

-- the page of the listing is another inspector's
abbrev pub is_remote : Option (List ℕ) → Option (List ℕ) → Bool
is_remote none page_connection_id = false
is_remote (some connection_id) none = false
is_remote (some connection_id) (some other) = not (strcmp_equal connection_id other)

-- the page is known, or is made
unfoldable pub place : List ℕ → List ℕ → Page → Iwi → Iport → ℕ × Iport
unfolding find_known put_page
place app_id known page iwi iport = elim (find_known app_id page.page_id known iport.pages) [
  | some n ↦ (n, iport)
  | none ↦
      let n = next_num iwi.max_page_num in
      (
        n,
        record iport {
          iwi = some (record iwi { max_page_num = n });
          pages = put_page (new_page n app_id page.page_id) iport.pages;
        },
      )
]

-- what is written to the page
abbrev pub describe : Page → Ipage → Ipage
describe page p = record p {
  title = update_string p.title page.title;
  url = update_string p.url page.url;
  connection_id = update_string p.connection_id page.connection_id;
}

-- a client of a page that another inspector has claimed is cut off
abbrev pub cut_off : Iws → Iws
cut_off iws = record iws { ipage = none }

unfoldable pub claim_remote : Option ℕ → Bool → Iport → Iport
claim_remote none remote iport = iport
claim_remote (some w) remote iport = if remote then with_client w cut_off iport else iport

-- the body of the loop that adds the pages
unfoldable pub add_page : List ℕ → List ℕ → Page → Iport → Iport
unfolding find_page
add_page app_id known page iport = elim iport.iwi [
  | none ↦ iport
  | some iwi ↦
      let (n, placed) = place app_id known page iwi iport in
      let client : Option ℕ = elim (find_page n placed.pages) [ none ↦ none | some p ↦ p.iws ] in
      with_page n (describe page)
        (claim_remote client (is_remote iwi.connection_id page.connection_id) placed)
]

unfoldable pub add_pages : List ℕ → List ℕ → List Page → Iport → Iport
add_pages app_id known [] iport = iport
add_pages app_id known (page ∷ pages) iport =
    add_pages app_id known pages (add_page app_id known page iport)

-- no page of the listing has the identifier
unfoldable pub is_unlisted : ℕ → List Page → Bool
is_unlisted page_id [] = true
is_unlisted page_id (page ∷ pages) = not (page.page_id == page_id) && is_unlisted page_id pages

module _ {E : Type 0} (out : Outside E) where
  -- both loops that remove pages: each of the given pages that is gone is stopped and freed
  unfoldable pub remove_pages : (Ipage → Bool) → List ℕ → Iport → E → Iport × E
  unfolding find_page remove_page
  remove_pages gone [] iport e = (iport, e)
  remove_pages gone (n ∷ ns) iport e =
      let done = stop_devtools out n iport e in
      let removed = record (done.iport) { pages = remove_page n done.iport.pages } in
      let is_gone : Bool = elim (find_page n iport.pages) [ none ↦ false | some p ↦ gone p ] in
      let next : Iport × E = if is_gone then (removed, done.outside) else (iport, e) in
      remove_pages gone ns next.0 next.1

  -- `iwdp_on_applicationSentListing`, on a port that has its inspector
  unfoldable pub on_application_sent_listing : List ℕ → List Page → Iport → E → Done E
  unfolding is_unlisted strcmp_equal
  on_application_sent_listing app_id pages iport e = elim iport.iwi [
    | none ↦ record { iport = iport; outside = e; status = error }
    | some iwi ↦
        let known = map (λ p. p.page_num) iport.pages in
        let listed =
          remove_pages (λ p. strcmp_equal p.app_id app_id && is_unlisted p.page_id pages) known
            (add_pages app_id known pages iport) e in
        if has_app app_id iwi.app_id_to_true
        then record { iport = listed.0; outside = listed.1; status = success }
        else elim iwi.app [
          | none ↦ record { iport = iport; outside = e; status = error }
          | some app ↦
              let sent = out.send (get_listing iwi.connection_id app) e in
              record { iport = iport; outside = sent.0; status = sent.1 }
        ]
  ]
