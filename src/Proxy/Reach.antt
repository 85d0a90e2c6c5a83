-- ===== src/Proxy/Reach.antt =====
-- The steps of a port of src/ios_webkit_debug_proxy.c whose inspector is there, and what holds of the
-- states that they reach.
use bootstrap_agency_templat.Prelude.{ℕ, ◌+◌, ◌^◌, ◌<◌, ◌≡◌, sym, ap, ◌∙◌, none, some, List, []}
use bootstrap_agency_templat.Rpc.{Page, App}
use bootstrap_agency_templat.Proxy.{Iws, Iport}
use bootstrap_agency_templat.Proxy.Pages.{find_page}
use bootstrap_agency_templat.Proxy.Session.{Outside, start_devtools}
use bootstrap_agency_templat.Proxy.Clients.{accept, iws_close}
use bootstrap_agency_templat.Proxy.Listing.{on_application_sent_listing}
use bootstrap_agency_templat.Proxy.Apps.{
  add_app_id, remove_app_id, on_application_connected, on_report_connected_application_list,
}
use bootstrap_agency_templat.Proxy.Owned.{Held, max_of, IsOwned, page_inj, number_inj}
use bootstrap_agency_templat.Proxy.Starting.{start_devtools-IsOwned}
use bootstrap_agency_templat.Proxy.Closing.{accept-IsOwned, iws_close-IsOwned}
use bootstrap_agency_templat.Proxy.Listed.{count, listing-IsOwned}
use bootstrap_agency_templat.Proxy.Reported.{
  remove_app_id-IsOwned, add_app_id-IsOwned, connected-IsOwned, reported-IsOwned,
}

module _ {E : Type 0} (out : Outside E) where
  -- What happens to a port while its inspector stays: a client comes, at an address and with an
  -- identifier that no other has; a client asks for a page; a client goes; the inspector reports.
  pub data Step (a : Iport) : Iport → Type 0 where
    accepted :
        (w fd : ℕ) (ws_id : List ℕ)
        → a.clients w ≡ none
        → a.ws_id_to_iws ws_id ≡ none
        → Step a (accept w fd ws_id a)
    inspected : (n w : ℕ) (e : E) → Step a (start_devtools out n w a e).iport
    closed : (w : ℕ) (e : E) → Step a (iws_close out w a e).iport
    connected : (app : App) (e : E) → Step a (on_application_connected out app a e).iport
    updated : (app_id : List ℕ) (e : E) → Step a (add_app_id out app_id a e).iport
    disconnected : (app_id : List ℕ) (e : E) → Step a (remove_app_id out app_id a e).0
    reported :
        (apps : List App) (e : E) → Step a (on_report_connected_application_list out apps a e).iport
    -- the number of pages that were ever listed fits 32 bits
    listed :
        (app_id : List ℕ) (pages : List Page) (e : E)
        → max_of a.iwi + count pages < 2 ^ 32
        → Step a (on_application_sent_listing out app_id pages a e).iport

  pub data Reaches (a : Iport) : Iport → Type 0 where
    start : Reaches a a
    after : {b c : Iport} → Reaches a b → Step b c → Reaches a c

  Step-IsOwned : {a b : Iport} → Step a b → IsOwned a → IsOwned b
  Step-IsOwned {a} (accepted w fd ws_id vacant unused) owned =
      accept-IsOwned w fd ws_id a owned vacant unused
  Step-IsOwned {a} (inspected n w e) owned = start_devtools-IsOwned out n w a e owned
  Step-IsOwned {a} (closed w e) owned = iws_close-IsOwned out w a e owned
  Step-IsOwned {a} (connected app e) owned = connected-IsOwned out app a e owned
  Step-IsOwned {a} (updated app_id e) owned = add_app_id-IsOwned out app_id a e owned
  Step-IsOwned {a} (disconnected app_id e) owned = remove_app_id-IsOwned out app_id a e owned
  Step-IsOwned {a} (reported apps e) owned = reported-IsOwned out apps a e owned
  Step-IsOwned {a} (listed app_id pages e small) owned =
      listing-IsOwned out app_id pages a e owned small

  Reaches-IsOwned : {a b : Iport} → Reaches a b → IsOwned a → IsOwned b
  Reaches-IsOwned start owned = owned
  Reaches-IsOwned (after before step) owned = Step-IsOwned step (Reaches-IsOwned before owned)

-- a port with no clients and no pages
abbrev pub Vacant : Iport → Type 0
Vacant a = ((w : ℕ) → a.clients w ≡ none) × (a.pages ≡ [])

Vacant-IsOwned : (a : Iport) → Vacant a → IsOwned a
unfolding find_page
Vacant-IsOwned a (nobody, nothing) = record {
  registered = λ w iws h. absurd (cc (h, nobody w));
  held = λ w iws n h has. absurd (cc (h, nobody w));
  below = λ n p h.
      let gone : find_page n a.pages ≡ none = ap (find_page n) nothing in absurd (cc (h, gone));
}

-- Whatever clients come and go, ask for pages and take them from each other, and whatever the inspector
-- reports: a client that has a page is the one that the page points back to, with the client's own
-- identifier as its sender, the page is in the table, and so no other client has it.
pub Reaches-Held :
    {E : Type 0} (out : Outside E) (a b : Iport)
    → Vacant a
    → Reaches out a b
    → (w : ℕ) (iws : Iws) (n : ℕ) → b.clients w ≡ some iws
    → iws.ipage ≡ some n
    → Held b.pages w iws.ws_id n
      × ((k : ℕ) (other : Iws) → b.clients k ≡ some other → other.ipage ≡ some n → k ≡ w)
Reaches-Held out a b vacant reaches w iws n there has =
    let owned = Reaches-IsOwned out reaches (Vacant-IsOwned a vacant) in
    let mine = owned.held w iws n there has in
    (
      mine,
      λ k other there' has'.
          let theirs = owned.held k other n there' has' in
          let found = mine.found in
          let found' = theirs.found in
          let owner = mine.owner in
          let owner' = theirs.owner in
          let same = page_inj mine.ipage theirs.ipage (sym found ∙ found') in
          number_inj k w (sym owner' ∙ ap (λ p. p.iws) (sym same) ∙ owner),
    )
