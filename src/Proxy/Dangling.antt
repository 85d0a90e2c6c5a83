-- ===== src/Proxy/Dangling.antt =====
-- What `iwdp_iws_close` of src/ios_webkit_debug_proxy.c leaves behind in a page, and what the next
-- `iwdp_start_devtools` of the page does with it.
use bootstrap_agency_templat.Prelude.{
  ℕ, ◌≡◌, refl, ap, ◌∙◌, ◌≢◌, none, some, List, arith, ◌==◌, false, ==_refl, ==_ne,
}
use bootstrap_agency_templat.Proxy.{Ipage, Iws, Iwi, Iport}
use bootstrap_agency_templat.Proxy.Pages.{find_page}
use bootstrap_agency_templat.Proxy.Session.{
  wrong, Outside, check_page, check_client, check_stop, stop_devtools, take_page, start_devtools,
  with_client, with_page, stolen_client, started_client, started_page,
}
use bootstrap_agency_templat.Proxy.Clients.{new_client, accept, forget_client, give_up, iws_close}

iws_close-cut_off :
    {E : Type 0} (out : Outside E) (w : ℕ) (iws : Iws) (a : Iport) (e : E)
    → a.clients w ≡ some iws
    → iws.ipage ≡ none
    → (iws_close out w a e).iport ≡ forget_client w iws a
unfolding iws_close give_up
iws_close-cut_off out w iws a e there cut =
    let left : (give_up out w iws a e).0 ≡ a = rw (cut, give_up) refl in
    rw (there, iws_close) (ap (forget_client w iws) left)

-- A page whose pointer leads to a client that has no page is taken, but not stopped.
start_devtools-wrong :
    {E : Type 0} (out : Outside E) (n w k : ℕ) (p : Ipage) (iws : Iws) (iwi : Iwi) (b : Iport)
    (e : E)
    → find_page n b.pages ≡ some p
    → p.iws ≡ some w
    → check_stop n b ≡ wrong
    → b.clients k ≡ some iws
    → b.iwi ≡ some iwi
    → (start_devtools out n k b e).iport
      ≡ with_page n
          (started_page k iws.ws_id)
          (with_client k (started_client n) (with_client w (stolen_client n) b))
unfolding start_devtools take_page stop_devtools
start_devtools-wrong out n w k p iws iwi b e found owner stale there has =
    let free : (take_page out n p.iws b e).0 ≡ with_client w (stolen_client n) b =
      rw (owner, stale, take_page, stop_devtools) refl in
    let opened : (start_devtools out n k b e).iport
        ≡ with_page n (started_page k iws.ws_id)
            (with_client k (started_client n) (take_page out n p.iws b e).0) =
      simp (found, there, has, start_devtools) in
    opened
    ∙ ap (λ c. with_page n (started_page k iws.ws_id) (with_client k (started_client n) c)) free

-- A client that was cut off from its page by another inspector is freed, but the page keeps its pointer
-- to it. If the next client is allocated at the same address, a start of the page for a third client
-- writes the number of the page into this new client, which never asked for a page.
pub iws_close-dangling :
    {E : Type 0} (out : Outside E) (w n k fd : ℕ) (ws_id : List ℕ) (iws third : Iws) (iwi : Iwi)
    (p : Ipage) (a : Iport) (e e' : E)
    → a.clients w ≡ some iws
    → iws.ipage ≡ none
    → find_page n a.pages ≡ some p
    → p.iws ≡ some w
    → k ≢ w
    → a.clients k ≡ some third
    → a.iwi ≡ some iwi
    → let closed = (iws_close out w a e).iport in
      let reused = accept w fd ws_id closed in
      (closed.clients w ≡ none)
      × (find_page n closed.pages ≡ some p)
      × (reused.clients w ≡ some (new_client fd ws_id))
      × ((start_devtools out n k reused e').iport.clients w
          ≡ some (stolen_client n (new_client fd ws_id)))
unfolding forget_client accept check_stop check_page check_client
iws_close-dangling out w n k fd ws_id iws third iwi p a e e' there cut found owner apart other has =
    let whole = iws_close-cut_off out w iws a e there cut in
    let b = forget_client w iws a in
    let c = accept w fd ws_id b in
    let self = ==_refl w in
    let not_w : (k == w) ≡ false = ==_ne k w apart in
    let gone : b.clients w ≡ none = rw (self, forget_client) refl in
    let new : c.clients w ≡ some (new_client fd ws_id) = rw (self, accept) refl in
    let still : c.clients k ≡ some third = rw (not_w, accept) (ground arith) in
    let stale : check_stop n c ≡ wrong = ground arith in
    let started = start_devtools-wrong out n w k p third iwi c e' found owner stale still has in
    let written : (with_client k (started_client n) (with_client w (stolen_client n) c)).clients w
        ≡ some (stolen_client n (new_client fd ws_id)) =
      ground arith in
    (
      ap (λ q. q.clients w) whole ∙ gone,
      ap (λ q. find_page n q.pages) whole ∙ found,
      ap (λ q. (accept w fd ws_id q).clients w) whole ∙ new,
      ap (λ q. (start_devtools out n k (accept w fd ws_id q) e').iport.clients w) whole
          ∙ ap (λ q. q.clients w) started
          ∙ written,
    )
