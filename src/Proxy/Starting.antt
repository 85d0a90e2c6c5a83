-- ===== src/Proxy/Starting.antt =====
-- `iwdp_start_devtools` of src/ios_webkit_debug_proxy.c keeps the ownership, and gives the page to its
-- new client.
use bootstrap_agency_templat.Prelude.{
  ℕ, ◌≡◌, refl, sym, ap, ◌∙◌, subst, ◌≢◌, ◌⊎◌, inl, inr, Option, none, some, arith, ◌==◌, ==_iff,
  Bool-cases, Option-cases,
}
use bootstrap_agency_templat.Proxy.{Ipage, Iws, Iport}
use bootstrap_agency_templat.Proxy.Pages.{
  find_page, update_page, find_page-update_self, find_page-update_ne,
}
use bootstrap_agency_templat.Proxy.Session.{
  Outside, with_client, with_page, check_stop, stopped_client, stopped_page, stopped,
  started_client, started_page, stolen_client, stop_devtools, take_page, start_devtools,
}
use bootstrap_agency_templat.Proxy.Owned.{max_of, IsOwned, IsFree, page_inj, number_inj}
use bootstrap_agency_templat.Proxy.Writes.{
  written, other, write_client-Wrote, with_client-IsOwned, update-below,
}
use bootstrap_agency_templat.Proxy.Stopping.{Stop-cases, stop_devtools-IsOwned}

-- Clients and pages of `a` are still there in `b`, the clients under their identifiers.
record Stays (a b : Iport) : Type 0 where
  client :
      (w : ℕ) (iws : Iws)
      → a.clients w ≡ some iws
      → (iws' : Iws) × (b.clients w ≡ some iws') × (iws'.ws_id ≡ iws.ws_id)
  page :
      (n : ℕ) (p : Ipage)
      → find_page n a.pages ≡ some p
      → (q : Ipage) × (find_page n b.pages ≡ some q)

Stays-refl : (a : Iport) → Stays a a
Stays-refl a = record { client = λ w iws h. (iws, h, refl); page = λ n p h. (p, h) }

Stays-trans : (a b c : Iport) → Stays a b → Stays b c → Stays a c
Stays-trans a b c first second = record {
  client = λ w iws h.
      let (iws', h', id) = first.client w iws h in
      let (iws'', h'', id') = second.client w iws' h' in (iws'', h'', id' ∙ id);
  page = λ n p h. let (q, h') = first.page n p h in second.page n q h';
}

Stays-with_client :
    (k : ℕ) (f : Iws → Iws)
    → ((iws : Iws) → (f iws).ws_id ≡ iws.ws_id)
    → (a : Iport) → Stays a (with_client k f a)
Stays-with_client k f id a = record {
  client = λ w iws h. elim (Bool-cases (w == k)) [
    | inr apart ↦ (iws, ground arith, refl)
    | inl same ↦
        let at_k : w ≡ k = (==_iff w k).0 same in
        let there : a.clients k ≡ some iws = ap a.clients (sym at_k) ∙ h in
        (f iws, rw (same, there) refl, id iws)
  ];
  page = λ n p h. (p, h);
}

Stays-with_page :
    (m : ℕ) (f : Ipage → Ipage)
    → ((p : Ipage) → (f p).page_num ≡ p.page_num)
    → (a : Iport) → Stays a (with_page m f a)
Stays-with_page m f keeps a = record {
  client = λ w iws h. (iws, h, refl);
  page = λ n p h. elim (Bool-cases (m == n)) [
    | inr apart ↦ (p, find_page-update_ne m n f keeps (ground arith) a.pages ∙ h)
    | inl same ↦
        let at_n : m ≡ n = (==_iff m n).0 same in
        (
          f p,
          subst (λ j. find_page n (update_page j f a.pages) ≡ some (f p)) (sym at_n)
              (find_page-update_self n f keeps a.pages p h),
        )
  ];
}

with_client-IsFree :
    (n k : ℕ) (f : Iws → Iws)
    → ((iws : Iws) → ((f iws).ipage ≡ none) ⊎ ((f iws).ipage ≡ iws.ipage))
    → (a : Iport) → IsFree n a
    → IsFree n (with_client k f a)
with_client-IsFree n k f drops a free w iws' h has =
    elim (write_client-Wrote k f a.clients w iws' h) [
      | other apart there ↦ free w iws' there has
      | written iws same there new ↦ elim (drops iws) [
        | inl lost ↦ absurd (cc (has, ap (λ c. c.ipage) new, lost))
        | inr kept ↦ free w iws there (cc (has, ap (λ c. c.ipage) new, kept))
      ]
    ]

-- The writes of a start, on a page that no client has.
started-IsOwned :
    (n w : ℕ) (iws : Iws) (p : Ipage) (a : Iport)
    → IsOwned a
    → IsFree n a
    → a.clients w ≡ some iws
    → find_page n a.pages ≡ some p
    → IsOwned (with_page n (started_page w iws.ws_id) (with_client w (started_client n) a))
started-IsOwned n w iws p a owned free there found = record {
  registered = λ k iws' h. elim (write_client-Wrote w (started_client n) a.clients k iws' h) [
    | other apart old ↦ owned.registered k iws' old
    | written c same old new ↦ ap a.ws_id_to_iws (ap (λ c. c.ws_id) new) ∙ owned.registered k c old
  ];
  held = λ k iws' m h has. elim (write_client-Wrote w (started_client n) a.clients k iws' h) [
    | other apart old ↦
        let held = owned.held k iws' m old has in
        let ne : n ≢ m = λ same. free k iws' old (has ∙ ap some (sym same)) in
        record {
          ipage = held.ipage;
          found =
              find_page-update_ne n m (started_page w iws.ws_id) (λ q. refl) ne a.pages
              ∙ held.found;
          owner = held.owner;
          sender = held.sender;
        }
    | written c same old new ↦
        let at_n : n ≡ m = number_inj n m (sym (ap (λ c. c.ipage) new) ∙ has) in
        let at_w : k ≡ w = same in
        let one : c ≡ iws = cc (old, at_w, there) in
        record {
          ipage = started_page w iws.ws_id p;
          found =
              subst
                (λ j.
                  find_page j (update_page n (started_page w iws.ws_id) a.pages)
                  ≡ some (started_page w iws.ws_id p))
                at_n
                (find_page-update_self n (started_page w iws.ws_id) (λ q. refl) a.pages p found);
          owner = ap some (sym at_w);
          sender = ap some (ap (λ c. c.ws_id) (sym one) ∙ sym (ap (λ c. c.ws_id) new));
        }
  ];
  below = update-below n (started_page w iws.ws_id) (λ q. refl) (max_of a.iwi) a.pages owned.below;
}

module _ {E : Type 0} (out : Outside E) where
  stop_devtools-Stays : (n : ℕ) (a : Iport) (e : E) → Stays a (stop_devtools out n a e).iport
  unfolding stop_devtools
  stop_devtools-Stays n a e = elim (Stop-cases (check_stop n a)) [
    | inl (inl s) ↦ rw (s, stop_devtools) (Stays-refl a)
    | inl (inr s) ↦ rw (s, stop_devtools) (Stays-refl a)
    | inr (w, ipage, s) ↦
        let b = with_client w stopped_client a in
        rw (s, stop_devtools)
          (Stays-trans a b (stopped n w a) (Stays-with_client w stopped_client (λ c. refl) a)
            (Stays-with_page n stopped_page (λ p. refl) b))
  ]

  -- the page is there for the taking
  record Taken (n : ℕ) (a b : Iport) : Type 0 where
    owned : IsOwned b
    free : IsFree n b
    stays : Stays a b

  take_page-Taken :
      (n : ℕ) (p : Ipage) (a : Iport) (e : E)
      → IsOwned a
      → find_page n a.pages ≡ some p
      → (owner : Option ℕ) → p.iws ≡ owner
      → Taken n a (take_page out n owner a e).0
  unfolding take_page
  take_page-Taken n p a e owned found none unowned = record {
    owned = owned;
    free = λ w iws there has.
        let held = owned.held w iws n there has in
        let held_found = held.found in
        let held_owner = held.owner in
        let same : p ≡ held.ipage = page_inj p held.ipage (sym found ∙ held_found) in
        absurd (cc (ap (λ q. q.iws) same, held_owner, unowned));
    stays = Stays-refl a;
  }
  take_page-Taken n p a e owned found (some w) owner =
      let b = (stop_devtools out n a e).iport in
      let (owned', free) = stop_devtools-IsOwned out n a e owned in
      record {
        owned = with_client-IsOwned w (stolen_client n) (λ c. refl) (λ c. inr refl) b owned';
        free = with_client-IsFree n w (stolen_client n) (λ c. inr refl) b free;
        stays =
            Stays-trans a b (with_client w (stolen_client n) b) (stop_devtools-Stays n a e)
              (Stays-with_client w (stolen_client n) (λ c. refl) b);
      }

  pub start_devtools-IsOwned :
      (n w : ℕ) (a : Iport) (e : E) → IsOwned a → IsOwned (start_devtools out n w a e).iport
  unfolding start_devtools
  start_devtools-IsOwned n w a e owned = elim (Option-cases (find_page n a.pages)) [
    | inl gone ↦ ground (arith, owned)
    | inr (p, found) ↦ elim (Option-cases (a.clients w)) [
      | inl gone ↦ rw (found, gone, start_devtools) owned
      | inr (iws, there) ↦ elim (Option-cases a.iwi) [
        | inl gone ↦ rw (found, there, gone, start_devtools) owned
        | inr (iwi, has) ↦
            let taken = take_page-Taken n p a e owned found p.iws refl in
            let b = (take_page out n p.iws a e).0 in
            let (c, still, id) = taken.stays.client w iws there in
            let (q, page) = taken.stays.page n p found in
            rw (found, there, has, start_devtools)
              (subst
                (λ ws_id.
                  IsOwned (with_page n (started_page w ws_id) (with_client w (started_client n) b)))
                id (started-IsOwned n w c q b taken.owned taken.free still page))
      ]
    ]
  ]
