-- ===== src/Proxy/Writes.antt =====
-- What a write to a client or to a page leaves of the ownership, in src/ios_webkit_debug_proxy.c.
use bootstrap_agency_templat.Prelude.{
  ℕ, ◌≤◌, ◌≡◌, sym, ap, ◌∙◌, subst, ◌≢◌, ◌⊎◌, inl, inr, Option, none, some, List, arith, ◌==◌,
  ==_iff, Bool-cases, Option-cases,
}
use bootstrap_agency_templat.Proxy.{Ipage, Iws, Iport}
use bootstrap_agency_templat.Proxy.Pages.{
  find_page, update_page, remove_page, find_page-update_self, find_page-update_none,
  find_page-update_ne, find_page-remove_self, find_page-remove_ne,
}
use bootstrap_agency_templat.Proxy.Session.{write_client, with_client, with_page}
use bootstrap_agency_templat.Proxy.Owned.{Held, max_of, IsOwned, IsFree}

-- the client that is seen after a write
pub data Wrote (w : ℕ) (f : Iws → Iws) (clients : ℕ → Option Iws) (k : ℕ) (iws' : Iws)
    : Type 0 where
  written : (iws : Iws) → k ≡ w → clients k ≡ some iws → iws' ≡ f iws → Wrote w f clients k iws'
  other : k ≢ w → clients k ≡ some iws' → Wrote w f clients k iws'

pub client_inj : (a b : Iws) → some a ≡ some b → a ≡ b
client_inj a b h = cc h

pub write_client-Wrote :
    (w : ℕ) (f : Iws → Iws) (clients : ℕ → Option Iws) (k : ℕ) (iws' : Iws)
    → write_client w f clients k ≡ some iws'
    → Wrote w f clients k iws'
write_client-Wrote w f clients k iws' h = elim (Bool-cases (k == w)) [
  | inr apart ↦ other (ground arith) (ground arith)
  | inl same ↦
      let here_is : k ≡ w = (==_iff k w).0 same in
      elim (Option-cases (clients w)) [
        | inl gone ↦ absurd (ground arith)
        | inr (iws, there) ↦
            let new : some (f iws) ≡ some iws' = ground arith in
            written iws here_is (ap clients here_is ∙ there) (sym (client_inj (f iws) iws' new))
      ]
]

pub with_client-IsOwned :
    (w : ℕ) (f : Iws → Iws)
    → ((iws : Iws) → (f iws).ws_id ≡ iws.ws_id)
    → ((iws : Iws) → ((f iws).ipage ≡ none) ⊎ ((f iws).ipage ≡ iws.ipage))
    → (iport : Iport) → IsOwned iport
    → IsOwned (with_client w f iport)
with_client-IsOwned w f id drops iport owned = record {
  registered = λ k iws' h. elim (write_client-Wrote w f iport.clients k iws' h) [
    | other apart there ↦ owned.registered k iws' there
    | written iws same there new ↦
        ap iport.ws_id_to_iws (ap (λ c. c.ws_id) new ∙ id iws) ∙ owned.registered k iws there
  ];
  held = λ k iws' n h has. elim (write_client-Wrote w f iport.clients k iws' h) [
    | other apart there ↦ owned.held k iws' n there has
    | written iws same there new ↦ elim (drops iws) [
      | inl lost ↦ absurd (cc (has, ap (λ c. c.ipage) new, lost))
      | inr kept ↦
          subst (λ ws_id. Held iport.pages k ws_id n) (sym (ap (λ c. c.ws_id) new ∙ id iws))
            (owned.held k iws n there (cc (has, ap (λ c. c.ipage) new, kept)))
    ]
  ];
  below = owned.below;
}

Held-update :
    (n m : ℕ) (f : Ipage → Ipage)
    → ((p : Ipage) → (f p).page_num ≡ p.page_num)
    → n ≢ m
    → (pages : List Ipage) (w : ℕ) (ws_id : List ℕ) → Held pages w ws_id m
    → Held (update_page n f pages) w ws_id m
Held-update n m f keeps apart pages w ws_id held = record {
  ipage = held.ipage;
  found = find_page-update_ne n m f keeps apart pages ∙ held.found;
  owner = held.owner;
  sender = held.sender;
}

pub update-below :
    (n : ℕ) (f : Ipage → Ipage)
    → ((p : Ipage) → (f p).page_num ≡ p.page_num)
    → (top : ℕ) (pages : List Ipage) → ((m : ℕ) (p : Ipage) → find_page m pages ≡ some p → m ≤ top)
    → (m : ℕ) (p : Ipage) → find_page m (update_page n f pages) ≡ some p
    → m ≤ top
update-below n f keeps top pages below m p h = elim (Option-cases (find_page m pages)) [
  | inr (q, there) ↦ below m q there
  | inl gone ↦ absurd (cc (h, find_page-update_none n m f keeps pages gone))
]

-- A page that no client has can be written to.
pub with_page-IsOwned :
    (n : ℕ) (f : Ipage → Ipage)
    → ((p : Ipage) → (f p).page_num ≡ p.page_num)
    → (iport : Iport) → IsFree n iport
    → IsOwned iport
    → IsOwned (with_page n f iport)
with_page-IsOwned n f keeps iport free owned = record {
  registered = owned.registered;
  held = λ k iws m there has.
      Held-update n m f keeps (λ same. free k iws there (has ∙ ap some (sym same))) iport.pages k
        iws.ws_id (owned.held k iws m there has);
  below = update-below n f keeps (max_of iport.iwi) iport.pages owned.below;
}

-- A page can be described anew, if its client and its identifier stay.
pub with_page-keeps :
    (n : ℕ) (f : Ipage → Ipage)
    → ((p : Ipage) → (f p).page_num ≡ p.page_num)
    → ((p : Ipage) → (f p).iws ≡ p.iws)
    → ((p : Ipage) → (f p).sender_id ≡ p.sender_id)
    → (iport : Iport) → IsOwned iport
    → IsOwned (with_page n f iport)
with_page-keeps n f keeps iws_kept sender_kept iport owned = record {
  registered = owned.registered;
  held = λ k iws m there has.
      let held = owned.held k iws m there has in
      elim (Bool-cases (n == m)) [
        | inr apart ↦ Held-update n m f keeps (ground arith) iport.pages k iws.ws_id held
        | inl same ↦
            let at_n : n ≡ m = (==_iff n m).0 same in
            record {
              ipage = f held.ipage;
              found =
                  subst (λ j. find_page m (update_page j f iport.pages) ≡ some (f held.ipage))
                    (sym at_n) (find_page-update_self m f keeps iport.pages held.ipage held.found);
              owner = iws_kept held.ipage ∙ held.owner;
              sender = sender_kept held.ipage ∙ held.sender;
            }
      ];
  below = update-below n f keeps (max_of iport.iwi) iport.pages owned.below;
}

abbrev pub without_page : ℕ → Iport → Iport
without_page n iport = record iport { pages = remove_page n iport.pages }

-- A page that no client has can be freed.
pub without_page-IsOwned :
    (n : ℕ) (iport : Iport) → IsFree n iport → IsOwned iport → IsOwned (without_page n iport)
without_page-IsOwned n iport free owned = record {
  registered = owned.registered;
  held = λ k iws m there has.
      let held = owned.held k iws m there has in
      let apart : n ≢ m = λ same. free k iws there (has ∙ ap some (sym same)) in
      record {
        ipage = held.ipage;
        found = find_page-remove_ne n m apart iport.pages ∙ held.found;
        owner = held.owner;
        sender = held.sender;
      };
  below = λ m p h. elim (Bool-cases (n == m)) [
    | inl same ↦
        let at_n : n ≡ m = (==_iff n m).0 same in
        absurd (cc (h, at_n, find_page-remove_self m iport.pages))
    | inr apart ↦ owned.below m p (sym (find_page-remove_ne n m (ground arith) iport.pages) ∙ h)
  ];
}
