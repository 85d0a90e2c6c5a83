-- ===== src/Proxy/Owned.antt =====
-- A client and the page that it debugs point at each other, in src/ios_webkit_debug_proxy.c.
use bootstrap_agency_templat.Prelude.{
  ℕ, ◌≤◌, ◌≡◌, ◌≢◌, inl, inr, Option, none, some, List, arith, Option-cases,
}
use bootstrap_agency_templat.Proxy.{Ipage, Iws, Iwi, Iport}
use bootstrap_agency_templat.Proxy.Pages.{find_page}
use bootstrap_agency_templat.Proxy.Session.{
  check_client, check_page, claimed, unclaimed, wrong, check_stop,
}

-- The page `n` is there, and is the client's: it points back, and has the client's identifier.
pub record Held (pages : List Ipage) (w : ℕ) (ws_id : List ℕ) (n : ℕ) : Type 0 where
  pub ipage : Ipage
  pub found : find_page n pages ≡ some ipage
  pub owner : ipage.iws ≡ some w
  pub sender : ipage.sender_id ≡ some ws_id

abbrev pub max_of : Option Iwi → ℕ
max_of none = 0
max_of (some iwi) = iwi.max_page_num

-- What the source's assertion on `ipage` promises, with what it rests on: each client is in the table of
-- its port, a client that has a page holds it, and the numbers of the pages have been given out.
pub record IsOwned (iport : Iport) : Type 0 where
  pub registered :
      (w : ℕ) (iws : Iws) → iport.clients w ≡ some iws → iport.ws_id_to_iws iws.ws_id ≡ some w
  pub held :
      (w : ℕ) (iws : Iws) (n : ℕ)
      → iport.clients w ≡ some iws
      → iws.ipage ≡ some n
      → Held iport.pages w iws.ws_id n
  pub below : (n : ℕ) (p : Ipage) → find_page n iport.pages ≡ some p → n ≤ max_of iport.iwi

-- no client has the page
abbrev pub IsFree : ℕ → Iport → Type 0
IsFree n iport = (w : ℕ) (iws : Iws) → iport.clients w ≡ some iws → iws.ipage ≢ some n

pub page_inj : (p q : Ipage) → some p ≡ some q → p ≡ q
page_inj p q h = cc h

pub number_inj : (n m : ℕ) → some n ≡ some m → n ≡ m
number_inj n m h = cc h

-- What `check_stop` has seen where it finds a client.
pub data Claim (n : ℕ) (iport : Iport) (w : ℕ) (ipage : Ipage) : Type 0 where
  seen :
      (iws : Iws)
      → find_page n iport.pages ≡ some ipage
      → ipage.iws ≡ some w
      → iport.clients w ≡ some iws
      → iws.ipage ≡ some n
      → Claim n iport w ipage

pub wrong_claimed : (w : ℕ) (ipage : Ipage) → wrong ≢ claimed w ipage
wrong_claimed w ipage h = cc h

pub unclaimed_claimed : (w : ℕ) (ipage : Ipage) → unclaimed ≢ claimed w ipage
unclaimed_claimed w ipage h = cc h

check_client-claimed :
    (n : ℕ) (iport : Iport) (p : Ipage) (k : ℕ) (iws : Iws) (w : ℕ) (ipage : Ipage)
    → check_client n iport p k iws ≡ claimed w ipage
    → (claimed k p ≡ claimed w ipage) × (iws.ipage ≡ some n)
unfolding check_client
check_client-claimed n iport p k iws w ipage h = (ground arith, ground arith)

pub check_stop-Claim :
    (n : ℕ) (iport : Iport) (w : ℕ) (ipage : Ipage)
    → check_stop n iport ≡ claimed w ipage
    → Claim n iport w ipage
unfolding check_stop check_page
check_stop-Claim n iport w ipage h = elim (Option-cases (find_page n iport.pages)) [
  | inl gone ↦ absurd (ground arith)
  | inr (p, found) ↦ elim (Option-cases p.iws) [
    | inl gone ↦ absurd (ground arith)
    | inr (k, owner) ↦ elim (Option-cases (iport.clients k)) [
      | inl gone ↦ absurd (ground arith)
      | inr (iws, there) ↦
          let (same, has) = check_client-claimed n iport p k iws w ipage (ground arith) in
          seen iws (cc (found, same)) (cc (owner, same)) (cc (there, same)) has
    ]
  ]
]

pub check_stop-held :
    (n : ℕ) (iport : Iport) (w : ℕ) (iws : Iws) (held : Held iport.pages w iws.ws_id n)
    → iport.clients w ≡ some iws
    → iws.ipage ≡ some n
    → iport.ws_id_to_iws iws.ws_id ≡ some w
    → check_stop n iport ≡ claimed w held.ipage
unfolding check_stop check_page check_client
check_stop-held n iport w iws held there has registered =
    let found = held.found in let owner = held.owner in let sender = held.sender in ground arith
