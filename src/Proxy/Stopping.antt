-- ===== src/Proxy/Stopping.antt =====
-- `iwdp_start_devtools`, `iwdp_stop_devtools`, `iwdp_iport_accept` and `iwdp_iws_close` of
-- src/ios_webkit_debug_proxy.c keep the ownership.
use bootstrap_agency_templat.Prelude.{ℕ, ◌≡◌, refl, sym, ap, ◌∙◌, ◌≢◌, ◌⊎◌, inl, inr}
use bootstrap_agency_templat.Proxy.{Ipage, Iport}
use bootstrap_agency_templat.Proxy.Session.{
  claimed, unclaimed, wrong, Outside, with_client, Stop, check_stop, stopped_client, stopped_page,
  stopped, stop_devtools,
}
use bootstrap_agency_templat.Proxy.Owned.{
  seen, IsOwned, IsFree, page_inj, number_inj, Claim, wrong_claimed, unclaimed_claimed,
  check_stop-Claim, check_stop-held,
}
use bootstrap_agency_templat.Proxy.Writes.{
  written, other, write_client-Wrote, with_client-IsOwned, with_page-IsOwned,
}

-- The guards of `iwdp_stop_devtools` turn a page away only if no client has it.
check_stop-IsFree :
    (n : ℕ) (iport : Iport)
    → IsOwned iport
    → ((w : ℕ) (ipage : Ipage) → check_stop n iport ≢ claimed w ipage)
    → IsFree n iport
check_stop-IsFree n iport owned never w iws there has =
    let held = owned.held w iws n there has in
    never w held.ipage (check_stop-held n iport w iws held there has (owned.registered w iws there))

stopped-IsFree :
    (n w : ℕ) (ipage : Ipage) (iport : Iport)
    → IsOwned iport
    → Claim n iport w ipage
    → IsFree n (with_client w stopped_client iport)
stopped-IsFree n w ipage iport owned (seen iws found owner there has) k iws' h has' =
    elim (write_client-Wrote w stopped_client iport.clients k iws' h) [
      | written c same old new ↦ absurd (cc (has', ap (λ c. c.ipage) new))
      | other apart old ↦
          let held = owned.held k iws' n old has' in
          let held_found = held.found in
          let held_owner = held.owner in
          let same_page : ipage ≡ held.ipage = page_inj ipage held.ipage (sym found ∙ held_found) in
          apart (number_inj k w (sym held_owner ∙ ap (λ p. p.iws) (sym same_page) ∙ owner))
    ]

stopped-IsOwned :
    (n w : ℕ) (ipage : Ipage) (iport : Iport)
    → IsOwned iport
    → Claim n iport w ipage
    → IsOwned (stopped n w iport) × IsFree n (stopped n w iport)
stopped-IsOwned n w ipage iport owned claim =
    let free = stopped-IsFree n w ipage iport owned claim in
    let owned' = with_client-IsOwned w stopped_client (λ c. refl) (λ c. inl refl) iport owned in
    (
      with_page-IsOwned n stopped_page (λ p. refl) (with_client w stopped_client iport) free owned',
      free,
    )

pub Stop-cases :
    (s : Stop)
    → ((s ≡ unclaimed) ⊎ (s ≡ wrong)) ⊎ ((w : ℕ) × (ipage : Ipage) × (s ≡ claimed w ipage))
Stop-cases unclaimed = inl (inl refl)
Stop-cases wrong = inl (inr refl)
Stop-cases (claimed w ipage) = inr (w, ipage, refl)

module _ {E : Type 0} (out : Outside E) where
  -- After a stop the ownership holds, and no client has the page.
  pub stop_devtools-IsOwned :
      (n : ℕ) (iport : Iport) (e : E)
      → IsOwned iport
      → IsOwned (stop_devtools out n iport e).iport × IsFree n (stop_devtools out n iport e).iport
  unfolding stop_devtools
  stop_devtools-IsOwned n iport e owned = elim (Stop-cases (check_stop n iport)) [
    | inl (inl s) ↦
        rw (s, stop_devtools)
          (owned, check_stop-IsFree n iport owned (λ w p h. unclaimed_claimed w p (sym s ∙ h)))
    | inl (inr s) ↦
        rw (s, stop_devtools)
          (owned, check_stop-IsFree n iport owned (λ w p h. wrong_claimed w p (sym s ∙ h)))
    | inr (w, ipage, s) ↦
        rw (s, stop_devtools)
          (stopped-IsOwned n w ipage iport owned (check_stop-Claim n iport w ipage s))
  ]
