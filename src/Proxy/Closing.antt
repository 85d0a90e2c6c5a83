-- ===== src/Proxy/Closing.antt =====
-- `iwdp_iport_accept` and `iwdp_iws_close` of src/ios_webkit_debug_proxy.c keep the ownership.
use bootstrap_agency_templat.Prelude.{
  ℕ, ◌≡◌, refl, sym, ap, ◌∙◌, subst, inl, inr, Bool, true, false, none, some, List, arith, ◌==◌,
  if◌then◌else◌, ==_iff, Bool-cases, Option-cases,
}
use bootstrap_agency_templat.Libc.{strcmp_equal, strcmp_equal-eq}
use bootstrap_agency_templat.Proxy.{Iws, Iport}
use bootstrap_agency_templat.Proxy.Pages.{find_page}
use bootstrap_agency_templat.Proxy.Session.{Outside, is_number}
use bootstrap_agency_templat.Proxy.Clients.{new_client, accept, forget_client, give_up, iws_close}
use bootstrap_agency_templat.Proxy.Owned.{IsOwned}
use bootstrap_agency_templat.Proxy.Writes.{client_inj}
use bootstrap_agency_templat.Proxy.Stopping.{stop_devtools-IsOwned}

strcmp_equal_self : (s : List ℕ) → strcmp_equal s s ≡ true
strcmp_equal_self s = (strcmp_equal-eq s s).1 refl

-- A client at a new address, with a new identifier, is taken into the table.
pub accept-IsOwned :
    (w fd : ℕ) (ws_id : List ℕ) (a : Iport)
    → IsOwned a
    → a.clients w ≡ none
    → a.ws_id_to_iws ws_id ≡ none
    → IsOwned (accept w fd ws_id a)
unfolding accept
accept-IsOwned w fd ws_id a owned vacant unused = record {
  registered = λ k iws h. elim (Bool-cases (k == w)) [
    | inl same ↦
        let new : new_client fd ws_id ≡ iws = client_inj (new_client fd ws_id) iws (ground arith) in
        subst
          (λ c. (if strcmp_equal c.ws_id ws_id then some w else a.ws_id_to_iws c.ws_id) ≡ some k)
          new (rw (strcmp_equal_self ws_id) (ap some (sym ((==_iff k w).0 same))))
    | inr apart ↦
        let old : a.clients k ≡ some iws = ground arith in
        let there = owned.registered k iws old in
        elim (Bool-cases (strcmp_equal iws.ws_id ws_id)) [
          | inr other_id ↦ ground arith
          | inl same_id ↦
              let one : iws.ws_id ≡ ws_id = (strcmp_equal-eq iws.ws_id ws_id).0 same_id in
              absurd (cc (there, one, unused))
        ]
  ];
  held = λ k iws n h has. elim (Bool-cases (k == w)) [
    | inl same ↦
        let new : new_client fd ws_id ≡ iws = client_inj (new_client fd ws_id) iws (ground arith) in
        absurd (cc (has, ap (λ c. c.ipage) new))
    | inr apart ↦ owned.held k iws n (ground arith) has
  ];
  below = owned.below;
}

-- A client that is freed leaves the table.
forget_client-IsOwned :
    (w : ℕ) (iws : Iws) (a : Iport) → IsOwned a → IsOwned (forget_client w iws a)
unfolding forget_client
forget_client-IsOwned w iws a owned = record {
  registered = λ k c h.
      let apart : (k == w) ≡ false = ground arith in
      let old : a.clients k ≡ some c = ground arith in
      let there = owned.registered k c old in
      elim (Bool-cases (strcmp_equal c.ws_id iws.ws_id)) [
        | inr other_id ↦ ground arith
        | inl same_id ↦
            let one : c.ws_id ≡ iws.ws_id = (strcmp_equal-eq c.ws_id iws.ws_id).0 same_id in
            let there' : a.ws_id_to_iws iws.ws_id ≡ some k = ap a.ws_id_to_iws (sym one) ∙ there in
            rw (there', apart) (ground arith)
      ];
  held = λ k c n h has. owned.held k c n (ground arith) has;
  below = owned.below;
}

module _ {E : Type 0} (out : Outside E) where
  give_up-IsOwned :
      (w : ℕ) (iws : Iws) (a : Iport) (e : E) → IsOwned a → IsOwned (give_up out w iws a e).0
  unfolding give_up
  give_up-IsOwned w iws a e owned = elim (Option-cases iws.ipage) [
    | inl gone ↦ rw (gone, give_up) owned
    | inr (n, has) ↦ elim (Option-cases (find_page n a.pages)) [
      | inl gone ↦ rw (has, gone, give_up) owned
      | inr (p, found) ↦
          let mine : Bool = elim p.sender_id [ none ↦ false | some _ ↦ is_number w p.iws ] in
          elim (Bool-cases mine) [
            | inl t ↦ rw (has, found, t, give_up) (stop_devtools-IsOwned out n a e owned).0
            | inr f ↦ rw (has, found, f, give_up) owned
          ]
    ]
  ]

  pub iws_close-IsOwned :
      (w : ℕ) (a : Iport) (e : E) → IsOwned a → IsOwned (iws_close out w a e).iport
  unfolding iws_close
  iws_close-IsOwned w a e owned = elim (Option-cases (a.clients w)) [
    | inl gone ↦ rw (gone, iws_close) owned
    | inr (iws, there) ↦
        rw (there, iws_close)
          (forget_client-IsOwned w iws (give_up out w iws a e).0 (give_up-IsOwned w iws a e owned))
  ]
