-- ===== src/Proxy/Reported.antt =====
-- The handlers of the applications in src/ios_webkit_debug_proxy.c keep the ownership.
use bootstrap_agency_templat.Prelude.{
  ℕ, ◌≡◌, refl, ap, inl, inr, true, some, List, [], ◌∷◌, map, arith, Bool-cases, Option-cases,
}
use bootstrap_agency_templat.Libc.{strcmp_equal}
use bootstrap_agency_templat.Rpc.{App}
use bootstrap_agency_templat.Proxy.{Iwi, Iport}
use bootstrap_agency_templat.Proxy.Session.{Outside}
use bootstrap_agency_templat.Proxy.Listing.{has_app}
use bootstrap_agency_templat.Proxy.Apps.{
  remove_app, with_iwi, reports, apps_of, add_app_id, remove_app_id, on_application_connected,
  remove_apps, add_apps, on_report_connected_application_list,
}
use bootstrap_agency_templat.Proxy.Owned.{max_of, IsOwned}
use bootstrap_agency_templat.Proxy.Listed.{with_iwi-IsOwned, remove_pages-IsOwned}

module _ {E : Type 0} (out : Outside E) where
  pub remove_app_id-IsOwned :
      (app_id : List ℕ) (a : Iport) (e : E) → IsOwned a → IsOwned (remove_app_id out app_id a e).0
  unfolding remove_app_id
  remove_app_id-IsOwned app_id a e owned = elim (Option-cases a.iwi) [
    | inl gone ↦ rw (gone, remove_app_id) owned
    | inr (iwi, has) ↦ elim (Bool-cases (has_app app_id iwi.app_id_to_true)) [
      | inr f ↦ rw (has, f, remove_app_id) owned
      | inl t ↦
          let less : Iwi = record iwi { app_id_to_true = remove_app app_id iwi.app_id_to_true } in
          rw (has, t, remove_app_id)
            (remove_pages-IsOwned out (λ p. strcmp_equal app_id p.app_id)
              (map (λ p. p.page_num) a.pages) (record a { iwi = some less }) e
              (with_iwi-IsOwned less a owned (omega (arith, ap max_of has))))
    ]
  ]

  pub add_app_id-IsOwned :
      (app_id : List ℕ) (a : Iport) (e : E) → IsOwned a → IsOwned (add_app_id out app_id a e).iport
  unfolding add_app_id
  add_app_id-IsOwned app_id a e owned = elim (Option-cases a.iwi) [
    | inl gone ↦ rw (gone, add_app_id) owned
    | inr (iwi, has) ↦ elim (Bool-cases (has_app app_id iwi.app_id_to_true)) [
      | inl t ↦ rw (has, t, add_app_id) owned
      | inr f ↦
          rw (has, f, add_app_id)
            (with_iwi-IsOwned (record iwi { app_id_to_true = app_id ∷ iwi.app_id_to_true }) a owned
              (omega (arith, ap max_of has)))
    ]
  ]

  remove_apps-IsOwned :
      (apps : List App) (ids : List (List ℕ)) (a : Iport) (e : E)
      → IsOwned a
      → IsOwned (remove_apps out apps ids a e).0
  unfolding remove_apps
  remove_apps-IsOwned apps [] a e owned = owned
  remove_apps-IsOwned apps (id ∷ ids) a e owned = elim (Bool-cases (reports id apps)) [
    | inl t ↦ rw (t, remove_apps) (remove_apps-IsOwned apps ids a e owned)
    | inr f ↦
        let left = remove_app_id out id a e in
        rw (f, remove_apps)
          (remove_apps-IsOwned apps ids left.0 left.1 (remove_app_id-IsOwned id a e owned))
  ]

  with_iwi-keeps :
      (f : Iwi → Iwi)
      → ((iwi : Iwi) → (f iwi).max_page_num ≡ iwi.max_page_num)
      → (a : Iport) → IsOwned a
      → IsOwned (with_iwi f a)
  with_iwi-keeps f keeps a owned = record {
    registered = owned.registered;
    held = owned.held;
    below = λ m q h. elim (Option-cases a.iwi) [
      | inl gone ↦ let old = owned.below m q h in rw (gone) (omega (arith, old, ap max_of gone))
      | inr (iwi, has) ↦
          let old = owned.below m q h in rw (has) (omega (arith, old, ap max_of has, keeps iwi))
    ];
  }

  pub connected-IsOwned :
      (app : App) (a : Iport) (e : E)
      → IsOwned a
      → IsOwned (on_application_connected out app a e).iport
  unfolding on_application_connected
  connected-IsOwned app a e owned =
      add_app_id-IsOwned app.app_id (with_iwi (λ iwi. record iwi { app = some app.app_id }) a) e
        (with_iwi-keeps (λ iwi. record iwi { app = some app.app_id }) (λ iwi. refl) a owned)

  add_apps-IsOwned :
      (apps : List App) (a : Iport) (e : E) → IsOwned a → IsOwned (add_apps out apps a e).0
  unfolding add_apps
  add_apps-IsOwned [] a e owned = owned
  add_apps-IsOwned (app ∷ apps) a e owned =
      let done = on_application_connected out app a e in
      add_apps-IsOwned apps done.iport done.outside (connected-IsOwned app a e owned)

  pub reported-IsOwned :
      (apps : List App) (a : Iport) (e : E)
      → IsOwned a
      → IsOwned (on_report_connected_application_list out apps a e).iport
  unfolding on_report_connected_application_list
  reported-IsOwned [] a e owned =
      with_iwi-keeps (λ iwi. record iwi { connected = true }) (λ iwi. refl) a owned
  reported-IsOwned (app ∷ apps) a e owned =
      let b = with_iwi (λ iwi. record iwi { connected = true }) a in
      let left = remove_apps out (app ∷ apps) (apps_of a.iwi) b e in
      add_apps-IsOwned (app ∷ apps) left.0 left.1 (
        remove_apps-IsOwned (app ∷ apps) (apps_of a.iwi) b e
          (with_iwi-keeps (λ iwi. record iwi { connected = true }) (λ iwi. refl) a owned))
