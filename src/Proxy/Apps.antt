-- ===== src/Proxy/Apps.antt =====
-- The applications that the inspector reports, in src/ios_webkit_debug_proxy.c.
use bootstrap_agency_templat.Prelude.{
  ℕ, Bool, true, false, ◌||◌, Option, none, some, List, [], ◌∷◌, map, if◌then◌else◌,
}
use bootstrap_agency_templat.Libc.{strcmp_equal}
use bootstrap_agency_templat.Rpc.{App, success, error}
use bootstrap_agency_templat.Proxy.{Iwi, Iport}
use bootstrap_agency_templat.Proxy.Session.{Outside, Done, get_listing}
use bootstrap_agency_templat.Proxy.Listing.{has_app, remove_pages}

unfoldable pub remove_app : List ℕ → List (List ℕ) → List (List ℕ)
unfolding strcmp_equal
remove_app app_id [] = []
remove_app app_id (a ∷ rest) =
    if strcmp_equal app_id a then remove_app app_id rest else a ∷ remove_app app_id rest

-- a write to the inspector of a port
abbrev pub with_iwi : (Iwi → Iwi) → Iport → Iport
with_iwi f iport = record iport { iwi = elim iport.iwi [ none ↦ none | some iwi ↦ some (f iwi) ] }

-- one of the applications has the identifier
unfoldable pub reports : List ℕ → List App → Bool
unfolding strcmp_equal
reports app_id [] = false
reports app_id (app ∷ apps) = strcmp_equal app.app_id app_id || reports app_id apps

abbrev pub apps_of : Option Iwi → List (List ℕ)
apps_of none = []
apps_of (some iwi) = iwi.app_id_to_true

module _ {E : Type 0} (out : Outside E) where
  -- `iwdp_add_app_id`
  unfoldable pub add_app_id : List ℕ → Iport → E → Done E
  add_app_id app_id iport e = elim iport.iwi [
    | none ↦ record { iport = iport; outside = e; status = error }
    | some iwi ↦
        let sent = out.send (get_listing iwi.connection_id app_id) e in
        if has_app app_id iwi.app_id_to_true
        then record { iport = iport; outside = e; status = success }
        else record {
          iport = record iport {
            iwi = some (record iwi { app_id_to_true = app_id ∷ iwi.app_id_to_true });
          };
          outside = sent.0;
          status = sent.1;
        }
  ]

  -- `iwdp_remove_app_id`
  unfoldable pub remove_app_id : List ℕ → Iport → E → Iport × E
  unfolding strcmp_equal
  remove_app_id app_id iport e = elim iport.iwi [
    | none ↦ (iport, e)
    | some iwi ↦
        let left = record iport {
          iwi = some (record iwi { app_id_to_true = remove_app app_id iwi.app_id_to_true });
        } in
        if has_app app_id iwi.app_id_to_true
        then remove_pages out (λ p. strcmp_equal app_id p.app_id)
            (map (λ p. p.page_num) iport.pages) left e
        else (iport, e)
  ]

  -- `iwdp_on_applicationConnected`
  unfoldable pub on_application_connected : App → Iport → E → Done E
  on_application_connected app iport e =
      add_app_id app.app_id (with_iwi (λ iwi. record iwi { app = some app.app_id }) iport) e

  -- the loop of `iwdp_on_reportConnectedApplicationList` over the old applications
  unfoldable pub remove_apps : List App → List (List ℕ) → Iport → E → Iport × E
  remove_apps apps [] iport e = (iport, e)
  remove_apps apps (id ∷ ids) iport e =
      let left = remove_app_id id iport e in
      let next : Iport × E = if reports id apps then (iport, e) else left in
      remove_apps apps ids next.0 next.1

  -- the loop over the new ones
  unfoldable pub add_apps : List App → Iport → E → Iport × E
  add_apps [] iport e = (iport, e)
  add_apps (app ∷ apps) iport e =
      let done = on_application_connected app iport e in add_apps apps done.iport done.outside

  -- `iwdp_on_reportConnectedApplicationList`
  unfoldable pub on_report_connected_application_list : List App → Iport → E → Done E
  on_report_connected_application_list [] iport e = record {
    iport = with_iwi (λ iwi. record iwi { connected = true }) iport;
    outside = e;
    status = success;
  }
  on_report_connected_application_list (app ∷ apps) iport e =
      let left =
        remove_apps (app ∷ apps) (apps_of iport.iwi)
          (with_iwi (λ iwi. record iwi { connected = true }) iport) e in
      let added = add_apps (app ∷ apps) left.0 left.1 in
      record { iport = added.0; outside = added.1; status = success }
