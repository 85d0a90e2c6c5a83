-- ===== src/Rpc/Errors.antt =====
-- The errors of `rpc_recv_msg` in src/rpc.c.
use bootstrap_agency_templat.Prelude.{
  ℕ, ◌≡◌, refl, subst, inl, inr, Bool, true, false, Option, none, some, List, if◌then◌else◌,
  Option-cases,
}
use bootstrap_agency_templat.Libc.{codes}
use bootstrap_agency_templat.Rpc.{Status, Plist, App, Page, Callbacks, ◌>>=◌, item_of}
use bootstrap_agency_templat.Rpc.{success, error}
use bootstrap_agency_templat.Rpc.Parse.{parse_app, parse_apps}
use bootstrap_agency_templat.Rpc.Recv.{
  call, recv_report_setup, recv_report_connected_application_list, recv_application_connected,
  recv_application_disconnected, listing_of, recv_application_sent_listing, sent_data_of,
  recv_application_sent_data, updated_of, recv_application_updated, handler, recv_msg,
}

-- Every callback for a message that is received succeeds.
pub record AllSucceed {N E : Type 0} (calls : Callbacks N E) : Type 0 where
  pub setup : (e : E) → (calls.on_report_setup e).1 ≡ success
  pub list :
      (apps : List App) (e : E) → (calls.on_report_connected_application_list apps e).1 ≡ success
  pub connected : (app : App) (e : E) → (calls.on_application_connected app e).1 ≡ success
  pub disconnected : (app : App) (e : E) → (calls.on_application_disconnected app e).1 ≡ success
  pub listing :
      (app_id : List ℕ) (pages : List Page) (e : E)
      → (calls.on_application_sent_listing app_id pages e).1 ≡ success
  pub sent :
      (app_id dest_id bytes : List ℕ) (e : E)
      → (calls.on_application_sent_data app_id dest_id bytes e).1 ≡ success
  pub updated :
      (app_id dest_id : List ℕ) (e : E)
      → (calls.on_application_updated app_id dest_id e).1 ≡ success

module _ {N E : Type 0} (plist : Plist N) (calls : Callbacks N E) (all : AllSucceed calls) where
  -- A handler whose error leaves the outside as it was.
  abbrev Refuses : (Option N → E → E × Status) → Type 0
  Refuses handle = (args : Option N) (e : E) → (handle args e).1 ≡ error → (handle args e).0 ≡ e

  data Refuse : Option (Option N → E → E × Status) → Type 0 where
    invalid : Refuse none
    handled : {handle : Option N → E → E × Status} → Refuses handle → Refuse (some handle)

  Refuse-some : {handle : Option N → E → E × Status} → Refuse (some handle) → Refuses handle
  Refuse-some (handled r) = r

  call-refuses :
      {A : Type 0} (a : Option A) (f : A → E → E × Status) (e : E)
      → ((x : A) → (f x e).1 ≡ success)
      → (call plist calls a f e).1 ≡ error
      → (call plist calls a f e).0 ≡ e
  call-refuses none f e ok bad = refl
  call-refuses (some a) f e ok bad = absurd (cc (ok a, bad))

  if-Refuse :
      (b : Bool) {x y : Option (Option N → E → E × Status)}
      → Refuse x
      → Refuse y
      → Refuse (if b then x else y)
  if-Refuse true p q = p
  if-Refuse false p q = q

  setup-Refuses : Refuses (recv_report_setup plist calls)
  unfolding recv_report_setup
  setup-Refuses args e =
      call-refuses (args >>= plist.items) (λ items. calls.on_report_setup) e (λ items. all.setup e)

  list-Refuses : Refuses (recv_report_connected_application_list plist calls)
  unfolding recv_report_connected_application_list
  list-Refuses args e =
      call-refuses (parse_apps plist (item_of plist args (codes "WIRApplicationDictionaryKey")))
        calls.on_report_connected_application_list e (λ apps. all.list apps e)

  connected-Refuses : Refuses (recv_application_connected plist calls)
  unfolding recv_application_connected
  connected-Refuses args e =
      call-refuses (parse_app plist args) calls.on_application_connected e
        (λ app. all.connected app e)

  disconnected-Refuses : Refuses (recv_application_disconnected plist calls)
  unfolding recv_application_disconnected
  disconnected-Refuses args e =
      call-refuses (parse_app plist args) calls.on_application_disconnected e
        (λ app. all.disconnected app e)

  listing-Refuses : Refuses (recv_application_sent_listing plist calls)
  unfolding recv_application_sent_listing
  listing-Refuses args e =
      call-refuses (listing_of plist calls args) (λ l. calls.on_application_sent_listing l.0 l.1) e
        (λ l. all.listing l.0 l.1 e)

  sent-Refuses : Refuses (recv_application_sent_data plist calls)
  unfolding recv_application_sent_data
  sent-Refuses args e =
      call-refuses (sent_data_of plist calls args) (λ s. calls.on_application_sent_data s.0 s.1 s.2)
        e (λ s. all.sent s.0 s.1 s.2 e)

  updated-Refuses : Refuses (recv_application_updated plist calls)
  unfolding recv_application_updated
  updated-Refuses args e =
      call-refuses (updated_of plist calls args) (λ u. calls.on_application_updated u.0 u.1) e
        (λ u. all.updated u.0 u.1 e)

  ignored-Refuses : Refuses (λ args e. (e, success))
  ignored-Refuses args e bad = absurd (cc bad)

  handler-Refuse : (selector : List ℕ) → Refuse (handler plist calls selector)
  unfolding handler
  handler-Refuse selector = if-Refuse _ (handled setup-Refuses) (
      if-Refuse _ (handled list-Refuses) (
        if-Refuse _ (handled connected-Refuses) (
          if-Refuse _ (handled disconnected-Refuses) (
            if-Refuse _ (handled listing-Refuses) (
              if-Refuse _ (handled sent-Refuses) (
                if-Refuse _ (handled updated-Refuses)
                  (if-Refuse _ (handled ignored-Refuses) invalid)))))))

  -- A message that `rpc_recv_msg` refuses although every callback would succeed was not handed to any
  -- callback: whatever its selector and its arguments are, the outside is as it was.
  pub recv_msg_error :
      (selector : Option (List ℕ)) (args : Option N) (e : E)
      → (recv_msg plist calls selector args e).1 ≡ error
      → (recv_msg plist calls selector args e).0 ≡ e
  unfolding recv_msg
  recv_msg_error none args e bad = refl
  recv_msg_error (some selector) args e bad = elim (Option-cases (handler plist calls selector)) [
    | inl n ↦ rw (n, recv_msg) refl
    | inr (handle, n) ↦
        let refuses : Refuses handle = Refuse-some (subst Refuse n (handler-Refuse selector)) in
        rw (n, recv_msg) (refuses args e (rw (n, recv_msg) at bad))
  ]
