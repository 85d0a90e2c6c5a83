-- ===== src/Rpc/Recv.antt =====
-- The messages that src/rpc.c receives.
use bootstrap_agency_templat.Prelude.{ℕ, ◌||◌, Option, none, some, List, if◌then◌else◌}
use bootstrap_agency_templat.Libc.{codes, strcmp_equal}
use bootstrap_agency_templat.Rpc.{
  Status, Plist, Page, Callbacks, ◌>>=◌, item_of, get_required_string, get_required_data,
}
use bootstrap_agency_templat.Rpc.{success, error}
use bootstrap_agency_templat.Rpc.Parse.{parse_app, parse_apps, parse_pages}

module _ {N E : Type 0} (plist : Plist N) (calls : Callbacks N E) where
  -- a callback on arguments that were read, or an error
  abbrev pub call : {A : Type 0} → Option A → (A → E → E × Status) → E → E × Status
  call none f e = (e, error)
  call (some a) f e = f a e

  -- `rpc_recv_reportSetup`
  unfoldable pub recv_report_setup : Option N → E → E × Status
  recv_report_setup args = call (args >>= plist.items) (λ items. calls.on_report_setup)

  -- `rpc_recv_reportConnectedApplicationList`
  unfoldable pub recv_report_connected_application_list : Option N → E → E × Status
  unfolding parse_apps
  recv_report_connected_application_list args =
      call (parse_apps plist (item_of plist args (codes "WIRApplicationDictionaryKey")))
        calls.on_report_connected_application_list

  -- `rpc_recv_applicationConnected`
  unfoldable pub recv_application_connected : Option N → E → E × Status
  unfolding parse_app
  recv_application_connected args = call (parse_app plist args) calls.on_application_connected

  -- `rpc_recv_applicationDisconnected`
  unfoldable pub recv_application_disconnected : Option N → E → E × Status
  unfolding parse_app
  recv_application_disconnected args = call (parse_app plist args) calls.on_application_disconnected

  -- what `rpc_recv_applicationSentListing` reads: the application and its pages
  unfoldable pub listing_of : Option N → Option (List ℕ × List Page)
  unfolding get_required_string parse_pages
  listing_of args = do
    app_id ← get_required_string plist args (codes "WIRApplicationIdentifierKey")
    pages ← parse_pages plist (item_of plist args (codes "WIRListingKey"))
    some (app_id, pages)

  -- `rpc_recv_applicationSentListing`
  unfoldable pub recv_application_sent_listing : Option N → E → E × Status
  unfolding listing_of
  recv_application_sent_listing args =
      call (listing_of args) (λ listing. calls.on_application_sent_listing listing.0 listing.1)

  -- what `rpc_recv_applicationSentData` reads: the application, the destination and the bytes
  unfoldable pub sent_data_of : Option N → Option (List ℕ × List ℕ × List ℕ)
  unfolding get_required_string get_required_data
  sent_data_of args = do
    app_id ← get_required_string plist args (codes "WIRApplicationIdentifierKey")
    dest_id ← get_required_string plist args (codes "WIRDestinationKey")
    bytes ← get_required_data plist args (codes "WIRMessageDataKey")
    some (app_id, dest_id, bytes)

  -- `rpc_recv_applicationSentData`
  unfoldable pub recv_application_sent_data : Option N → E → E × Status
  unfolding sent_data_of
  recv_application_sent_data args =
      call (sent_data_of args) (λ sent. calls.on_application_sent_data sent.0 sent.1 sent.2)

  -- what `rpc_recv_applicationUpdated` reads: the host application, or the name where there is none,
  -- and the application
  unfoldable pub updated_of : Option N → Option (List ℕ × List ℕ)
  unfolding get_required_string
  updated_of args =
      let dest = get_required_string plist args (codes "WIRApplicationIdentifierKey") in
      elim (get_required_string plist args (codes "WIRHostApplicationIdentifierKey")) [
        | some host ↦ dest >>= λ dest_id. some (host, dest_id)
        | none ↦ get_required_string plist args (codes "WIRApplicationNameKey") >>= λ name.
            dest >>= λ dest_id. some (name, dest_id)
      ]

  -- `rpc_recv_applicationUpdated`
  unfoldable pub recv_application_updated : Option N → E → E × Status
  unfolding updated_of
  recv_application_updated args =
      call (updated_of args) (λ updated. calls.on_application_updated updated.0 updated.1)

  -- The handler that `rpc_recv_msg` selects; `none` is an invalid message.
  unfoldable pub handler : List ℕ → Option (Option N → E → E × Status)
  unfolding strcmp_equal recv_report_setup recv_report_connected_application_list
      recv_application_connected recv_application_disconnected recv_application_sent_listing
      recv_application_sent_data recv_application_updated
  handler selector =
      if strcmp_equal selector (codes "_rpc_reportSetup:")
      then some recv_report_setup
      else if strcmp_equal selector (codes "_rpc_reportConnectedApplicationList:")
      then some recv_report_connected_application_list
      else if strcmp_equal selector (codes "_rpc_applicationConnected:")
      then some recv_application_connected
      else if strcmp_equal selector (codes "_rpc_applicationDisconnected:")
      then some recv_application_disconnected
      else if strcmp_equal selector (codes "_rpc_applicationSentListing:")
      then some recv_application_sent_listing
      else if strcmp_equal selector (codes "_rpc_applicationSentData:")
      then some recv_application_sent_data
      else if strcmp_equal selector (codes "_rpc_applicationUpdated:")
      then some recv_application_updated
      else if strcmp_equal selector (codes "_rpc_reportConnectedDriverList:")
          || strcmp_equal selector (codes "_rpc_reportCurrentState:")
      then some (λ args e. (e, success))
      else none

  -- `rpc_recv_msg`. A handler that fails and an invalid message are both logged, and are errors.
  unfoldable pub recv_msg : Option (List ℕ) → Option N → E → E × Status
  unfolding handler
  recv_msg none args e = (e, error)
  recv_msg (some selector) args e = elim (handler selector) [
    | none ↦ (e, error)
    | some handle ↦ handle args e
  ]

  -- `rpc_recv_plist`
  unfoldable pub recv_plist : N → E → E × Status
  unfolding recv_msg
  recv_plist rpc_dict =
      recv_msg (plist.get_item rpc_dict (codes "__selector") >>= plist.string_val)
        (plist.get_item rpc_dict (codes "__argument"))
