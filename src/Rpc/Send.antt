-- ===== src/Rpc/Send.antt =====
-- The messages that src/rpc.c sends. An identifier that is null is an error.
use bootstrap_agency_templat.Prelude.{ℕ, Bool, false, Option, none, some, List}
use bootstrap_agency_templat.Libc.{codes}
use bootstrap_agency_templat.Rpc.{Status, Plist, Callbacks}
use bootstrap_agency_templat.Rpc.{error}

module _ {N : Type 0} (plist : Plist N) where
  -- `rpc_new_args`
  unfoldable pub new_args : Option (List ℕ) → N
  new_args none = plist.new_dict
  new_args (some connection_id) =
      plist.set_item plist.new_dict (codes "WIRConnectionIdentifierKey")
        (plist.new_string connection_id)

  -- the property list of `rpc_send_msg`
  unfoldable pub message : List ℕ → N → N
  message selector args =
      plist.set_item
        (plist.set_item plist.new_dict (codes "__selector") (plist.new_string selector))
        (codes "__argument") args

  -- the arguments for an application
  unfoldable pub app_args : List ℕ → List ℕ → N
  unfolding new_args
  app_args connection_id app_id =
      plist.set_item (new_args (some connection_id)) (codes "WIRApplicationIdentifierKey")
        (plist.new_string app_id)

  -- the page and the sender, behind other arguments
  unfoldable pub with_page : N → ℕ → List ℕ → N
  with_page args page_id sender_id =
      plist.set_item (plist.set_item args (codes "WIRPageIdentifierKey") (plist.new_uint page_id))
        (codes "WIRSenderKey") (plist.new_string sender_id)

  -- the arguments of `rpc_send_forwardSocketSetup`
  unfoldable pub setup_args : List ℕ → List ℕ → ℕ → List ℕ → N
  unfolding app_args with_page
  setup_args connection_id app_id page_id sender_id =
      with_page
        (plist.set_item (app_args connection_id app_id) (codes "WIRAutomaticallyPause")
          (plist.new_bool false))
        page_id sender_id

  -- the arguments of `rpc_send_forwardSocketData`
  unfoldable pub data_args : List ℕ → List ℕ → ℕ → List ℕ → List ℕ → N
  unfolding app_args with_page
  data_args connection_id app_id page_id sender_id bytes =
      plist.set_item (with_page (app_args connection_id app_id) page_id sender_id)
        (codes "WIRSocketDataKey") (plist.new_data bytes)

module _ {N E : Type 0} (plist : Plist N) (calls : Callbacks N E) where
  -- `rpc_send_msg`
  unfoldable pub send_msg : Option (List ℕ) → Option N → E → E × Status
  unfolding message
  send_msg (some selector) (some args) e = calls.send_plist (message plist selector args) e
  send_msg _ _ e = (e, error)

  abbrev pub send : List ℕ → N → E → E × Status
  send selector args = send_msg (some selector) (some args)

  -- `rpc_send_reportIdentifier`
  unfoldable pub send_report_identifier : Option (List ℕ) → E → E × Status
  unfolding new_args send_msg
  send_report_identifier none e = (e, error)
  send_report_identifier (some connection_id) e =
      send (codes "_rpc_reportIdentifier:") (new_args plist (some connection_id)) e

  -- `rpc_send_getConnectedApplications`
  unfoldable pub send_get_connected_applications : Option (List ℕ) → E → E × Status
  unfolding new_args send_msg
  send_get_connected_applications none e = (e, error)
  send_get_connected_applications (some connection_id) e =
      send (codes "_rpc_getConnectedApplications:") (new_args plist (some connection_id)) e

  -- `rpc_send_forwardGetListing`
  unfoldable pub send_forward_get_listing : Option (List ℕ) → Option (List ℕ) → E → E × Status
  unfolding app_args send_msg
  send_forward_get_listing (some connection_id) (some app_id) e =
      send (codes "_rpc_forwardGetListing:") (app_args plist connection_id app_id) e
  send_forward_get_listing _ _ e = (e, error)

  -- `rpc_send_forwardIndicateWebView`
  unfoldable pub send_forward_indicate_web_view :
      Option (List ℕ) → Option (List ℕ) → ℕ → Bool → E → E × Status
  unfolding app_args send_msg
  send_forward_indicate_web_view (some connection_id) (some app_id) page_id is_enabled e =
      send (codes "_rpc_forwardIndicateWebView:")
        (plist.set_item
          (plist.set_item (app_args plist connection_id app_id) (codes "WIRPageIdentifierKey")
            (plist.new_uint page_id))
          (codes "WIRIndicateEnabledKey") (plist.new_bool is_enabled))
        e
  send_forward_indicate_web_view _ _ page_id is_enabled e = (e, error)

  -- `rpc_send_forwardSocketSetup`
  unfoldable pub send_forward_socket_setup :
      Option (List ℕ) → Option (List ℕ) → ℕ → Option (List ℕ) → E → E × Status
  unfolding setup_args send_msg
  send_forward_socket_setup (some connection_id) (some app_id) page_id (some sender_id) e =
      send (codes "_rpc_forwardSocketSetup:")
        (setup_args plist connection_id app_id page_id sender_id) e
  send_forward_socket_setup _ _ page_id _ e = (e, error)

  -- `rpc_send_forwardSocketData`
  unfoldable pub send_forward_socket_data :
      Option (List ℕ) → Option (List ℕ) → ℕ → Option (List ℕ) → Option (List ℕ) → E → E × Status
  unfolding data_args send_msg
  send_forward_socket_data (some connection_id) (some app_id) page_id (some sender_id) (some bytes)
        e =
      send (codes "_rpc_forwardSocketData:")
        (data_args plist connection_id app_id page_id sender_id bytes) e
  send_forward_socket_data _ _ page_id _ _ e = (e, error)

  -- `rpc_send_forwardDidClose`
  unfoldable pub send_forward_did_close :
      Option (List ℕ) → Option (List ℕ) → ℕ → Option (List ℕ) → E → E × Status
  unfolding app_args with_page send_msg
  send_forward_did_close (some connection_id) (some app_id) page_id (some sender_id) e =
      send (codes "_rpc_forwardDidClose:")
        (with_page plist (app_args plist connection_id app_id) page_id sender_id) e
  send_forward_did_close _ _ page_id _ e = (e, error)
