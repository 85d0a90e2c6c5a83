-- ===== src/Proxy/Clients.antt =====
-- A client comes and goes, in src/ios_webkit_debug_proxy.c: `iwdp_iport_accept`, `iwdp_iws_close` and
-- `iwdp_iwi_close`. What is read through a pointer to a page or a client that is freed is not defined in
-- C; here the operation fails or does nothing.
use bootstrap_agency_templat.Prelude.{
  ℕ, ◌^◌, false, ◌&&◌, none, some, List, [], ltb, ◌==◌, if◌then◌else◌,
}
use bootstrap_agency_templat.Libc.{strcmp_equal}
use bootstrap_agency_templat.Rpc.{success, error}
use bootstrap_agency_templat.Proxy.{Iws, Iport}
use bootstrap_agency_templat.Proxy.Pages.{find_page}
use bootstrap_agency_templat.Proxy.Session.{Outside, Done, is_number, stop_devtools}

-- the client that `iwdp_iport_accept` makes
abbrev pub new_client : ℕ → List ℕ → Iws
new_client ws_fd ws_id = record {
  ws_fd = ws_fd;
  ws_id = ws_id;
  page_num = 0;
  ipage = none;
  ifs = none;
}

-- `iwdp_iport_accept`: a client at the address `w`, with the identifier of `rpc_new_uuid`
unfoldable pub accept : ℕ → ℕ → List ℕ → Iport → Iport
accept w ws_fd ws_id iport = record iport {
  clients = λ k. if k == w then some (new_client ws_fd ws_id) else iport.clients k;
  ws_id_to_iws = λ id. if strcmp_equal id ws_id then some w else iport.ws_id_to_iws id;
}

-- the end of `iwdp_iws_close`: the client leaves the table of its port, if it is there, and is freed
unfoldable pub forget_client : ℕ → Iws → Iport → Iport
forget_client w iws iport = record iport {
  clients = λ k. if k == w then none else iport.clients k;
  ws_id_to_iws = λ id.
      if strcmp_equal id iws.ws_id && is_number w (iport.ws_id_to_iws iws.ws_id)
      then none
      else iport.ws_id_to_iws id;
}

-- `iwdp_iwi_close` up to the close of the port: the pages are freed
unfoldable pub iwi_close : Iport → Iport
iwi_close iport = record iport { iwi = none; pages = [] }

module _ {E : Type 0} (out : Outside E) where
  -- the start of `iwdp_iws_close`: the page is given up, if its client is this one
  unfoldable pub give_up : ℕ → Iws → Iport → E → Iport × E
  unfolding find_page
  give_up w iws iport e = elim iws.ipage [
    | none ↦ (iport, e)
    | some n ↦ elim (find_page n iport.pages) [
      | none ↦ (iport, e)
      | some ipage ↦
          let done = stop_devtools out n iport e in
          if elim ipage.sender_id [ none ↦ false | some _ ↦ is_number w ipage.iws ]
          then (done.iport, done.outside)
          else (iport, e)
    ]
  ]

  -- `iwdp_iws_close`. The static server's own pointer to the client is null before its descriptor is
  -- removed, so its close does not come back here.
  unfoldable pub iws_close : ℕ → Iport → E → Done E
  iws_close w iport e = elim (iport.clients w) [
    | none ↦ record { iport = iport; outside = e; status = error }
    | some iws ↦
        let (left, e') = give_up w iws iport e in
        record {
          iport = forget_client w iws left;
          outside = elim iws.ifs [
            | none ↦ e'
            | some fs_fd ↦ if ltb 0 fs_fd && ltb fs_fd (2 ^ 31) then out.remove_fd fs_fd e' else e'
          ];
          status = success;
        }
  ]
