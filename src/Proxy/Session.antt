-- ===== src/Proxy/Session.antt =====
-- The pages of an inspector and the clients that debug them, in src/ios_webkit_debug_proxy.c:
-- `iwdp_start_devtools` and `iwdp_stop_devtools`. What is read through a pointer to a page or a client
-- that is freed is not defined in C; here the operation fails or does nothing.
use bootstrap_agency_templat.Prelude.{
  ℕ, Bool, true, false, not, Option, none, some, List, ◌==◌, if◌then◌else◌,
}
use bootstrap_agency_templat.Libc.{strcmp_equal}
use bootstrap_agency_templat.Rpc.{Status, success, error}
use bootstrap_agency_templat.Proxy.{Ipage, Iws, Iwi, Iport}
use bootstrap_agency_templat.Proxy.Pages.{find_page, update_page}

-- the calls of the inspector
pub data Call : Type 0 where
  -- `send_forwardSocketSetup`
  socket_setup :
      (connection_id : Option (List ℕ)) (app_id : List ℕ) (page_id : ℕ)
      (sender_id : Option (List ℕ))
      → Call
  -- `send_forwardDidClose`
  did_close :
      (connection_id : Option (List ℕ)) (app_id : List ℕ) (page_id : ℕ)
      (sender_id : Option (List ℕ))
      → Call
  -- `send_forwardGetListing`
  get_listing : (connection_id : Option (List ℕ)) (app_id : List ℕ) → Call

-- What the operations call, over a state of its own.
pub record Outside (E : Type 0) : Type 0 where
  pub send : Call → E → E × Status
  pub remove_fd : ℕ → E → E

pub record Done (E : Type 0) : Type 0 where
  pub iport : Iport
  pub outside : E
  pub status : Status

-- `p == n` for a pointer that may be null
abbrev pub is_number : ℕ → Option ℕ → Bool
is_number n none = false
is_number n (some m) = m == n

-- a write through the pointer to a client
abbrev pub write_client : ℕ → (Iws → Iws) → (ℕ → Option Iws) → ℕ → Option Iws
write_client w f clients k =
    if k == w then elim (clients w) [ none ↦ none | some iws ↦ some (f iws) ] else clients k

abbrev pub with_client : ℕ → (Iws → Iws) → Iport → Iport
with_client w f iport = record iport { clients = write_client w f iport.clients }

abbrev pub with_page : ℕ → (Ipage → Ipage) → Iport → Iport
with_page n f iport = record iport { pages = update_page n f iport.pages }

-- What `iwdp_stop_devtools` finds before it changes anything.
pub data Stop : Type 0 where
  unclaimed wrong : Stop
  claimed : (w : ℕ) (ipage : Ipage) → Stop

-- the tests on the client of the page
unfoldable pub check_client : ℕ → Iport → Ipage → ℕ → Iws → Stop
check_client n iport ipage w iws =
    if not (is_number n iws.ipage) then wrong else elim ipage.sender_id [
      | none ↦ wrong
      | some sender_id ↦
          if is_number w (iport.ws_id_to_iws sender_id) then claimed w ipage else wrong
    ]

unfoldable pub check_page : ℕ → Iport → Ipage → Stop
unfolding check_client
check_page n iport ipage = elim ipage.iws [
  | none ↦ unclaimed
  | some w ↦ elim (iport.clients w) [ none ↦ wrong | some iws ↦ check_client n iport ipage w iws ]
]

unfoldable pub check_stop : ℕ → Iport → Stop
unfolding find_page check_page
check_stop n iport = elim (find_page n iport.pages) [
  | none ↦ wrong
  | some ipage ↦ check_page n iport ipage
]

-- the four writes at the end of `iwdp_stop_devtools`
abbrev pub stopped_client : Iws → Iws
stopped_client iws = record iws { ipage = none; page_num = 0 }

abbrev pub stopped_page : Ipage → Ipage
stopped_page ipage = record ipage { iws = none; sender_id = none }

abbrev pub stopped : ℕ → ℕ → Iport → Iport
stopped n w iport = with_page n stopped_page (with_client w stopped_client iport)

-- no other inspector has the page
abbrev is_ours : Option (List ℕ) → List ℕ → Bool
is_ours none connection_id = true
is_ours (some other) connection_id = strcmp_equal other connection_id

-- the writes of `iwdp_start_devtools`
abbrev pub started_client : ℕ → Iws → Iws
started_client n iws = record iws { ipage = some n; page_num = n }

abbrev pub started_page : ℕ → List ℕ → Ipage → Ipage
started_page w ws_id ipage = record ipage { iws = some w; sender_id = some ws_id }

abbrev pub stolen_client : ℕ → Iws → Iws
stolen_client n iws = record iws { page_num = n }

module _ {E : Type 0} (out : Outside E) where
  -- the message to the inspector
  unfoldable pub tell_closed : Option Iwi → Ipage → E → E
  unfolding strcmp_equal
  tell_closed none ipage e = e
  tell_closed (some iwi) ipage e = elim iwi.connection_id [
    | none ↦ e
    | some connection_id ↦
        if is_ours ipage.connection_id connection_id
        then (out.send (did_close (some connection_id) ipage.app_id ipage.page_id ipage.sender_id)
            e).0
        else e
  ]

  -- `iwdp_stop_devtools`
  unfoldable pub stop_devtools : ℕ → Iport → E → Done E
  unfolding check_stop tell_closed
  stop_devtools n iport e = elim (check_stop n iport) [
    | unclaimed ↦ record { iport = iport; outside = e; status = success }
    | wrong ↦ record { iport = iport; outside = e; status = error }
    | claimed w ipage ↦ record {
      iport = stopped n w iport;
      outside = tell_closed iport.iwi ipage e;
      status = success;
    }
  ]

  -- a page that another client has is taken from it
  unfoldable pub take_page : ℕ → Option ℕ → Iport → E → Iport × E
  unfolding stop_devtools
  take_page n none iport e = (iport, e)
  take_page n (some w) iport e =
      let done = stop_devtools n iport e in
      (with_client w (stolen_client n) done.iport, done.outside)

  -- `iwdp_start_devtools`
  unfoldable pub start_devtools : ℕ → ℕ → Iport → E → Done E
  unfolding find_page
  start_devtools n w iport e =
      let failed : Done E = record { iport = iport; outside = e; status = error } in
      elim (find_page n iport.pages) [
        | none ↦ failed
        | some ipage ↦ elim (iport.clients w) [
          | none ↦ failed
          | some iws ↦ elim iport.iwi [
            | none ↦ failed
            | some iwi ↦
                let (free, e') = take_page n ipage.iws iport e in
                let sent =
                  out.send
                    (socket_setup iwi.connection_id ipage.app_id ipage.page_id (some iws.ws_id))
                    e' in
                record {
                  iport =
                      with_page n (started_page w iws.ws_id)
                        (with_client w (started_client n) free);
                  outside = sent.0;
                  status = sent.1;
                }
          ]
        ]
      ]
