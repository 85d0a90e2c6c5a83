-- ===== src/Proxy/Frames.antt =====
-- `iwdp_on_frame` of src/ios_webkit_debug_proxy.c: what becomes of a frame from a browser.
use bootstrap_agency_templat.Prelude.{
  ℕ, ◌≡◌, sym, ap, ◌∙◌, inl, inr, Bool, true, not, ◌||◌, Option, none, some, List, ◌++◌, arith,
  ◌==◌, if◌then◌else◌, Option-cases,
}
use bootstrap_agency_templat.Libc.{codes, print_int}
use bootstrap_agency_templat.WebSocket.Opcode.{text, binary, close, ping, pong}
use bootstrap_agency_templat.Proxy.{Ipage, Iws, Iwi, Iport}
use bootstrap_agency_templat.Proxy.Pages.{find_page}
use bootstrap_agency_templat.Proxy.Session.{Outside}
use bootstrap_agency_templat.Proxy.Owned.{page_inj}
use bootstrap_agency_templat.Proxy.Reach.{Vacant, Reaches, Reaches-Held}

-- The call that ends the handler, or its result.
pub data Reply : Type 0 where
  -- the payload is kept for the next fragment
  keeps : Reply
  -- `send_close`
  closes : (code : ℕ) (reason : Option (List ℕ)) → Reply
  -- `send_frame` with the payload
  pongs : (payload : List ℕ) → Reply
  -- `send_forwardSocketData`
  forwards :
      (connection_id : Option (List ℕ)) (app_id : List ℕ) (page_id : ℕ)
      (sender_id : Option (List ℕ)) (payload : List ℕ)
      → Reply
  ignores refuses : Reply

abbrev close_normal : ℕ
close_normal = 1000

abbrev close_going_away : ℕ
close_going_away = 1001

abbrev close_protocol_error : ℕ
close_protocol_error = 1002

-- who has the page
unfoldable pub claimant : Option Ipage → List ℕ
claimant none = codes "not found"
claimant (some p) =
    codes "claimed by " ++ elim p.iws [ none ↦ codes "remote" | some _ ↦ codes "local" ]

-- the reason for a client whose page is another's
unfoldable pub stolen_reason : Iport → Iws → List ℕ
unfolding print_int claimant find_page
stolen_reason iport iws =
    codes "Page "
    ++ print_int iport.port
    ++ codes "/"
    ++ print_int iws.page_num
    ++ codes " "
    ++ claimant (if iws.page_num == 0 then none else find_page iws.page_num iport.pages)

-- a whole message with the text of a debugger
unfoldable pub on_message : Iport → Iws → List ℕ → Reply
unfolding find_page
on_message iport iws payload = elim iport.iwi [
  | none ↦ closes close_going_away (some (codes "inspector closed?"))
  | some iwi ↦ elim iws.ipage [
    | none ↦ closes close_going_away (some (stolen_reason iport iws))
    | some n ↦ elim (find_page n iport.pages) [
      -- the page is freed
      | none ↦ refuses
      | some p ↦ forwards iwi.connection_id p.app_id p.page_id p.sender_id payload
    ]
  ]
]

-- `iwdp_on_frame`
unfoldable pub on_frame : Iport → Iws → Bool → ℕ → Bool → List ℕ → Reply
on_frame iport iws is_fin opcode is_masking payload =
    if opcode == text || opcode == binary
    then (if not is_fin
        then keeps
        else if not is_masking
        then closes close_protocol_error (some (codes "Clients must mask"))
        else on_message iport iws payload)
    else if opcode == close
    then closes close_normal none
    else if opcode == ping
    then pongs payload
    else if opcode == pong
    then ignores
    else refuses

on_frame-on_message :
    (iport : Iport) (iws : Iws) (is_fin : Bool) (opcode : ℕ) (is_masking : Bool) (payload : List ℕ)
    (conn : Option (List ℕ)) (app_id : List ℕ) (page_id : ℕ) (sender_id : Option (List ℕ))
    (sent : List ℕ)
    → on_frame iport iws is_fin opcode is_masking payload
      ≡ forwards conn app_id page_id sender_id sent
    → ((opcode == text || opcode == binary) ≡ true)
      × (is_fin ≡ true)
      × (is_masking ≡ true)
      × (on_message iport iws payload ≡ forwards conn app_id page_id sender_id sent)
unfolding on_frame
on_frame-on_message iport iws is_fin opcode is_masking payload conn app_id page_id sender_id sent
      h =
    (ground arith, ground arith, ground arith, ground arith)

-- Where a message goes: by the connection of the inspector of the port, to the page that is in the
-- table under the number of the client's own page.
pub record Goes (iport : Iport) (iws : Iws) (payload : List ℕ) (conn : Option (List ℕ))
    (app_id : List ℕ) (page_id : ℕ) (sender_id : Option (List ℕ)) (sent : List ℕ) : Type 0 where
  pub iwi : Iwi
  pub inspector : iport.iwi ≡ some iwi
  pub connection : conn ≡ iwi.connection_id
  pub page_num : ℕ
  pub has : iws.ipage ≡ some page_num
  pub ipage : Ipage
  pub found : find_page page_num iport.pages ≡ some ipage
  pub app : app_id ≡ ipage.app_id
  pub page : page_id ≡ ipage.page_id
  pub sender : sender_id ≡ ipage.sender_id
  pub as_is : sent ≡ payload

on_message-Goes :
    (iport : Iport) (iws : Iws) (payload : List ℕ) (conn : Option (List ℕ)) (app_id : List ℕ)
    (page_id : ℕ) (sender_id : Option (List ℕ)) (sent : List ℕ)
    → on_message iport iws payload ≡ forwards conn app_id page_id sender_id sent
    → Goes iport iws payload conn app_id page_id sender_id sent
unfolding on_message
on_message-Goes iport iws payload conn app_id page_id sender_id sent h =
    elim (Option-cases iport.iwi) [
      | inl gone ↦ absurd (ground arith)
      | inr (iwi, there) ↦ elim (Option-cases iws.ipage) [
        | inl gone ↦ absurd (ground arith)
        | inr (n, has) ↦ elim (Option-cases (find_page n iport.pages)) [
          | inl gone ↦ absurd (ground arith)
          | inr (p, found) ↦
              let same : forwards iwi.connection_id p.app_id p.page_id p.sender_id payload
                  ≡ forwards conn app_id page_id sender_id sent =
                ground arith in
              record {
                iwi = iwi;
                inspector = there;
                connection = cc same;
                page_num = n;
                has = has;
                ipage = p;
                found = found;
                app = cc same;
                page = cc same;
                sender = cc same;
                as_is = cc same;
              }
        ]
      ]
    ]

-- In every state that the steps reach from a port without clients and pages: what a client sends is
-- forwarded only if the frame is a text or binary one, final and masked. It goes, as it is, by the
-- inspector of the port to the page that the client holds, which is in the table and points back to this
-- client, and under the client's own identifier.
pub on_frame-forwards :
    {E : Type 0} (out : Outside E) (a b : Iport)
    → Vacant a
    → Reaches out a b
    → (w : ℕ) (iws : Iws) → b.clients w ≡ some iws
    → (is_fin : Bool) (opcode : ℕ) (is_masking : Bool) (payload : List ℕ) (conn : Option (List ℕ))
      (app_id : List ℕ) (page_id : ℕ) (sender_id : Option (List ℕ)) (sent : List ℕ)
    → on_frame b iws is_fin opcode is_masking payload ≡ forwards conn app_id page_id sender_id sent
    → ((opcode == text || opcode == binary) ≡ true)
      × (is_fin ≡ true)
      × (is_masking ≡ true)
      × (goes : Goes b iws payload conn app_id page_id sender_id sent) × (goes.ipage.iws ≡ some w)
      × (sender_id ≡ some iws.ws_id)
on_frame-forwards out a b vacant reaches w iws there is_fin opcode is_masking payload conn app_id
      page_id sender_id sent h =
    let (kind, fin, masked, message) =
      on_frame-on_message b iws is_fin opcode is_masking payload conn app_id page_id sender_id sent
        h in
    let goes = on_message-Goes b iws payload conn app_id page_id sender_id sent message in
    let goes_found = goes.found in
    let goes_sender = goes.sender in
    let (held, _) = Reaches-Held out a b vacant reaches w iws goes.page_num there goes.has in
    let held_found = held.found in
    let held_owner = held.owner in
    let held_sender = held.sender in
    let one : goes.ipage ≡ held.ipage =
      page_inj goes.ipage held.ipage (sym goes_found ∙ held_found) in
    (
      kind,
      fin,
      masked,
      goes,
      ap (λ q. q.iws) one ∙ held_owner,
      goes_sender ∙ ap (λ q. q.sender_id) one ∙ held_sender,
    )
