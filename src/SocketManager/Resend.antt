-- ===== src/SocketManager/Resend.antt =====
-- `sm_resend` of src/socket_manager.c: the queue of a descriptor that takes bytes again.
use bootstrap_agency_templat.Prelude.{
  ℕ, zero, suc, Bool, true, false, not, ◌&&◌, ◌||◌, List, [], ◌∷◌, ◌==◌, if◌then◌else◌, length,
  drop,
}
use bootstrap_agency_templat.SocketManager.{
  Io, fd_set, fd_clr, Sendq, Queues, chain, put_chain, Sm, Outside,
}
use bootstrap_agency_templat.SocketManager.{would_block, broken, sent}
use bootstrap_agency_templat.SocketManager.Fds.{remove_fd}
use bootstrap_agency_templat.SocketManager.Send.{Attempt, transmit}
use bootstrap_agency_templat.SocketManager.Send.{all_sent, blocked, failed}

-- The inner loop: it asks whether there are bytes left before it writes. A turn for every byte is enough.
unfoldable pub resend_loop : {E : Type 0} → ℕ → (List ℕ → E → E × Io) → List ℕ → E → E × Attempt
resend_loop fuel io [] e = (e, all_sent)
resend_loop zero io (b ∷ head) e = (e, blocked (b ∷ head))
resend_loop (suc fuel) io (b ∷ head) e =
    let (e', written) = io (b ∷ head) e in
    elim written [
      | broken ↦ (e', failed)
      | would_block ↦ (e', blocked (b ∷ head))
      | sent n ↦ elim (n == 0) [
        | true ↦ (e', blocked (b ∷ head))
        | false ↦ resend_loop fuel io (drop n (b ∷ head)) e'
      ]
    ]

unfoldable pub causes_in : {V : Type 0} → ℕ → List (Sendq V) → Bool
causes_in fd [] = false
causes_in fd (q ∷ next) = (q.recv_fd == fd) || causes_in fd next

-- whether a queued send has the descriptor as its cause
unfoldable pub causes : {V : Type 0} → ℕ → Queues V → Bool
unfolding causes_in
causes fd [] = false
causes fd ((k, q) ∷ queues) = causes_in fd q || causes fd queues

-- A reader whose last blocked send is gone is read from again.
unfoldable pub unblock_reader : {S V : Type 0} → ℕ → Sm S V → Sm S V
unfolding causes
unblock_reader fd sm =
    if not (fd == 0) && sm.all_fds fd && not (causes fd sm.fd_to_sendq)
    then record sm { recv_fds = fd_set fd sm.recv_fds }
    else sm

-- the first send of the chain is done: `next` is left
unfoldable pub dequeue : {S V : Type 0} → Sm S V → ℕ → Sendq V → List (Sendq V) → Sm S V
unfolding put_chain unblock_reader
dequeue sm fd q next =
    let queues = put_chain fd next sm.fd_to_sendq in
    unblock_reader q.recv_fd (record sm {
      fd_to_sendq = queues;
      send_fds = elim next [ [] ↦ fd_clr fd sm.send_fds | r ∷ more ↦ sm.send_fds ];
    })

-- the outer loop, over the chain
unfoldable pub resend_chain :
    {S V E : Type 0}
    → Outside S V E
    → (List ℕ → E → E × Io)
    → ℕ
    → List (Sendq V)
    → Sm S V
    → E
    → Sm S V × E
unfolding resend_loop dequeue remove_fd
resend_chain out io fd [] sm e = (sm, e)
resend_chain out io fd (q ∷ next) sm e =
    let (e', attempt) = resend_loop (length q.unsent) io q.unsent e in
    elim attempt [
      | failed ↦ let removed = remove_fd out sm fd e' in (removed.sm, removed.outside)
      | blocked rest ↦ (
        record sm { fd_to_sendq = put_chain fd (record q { unsent = rest } ∷ next) sm.fd_to_sendq },
        e',
      )
      | all_sent ↦
          resend_chain out io fd next (dequeue sm fd q next) (out.on_sent fd q.value q.begin e')
    ]

-- `sm_resend`
unfoldable pub resend : {S V E : Type 0} → Outside S V E → Sm S V → ℕ → E → Sm S V × E
unfolding chain resend_chain
resend out sm fd e =
    resend_chain out (transmit out (sm.fd_to_ssl fd) fd) fd (chain fd sm.fd_to_sendq) sm e
