-- ===== src/SocketManager/Steps.antt =====
-- The operations of src/socket_manager.c keep what their parts keep.
use bootstrap_agency_templat.Prelude.{
  ℕ, zero, suc, ◌≡◌, refl, subst, inl, inr, Bool, false, Option, none, some, List, [], ◌∷◌,
  Bool-cases, length,
}
use bootstrap_agency_templat.SocketManager.{Io, assign, Sendq, chain, Sm, Outside, new}
use bootstrap_agency_templat.SocketManager.Fds.{is_some, add_fd, remove_fd}
use bootstrap_agency_templat.SocketManager.Send.{transmit, send_loop, enqueue, send}
use bootstrap_agency_templat.SocketManager.Resend.{resend_loop, dequeue, resend_chain, resend}
use bootstrap_agency_templat.SocketManager.Order.{Attempt-cases, chain-cases}
use bootstrap_agency_templat.SocketManager.Fifo.{chain-dequeue}
use bootstrap_agency_templat.SocketManager.Flow.{dequeue-all, dequeue-curr}
use bootstrap_agency_templat.SocketManager.Select.{
  Got, Called, Inputs, receive, welcome, accept_loop, recv_loop, at_rest, receive_from,
}
use bootstrap_agency_templat.SocketManager.Kept.{
  Kept, Leaves, IsPolite, Stable, Status-cases, Accepted-cases, Got-cases,
}

module _ {S V : Type 0} (R P : Sm S V → Type 0) (stable : Stable R) (kept : Kept R P) where
  pub add_fd-kept :
      (sm : Sm S V) (fd : ℕ) (ssl : Option S) (value : Option V) (is_server : Bool)
      → P sm
      → P (add_fd sm fd ssl value is_server).0
  unfolding add_fd
  add_fd-kept sm fd ssl value is_server v =
      let values = assign fd value sm.fd_to_value in
      let valued = kept.maps sm sm.fd_to_ssl values v in
      elim (Bool-cases (sm.all_fds fd)) [
        | inl t ↦ rw (t, add_fd) v
        | inr free ↦ elim (Bool-cases (is_some (sm.fd_to_value fd))) [
          | inl t ↦ rw (free, t, add_fd) valued
          | inr t ↦ elim ssl as (λ s. P (add_fd sm fd s value is_server).0) [
            | none ↦ rw (free, t, add_fd) (kept.selects _ fd is_server valued free)
            | some s ↦
                let secured = kept.maps sm (assign fd (some s) sm.fd_to_ssl) values v in
                elim (Bool-cases (is_some (sm.fd_to_ssl fd))) [
                  | inl k ↦ rw (free, t, k, add_fd) secured
                  | inr k ↦ rw (free, t, k, add_fd) (kept.selects _ fd is_server secured free)
                ]
          ]
        ]
      ]

  module _ {E : Type 0} (out : Outside S V E) (inputs : Inputs S V E)
      (polite : IsPolite R P out inputs) where
    pub remove_fd-kept : (sm : Sm S V) (fd : ℕ) (e : E) → P sm → R sm → P (remove_fd out sm fd e).sm
    unfolding remove_fd
    remove_fd-kept sm fd e v reading = elim (Bool-cases (sm.all_fds fd)) [
      | inl t ↦
          rw (t, remove_fd)
            (kept.deselects _ fd (sm.server_fds fd)
              (polite.closes _ fd (sm.fd_to_value fd) (sm.server_fds fd) e
                (kept.maps sm (assign fd none sm.fd_to_ssl) (assign fd none sm.fd_to_value) v)
                (stable.moves sm _ refl refl reading)).0)
      | inr t ↦ rw (t, remove_fd) v
    ]

    pub send-kept :
        (sm : Sm S V) (fd : ℕ) (bytes : List ℕ) (value : Option V) (e : E)
        → P sm
        → R sm
        → P (send out sm fd bytes value e).sm
    unfolding send
    send-kept sm fd bytes value e v reading =
        let queued = λ (rest : List ℕ). kept.enqueues sm fd value rest v reading in
        elim (chain-cases (chain fd sm.fd_to_sendq)) [
          | inr (q, next, n) ↦
              rw (n, send) (subst (λ c. P (enqueue sm fd c value bytes)) n (queued bytes))
          | inl n ↦
              let r = send_loop (suc (length bytes)) (transmit out (sm.fd_to_ssl fd) fd) bytes e in
              elim (Attempt-cases r.1) [
                | inl f ↦ rw (n, f, send) v
                | inr (inl a) ↦ rw (n, a, send) v
                | inr (inr (rest, b)) ↦
                    rw (n, b, send) (subst (λ c. P (enqueue sm fd c value rest)) n (queued rest))
              ]
        ]

    resend_chain-kept :
        (io : List ℕ → E → E × Io) (fd : ℕ) (q : List (Sendq V)) (sm : Sm S V) (e : E)
        → P sm
        → R sm
        → chain fd sm.fd_to_sendq ≡ q
        → P (resend_chain out io fd q sm e).0
    unfolding resend_chain
    resend_chain-kept io fd [] sm e v reading h = v
    resend_chain-kept io fd (q ∷ next) sm e v reading h =
        let r = resend_loop (length q.unsent) io q.unsent e in
        elim (Attempt-cases r.1) [
          | inl f ↦ rw (f, resend_chain) (remove_fd-kept sm fd r.0 v reading)
          | inr (inl a) ↦
              rw (a, resend_chain)
                (resend_chain-kept io fd next (dequeue sm fd q next)
                  (out.on_sent fd q.value q.begin r.0) (kept.dequeues sm fd q next v h)
                  (stable.moves sm _ (dequeue-all sm fd q next) (dequeue-curr sm fd q next) reading)
                  (chain-dequeue sm fd q next))
          | inr (inr (rest, b)) ↦
              rw (b, resend_chain) (kept.defers sm fd q (record q { unsent = rest }) next v h refl)
        ]

    pub resend-kept : (sm : Sm S V) (fd : ℕ) (e : E) → P sm → R sm → P (resend out sm fd e).0
    unfolding resend
    resend-kept sm fd e v reading =
        resend_chain-kept (transmit out (sm.fd_to_ssl fd) fd) fd (chain fd sm.fd_to_sendq) sm e v
          reading refl

    welcome-kept :
        (called : Called S V E) (new_fd : ℕ)
        → P called.sm
        → R called.sm
        → P (welcome out inputs called new_fd).0 × R (welcome out inputs called new_fd).0
    unfolding welcome
    welcome-kept called new_fd v reading =
        let added = add_fd called.sm new_fd none called.value false in
        let v' = add_fd-kept called.sm new_fd none called.value false v in
        let reading' = stable.adds called.sm new_fd none called.value false reading in
        elim (Status-cases called.status) [
          | inr bad ↦ rw (bad, welcome) (v, reading)
          | inl ok ↦ elim (Status-cases added.1) [
            | inl new ↦ rw (ok, new, welcome) (v', reading')
            | inr old ↦
                rw (ok, old, welcome)
                  (polite.closes added.0 new_fd called.value false called.outside v' reading')
          ]
        ]

    pub accept_loop-kept :
        (fuel fd : ℕ) (sm : Sm S V) (e : E)
        → P sm
        → R sm
        → Leaves P (accept_loop out inputs fuel fd sm e)
    unfolding accept_loop
    accept_loop-kept zero fd sm e v reading = tt
    accept_loop-kept (suc fuel) fd sm e v reading =
        let accepted = inputs.accept fd e in
        elim (Accepted-cases accepted.1) [
          | inl n ↦ rw (n, accept_loop) v
          | inr (inl f) ↦ rw (f, accept_loop) (remove_fd-kept sm fd accepted.0 v reading)
          | inr (inr (new_fd, c)) ↦
              let called = inputs.on_accept sm fd (sm.fd_to_value fd) new_fd accepted.0 in
              let (v', reading') =
                polite.accepts sm fd (sm.fd_to_value fd) new_fd accepted.0 v reading in
              let (w, r) = welcome-kept called new_fd v' reading' in
              let next = welcome out inputs called new_fd in
              rw (c, accept_loop) (accept_loop-kept fuel fd next.0 next.1 w r)
        ]

    recv_loop-kept :
        (read : E → E × Got) (fuel fd : ℕ) (sm : Sm S V) (e : E)
        → P sm
        → R sm
        → Leaves P (recv_loop out inputs read fuel fd sm e)
    unfolding recv_loop
    recv_loop-kept read zero fd sm e v reading = tt
    recv_loop-kept read (suc fuel) fd sm e v reading =
        let input = read e in
        elim (Got-cases input.1) [
          | inr (inl n) ↦ rw (n, recv_loop) v
          | inr (inr (inl n)) ↦ rw (n, recv_loop) (remove_fd-kept sm fd input.0 v reading)
          | inr (inr (inr n)) ↦ rw (n, recv_loop) (remove_fd-kept sm fd input.0 v reading)
          | inl (b, bytes, n) ↦
              let called = inputs.on_recv sm fd (sm.fd_to_value fd) (b ∷ bytes) input.0 in
              let (v', reading') =
                polite.receives sm fd (sm.fd_to_value fd) (b ∷ bytes) input.0 v reading in
              elim (Status-cases called.status) [
                | inl ok ↦
                    rw (n, ok, recv_loop)
                      (recv_loop-kept read fuel fd called.sm called.outside v' reading')
                | inr bad ↦
                    rw (n, bad, recv_loop) (remove_fd-kept called.sm fd called.outside v' reading')
              ]
        ]

    at_rest-kept : (r : Option (Sm S V × E)) → Leaves P r → Leaves P (at_rest r)
    at_rest-kept none l = tt
    at_rest-kept (some (sm, e)) l = kept.reads sm 0 l

    pub receive_from-kept :
        (fuel fd : ℕ) (sm : Sm S V) (e : E)
        → P sm
        → R (record sm { curr_recv_fd = fd })
        → Leaves P (receive_from out inputs fuel fd sm e)
    unfolding receive_from
    receive_from-kept fuel fd sm e v here = at_rest-kept _ (
        recv_loop-kept (receive inputs (sm.fd_to_ssl fd) fd) fuel fd
          (record sm { curr_recv_fd = fd }) e (kept.reads sm fd v) here)
