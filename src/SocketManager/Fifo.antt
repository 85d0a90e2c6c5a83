-- ===== src/SocketManager/Fifo.antt =====
-- `sm_send` and `sm_resend` of src/socket_manager.c keep the order of the bytes of a descriptor.
use bootstrap_agency_templat.Prelude.{
  ℕ, zero, suc, ◌≡◌, refl, sym, ap, ◌∙◌, ◌≢◌, ◌⊎◌, inl, inr, Bool, true, false, not, ◌&&◌, Option,
  List, [], ◌∷◌, ◌++◌, append-nil, append_assoc, ◌==◌, Bool-cases, length, drop,
}
use bootstrap_agency_templat.SocketManager.{Io, Sendq, new_sendq, chain, put_chain, Sm, Outside}
use bootstrap_agency_templat.SocketManager.{success, error, broken}
use bootstrap_agency_templat.SocketManager.Send.{
  Attempt, transmit, send_loop, block_reader, enqueue, send,
}
use bootstrap_agency_templat.SocketManager.Send.{all_sent, blocked, failed}
use bootstrap_agency_templat.SocketManager.Resend.{
  resend_loop, causes, unblock_reader, dequeue, resend_chain, resend,
}
use bootstrap_agency_templat.SocketManager.Order.{
  Attempt-cases, chain-cases, waiting, waiting-append, Io-cases, left_by, Delivers, send_loop_lem,
  resend_loop_lem,
}
use bootstrap_agency_templat.SocketManager.Queues.{chain-put_self}

-- what waits for a descriptor
abbrev pub queued : {S V : Type 0} → ℕ → Sm S V → List ℕ
queued fd sm = waiting (chain fd sm.fd_to_sendq)

pub enqueue-queues :
    {S V : Type 0} (sm : Sm S V) (fd : ℕ) (found : List (Sendq V)) (value : Option V)
    (rest : List ℕ)
    → (enqueue sm fd found value rest).fd_to_sendq
      ≡ put_chain fd (found ++ (new_sendq sm.curr_recv_fd value rest ∷ [])) sm.fd_to_sendq
unfolding enqueue block_reader
enqueue-queues sm fd [] value rest =
    elim (Bool-cases (not (sm.curr_recv_fd == 0) && sm.recv_fds sm.curr_recv_fd)) [
      | inl t ↦ rw (t, enqueue) refl
      | inr t ↦ rw (t, enqueue) refl
    ]
enqueue-queues sm fd (q ∷ next) value rest =
    elim (Bool-cases (not (sm.curr_recv_fd == 0) && sm.recv_fds sm.curr_recv_fd)) [
      | inl t ↦ rw (t, enqueue) refl
      | inr t ↦ rw (t, enqueue) refl
    ]

-- The bytes of a send that is queued come behind those that wait already.
queued-enqueue :
    {S V : Type 0} (sm : Sm S V) (fd : ℕ) (found : List (Sendq V)) (value : Option V)
    (rest : List ℕ)
    → queued fd (enqueue sm fd found value rest) ≡ waiting found ++ rest
unfolding waiting new_sendq
queued-enqueue sm fd found value rest =
    ap (λ queues. waiting (chain fd queues)) (enqueue-queues sm fd found value rest)
    ∙ ap waiting
        (chain-put_self fd (found ++ (new_sendq sm.curr_recv_fd value rest ∷ [])) sm.fd_to_sendq)
    ∙ waiting-append found (new_sendq sm.curr_recv_fd value rest ∷ [])
    ∙ ap (λ w. waiting found ++ w) (append-nil rest)

abbrev is_failed : Attempt → Bool
is_failed all_sent = false
is_failed (blocked rest) = false
is_failed failed = true

goes_on :
    {E : Type 0} (wire : E → List ℕ) (io : List ℕ → E → E × Io) (d : Delivers wire io) (fuel : ℕ)
    (head : List ℕ) (e : E) {t : Attempt}
    → (send_loop fuel io head e).1 ≡ t
    → is_failed t ≡ false
    → wire (send_loop fuel io head e).0 ++ left_by t ≡ wire e ++ head
goes_on wire io d fuel head e a ok = elim (send_loop_lem wire io d fuel head e) [
  | inl f ↦ absurd (cc (ap is_failed (sym a ∙ f), ok))
  | inr all ↦ ap (λ t. wire (send_loop fuel io head e).0 ++ left_by t) (sym a) ∙ all
]

pub chain-dequeue :
    {S V : Type 0} (sm : Sm S V) (fd : ℕ) (q : Sendq V) (next : List (Sendq V))
    → chain fd (dequeue sm fd q next).fd_to_sendq ≡ next
unfolding dequeue unblock_reader
chain-dequeue sm fd q next =
    let queues = put_chain fd next sm.fd_to_sendq in
    let put = chain-put_self fd next sm.fd_to_sendq in
    elim (Bool-cases
      (not (q.recv_fd == 0) && sm.all_fds q.recv_fd && not (causes q.recv_fd queues))) [
        | inl t ↦ rw (t, dequeue) put
        | inr t ↦ rw (t, dequeue) put
      ]

module _ {S V E : Type 0} (out : Outside S V E) (wire : E → List ℕ)
    (quiet : (fd : ℕ) (value : Option V) (bytes : List ℕ) (e : E)
      → wire (out.on_sent fd value bytes e) ≡ wire e) where
  send_fresh :
      (sm : Sm S V) (fd : ℕ) (bytes : List ℕ) (value : Option V) (e : E)
      → Delivers wire (transmit out (sm.fd_to_ssl fd) fd)
      → chain fd sm.fd_to_sendq ≡ []
      → let r = send out sm fd bytes value e in
        (r.status ≡ error) ⊎ (wire r.outside ++ queued fd r.sm ≡ wire e ++ bytes)
  unfolding send waiting
  send_fresh sm fd bytes value e d none_waits =
      let io = transmit out (sm.fd_to_ssl fd) fd in
      let r = send_loop (suc (length bytes)) io bytes e in
      elim (Attempt-cases r.1) [
        | inl f ↦ inl (rw (none_waits, f, send) refl)
        | inr (inl a) ↦ inr (
            rw (none_waits, a, send, none_waits)
              (ap (λ w. w ++ []) (quiet fd value bytes r.0)
                ∙ goes_on wire io d (suc (length bytes)) bytes e a refl))
        | inr (inr (rest, b)) ↦ inr (
            rw (none_waits, b, send)
              (ap (λ w. wire r.0 ++ w) (queued-enqueue sm fd [] value rest)
                ∙ goes_on wire io d (suc (length bytes)) bytes e b refl))
      ]

  -- What is on the wire of a descriptor, followed by what waits for it, grows by the bytes of a send that
  -- is a success, at the end: no byte is lost, sent twice or out of order, whether it goes out at once or
  -- in part or waits behind others. The system puts on the wire what it says that it took, and the
  -- callback puts nothing there.
  pub send-queued :
      (sm : Sm S V) (fd : ℕ) (bytes : List ℕ) (value : Option V) (e : E)
      → Delivers wire (transmit out (sm.fd_to_ssl fd) fd)
      → let r = send out sm fd bytes value e in
        r.status ≡ success → wire r.outside ++ queued fd r.sm ≡ (wire e ++ queued fd sm) ++ bytes
  unfolding send waiting
  send-queued sm fd bytes value e d ok = elim (chain-cases (chain fd sm.fd_to_sendq)) [
    | inl n ↦ elim (send_fresh sm fd bytes value e d n) [
      | inl bad ↦ absurd (cc (bad, ok))
      | inr all ↦
          all
          ∙ ap (λ w. w ++ bytes) (sym (append-nil (wire e)) ∙ ap (λ q. wire e ++ waiting q) (sym n))
    ]
    | inr (q, next, n) ↦
        rw (n, send)
          (ap (λ w. wire e ++ w) (queued-enqueue sm fd (q ∷ next) value bytes)
            ∙ sym (append_assoc (wire e) (waiting (q ∷ next)) bytes))
  ]

  never_failed :
      (io : List ℕ → E → E × Io)
      (works : (b : ℕ) (bytes : List ℕ) (e : E) → (io (b ∷ bytes) e).1 ≢ broken) (fuel : ℕ)
      (head : List ℕ) (e : E)
      → is_failed (resend_loop fuel io head e).1 ≡ false
  unfolding resend_loop
  never_failed io works fuel [] e = refl
  never_failed io works zero (b ∷ head) e = refl
  never_failed io works (suc fuel) (b ∷ head) e = elim (Io-cases (io (b ∷ head) e).1) [
    | inl p ↦ absurd (works b head e p)
    | inr (inl p) ↦ rw (p, resend_loop) refl
    | inr (inr (n, p)) ↦ elim (Bool-cases (n == 0)) [
      | inl z ↦ rw (p, z, resend_loop) refl
      | inr z ↦
          rw (p, z, resend_loop)
            (never_failed io works fuel (drop n (b ∷ head)) (io (b ∷ head) e).0)
    ]
  ]

  resends_on :
      (io : List ℕ → E → E × Io) (d : Delivers wire io) (fuel : ℕ) (head : List ℕ) (e : E)
      {t : Attempt}
      → (resend_loop fuel io head e).1 ≡ t
      → is_failed t ≡ false
      → wire (resend_loop fuel io head e).0 ++ left_by t ≡ wire e ++ head
  resends_on io d fuel head e a ok = elim (resend_loop_lem wire io d fuel head e) [
    | inl f ↦ absurd (cc (ap is_failed (sym a ∙ f), ok))
    | inr all ↦ ap (λ t. wire (resend_loop fuel io head e).0 ++ left_by t) (sym a) ∙ all
  ]

  resend_chain-queued :
      (io : List ℕ → E → E × Io) (d : Delivers wire io)
      (works : (b : ℕ) (bytes : List ℕ) (e : E) → (io (b ∷ bytes) e).1 ≢ broken) (fd : ℕ)
      (q : List (Sendq V)) (sm : Sm S V) (e : E)
      → chain fd sm.fd_to_sendq ≡ q
      → let r = resend_chain out io fd q sm e in wire r.1 ++ queued fd r.0 ≡ wire e ++ waiting q
  unfolding resend_chain waiting
  resend_chain-queued io d works fd [] sm e h = ap (λ q. wire e ++ waiting q) h
  resend_chain-queued io d works fd (q ∷ next) sm e h =
      let f = length q.unsent in
      let r = resend_loop f io q.unsent e in
      let rest = waiting next in
      elim (Attempt-cases r.1) [
        | inl bad ↦ absurd (cc (ap is_failed bad, never_failed io works f q.unsent e))
        | inr (inl a) ↦
            rw (a, resend_chain)
              (resend_chain-queued io d works fd next (dequeue sm fd q next)
                  (out.on_sent fd q.value q.begin r.0) (chain-dequeue sm fd q next)
                ∙ ap (λ w. w ++ rest)
                    (quiet fd q.value q.begin r.0
                      ∙ sym (append-nil (wire r.0))
                      ∙ resends_on io d f q.unsent e a refl)
                ∙ append_assoc (wire e) q.unsent rest)
        | inr (inr (left, b)) ↦
            rw (b, resend_chain)
              (ap (λ c. wire r.0 ++ waiting c)
                  (chain-put_self fd (record q { unsent = left } ∷ next) sm.fd_to_sendq)
                ∙ sym (append_assoc (wire r.0) left rest)
                ∙ ap (λ w. w ++ rest) (resends_on io d f q.unsent e b refl)
                ∙ append_assoc (wire e) q.unsent rest)
      ]

  -- A resend without a failing write changes neither the bytes of a descriptor nor their order: what is
  -- on the wire followed by what waits is the same before and after. The system puts on the wire what it
  -- says that it took, and the callback puts nothing there.
  pub resend-queued :
      (sm : Sm S V) (fd : ℕ) (e : E)
      → Delivers wire (transmit out (sm.fd_to_ssl fd) fd)
      → ((b : ℕ) (bytes : List ℕ) (e : E)
          → (transmit out (sm.fd_to_ssl fd) fd (b ∷ bytes) e).1 ≢ broken)
      → let r = resend out sm fd e in wire r.1 ++ queued fd r.0 ≡ wire e ++ queued fd sm
  unfolding resend
  resend-queued sm fd e d works =
      resend_chain-queued (transmit out (sm.fd_to_ssl fd) fd) d works fd (chain fd sm.fd_to_sendq)
        sm e refl
