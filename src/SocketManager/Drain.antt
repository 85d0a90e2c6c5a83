-- ===== src/SocketManager/Drain.antt =====
-- `sm_resend` of src/socket_manager.c on a socket that takes bytes again empties the queue.
use bootstrap_agency_templat.Prelude.{
  ℕ, zero, suc, ◌≤◌, ◌≡◌, refl, sym, ap, ◌∙◌, ◌≢◌, inl, inr, false, Option, List, [], ◌∷◌, ◌++◌,
  append-nil, arith, ◌==◌, length, drop, length-drop,
}
use bootstrap_agency_templat.SocketManager.{Io, Sendq, chain, Sm, Outside}
use bootstrap_agency_templat.SocketManager.{sent, broken}
use bootstrap_agency_templat.SocketManager.Send.{transmit}
use bootstrap_agency_templat.SocketManager.Send.{all_sent}
use bootstrap_agency_templat.SocketManager.Resend.{
  resend_loop, unblock_reader, dequeue, resend_chain, resend,
}
use bootstrap_agency_templat.SocketManager.Order.{waiting, chain-cases, Delivers}
use bootstrap_agency_templat.SocketManager.Fifo.{queued, chain-dequeue, resend-queued}

-- A write of some bytes takes one at least.
pub record Takes {E : Type 0} (io : List ℕ → E → E × Io) : Type 0 where
  pub more : List ℕ → E → ℕ
  pub takes : (b : ℕ) (bytes : List ℕ) (e : E) → (io (b ∷ bytes) e).1 ≡ sent (suc (more bytes e))

module _ {E : Type 0} (io : List ℕ → E → E × Io) (t : Takes io) where
  resend_loop-all_sent :
      (fuel : ℕ) (head : List ℕ) (e : E)
      → length head ≤ fuel
      → (resend_loop fuel io head e).1 ≡ all_sent
  unfolding resend_loop
  resend_loop-all_sent fuel [] e l = refl
  resend_loop-all_sent zero (b ∷ head) e l = absurd (omega arith)
  resend_loop-all_sent (suc fuel) (b ∷ head) e l =
      let n = t.more head e in
      let some_taken : (suc n == 0) ≡ false = ground arith in
      rw (t.takes b head e, some_taken, resend_loop)
        (resend_loop-all_sent fuel (drop n head) (io (b ∷ head) e).0
          (omega (arith, length-drop n head)))

  works : (b : ℕ) (bytes : List ℕ) (e : E) → (io (b ∷ bytes) e).1 ≢ broken
  works b bytes e p = absurd (cc (p, t.takes b bytes e))

-- Nothing waits for the descriptor, and `select` is not asked for it.
pub record IsDrained {S V : Type 0} (fd : ℕ) (sm : Sm S V) : Type 0 where
  pub empty : chain fd sm.fd_to_sendq ≡ []
  pub unwatched : sm.send_fds fd ≡ false

module _ {S V E : Type 0} (out : Outside S V E) (io : List ℕ → E → E × Io) (t : Takes io) where
  dequeue-sends : (sm : Sm S V) (fd : ℕ) (q : Sendq V) → (dequeue sm fd q []).send_fds fd ≡ false
  unfolding dequeue unblock_reader
  dequeue-sends sm fd q = ground arith

  resend_chain-IsDrained :
      (fd : ℕ) (q : Sendq V) (next : List (Sendq V)) (sm : Sm S V) (e : E)
      → chain fd sm.fd_to_sendq ≡ q ∷ next
      → IsDrained fd (resend_chain out io fd (q ∷ next) sm e).0
  unfolding resend_chain
  resend_chain-IsDrained fd q [] sm e h =
      rw (resend_loop-all_sent io t (length q.unsent) q.unsent e (omega arith), resend_chain)
        (record { empty = chain-dequeue sm fd q []; unwatched = dequeue-sends sm fd q })
  resend_chain-IsDrained fd q (s ∷ next) sm e h =
      let r = resend_loop (length q.unsent) io q.unsent e in
      rw (resend_loop-all_sent io t (length q.unsent) q.unsent e (omega arith), resend_chain)
        (resend_chain-IsDrained fd s next (dequeue sm fd q (s ∷ next))
          (out.on_sent fd q.value q.begin r.0) (chain-dequeue sm fd q (s ∷ next)))

-- Where every write takes a byte at least, one `sm_resend` of a descriptor with blocked sends puts all
-- that waits for it on the wire, in order, and leaves nothing waiting and the descriptor out of
-- `send_fds`. The system puts on the wire what it says that it took, and the callback puts nothing there.
pub resend-IsDrained :
    {S V E : Type 0} (out : Outside S V E) (wire : E → List ℕ)
    (quiet : (fd : ℕ) (value : Option V) (bytes : List ℕ) (e : E)
      → wire (out.on_sent fd value bytes e) ≡ wire e)
    (sm : Sm S V) (fd : ℕ) (e : E)
    → Delivers wire (transmit out (sm.fd_to_ssl fd) fd)
    → Takes (transmit out (sm.fd_to_ssl fd) fd)
    → chain fd sm.fd_to_sendq ≢ []
    → let r = resend out sm fd e in (wire r.1 ≡ wire e ++ queued fd sm) × IsDrained fd r.0
unfolding resend waiting
resend-IsDrained out wire quiet sm fd e d t some_wait =
    elim (chain-cases (chain fd sm.fd_to_sendq)) [
      | inl n ↦ absurd (some_wait n)
      | inr (q, next, n) ↦
          let io = transmit out (sm.fd_to_ssl fd) fd in
          let drained : IsDrained fd (resend out sm fd e).0 =
            rw (n, resend) (resend_chain-IsDrained out io t fd q next sm e n) in
          let order = resend-queued out wire quiet sm fd e d (works io t) in
          (
            sym (append-nil (wire (resend out sm fd e).1))
                ∙ ap (λ c. wire (resend out sm fd e).1 ++ waiting c) (sym drained.empty)
                ∙ order,
            drained,
          )
    ]
