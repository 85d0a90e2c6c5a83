-- ===== src/SocketManager/Reuse.antt =====
-- `sm_remove_fd` of src/socket_manager.c keeps the blocked sends of the descriptor: what becomes of the
-- next socket that has its number.
use bootstrap_agency_templat.Prelude.{
  ℕ, ◌≡◌, refl, ◌≢◌, inl, inr, Bool, true, false, Option, none, some, List, [], ◌∷◌, ◌++◌, arith,
  ◌==◌, Bool-cases,
}
use bootstrap_agency_templat.SocketManager.{assign, Sendq, new_sendq, Queues, chain, Sm, Outside}
use bootstrap_agency_templat.SocketManager.{success}
use bootstrap_agency_templat.SocketManager.Fds.{
  select_fd, add_fd, forget_in, forget_all, deselect_fd, remove_fd,
}
use bootstrap_agency_templat.SocketManager.Send.{block_reader, enqueue, send}
use bootstrap_agency_templat.SocketManager.Fifo.{enqueue-queues}
use bootstrap_agency_templat.SocketManager.Queues.{chain-put_self}
use bootstrap_agency_templat.SocketManager.Order.{chain-cases}

-- Sends wait for the descriptor, but `select` is not asked when it can be written to.
pub record IsStuck {S V : Type 0} (fd : ℕ) (sm : Sm S V) : Type 0 where
  pub waits : chain fd sm.fd_to_sendq ≢ []
  pub unwatched : sm.send_fds fd ≡ false

module _ {V : Type 0} (fd : ℕ) where
  chain-forget :
      (queues : Queues V) → chain fd (forget_all fd queues) ≡ forget_in fd (chain fd queues)
  unfolding chain forget_all forget_in
  chain-forget [] = refl
  chain-forget ((k, q) ∷ queues) = elim (Bool-cases (k == fd)) [
    | inl t ↦ rw (t, chain) refl
    | inr t ↦ rw (t, chain) (chain-forget queues)
  ]

  forget_in-some : (q : List (Sendq V)) → q ≢ [] → forget_in fd q ≢ []
  unfolding forget_in
  forget_in-some [] some_wait = absurd (some_wait refl)
  forget_in-some (s ∷ next) some_wait = λ p. absurd (cc p)

module _ {S V : Type 0} (fd : ℕ) where
  deselect_fd-IsStuck :
      (sm : Sm S V) (is_server : Bool)
      → chain fd sm.fd_to_sendq ≢ []
      → IsStuck fd (deselect_fd fd is_server sm)
  unfolding deselect_fd
  deselect_fd-IsStuck sm is_server some_wait = record {
    waits =
        rw (chain-forget fd sm.fd_to_sendq) (forget_in-some fd (chain fd sm.fd_to_sendq) some_wait);
    unwatched = ground arith;
  }

  add_fd-queues :
      (sm : Sm S V) (ssl : Option S) (value : Option V) (is_server : Bool)
      → (add_fd sm fd ssl value is_server).0.fd_to_sendq ≡ sm.fd_to_sendq
  unfolding add_fd select_fd
  add_fd-queues sm none value is_server = ground arith
  add_fd-queues sm (some ssl) value is_server = ground arith

  add_fd-IsStuck :
      (sm : Sm S V) (ssl : Option S) (value : Option V) (is_server : Bool)
      → IsStuck fd sm
      → IsStuck fd (add_fd sm fd ssl value is_server).0
  unfolding add_fd select_fd
  add_fd-IsStuck sm none value is_server s = record {
    waits = rw (add_fd-queues sm none value is_server) s.waits;
    unwatched = ground arith;
  }
  add_fd-IsStuck sm (some ssl) value is_server s = record {
    waits = rw (add_fd-queues sm (some ssl) value is_server) s.waits;
    unwatched = ground arith;
  }

  enqueue-sends :
      (sm : Sm S V) (q : Sendq V) (next : List (Sendq V)) (value : Option V) (rest : List ℕ)
      → (enqueue sm fd (q ∷ next) value rest).send_fds ≡ sm.send_fds
  unfolding enqueue block_reader
  enqueue-sends sm q next value rest = ground arith

  -- What is sent to a stuck descriptor is queued, and it stays stuck.
  send-IsStuck :
      {E : Type 0} (out : Outside S V E) (sm : Sm S V) (bytes : List ℕ) (value : Option V) (e : E)
      → IsStuck fd sm
      → let r = send out sm fd bytes value e in
        (r.outside ≡ e) × (r.status ≡ success) × IsStuck fd r.sm
  unfolding send
  send-IsStuck out sm bytes value e s = elim (chain-cases (chain fd sm.fd_to_sendq)) [
    | inl n ↦ absurd (s.waits n)
    | inr (q, next, n) ↦
        let queues = enqueue-queues sm fd (q ∷ next) value bytes in
        rw (n, send)
          (
            refl,
            refl,
            record {
              waits =
                  rw
                    (
                      queues,
                      chain-put_self fd ((q ∷ next) ++ (new_sendq sm.curr_recv_fd value bytes ∷ []))
                          sm.fd_to_sendq,
                    )
                    (λ p. absurd (cc p));
              unwatched = rw (enqueue-sends sm q next value bytes) s.unwatched;
            },
          )
  ]

  -- A descriptor that is removed while a send waits for it, and registered again: whatever is sent to it
  -- then is said to be a success, but nothing of it goes out, and `select` is not asked when it could.
  -- The callback on the close leaves the queue as it is.
  pub send-remove_fd :
      {E : Type 0} (out : Outside S V E) (sm : Sm S V) (ssl : Option S) (value : Option V)
      (is_server : Bool) (bytes : List ℕ) (sent_value : Option V) (e e' : E)
      → ((closing : Sm S V) (v : Option V) (b : Bool) (f : E)
          → (out.on_close closing fd v b f).0.fd_to_sendq ≡ closing.fd_to_sendq)
      → sm.all_fds fd ≡ true
      → chain fd sm.fd_to_sendq ≢ []
      → let again = (add_fd (remove_fd out sm fd e).sm fd ssl value is_server).0 in
        let r = send out again fd bytes sent_value e' in
        (r.outside ≡ e') × (r.status ≡ success) × IsStuck fd r.sm
  unfolding remove_fd
  send-remove_fd out sm ssl value is_server bytes sent_value e e' quiet registered some_wait =
      let emptied = record sm {
        fd_to_ssl = assign fd none sm.fd_to_ssl;
        fd_to_value = assign fd none sm.fd_to_value;
      } in
      let closing = (out.on_close emptied fd (sm.fd_to_value fd) (sm.server_fds fd) e).0 in
      let kept = quiet emptied (sm.fd_to_value fd) (sm.server_fds fd) e in
      let left = deselect_fd-IsStuck closing (sm.server_fds fd) (rw kept some_wait) in
      let gone : IsStuck fd (remove_fd out sm fd e).sm = rw (registered, remove_fd) left in
      send-IsStuck out _ bytes sent_value e'
        (add_fd-IsStuck (remove_fd out sm fd e).sm ssl value is_server gone)
