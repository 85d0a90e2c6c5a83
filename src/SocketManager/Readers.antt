-- ===== src/SocketManager/Readers.antt =====
-- What the flow control of src/socket_manager.c keeps whatever is called: a descriptor that is read from is
-- registered, and only a blocked send stops the reads.
use bootstrap_agency_templat.Prelude.{ℕ, ◌≡◌, Bool, true, false, Option, List, [], ◌∷◌, ◌++◌, arith}
use bootstrap_agency_templat.SocketManager.{Sendq, new_sendq, Queues, chain, put_chain, Sm, new}
use bootstrap_agency_templat.SocketManager
use bootstrap_agency_templat.SocketManager.Fds.{select_fd, deselect_fd}
use bootstrap_agency_templat.SocketManager.Send.{enqueue}
use bootstrap_agency_templat.SocketManager.Resend.{dequeue}
use bootstrap_agency_templat.SocketManager.Fifo.{enqueue-queues}
use bootstrap_agency_templat.SocketManager.Causes.{
  is_blocked, IsMap, put_chain-IsMap, causes_enqueue, causes_dequeue, causes_defer, causes_forget,
  forget-IsMap,
}
use bootstrap_agency_templat.SocketManager.Flow.{
  enqueue-all, enqueue-recv, dequeue-queues, dequeue-all, dequeue-recv,
}

-- A descriptor of `recv_fds` is in `all_fds`; one of `all_fds` is not in `recv_fds` only if it is the
-- cause of a blocked send.
pub record IsOpen {S V : Type 0} (sm : Sm S V) : Type 0 where
  pub entries : IsMap sm.fd_to_sendq
  pub known : (r : ℕ) → sm.recv_fds r ≡ true → sm.all_fds r ≡ true
  pub opened :
      (r : ℕ) → sm.all_fds r ≡ true → is_blocked r sm.fd_to_sendq ≡ false → sm.recv_fds r ≡ true

pub new-IsOpen : {S V : Type 0} → IsOpen (SocketManager.new {S = S} {V = V})
unfolding SocketManager.new
new-IsOpen = record { entries = tt; known = λ r h. h; opened = λ r h b. h }

module _ {S V : Type 0} (sm : Sm S V) where
  pub enqueue-IsOpen :
      (fd : ℕ) (value : Option V) (rest : List ℕ)
      → IsOpen sm
      → IsOpen (enqueue sm fd (chain fd sm.fd_to_sendq) value rest)
  unfolding new_sendq
  enqueue-IsOpen fd value rest v =
      let found = chain fd sm.fd_to_sendq in
      let s = new_sendq sm.curr_recv_fd value rest in
      let queues = enqueue-queues sm fd found value rest in
      let was = λ (r : ℕ). causes_enqueue r fd s sm.fd_to_sendq v.entries in
      record {
        entries = rw queues (put_chain-IsMap fd (found ++ (s ∷ [])) sm.fd_to_sendq v.entries);
        known = λ r.
            rw (enqueue-recv sm fd found value rest r, enqueue-all sm fd found value rest)
              (λ h. ground (arith, v.known r));
        opened = λ r.
            rw (enqueue-recv sm fd found value rest r, enqueue-all sm fd found value rest, queues)
              (λ h b. ground (arith, v.opened r, was r));
      }

  pub dequeue-IsOpen :
      (fd : ℕ) (q : Sendq V) (next : List (Sendq V))
      → IsOpen sm
      → chain fd sm.fd_to_sendq ≡ q ∷ next
      → IsOpen (dequeue sm fd q next)
  dequeue-IsOpen fd q next v h =
      let queues = dequeue-queues sm fd q next in
      let was = λ (r : ℕ). causes_dequeue r fd q next sm.fd_to_sendq v.entries h in
      record {
        entries = rw queues (put_chain-IsMap fd next sm.fd_to_sendq v.entries);
        known = λ r.
            rw (dequeue-recv sm fd q next r, dequeue-all sm fd q next)
              (λ g. ground (arith, v.known r));
        opened = λ r.
            rw (dequeue-recv sm fd q next r, dequeue-all sm fd q next, queues)
              (λ g b. ground (arith, v.opened r, was r));
      }

  pub defer-IsOpen :
      (fd : ℕ) (q t : Sendq V) (next : List (Sendq V))
      → IsOpen sm
      → chain fd sm.fd_to_sendq ≡ q ∷ next
      → t.recv_fd ≡ q.recv_fd
      → IsOpen (record sm { fd_to_sendq = put_chain fd (t ∷ next) sm.fd_to_sendq })
  defer-IsOpen fd q t next v h same =
      let was = λ (r : ℕ). causes_defer r fd q t next sm.fd_to_sendq v.entries h same in
      record {
        entries = put_chain-IsMap fd (t ∷ next) sm.fd_to_sendq v.entries;
        known = v.known;
        opened = λ r g b. ground (arith, v.opened r, was r);
      }

  pub select_fd-IsOpen :
      (fd : ℕ) (is_server : Bool) → IsOpen sm → IsOpen (select_fd fd is_server sm)
  unfolding select_fd
  select_fd-IsOpen fd is_server v = record {
    entries = v.entries;
    known = λ r h. ground (arith, v.known r);
    opened = λ r h b. ground (arith, v.opened r);
  }

  pub deselect_fd-IsOpen :
      (fd : ℕ) (is_server : Bool) → IsOpen sm → IsOpen (deselect_fd fd is_server sm)
  unfolding deselect_fd
  deselect_fd-IsOpen fd is_server v = record {
    entries = forget-IsMap fd sm.fd_to_sendq v.entries;
    known = λ r h. ground (arith, v.known r);
    opened = λ r h b. ground (arith, v.opened r, causes_forget r fd sm.fd_to_sendq);
  }
