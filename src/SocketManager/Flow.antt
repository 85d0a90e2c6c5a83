-- ===== src/SocketManager/Flow.antt =====
-- The flow control of src/socket_manager.c: a descriptor is read from unless one of its sends is blocked.
use bootstrap_agency_templat.Prelude.{
  ℕ, ◌≡◌, sym, ap, ◌∙◌, ◌⊎◌, Bool, true, false, not, ◌&&◌, Option, List, [], ◌∷◌, ◌++◌, arith, ◌==◌,
  if◌then◌else◌,
}
use bootstrap_agency_templat.SocketManager.{
  Status, Io, FdSet, fd_set, fd_clr, assign, Sendq, new_sendq, Queues, chain, without, put_chain,
  Sm, Outside, new,
}
use bootstrap_agency_templat.SocketManager
use bootstrap_agency_templat.SocketManager.{success, error}
use bootstrap_agency_templat.SocketManager.Fds.{select_fd, deselect_fd}
use bootstrap_agency_templat.SocketManager.Send.{block_reader, enqueue}
use bootstrap_agency_templat.SocketManager.Resend.{causes, unblock_reader, dequeue}
use bootstrap_agency_templat.SocketManager.Fifo.{enqueue-queues}
use bootstrap_agency_templat.SocketManager.Causes.{
  is_blocked, IsMap, put_chain-IsMap, causes_enqueue, causes_dequeue, causes_defer, causes_forget,
  forget-IsMap,
}

-- `recv_fds` holds the descriptors of `all_fds` that are not the cause of a blocked send; a cause is in
-- `all_fds`.
pub record IsBalanced {S V : Type 0} (sm : Sm S V) : Type 0 where
  pub entries : IsMap sm.fd_to_sendq
  pub readers : (r : ℕ) → sm.recv_fds r ≡ (sm.all_fds r && not (is_blocked r sm.fd_to_sendq))
  pub alive : (r : ℕ) → is_blocked r sm.fd_to_sendq ≡ true → sm.all_fds r ≡ true

-- The descriptor that is read from, if there is one, is in `all_fds`.
abbrev pub IsReading : {S V : Type 0} → Sm S V → Type 0
IsReading sm = (sm.curr_recv_fd ≡ 0) ⊎ (sm.all_fds sm.curr_recv_fd ≡ true)

pub new-IsBalanced : {S V : Type 0} → IsBalanced (SocketManager.new {S = S} {V = V})
unfolding SocketManager.new causes
new-IsBalanced = record { entries = tt; readers = λ r. ground arith; alive = λ r c. ground arith }

module _ {S V : Type 0} (sm : Sm S V) where
  pub enqueue-max :
      (fd : ℕ) (found : List (Sendq V)) (value : Option V) (rest : List ℕ)
      → (enqueue sm fd found value rest).max_fd ≡ sm.max_fd
  unfolding enqueue block_reader
  enqueue-max fd [] value rest = ground arith
  enqueue-max fd (q ∷ next) value rest = ground arith

  pub enqueue-all :
      (fd : ℕ) (found : List (Sendq V)) (value : Option V) (rest : List ℕ)
      → (enqueue sm fd found value rest).all_fds ≡ sm.all_fds
  unfolding enqueue block_reader
  enqueue-all fd [] value rest = ground arith
  enqueue-all fd (q ∷ next) value rest = ground arith

  pub enqueue-recv :
      (fd : ℕ) (found : List (Sendq V)) (value : Option V) (rest : List ℕ) (r : ℕ)
      → (enqueue sm fd found value rest).recv_fds r
        ≡ (if not (sm.curr_recv_fd == 0) && (r == sm.curr_recv_fd) then false else sm.recv_fds r)
  unfolding enqueue block_reader
  enqueue-recv fd [] value rest r = ground arith
  enqueue-recv fd (q ∷ next) value rest r = ground arith

  pub enqueue-IsBalanced :
      (fd : ℕ) (value : Option V) (rest : List ℕ)
      → IsBalanced sm
      → IsReading sm
      → IsBalanced (enqueue sm fd (chain fd sm.fd_to_sendq) value rest)
  unfolding new_sendq
  enqueue-IsBalanced fd value rest v reading =
      let found = chain fd sm.fd_to_sendq in
      let s = new_sendq sm.curr_recv_fd value rest in
      let queues = enqueue-queues sm fd found value rest in
      record {
        entries = rw queues (put_chain-IsMap fd (found ++ (s ∷ [])) sm.fd_to_sendq v.entries);
        readers = λ r.
            rw
              (
                enqueue-recv fd found value rest r,
                enqueue-all fd found value rest,
                queues,
                causes_enqueue r fd s sm.fd_to_sendq v.entries,
              )
              (ground (arith, v.readers r));
        alive = λ r c. rw (enqueue-all fd found value rest) (
            ground (
              arith,
              v.alive r,
              causes_enqueue r fd s sm.fd_to_sendq v.entries,
              sym (ap (is_blocked r) queues) ∙ c,
            ));
      }

  pub dequeue-queues :
      (fd : ℕ) (q : Sendq V) (next : List (Sendq V))
      → (dequeue sm fd q next).fd_to_sendq ≡ put_chain fd next sm.fd_to_sendq
  unfolding dequeue unblock_reader
  dequeue-queues fd q next = ground arith

  pub dequeue-all :
      (fd : ℕ) (q : Sendq V) (next : List (Sendq V)) → (dequeue sm fd q next).all_fds ≡ sm.all_fds
  unfolding dequeue unblock_reader
  dequeue-all fd q next = ground arith

  pub dequeue-max :
      (fd : ℕ) (q : Sendq V) (next : List (Sendq V)) → (dequeue sm fd q next).max_fd ≡ sm.max_fd
  unfolding dequeue unblock_reader
  dequeue-max fd q next = ground arith

  pub dequeue-curr :
      (fd : ℕ) (q : Sendq V) (next : List (Sendq V))
      → (dequeue sm fd q next).curr_recv_fd ≡ sm.curr_recv_fd
  unfolding dequeue unblock_reader
  dequeue-curr fd q next = ground arith

  pub dequeue-recv :
      (fd : ℕ) (q : Sendq V) (next : List (Sendq V)) (r : ℕ)
      → (dequeue sm fd q next).recv_fds r ≡ (
          if (not (q.recv_fd == 0)
              && sm.all_fds q.recv_fd
              && not (causes q.recv_fd (put_chain fd next sm.fd_to_sendq)))
            && (r == q.recv_fd)
          then true
          else sm.recv_fds r)
  unfolding dequeue unblock_reader
  dequeue-recv fd q next r = ground arith

  pub dequeue-IsBalanced :
      (fd : ℕ) (q : Sendq V) (next : List (Sendq V))
      → IsBalanced sm
      → chain fd sm.fd_to_sendq ≡ q ∷ next
      → IsBalanced (dequeue sm fd q next)
  dequeue-IsBalanced fd q next v h =
      let queues = dequeue-queues fd q next in
      let was = λ (r : ℕ). causes_dequeue r fd q next sm.fd_to_sendq v.entries h in
      record {
        entries = rw queues (put_chain-IsMap fd next sm.fd_to_sendq v.entries);
        readers = λ r.
            rw (dequeue-recv fd q next r, dequeue-all fd q next, queues)
              (ground (arith, v.readers r, was r));
        alive = λ r c.
            rw (dequeue-all fd q next)
              (ground (arith, v.alive r, was r, sym (ap (is_blocked r) queues) ∙ c));
      }

  pub defer-IsBalanced :
      (fd : ℕ) (q t : Sendq V) (next : List (Sendq V))
      → IsBalanced sm
      → chain fd sm.fd_to_sendq ≡ q ∷ next
      → t.recv_fd ≡ q.recv_fd
      → IsBalanced (record sm { fd_to_sendq = put_chain fd (t ∷ next) sm.fd_to_sendq })
  defer-IsBalanced fd q t next v h same =
      let was = λ (r : ℕ). causes_defer r fd q t next sm.fd_to_sendq v.entries h same in
      record {
        entries = put_chain-IsMap fd (t ∷ next) sm.fd_to_sendq v.entries;
        readers = λ r. rw (was r) (v.readers r);
        alive = λ r c. ground (arith, v.alive r, was r);
      }

  pub select_fd-IsBalanced :
      (fd : ℕ) (is_server : Bool)
      → IsBalanced sm
      → sm.all_fds fd ≡ false
      → IsBalanced (select_fd fd is_server sm)
  unfolding select_fd
  select_fd-IsBalanced fd is_server v free = record {
    entries = v.entries;
    readers = λ r. ground (arith, v.readers r, v.alive r, free);
    alive = λ r c. ground (arith, v.alive r);
  }

  pub deselect_fd-IsBalanced :
      (fd : ℕ) (is_server : Bool) → IsBalanced sm → IsBalanced (deselect_fd fd is_server sm)
  unfolding deselect_fd
  deselect_fd-IsBalanced fd is_server v = record {
    entries = forget-IsMap fd sm.fd_to_sendq v.entries;
    readers = λ r. ground (arith, v.readers r, causes_forget r fd sm.fd_to_sendq);
    alive = λ r c. ground (arith, v.alive r, causes_forget r fd sm.fd_to_sendq);
  }
