-- ===== src/SocketManager/Select.antt =====
-- `sm_accept`, `sm_recv`, `sm_select` and `sm_cleanup` of src/socket_manager.c.
use bootstrap_agency_templat.Prelude.{
  ℕ, zero, suc, ◌-◌, Bool, true, false, ◌&&◌, ◌||◌, Option, none, some, List, [], ◌∷◌, ltb, leb,
  if◌then◌else◌,
}
use bootstrap_agency_templat.SocketManager.{Status, FdSet, Sm, Outside}
use bootstrap_agency_templat.SocketManager.{success, error}
use bootstrap_agency_templat.SocketManager.Fds.{add_fd, remove_fd}
use bootstrap_agency_templat.SocketManager.Resend.{resend}

-- What `accept` gives: a descriptor, or no client is left, or it failed.
pub data Accepted : Type 0 where
  client : ℕ → Accepted
  no_client : Accepted
  accept_failed : Accepted

-- What a read gives. No bytes from `recv` say that the peer has closed; `SSL_read` does not give them.
pub data Got : Type 0 where
  got : List ℕ → Got
  nothing_yet : Got
  read_failed : Got

-- What `select` gives: how many descriptors are ready, with the three sets, or why there are none.
pub data Selected : Type 0 where
  ready : ℕ → FdSet → FdSet → FdSet → Selected
  timed_out : Selected
  interrupted : Selected
  select_failed : ℕ → Selected

-- what a callback that may call the manager leaves
pub record Called (S V E : Type 0) : Type 0 where
  pub sm : Sm S V
  pub outside : E
  pub status : Status
  pub value : Option V

-- The rest of the system and of the callbacks.
pub record Inputs (S V E : Type 0) : Type 0 where
  pub accept : ℕ → E → E × Accepted
  pub recv : ℕ → E → E × Got
  pub ssl_read : S → E → E × Got
  pub select : Sm S V → E → E × Selected
  pub on_accept : Sm S V → ℕ → Option V → ℕ → E → Called S V E
  pub on_recv : Sm S V → ℕ → Option V → List ℕ → E → Called S V E

-- `recv`, or `SSL_read` where the descriptor has a session
abbrev pub receive : {S V E : Type 0} → Inputs S V E → Option S → ℕ → E → E × Got
receive inputs none fd = inputs.recv fd
receive inputs (some ssl) fd = inputs.ssl_read ssl

-- `curr_recv_fd` at the end of `sm_recv`
abbrev pub at_rest : {S V E : Type 0} → Option (Sm S V × E) → Option (Sm S V × E)
at_rest none = none
at_rest (some (sm, e)) = some (record sm { curr_recv_fd = 0 }, e)

abbrev pub within : ℕ → Option ℕ → Bool
within fd none = false
within fd (some top) = leb fd top

-- the number of descriptors in an `fd_set`
abbrev pub fd_setsize : ℕ
fd_setsize = 1024

-- what `sm_select` returns: -1, 0, minus an error number, or how many descriptors were ready
pub data Outcome : Type 0 where
  no_fds : Outcome
  again : Outcome
  minus_errno : ℕ → Outcome
  handled : ℕ → Outcome

abbrev pub outcome :
    {S V E : Type 0} → Outcome → Option (Sm S V × E) → Option (Sm S V × E × Outcome)
outcome o none = none
outcome o (some (sm, e)) = some (sm, e, o)

module _ {S V E : Type 0} (out : Outside S V E) (inputs : Inputs S V E) where
  abbrev pub removed : Sm S V → ℕ → E → Sm S V × E
  removed sm fd e = ((remove_fd out sm fd e).sm, (remove_fd out sm fd e).outside)

  -- a new client, with what `on_accept` made of it
  unfoldable pub welcome : Called S V E → ℕ → Sm S V × E
  unfolding add_fd
  welcome called new_fd = elim called.status [
    | error ↦ (called.sm, out.close new_fd called.outside)
    | success ↦
        let (added, status) = add_fd called.sm new_fd none called.value false in
        let (closed, e', _) = out.on_close added new_fd called.value false called.outside in
        elim status [ success ↦ (added, called.outside) | error ↦ (closed, out.close new_fd e') ]
  ]

  -- The loop of `sm_accept`; `none` says that the fuel is used up.
  unfoldable pub accept_loop : ℕ → ℕ → Sm S V → E → Option (Sm S V × E)
  unfolding welcome remove_fd
  accept_loop zero fd sm e = none
  accept_loop (suc fuel) fd sm e =
      let (e', accepted) = inputs.accept fd e in
      elim accepted [
        | no_client ↦ some (sm, e')
        | accept_failed ↦ some (removed sm fd e')
        | client new_fd ↦
            let next = welcome (inputs.on_accept sm fd (sm.fd_to_value fd) new_fd e') new_fd in
            accept_loop fuel fd next.0 next.1
      ]

  -- The loop of `sm_recv`, with the read that the session at its start selects.
  unfoldable pub recv_loop : (E → E × Got) → ℕ → ℕ → Sm S V → E → Option (Sm S V × E)
  unfolding remove_fd
  recv_loop read zero fd sm e = none
  recv_loop read (suc fuel) fd sm e =
      let (e', input) = read e in
      elim input [
        | nothing_yet ↦ some (sm, e')
        | read_failed ↦ some (removed sm fd e')
        | got [] ↦ some (removed sm fd e')
        | got (b ∷ bytes) ↦
            let called = inputs.on_recv sm fd (sm.fd_to_value fd) (b ∷ bytes) e' in
            elim called.status [
              | success ↦ recv_loop read fuel fd called.sm called.outside
              | error ↦ some (removed called.sm fd called.outside)
            ]
      ]

  -- `sm_recv`
  unfoldable pub receive_from : ℕ → ℕ → Sm S V → E → Option (Sm S V × E)
  unfolding recv_loop
  receive_from fuel fd sm e =
      at_rest (
        recv_loop (receive inputs (sm.fd_to_ssl fd) fd) fuel fd (record sm { curr_recv_fd = fd }) e)

  -- the body of the loop of `sm_select`, for a descriptor that is in one of the sets
  unfoldable pub visit : ℕ → ℕ → Sm S V → E → Option (Sm S V × E)
  unfolding remove_fd accept_loop resend receive_from
  visit fuel fd sm e =
      let sent = if sm.tmp_send_fds fd then resend out sm fd e else (sm, e) in
      elim (sm.tmp_fail_fds fd) [
        | true ↦ some (removed sm fd e)
        | false ↦ elim (sm.server_fds fd) [
          | true ↦ accept_loop fuel fd sm e
          | false ↦ elim (sm.tmp_recv_fds fd) [
            | true ↦ receive_from fuel fd sent.0 sent.1
            | false ↦ some sent
          ]
        ]
      ]

  -- The loop of `sm_select` over the descriptors from `fd` on, for `n` descriptors at most.
  unfoldable pub visit_loop : ℕ → ℕ → ℕ → ℕ → Sm S V → E → Option (Sm S V × E)
  unfolding visit
  visit_loop fuel zero fd left sm e = some (sm, e)
  visit_loop fuel (suc n) fd left sm e = elim (within fd sm.max_fd && ltb 0 left) [
    | false ↦ some (sm, e)
    | true ↦ elim (sm.tmp_send_fds fd || sm.tmp_recv_fds fd || sm.tmp_fail_fds fd) [
      | false ↦ visit_loop fuel n (suc fd) left sm e
      | true ↦ elim (visit fuel fd sm e) [
        | none ↦ none
        | some (sm', e') ↦ visit_loop fuel n (suc fd) (left - 1) sm' e'
      ]
    ]
  ]

  -- `sm_select`, less the time that it waits. The system's `select` changes the copied sets: they are
  -- empty after a timeout, and as they were after an error.
  unfoldable pub select : ℕ → Sm S V → E → Option (Sm S V × E × Outcome)
  unfolding visit_loop
  select fuel sm e =
      let copied = record sm {
        tmp_send_fds = sm.send_fds;
        tmp_recv_fds = sm.recv_fds;
        tmp_fail_fds = sm.all_fds;
      } in
      let (e', selected) = inputs.select copied e in
      elim (within 1 sm.max_fd) [
        | false ↦ some (sm, e, no_fds)
        | true ↦ elim selected [
          | timed_out ↦ some (
            record sm {
              tmp_send_fds = λ k. false;
              tmp_recv_fds = λ k. false;
              tmp_fail_fds = λ k. false;
            },
            e',
            again,
          )
          | interrupted ↦ some (copied, e', again)
          | select_failed n ↦ some (copied, e', minus_errno n)
          | ready n sends recvs fails ↦
              let marked = record sm {
                tmp_send_fds = sends;
                tmp_recv_fds = recvs;
                tmp_fail_fds = fails;
              } in
              outcome (handled n) (visit_loop fuel fd_setsize 0 n marked e')
        ]
      ]

  -- `sm_cleanup`, for the descriptors from `fd` on
  unfoldable pub cleanup_loop : ℕ → ℕ → Sm S V → E → Sm S V × E
  cleanup_loop zero fd sm e = (sm, e)
  cleanup_loop (suc n) fd sm e = elim (within fd sm.max_fd) [
    | false ↦ (sm, e)
    | true ↦
        let next = if sm.all_fds fd then removed sm fd e else (sm, e) in
        cleanup_loop n (suc fd) next.0 next.1
  ]

  unfoldable pub cleanup : Sm S V → E → Sm S V × E
  unfolding cleanup_loop
  cleanup = cleanup_loop fd_setsize 0
