-- ===== src/SocketManager/Send.antt =====
-- `sm_send` of src/socket_manager.c: what the socket does not take at once is queued.
use bootstrap_agency_templat.Prelude.{
  ℕ, zero, suc, true, false, not, ◌&&◌, Option, none, some, List, [], ◌∷◌, ◌++◌, leb, ◌==◌,
  if◌then◌else◌, length, drop,
}
use bootstrap_agency_templat.SocketManager.{
  Status, Io, fd_set, fd_clr, Sendq, new_sendq, chain, put_chain, Sm, Outside,
}
use bootstrap_agency_templat.SocketManager.{success, error, would_block, broken, sent}

-- How an attempt to send ends: all the bytes are gone, or some are left, or the write failed.
pub data Attempt : Type 0 where
  all_sent : Attempt
  blocked : List ℕ → Attempt
  failed : Attempt

-- `send`, or `SSL_write` where the descriptor has a session
abbrev pub transmit : {S V E : Type 0} → Outside S V E → Option S → ℕ → List ℕ → E → E × Io
transmit out none fd = out.send fd
transmit out (some ssl) fd = out.ssl_write ssl

-- The loop of `sm_send`: it writes before it asks whether there are bytes left. Out of fuel it stops as a
-- socket that blocks does; a turn for every byte and one more are enough.
unfoldable pub send_loop : {E : Type 0} → ℕ → (List ℕ → E → E × Io) → List ℕ → E → E × Attempt
send_loop zero io head e = (e, blocked head)
send_loop (suc fuel) io head e =
    let (e', written) = io head e in
    elim written [
      | broken ↦ (e', failed)
      | would_block ↦ (e', blocked head)
      | sent n ↦
          let rest = drop n head in
          elim (n == 0) [
            | true ↦ (e', blocked head)
            | false ↦ elim (leb (length head) n) [
              | true ↦ (e', all_sent)
              | false ↦ send_loop fuel io rest e'
            ]
          ]
    ]

-- A reader that made a send block is not read from, so that the queue does not grow.
unfoldable pub block_reader : {S V : Type 0} → Sm S V → Sm S V
block_reader sm =
    let fd = sm.curr_recv_fd in
    if not (fd == 0) && sm.recv_fds fd
    then record sm { recv_fds = fd_clr fd sm.recv_fds; tmp_recv_fds = fd_clr fd sm.tmp_recv_fds }
    else sm

-- the end of `sm_send`, with the chain that it found
unfoldable pub enqueue : {S V : Type 0} → Sm S V → ℕ → List (Sendq V) → Option V → List ℕ → Sm S V
unfolding put_chain new_sendq block_reader
enqueue sm fd found value rest =
    let queued = record sm {
      fd_to_sendq =
          put_chain fd (found ++ (new_sendq sm.curr_recv_fd value rest ∷ [])) sm.fd_to_sendq;
    } in
    elim found [
      | [] ↦ block_reader (record queued { send_fds = fd_set fd sm.send_fds })
      | q ∷ next ↦ block_reader queued
    ]

pub record Sent (S V E : Type 0) : Type 0 where
  pub sm : Sm S V
  pub outside : E
  pub status : Status

-- `sm_send`
unfoldable pub send :
    {S V E : Type 0} → Outside S V E → Sm S V → ℕ → List ℕ → Option V → E → Sent S V E
unfolding chain send_loop enqueue
send out sm fd bytes value e = elim (chain fd sm.fd_to_sendq) [
  | [] ↦
      let (e', attempt) =
        send_loop (suc (length bytes)) (transmit out (sm.fd_to_ssl fd) fd) bytes e in
      elim attempt [
        | failed ↦ record { sm = sm; outside = e'; status = error }
        | all_sent ↦ record { sm = sm; outside = out.on_sent fd value bytes e'; status = success }
        | blocked rest ↦ record { sm = enqueue sm fd [] value rest; outside = e'; status = success }
      ]
  | q ∷ next ↦ record { sm = enqueue sm fd (q ∷ next) value bytes; outside = e; status = success }
]
