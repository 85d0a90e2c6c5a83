-- ===== src/Tests/Reached.antt =====
-- src/socket_manager.c with callbacks that do not call the manager.
use bootstrap_agency_templat.Prelude.{
  ℕ, ◌<◌, ◌≡◌, refl, sym, ap, inr, false, none, some, List, [], ◌∷◌, ◌++◌, arith, length, take_all,
}
use bootstrap_agency_templat.SocketManager
use bootstrap_agency_templat.SocketManager.{Sm, success, Outside, Io, sent}
use bootstrap_agency_templat.SocketManager.Fds
use bootstrap_agency_templat.SocketManager.Fds.{add_fd, remove_fd}
use bootstrap_agency_templat.SocketManager.Send
use bootstrap_agency_templat.SocketManager.Send.{send}
use bootstrap_agency_templat.SocketManager.Resend.{resend}
use bootstrap_agency_templat.SocketManager.Select.{
  Inputs, Got, got, nothing_yet, no_client, timed_out, receive_from, cleanup,
}
use bootstrap_agency_templat.SocketManager.Kept.{IsPolite, Always, Always-Stable}
use bootstrap_agency_templat.SocketManager.Steps.{remove_fd-kept}
use bootstrap_agency_templat.SocketManager.Flow.{IsBalanced, IsReading}
use bootstrap_agency_templat.SocketManager.Fifo.{queued}
use bootstrap_agency_templat.SocketManager.Top.{IsMax}
use bootstrap_agency_templat.SocketManager.Reuse.{IsStuck, send-remove_fd}
use bootstrap_agency_templat.SocketManager.Drain.{IsDrained, resend-IsDrained}
use bootstrap_agency_templat.SocketManager.Ends.{receive_from-ends, cleanup-empties}
use bootstrap_agency_templat.SocketManager.Reach.{
  adds, sends, enters, here, next, IsValid, IsValid-Kept, Reaches-IsValid, Reaches-IsBalanced,
}
use bootstrap_agency_templat.Tests.Blocked.{out, wire, idle, five}

abbrev inputs : Inputs ℕ ℕ (List ℕ)
inputs = record {
  accept = λ fd e. (e, no_client);
  recv = λ fd e. (e, nothing_yet);
  ssl_read = λ ssl e. (e, nothing_yet);
  select = λ sm e. (e, timed_out);
  on_accept =
      λ sm server value fd e. record { sm = sm; outside = e; status = success; value = none };
  on_recv = λ sm fd value bytes e. record { sm = sm; outside = e; status = success; value = none };
}

polite : IsPolite Always IsValid out inputs
polite = record {
  closes = λ sm fd value is_server e v r. (v, r);
  accepts = λ sm server value fd e v r. (v, r);
  receives = λ sm fd value bytes e v r. (v, r);
}

-- A reader that removes its own descriptor, as the one of a file does by way of its client
-- (`iwdp_on_recv`, `iwdp_iws_close`).
abbrev leaving : Inputs ℕ ℕ (List ℕ)
leaving = record inputs {
  on_recv = λ sm fd value bytes e.
      let removed = remove_fd out sm fd e in
      record { sm = removed.sm; outside = removed.outside; status = removed.status; value = none };
}

leaving-IsPolite : IsPolite Always IsValid out leaving
leaving-IsPolite = record {
  closes = polite.closes;
  accepts = polite.accepts;
  receives = λ sm fd value bytes e v r.
      (remove_fd-kept Always IsValid Always-Stable IsValid-Kept out inputs polite sm fd e v tt, tt);
}

inputs-IsPolite : IsPolite IsReading IsBalanced out inputs
inputs-IsPolite = record {
  closes = λ sm fd value is_server e v r. (v, r);
  accepts = λ sm server value fd e v r. (v, r);
  receives = λ sm fd value bytes e v r. (v, r);
}

abbrev added : Sm ℕ ℕ
added = (add_fd idle 4 none (some 7) false).0

-- a descriptor that is read from sends to itself what its socket does not take
abbrev reading : Sm ℕ ℕ
reading = record added { curr_recv_fd = 4 }

Reaches-IsValid_example : IsValid (send out reading 4 five none []).sm
unfolding SocketManager.new add_fd Fds.select_fd
Reaches-IsValid_example = Reaches-IsValid out leaving leaving-IsPolite (
    next (next (next here (adds idle 4 none (some 7) false)) (enters added 4))
      (sends reading 4 five none [] tt))

Reaches-IsBalanced_example : IsBalanced (send out reading 4 five none []).sm
unfolding SocketManager.new add_fd Fds.select_fd
Reaches-IsBalanced_example = Reaches-IsBalanced out inputs inputs-IsPolite (
    next (next (next here (adds idle 4 none (some 7) false)) (enters added 4))
      (sends reading 4 five none [] (inr refl)))

abbrev stuck : Sm ℕ ℕ
stuck = (send out added 4 five none []).sm

send-remove_fd_example :
    let again = (add_fd (remove_fd out stuck 4 []).sm 4 none (some 8) false).0 in
    let r = send out again 4 (9 ∷ []) none [] in
    (r.outside ≡ []) × (r.status ≡ success) × IsStuck 4 r.sm
unfolding SocketManager.new add_fd Fds.select_fd send Send.enqueue
send-remove_fd_example =
    send-remove_fd 4 out stuck none (some 8) false (9 ∷ []) none [] [] (λ closing v b f. refl) refl
      (λ p. absurd (cc p))

-- a socket that takes all the bytes
abbrev take_all_bytes : ℕ → List ℕ → List ℕ → List ℕ × Io
take_all_bytes fd bytes e = (e ++ bytes, sent (length bytes))

abbrev ready_out : Outside ℕ ℕ (List ℕ)
ready_out = record out { send = take_all_bytes }

resend-IsDrained_example :
    let r = resend ready_out stuck 4 [] in (wire r.1 ≡ [] ++ queued 4 stuck) × IsDrained 4 r.0
unfolding SocketManager.new add_fd Fds.select_fd send Send.enqueue
resend-IsDrained_example =
    resend-IsDrained ready_out wire (λ fd value bytes e. refl) stuck 4 []
      (record {
        arrives = λ bytes e. ap (λ s. e ++ s) (sym (take_all (length bytes) bytes (omega arith)));
      })
      (record { more = λ bytes e. length bytes; takes = λ b bytes e. refl }) (λ p. absurd (cc p))

-- the unread bytes are the state
abbrev read_byte : ℕ → List ℕ → List ℕ × Got
read_byte fd [] = ([], nothing_yet)
read_byte fd (b ∷ e) = (e, got (b ∷ []))

abbrev arriving : Inputs ℕ ℕ (List ℕ)
arriving = record inputs { recv = read_byte }

read_byte-falls :
    (e : List ℕ) (b : ℕ) (bytes : List ℕ)
    → (read_byte 4 e).1 ≡ got (b ∷ bytes)
    → length (read_byte 4 e).0 < length e
read_byte-falls [] b bytes h = absurd (cc h)
read_byte-falls (c ∷ e) b bytes h = omega arith

receive_from-ends_example :
    (sm' : Sm ℕ ℕ) × (e' : List ℕ) × (receive_from out arriving 6 4 added five ≡ some (sm', e'))
    × (sm'.curr_recv_fd ≡ 0)
unfolding SocketManager.new add_fd Fds.select_fd
receive_from-ends_example =
    receive_from-ends out arriving length 6 4 added five
      (record { falls = read_byte-falls; holds = λ sm fd value bytes e. omega arith }) (omega arith)

added-IsMax : IsMax added
unfolding SocketManager.new add_fd Fds.select_fd
added-IsMax = (refl, λ k l. ground arith)

cleanup-empties_example : (cleanup out inputs added []).0.all_fds 3 ≡ false
unfolding SocketManager.new add_fd Fds.select_fd
cleanup-empties_example =
    cleanup-empties out inputs added []
      (record { all = λ sm fd v b e. refl; max = λ sm fd v b e. refl }) added-IsMax
      (λ k l. ground arith) 3
