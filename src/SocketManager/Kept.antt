-- ===== src/SocketManager/Kept.antt =====
-- What the parts of the operations of src/socket_manager.c keep, and the cases of their results.
use bootstrap_agency_templat.Prelude.{
  ℕ, ◌≡◌, refl, ◌⊎◌, inl, inr, Bool, false, Option, none, some, List, [], ◌∷◌, arith,
}
use bootstrap_agency_templat.SocketManager.{Status, Sendq, chain, put_chain, Sm, Outside}
use bootstrap_agency_templat.SocketManager.{success, error}
use bootstrap_agency_templat.SocketManager.Fds.{select_fd, add_fd, deselect_fd}
use bootstrap_agency_templat.SocketManager.Send.{enqueue}
use bootstrap_agency_templat.SocketManager.Resend.{dequeue}
use bootstrap_agency_templat.SocketManager.Flow.{IsReading}
use bootstrap_agency_templat.SocketManager.Select.{Accepted, Got, Inputs}
use bootstrap_agency_templat.SocketManager.Select.{
  client, no_client, accept_failed, got, nothing_yet, read_failed,
}

-- What may be assumed of the descriptor that is read from: it depends on that and on `all_fds` only, and
-- a registration keeps it.
pub record Stable {S V : Type 0} (R : Sm S V → Type 0) : Type 0 where
  pub moves :
      (sm sm' : Sm S V)
      → sm'.all_fds ≡ sm.all_fds
      → sm'.curr_recv_fd ≡ sm.curr_recv_fd
      → R sm
      → R sm'
  pub adds :
      (sm : Sm S V) (fd : ℕ) (ssl : Option S) (value : Option V) (is_server : Bool)
      → R sm
      → R (add_fd sm fd ssl value is_server).0

-- A predicate that the parts of the operations keep.
pub record Kept {S V : Type 0} (R P : Sm S V → Type 0) : Type 0 where
  pub maps :
      (sm : Sm S V) (ssl : ℕ → Option S) (values : ℕ → Option V)
      → P sm
      → P (record sm { fd_to_ssl = ssl; fd_to_value = values })
  pub reads : (sm : Sm S V) (fd : ℕ) → P sm → P (record sm { curr_recv_fd = fd })
  pub selects :
      (sm : Sm S V) (fd : ℕ) (is_server : Bool)
      → P sm
      → sm.all_fds fd ≡ false
      → P (select_fd fd is_server sm)
  pub deselects : (sm : Sm S V) (fd : ℕ) (is_server : Bool) → P sm → P (deselect_fd fd is_server sm)
  pub enqueues :
      (sm : Sm S V) (fd : ℕ) (value : Option V) (rest : List ℕ)
      → P sm
      → R sm
      → P (enqueue sm fd (chain fd sm.fd_to_sendq) value rest)
  pub dequeues :
      (sm : Sm S V) (fd : ℕ) (q : Sendq V) (next : List (Sendq V))
      → P sm
      → chain fd sm.fd_to_sendq ≡ q ∷ next
      → P (dequeue sm fd q next)
  pub defers :
      (sm : Sm S V) (fd : ℕ) (q t : Sendq V) (next : List (Sendq V))
      → P sm
      → chain fd sm.fd_to_sendq ≡ q ∷ next
      → t.recv_fd ≡ q.recv_fd
      → P (record sm { fd_to_sendq = put_chain fd (t ∷ next) sm.fd_to_sendq })

-- The callbacks keep both; they may call the manager.
pub record IsPolite {S V E : Type 0} (R P : Sm S V → Type 0) (out : Outside S V E)
    (inputs : Inputs S V E) : Type 0 where
  pub closes :
      (sm : Sm S V) (fd : ℕ) (value : Option V) (is_server : Bool) (e : E)
      → P sm
      → R sm
      → P (out.on_close sm fd value is_server e).0 × R (out.on_close sm fd value is_server e).0
  pub accepts :
      (sm : Sm S V) (server : ℕ) (value : Option V) (fd : ℕ) (e : E)
      → P sm
      → R sm
      → P (inputs.on_accept sm server value fd e).sm × R (inputs.on_accept sm server value fd e).sm
  pub receives :
      (sm : Sm S V) (fd : ℕ) (value : Option V) (bytes : List ℕ) (e : E)
      → P sm
      → R sm
      → P (inputs.on_recv sm fd value bytes e).sm × R (inputs.on_recv sm fd value bytes e).sm

-- Nothing is assumed.
abbrev pub Always : {S V : Type 0} → Sm S V → Type 0
Always sm = Unit {0}

pub Always-Stable : {S V : Type 0} → Stable {S = S} {V = V} Always
Always-Stable = record { moves = λ sm sm' a b r. tt; adds = λ sm fd ssl value is_server r. tt }

add_fd-IsReading :
    {S V : Type 0} (sm : Sm S V) (fd : ℕ) (ssl : Option S) (value : Option V) (is_server : Bool)
    → IsReading sm
    → IsReading (add_fd sm fd ssl value is_server).0
unfolding add_fd select_fd
add_fd-IsReading sm fd none value is_server reading = ground arith
add_fd-IsReading sm fd (some s) value is_server reading = ground arith

pub IsReading-Stable : {S V : Type 0} → Stable {S = S} {V = V} IsReading
IsReading-Stable = record { moves = λ sm sm' a b r. rw (a, b) r; adds = add_fd-IsReading }

pub Status-cases : (s : Status) → (s ≡ success) ⊎ (s ≡ error)
Status-cases success = inl refl
Status-cases error = inr refl

pub Accepted-cases :
    (a : Accepted) → (a ≡ no_client) ⊎ ((a ≡ accept_failed) ⊎ ((fd : ℕ) × (a ≡ client fd)))
Accepted-cases no_client = inl refl
Accepted-cases accept_failed = inr (inl refl)
Accepted-cases (client fd) = inr (inr (fd, refl))

-- Either there are bytes, or the read ends the loop.
pub Got-cases :
    (g : Got)
    → ((b : ℕ) × (bytes : List ℕ) × (g ≡ got (b ∷ bytes)))
      ⊎ ((g ≡ nothing_yet) ⊎ ((g ≡ read_failed) ⊎ (g ≡ got [])))
Got-cases (got (b ∷ bytes)) = inl (b, bytes, refl)
Got-cases nothing_yet = inr (inl refl)
Got-cases read_failed = inr (inr (inl refl))
Got-cases (got []) = inr (inr (inr refl))

-- what a loop leaves, if its fuel is enough
abbrev pub Leaves : {S V E : Type 0} → (Sm S V → Type 0) → Option (Sm S V × E) → Type 0
Leaves P none = Unit {0}
Leaves P (some (sm, e)) = P sm
