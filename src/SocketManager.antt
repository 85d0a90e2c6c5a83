-- ===== src/SocketManager.antt =====
-- src/socket_manager.c: the descriptors that are selected on, and the bytes that a socket does not take
-- yet, which wait in a queue of its descriptor.
pub mod Fds
pub mod Send
pub mod Resend
pub mod Queues
pub mod Fifo
pub mod Causes
pub mod Flow
pub mod Readers
pub mod Kept
pub mod Steps
pub mod Ends
pub mod Reuse
pub mod Drain
pub mod Reach
pub mod Select
pub mod Top
pub mod Order
use bootstrap_agency_templat.Prelude.{
  ℕ, zero, suc, ◌+◌, ◌-◌, ◌*◌, ◌/◌, ◌%◌, ◌^◌, ◌≤◌, ◌<◌, min, max, ◌≡◌, refl, sym, ap, ap₂, ◌∙◌,
  subst, fun_ext, ◌≢◌, ◌↔◌, ◌⊎◌, inl, inr, Bool, true, false, not, ◌&&◌, ◌||◌, Option, none, some,
  List, [], ◌∷◌, ◌++◌, map, append-nil, append_assoc, arith, ltb, leb, ◌==◌, if◌then◌else◌, ltb→lt,
  lt→ltb, leb→le, le→leb, ltb-false, ==_iff, ==_refl, ==_ne, tests, Bool-cases, Option-cases,
  length, get_or, set, take, drop, replicate, length-append, length-set, length-take, length-drop,
  length-replicate, get_or-set_self, get_or-set_ne, take-append-drop, take-append_length,
  drop-append_length, take-append_le, drop-append_le, take_all, drop_all, drop-drop, take-nil,
  take_seam, drop_seam, drop-take, nil_of_length, bit_xor_twice, bit_xor-bits, bit_xor-halves,
}

-- `sm_status`
pub data Status : Type 0 where
  success error : Status

-- What a write makes of some bytes: it took so many of them, it would block, or it failed. A count of 0
-- from `send` ends an attempt as a write that would block does; `SSL_write` gives none.
pub data Io : Type 0 where
  sent : ℕ → Io
  would_block broken : Io

-- An `fd_set`, for the descriptors below `FD_SETSIZE`.
abbrev pub FdSet : Type 0
FdSet = ℕ → Bool

abbrev pub fd_set : ℕ → FdSet → FdSet
fd_set fd fds k = if k == fd then true else fds k

abbrev pub fd_clr : ℕ → FdSet → FdSet
fd_clr fd fds k = if k == fd then false else fds k

-- a write to a map from descriptors; `none` is a null pointer, which removes the entry
abbrev pub assign : {A : Type 0} → ℕ → Option A → (ℕ → Option A) → ℕ → Option A
assign fd value entries k = if k == fd then value else entries k

-- `struct sm_sendq`, with the bytes from `head` to `tail` as `unsent`
pub record Sendq (V : Type 0) : Type 0 where
  pub value : Option V
  pub recv_fd : ℕ
  pub begin : List ℕ
  pub unsent : List ℕ

-- `sm_sendq_new`
unfoldable pub new_sendq : {V : Type 0} → ℕ → Option V → List ℕ → Sendq V
new_sendq recv_fd value bytes = record {
  value = value;
  recv_fd = recv_fd;
  begin = bytes;
  unsent = bytes;
}

-- `fd_to_sendq`: a descriptor with the chain of its blocked sends, the oldest first
abbrev pub Queues : Type 0 → Type 0
Queues V = List (ℕ × List (Sendq V))

-- the chain of a descriptor; it is empty where the table has no entry
unfoldable pub chain : {V : Type 0} → ℕ → Queues V → List (Sendq V)
chain fd [] = []
chain fd ((k, q) ∷ queues) = if k == fd then q else chain fd queues

unfoldable pub without : {V : Type 0} → ℕ → Queues V → Queues V
without fd [] = []
without fd ((k, q) ∷ queues) =
    let rest = without fd queues in if k == fd then rest else (k, q) ∷ rest

-- `ht_put` of a chain; an empty one removes the entry
unfoldable pub put_chain : {V : Type 0} → ℕ → List (Sendq V) → Queues V → Queues V
unfolding without
put_chain fd [] queues = without fd queues
put_chain fd (q ∷ next) queues = (fd, q ∷ next) ∷ without fd queues

-- `struct sm_private`; `max_fd` is `none` for -1, and `curr_recv_fd` is 0 outside of `sm_recv`
pub record Sm (S V : Type 0) : Type 0 where
  pub max_fd : Option ℕ
  pub all_fds : FdSet
  pub server_fds : FdSet
  pub send_fds : FdSet
  pub recv_fds : FdSet
  pub tmp_send_fds : FdSet
  pub tmp_recv_fds : FdSet
  pub tmp_fail_fds : FdSet
  pub fd_to_ssl : ℕ → Option S
  pub fd_to_value : ℕ → Option V
  pub fd_to_sendq : Queues V
  pub curr_recv_fd : ℕ

-- The system, the SSL library and the callbacks, over a state of their own. The callback on a close may
-- call the manager; `on_sent`, whose status is ignored, does not.
pub record Outside (S V E : Type 0) : Type 0 where
  pub send : ℕ → List ℕ → E → E × Io
  pub ssl_write : S → List ℕ → E → E × Io
  pub on_sent : ℕ → Option V → List ℕ → E → E
  pub on_close : Sm S V → ℕ → Option V → Bool → E → Sm S V × E × Status
  pub close : ℕ → E → E

-- `sm_private_new`
unfoldable pub new : {S V : Type 0} → Sm S V
new = record {
  max_fd = none;
  all_fds = λ k. false;
  server_fds = λ k. false;
  send_fds = λ k. false;
  recv_fds = λ k. false;
  tmp_send_fds = λ k. false;
  tmp_recv_fds = λ k. false;
  tmp_fail_fds = λ k. false;
  fd_to_ssl = λ k. none;
  fd_to_value = λ k. none;
  fd_to_sendq = [];
  curr_recv_fd = 0;
}
