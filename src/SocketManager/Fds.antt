-- ===== src/SocketManager/Fds.antt =====
-- `sm_add_fd` and `sm_remove_fd` of src/socket_manager.c.
use bootstrap_agency_templat.Prelude.{
  ℕ, zero, suc, Bool, true, false, not, Option, none, some, List, [], ◌∷◌, ltb, ◌==◌, if◌then◌else◌,
}
use bootstrap_agency_templat.SocketManager.{
  Status, FdSet, fd_set, fd_clr, assign, Sendq, Queues, Sm, Outside,
}
use bootstrap_agency_templat.SocketManager.{success, error}

-- the descriptor is selected on from now on
unfoldable pub select_fd : {S V : Type 0} → ℕ → Bool → Sm S V → Sm S V
select_fd fd is_server sm = record sm {
  all_fds = fd_set fd sm.all_fds;
  send_fds = fd_clr fd sm.send_fds;
  recv_fds = fd_set fd sm.recv_fds;
  tmp_send_fds = fd_clr fd sm.tmp_send_fds;
  tmp_recv_fds = fd_clr fd sm.tmp_recv_fds;
  tmp_fail_fds = fd_clr fd sm.tmp_fail_fds;
  server_fds = if is_server then fd_set fd sm.server_fds else sm.server_fds;
  max_fd = elim sm.max_fd [ none ↦ some fd | some top ↦ if ltb top fd then some fd else some top ];
}

abbrev pub is_some : {A : Type 0} → Option A → Bool
is_some none = false
is_some (some a) = true

-- `sm_add_fd`
unfoldable pub add_fd : {S V : Type 0} → Sm S V → ℕ → Option S → Option V → Bool → Sm S V × Status
unfolding select_fd
add_fd sm fd ssl_session value is_server =
    let valued = record sm { fd_to_value = assign fd value sm.fd_to_value } in
    if sm.all_fds fd
    then (sm, error)
    else if is_some (sm.fd_to_value fd)
    then (valued, error)
    else elim ssl_session [
      | none ↦ (select_fd fd is_server valued, success)
      | some ssl ↦
          let secured = record valued { fd_to_ssl = assign fd (some ssl) sm.fd_to_ssl } in
          if is_some (sm.fd_to_ssl fd)
          then (secured, error)
          else (select_fd fd is_server secured, success)
    ]

-- the loop that lowers `max_fd`
unfoldable pub lower : ℕ → FdSet → Option ℕ
lower zero fds = if fds zero then some zero else none
lower (suc fd) fds = let below = lower fd fds in if fds (suc fd) then some (suc fd) else below

unfoldable pub lower_max : {S V : Type 0} → ℕ → Sm S V → Option ℕ
unfolding lower
lower_max fd sm = elim sm.max_fd [
  | none ↦ none
  | some top ↦ if fd == top then lower top sm.all_fds else some top
]

-- A blocked send whose cause has ended is kept, and has no cause then.
abbrev pub forget : {V : Type 0} → ℕ → Sendq V → Sendq V
forget fd q = if q.recv_fd == fd then record q { recv_fd = 0 } else q

unfoldable pub forget_in : {V : Type 0} → ℕ → List (Sendq V) → List (Sendq V)
forget_in fd [] = []
forget_in fd (q ∷ next) = forget fd q ∷ forget_in fd next

unfoldable pub forget_all : {V : Type 0} → ℕ → Queues V → Queues V
unfolding forget_in
forget_all fd [] = []
forget_all fd ((k, q) ∷ queues) = (k, forget_in fd q) ∷ forget_all fd queues

-- the steps of `sm_remove_fd` behind the callback and `close`
unfoldable pub deselect_fd : {S V : Type 0} → ℕ → Bool → Sm S V → Sm S V
unfolding lower_max forget_all
deselect_fd fd is_server sm =
    let cleared = record sm {
      all_fds = fd_clr fd sm.all_fds;
      server_fds = if is_server then fd_clr fd sm.server_fds else sm.server_fds;
      send_fds = fd_clr fd sm.send_fds;
      recv_fds = fd_clr fd sm.recv_fds;
      tmp_send_fds = fd_clr fd sm.tmp_send_fds;
      tmp_recv_fds = fd_clr fd sm.tmp_recv_fds;
      tmp_fail_fds = fd_clr fd sm.tmp_fail_fds;
    } in
    record cleared { max_fd = lower_max fd cleared; fd_to_sendq = forget_all fd sm.fd_to_sendq }

pub record Removed (S V E : Type 0) : Type 0 where
  pub sm : Sm S V
  pub outside : E
  pub status : Status

-- `sm_remove_fd`
unfoldable pub remove_fd : {S V E : Type 0} → Outside S V E → Sm S V → ℕ → E → Removed S V E
unfolding deselect_fd
remove_fd out sm fd e =
    let emptied = record sm {
      fd_to_ssl = assign fd none sm.fd_to_ssl;
      fd_to_value = assign fd none sm.fd_to_value;
    } in
    let is_server = sm.server_fds fd in
    let (closed, e', status) = out.on_close emptied fd (sm.fd_to_value fd) is_server e in
    if not (sm.all_fds fd)
    then record { sm = sm; outside = e; status = error }
    else record { sm = deselect_fd fd is_server closed; outside = out.close fd e'; status = status }
