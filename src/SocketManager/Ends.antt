-- ===== src/SocketManager/Ends.antt =====
-- `sm_recv` and `sm_cleanup` of src/socket_manager.c come to an end.
use bootstrap_agency_templat.Prelude.{
  ℕ, zero, suc, ◌+◌, ◌≤◌, ◌<◌, ◌≡◌, refl, ap, ◌∙◌, inl, inr, Bool, false, Option, none, some, List,
  ◌∷◌, arith, ltb, ◌==◌, if◌then◌else◌, ltb→lt, ==_iff, Bool-cases,
}
use bootstrap_agency_templat.SocketManager.{FdSet, assign, Sm, Outside}
use bootstrap_agency_templat.SocketManager.Fds.{deselect_fd, remove_fd}
use bootstrap_agency_templat.SocketManager.Top.{IsTop, IsMax, deselect_fd-IsMax}
use bootstrap_agency_templat.SocketManager.Kept.{Status-cases, Got-cases}
use bootstrap_agency_templat.SocketManager.Select.{
  Got, Inputs, receive, at_rest, within, fd_setsize, removed, recv_loop, receive_from, cleanup_loop,
  cleanup,
}
use bootstrap_agency_templat.SocketManager.Select.{got}

-- What has arrived and is not read yet: each read that gives bytes makes it less, and the callback, which
-- may send and close, does not make it more.
pub record Ebbs {S V E : Type 0} (inputs : Inputs S V E) (backlog : E → ℕ) (read : E → E × Got)
    : Type 0 where
  pub falls :
      (e : E) (b : ℕ) (bytes : List ℕ)
      → (read e).1 ≡ got (b ∷ bytes)
      → backlog (read e).0 < backlog e
  pub holds :
      (sm : Sm S V) (fd : ℕ) (value : Option V) (bytes : List ℕ) (e : E)
      → backlog (inputs.on_recv sm fd value bytes e).outside ≤ backlog e

module _ {S V E : Type 0} (out : Outside S V E) (inputs : Inputs S V E) where
  recv_loop-ends :
      (backlog : E → ℕ) (read : E → E × Got)
      → Ebbs inputs backlog read
      → (fuel fd : ℕ) (sm : Sm S V) (e : E) → backlog e < fuel
      → (r : Sm S V × E) × (recv_loop out inputs read fuel fd sm e ≡ some r)
  unfolding recv_loop
  recv_loop-ends backlog read ebbs zero fd sm e l = absurd (omega arith)
  recv_loop-ends backlog read ebbs (suc fuel) fd sm e l =
      let input = read e in
      elim (Got-cases input.1) [
        | inr (inl n) ↦ ((sm, input.0), rw (n, recv_loop) refl)
        | inr (inr (inl n)) ↦ (removed out inputs sm fd input.0, rw (n, recv_loop) refl)
        | inr (inr (inr n)) ↦ (removed out inputs sm fd input.0, rw (n, recv_loop) refl)
        | inl (b, bytes, n) ↦
            let called = inputs.on_recv sm fd (sm.fd_to_value fd) (b ∷ bytes) input.0 in
            elim (Status-cases called.status) [
              | inr bad ↦
                  (removed out inputs called.sm fd called.outside, rw (n, bad, recv_loop) refl)
              | inl ok ↦
                  let (r, h) = recv_loop-ends backlog read ebbs fuel fd called.sm called.outside (
                    omega (
                      arith,
                      ebbs.falls e b bytes n,
                      ebbs.holds sm fd (sm.fd_to_value fd) (b ∷ bytes) input.0,
                    )) in
                  (r, rw (n, ok, recv_loop) h)
            ]
      ]

  -- `sm_recv` returns, whatever the callback says: as many turns as there are unread bytes and one more
  -- are enough. No descriptor is read from afterwards. Each read that gives bytes makes the unread ones
  -- fewer, and the callback does not make them more.
  pub receive_from-ends :
      (backlog : E → ℕ) (fuel fd : ℕ) (sm : Sm S V) (e : E)
      → Ebbs inputs backlog (receive inputs (sm.fd_to_ssl fd) fd)
      → backlog e < fuel
      → (sm' : Sm S V) × (e' : E) × (receive_from out inputs fuel fd sm e ≡ some (sm', e'))
        × (sm'.curr_recv_fd ≡ 0)
  unfolding receive_from
  receive_from-ends backlog fuel fd sm e ebbs l =
      let ((sm', e'), h) =
        recv_loop-ends backlog (receive inputs (sm.fd_to_ssl fd) fd) ebbs fuel fd
          (record sm { curr_recv_fd = fd }) e l in
      (record sm' { curr_recv_fd = 0 }, e', ap at_rest h, refl)

beyond-IsTop :
    (fds : FdSet) (m : Option ℕ) (fd : ℕ)
    → IsTop fds m
    → within fd m ≡ false
    → (k : ℕ) → fd ≤ k
    → fds k ≡ false
beyond-IsTop fds none fd t w k l = t k
beyond-IsTop fds (some top) fd (there, above) w k l = above k (ground arith)

below_suc :
    (fds : FdSet) (fd : ℕ)
    → fds fd ≡ false
    → ((k : ℕ) → k < fd → fds k ≡ false)
    → (k : ℕ) → k < suc fd
    → fds k ≡ false
below_suc fds fd gone below k l = elim (Bool-cases (k == fd)) [
  | inl s ↦ ap fds ((==_iff k fd).0 s) ∙ gone
  | inr s ↦ below k (ground arith)
]

-- A callback that leaves the registered descriptors alone when one is closed.
pub record LeavesFds {S V E : Type 0} (out : Outside S V E) : Type 0 where
  pub all :
      (sm : Sm S V) (fd : ℕ) (value : Option V) (is_server : Bool) (e : E)
      → (out.on_close sm fd value is_server e).0.all_fds ≡ sm.all_fds
  pub max :
      (sm : Sm S V) (fd : ℕ) (value : Option V) (is_server : Bool) (e : E)
      → (out.on_close sm fd value is_server e).0.max_fd ≡ sm.max_fd

module _ {S V E : Type 0} (out : Outside S V E) (leaves : LeavesFds out) where
  remove_fd-all :
      (sm : Sm S V) (fd : ℕ) (e : E) (k : ℕ)
      → (remove_fd out sm fd e).sm.all_fds k ≡ (if k == fd then false else sm.all_fds k)
  unfolding remove_fd deselect_fd
  remove_fd-all sm fd e k =
      let emptied = record sm {
        fd_to_ssl = assign fd none sm.fd_to_ssl;
        fd_to_value = assign fd none sm.fd_to_value;
      } in
      elim (Bool-cases (sm.all_fds fd)) [
        | inl t ↦
            rw (t, remove_fd, leaves.all emptied fd (sm.fd_to_value fd) (sm.server_fds fd) e) refl
        | inr t ↦ rw (t, remove_fd) (ground arith)
      ]

  remove_fd-IsMax : (sm : Sm S V) (fd : ℕ) (e : E) → IsMax sm → IsMax (remove_fd out sm fd e).sm
  unfolding remove_fd
  remove_fd-IsMax sm fd e m =
      let emptied = record sm {
        fd_to_ssl = assign fd none sm.fd_to_ssl;
        fd_to_value = assign fd none sm.fd_to_value;
      } in
      let closed = (out.on_close emptied fd (sm.fd_to_value fd) (sm.server_fds fd) e).0 in
      let m' : IsMax closed =
        rw
          (
            leaves.all emptied fd (sm.fd_to_value fd) (sm.server_fds fd) e,
            leaves.max emptied fd (sm.fd_to_value fd) (sm.server_fds fd) e,
          )
          m in
      elim (Bool-cases (sm.all_fds fd)) [
        | inl t ↦ rw (t, remove_fd) (deselect_fd-IsMax closed fd (sm.server_fds fd) m')
        | inr t ↦ rw (t, remove_fd) m
      ]

  cleanup_loop-empties :
      (inputs : Inputs S V E) (n fd : ℕ) (sm : Sm S V) (e : E)
      → IsMax sm
      → ((k : ℕ) → k < fd → sm.all_fds k ≡ false)
      → ((k : ℕ) → fd + n ≤ k → sm.all_fds k ≡ false)
      → (k : ℕ) → (cleanup_loop out inputs n fd sm e).0.all_fds k ≡ false
  unfolding cleanup_loop
  cleanup_loop-empties inputs zero fd sm e m below above k = elim (Bool-cases (ltb k fd)) [
    | inl l ↦ below k (ltb→lt k fd l)
    | inr l ↦ above k (ground arith)
  ]
  cleanup_loop-empties inputs (suc n) fd sm e m below above k =
      elim (Bool-cases (within fd sm.max_fd)) [
        | inr w ↦ elim (Bool-cases (ltb k fd)) [
          | inl l ↦ rw (w, cleanup_loop) (below k (ltb→lt k fd l))
          | inr l ↦ rw (w, cleanup_loop) (beyond-IsTop sm.all_fds sm.max_fd fd m w k (ground arith))
        ]
        | inl w ↦ elim (Bool-cases (sm.all_fds fd)) [
          | inr gone ↦
              rw (w, gone, cleanup_loop)
                (cleanup_loop-empties inputs n (suc fd) sm e m (below_suc sm.all_fds fd gone below)
                  (λ j l. above j (omega arith)) k)
          | inl there ↦
              let r = remove_fd out sm fd e in
              rw (w, there, cleanup_loop)
                (cleanup_loop-empties inputs n (suc fd) r.sm r.outside (remove_fd-IsMax sm fd e m)
                  (λ j l. ground (arith, remove_fd-all sm fd e j, below j))
                  (λ j l. ground (arith, remove_fd-all sm fd e j, above j)) k)
        ]
      ]

-- After `sm_cleanup` no descriptor is registered, if `max_fd` was right before. The callback on a close
-- leaves the other descriptors alone, and descriptors are below the size of an `fd_set`.
pub cleanup-empties :
    {S V E : Type 0} (out : Outside S V E) (inputs : Inputs S V E) (sm : Sm S V) (e : E)
    → LeavesFds out
    → IsMax sm
    → ((k : ℕ) → fd_setsize ≤ k → sm.all_fds k ≡ false)
    → (k : ℕ) → (cleanup out inputs sm e).0.all_fds k ≡ false
unfolding cleanup
cleanup-empties out inputs sm e leaves m small =
    cleanup_loop-empties out leaves inputs fd_setsize 0 sm e m (λ k l. absurd (omega arith))
      (λ k l. small k (omega arith))
