-- ===== src/SocketManager/Top.antt =====
-- `max_fd` of src/socket_manager.c is the largest descriptor of `all_fds`.
use bootstrap_agency_templat.Prelude.{
  ℕ, zero, suc, ◌<◌, ◌≡◌, ap, ◌∙◌, inl, inr, Bool, true, false, Option, none, some, arith, ltb,
  ◌==◌, if◌then◌else◌, ==_iff, Bool-cases, set,
}
use bootstrap_agency_templat.SocketManager.{FdSet, fd_set, fd_clr, Sm}
use bootstrap_agency_templat.SocketManager.Fds.{select_fd, lower, deselect_fd}

-- the largest descriptor of a set; `none` where the set is empty
abbrev pub IsTop : FdSet → Option ℕ → Type 0
IsTop fds none = (k : ℕ) → fds k ≡ false
IsTop fds (some top) = (fds top ≡ true) × ((k : ℕ) → top < k → fds k ≡ false)

abbrev pub IsMax : {S V : Type 0} → Sm S V → Type 0
IsMax sm = IsTop sm.all_fds sm.max_fd

zero_empty :
    (fds : FdSet)
    → fds zero ≡ false
    → ((k : ℕ) → zero < k → fds k ≡ false)
    → (k : ℕ) → fds k ≡ false
zero_empty fds z above zero = z
zero_empty fds z above (suc k) = above (suc k) (omega arith)

just_above :
    (fds : FdSet) (n : ℕ)
    → fds (suc n) ≡ false
    → ((k : ℕ) → suc n < k → fds k ≡ false)
    → (k : ℕ) → n < k
    → fds k ≡ false
just_above fds n z above k l = elim (Bool-cases (k == suc n)) [
  | inl s ↦ ap fds ((==_iff k (suc n)).0 s) ∙ z
  | inr s ↦ above k (ground arith)
]

lower-IsTop : (n : ℕ) (fds : FdSet) → ((k : ℕ) → n < k → fds k ≡ false) → IsTop fds (lower n fds)
unfolding lower
lower-IsTop zero fds above = elim (Bool-cases (fds zero)) [
  | inl t ↦ rw t (t, above)
  | inr t ↦ rw t (λ k. zero_empty fds t above k)
]
lower-IsTop (suc n) fds above = elim (Bool-cases (fds (suc n))) [
  | inl t ↦ rw t (t, above)
  | inr t ↦ rw t (lower-IsTop n fds (λ k l. just_above fds n t above k l))
]

max-IsTop :
    (fds : FdSet) (m : Option ℕ) (fd : ℕ)
    → IsTop fds m
    → IsTop
        (fd_set fd fds)
        (elim m [ none ↦ some fd | some top ↦ if ltb top fd then some fd else some top ])
max-IsTop fds none fd t = (ground arith, λ k l. ground (arith, t k))
max-IsTop fds (some top) fd (set, above) = elim (Bool-cases (ltb top fd)) [
  | inl l ↦ rw l (ground arith, λ k h. ground (arith, above k))
  | inr l ↦ rw l (ground arith, λ k h. ground (arith, above k))
]

pub select_fd-IsMax :
    {S V : Type 0} (sm : Sm S V) (fd : ℕ) (is_server : Bool)
    → IsMax sm
    → IsMax (select_fd fd is_server sm)
unfolding select_fd
select_fd-IsMax sm fd is_server m = max-IsTop sm.all_fds sm.max_fd fd m

clear-IsTop :
    (fds : FdSet) (m : Option ℕ) (fd : ℕ)
    → IsTop fds m
    → IsTop (fd_clr fd fds) (elim m [
      | none ↦ none
      | some top ↦ if fd == top then lower top (fd_clr fd fds) else some top
    ])
clear-IsTop fds none fd t = λ k. ground (arith, t k)
clear-IsTop fds (some top) fd (set, above) = elim (Bool-cases (fd == top)) [
  | inl l ↦ rw l (lower-IsTop top (fd_clr fd fds) (λ k h. ground (arith, above k)))
  | inr l ↦ rw l (ground arith, λ k h. ground (arith, above k))
]

pub deselect_fd-IsMax :
    {S V : Type 0} (sm : Sm S V) (fd : ℕ) (is_server : Bool)
    → IsMax sm
    → IsMax (deselect_fd fd is_server sm)
unfolding deselect_fd
deselect_fd-IsMax sm fd is_server m = clear-IsTop sm.all_fds sm.max_fd fd m
