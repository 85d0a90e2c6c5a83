-- ===== src/SocketManager/Causes.antt =====
-- The table of blocked sends of src/socket_manager.c: which descriptors are the cause of a send in it.
use bootstrap_agency_templat.Prelude.{
  ℕ, ◌≡◌, refl, sym, ap, ◌∙◌, subst, ◌≢◌, inl, inr, Bool, true, false, not, ◌&&◌, ◌||◌, List, [],
  ◌∷◌, ◌++◌, arith, ◌==◌, ==_iff, Bool-cases,
}
use bootstrap_agency_templat.SocketManager.{Sendq, Queues, chain, without, put_chain}
use bootstrap_agency_templat.SocketManager.Fds.{forget_in, forget_all}
use bootstrap_agency_templat.SocketManager.Resend.{causes_in, causes}

or_swap : (a b c : Bool) → (a || (b || c)) ≡ (b || (a || c))
or_swap true true c = refl
or_swap true false c = refl
or_swap false true c = refl
or_swap false false c = refl

or_assoc : (a b c : Bool) → (a || (b || c)) ≡ ((a || b) || c)
or_assoc true b c = refl
or_assoc false b c = refl

-- whether one of the sends of a descriptor is blocked; descriptor 0 stands for no cause
abbrev pub is_blocked : {V : Type 0} → ℕ → Queues V → Bool
is_blocked r queues = not (r == 0) && causes r queues

module _ {V : Type 0} where
  -- every descriptor has one entry at most
  abbrev pub IsMap : Queues V → Type 0
  IsMap [] = Unit
  IsMap ((k, q) ∷ queues) = (without k queues ≡ queues) × IsMap queues

  without-without :
      (j k : ℕ) (queues : Queues V) → without j (without k queues) ≡ without k (without j queues)
  unfolding without
  without-without j k [] = refl
  without-without j k ((i, q) ∷ queues) =
      let rest = without-without j k queues in
      elim (Bool-cases (i == k)) [
        | inl s ↦ elim (Bool-cases (i == j)) [
          | inl t ↦ rw (s, t, without) rest
          | inr t ↦ rw (s, t, without, s) rest
        ]
        | inr s ↦ elim (Bool-cases (i == j)) [
          | inl t ↦ rw (s, t, without) rest
          | inr t ↦ rw (s, t, without, s) (ap (λ l. (i, q) ∷ l) rest)
        ]
      ]

  without_twice : (k : ℕ) (queues : Queues V) → without k (without k queues) ≡ without k queues
  unfolding without
  without_twice k [] = refl
  without_twice k ((i, q) ∷ queues) = elim (Bool-cases (i == k)) [
    | inl s ↦ rw (s, without) (without_twice k queues)
    | inr s ↦ rw (s, without, s) (ap (λ l. (i, q) ∷ l) (without_twice k queues))
  ]

  without-IsMap : (k : ℕ) (queues : Queues V) → IsMap queues → IsMap (without k queues)
  unfolding without
  without-IsMap k [] m = m
  without-IsMap k ((i, q) ∷ queues) (one, m) = elim (Bool-cases (i == k)) [
    | inl s ↦ rw (s, without) (without-IsMap k queues m)
    | inr s ↦
        rw (s, without) (without-without i k queues ∙ ap (without k) one, without-IsMap k queues m)
  ]

  pub put_chain-IsMap :
      (fd : ℕ) (q : List (Sendq V)) (queues : Queues V)
      → IsMap queues
      → IsMap (put_chain fd q queues)
  unfolding put_chain
  put_chain-IsMap fd [] queues m = without-IsMap fd queues m
  put_chain-IsMap fd (q ∷ next) queues m = (without_twice fd queues, without-IsMap fd queues m)

  -- The causes in the table are those in the chain of a descriptor and those in the rest.
  causes_split :
      (r fd : ℕ) (queues : Queues V)
      → IsMap queues
      → causes r queues ≡ (causes_in r (chain fd queues) || causes r (without fd queues))
  unfolding causes chain without causes_in
  causes_split r fd [] m = refl
  causes_split r fd ((k, q) ∷ queues) (one, m) = elim (Bool-cases (k == fd)) [
    | inl s ↦
        let same : without fd queues ≡ queues =
          subst (λ j. without j queues ≡ queues) ((==_iff k fd).0 s) one in
        rw (s, chain, without, same) refl
    | inr s ↦ rw (s, chain, without, causes_split r fd queues m) (or_swap (causes_in r q) _ _)
  ]

  causes_put :
      (r fd : ℕ) (q : List (Sendq V)) (queues : Queues V)
      → causes r (put_chain fd q queues) ≡ (causes_in r q || causes r (without fd queues))
  unfolding causes put_chain causes_in
  causes_put r fd [] queues = refl
  causes_put r fd (q ∷ next) queues = refl

  causes_in-append :
      (r : ℕ) (p q : List (Sendq V)) → causes_in r (p ++ q) ≡ (causes_in r p || causes_in r q)
  unfolding causes_in
  causes_in-append r [] q = refl
  causes_in-append r (s ∷ p) q =
      rw (causes_in-append r p q) (or_assoc (s.recv_fd == r) (causes_in r p) (causes_in r q))

  -- A send that is put behind the others of its descriptor has its reader as a new cause.
  pub causes_enqueue :
      (r fd : ℕ) (s : Sendq V) (queues : Queues V)
      → IsMap queues
      → causes r (put_chain fd (chain fd queues ++ (s ∷ [])) queues)
        ≡ ((s.recv_fd == r) || causes r queues)
  unfolding causes_in
  causes_enqueue r fd s queues m =
      rw (causes_put r fd, causes_in-append r (chain fd queues), causes_split r fd queues m)
        (ground arith)

  -- The first send of a chain is gone: without it the causes are those of the rest.
  pub causes_dequeue :
      (r fd : ℕ) (s : Sendq V) (next : List (Sendq V)) (queues : Queues V)
      → IsMap queues
      → chain fd queues ≡ s ∷ next
      → causes r queues ≡ ((s.recv_fd == r) || causes r (put_chain fd next queues))
  unfolding causes_in
  causes_dequeue r fd s next queues m h =
      rw (causes_split r fd queues m, h, causes_put r fd) (sym (or_assoc (s.recv_fd == r) _ _))

  -- The first send of a chain is changed, but not its cause.
  pub causes_defer :
      (r fd : ℕ) (s t : Sendq V) (next : List (Sendq V)) (queues : Queues V)
      → IsMap queues
      → chain fd queues ≡ s ∷ next
      → t.recv_fd ≡ s.recv_fd
      → causes r (put_chain fd (t ∷ next) queues) ≡ causes r queues
  unfolding causes_in
  causes_defer r fd s t next queues m h same =
      rw (causes_put r fd, causes_split r fd queues m, h, same) refl

  causes_in-forget :
      (r fd : ℕ) (q : List (Sendq V))
      → r ≢ 0
      → causes_in r (forget_in fd q) ≡ (not (r == fd) && causes_in r q)
  unfolding causes_in forget_in
  causes_in-forget r fd [] nonzero = ground arith
  causes_in-forget r fd (s ∷ q) nonzero = ground (arith, causes_in-forget r fd q nonzero)

  -- A descriptor that is forgotten is no cause any more, and no other cause is lost.
  pub causes_forget :
      (r fd : ℕ) (queues : Queues V)
      → r ≢ 0
      → causes r (forget_all fd queues) ≡ (not (r == fd) && causes r queues)
  unfolding causes forget_all
  causes_forget r fd [] nonzero = ground arith
  causes_forget r fd ((k, q) ∷ queues) nonzero =
      ground (arith, causes_forget r fd queues nonzero, causes_in-forget r fd q nonzero)

  without-forget :
      (k fd : ℕ) (queues : Queues V)
      → without k (forget_all fd queues) ≡ forget_all fd (without k queues)
  unfolding without forget_all
  without-forget k fd [] = refl
  without-forget k fd ((i, q) ∷ queues) = elim (Bool-cases (i == k)) [
    | inl s ↦ rw (s, without) (without-forget k fd queues)
    | inr s ↦ rw (s, without) (ap (λ l. (i, forget_in fd q) ∷ l) (without-forget k fd queues))
  ]

  pub forget-IsMap : (fd : ℕ) (queues : Queues V) → IsMap queues → IsMap (forget_all fd queues)
  unfolding forget_all
  forget-IsMap fd [] m = m
  forget-IsMap fd ((i, q) ∷ queues) (one, m) =
      (without-forget i fd queues ∙ ap (forget_all fd) one, forget-IsMap fd queues m)
