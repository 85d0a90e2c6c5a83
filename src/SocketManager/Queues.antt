-- ===== src/SocketManager/Queues.antt =====
-- The table of blocked sends of src/socket_manager.c: what a descriptor has after a write to it.
use bootstrap_agency_templat.Prelude.{
  ℕ, ◌≡◌, refl, sym, ◌∙◌, ◌≢◌, inl, inr, List, [], ◌∷◌, ◌==◌, ==_iff, ==_refl, ==_ne, Bool-cases,
}
use bootstrap_agency_templat.SocketManager.{Sendq, Queues, chain, without, put_chain}

module _ {V : Type 0} where
  chain-without_self : (fd : ℕ) (queues : Queues V) → chain fd (without fd queues) ≡ []
  unfolding chain without
  chain-without_self fd [] = refl
  chain-without_self fd ((k, q) ∷ queues) = elim (Bool-cases (k == fd)) [
    | inl t ↦ rw (t, without) (chain-without_self fd queues)
    | inr t ↦ rw (t, without, t, chain) (chain-without_self fd queues)
  ]

  chain-without_ne :
      (fd k : ℕ) (queues : Queues V) → k ≢ fd → chain k (without fd queues) ≡ chain k queues
  unfolding chain without
  chain-without_ne fd k [] ne = refl
  chain-without_ne fd k ((j, q) ∷ queues) ne =
      let rest = chain-without_ne fd k queues ne in
      elim (Bool-cases (j == fd)) [
        | inl t ↦
            let s = ==_ne j k (λ e. ne (sym e ∙ (==_iff j fd).0 t)) in
            rw (t, s, without, chain) rest
        | inr t ↦ elim (Bool-cases (j == k)) [
          | inl s ↦ rw (t, s, without, chain) refl
          | inr s ↦ rw (t, s, without, chain) rest
        ]
      ]

  pub chain-put_self :
      (fd : ℕ) (q : List (Sendq V)) (queues : Queues V) → chain fd (put_chain fd q queues) ≡ q
  unfolding chain put_chain
  chain-put_self fd [] queues = chain-without_self fd queues
  chain-put_self fd (q ∷ next) queues = rw (==_refl fd, chain) refl

  pub chain-put_ne :
      (fd k : ℕ) (q : List (Sendq V)) (queues : Queues V)
      → k ≢ fd
      → chain k (put_chain fd q queues) ≡ chain k queues
  unfolding chain put_chain
  chain-put_ne fd k [] queues ne = chain-without_ne fd k queues ne
  chain-put_ne fd k (q ∷ next) queues ne =
      rw (==_ne fd k (λ e. ne (sym e)), chain) (chain-without_ne fd k queues ne)
