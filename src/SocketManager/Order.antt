-- ===== src/SocketManager/Order.antt =====
-- The order of the bytes that `sm_send` and `sm_resend` of src/socket_manager.c put on a descriptor.
use bootstrap_agency_templat.Prelude.{
  ℕ, zero, suc, ◌≡◌, refl, sym, ap, ◌∙◌, ◌⊎◌, inl, inr, true, List, [], ◌∷◌, ◌++◌, append-nil,
  append_assoc, leb, ◌==◌, leb→le, ==_iff, Bool-cases, length, take, drop, take-append-drop,
  drop_all,
}
use bootstrap_agency_templat.SocketManager.{Io, Sendq}
use bootstrap_agency_templat.SocketManager.{would_block, broken, sent}
use bootstrap_agency_templat.SocketManager.Send.{Attempt, send_loop}
use bootstrap_agency_templat.SocketManager.Resend.{resend_loop}
use bootstrap_agency_templat.SocketManager.Send.{all_sent, blocked, failed}

-- the bytes of a chain that are not sent yet
unfoldable pub waiting : {V : Type 0} → List (Sendq V) → List ℕ
waiting [] = []
waiting (q ∷ next) = q.unsent ++ waiting next

pub waiting-append : {V : Type 0} (p q : List (Sendq V)) → waiting (p ++ q) ≡ waiting p ++ waiting q
unfolding waiting
waiting-append [] q = refl
waiting-append (s ∷ p) q =
    ap (λ w. s.unsent ++ w) (waiting-append p q)
    ∙ sym (append_assoc s.unsent (waiting p) (waiting q))

pub Io-cases : (w : Io) → (w ≡ broken) ⊎ ((w ≡ would_block) ⊎ ((n : ℕ) × (w ≡ sent n)))
Io-cases (sent n) = inr (inr (n, refl))
Io-cases would_block = inr (inl refl)
Io-cases broken = inl refl

pub Attempt-cases :
    (t : Attempt) → (t ≡ failed) ⊎ ((t ≡ all_sent) ⊎ ((rest : List ℕ) × (t ≡ blocked rest)))
Attempt-cases all_sent = inr (inl refl)
Attempt-cases (blocked rest) = inr (inr (rest, refl))
Attempt-cases failed = inl refl

pub chain-cases :
    {V : Type 0} (q : List (Sendq V))
    → (q ≡ []) ⊎ ((s : Sendq V) × (next : List (Sendq V)) × (q ≡ s ∷ next))
chain-cases [] = inl refl
chain-cases (s ∷ next) = inr (s, next, refl)

abbrev pub arrived : Io → List ℕ → List ℕ
arrived (sent n) bytes = take n bytes
arrived would_block bytes = []
arrived broken bytes = []

-- the bytes that an attempt leaves
abbrev pub left_by : Attempt → List ℕ
left_by all_sent = []
left_by (blocked rest) = rest
left_by failed = []

-- What a write is for: the bytes that it says it took are those that come behind the bytes on the wire.
pub record Delivers {E : Type 0} (wire : E → List ℕ) (io : List ℕ → E → E × Io) : Type 0 where
  pub arrives :
      (bytes : List ℕ) (e : E) → wire (io bytes e).0 ≡ wire e ++ arrived (io bytes e).1 bytes

module _ {E : Type 0} (wire : E → List ℕ) (io : List ℕ → E → E × Io) (d : Delivers wire io) where
  pub written :
      (bytes : List ℕ) (e : E) {w : Io}
      → (io bytes e).1 ≡ w
      → wire (io bytes e).0 ≡ wire e ++ arrived w bytes
  written bytes e p = d.arrives bytes e ∙ ap (λ v. wire e ++ arrived v bytes) p

  pub held :
      (bytes : List ℕ) (e : E)
      → wire (io bytes e).0 ≡ wire e ++ []
      → wire (io bytes e).0 ++ bytes ≡ wire e ++ bytes
  held bytes e h = ap (λ s. s ++ bytes) (h ∙ append-nil (wire e))

  pub moved :
      (bytes : List ℕ) (e : E) (n : ℕ)
      → (io bytes e).1 ≡ sent n
      → wire (io bytes e).0 ++ drop n bytes ≡ wire e ++ bytes
  moved bytes e n p =
      ap (λ s. s ++ drop n bytes) (written bytes e p)
      ∙ append_assoc (wire e) (take n bytes) (drop n bytes)
      ∙ ap (λ s. wire e ++ s) (take-append-drop n bytes)

  pub same_place :
      (bytes : List ℕ) (e : E) (n : ℕ)
      → (io bytes e).1 ≡ sent n
      → (n == 0) ≡ true
      → wire (io bytes e).0 ++ bytes ≡ wire e ++ bytes
  same_place bytes e n p z =
      ap (λ k. wire (io bytes e).0 ++ drop k bytes) (sym ((==_iff n 0).0 z)) ∙ moved bytes e n p

  no_rest :
      (bytes : List ℕ) (e : E) (n : ℕ)
      → (io bytes e).1 ≡ sent n
      → leb (length bytes) n ≡ true
      → wire (io bytes e).0 ++ [] ≡ wire e ++ bytes
  no_rest bytes e n p k =
      ap (λ s. wire (io bytes e).0 ++ s) (sym (drop_all n bytes (leb→le (length bytes) n k)))
      ∙ moved bytes e n p

  -- An attempt that does not fail leaves exactly what is not on the wire.
  pub send_loop_lem :
      (fuel : ℕ) (head : List ℕ) (e : E)
      → let r = send_loop fuel io head e in
        (r.1 ≡ failed) ⊎ (wire r.0 ++ left_by r.1 ≡ wire e ++ head)
  unfolding send_loop
  send_loop_lem zero head e = inr refl
  send_loop_lem (suc fuel) head e = elim (Io-cases (io head e).1) [
    | inl p ↦ inl (rw (p, send_loop) refl)
    | inr (inl p) ↦ inr (rw (p, send_loop) (held head e (written head e p)))
    | inr (inr (n, p)) ↦ elim (Bool-cases (n == 0)) [
      | inl z ↦ inr (rw (p, z, send_loop) (same_place head e n p z))
      | inr z ↦ elim (Bool-cases (leb (length head) n)) [
        | inl k ↦ inr (rw (p, z, k, send_loop) (no_rest head e n p k))
        | inr k ↦ elim (send_loop_lem fuel (drop n head) (io head e).0) [
          | inl f ↦ inl (rw (p, z, k, send_loop) f)
          | inr ok ↦ inr (rw (p, z, k, send_loop) (ok ∙ moved head e n p))
        ]
      ]
    ]
  ]

  pub resend_loop_lem :
      (fuel : ℕ) (head : List ℕ) (e : E)
      → let r = resend_loop fuel io head e in
        (r.1 ≡ failed) ⊎ (wire r.0 ++ left_by r.1 ≡ wire e ++ head)
  unfolding resend_loop
  resend_loop_lem fuel [] e = inr refl
  resend_loop_lem zero (b ∷ head) e = inr refl
  resend_loop_lem (suc fuel) (b ∷ head) e = elim (Io-cases (io (b ∷ head) e).1) [
    | inl p ↦ inl (rw (p, resend_loop) refl)
    | inr (inl p) ↦ inr (rw (p, resend_loop) (held (b ∷ head) e (written (b ∷ head) e p)))
    | inr (inr (n, p)) ↦ elim (Bool-cases (n == 0)) [
      | inl z ↦ inr (rw (p, z, resend_loop) (same_place (b ∷ head) e n p z))
      | inr z ↦ elim (resend_loop_lem fuel (drop n (b ∷ head)) (io (b ∷ head) e).0) [
        | inl f ↦ inl (rw (p, z, resend_loop) f)
        | inr ok ↦ inr (rw (p, z, resend_loop) (ok ∙ moved (b ∷ head) e n p))
      ]
    ]
  ]
