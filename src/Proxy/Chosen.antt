-- ===== src/Proxy/Chosen.antt =====
-- Which port `iwdp_listen` of src/ios_webkit_debug_proxy.c takes.
use bootstrap_agency_templat.Prelude.{
  ℕ, zero, suc, ◌+◌, ◌-◌, ◌≤◌, ◌≡◌, refl, sym, ap, ◌∙◌, subst, ◌⊎◌, inl, inr, true, false, ◌||◌,
  Option, some, List, arith, ◌==◌, Bool-cases,
}
use bootstrap_agency_templat.PortConfig.{negative_one, less}
use bootstrap_agency_templat.Proxy.{Iport}
use bootstrap_agency_templat.Proxy.Listen.{
  first_try, wants_range, Net, find_iport, is_taken, Bound, with_iport, scan, bind,
}

-- Where a descriptor comes from: the system gave it for the port that was selected, or for one of the
-- range that no device has.
pub data Chosen {E : Type 0} (net : Net E) (iports : List Iport) (port min_port max_port : ℕ)
    (b : Bound E) : Type 0 where
  selected :
      (before : E)
      → net.listen port before ≡ (b.outside, b.s_fd)
      → b.port ≡ port
      → Chosen net iports port min_port max_port b
  ranged :
      (before : E)
      → net.listen b.port before ≡ (b.outside, b.s_fd)
      → min_port ≤ b.port
      → b.port ≤ max_port
      → is_taken b.port iports ≡ false
      → Chosen net iports port min_port max_port b

module _ {E : Type 0} (net : Net E) where
  -- a turn of the loop without an open port
  scan-next :
      (iports : List Iport) (port count p s_fd : ℕ) (e : E)
      → ((is_taken p iports || p == port) ≡ true) ⊎ (less 0 (net.listen p e).1 ≡ false)
      → (s_fd' : ℕ) × (e' : E) × (less 0 s_fd ≡ false → less 0 s_fd' ≡ false)
        × (scan net iports port (suc count) p s_fd e ≡ scan net iports port count (p + 1) s_fd' e')
  unfolding scan
  scan-next iports port count p s_fd e (inl t) = (s_fd, e, (λ h. h), rw (t, scan) refl)
  scan-next iports port count p s_fd e (inr failed) =
      elim (Bool-cases (is_taken p iports || p == port)) [
        | inl t ↦ (s_fd, e, (λ h. h), rw (t, scan) refl)
        | inr f ↦ ((net.listen p e).1, (net.listen p e).0, (λ h. failed), rw (f, failed, scan) refl)
      ]

  -- what the loop leaves: a descriptor of the range, or none above 0
  scan-Chosen :
      (iports : List Iport) (port min_port max_port count p s_fd : ℕ) (e : E)
      → min_port ≤ p
      → count ≤ max_port + 1 - p
      → less 0 s_fd ≡ false
      → less 0 (scan net iports port count p s_fd e).s_fd ≡ true
      → Chosen net iports port min_port max_port (scan net iports port count p s_fd e)
  unfolding scan
  scan-Chosen iports port min_port max_port zero p s_fd e low high closed h =
      absurd (cc (h, closed))
  scan-Chosen iports port min_port max_port (suc count) p s_fd e low high closed h =
      let later : ((is_taken p iports || p == port) ≡ true) ⊎ (less 0 (net.listen p e).1 ≡ false)
          → Chosen net iports port min_port max_port (scan net iports port (suc count) p s_fd e) =
        λ no_port.
          let (s_fd', e', stays, next) = scan-next iports port count p s_fd e no_port in
          subst (Chosen net iports port min_port max_port) (sym next) (
            scan-Chosen iports port min_port max_port count (p + 1) s_fd' e' (omega arith)
              (omega arith) (stays closed) (sym (ap (λ b. less 0 b.s_fd) next) ∙ h)) in
      elim (Bool-cases (is_taken p iports || p == port)) [
        | inl t ↦ later (inl t)
        | inr f ↦ elim (Bool-cases (less 0 (net.listen p e).1)) [
          | inr failed ↦ later (inr failed)
          | inl opened ↦ rw (f, opened, scan) (ranged e refl low (omega arith) (ground arith))
        ]
      ]

  wants_range-closed :
      (s_fd min_port max_port : ℕ) → wants_range s_fd min_port max_port ≡ true → less 0 s_fd ≡ false
  wants_range-closed s_fd min_port max_port h = ground arith

  first_try-Chosen :
      (iports : List Iport) (port min_port max_port : ℕ) (e : E)
      → less 0 (first_try net port e).1 ≡ true
      → Chosen net iports port min_port max_port (record {
        outside = (first_try net port e).0;
        s_fd = (first_try net port e).1;
        port = port;
      })
  unfolding first_try
  first_try-Chosen iports port min_port max_port e h = elim (Bool-cases (less 0 port)) [
    | inl t ↦ selected e (rw (t, first_try) refl) refl
    | inr f ↦
        let nothing : (first_try net port e).1 ≡ negative_one = rw (f, first_try) refl in
        let closed : less 0 (first_try net port e).1 ≡ false = ap (less 0) nothing in
        absurd (cc (h, closed))
  ]

  pub bind-Chosen :
      (iports : List Iport) (port min_port max_port : ℕ) (e : E)
      → less 0 (bind net iports port min_port max_port e).s_fd ≡ true
      → Chosen net iports port min_port max_port (bind net iports port min_port max_port e)
  unfolding bind
  bind-Chosen iports port min_port max_port e h =
      let tried = first_try net port e in
      elim (Bool-cases (wants_range tried.1 min_port max_port)) [
        | inl t ↦
            let ranges : bind net iports port min_port max_port e
                ≡ scan net iports port (max_port + 1 - min_port) min_port tried.1 tried.0 =
              rw (t, bind) refl in
            subst (Chosen net iports port min_port max_port) (sym ranges) (
              scan-Chosen iports port min_port max_port (max_port + 1 - min_port) min_port tried.1
                tried.0 (omega arith) (omega arith) (wants_range-closed tried.1 min_port max_port t)
                (sym (ap (λ b. less 0 b.s_fd) ranges) ∙ h))
        | inr f ↦
            let stays : bind net iports port min_port max_port e
                ≡ record { outside = tried.0; s_fd = tried.1; port = port } =
              rw (f, bind) refl in
            subst (Chosen net iports port min_port max_port) (sym stays) (
              first_try-Chosen iports port min_port max_port e
                (sym (ap (λ b. less 0 b.s_fd) stays) ∙ h))
      ]

-- the device has an open port, `Chosen` by what `select_port` said
pub data Listens {E : Type 0} (net : Net E) (device_id : Option (List ℕ))
    (before after : List Iport) : Type 0 where
  listens :
      (iport : Iport) (old_port port min_port max_port : ℕ) (e : E) (b : Bound E)
      → (net.select_port device_id old_port e).1 ≡ some (port, min_port, max_port)
      → find_iport device_id after ≡ some iport
      → iport.s_fd ≡ b.s_fd
      → iport.port ≡ b.port
      → Chosen net (with_iport device_id before) port min_port max_port b
      → Listens net device_id before after
