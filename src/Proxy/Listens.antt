-- ===== src/Proxy/Listens.antt =====
-- What a success of `iwdp_listen` of src/ios_webkit_debug_proxy.c means.
use bootstrap_agency_templat.Prelude.{
  ℕ, zero, suc, ◌+◌, ◌-◌, ◌≡◌, refl, sym, ap, ◌∙◌, subst, ◌≢◌, ◌⊎◌, inl, inr, Bool, true, false,
  ◌||◌, Option, none, some, List, [], ◌∷◌, arith, ◌==◌, Bool-cases, Option-cases,
}
use bootstrap_agency_templat.HashTable.Keys.{strcmp_equal, strcmp_equal_iff}
use bootstrap_agency_templat.PortConfig.{negative_one, less}
use bootstrap_agency_templat.Rpc.{Status, success, error}
use bootstrap_agency_templat.Proxy.{Iport}
use bootstrap_agency_templat.Proxy.Listen.{
  settle, Bound, first_try, wants_range, listen, bind, scan, Net, find_iport, update_iport,
  new_iport, is_taken, is_ignored, with_iport,
}
use bootstrap_agency_templat.Proxy.Chosen.{bind-Chosen, listens, Chosen, Listens}

iport_inj : (p q : Iport) → some p ≡ some q → p ≡ q
iport_inj p q h = cc h

find_iport-head :
    (device_id : Option (List ℕ)) (q : Iport) (ps : List Iport)
    → strcmp_equal q.device_id device_id ≡ true
    → find_iport device_id (q ∷ ps) ≡ some q
unfolding find_iport
find_iport-head device_id q ps t = rw (t, find_iport) refl

find_iport-update :
    (device_id : Option (List ℕ)) (f : Iport → Iport)
    → ((q : Iport) → (f q).device_id ≡ q.device_id)
    → (ps : List Iport) (p : Iport) → find_iport device_id ps ≡ some p
    → find_iport device_id (update_iport device_id f ps) ≡ some (f p)
unfolding find_iport update_iport
find_iport-update device_id f keeps [] p h = absurd (cc h)
find_iport-update device_id f keeps (q ∷ ps) p h =
    elim (Bool-cases (strcmp_equal q.device_id device_id)) [
      | inl t ↦
          let same : q ≡ p = iport_inj q p (sym (find_iport-head device_id q ps t) ∙ h) in
          let still : strcmp_equal (f q).device_id device_id ≡ true =
            ap (λ d. strcmp_equal d device_id) (keeps q) ∙ t in
          rw (t, update_iport)
            (find_iport-head device_id (f q) ps still ∙ ap (λ r. some (f r)) same)
      | inr g ↦
          rw (g, update_iport, g, find_iport)
            (find_iport-update device_id f keeps ps p (ground arith))
    ]

find_iport-with :
    (device_id : Option (List ℕ)) (iports : List Iport)
    → (p : Iport) × (find_iport device_id (with_iport device_id iports) ≡ some p)
unfolding with_iport
find_iport-with device_id iports = elim (Option-cases (find_iport device_id iports)) [
  | inr (p, there) ↦ (p, rw (there, with_iport) there)
  | inl gone ↦ (
    new_iport device_id,
    rw (gone, with_iport)
        (find_iport-head device_id (new_iport device_id) iports
          ((strcmp_equal_iff device_id device_id).1 refl)),
  )
]

-- not 0
abbrev Signed : ℕ → Type 0
Signed s_fd = (less 0 s_fd ≡ true) ⊎ (less s_fd 0 ≡ true)

-- The system gives no descriptor 0 for a socket: that is the standard input.
abbrev pub NeverZero : {E : Type 0} → Net E → Type 0
NeverZero {E = E} net = (p : ℕ) (e : E) → Signed (net.listen p e).1

module _ {E : Type 0} (net : Net E) (never : NeverZero net) where
  scan-Signed :
      (iports : List Iport) (port count p s_fd : ℕ) (e : E)
      → Signed s_fd
      → Signed (scan net iports port count p s_fd e).s_fd
  unfolding scan
  scan-Signed iports port zero p s_fd e s = s
  scan-Signed iports port (suc count) p s_fd e s =
      elim (Bool-cases (is_taken p iports || p == port)) [
        | inl t ↦ rw (t, scan) (scan-Signed iports port count (p + 1) s_fd e s)
        | inr f ↦ elim (Bool-cases (less 0 (net.listen p e).1)) [
          | inl opened ↦ rw (f, opened, scan) (never p e)
          | inr failed ↦
              rw (f, failed, scan)
                (scan-Signed iports port count (p + 1) (net.listen p e).1 (net.listen p e).0
                  (never p e))
        ]
      ]

  first_try-Signed : (port : ℕ) (e : E) → Signed (first_try net port e).1
  unfolding first_try
  first_try-Signed port e = elim (Bool-cases (less 0 port)) [
    | inl t ↦ rw (t, first_try) (never port e)
    | inr f ↦ rw (f, first_try) (inr refl)
  ]

  bind-Signed :
      (iports : List Iport) (port min_port max_port : ℕ) (e : E)
      → Signed (bind net iports port min_port max_port e).s_fd
  unfolding bind
  bind-Signed iports port min_port max_port e =
      let tried = first_try net port e in
      elim (Bool-cases (wants_range tried.1 min_port max_port)) [
        | inl t ↦
            rw (t, bind)
              (scan-Signed iports port (max_port + 1 - min_port) min_port tried.1 tried.0
                (first_try-Signed port e))
        | inr f ↦ rw (f, bind) (first_try-Signed port e)
      ]

  bind-opened :
      (iports : List Iport) (port min_port max_port : ℕ) (e : E)
      → less (bind net iports port min_port max_port e).s_fd 0 ≡ false
      → Chosen net iports port min_port max_port (bind net iports port min_port max_port e)
  bind-opened iports port min_port max_port e h =
      elim (bind-Signed iports port min_port max_port e) [
        | inl opened ↦ bind-Chosen net iports port min_port max_port e opened
        | inr closed ↦ absurd (cc (h, closed))
      ]

Status-cases : (s : Status) → (s ≡ success) ⊎ (s ≡ error)
Status-cases success = inl refl
Status-cases error = inr refl

error_success : error ≢ success
error_success h = cc h

-- What is registered for the device, if nothing fails.
settle-Listens :
    {E : Type 0} (net : Net E) (device_id : Option (List ℕ)) (iports : List Iport)
    (old_port port min_port max_port : ℕ) (e : E) (b : Bound E)
    → (net.select_port device_id old_port e).1 ≡ some (port, min_port, max_port)
    → (less b.s_fd 0 ≡ false → Chosen net (with_iport device_id iports) port min_port max_port b)
    → (settle net device_id (with_iport device_id iports) b).2 ≡ success
    → Listens net device_id iports (settle net device_id (with_iport device_id iports) b).0
unfolding settle
settle-Listens net device_id iports old_port port min_port max_port e b got opened h =
    let iports' = with_iport device_id iports in
    let (p, there) = find_iport-with device_id iports in
    elim (Bool-cases (less b.s_fd 0)) [
      | inl t ↦
          let failed : (settle net device_id iports' b).2 ≡ error = rw (t, settle) refl in
          absurd (error_success (sym failed ∙ h))
      | inr f ↦ elim (Status-cases (net.add_fd b.s_fd b.outside).1) [
        | inr bad ↦
            let failed : (settle net device_id iports' b).2 ≡ error = rw (f, bad, settle) refl in
            absurd (error_success (sym failed ∙ h))
        | inl good ↦
            let write : Iport → Iport = λ iport. record iport { s_fd = b.s_fd; port = b.port } in
            rw (f, good, settle)
              (listens (write p) old_port port min_port max_port e b got
                (find_iport-update device_id write (λ q. refl) iports' p there) refl refl
                (opened f))
      ]
    ]

-- Where `iwdp_listen` is a success for a device, the device has a port with a descriptor that the system
-- gave for it: the port that was selected, or one of the range that no device in the table had.
pub listen-Listens :
    {E : Type 0} (net : Net E) (device_id : List ℕ) (iports : List Iport) (e : E)
    → NeverZero net
    → (listen net (some device_id) iports e).2 ≡ success
    → Listens net (some device_id) iports (listen net (some device_id) iports e).0
unfolding listen
listen-Listens net device_id iports e never h =
    let old = find_iport (some device_id) iports in
    let is_open : Bool = elim old [ none ↦ false | some iport ↦ less 0 iport.s_fd ] in
    let old_port : ℕ = elim old [ none ↦ negative_one | some iport ↦ iport.port ] in
    let chosen = net.select_port (some device_id) old_port e in
    let iports' = with_iport (some device_id) iports in
    elim (Bool-cases is_open) [
      | inl t ↦
          let failed : (listen net (some device_id) iports e).2 ≡ error = rw (t, listen) refl in
          absurd (error_success (sym failed ∙ h))
      | inr closed ↦ elim (Option-cases chosen.1) [
        | inl gone ↦
            let failed : (listen net (some device_id) iports e).2 ≡ error =
              rw (closed, gone, listen) refl in
            absurd (error_success (sym failed ∙ h))
        | inr ((port, min_port, max_port), got) ↦
            elim (Bool-cases (is_ignored port min_port max_port)) [
              | inl t ↦
                  let failed : (listen net (some device_id) iports e).2 ≡ error =
                    rw (closed, got, t, listen) refl in
                  absurd (error_success (sym failed ∙ h))
              | inr f ↦
                  let b = bind net iports' port min_port max_port chosen.0 in
                  let whole : listen net (some device_id) iports e
                      ≡ settle net (some device_id) iports' b =
                    rw (closed, got, f, listen) refl in
                  subst (λ r. Listens net (some device_id) iports r.0) (sym whole)
                    (settle-Listens net (some device_id) iports old_port port min_port max_port e b
                      got (bind-opened net never iports' port min_port max_port chosen.0)
                      (sym (ap (λ r. r.2) whole) ∙ h))
            ]
      ]
    ]
