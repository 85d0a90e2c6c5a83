-- ===== src/PortConfig/Choice.antt =====
-- `pc_find` and `pc_select_port` of src/port_config.c: the first entry wins, and a port is kept where
-- its range allows it.
use bootstrap_agency_templat.Prelude.{
  ℕ, ◌≡◌, refl, sym, ap, ◌∙◌, subst, ◌⊎◌, inl, inr, Bool, true, false, not, ◌&&◌, ◌||◌, Option,
  none, some, List, [], ◌∷◌, ◌++◌, arith, if◌then◌else◌, Bool-cases, Option-cases,
}
use bootstrap_agency_templat.PortConfig.{
  Entry, Pc, add, negative_one, less, matches, walk, find, Selected, select_port,
}

walk-append :
    (device_id : Option (List ℕ)) (es : List Entry) (e : Entry)
    → walk device_id (es ++ (e ∷ [])) ≡ elim (walk device_id es) [
      | some found ↦ some found
      | none ↦ if matches device_id e then some e else none
    ]
unfolding walk
walk-append device_id [] e = refl
walk-append device_id (x ∷ es) e = elim (Bool-cases (matches device_id x)) [
  | inl t ↦ rw (t, walk) refl
  | inr t ↦ rw (t, walk) (walk-append device_id es e)
]

-- An entry that `pc_add` appends is found where no earlier one matches the device and it does; any
-- device that was found before is found at the same entry.
pub find-add :
    (pc : Pc) (device_id name : Option (List ℕ)) (min_port max_port : ℕ)
    → find (add pc name min_port max_port) device_id ≡ elim (find pc device_id) [
      | some found ↦ some found
      | none ↦
          if matches device_id
            (record { device_id = name; min_port = min_port; max_port = max_port })
          then some (record { device_id = name; min_port = min_port; max_port = max_port })
          else none
    ]
unfolding find add
find-add pc device_id name min_port max_port =
    walk-append device_id pc.entries
      (record { device_id = name; min_port = min_port; max_port = max_port })

-- What `pc_select_port` may do with a port.
pub record Chooses (pc : Pc) (device_id : Option (List ℕ)) (port : ℕ) (r : Selected) : Type 0 where
  -- the port is the given one or -1
  pub given : (r.port ≡ port) ⊎ (r.port ≡ negative_one)
  -- a port that is not negative lies in the range of the entry of the device
  pub in_range :
      less r.port 0 ≡ false
      → (e : Entry) × (find pc device_id ≡ some e)
        × (less r.port e.min_port ≡ false)
        × (less e.max_port r.port ≡ false)
  -- the range that is reported is that of the entry
  pub range :
      (e : Entry)
      → find pc device_id ≡ some e
      → (r.is_found ≡ true) × (r.min_port ≡ e.min_port) × (r.max_port ≡ e.max_port)
  -- a port in the range of the entry is kept
  pub kept :
      (e : Entry)
      → find pc device_id ≡ some e
      → less port e.min_port ≡ false
      → less e.max_port port ≡ false
      → r.port ≡ port
  -- nothing is found only where there is no entry
  pub missing : r.is_found ≡ false → find pc device_id ≡ none

Chooses-none :
    (pc : Pc) (device_id : Option (List ℕ)) (port : ℕ)
    → find pc device_id ≡ none
    → Chooses pc device_id port (select_port pc device_id port)
unfolding select_port
Chooses-none pc device_id port n =
    rw (n, select_port)
      (record {
        given = inr refl;
        in_range = λ h. absurd (cc h);
        range = λ e f. absurd (cc f);
        kept = λ e f. absurd (cc f);
        missing = λ h. n;
      })

abbrev left_port : ℕ → ℕ → ℕ → ℕ
left_port port lo hi =
    if not (less port 0) && (less port lo || less hi port) then negative_one else port

neither : (a b c : Bool) → (not a && (b || c)) ≡ false → a ≡ false → (b ≡ false) × (c ≡ false)
neither true b c h k = absurd (cc k)
neither false true c h k = absurd (cc h)
neither false false c h k = (refl, h)

in_range_lem :
    (port lo hi : ℕ)
    → less (left_port port lo hi) 0 ≡ false
    → (less (left_port port lo hi) lo ≡ false) × (less hi (left_port port lo hi) ≡ false)
in_range_lem port lo hi h =
    elim (Bool-cases (not (less port 0) && (less port lo || less hi port))) [
      | inl t ↦ absurd (cc (subst (λ b. less (if b then negative_one else port) 0 ≡ false) t h))
      | inr t ↦
          let h' = subst (λ b. less (if b then negative_one else port) 0 ≡ false) t h in
          rw t (neither (less port 0) (less port lo) (less hi port) t h')
    ]

kept_lem :
    (port lo hi : ℕ) → less port lo ≡ false → less hi port ≡ false → left_port port lo hi ≡ port
kept_lem port lo hi a b = elim (Bool-cases (less port 0)) [
  | inl t ↦ rw (t) refl
  | inr t ↦ rw (t, a, b) refl
]

Chooses-some :
    (pc : Pc) (device_id : Option (List ℕ)) (port : ℕ) (e : Entry)
    → find pc device_id ≡ some e
    → Chooses pc device_id port (select_port pc device_id port)
unfolding select_port
Chooses-some pc device_id port e s =
    rw (s, select_port)
      (record {
        given = ground arith;
        in_range = λ h. let (lo, hi) = in_range_lem port e.min_port e.max_port h in (e, s, lo, hi);
        range = λ e' f.
            let same : e ≡ e' = cc (sym s ∙ f) in
            (refl, ap (λ x. x.min_port) same, ap (λ x. x.max_port) same);
        kept = λ e' f lo hi.
            let same : e ≡ e' = cc (sym s ∙ f) in
            kept_lem port e.min_port e.max_port
              (subst (λ x. less port x.min_port ≡ false) (sym same) lo)
              (subst (λ x. less x.max_port port ≡ false) (sym same) hi);
        missing = λ h. absurd (cc h);
      })

-- For every configuration, device and port, `pc_select_port` leaves the port or -1; what is not
-- negative lies in the range of the entry that is found for the device, which is also the range that is
-- reported; a port in that range is kept; and nothing is reported only where the device has no entry.
pub select_port-Chooses :
    (pc : Pc) (device_id : Option (List ℕ)) (port : ℕ)
    → Chooses pc device_id port (select_port pc device_id port)
select_port-Chooses pc device_id port = elim (Option-cases (find pc device_id)) [
  | inl n ↦ Chooses-none pc device_id port n
  | inr (e, s) ↦ Chooses-some pc device_id port e s
]
