-- ===== src/DeviceListener/Stream.antt =====
-- The loop of src/device_listener.c over the packets of a stream: it ends, and it does not depend on
-- how the stream is cut into reads.
use bootstrap_agency_templat.Prelude.{
  ℕ, zero, suc, ◌+◌, ◌*◌, ◌≤◌, ◌<◌, ◌≡◌, refl, sym, ◌∙◌, ◌⊎◌, inl, inr, Bool, true, false, not,
  ◌&&◌, ◌||◌, some, List, arith, ltb, leb, ◌==◌, if◌then◌else◌, Bool-cases, length, take, drop,
  length-drop,
}
use bootstrap_agency_templat.Plist.{Plist}
use bootstrap_agency_templat.DeviceListener.{
  Status, Dl, Callbacks, sscanf_uint32, Received, recv_packet, Done, recv_loop, enough,
}
use bootstrap_agency_templat.DeviceListener.{success, error}

module _ {N E : Type 0} (plist : Plist N) (calls : Callbacks E) where
  abbrev bad_length : List ℕ → ℕ → Bool
  bad_length packet n = not (sscanf_uint32 packet == n) || ltb (sscanf_uint32 packet) 16

  refused :
      (dl : Dl) (e : E) (packet : List ℕ) (n : ℕ)
      → bad_length packet n ≡ true
      → (recv_packet plist calls dl e packet n).status ≡ error
  unfolding recv_packet
  refused dl e packet n h = rw (h, recv_packet) refl

  -- A packet that is not refused has at least 16 bytes.
  packet_bound :
      (dl : Dl) (e : E) (packet : List ℕ) (n : ℕ)
      → (recv_packet plist calls dl e packet n).status ≡ success
      → 16 ≤ n
  packet_bound dl e packet n h = elim (Bool-cases (bad_length packet n)) [
    | inl g ↦ absurd (cc (refused dl e packet n g, h))
    | inr g ↦ ground (arith, g)
  ]

  pub status-cases : (s : Status) → (s ≡ success) ⊎ (s ≡ error)
  status-cases success = inl refl
  status-cases error = inr refl

  abbrev waits : Bool → ℕ
  waits has_length = if has_length then 0 else 1

  abbrev measure : Dl → List ℕ → ℕ
  measure dl w = 2 * length w + waits dl.has_length

  -- the tests of the loop, and what its turns leave
  abbrev pub reads_length : Dl → List ℕ → Bool
  reads_length dl w = not dl.has_length && leb 4 (length w)

  abbrev pub reads_body : Dl → List ℕ → Bool
  reads_body dl w = dl.has_length && leb dl.body_length (length w)

  abbrev pub with_length : Dl → List ℕ → Dl
  with_length dl w = record dl { has_length = true; body_length = sscanf_uint32 w }

  abbrev pub packet_of : Dl → E → List ℕ → Received E
  packet_of dl e w = recv_packet plist calls dl e (take dl.body_length w) dl.body_length

  abbrev pub without_length : Dl → Dl
  without_length dl = record dl { has_length = false; body_length = 0 }

  module _ (fuel : ℕ) (dl : Dl) (e : E) (w : List ℕ) where
    pub turn_length :
        reads_length dl w ≡ true
        → recv_loop plist calls (suc fuel) dl e w
          ≡ recv_loop plist calls fuel (with_length dl w) e w
    unfolding recv_loop
    turn_length g = rw (g, recv_loop) refl

    pub turn_body :
        reads_length dl w ≡ false
        → reads_body dl w ≡ true
        → (packet_of dl e w).status ≡ success
        → recv_loop plist calls (suc fuel) dl e w
          ≡ recv_loop plist calls fuel
              (without_length (packet_of dl e w).dl)
              (packet_of dl e w).outside
              (drop dl.body_length w)
    unfolding recv_loop
    turn_body g h ok = rw (g, h, ok, recv_loop) refl

    pub turn_error :
        reads_length dl w ≡ false
        → reads_body dl w ≡ true
        → (packet_of dl e w).status ≡ error
        → recv_loop plist calls (suc fuel) dl e w
          ≡ some (record {
            dl = without_length (packet_of dl e w).dl;
            outside = (packet_of dl e w).outside;
            left = drop dl.body_length w;
            status = error;
          })
    unfolding recv_loop
    turn_error g h bad = rw (g, h, bad, recv_loop) refl

    pub turn_stop :
        reads_length dl w ≡ false
        → reads_body dl w ≡ false
        → recv_loop plist calls (suc fuel) dl e w
          ≡ some (record { dl = dl; outside = e; left = w; status = success })
    unfolding recv_loop
    turn_stop g h = rw (g, h, recv_loop) refl

  pub data Turn (dl : Dl) (e : E) (w : List ℕ) : Type 0 where
    reading : reads_length dl w ≡ true → Turn dl e w
    body :
        reads_length dl w ≡ false
        → reads_body dl w ≡ true
        → (packet_of dl e w).status ≡ success
        → Turn dl e w
    broken :
        reads_length dl w ≡ false
        → reads_body dl w ≡ true
        → (packet_of dl e w).status ≡ error
        → Turn dl e w
    stopping : reads_length dl w ≡ false → reads_body dl w ≡ false → Turn dl e w

  pub turn-cases : (dl : Dl) (e : E) (w : List ℕ) → Turn dl e w
  turn-cases dl e w = elim (Bool-cases (reads_length dl w)) [
    | inl g ↦ reading g
    | inr g ↦ elim (Bool-cases (reads_body dl w)) [
      | inr h ↦ stopping g h
      | inl h ↦ elim (status-cases (packet_of dl e w).status) [
        | inl ok ↦ body g h ok
        | inr bad ↦ broken g h bad
      ]
    ]
  ]

  loop_total :
      (fuel : ℕ) (dl : Dl) (e : E) (w : List ℕ)
      → measure dl w < fuel
      → (done : Done plist calls) × recv_loop plist calls fuel dl e w ≡ some done
  loop_total zero dl e w h = absurd (omega arith)
  loop_total (suc fuel) dl e w h = elim (turn-cases dl e w) [
    | reading g ↦
        let (done, r) = loop_total fuel (with_length dl w) e w (ground (arith, g)) in
        (done, turn_length fuel dl e w g ∙ r)
    | body g k ok ↦
        let long = packet_bound dl e (take dl.body_length w) dl.body_length ok in
        let less = length-drop dl.body_length w in
        let (done, r) =
          loop_total fuel (without_length (packet_of dl e w).dl) (packet_of dl e w).outside
            (drop dl.body_length w) (ground (arith, k, long, less)) in
        (done, turn_body fuel dl e w g k ok ∙ r)
    | broken g k bad ↦ (_, turn_error fuel dl e w g k bad)
    | stopping g k ↦ (_, turn_stop fuel dl e w g k)
  ]

  -- `dl_recv_loop` returns: with twice the bytes of the window and two turns as fuel it has a result,
  -- whatever the packets are.
  pub recv_loop-ends :
      (fuel : ℕ) (dl : Dl) (e : E) (w : List ℕ)
      → enough plist calls w ≤ fuel
      → (done : Done plist calls) × recv_loop plist calls fuel dl e w ≡ some done
  recv_loop-ends fuel dl e w h = loop_total fuel dl e w (ground arith)

  -- More fuel changes no result.
  pub more_fuel :
      (fuel n : ℕ) (dl : Dl) (e : E) (w : List ℕ) (done : Done plist calls)
      → fuel ≤ n
      → recv_loop plist calls fuel dl e w ≡ some done
      → recv_loop plist calls n dl e w ≡ some done
  unfolding recv_loop
  more_fuel zero n dl e w done l h = absurd (cc h)
  more_fuel (suc fuel) zero dl e w done l h = absurd (omega arith)
  more_fuel (suc fuel) (suc n) dl e w done l h = elim (turn-cases dl e w) [
    | reading g ↦
        turn_length n dl e w g
        ∙ more_fuel fuel n (with_length dl w) e w done (omega arith)
            (sym (turn_length fuel dl e w g) ∙ h)
    | body g k ok ↦
        turn_body n dl e w g k ok
        ∙ more_fuel fuel n (without_length (packet_of dl e w).dl) (packet_of dl e w).outside
            (drop dl.body_length w) done (omega arith) (sym (turn_body fuel dl e w g k ok) ∙ h)
    | broken g k bad ↦ turn_error n dl e w g k bad ∙ (sym (turn_error fuel dl e w g k bad) ∙ h)
    | stopping g k ↦ turn_stop n dl e w g k ∙ (sym (turn_stop fuel dl e w g k) ∙ h)
  ]
