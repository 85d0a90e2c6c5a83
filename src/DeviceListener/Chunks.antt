-- ===== src/DeviceListener/Chunks.antt =====
-- The loop of src/device_listener.c does not depend on how the stream is cut into reads.
use bootstrap_agency_templat.Prelude.{
  ℕ, zero, suc, ◌+◌, ◌≤◌, ◌≡◌, refl, sym, ap, ap₂, ◌∙◌, subst, inl, inr, true, false, some, List,
  ◌++◌, arith, length, drop, length-append, take-append_le, drop-append_le,
}
use bootstrap_agency_templat.Plist.{Plist}
use bootstrap_agency_templat.DeviceListener.{
  Status, Dl, Callbacks, Received, recv_packet, Done, recv_loop, enough,
}
use bootstrap_agency_templat.DeviceListener.{success, error}
use bootstrap_agency_templat.DeviceListener.Packets.{sscanf-append}
use bootstrap_agency_templat.DeviceListener.Stream.{
  status-cases, with_length, without_length, packet_of, reads_length, reads_body, turn_length,
  turn_body, turn_error, turn_stop, reading, body, broken, stopping, turn-cases, more_fuel,
  recv_loop-ends,
}

module _ {N E : Type 0} (plist : Plist N) (calls : Callbacks E) where
  module _ (dl : Dl) (e : E) (w b : List ℕ) where
    longer_length :
        reads_length plist calls dl w ≡ true → reads_length plist calls dl (w ++ b) ≡ true
    longer_length g = ground (arith, g, length-append w b)

    longer_body :
        reads_body plist calls dl w ≡ true
        → (reads_length plist calls dl (w ++ b) ≡ false)
          × (reads_body plist calls dl (w ++ b) ≡ true)
    longer_body g = ground (arith, g, length-append w b)

    same_length :
        reads_length plist calls dl w ≡ true
        → with_length plist calls dl (w ++ b) ≡ with_length plist calls dl w
    same_length g =
        let long : 4 ≤ length w = ground (arith, g) in
        ap (λ n. record dl { has_length = true; body_length = n }) (sscanf-append w b long)

    fits : reads_body plist calls dl w ≡ true → dl.body_length ≤ length w
    fits g = ground (arith, g)

    same_packet :
        reads_body plist calls dl w ≡ true
        → packet_of plist calls dl e (w ++ b) ≡ packet_of plist calls dl e w
    same_packet g =
        ap (λ p. recv_packet plist calls dl e p dl.body_length)
          (take-append_le dl.body_length w b (fits g))

  -- a turn on a packet, with more bytes behind it
  after_packet :
      (n : ℕ) (dl : Dl) (e : E) (w b : List ℕ)
      → reads_body plist calls dl w ≡ true
      → recv_loop plist calls n
          (without_length plist calls (packet_of plist calls dl e (w ++ b)).dl)
          (packet_of plist calls dl e (w ++ b)).outside
          (drop dl.body_length (w ++ b))
        ≡ recv_loop plist calls n
            (without_length plist calls (packet_of plist calls dl e w).dl)
            (packet_of plist calls dl e w).outside
            (drop dl.body_length w ++ b)
  after_packet n dl e w b u =
      ap₂ (λ p s. recv_loop plist calls n (without_length plist calls p.dl) p.outside s)
        (same_packet dl e w b u) (drop-append_le dl.body_length w b (fits dl e w b u))

  -- A loop that stops for want of input is taken up where it stopped.
  resumed :
      (f g n : ℕ) (dl : Dl) (e : E) (w b : List ℕ) (done r : Done plist calls)
      → f + g ≤ n
      → recv_loop plist calls f dl e w ≡ some done
      → done.status ≡ success
      → recv_loop plist calls g done.dl done.outside (done.left ++ b) ≡ some r
      → recv_loop plist calls n dl e (w ++ b) ≡ some r
  unfolding recv_loop
  resumed zero g n dl e w b done r l h ok k = absurd (cc h)
  resumed (suc f) g zero dl e w b done r l h ok k = absurd (omega arith)
  resumed (suc f) g (suc n) dl e w b done r l h ok k = elim (turn-cases plist calls dl e w) [
    | reading t ↦
        turn_length plist calls n dl e (w ++ b) (longer_length dl e w b t)
        ∙ ap (λ d. recv_loop plist calls n d e (w ++ b)) (same_length dl e w b t)
        ∙ resumed f g n (with_length plist calls dl w) e w b done r (omega arith)
            (sym (turn_length plist calls f dl e w t) ∙ h) ok k
    | body t u good ↦
        let same = same_packet dl e w b u in
        let (off, on) = longer_body dl e w b u in
        let p = packet_of plist calls dl e w in
        let from = without_length plist calls p.dl in
        turn_body plist calls n dl e (w ++ b) off on (ap (λ p. p.status) same ∙ good)
        ∙ after_packet n dl e w b u
        ∙ resumed f g n from p.outside (drop dl.body_length w) b done r (omega arith)
            (sym (turn_body plist calls f dl e w t u good) ∙ h) ok k
    | broken t u bad ↦ absurd (cc (sym (turn_error plist calls f dl e w t u bad) ∙ h, ok))
    | stopping t u ↦
        let stop : Done plist calls = record { dl = dl; outside = e; left = w; status = success } in
        let here : stop ≡ done = cc (sym (turn_stop plist calls f dl e w t u) ∙ h) in
        more_fuel plist calls g (suc n) dl e (w ++ b) r (omega arith)
          (subst (λ d. recv_loop plist calls g d.dl d.outside (d.left ++ b) ≡ some r) (sym here) k)
  ]

  abbrev broken_at : Received E → List ℕ → Done plist calls
  broken_at p s = record {
    dl = without_length plist calls p.dl;
    outside = p.outside;
    left = s;
    status = error;
  }

  abbrev followed : List ℕ → Done plist calls → Done plist calls
  followed b done = record done { left = done.left ++ b }

  -- A loop that fails does so whatever follows.
  still_broken :
      (f n : ℕ) (dl : Dl) (e : E) (w b : List ℕ) (done : Done plist calls)
      → f ≤ n
      → recv_loop plist calls f dl e w ≡ some done
      → done.status ≡ error
      → recv_loop plist calls n dl e (w ++ b) ≡ some (followed b done)
  unfolding recv_loop
  still_broken zero n dl e w b done l h bad = absurd (cc h)
  still_broken (suc f) zero dl e w b done l h bad = absurd (omega arith)
  still_broken (suc f) (suc n) dl e w b done l h bad = elim (turn-cases plist calls dl e w) [
    | reading t ↦
        turn_length plist calls n dl e (w ++ b) (longer_length dl e w b t)
        ∙ ap (λ d. recv_loop plist calls n d e (w ++ b)) (same_length dl e w b t)
        ∙ still_broken f n (with_length plist calls dl w) e w b done (omega arith)
            (sym (turn_length plist calls f dl e w t) ∙ h) bad
    | body t u good ↦
        let same = same_packet dl e w b u in
        let (off, on) = longer_body dl e w b u in
        let p = packet_of plist calls dl e w in
        turn_body plist calls n dl e (w ++ b) off on (ap (λ p. p.status) same ∙ good)
        ∙ after_packet n dl e w b u
        ∙ still_broken f n (without_length plist calls p.dl) p.outside (drop dl.body_length w) b
            done (omega arith) (sym (turn_body plist calls f dl e w t u good) ∙ h) bad
    | broken t u fails ↦
        let same = same_packet dl e w b u in
        let (off, on) = longer_body dl e w b u in
        let p = packet_of plist calls dl e w in
        let here : broken_at p (drop dl.body_length w) ≡ done =
          cc (sym (turn_error plist calls f dl e w t u fails) ∙ h) in
        turn_error plist calls n dl e (w ++ b) off on (ap (λ p. p.status) same ∙ fails)
        ∙ ap₂ (λ q s. some (broken_at q s)) same
            (drop-append_le dl.body_length w b (fits dl e w b u))
        ∙ ap (λ d. some (followed b d)) here
    | stopping t u ↦ absurd (cc (sym (turn_stop plist calls f dl e w t u) ∙ h, bad))
  ]

  abbrev choose : Status → Done plist calls → Done plist calls → Done plist calls
  choose s x y = elim s [ success ↦ x | error ↦ y ]

  choose_error : (s : Status) (x y : Done plist calls) → s ≡ error → choose s x y ≡ y
  choose_error s x y e = rw e refl

  -- the result of two reads, from those of the first and of the second
  abbrev pub joined : List ℕ → Done plist calls → Done plist calls → Done plist calls
  joined b done r = choose done.status r (followed b done)

  same_result :
      (f g : ℕ) (dl : Dl) (e : E) (w : List ℕ) (r : Done plist calls)
      → recv_loop plist calls f dl e w ≡ some r
      → enough plist calls w ≤ g
      → recv_loop plist calls g dl e w ≡ some r
  same_result f g dl e w r h l =
      let (r', k) = recv_loop-ends plist calls g dl e w l in
      let up = more_fuel plist calls f (f + g) dl e w r (omega arith) h in
      let up' = more_fuel plist calls g (f + g) dl e w r' (omega arith) k in
      let agree : r' ≡ r = cc (sym up' ∙ up) in k ∙ ap some agree

  -- Packets do not depend on how the stream is cut: if `dl_recv_loop` gives `done` on the bytes `w`,
  -- and gives `r` on what `done` leaves followed by `b`, then on `w` followed by `b` it gives `r` if
  -- `done` is a success, and `done` with `b` left over if it is not.
  pub recv_loop-append :
      (dl : Dl) (e : E) (w b : List ℕ) (done r : Done plist calls)
      → recv_loop plist calls (enough plist calls w) dl e w ≡ some done
      → recv_loop plist calls
          (enough plist calls (done.left ++ b))
          done.dl
          done.outside
          (done.left ++ b)
        ≡ some r
      → recv_loop plist calls (enough plist calls (w ++ b)) dl e (w ++ b) ≡ some (joined b done r)
  recv_loop-append dl e w b done r h k =
      let f = enough plist calls w in
      let g = enough plist calls (done.left ++ b) in
      elim (status-cases plist calls done.status) [
        | inl ok ↦ rw ok (
            same_result (f + g) (enough plist calls (w ++ b)) dl e (w ++ b) r
              (resumed f g (f + g) dl e w b done r (omega arith) h ok k) (omega arith))
        | inr bad ↦
            same_result f (enough plist calls (w ++ b)) dl e (w ++ b) (followed b done)
              (still_broken f f dl e w b done (omega arith) h bad) (omega arith)
            ∙ ap some (sym (choose_error done.status r (followed b done) bad))
      ]
