-- ===== src/WebInspector/Progress.antt =====
-- The loop of `wi_recv_loop` in src/webinspector.c ends: two turns at most for a byte of the window.
use bootstrap_agency_templat.Prelude.{
  ℕ, zero, suc, ◌+◌, ◌*◌, ◌≤◌, ◌<◌, ◌≡◌, refl, ◌⊎◌, inl, inr, Bool, true, false, not, ◌&&◌, some,
  List, arith, leb, if◌then◌else◌, Bool-cases, Option-cases, length, take, drop, length-drop,
}
use bootstrap_agency_templat.WebInspector.{Status, Wi, Plist, parse_length, recv_packet}
use bootstrap_agency_templat.WebInspector.Loop.{Done, recv_loop, enough}
use bootstrap_agency_templat.WebInspector.{success, error}

status-cases : (s : Status) → (s ≡ success) ⊎ (s ≡ error)
status-cases success = inl refl
status-cases error = inr refl

abbrev waits : Bool → ℕ
waits has_length = if has_length then 0 else 1

abbrev measure : Wi → List ℕ → ℕ
measure wi w = 2 * length w + waits wi.has_length

module _ {N E : Type 0} (plist : Plist N) (alloc : ℕ → Bool) (recv_plist : N → E → E × Status) where
  loop_total :
      (fuel : ℕ) (wi : Wi) (e : E) (w : List ℕ)
      → measure wi w < fuel
      → (done : Done E) × recv_loop plist alloc fuel recv_plist wi e w ≡ some done
  unfolding recv_loop
  loop_total zero wi e w h = absurd (omega arith)
  loop_total (suc fuel) wi e w h =
      let length_test = not wi.has_length && leb 4 (length w) in
      let body_test = wi.has_length && leb (wi.body_length + 4) (length w) in
      let r = recv_packet plist alloc recv_plist wi e (take (wi.body_length + 4) w) in
      let left = drop (wi.body_length + 4) w in
      elim (Bool-cases length_test) [
        | inl g ↦ elim (Option-cases (parse_length w)) [
          | inl n ↦ (
            record { wi = wi; outside = e; left = drop 4 w; status = error },
            rw (g, n, recv_loop) refl,
          )
          | inr (len, n) ↦
              let (done, k) =
                loop_total fuel (record wi { has_length = true; body_length = len }) e w
                  (ground (arith, g)) in
              (done, rw (g, n, recv_loop) k)
        ]
        | inr g ↦ elim (Bool-cases body_test) [
          | inr b ↦ (
            record { wi = wi; outside = e; left = w; status = success },
            rw (g, b, recv_loop) refl,
          )
          | inl b ↦ elim (status-cases r.status) [
            | inr bad ↦ (
              record {
                wi = record (r.wi) { has_length = false; body_length = 0 };
                outside = r.outside;
                left = left;
                status = error;
              },
              rw (g, b, bad, recv_loop) refl,
            )
            | inl ok ↦
                let (done, k) =
                  loop_total fuel (record (r.wi) { has_length = false; body_length = 0 }) r.outside
                    left (ground (arith, b, length-drop (wi.body_length + 4) w)) in
                (done, rw (g, b, ok, recv_loop) k)
          ]
        ]
      ]

  -- `wi_recv_loop` returns: with twice the bytes of the window and two turns as fuel it has a result,
  -- whatever the packets are.
  pub recv_loop-finishes :
      (fuel : ℕ) (wi : Wi) (e : E) (w : List ℕ)
      → enough w ≤ fuel
      → (done : Done E) × recv_loop plist alloc fuel recv_plist wi e w ≡ some done
  recv_loop-finishes fuel wi e w h = loop_total fuel wi e w (ground arith)
