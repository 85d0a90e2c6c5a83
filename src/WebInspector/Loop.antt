-- ===== src/WebInspector/Loop.antt =====
-- `wi_recv_loop` and `wi_on_recv` of src/webinspector.c.
use bootstrap_agency_templat.Prelude.{
  ℕ, zero, suc, ◌+◌, ◌-◌, ◌*◌, Bool, true, false, not, ◌&&◌, Option, none, some, List, [], ◌∷◌, leb,
  length, take, drop,
}
use bootstrap_agency_templat.CharBuffer.{Cb, window, begin_input, end_input, advance}
use bootstrap_agency_templat.WebInspector.{
  Status, success, error, Wi, Plist, parse_length, recv_packet,
}

-- The loop is over: what it leaves.
pub record Done (E : Type 0) : Type 0 where
  pub wi : Wi
  pub outside : E
  pub left : List ℕ
  pub status : Status

-- What `wi_on_recv` leaves, the input buffer with it.
pub record Heard (E : Type 0) : Type 0 where
  pub input : Cb
  pub wi : Wi
  pub outside : E
  pub status : Status

-- turns enough for a window, see `Progress`
abbrev pub enough : List ℕ → ℕ
enough w = 2 * length w + 2

module _ {N : Type 0} (plist : Plist N) (alloc : ℕ → Bool) where
  -- `wi_recv_loop` on fuel; `none` says that the fuel is used up
  unfoldable pub recv_loop :
      {E : Type 0} → ℕ → (N → E → E × Status) → Wi → E → List ℕ → Option (Done E)
  unfolding recv_packet parse_length
  recv_loop zero recv_plist wi e w = none
  recv_loop (suc fuel) recv_plist wi e w = elim (not wi.has_length && leb 4 (length w)) [
    | true ↦ elim (parse_length w) [
      | none ↦ some (record { wi = wi; outside = e; left = drop 4 w; status = error })
      | some len ↦
          recv_loop fuel recv_plist (record wi { has_length = true; body_length = len }) e w
    ]
    | false ↦ elim (wi.has_length && leb (wi.body_length + 4) (length w)) [
      | true ↦
          let r = recv_packet plist alloc recv_plist wi e (take (wi.body_length + 4) w) in
          let wi' = record (r.wi) { has_length = false; body_length = 0 } in
          elim r.status [
            | success ↦ recv_loop fuel recv_plist wi' r.outside (drop (wi.body_length + 4) w)
            | error ↦ some (record {
              wi = wi';
              outside = r.outside;
              left = drop (wi.body_length + 4) w;
              status = error;
            })
          ]
      | false ↦ some (record { wi = wi; outside = e; left = w; status = success })
    ]
  ]

  -- `wi_on_recv`; the bytes are `none` for a negative length
  unfoldable pub on_recv :
      {E : Type 0} → (N → E → E × Status) → Cb → Wi → E → Option (List ℕ) → Heard E
  unfolding begin_input end_input advance recv_loop
  on_recv recv_plist cb wi e none = record { input = cb; wi = wi; outside = e; status = error }
  on_recv recv_plist cb wi e (some []) = record {
    input = cb;
    wi = wi;
    outside = e;
    status = success;
  }
  on_recv recv_plist cb wi e (some (b ∷ buf)) =
      let (began, opened) = begin_input alloc cb (some (b ∷ buf)) in
      let w = window (b ∷ buf) opened in
      elim began [
        | false ↦ record { input = opened; wi = wi; outside = e; status = error }
        | true ↦ elim (recv_loop (enough w) recv_plist wi e w) [
          | none ↦ record { input = opened; wi = wi; outside = e; status = error }
          | some done ↦
              let (ended, closed) =
                end_input alloc (advance (length w - length done.left) opened) (b ∷ buf) in
              record {
                input = closed;
                wi = done.wi;
                outside = done.outside;
                status = elim ended [ true ↦ done.status | false ↦ error ];
              }
        ]
      ]
