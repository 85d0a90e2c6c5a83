-- ===== src/WebSocket/Loop.antt =====
-- `ws_recv_loop` and `ws_on_recv` of src/websocket.c. The loop runs on fuel: `none` says that the
-- fuel is used up.
use bootstrap_agency_templat.Prelude.{
  ℕ, zero, suc, ◌+◌, ◌-◌, ◌*◌, Bool, true, false, Option, none, some, List, [], ◌∷◌, length,
}
use bootstrap_agency_templat.CharBuffer.{Cb, window, begin_input, end_input, advance}
use bootstrap_agency_templat.WebSocket.{State, Status, Ws, Outside}
use bootstrap_agency_templat.WebSocket.{success, failure}
use bootstrap_agency_templat.WebSocket.Recv.{Callbacks, turn}

-- The loop is over: what it leaves.
pub record Done (E : Type 0) : Type 0 where
  pub ws : Ws
  pub outside : E
  pub left : List ℕ
  pub status : Status

abbrev pub is_final : State → Bool
is_final State.closed = true
is_final State.error = true
is_final _ = false

abbrev pub is_empty : List ℕ → Bool
is_empty [] = true
is_empty (b ∷ w) = false

module _ {E : Type 0} (out : Outside E) (calls : Callbacks E) (beyond : List ℕ) where
  -- `ws_recv_loop`
  unfoldable pub recv_loop : ℕ → Ws → E → List ℕ → Option (Done E)
  unfolding turn
  recv_loop zero ws e w = none
  recv_loop (suc fuel) ws e w = elim (turn out calls beyond ws.state ws e w) [
    | none ↦ some (record { ws = ws; outside = e; left = w; status = failure })
    | some step ↦ elim step.next [
      | none ↦
          some (record { ws = step.ws; outside = step.outside; left = step.left; status = success })
      | some state ↦
          let ws' = record (step.ws) { state = state } in
          elim (is_final state) [
            | true ↦
                some
                  (record { ws = ws'; outside = step.outside; left = step.left; status = failure })
            | false ↦ elim (is_empty step.left) [
              | true ↦
                  some (record {
                    ws = ws';
                    outside = step.outside;
                    left = step.left;
                    status = success;
                  })
              | false ↦ recv_loop fuel ws' step.outside step.left
            ]
          ]
    ]
  ]

  -- turns enough for a window, see `Progress`
  abbrev pub enough : List ℕ → ℕ
  enough w = 2 * length w + 2

  -- What `ws_on_recv` leaves, the input buffer with it.
  pub record Received : Type 0 where
    pub input : Cb
    pub ws : Ws
    pub outside : E
    pub status : Status

  -- `ws_on_recv`; the bytes are `none` for a negative length
  unfoldable pub on_recv : Cb → Ws → E → Option (List ℕ) → Received
  unfolding begin_input end_input advance recv_loop
  on_recv cb ws e none = record { input = cb; ws = ws; outside = e; status = failure }
  on_recv cb ws e (some []) = record { input = cb; ws = ws; outside = e; status = success }
  on_recv cb ws e (some (b ∷ buf)) =
      let (began, opened) = begin_input out.alloc cb (some (b ∷ buf)) in
      let w = window (b ∷ buf) opened in
      elim began [
        | false ↦ record { input = opened; ws = ws; outside = e; status = failure }
        | true ↦ elim (recv_loop (enough w) ws e w) [
          | none ↦ record { input = opened; ws = ws; outside = e; status = failure }
          | some done ↦
              let (ended, closed) =
                end_input out.alloc (advance (length w - length done.left) opened) (b ∷ buf) in
              record {
                input = closed;
                ws = done.ws;
                outside = done.outside;
                status = elim ended [ true ↦ done.status | false ↦ failure ];
              }
        ]
      ]
