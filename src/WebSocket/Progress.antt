-- ===== src/WebSocket/Progress.antt =====
-- The loop of `ws_recv_loop` in src/websocket.c ends: two turns at most for a byte of the window.
use bootstrap_agency_templat.Prelude.{
  ℕ, zero, suc, ◌+◌, ◌*◌, ◌≤◌, ◌<◌, ◌≡◌, refl, subst, inl, inr, Bool, true, false, not, ◌||◌, none,
  some, List, ◌++◌, arith, ltb, ◌==◌, Bool-cases, Option-cases, length, drop, length-drop,
}
use bootstrap_agency_templat.Libc.{strnstr}
use bootstrap_agency_templat.WebSocket.{State, Ws, Outside}
use bootstrap_agency_templat.WebSocket.{success, failure}
use bootstrap_agency_templat.WebSocket.Frame.{read_frame, Head}
use bootstrap_agency_templat.WebSocket.Http.{crlf, read_headers}
use bootstrap_agency_templat.WebSocket.Recv.{
  Callbacks, Heard, Step, recv_request, recv_headers, recv_frame_length, recv_frame, upgrade,
  answered, settle, turn, payload_bytes,
}
use bootstrap_agency_templat.WebSocket.Loop.{Done, is_final, is_empty, recv_loop, enough}
use bootstrap_agency_templat.WebSocket.Consumed.{
  strnstr_bound, request_left, read_headers_left, frame_left,
}

-- how far a state and its window are from the end
abbrev weight : State → ℕ
weight State.read_http_request = 1
weight State.read_frame_length = 1
weight _ = 0

weight_bound : (s : State) → weight s ≤ 1
weight_bound s = ground arith

abbrev measure : State → List ℕ → ℕ
measure s w = 2 * length w + weight s

module _ {E : Type 0} (out : Outside E) (calls : Callbacks E) (beyond : List ℕ) where
  abbrev shrinks : State → List ℕ → Step E → Bool
  shrinks s w step = elim step.next [
    | none ↦ true
    | some state ↦ is_final state || ltb (measure state step.left) (measure s w)
  ]

  request :
      (ws : Ws) (e : E) (w : List ℕ)
      → shrinks State.read_http_request w (recv_request out calls beyond ws e w) ≡ true
  unfolding recv_request
  request ws e w = ground (arith, request_left ws w)

  answered_lem :
      (heard : Heard E) (left w : List ℕ)
      → length left + 2 ≤ length w
      → shrinks State.read_http_headers w (answered out calls beyond heard left) ≡ true
  unfolding answered upgrade
  answered_lem heard left w h = ground arith

  headers :
      (ws : Ws) (e : E) (w : List ℕ)
      → shrinks State.read_http_headers w (recv_headers out calls beyond ws e w) ≡ true
  unfolding recv_headers
  headers ws e w = elim (Option-cases (strnstr (crlf ++ crlf) w)) [
    | inl n ↦ rw (n, recv_headers) refl
    | inr (i, s) ↦
        let long = strnstr_bound (crlf ++ crlf) w i s in
        let (ws', left) = read_headers beyond ws (drop 2 w) in
        rw (s, recv_headers)
          (answered_lem (calls.on_http_request ws' w e) left w
            (omega (arith, long, read_headers_left beyond ws (drop 2 w), length-drop 2 w)))
  ]

  frame_length_lem :
      (ws : Ws) (e : E) (w : List ℕ)
      → shrinks State.read_frame_length w (recv_frame_length out calls beyond ws e w) ≡ true
  unfolding recv_frame_length
  frame_length_lem ws e w = ground arith

  settle_lem :
      (head : Head) (heard : Heard E) (left w : List ℕ)
      → length left + 2 ≤ length w
      → shrinks State.read_frame w (settle out calls beyond head heard left) ≡ true
  unfolding settle
  settle_lem head heard left w h = ground arith

  frame :
      (ws : Ws) (e : E) (w : List ℕ)
      → shrinks State.read_frame w (recv_frame out calls beyond ws e w) ≡ true
  unfolding recv_frame
  frame ws e w =
      let stop =
        not (ws.needed_length == 0) || ws.frame_length == 0 || ltb (length w) ws.frame_length in
      elim (Bool-cases stop) [
        | inl g ↦ rw (g, recv_frame) refl
        | inr g ↦ elim (Option-cases (read_frame out ws w).head) [
          | inl n ↦ rw (g, n, recv_frame) refl
          | inr (head, s) ↦
              let r = read_frame out ws w in
              rw (g, s, recv_frame)
                (settle_lem head (calls.on_frame r.ws head (payload_bytes out calls beyond r.ws) e)
                  r.rest w (frame_left out ws w head s))
        ]
      ]

  same :
      (s : State) (w : List ℕ) {a : Step E} (step : Step E)
      → some a ≡ some step
      → shrinks s w a ≡ true
      → shrinks s w step ≡ true
  same s w {a} step h k = let e : a ≡ step = cc h in subst (λ k. shrinks s w k ≡ true) e k

  less :
      (s : State) (w : List ℕ) (step : Step E) (next : State)
      → step.next ≡ some next
      → is_final next ≡ false
      → shrinks s w step ≡ true
      → measure next step.left < measure s w
  less s w step next n f h =
      let k : (is_final next || ltb (measure next step.left) (measure s w)) ≡ true = rw n at h in
      ground (arith, f, k)

  turn-shrinks :
      (s : State) (ws : Ws) (e : E) (w : List ℕ) (step : Step E)
      → turn out calls beyond s ws e w ≡ some step
      → shrinks s w step ≡ true
  unfolding turn
  turn-shrinks State.read_http_request ws e w step h =
      same State.read_http_request w step h (request ws e w)
  turn-shrinks State.read_http_headers ws e w step h =
      same State.read_http_headers w step h (headers ws e w)
  turn-shrinks State.keep_alive ws e w step h = same State.keep_alive w step h refl
  turn-shrinks State.read_frame_length ws e w step h =
      same State.read_frame_length w step h (frame_length_lem ws e w)
  turn-shrinks State.read_frame ws e w step h = same State.read_frame w step h (frame ws e w)
  turn-shrinks State.closed ws e w step h = absurd (cc h)
  turn-shrinks State.error ws e w step h = absurd (cc h)

  loop_total :
      (fuel : ℕ) (ws : Ws) (e : E) (w : List ℕ)
      → measure ws.state w < fuel
      → (done : Done E) × recv_loop out calls beyond fuel ws e w ≡ some done
  unfolding recv_loop
  loop_total zero ws e w h = absurd (omega arith)
  loop_total (suc fuel) ws e w h = elim (Option-cases (turn out calls beyond ws.state ws e w)) [
    | inl n ↦ (record { ws = ws; outside = e; left = w; status = failure }, rw (n, recv_loop) refl)
    | inr (step, t) ↦ elim (Option-cases step.next) [
      | inl n ↦ (
        record { ws = step.ws; outside = step.outside; left = step.left; status = success },
        rw (t, n, recv_loop) refl,
      )
      | inr (state, n) ↦
          let ws' = record (step.ws) { state = state } in
          elim (Bool-cases (is_final state)) [
            | inl f ↦ (
              record { ws = ws'; outside = step.outside; left = step.left; status = failure },
              rw (t, n, f, recv_loop) refl,
            )
            | inr f ↦ elim (Bool-cases (is_empty step.left)) [
              | inl z ↦ (
                record { ws = ws'; outside = step.outside; left = step.left; status = success },
                rw (t, n, f, z, recv_loop) refl,
              )
              | inr z ↦
                  let small =
                    less ws.state w step state n f (turn-shrinks ws.state ws e w step t) in
                  let (done, r) = loop_total fuel ws' step.outside step.left (omega arith) in
                  (done, rw (t, n, f, z, recv_loop) r)
            ]
          ]
    ]
  ]

  -- The loop returns: with twice the bytes of the window and two turns as fuel it has a result,
  -- whatever the callbacks and the surroundings do.
  pub recv_loop-total :
      (fuel : ℕ) (ws : Ws) (e : E) (w : List ℕ)
      → enough out calls beyond w ≤ fuel
      → (done : Done E) × recv_loop out calls beyond fuel ws e w ≡ some done
  recv_loop-total fuel ws e w h = loop_total fuel ws e w (omega (arith, weight_bound ws.state))
