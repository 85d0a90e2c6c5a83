-- ===== src/WebSocket/Consumed.antt =====
-- How much of the window the readers of src/websocket.c take.
use bootstrap_agency_templat.Prelude.{
  ℕ, zero, suc, ◌+◌, ◌≤◌, ◌≡◌, refl, ap, inl, inr, Bool, true, false, not, ◌||◌, none, some, List,
  [], ◌∷◌, arith, ltb, ◌==◌, if◌then◌else◌, Option-cases, length, length-drop,
}
use bootstrap_agency_templat.CharBuffer.{Cb, ensure_capacity}
use bootstrap_agency_templat.Libc.{strnstr, starts_with}
use bootstrap_agency_templat.WebSocket.{Ws, Outside}
use bootstrap_agency_templat.WebSocket.Frame.{
  FrameResult, payload_length, read_frame, keep_payload, read_payload, Head, Payload,
}
use bootstrap_agency_templat.WebSocket.Http.{
  crlf, read_http_request, read_http_header, Headers, apply_header, header_loop, read_headers,
}

starts_bound : (s t : List ℕ) → starts_with s t ≡ true → length s ≤ length t
unfolding starts_with
starts_bound [] t h = omega arith
starts_bound (c ∷ s) [] h = ground arith
starts_bound (c ∷ s) (d ∷ t) h =
    let rest : starts_with s t ≡ true = ground arith in omega (arith, starts_bound s t rest)

pub strnstr_bound : (s w : List ℕ) (i : ℕ) → strnstr s w ≡ some i → i + length s ≤ length w
unfolding strnstr
strnstr_bound s [] i e = ground arith
strnstr_bound s (c ∷ w) zero e = ground (arith, starts_bound s (c ∷ w))
strnstr_bound s (c ∷ w) (suc i) e = ground (arith, strnstr_bound s w i)

pub header_left : (beyond w : List ℕ) → length (read_http_header beyond w).left ≤ length w
unfolding read_http_header
header_left beyond w = grind (arith, length-drop)

loop_left :
    (fuel : ℕ) (beyond : List ℕ) (h : Headers) (w : List ℕ)
    → length (header_loop fuel beyond h w).1 ≤ length w
unfolding header_loop
loop_left zero beyond h w = omega arith
loop_left (suc fuel) beyond h w =
    let header = read_http_header beyond w in
    elim (Option-cases header.field) [
      | inl n ↦ rw (n, header_loop) (header_left beyond w)
      | inr ((key, value), s) ↦
          rw (s, header_loop)
            (omega (
              arith,
              header_left beyond w,
              loop_left fuel beyond (apply_header h key value) header.left,
            ))
    ]

pub request_left : (ws : Ws) (w : List ℕ) → length (read_http_request ws w).left ≤ length w
unfolding read_http_request
request_left ws w = elim (Option-cases (strnstr crlf w)) [
  | inl n ↦ rw (n, read_http_request) (omega arith)
  | inr (i, s) ↦ rw (s, read_http_request) (omega (arith, length-drop i w))
]

pub read_headers_left :
    (beyond : List ℕ) (ws : Ws) (w : List ℕ) → length (read_headers beyond ws w).1 ≤ length w
unfolding read_headers
read_headers_left beyond ws w =
    loop_left (length w) beyond (record { ws = ws; is_connection = false; is_upgrade = false }) w

kept_left :
    {E : Type 0} (out : Outside E) (ws : Ws) (b0 : ℕ) (s : List ℕ) (p : Payload) (room : Bool × Cb)
    (head : Head)
    → (keep_payload out ws b0 s p room).head ≡ some head
    → (keep_payload out ws b0 s p room).rest ≡ p.rest
unfolding keep_payload
kept_left out ws b0 s p room head e = ground arith

payload_left : (b1 whole : ℕ) (s : List ℕ) → length (read_payload b1 whole s).rest ≤ length s
unfolding read_payload
payload_left b1 whole s = grind (arith, length-drop)

pick :
    (g : Bool) (x y : FrameResult) (head : Head) (n : ℕ)
    → x.head ≡ none
    → (y.head ≡ some head → length y.rest + 2 ≤ n)
    → (if g then x else y).head ≡ some head
    → length (if g then x else y).rest + 2 ≤ n
pick true x y head n h k e = absurd (cc (h, e))
pick false x y head n h k e = k e

-- A frame that is read takes at least its two head bytes.
pub frame_left :
    {E : Type 0} (out : Outside E) (ws : Ws) (w : List ℕ) (head : Head)
    → (read_frame out ws w).head ≡ some head
    → length (read_frame out ws w).rest + 2 ≤ length w
unfolding read_frame
frame_left out ws [] head e = absurd (cc e)
frame_left out ws (b ∷ []) head e = absurd (cc e)
frame_left out ws (b0 ∷ b1 ∷ s) head e =
    let p = read_payload b1 ws.frame_length s in
    let room = ensure_capacity out.alloc ws.payload (payload_length b1 ws.frame_length) in
    let all = b0 ∷ b1 ∷ s in
    pick (not (ws.needed_length == 0) || ws.frame_length == 0 || ltb (2 + length s) ws.frame_length)
      (record { ws = ws; head = none; rest = all }) (keep_payload out ws b0 all p room) head
      (length all) refl
      (λ k. omega (
        arith,
        ap length (kept_left out ws b0 all p room head k),
        payload_left b1 ws.frame_length s,
      ))
      e
