-- ===== src/WebSocket/Headers.antt =====
-- The loop of `ws_read_headers` in src/websocket.c ends: every header takes bytes from the window.
use bootstrap_agency_templat.Prelude.{
  ℕ, zero, suc, ◌+◌, ◌≤◌, ◌≡◌, refl, sym, ap, ◌∙◌, ◌⊎◌, inl, inr, none, some, List, [], ◌∷◌, ◌++◌,
  arith, ◌==◌, Bool-cases, Option-cases, length, take, drop, length-drop,
}
use bootstrap_agency_templat.Libc.{strnstr}
use bootstrap_agency_templat.WebSocket.Http.{
  header_of, crlf, read_http_header, Headers, apply_header, header_loop,
}
use bootstrap_agency_templat.WebSocket.Consumed.{strnstr_bound}

no_line : (beyond w : List ℕ) → strnstr crlf w ≡ none → (read_http_header beyond w).field ≡ none
unfolding read_http_header
no_line beyond w n = rw (n, read_http_header) refl

header_of_left :
    (line past w next : List ℕ)
    → ((header_of line past w next).field ≡ none) ⊎ ((header_of line past w next).left ≡ next)
unfolding header_of
header_of_left [] past w next = inl refl
header_of_left (c ∷ line) past w next = elim (Bool-cases (c == b' ')) [
  | inl t ↦ inl (rw t refl)
  | inr t ↦ inr (rw t refl)
]

-- Where there is a line, a header with a key takes it and its end.
line_left :
    (beyond w : List ℕ) (i : ℕ)
    → strnstr crlf w ≡ some i
    → ((read_http_header beyond w).field ≡ none)
      ⊎ ((read_http_header beyond w).left ≡ drop (i + 2) w)
unfolding read_http_header
line_left beyond w i s =
    rw (s, read_http_header)
      (header_of_left (take i w) (drop (i + 1) (w ++ beyond)) w (drop (i + 2) w))

-- A header that has a key ends in two bytes that are gone afterwards.
field_left :
    (beyond w key value : List ℕ)
    → (read_http_header beyond w).field ≡ some (key, value)
    → length (read_http_header beyond w).left + 2 ≤ length w
unfolding read_http_header
field_left beyond w key value e = elim (Option-cases (strnstr crlf w)) [
  | inl n ↦ absurd (cc (no_line beyond w n, e))
  | inr (i, s) ↦ elim (line_left beyond w i s) [
    | inl n ↦ absurd (cc (n, e))
    | inr left ↦ omega (arith, ap length left, length-drop (i + 2) w, strnstr_bound crlf w i s)
  ]
]

at_end : (f : ℕ) (beyond : List ℕ) (h : Headers) → header_loop f beyond h [] ≡ (h, [])
unfolding header_loop read_http_header strnstr
at_end zero beyond h = refl
at_end (suc f) beyond h = refl

two_fuels :
    (f g : ℕ) (beyond : List ℕ) (h : Headers) (w : List ℕ)
    → length w ≤ f
    → length w ≤ g
    → header_loop f beyond h w ≡ header_loop g beyond h w
unfolding header_loop
two_fuels f g beyond h [] l k = at_end f beyond h ∙ sym (at_end g beyond h)
two_fuels zero g beyond h (b ∷ w) l k = absurd (omega arith)
two_fuels (suc f) zero beyond h (b ∷ w) l k = absurd (omega arith)
two_fuels (suc f) (suc g) beyond h (b ∷ w) l k =
    let header = read_http_header beyond (b ∷ w) in
    elim (Option-cases header.field) [
      | inl n ↦ rw (n, header_loop) refl
      | inr ((key, value), s) ↦
          let less = field_left beyond (b ∷ w) key value s in
          rw (s, header_loop)
            (two_fuels f g beyond (apply_header h key value) header.left (omega (arith, less))
              (omega (arith, less)))
    ]

-- The length of the window is fuel enough for `ws_read_headers`: every larger number of turns gives
-- the same headers and leaves the same bytes.
pub header_loop-fuel :
    (f : ℕ) (beyond : List ℕ) (h : Headers) (w : List ℕ)
    → length w ≤ f
    → header_loop f beyond h w ≡ header_loop (length w) beyond h w
header_loop-fuel f beyond h w l = two_fuels f (length w) beyond h w l (omega arith)
