-- ===== src/CharBuffer/Memory.antt =====
-- The pending bytes of the buffer of src/char_buffer.c, its invariant, and the steps of
-- `cb_ensure_capacity` that move bytes inside the memory.
use bootstrap_agency_templat.Prelude.{
  ℕ, ◌+◌, ◌-◌, ◌≤◌, ◌<◌, ◌≡◌, refl, ap, sym, ◌∙◌, Bool, Option, none, some, List, [], ◌++◌, length,
  take, drop, ltb, ◌==◌, ==_iff, ◌&&◌, not, arith, inl, inr, Bool-cases, length-append, length-take,
  length-drop, take-append_length,
}
use bootstrap_agency_templat.CharBuffer.{Cb, memory, slice, blit, rewind, compact}

-- The bytes that are saved in the buffer.
abbrev pub pending : Cb → List ℕ
pending cb = slice cb.head (cb.tail - cb.head) (memory cb)

pub record IsValid (cb : Cb) : Type 0 where
  pub order : cb.head ≤ cb.tail
  pub within : cb.tail ≤ length (memory cb)

pub length-slice : (i n : ℕ) (m : List ℕ) → i + n ≤ length m → length (slice i n m) ≡ n
length-slice i n m h = omega (arith, length-take n (drop i m), length-drop i m)

pub length-blit :
    (i : ℕ) (src m : List ℕ) → i + length src ≤ length m → length (blit i src m) ≡ length m
unfolding blit
length-blit i src m h = omega (
  arith,
  length-append (take i m) (src ++ drop (i + length src) m),
  length-append src (drop (i + length src) m),
  length-take i m,
  length-drop (i + length src) m,
)

pub take-blit_zero : (src m : List ℕ) (n : ℕ) → n ≡ length src → take n (blit 0 src m) ≡ src
unfolding blit
take-blit_zero src m n e = rw e (take-append_length src (drop (0 + length src) m))

-- What `cb_ensure_capacity` has done.
pub record Keeps (cb cb' : Cb) : Type 0 where
  pub valid : IsValid cb'
  pub bytes : pending cb' ≡ pending cb
  pub window_head : cb'.in_head ≡ cb.in_head
  pub window_tail : cb'.in_tail ≡ cb.in_tail

pub Keeps-trans : {a b c : Cb} → Keeps a b → Keeps b c → Keeps a c
Keeps-trans p q = record {
  valid = q.valid;
  bytes = q.bytes ∙ p.bytes;
  window_head = q.window_head ∙ p.window_head;
  window_tail = q.window_tail ∙ p.window_tail;
}

pub rewind-Keeps : (cb : Cb) → IsValid cb → Keeps cb (rewind cb)
unfolding rewind
rewind-Keeps cb v = elim (Bool-cases (cb.tail - cb.head == 0)) [
  | inl e ↦
      let empty : cb.tail - cb.head ≡ 0 = (==_iff (cb.tail - cb.head) 0).0 e in
      rw e
        (record { valid = omega arith; bytes = rw empty; window_head = refl; window_tail = refl })
  | inr e ↦ rw e (record { valid = v; bytes = refl; window_head = refl; window_tail = refl })
]

abbrev pub memory_of : Option (List ℕ) → List ℕ
memory_of o = elim o [ none ↦ [] | some m ↦ m ]

module _ (cb : Cb) (m : List ℕ) (needed : ℕ) (e : cb.mem ≡ some m) (v : IsValid cb) where
  memory_eq : memory cb ≡ m
  memory_eq = ap memory_of e

  in_memory : cb.tail ≤ length m
  in_memory = omega (arith, v.within, ap length memory_eq)

  pending_eq : slice cb.head (cb.tail - cb.head) m ≡ pending cb
  pending_eq = ap (slice cb.head (cb.tail - cb.head)) (sym memory_eq)

  abbrev needs_move : Bool
  needs_move = ltb (length m - cb.tail) needed && not (cb.head == 0)

  pub compact-Keeps : Keeps cb (compact cb m needed)
  unfolding compact
  compact-Keeps = elim (Bool-cases needs_move) [
    | inr stay ↦
        rw stay (record { valid = v; bytes = refl; window_head = refl; window_tail = refl })
    | inl move ↦ rw move (elim (Bool-cases (cb.tail - cb.head == 0)) [
      | inl none_used ↦
          let empty : cb.tail - cb.head ≡ 0 = (==_iff (cb.tail - cb.head) 0).0 none_used in
          rw none_used (record {
            valid = record { order = omega arith; within = omega (arith, in_memory) };
            bytes = rw empty;
            window_head = refl;
            window_tail = refl;
          })
      | inr some_used ↦
          let sized : length (slice cb.head (cb.tail - cb.head) m) ≡ cb.tail - cb.head =
            length-slice cb.head (cb.tail - cb.head) m (omega (arith, in_memory)) in
          rw some_used (record {
            valid = record {
              order = omega arith;
              within = omega (
                arith,
                in_memory,
                length-blit 0 (slice cb.head (cb.tail - cb.head) m) m (omega (arith, in_memory)),
              );
            };
            bytes =
                take-blit_zero (slice cb.head (cb.tail - cb.head) m) m (cb.tail - cb.head - 0)
                  (omega (arith, sized))
                ∙ pending_eq;
            window_head = refl;
            window_tail = refl;
          })
    ])
  ]

  -- After it a buffer whose space is still short has its bytes at `begin`.
  pub compact-at_begin :
      length m - (compact cb m needed).tail < needed → (compact cb m needed).head ≡ 0
  unfolding compact
  compact-at_begin = elim (Bool-cases needs_move) [
    | inl move ↦ rw move (λ h. refl)
    | inr stay ↦ rw stay (λ h. ground arith)
  ]

  pub length-compact : length (memory (compact cb m needed)) ≡ length m
  unfolding compact
  length-compact = elim (Bool-cases needs_move) [
    | inr stay ↦ rw stay (ap length memory_eq)
    | inl move ↦ rw move (elim (Bool-cases (cb.tail - cb.head == 0)) [
      | inl none_used ↦ rw none_used
      | inr some_used ↦ rw some_used (
          length-blit 0 (slice cb.head (cb.tail - cb.head) m) m (
            omega (
              arith,
              length-slice cb.head (cb.tail - cb.head) m (omega (arith, in_memory)),
              in_memory,
            )))
    ])
  ]

  pub tail-compact : (compact cb m needed).tail ≤ cb.tail
  unfolding compact
  tail-compact = elim (Bool-cases needs_move) [
    | inl move ↦ rw move (omega arith)
    | inr stay ↦ rw stay (omega arith)
  ]

pub mem-rewind : (cb : Cb) → (rewind cb).mem ≡ cb.mem
unfolding rewind
mem-rewind cb = ground arith

pub tail-rewind : (cb : Cb) → (rewind cb).tail ≤ cb.tail
unfolding rewind
tail-rewind cb = ground arith
