-- ===== src/CharBuffer/Capacity.antt =====
-- `cb_ensure_capacity` of src/char_buffer.c: it makes room and keeps the bytes that are pending.
use bootstrap_agency_templat.Prelude.{
  ℕ, zero, suc, ◌+◌, ◌-◌, ◌^◌, ◌≤◌, ◌<◌, ◌≡◌, refl, ap, sym, subst, ◌∙◌, Bool, true, none, some,
  List, [], ◌∷◌, ◌++◌, length, take, replicate, ltb, ltb→lt, if◌then◌else◌, arith, inl, inr,
  Bool-cases, Option-cases, length-append, length-take, length-replicate, take-append_le,
}
use bootstrap_agency_templat.CharBuffer.{
  Cb, memory, slice, min_length, new_length, first_alloc, rewind, compact, extend, ensure_capacity,
}
use bootstrap_agency_templat.CharBuffer.Memory.{
  pending, IsValid, Keeps, Keeps-trans, rewind-Keeps, compact-Keeps, compact-at_begin,
  length-compact, tail-compact, mem-rewind, tail-rewind, memory_of,
}

new_length_lem :
    (used needed len : ℕ)
    → used + needed < 2 ^ 64
    → len < used + needed
    → (used + needed ≤ new_length used needed len) × (len ≤ new_length used needed len)
unfolding new_length
new_length_lem used needed len small short = ground arith

-- What `realloc` leaves: the old bytes, and room behind them.
take-take : (n size : ℕ) (m : List ℕ) → n ≤ size → take n (take size m) ≡ take n m
take-take zero size m h = refl
take-take (suc n) zero m h = absurd (omega arith)
take-take (suc n) (suc size) [] h = refl
take-take (suc n) (suc size) (x ∷ m) h = ap (λ l. x ∷ l) (take-take n size m (omega arith))

take-pad :
    (n size : ℕ) (m pad : List ℕ)
    → n ≤ length m
    → n ≤ size
    → take n (take size (m ++ pad)) ≡ take n m
take-pad n size m pad h k = take-take n size (m ++ pad) k ∙ take-append_le n m pad h

length-pad :
    (size : ℕ) (m : List ℕ)
    → length m ≤ size
    → length (take size (m ++ replicate (size - length m) 0)) ≡ size
length-pad size m h = omega (
  arith,
  length-take size (m ++ replicate (size - length m) 0),
  length-append m (replicate (size - length m) 0),
  length-replicate {A = ℕ} (size - length m) 0,
)

slice_none : (h n : ℕ) (m : List ℕ) → n ≡ 0 → slice h n m ≡ []
slice_none h n m e = rw e

slice_start : (h n k : ℕ) (m : List ℕ) → h ≡ 0 → k ≡ n → take k m ≡ slice h n m
slice_start h n k m e f = rw (e, f)

-- What `cb_ensure_capacity` promises: it keeps the bytes, and returns 0 only with the room asked for.
abbrev pub Ensures : Cb → ℕ → Bool × Cb → Type 0
Ensures c n r = Keeps c r.1 × (r.0 ≡ true → r.1.tail + n ≤ length (memory r.1))

module _ (alloc : ℕ → Bool) (cb : Cb) (needed : ℕ) (v : IsValid cb)
    (at_begin : length (memory cb) - cb.tail < needed → cb.head ≡ 0)
    (small : cb.tail + needed < 2 ^ 64) where
  extend_lem : Ensures cb needed (extend alloc cb (memory cb) needed)
  unfolding extend
  extend_lem = elim (Bool-cases (ltb (length (memory cb) - cb.tail) needed)) [
    | inr enough ↦ rw enough (
      record { valid = v; bytes = refl; window_head = refl; window_tail = refl },
      λ h. ground arith,
    )
    | inl short ↦
        let lacking = ltb→lt (length (memory cb) - cb.tail) needed short in
        let start = at_begin lacking in
        let (room, wider) =
          new_length_lem (cb.tail - cb.head) needed (length (memory cb)) (omega arith)
            (omega arith) in
        let len =
          length-pad (new_length (cb.tail - cb.head) needed (length (memory cb))) (memory cb)
            wider in
        rw short
          (elim (Bool-cases (alloc (new_length (cb.tail - cb.head) needed (length (memory cb))))) [
            | inr failed ↦ rw failed (
              record { valid = v; bytes = refl; window_head = refl; window_tail = refl },
              λ h. cc,
            )
            | inl given ↦ rw given (
              record {
                valid = record { order = omega arith; within = omega (arith, len) };
                bytes =
                    take-pad (cb.tail - cb.head - 0)
                      (new_length (cb.tail - cb.head) needed (length (memory cb))) (memory cb)
                      (replicate
                        (new_length (cb.tail - cb.head) needed (length (memory cb))
                          - length (memory cb))
                        0)
                      (omega (arith, v.within)) (omega arith)
                    ∙ slice_start cb.head (cb.tail - cb.head) (cb.tail - cb.head - 0) (memory cb)
                        start (omega arith);
                window_head = refl;
                window_tail = refl;
              },
              λ h. omega (arith, len),
            )
          ])
  ]

first_alloc-Ensures :
    (alloc : ℕ → Bool) (cb : Cb) (needed : ℕ)
    → cb.mem ≡ none
    → IsValid cb
    → Ensures cb needed (first_alloc alloc cb needed)
unfolding first_alloc
first_alloc-Ensures alloc cb needed e v =
    let none_there : length (memory cb) ≡ 0 = ap (λ o. length (memory_of o)) e in
    let nothing : pending cb ≡ [] =
      slice_none cb.head (cb.tail - cb.head) (memory cb) (omega (arith, v.within, v.order)) in
    let size = if ltb min_length needed then needed else min_length in
    elim (Bool-cases (alloc size)) [
      | inr failed ↦
          rw failed
            (record { valid = v; bytes = refl; window_head = refl; window_tail = refl }, λ h. cc)
      | inl given ↦ rw given (
        record { valid = omega arith; bytes = sym nothing; window_head = refl; window_tail = refl },
        λ h. ground (arith, length-replicate {A = ℕ} size 0),
      )
    ]

ensure_capacity-none :
    (alloc : ℕ → Bool) (cb : Cb) (needed : ℕ)
    → cb.mem ≡ none
    → ensure_capacity alloc cb needed ≡ first_alloc alloc cb needed
unfolding ensure_capacity
ensure_capacity-none alloc cb needed e = ground arith

ensure_capacity-some :
    (alloc : ℕ → Bool) (cb : Cb) (needed : ℕ) (m : List ℕ)
    → cb.mem ≡ some m
    → ensure_capacity alloc cb needed
      ≡ extend alloc (compact (rewind cb) m needed) (memory (compact (rewind cb) m needed)) needed
unfolding ensure_capacity
ensure_capacity-some alloc cb needed m e = ground arith

-- On a valid buffer, if the tail and the bytes asked for stay below 2^64, `cb_ensure_capacity` keeps
-- the invariant, the pending bytes and the window, whether it succeeds or not, and where it returns
-- 0 the bytes asked for fit behind the tail.
pub ensure_capacity-Ensures :
    (alloc : ℕ → Bool) (cb : Cb) (needed : ℕ)
    → IsValid cb
    → cb.tail + needed < 2 ^ 64
    → Ensures cb needed (ensure_capacity alloc cb needed)
ensure_capacity-Ensures alloc cb needed v small = elim (Option-cases cb.mem) [
  | inl e ↦
      subst (Ensures cb needed) (sym (ensure_capacity-none alloc cb needed e))
        (first_alloc-Ensures alloc cb needed e v)
  | inr (m, e) ↦
      let again = rewind-Keeps cb v in
      let there = mem-rewind cb ∙ e in
      let moved = compact-Keeps (rewind cb) m needed there again.valid in
      let fits =
        extend_lem alloc (compact (rewind cb) m needed) needed moved.valid
          (λ h.
            compact-at_begin (rewind cb) m needed there again.valid
              (omega (arith, length-compact (rewind cb) m needed there again.valid)))
          (omega (arith, tail-compact (rewind cb) m needed there again.valid, tail-rewind cb)) in
      subst (Ensures cb needed) (sym (ensure_capacity-some alloc cb needed m e))
        (Keeps-trans (Keeps-trans again moved) fits.0, fits.1)
]

-- Where the allocator never fails, nor does this.
pub ensure_capacity_alloc :
    (alloc : ℕ → Bool) (cb : Cb) (needed : ℕ)
    → ((n : ℕ) → alloc n ≡ true)
    → (ensure_capacity alloc cb needed).0 ≡ true
unfolding ensure_capacity first_alloc extend
ensure_capacity_alloc alloc cb needed all = grind (arith, all)

tail-extend :
    (alloc : ℕ → Bool) (cb : Cb) (m : List ℕ) (needed : ℕ)
    → (extend alloc cb m needed).1.tail ≤ cb.tail
unfolding extend
tail-extend alloc cb m needed = ground arith

-- The tail does not move up.
pub tail-ensure_capacity :
    (alloc : ℕ → Bool) (cb : Cb) (needed : ℕ)
    → IsValid cb
    → (ensure_capacity alloc cb needed).1.tail ≤ cb.tail
unfolding first_alloc
tail-ensure_capacity alloc cb needed v = elim (Option-cases cb.mem) [
  | inl e ↦ rw (ensure_capacity-none alloc cb needed e) (ground arith)
  | inr (m, e) ↦ rw (ensure_capacity-some alloc cb needed m e) (
      omega (
        arith,
        tail-extend alloc (compact (rewind cb) m needed) (memory (compact (rewind cb) m needed))
            needed,
        tail-compact (rewind cb) m needed (mem-rewind cb ∙ e) (rewind-Keeps cb v).valid,
        tail-rewind cb,
      ))
]
