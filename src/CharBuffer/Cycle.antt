-- ===== src/CharBuffer/Cycle.antt =====
-- `cb_end_input` of src/char_buffer.c, and a whole turn of the buffer.
use bootstrap_agency_templat.Prelude.{
  ℕ, ◌+◌, ◌-◌, ◌^◌, ◌≤◌, ◌<◌, ◌≡◌, refl, ap, ap₂, sym, subst, ◌∙◌, Bool, true, false, some, List,
  ◌++◌, length, drop, ◌==◌, ==_iff, ==_refl, arith, inl, inr, Bool-cases, length-append,
  length-drop, nil_of_length,
}
use bootstrap_agency_templat.CharBuffer.{
  Cb, memory, slice, ensure_capacity, did_share, begin_input, end_input, window, advance, offset_of,
}
use bootstrap_agency_templat.CharBuffer.Memory.{pending, IsValid, length-slice}
use bootstrap_agency_templat.CharBuffer.Capacity.{ensure_capacity-Ensures}
use native.Mathlib.Nat.{zero-add}
use bootstrap_agency_templat.CharBuffer.Stream.{
  IsShared, IsOwn, IsReading, append_lem, own_slice, begin_input-IsReading, advance-IsReading,
  window_lem,
}

shared-IsShared :
    (saved buf : List ℕ) (n : ℕ) (cb : Cb) → IsShared saved buf n cb → did_share cb ≡ true
shared-IsShared saved buf n cb r = ground (arith, r.upto)

own-IsOwn : (saved buf : List ℕ) (n : ℕ) (cb : Cb) → IsOwn saved buf n cb → did_share cb ≡ false
own-IsOwn saved buf n cb r = ground (arith, r.upto, r.there, ==_refl cb.tail)

module _ (alloc : ℕ → Bool) where
  -- What the reader left is pending after `cb_end_input`, if that returns 0.
  end_shared :
      (saved buf : List ℕ) (n : ℕ) (cb : Cb)
      → IsShared saved buf n cb
      → (end_input alloc cb buf).0 ≡ true
      → IsValid (end_input alloc cb buf).1
        × (pending (end_input alloc cb buf).1 ≡ drop n (saved ++ buf))
  unfolding end_input
  end_shared saved buf n cb r =
      let did = shared-IsShared saved buf n cb r in
      let seen = window_lem saved buf n cb (inl r) in
      let left = window buf cb in
      let few : length (window buf cb) ≤ length buf = omega (
        arith,
        ap length seen,
        length-drop n (saved ++ buf),
        length-append saved buf,
        ap length r.none_saved,
      ) in
      let made =
        ensure_capacity-Ensures alloc cb (length (window buf cb)) r.valid
          (omega (arith, r.small)) in
      rw (did, end_input)
        (elim (Bool-cases (length (window buf cb) == 0)) [
          | inl done ↦
              rw (done, end_input)
                (λ e. (
                  record { order = r.valid.order; within = r.valid.within },
                  r.nothing
                      ∙ sym (
                          nil_of_length (window buf cb)
                            ((==_iff (length (window buf cb)) 0).0 done))
                      ∙ seen,
                ))
          | inr more ↦
              rw (more, end_input)
                (elim (Bool-cases (ensure_capacity alloc cb (length (window buf cb))).0) [
                  | inr failed ↦ rw (failed, end_input) (λ e. cc)
                  | inl fits ↦
                      rw (fits, end_input)
                        (λ e.
                          let filled =
                            append_lem (ensure_capacity alloc cb (length (window buf cb))).1
                              (window buf cb) made.0.valid (made.1 fits) in
                          (
                            record { order = filled.0.order; within = filled.0.within },
                            filled.1 ∙ ap₂ (λ a b. a ++ b) (made.0.bytes ∙ r.nothing) seen,
                          ))
                ])
        ])

  end_own :
      (saved buf : List ℕ) (n : ℕ) (cb : Cb)
      → IsOwn saved buf n cb
      → IsValid (end_input alloc cb buf).1
        × ((end_input alloc cb buf).0 ≡ true)
        × (pending (end_input alloc cb buf).1 ≡ drop n (saved ++ buf))
  unfolding end_input
  end_own saved buf n cb r =
      let did = own-IsOwn saved buf n cb r in
      let sized : length (pending cb) ≡ cb.tail - cb.head =
        length-slice cb.head (cb.tail - cb.head) (memory cb)
          (omega (arith, r.valid.order, r.valid.within)) in
      let at : offset_of cb.in_head ≡ cb.head + n = ap offset_of r.from in
      rw (did, end_input)
        (
          record {
            order = omega (arith, at, sized, ap length r.saved_all, r.inside, r.valid.order);
            within = r.valid.within;
          },
          refl,
          ap (λ i. slice i (cb.tail - i) (memory cb)) at ∙ own_slice saved buf n cb r,
        )

  end_lem :
      (saved buf : List ℕ) (n : ℕ) (cb : Cb)
      → IsReading saved buf n cb
      → (end_input alloc cb buf).0 ≡ true
      → IsValid (end_input alloc cb buf).1
        × (pending (end_input alloc cb buf).1 ≡ drop n (saved ++ buf))
  end_lem saved buf n cb (inl r) ok = end_shared saved buf n cb r ok
  end_lem saved buf n cb (inr r) ok =
      let (valid, done, left) = end_own saved buf n cb r in (valid, left)

  -- One turn of the buffer, from `cb_begin_input` on bytes `buf` to `cb_end_input`, where both return
  -- 0 and the reader takes `n` bytes between them: the reader sees the pending bytes followed by
  -- `buf`, and exactly what it has not taken is pending afterwards, with the invariant kept. The
  -- memory is below the limit of a `size_t`.
  pub input_cycle :
      (cb : Cb) (buf : List ℕ) (n : ℕ)
      → IsValid cb
      → cb.tail + length buf < 2 ^ 64
      → n ≤ length (pending cb ++ buf)
      → (begin_input alloc cb (some buf)).0 ≡ true
      → (end_input alloc (advance n (begin_input alloc cb (some buf)).1) buf).0 ≡ true
      → (window buf (begin_input alloc cb (some buf)).1 ≡ pending cb ++ buf)
        × IsValid (end_input alloc (advance n (begin_input alloc cb (some buf)).1) buf).1
        × (pending (end_input alloc (advance n (begin_input alloc cb (some buf)).1) buf).1
            ≡ drop n (pending cb ++ buf))
  input_cycle cb buf n v small inside began ended =
      let cb' = (begin_input alloc cb (some buf)).1 in
      let opened = begin_input-IsReading alloc cb buf v small began in
      let read =
        subst (λ k. IsReading (pending cb) buf k (advance n (begin_input alloc cb (some buf)).1))
          (zero-add n)
          (advance-IsReading (pending cb) buf 0 n (begin_input alloc cb (some buf)).1 opened
            (omega arith)) in
      let (valid, left) =
        end_lem (pending cb) buf n (advance n (begin_input alloc cb (some buf)).1) read ended in
      (window_lem (pending cb) buf 0 (begin_input alloc cb (some buf)).1 opened, valid, left)
