-- ===== src/CharBuffer/Stream.antt =====
-- `cb_begin_input` and `cb_end_input` of src/char_buffer.c: between the two calls the reader sees the
-- saved bytes and the new ones in a row, and what it leaves is saved for the next call.
use bootstrap_agency_templat.Prelude.{
  ℕ, ◌+◌, ◌-◌, ◌^◌, ◌≤◌, ◌<◌, ◌≡◌, ◌⊎◌, refl, ap, ap₂, sym, ◌∙◌, Bool, true, false, some, List, [],
  ◌++◌, length, take, drop, arith, inl, inr, Bool-cases, length-append, length-take, length-drop,
  Option-cases, drop-append_le, take_all, append_assoc, drop-drop, take_seam, drop-take,
}
use bootstrap_agency_templat.CharBuffer.{
  Cb, own, ext, memory, slice, blit, ensure_capacity, append, can_share, is_null, begin_input,
  window, advance, shift, offset_of, bytes_at,
}
use bootstrap_agency_templat.CharBuffer.Memory.{
  pending, IsValid, length-blit, length-slice, memory_of,
}
use bootstrap_agency_templat.CharBuffer.Capacity.{ensure_capacity-Ensures}

slice-blit :
    (h i : ℕ) (src m : List ℕ)
    → h ≤ i
    → i + length src ≤ length m
    → slice h (i + length src - h) (blit i src m) ≡ slice h (i - h) m ++ src
unfolding blit
slice-blit h i src m order room =
    let kept : length (take i m) ≡ i = omega (arith, length-take i m) in
    let tail = drop (i + length src) m in
    let front : drop h (take i m ++ (src ++ tail)) ≡ (take (i - h) (drop h m) ++ src) ++ tail =
      drop-append_le h (take i m) (src ++ tail) (omega arith)
      ∙ ap (λ l. l ++ (src ++ tail)) (drop-take h i m order)
      ∙ sym (append_assoc (take (i - h) (drop h m)) src tail) in
    ap (take (i + length src - h)) front
    ∙ take_seam (i + length src - h) (take (i - h) (drop h m) ++ src) tail (
        omega (
          arith,
          length-append (take (i - h) (drop h m)) src,
          length-slice h (i - h) m (omega arith),
        ))

-- `memcpy` behind the tail adds the bytes to what is pending.
pub append_lem :
    (cb : Cb) (src : List ℕ)
    → IsValid cb
    → cb.tail + length src ≤ length (memory cb)
    → IsValid (append cb src) × (pending (append cb src) ≡ pending cb ++ src)
unfolding append
append_lem cb src v room = (
  record {
    order = omega (arith, v.order);
    within = omega (arith, length-blit cb.tail src (memory cb) room);
  },
  slice-blit cb.head cb.tail src (memory cb) v.order room,
)

append_there : (cb : Cb) (src : List ℕ) → is_null (append cb src).mem ≡ false
unfolding append
append_there cb src = refl

-- While the window is open on the caller's bytes, nothing is saved.
pub record IsShared (saved buf : List ℕ) (n : ℕ) (cb : Cb) : Type 0 where
  pub valid : IsValid cb
  pub none_saved : saved ≡ []
  pub nothing : pending cb ≡ []
  pub from : cb.in_head ≡ ext n
  pub upto : cb.in_tail ≡ ext (length buf)
  pub inside : n ≤ length buf
  pub small : cb.tail + length buf < 2 ^ 64

-- While it is open on the buffer, the new bytes are saved behind the old ones.
pub record IsOwn (saved buf : List ℕ) (n : ℕ) (cb : Cb) : Type 0 where
  pub valid : IsValid cb
  pub there : is_null cb.mem ≡ false
  pub saved_all : pending cb ≡ saved ++ buf
  pub from : cb.in_head ≡ own (cb.head + n)
  pub upto : cb.in_tail ≡ own cb.tail
  pub inside : n ≤ length (saved ++ buf)

-- The reader has taken `n` of the saved and new bytes.
abbrev pub IsReading : List ℕ → List ℕ → ℕ → Cb → Type 0
IsReading saved buf n cb = IsShared saved buf n cb ⊎ IsOwn saved buf n cb

no_bytes : (cb : Cb) → IsValid cb → can_share cb ≡ true → cb.tail - cb.head ≡ 0
no_bytes cb v e = elim (Option-cases cb.mem) [
  | inl none_there ↦ omega (arith, v.within, v.order, ap (λ o. length (memory_of o)) none_there)
  | inr (m, some_there) ↦ ground arith
]

module _ (alloc : ℕ → Bool) where
  pub begin_input-IsReading :
      (cb : Cb) (buf : List ℕ)
      → IsValid cb
      → cb.tail + length buf < 2 ^ 64
      → (begin_input alloc cb (some buf)).0 ≡ true
      → IsReading (pending cb) buf 0 (begin_input alloc cb (some buf)).1
  unfolding begin_input
  begin_input-IsReading cb buf v small = elim (Bool-cases (can_share cb)) [
    | inl shared ↦
        let nothing : pending cb ≡ [] =
          ap (λ n. take n (drop cb.head (memory cb))) (no_bytes cb v shared) in
        rw (shared, begin_input)
          (λ e. inl (record {
            valid = omega (arith, v.order, v.within);
            none_saved = nothing;
            nothing = nothing;
            from = refl;
            upto = refl;
            inside = omega arith;
            small = small;
          }))
    | inr own_bytes ↦
        let made = ensure_capacity-Ensures alloc cb (length buf) v small in
        rw (own_bytes, begin_input)
          (elim (Bool-cases (ensure_capacity alloc cb (length buf)).0) [
            | inr failed ↦ rw (failed, begin_input) (λ e. cc)
            | inl fits ↦
                rw (fits, begin_input)
                  (λ e.
                    let filled =
                      append_lem (ensure_capacity alloc cb (length buf)).1 buf made.0.valid
                        (made.1 fits) in
                    inr (record {
                      valid = record { order = filled.0.order; within = filled.0.within };
                      there = append_there (ensure_capacity alloc cb (length buf)).1 buf;
                      saved_all = filled.1 ∙ ap (λ l. l ++ buf) made.0.bytes;
                      from = ap own (omega arith);
                      upto = refl;
                      inside = omega arith;
                    }))
          ])
  ]

pub advance-IsReading :
    (saved buf : List ℕ) (n k : ℕ) (cb : Cb)
    → IsReading saved buf n cb
    → n + k ≤ length (saved ++ buf)
    → IsReading saved buf (n + k) (advance k cb)
unfolding advance
advance-IsReading saved buf n k cb (inl r) h = inl (record {
  valid = omega (arith, r.valid.order, r.valid.within);
  none_saved = r.none_saved;
  nothing = r.nothing;
  from = ap (shift k) r.from;
  upto = r.upto;
  inside = omega (arith, h, length-append saved buf, ap length r.none_saved);
  small = r.small;
})
advance-IsReading saved buf n k cb (inr r) h = inr (record {
  valid = omega (arith, r.valid.order, r.valid.within);
  there = r.there;
  saved_all = r.saved_all;
  from = ap (shift k) r.from ∙ ap own (omega arith);
  upto = r.upto;
  inside = h;
})

-- The bytes from the reader's place to the tail.
pub own_slice :
    (saved buf : List ℕ) (n : ℕ) (cb : Cb)
    → IsOwn saved buf n cb
    → slice (cb.head + n) (cb.tail - (cb.head + n)) (memory cb) ≡ drop n (saved ++ buf)
own_slice saved buf n cb r =
    ap₂ (λ k l. take k l) (omega arith) (sym (drop-drop cb.head n (cb.head + n) (memory cb) refl))
    ∙ sym (
        drop-take n (cb.tail - cb.head) (drop cb.head (memory cb)) (
          omega (
            arith,
            r.inside,
            ap length r.saved_all,
            length-slice cb.head (cb.tail - cb.head) (memory cb)
                (omega (arith, r.valid.order, r.valid.within)),
          )))
    ∙ ap (drop n) r.saved_all

pub window_lem :
    (saved buf : List ℕ) (n : ℕ) (cb : Cb)
    → IsReading saved buf n cb
    → window buf cb ≡ drop n (saved ++ buf)
window_lem saved buf n cb (inl r) =
    ap₂ (λ p q. bytes_at buf cb p (offset_of q - offset_of p)) r.from r.upto
    ∙ take_all (length buf - n) (drop n buf) (omega (arith, length-drop n buf))
    ∙ ap (λ l. drop n (l ++ buf)) (sym r.none_saved)
window_lem saved buf n cb (inr r) =
    ap₂ (λ p q. bytes_at buf cb p (offset_of q - offset_of p)) r.from r.upto
    ∙ own_slice saved buf n cb r
