-- ===== src/Tests/Buffers.antt =====
-- src/char_buffer.c on a buffer that holds two pending bytes.
use bootstrap_agency_templat.Prelude.{◌≡◌, refl, some, [], ◌∷◌, ◌++◌, arith, drop}
use bootstrap_agency_templat.CharBuffer
use bootstrap_agency_templat.CharBuffer.{
  Cb, ensure_capacity, append, begin_input, end_input, advance, window,
}
use bootstrap_agency_templat.CharBuffer.Memory.{IsValid, pending}
use bootstrap_agency_templat.CharBuffer.Capacity.{Ensures, ensure_capacity-Ensures}
use bootstrap_agency_templat.CharBuffer.Cycle.{input_cycle}
use bootstrap_agency_templat.Tests.Fixtures.{alloc}

abbrev two_bytes : Cb
two_bytes = append (ensure_capacity alloc CharBuffer.new 2).1 (7 ∷ 8 ∷ [])

two_bytes-IsValid : IsValid two_bytes
unfolding ensure_capacity append CharBuffer.new CharBuffer.first_alloc CharBuffer.blit
two_bytes-IsValid = record { order = omega arith; within = omega arith }

ensure_capacity-Ensures_example : Ensures two_bytes 5000 (ensure_capacity alloc two_bytes 5000)
unfolding ensure_capacity append CharBuffer.new CharBuffer.first_alloc
ensure_capacity-Ensures_example =
    ensure_capacity-Ensures alloc two_bytes 5000 two_bytes-IsValid (omega arith)

-- the reader takes one of the three bytes
input_cycle_example :
    (window (9 ∷ []) (begin_input alloc two_bytes (some (9 ∷ []))).1
      ≡ pending two_bytes ++ (9 ∷ []))
    × IsValid
        (end_input alloc (advance 1 (begin_input alloc two_bytes (some (9 ∷ []))).1) (9 ∷ [])).1
    × (pending
          (end_input alloc (advance 1 (begin_input alloc two_bytes (some (9 ∷ []))).1) (9 ∷ [])).1
        ≡ drop 1 (pending two_bytes ++ (9 ∷ [])))
unfolding CharBuffer.new CharBuffer.first_alloc CharBuffer.rewind CharBuffer.compact
    CharBuffer.new_length CharBuffer.extend ensure_capacity CharBuffer.blit append begin_input
    advance end_input
input_cycle_example =
    input_cycle alloc two_bytes (9 ∷ []) 1 two_bytes-IsValid (omega arith) (omega arith) refl refl
