-- ===== src/CharBuffer.antt =====
-- src/char_buffer.c: a growing byte buffer, and its input window, which is either the caller's own
-- bytes or the buffer's. The memory from `begin` to `end` is a list; `head` and `tail` are offsets
-- into it. Memory that the allocator hands out reads as zeros. `malloc` and `realloc` may fail: the
-- parameter `alloc` says for each size whether they succeed.
pub mod Memory
pub mod Capacity
pub mod Stream
pub mod Cycle
use bootstrap_agency_templat.Prelude.{
  ℕ, zero, suc, ◌+◌, ◌-◌, ◌*◌, ◌/◌, ◌%◌, ◌^◌, Bool, true, false, not, ◌&&◌, ◌||◌, Option, none,
  some, List, [], ◌∷◌, ◌++◌, length, take, drop, replicate, ltb, ◌==◌, if◌then◌else◌,
}

-- A `const char *`: null, into the buffer's memory, or into the caller's input.
pub data Ptr : Type 0 where
  null : Ptr
  own : ℕ → Ptr
  ext : ℕ → Ptr

pub record Cb : Type 0 where
  pub mem : Option (List ℕ)
  pub head : ℕ
  pub tail : ℕ
  pub in_head : Ptr
  pub in_tail : Ptr

abbrev pub min_length : ℕ
min_length = 1024

abbrev pub offset_of : Ptr → ℕ
offset_of null = 0
offset_of (own i) = i
offset_of (ext i) = i

abbrev pub same_ptr : Ptr → Ptr → Bool
same_ptr null null = true
same_ptr (own i) (own j) = i == j
same_ptr (ext i) (ext j) = i == j
same_ptr _ _ = false

-- the `n` bytes from offset `i` on
abbrev pub slice : ℕ → ℕ → List ℕ → List ℕ
slice i n m = take n (drop i m)

-- `memcpy(m + i, src, length src)`, inside the memory
unfoldable pub blit : ℕ → List ℕ → List ℕ → List ℕ
blit i src m = take i m ++ (src ++ drop (i + length src) m)

-- the memory, where `begin` is not null
abbrev pub memory : Cb → List ℕ
memory cb = elim cb.mem [ none ↦ [] | some m ↦ m ]

abbrev pub is_null : Option (List ℕ) → Bool
is_null none = true
is_null (some m) = false

-- the bytes at a pointer, with the caller's input at hand
abbrev pub bytes_at : List ℕ → Cb → Ptr → ℕ → List ℕ
bytes_at input cb null n = []
bytes_at input cb (own i) n = slice i n (memory cb)
bytes_at input cb (ext i) n = slice i n input

unfoldable pub new : Cb
new = record { mem = none; head = 0; tail = 0; in_head = null; in_tail = null }

-- `head` and `tail` become `begin`
unfoldable pub clear : Cb → Cb
clear cb = record cb { head = 0; tail = 0 }

-- `cb_ensure_capacity` where nothing is allocated yet
unfoldable pub first_alloc : (ℕ → Bool) → Cb → ℕ → Bool × Cb
first_alloc alloc cb needed =
    let size = if ltb min_length needed then needed else min_length in
    if alloc size
    then (true, record cb { mem = some (replicate size 0); head = 0; tail = 0 })
    else (false, cb)

-- where nothing is used, the buffer starts again at `begin`
unfoldable pub rewind : Cb → Cb
rewind cb = if cb.tail - cb.head == 0 then record cb { head = 0; tail = 0 } else cb

-- where the space behind `tail` is short, what is used moves to `begin`
unfoldable pub compact : Cb → List ℕ → ℕ → Cb
compact cb m needed =
    let used = cb.tail - cb.head in
    if ltb (length m - cb.tail) needed && not (cb.head == 0)
    then record cb {
      mem = some (if used == 0 then m else blit 0 (slice cb.head used m) m);
      head = 0;
      tail = used;
    }
    else cb

-- the `realloc` to `used + needed` bytes, or to one and a half times the memory if that is more
unfoldable pub new_length : ℕ → ℕ → ℕ → ℕ
new_length used needed len =
    let wanted = (used + needed) % 2 ^ 64 in
    if ltb (2 * wanted) (3 * len) then 3 * len / 2 else wanted

unfoldable pub extend : (ℕ → Bool) → Cb → List ℕ → ℕ → Bool × Cb
extend alloc cb m needed =
    let used = cb.tail - cb.head in
    let size = new_length used needed (length m) in
    if ltb (length m - cb.tail) needed
    then (if alloc size
        then (
          true,
          record cb {
            mem = some (take size (m ++ replicate (size - length m) 0));
            head = 0;
            tail = used;
          },
        )
        else (false, cb))
    else (true, cb)

-- `true` is the return value 0, `false` is -1.
unfoldable pub ensure_capacity : (ℕ → Bool) → Cb → ℕ → Bool × Cb
ensure_capacity alloc cb needed = elim cb.mem [
  | none ↦ first_alloc alloc cb needed
  | some m ↦ let moved = compact (rewind cb) m needed in extend alloc moved (memory moved) needed
]

-- `memcpy(self->tail, src, n); self->tail += n`
unfoldable pub append : Cb → List ℕ → Cb
append cb src = record cb { mem = some (blit cb.tail src (memory cb)); tail = cb.tail + length src }

abbrev pub can_share : Cb → Bool
can_share cb = is_null cb.mem || cb.tail == cb.head

-- The caller's buffer is `none` where it is null or its length is negative.
unfoldable pub begin_input : (ℕ → Bool) → Cb → Option (List ℕ) → Bool × Cb
begin_input alloc cb none = (false, cb)
begin_input alloc cb (some buf) =
    if can_share cb
    then (true, record cb { in_head = ext 0; in_tail = ext (length buf) })
    else (let (fits, cb') = ensure_capacity alloc cb (length buf) in
        let filled = append cb' buf in
        if fits
        then (true, record filled { in_head = own filled.head; in_tail = own filled.tail })
        else (false, cb'))

-- What lies between `in_head` and `in_tail`.
abbrev pub window : List ℕ → Cb → List ℕ
window input cb = bytes_at input cb cb.in_head (offset_of cb.in_tail - offset_of cb.in_head)

-- `self->in_head += n`, by the reader of the window
abbrev pub shift : ℕ → Ptr → Ptr
shift n null = null
shift n (own i) = own (i + n)
shift n (ext i) = ext (i + n)

unfoldable pub advance : ℕ → Cb → Cb
advance n cb = record cb { in_head = shift n cb.in_head }

abbrev pub did_share : Cb → Bool
did_share cb = is_null cb.mem || not (same_ptr cb.in_tail (own cb.tail))

abbrev pub close_window : Cb → Cb
close_window cb = record cb { in_head = null; in_tail = null }

unfoldable pub end_input : (ℕ → Bool) → Cb → List ℕ → Bool × Cb
end_input alloc cb input =
    let left = window input cb in
    let (fits, cb') = ensure_capacity alloc cb (length left) in
    if did_share cb
    then (if length left == 0
        then (true, close_window cb)
        else if fits
        then (true, close_window (append cb' left))
        else (false, cb'))
    else (true, close_window (record cb { head = offset_of cb.in_head }))
