-- ===== src/Tests/Listening.antt =====
-- `dl_on_recv` of src/device_listener.c on a packet that comes in two reads.
use bootstrap_agency_templat.Prelude.{ℕ, ◌≡◌, refl, Bool, true, some, List, [], ◌∷◌, ◌++◌, arith}
use bootstrap_agency_templat.CharBuffer
use bootstrap_agency_templat.CharBuffer.{Cb}
use bootstrap_agency_templat.CharBuffer.Memory.{IsValid, pending}
use bootstrap_agency_templat.DeviceListener
use bootstrap_agency_templat.DeviceListener.{Dl, Done, Heard, recv_loop, enough, on_recv}
use bootstrap_agency_templat.DeviceListener.Input.{Agrees, on_recv-Agrees, on_recv-on_recv}
use bootstrap_agency_templat.Tests.Devices.{plist, callbacks, idle}

abbrev all : ℕ → Bool
all n = true

abbrev empty : Cb
empty = CharBuffer.new

empty-IsValid : IsValid empty
unfolding CharBuffer.new
empty-IsValid = record { order = omega arith; within = omega arith }

abbrev first_read : List ℕ
first_read = 0 ∷ 0 ∷ 0 ∷ 1 ∷ 0 ∷ 0 ∷ 0 ∷ []

abbrev second_read : List ℕ
second_read = 0 ∷ 0 ∷ 0 ∷ 1 ∷ 0 ∷ 0 ∷ []

on_recv-Agrees_example :
    let w = pending empty ++ (16 ∷ first_read) in
    (done : Done plist callbacks) × (recv_loop plist callbacks (enough plist callbacks w) idle [] w
      ≡ some done)
    × Agrees plist callbacks done
        (on_recv plist callbacks all empty idle [] (some (16 ∷ first_read)))
unfolding CharBuffer.new
on_recv-Agrees_example =
    on_recv-Agrees plist callbacks all (λ n. refl) empty idle [] 16 first_read empty-IsValid
      (omega arith)

abbrev first : Heard plist callbacks
first = on_recv plist callbacks all empty idle [] (some (16 ∷ first_read))

on_recv-on_recv_example :
    let w = (pending empty ++ (16 ∷ first_read)) ++ (8 ∷ second_read) in
    (done : Done plist callbacks) × (recv_loop plist callbacks (enough plist callbacks w) idle [] w
      ≡ some done)
    × Agrees plist callbacks done
        (on_recv plist callbacks all first.input first.dl first.outside (some (8 ∷ second_read)))
unfolding CharBuffer.new CharBuffer.first_alloc CharBuffer.rewind CharBuffer.compact
    CharBuffer.new_length CharBuffer.extend CharBuffer.ensure_capacity CharBuffer.blit
    CharBuffer.append CharBuffer.begin_input CharBuffer.advance CharBuffer.end_input
    DeviceListener.new on_recv
on_recv-on_recv_example =
    on_recv-on_recv plist callbacks all (λ n. refl) empty idle [] 16 first_read 8 second_read
      empty-IsValid (omega arith) refl (omega arith)
