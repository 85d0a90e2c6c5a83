-- ===== src/DeviceListener/Input.antt =====
-- `dl_on_recv` of src/device_listener.c: the loop over the packets, with its input buffer.
use bootstrap_agency_templat.Prelude.{
  ℕ, zero, suc, ◌+◌, ◌-◌, ◌^◌, ◌≤◌, ◌<◌, ◌≡◌, refl, sym, ap, ◌∙◌, Bool, true, Option, none, some,
  List, [], ◌∷◌, ◌++◌, arith, length, drop, length-drop, drop-drop,
}
use bootstrap_agency_templat.CharBuffer.{Cb, window, begin_input, end_input, advance}
use bootstrap_agency_templat.CharBuffer.Memory.{IsValid, pending}
use bootstrap_agency_templat.CharBuffer.Capacity.{ensure_capacity_alloc}
use bootstrap_agency_templat.CharBuffer.Cycle.{input_cycle}
use bootstrap_agency_templat.Plist.{Plist}
use bootstrap_agency_templat.DeviceListener.{Dl, Callbacks, Done, recv_loop, enough, Heard, on_recv}
use bootstrap_agency_templat.DeviceListener.{success}
use bootstrap_agency_templat.DeviceListener.Chunks.{recv_loop-append, joined}
use bootstrap_agency_templat.DeviceListener.Stream.{
  with_length, without_length, packet_of, recv_loop-ends, turn_length, turn_body, turn_error,
  turn_stop, reading, body, broken, stopping, turn-cases,
}

-- What is left of some bytes when a number of them is taken.
record IsSuffix (left w : List ℕ) : Type 0 where
  taken : ℕ
  bound : taken ≤ length w
  rest : left ≡ drop taken w

module _ {N E : Type 0} (plist : Plist N) (calls : Callbacks E) where
  abbrev left_of : Option (Done plist calls) → List ℕ
  left_of none = []
  left_of (some done) = done.left

  loop-IsSuffix :
      (fuel : ℕ) (dl : Dl) (e : E) (w : List ℕ) (done : Done plist calls)
      → recv_loop plist calls fuel dl e w ≡ some done
      → IsSuffix done.left w
  unfolding recv_loop
  loop-IsSuffix zero dl e w done h = absurd (cc h)
  loop-IsSuffix (suc fuel) dl e w done h = elim (turn-cases plist calls dl e w) [
    | reading g ↦
        loop-IsSuffix fuel (with_length plist calls dl w) e w done
          (sym (turn_length plist calls fuel dl e w g) ∙ h)
    | body g k ok ↦
        let p = packet_of plist calls dl e w in
        let n = dl.body_length in
        let fits : n ≤ length w = ground (arith, k) in
        let r =
          loop-IsSuffix fuel (without_length plist calls p.dl) p.outside (drop n w) done
            (sym (turn_body plist calls fuel dl e w g k ok) ∙ h) in
        record {
          taken = n + r.taken;
          bound = omega (arith, r.bound, length-drop n w);
          rest = r.rest ∙ drop-drop n r.taken (n + r.taken) w refl;
        }
    | broken g k bad ↦
        let here = ap left_of (sym (turn_error plist calls fuel dl e w g k bad) ∙ h) in
        record { taken = dl.body_length; bound = ground (arith, k); rest = sym here }
    | stopping g k ↦
        let here = ap left_of (sym (turn_stop plist calls fuel dl e w g k) ∙ h) in
        record { taken = 0; bound = omega arith; rest = sym here }
  ]

  -- what `dl_on_recv` makes of bytes that the loop has read to a result
  pub record Agrees (done : Done plist calls) (heard : Heard plist calls) : Type 0 where
    pub dl : heard.dl ≡ done.dl
    pub outside : heard.outside ≡ done.outside
    pub status : heard.status ≡ done.status
    pub valid : IsValid heard.input
    pub left : pending heard.input ≡ done.left

  taken_rest : (left w : List ℕ) → IsSuffix left w → drop (length w - length left) w ≡ left
  taken_rest left w s =
      let at : length w - length left ≡ s.taken =
        omega (arith, s.bound, ap length s.rest, length-drop s.taken w) in
      ap (λ n. drop n w) at ∙ sym s.rest

  resume :
      {dl dl' : Dl} {e e' : E} {left left' : List ℕ} {r : Option (Done plist calls)} (more : List ℕ)
      → dl ≡ dl'
      → e ≡ e'
      → left ≡ left'
      → recv_loop plist calls (enough plist calls (left ++ more)) dl e (left ++ more) ≡ r
      → recv_loop plist calls (enough plist calls (left' ++ more)) dl' e' (left' ++ more) ≡ r
  resume more p q s loop = rw (← p, ← q, ← s) loop

  joined_ok :
      (d r : Done plist calls) (more : List ℕ)
      → d.status ≡ success
      → joined plist calls more d r ≡ r
  joined_ok d r more ok = rw ok refl

  module _ (alloc : ℕ → Bool) (all : (n : ℕ) → alloc n ≡ true) where
    begun : (cb : Cb) (buf : List ℕ) → (begin_input alloc cb (some buf)).0 ≡ true
    unfolding begin_input
    begun cb buf = ground (arith, ensure_capacity_alloc alloc cb (length buf) all)

    ended : (cb : Cb) (buf : List ℕ) → (end_input alloc cb buf).0 ≡ true
    unfolding end_input
    ended cb buf = ground (arith, ensure_capacity_alloc alloc cb (length (window buf cb)) all)

    on_recv_lem :
        (cb : Cb) (dl : Dl) (e : E) (b : ℕ) (buf w : List ℕ) (done : Done plist calls)
        → (begin_input alloc cb (some (b ∷ buf))).0 ≡ true
        → window (b ∷ buf) (begin_input alloc cb (some (b ∷ buf))).1 ≡ w
        → recv_loop plist calls (enough plist calls w) dl e w ≡ some done
        → let last =
            end_input alloc
              (advance (length w - length done.left) (begin_input alloc cb (some (b ∷ buf))).1)
              (b ∷ buf) in
          last.0 ≡ true
          → on_recv plist calls alloc cb dl e (some (b ∷ buf))
            ≡ record { input = last.1; dl = done.dl; outside = done.outside; status = done.status }
    unfolding on_recv
    on_recv_lem cb dl e b buf w done start win loop end =
        rw (start, win, loop, win, end, on_recv) refl

    -- `dl_on_recv` on bytes that came, with an allocator that does not fail and below the limit of a
    -- `size_t`: the loop over the packets runs on the bytes kept from before followed by those that came,
    -- and has a result. The listener, the outside and the status are those of the loop, the buffer is
    -- valid again, and the bytes that it keeps are those that the loop has left.
    pub on_recv-Agrees :
        (cb : Cb) (dl : Dl) (e : E) (b : ℕ) (buf : List ℕ)
        → IsValid cb
        → cb.tail + length (b ∷ buf) < 2 ^ 64
        → let w = pending cb ++ (b ∷ buf) in
          (done : Done plist calls) × (recv_loop plist calls (enough plist calls w) dl e w
            ≡ some done)
          × Agrees done (on_recv plist calls alloc cb dl e (some (b ∷ buf)))
    on_recv-Agrees cb dl e b buf v small =
        let w = pending cb ++ (b ∷ buf) in
        let (done, loop) = recv_loop-ends plist calls (enough plist calls w) dl e w (omega arith) in
        let n = length w - length done.left in
        let start = begun cb (b ∷ buf) in
        let end = ended (advance n (begin_input alloc cb (some (b ∷ buf))).1) (b ∷ buf) in
        let (win, valid, left) = input_cycle alloc cb (b ∷ buf) n v small (omega arith) start end in
        let same = on_recv_lem cb dl e b buf w done start win loop end in
        (
          done,
          loop,
          rw same (record {
            dl = refl;
            outside = refl;
            status = refl;
            valid = valid;
            left =
                left
                ∙ taken_rest done.left w (loop-IsSuffix (enough plist calls w) dl e w done loop);
          }),
        )

    -- Two calls of `dl_on_recv`, the first of which is a success, give what one loop over all the bytes
    -- gives: those kept from before, those of the first call and those of the second. So no packet
    -- depends on how the stream was cut into reads. The allocator does not fail, and the buffer stays
    -- below the limit of a `size_t`.
    pub on_recv-on_recv :
        (cb : Cb) (dl : Dl) (e : E) (b : ℕ) (buf : List ℕ) (c : ℕ) (more : List ℕ)
        → IsValid cb
        → cb.tail + length (b ∷ buf) < 2 ^ 64
        → let first = on_recv plist calls alloc cb dl e (some (b ∷ buf)) in
          first.status ≡ success
          → first.input.tail + length (c ∷ more) < 2 ^ 64
          → let w = (pending cb ++ (b ∷ buf)) ++ (c ∷ more) in
            (done : Done plist calls) × (recv_loop plist calls (enough plist calls w) dl e w
              ≡ some done)
            × Agrees done
                (on_recv plist calls alloc first.input first.dl first.outside (some (c ∷ more)))
    on_recv-on_recv cb dl e b buf c more v small ok small' =
        let first = on_recv plist calls alloc cb dl e (some (b ∷ buf)) in
        let (d, loop, a) = on_recv-Agrees cb dl e b buf v small in
        let (r, loop', a') =
          on_recv-Agrees first.input first.dl first.outside c more a.valid small' in
        let resumed : recv_loop plist calls (enough plist calls (d.left ++ (c ∷ more))) d.dl
              d.outside (d.left ++ (c ∷ more))
            ≡ some r =
          resume (c ∷ more) a.dl a.outside a.left loop' in
        let whole =
          recv_loop-append plist calls dl e (pending cb ++ (b ∷ buf)) (c ∷ more) d r loop resumed in
        (r, whole ∙ ap some (joined_ok d r (c ∷ more) (sym a.status ∙ ok)), a')
