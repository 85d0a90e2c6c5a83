-- ===== src/WebInspector/Pipe.antt =====
-- `wi_send_plist` straight into `wi_recv_packet` of src/webinspector.c: a message arrives whole.
use bootstrap_agency_templat.Prelude.{
  ℕ, zero, suc, ◌+◌, ◌^◌, ◌≤◌, ◌<◌, ◌≡◌, refl, ap, ◌∙◌, inl, inr, Bool, true, false, Option, none,
  some, List, [], ◌++◌, append_assoc, arith, ltb, ltb→lt, Bool-cases, length, take, drop,
  length-take, length-drop, take-append-drop, take_all,
}
use bootstrap_agency_templat.CharBuffer.Memory.{IsValid, pending}
use bootstrap_agency_templat.WebInspector.{
  max_rpc_len, Status, Wi, Plist, length_prefix, parse_length, Sent, Received, packet_data,
  send_loop, receive_part, part_of, parse_plist, deliver, recv_packet, send_plist,
}
use bootstrap_agency_templat.WebInspector.{success, error}
use bootstrap_agency_templat.WebInspector.Reassembly.{
  Wraps, grow, grow-Grown, kept_part, whole, final_part, parse-length_prefix,
}

-- One packet of the loop that is not refused, by whether more follow.
module _ {N S : Type 0} (plist : Plist N) (alloc : ℕ → Bool) (send_packet : List ℕ → S → S × Status)
    (all : (n : ℕ) → alloc n ≡ true) (fuel : ℕ) (rest : List ℕ) (s s' : S) where
  send_more :
      ltb max_rpc_len (length rest) ≡ true
      → (w : Wraps plist true (take max_rpc_len rest))
      → send_packet (length_prefix (length w.text) ++ w.text) s ≡ (s', success)
      → send_loop plist alloc (suc fuel) true send_packet rest s
        ≡ send_loop plist alloc fuel true send_packet (drop max_rpc_len rest) s'
  unfolding send_loop packet_data
  send_more long w p =
      rw (long, w.written, all (length w.text + 4), p, long, p, send_loop, packet_data) refl

  send_final :
      (status : Status)
      → ltb max_rpc_len (length rest) ≡ false
      → (w : Wraps plist false rest)
      → send_packet (length_prefix (length w.text) ++ w.text) s ≡ (s', status)
      → send_loop plist alloc (suc fuel) true send_packet rest s
        ≡ some (record { outside = s'; status = status })
  unfolding send_loop packet_data
  send_final success long w p =
      rw (long, w.written, all (length w.text + 4), p, long, p, send_loop, packet_data) refl
  send_final error long w p =
      rw (long, w.written, all (length w.text + 4), p, p, send_loop, packet_data) refl

module _ {N E : Type 0} (plist : Plist N) (alloc : ℕ → Bool) (recv_plist : N → E → E × Status) where
  -- the sender's callback hands each packet to a receiver
  abbrev pub pipe : List ℕ → Wi × E → (Wi × E) × Status
  pipe packet (wi, e) =
      let r = recv_packet plist alloc recv_plist wi e packet in ((r.wi, r.outside), r.status)

  part-Wraps :
      (is_partial : Bool) (part : List ℕ) (w : Wraps plist is_partial part)
      → part_of plist alloc w.dict ≡ some (is_partial, w.node)
  unfolding part_of
  part-Wraps true part w = rw (w.other refl, w.item, part_of) refl
  part-Wraps false part w = rw (w.item, part_of) refl

  parse_lem :
      (wi : Wi) (text : List ℕ) (dict : N) (is_partial : Bool) (node : N) (rpc : List ℕ)
      → wi.partials_supported ≡ true
      → plist.from_bin text ≡ some dict
      → part_of plist alloc dict ≡ some (is_partial, node)
      → plist.data_val node ≡ some rpc
      → parse_plist plist alloc wi text ≡ receive_part plist alloc wi is_partial rpc
  unfolding parse_plist
  parse_lem wi text dict is_partial node rpc on r p v = simp (on, r, p, v, parse_plist) refl

  parse-Wraps :
      (wi : Wi) (is_partial : Bool) (part : List ℕ)
      → wi.partials_supported ≡ true
      → (w : Wraps plist is_partial part)
      → parse_plist plist alloc wi w.text ≡ receive_part plist alloc wi is_partial part
  parse-Wraps wi is_partial part on w =
      parse_lem wi w.text w.dict is_partial w.node part on w.read (part-Wraps is_partial part w)
        w.value

  recv_lem :
      (wi : Wi) (e : E) (n : ℕ) (packet : List ℕ)
      → parse_length packet ≡ some n
      → recv_packet plist alloc recv_plist wi e packet
        ≡ deliver plist alloc recv_plist e (parse_plist plist alloc wi (take n (drop 4 packet)))
  unfolding recv_packet
  recv_lem wi e n packet p = rw (p, recv_packet) refl

  body_lem :
      (text : List ℕ) → take (length text) (drop 4 (length_prefix (length text) ++ text)) ≡ text
  unfolding length_prefix
  body_lem text = take_all (length text) text (omega arith)

  recv-Wraps :
      (wi : Wi) (e : E) (is_partial : Bool) (part : List ℕ)
      → wi.partials_supported ≡ true
      → (w : Wraps plist is_partial part)
      → recv_packet plist alloc recv_plist wi e (length_prefix (length w.text) ++ w.text)
        ≡ deliver plist alloc recv_plist e (receive_part plist alloc wi is_partial part)
  unfolding recv_packet
  recv-Wraps wi e is_partial part on w =
      recv_lem wi e (length w.text) (length_prefix (length w.text) ++ w.text)
        (parse-length_prefix (length w.text) w.text w.short)
      ∙ ap (λ t. deliver plist alloc recv_plist e (parse_plist plist alloc wi t)) (body_lem w.text)
      ∙ ap (deliver plist alloc recv_plist e) (parse-Wraps wi is_partial part on w)

  deliver_whole :
      (e : E) (wi : Wi) (dict : N)
      → deliver plist alloc recv_plist e
          (record { wi = wi; dict = some dict; is_partial = false; status = success })
        ≡ record { wi = wi; outside = (recv_plist dict e).0; status = (recv_plist dict e).1 }
  unfolding deliver
  deliver_whole e wi dict = refl

  deliver_kept :
      (e : E) (wi : Wi)
      → deliver plist alloc recv_plist e
          (record { wi = wi; dict = none; is_partial = true; status = success })
        ≡ record { wi = wi; outside = e; status = success }
  unfolding deliver
  deliver_kept e wi = refl

  abbrev shown : Received E → (Wi × E) × Status
  shown r = ((r.wi, r.outside), r.status)

  -- The message has arrived: the callback was given it once, and nothing is kept.
  pub data Arrived (wi : Wi) (e : E) (dict : N) (r : Option (Sent (Wi × E))) : Type 0 where
    arrived :
        (wi' : Wi)
        → wi'.partials_supported ≡ true
        → IsValid wi'.partial
        → pending wi'.partial ≡ []
        → r
          ≡ some (record { outside = (wi', (recv_plist dict e).0); status = (recv_plist dict e).1 })
        → Arrived wi e dict r

  module _ (all : (n : ℕ) → alloc n ≡ true)
      (wraps : (is_partial : Bool) (part : List ℕ)
        → length part ≤ max_rpc_len
        → Wraps plist is_partial part) where
    arrives :
        (fuel : ℕ) (rest : List ℕ) (wi : Wi) (e : E) (dict : N)
        → length rest < fuel
        → wi.partials_supported ≡ true
        → IsValid wi.partial
        → (wi.partial).tail + length rest < 2 ^ 64
        → length (pending wi.partial ++ rest) < 2 ^ 32
        → plist.from_bin (pending wi.partial ++ rest) ≡ some dict
        → Arrived wi e dict (send_loop plist alloc fuel true pipe rest (wi, e))
    arrives zero rest wi e dict h on v small short given = absurd (omega arith)
    arrives (suc fuel) rest wi e dict h on v small short given =
        elim (Bool-cases (ltb max_rpc_len (length rest))) [
          | inr one ↦
              let w = wraps false rest (ground (arith, one)) in
              elim (final_part alloc all plist wi rest dict v small short given) [
                | whole wi' same v' nothing p ↦ arrived wi' (same ∙ on) v' nothing (
                    send_final plist alloc pipe all fuel rest (wi, e) (wi', (recv_plist dict e).0)
                      (recv_plist dict e).1 one w
                      (ap shown (
                        recv-Wraps wi e false rest on w
                        ∙ ap (deliver plist alloc recv_plist e) p
                        ∙ deliver_whole e wi' dict)))
              ]
          | inl more ↦
              let part = take max_rpc_len rest in
              let left = drop max_rpc_len rest in
              let w = wraps true part (omega (arith, length-take max_rpc_len rest)) in
              let sizes = length-take max_rpc_len rest in
              let sizes' = length-drop max_rpc_len rest in
              let long = ltb→lt max_rpc_len (length rest) more in
              let g = grow-Grown alloc all wi.partial part v (omega (arith, sizes)) in
              let wi' = record wi { partial = grow alloc all wi.partial part } in
              let joined : pending wi'.partial ++ left ≡ pending wi.partial ++ rest =
                ap (λ s. s ++ left) g.bytes
                ∙ append_assoc (pending wi.partial) part left
                ∙ ap (λ s. pending wi.partial ++ s) (take-append-drop max_rpc_len rest) in
              elim (arrives fuel left wi' e dict (omega (arith, sizes', long)) on g.valid
                (omega (arith, g.tail_bound, sizes, sizes', long)) (omega (arith, ap length joined))
                (ap plist.from_bin joined ∙ given)) [
                  | arrived wi'' on' v' nothing p ↦ arrived wi'' on' v' nothing (
                      send_more plist alloc pipe all fuel rest (wi, e) (wi', e) more w
                        (ap shown (
                          recv-Wraps wi e true part on w
                          ∙ ap (deliver plist alloc recv_plist e)
                              (kept_part alloc all plist wi part)
                          ∙ deliver_kept e wi'))
                      ∙ p)
                ]
        ]

    -- A message that `wi_send_plist` sends in parts to a receiver that has no part of another message
    -- arrives whole: the receiver calls `recv_plist` once, with what `plist_from_bin` makes of all the
    -- bytes of the message, the status is that of the callback, and no part is kept. The message has
    -- less than 2^32 bytes, the allocator does not fail, and libplist reads back the dictionaries of
    -- one key that it wrote.
    pub send_plist-Arrived :
        (rpc dict : N) (bytes : List ℕ) (wi : Wi) (e : E)
        → plist.to_bin rpc ≡ some bytes
        → plist.from_bin bytes ≡ some dict
        → length bytes < 2 ^ 32
        → wi.partials_supported ≡ true
        → IsValid wi.partial
        → pending wi.partial ≡ []
        → (wi.partial).tail + length bytes < 2 ^ 64
        → Arrived wi e dict (send_plist plist alloc true pipe rpc (wi, e))
    unfolding send_plist
    send_plist-Arrived rpc dict bytes wi e written read short on v nothing small =
        rw (written, send_plist)
          (arrives (suc (length bytes)) bytes wi e dict (omega arith) on v small
            (omega (arith, ap (λ k. length (k ++ bytes)) nothing))
            (ap (λ k. plist.from_bin (k ++ bytes)) nothing ∙ read))
