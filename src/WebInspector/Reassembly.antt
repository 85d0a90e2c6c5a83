-- ===== src/WebInspector/Reassembly.antt =====
-- Splitting and reassembly in src/webinspector.c: `wi_send_plist` straight into `wi_recv_packet`.
use bootstrap_agency_templat.Prelude.{
  ℕ, ◌+◌, ◌-◌, ◌*◌, ◌/◌, ◌%◌, ◌^◌, ◌≤◌, ◌<◌, ◌≡◌, refl, sym, ap, ◌∙◌, inl, inr, Bool, true, false,
  none, some, List, [], ◌++◌, arith, ◌==◌, if◌then◌else◌, Bool-cases, length, length-append,
  nil_of_length,
}
use bootstrap_agency_templat.CharBuffer
use bootstrap_agency_templat.CharBuffer.{Cb, memory, slice, ensure_capacity, append}
use bootstrap_agency_templat.CharBuffer.Memory.{length-slice, IsValid, pending}
use bootstrap_agency_templat.CharBuffer.Capacity.{
  ensure_capacity_alloc, tail-ensure_capacity, ensure_capacity-Ensures,
}
use bootstrap_agency_templat.CharBuffer.Stream.{append_lem}
use bootstrap_agency_templat.WebInspector.{
  max_body_length, Wi, Plist, partial_key, final_key, length_prefix, read_int, parse_length, Parsed,
  decoded, receive_part,
}
use bootstrap_agency_templat.WebInspector.{success}

-- The length in front of a packet is read back, if it is one that the receiver takes.
pub parse-length_prefix :
    (n : ℕ) (rest : List ℕ) → n ≤ max_body_length → parse_length (length_prefix n ++ rest) ≡ some n
unfolding parse_length length_prefix read_int
parse-length_prefix n rest h =
    let same : n / 2 ^ 24 % 256 % 256 * 2 ^ 24
          + n / 2 ^ 16 % 256 % 256 * 2 ^ 16
          + n / 2 ^ 8 % 256 % 256 * 2 ^ 8
          + n % 256 % 256
        ≡ n =
      omega arith in
    rw same (ground arith)

-- What libplist does with a dictionary of one key that the sender makes: its text is no longer than
-- the receiver takes, and reads back as a dictionary of that key and that data alone.
pub record Wraps {N : Type 0} (plist : Plist N) (is_partial : Bool) (part : List ℕ) : Type 0 where
  pub text : List ℕ
  pub written :
      plist.to_bin (plist.dict_of (if is_partial then partial_key else final_key) part) ≡ some text
  pub short : length text ≤ max_body_length
  pub dict : N
  pub read : plist.from_bin text ≡ some dict
  pub node : N
  pub other : is_partial ≡ true → plist.get_item dict final_key ≡ none
  pub item : plist.get_item dict (if is_partial then partial_key else final_key) ≡ some node
  pub value : plist.data_val node ≡ some part

-- A buffer after some bytes were put behind those that were pending.
pub record Grown (cb : Cb) (part : List ℕ) (cb' : Cb) : Type 0 where
  pub valid : IsValid cb'
  pub bytes : pending cb' ≡ pending cb ++ part
  pub tail_bound : cb'.tail ≤ cb.tail + length part

module _ (alloc : ℕ → Bool) (all : (n : ℕ) → alloc n ≡ true) where
  abbrev pub grow : Cb → List ℕ → Cb
  grow cb part = append (ensure_capacity alloc cb (length part)).1 part

  pub grow-Grown :
      (cb : Cb) (part : List ℕ)
      → IsValid cb
      → cb.tail + length part < 2 ^ 64
      → Grown cb part (grow cb part)
  unfolding append
  grow-Grown cb part v small =
      let room = (ensure_capacity alloc cb (length part)).1 in
      let (keeps, fits) = ensure_capacity-Ensures alloc cb (length part) v small in
      let (valid, bytes) =
        append_lem room part keeps.valid
          (fits (ensure_capacity_alloc alloc cb (length part) all)) in
      record {
        valid = valid;
        bytes = bytes ∙ ap (λ s. s ++ part) keeps.bytes;
        tail_bound = omega (arith, tail-ensure_capacity alloc cb (length part) v);
      }

  module _ {N : Type 0} (plist : Plist N) (wi : Wi) (part : List ℕ) where
    -- a part that is not the last
    pub kept_part : receive_part plist alloc wi true part ≡ record {
      wi = record wi { partial = grow wi.partial part };
      dict = none;
      is_partial = true;
      status = success;
    }
    unfolding receive_part
    kept_part = rw (ensure_capacity_alloc alloc wi.partial (length part) all, receive_part) refl

    -- the last part, where there are others, and where there are none
    last_part :
        ((wi.partial).tail - (wi.partial).head == 0) ≡ false
        → receive_part plist alloc wi false part
          ≡ decoded plist alloc
              (record wi { partial = CharBuffer.clear (grow wi.partial part) })
              (slice
                (grow wi.partial part).head
                (((wi.partial).tail - (wi.partial).head + length part) % 2 ^ 32)
                (memory (grow wi.partial part)))
    unfolding receive_part
    last_part ne =
        rw (ne, ensure_capacity_alloc alloc wi.partial (length part) all, receive_part) refl

    only_part :
        ((wi.partial).tail - (wi.partial).head == 0) ≡ true
        → receive_part plist alloc wi false part ≡ decoded plist alloc wi part
    unfolding receive_part
    only_part e = rw (e, receive_part) refl

    decoded_lem :
        (wi' : Wi) (bytes : List ℕ) (dict : N)
        → plist.from_bin bytes ≡ some dict
        → decoded plist alloc wi' bytes
          ≡ record { wi = wi'; dict = some dict; is_partial = false; status = success }
    unfolding decoded
    decoded_lem wi' bytes dict e = rw (e, decoded) refl

    -- the receiver after the last part
    pub data IsWhole (dict : N) (p : Parsed N) : Type 0 where
      whole :
          (wi' : Wi)
          → wi'.partials_supported ≡ wi.partials_supported
          → IsValid wi'.partial
          → pending wi'.partial ≡ []
          → p ≡ record { wi = wi'; dict = some dict; is_partial = false; status = success }
          → IsWhole dict p

    pub final_part :
        (dict : N)
        → IsValid wi.partial
        → (wi.partial).tail + length part < 2 ^ 64
        → length (pending wi.partial ++ part) < 2 ^ 32
        → plist.from_bin (pending wi.partial ++ part) ≡ some dict
        → IsWhole dict (receive_part plist alloc wi false part)
    unfolding CharBuffer.clear
    final_part dict v small short e =
        let kept = (wi.partial).tail - (wi.partial).head in
        let sized : length (pending wi.partial) ≡ kept =
          length-slice (wi.partial).head kept (memory wi.partial)
            (omega (arith, v.order, v.within)) in
        elim (Bool-cases (kept == 0)) [
          | inl z ↦
              let nothing : pending wi.partial ≡ [] =
                nil_of_length (pending wi.partial) (ground (arith, z, sized)) in
              whole wi refl v nothing (
                only_part z
                ∙ decoded_lem wi part dict (sym (ap (λ k. plist.from_bin (k ++ part)) nothing) ∙ e))
          | inr ne ↦
              let g = grow-Grown wi.partial part v small in
              let cb = grow wi.partial part in
              let long : length (pending cb) ≡ kept + length part =
                ap length g.bytes ∙ omega (arith, sized, length-append (pending wi.partial) part) in
              let spans : cb.tail - cb.head ≡ (kept + length part) % 2 ^ 32 = omega (
                arith,
                long,
                sized,
                short,
                length-append (pending wi.partial) part,
                length-slice cb.head (cb.tail - cb.head) (memory cb)
                    (omega (arith, g.valid.order, g.valid.within)),
              ) in
              whole (record wi { partial = CharBuffer.clear cb }) refl
                (record { order = omega arith; within = omega arith }) refl
                (last_part ne
                  ∙ ap (decoded plist alloc (record wi { partial = CharBuffer.clear cb }))
                      (sym (ap (λ k. slice cb.head k (memory cb)) spans) ∙ g.bytes)
                  ∙ decoded_lem (record wi { partial = CharBuffer.clear cb })
                      (pending wi.partial ++ part) dict e)
        ]
