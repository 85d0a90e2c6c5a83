-- ===== src/Tests/Blocked.antt =====
-- `sm_send` and `sm_resend` of src/socket_manager.c on a socket that takes three bytes and blocks then.
use bootstrap_agency_templat.Prelude.{
  ℕ, ◌≡◌, ◌≢◌, refl, sym, true, false, none, List, [], ◌∷◌, ◌++◌, append-nil, length, ltb,
  Bool-cases, inl, inr,
}
use bootstrap_agency_templat.SocketManager
use bootstrap_agency_templat.SocketManager.{Io, sent, would_block, broken, Sm, Outside, success}
use bootstrap_agency_templat.SocketManager.Send
use bootstrap_agency_templat.SocketManager.Send.{transmit, send}
use bootstrap_agency_templat.SocketManager.Resend.{resend}
use bootstrap_agency_templat.SocketManager.Order
use bootstrap_agency_templat.SocketManager.Order.{Delivers}
use bootstrap_agency_templat.SocketManager.Fifo.{queued, send-queued, resend-queued}

-- the bytes on the wire are the state
abbrev take_byte : ℕ → List ℕ → List ℕ → List ℕ × Io
take_byte fd [] e = (e, would_block)
take_byte fd (b ∷ bytes) e = elim (ltb (length e) 3) [
  | true ↦ (e ++ (b ∷ []), sent 1)
  | false ↦ (e, would_block)
]

abbrev pub out : Outside ℕ ℕ (List ℕ)
out = record {
  send = take_byte;
  ssl_write = λ ssl. take_byte 0;
  on_sent = λ fd value bytes e. e;
  on_close = λ sm fd value is_server e. (sm, e, success);
  close = λ fd e. e;
}

abbrev pub wire : List ℕ → List ℕ
wire e = e

take_byte-arrives :
    (bytes e : List ℕ) → (take_byte 4 bytes e).0 ≡ e ++ Order.arrived (take_byte 4 bytes e).1 bytes
take_byte-arrives [] e = sym (append-nil e)
take_byte-arrives (b ∷ bytes) e = elim (Bool-cases (ltb (length e) 3)) [
  | inl t ↦ rw (t, take_byte) refl
  | inr t ↦ rw (t, take_byte) (sym (append-nil e))
]

take_byte-works : (bytes e : List ℕ) → (take_byte 4 bytes e).1 ≢ broken
take_byte-works [] e = λ p. absurd (cc p)
take_byte-works (b ∷ bytes) e = elim (Bool-cases (ltb (length e) 3)) [
  | inl t ↦ rw (t, take_byte) (λ p. absurd (cc p))
  | inr t ↦ rw (t, take_byte) (λ p. absurd (cc p))
]

abbrev pub idle : Sm ℕ ℕ
idle = SocketManager.new

abbrev pub five : List ℕ
five = 1 ∷ 2 ∷ 3 ∷ 4 ∷ 5 ∷ []

abbrev pub after : Send.Sent ℕ ℕ (List ℕ)
after = send out idle 4 five none []

send-queued_example : wire after.outside ++ queued 4 after.sm ≡ ([] ++ queued 4 idle) ++ five
unfolding SocketManager.new send Send.send_loop SocketManager.chain
send-queued_example =
    send-queued out wire (λ fd value bytes e. refl) idle 4 five none []
      (record { arrives = take_byte-arrives }) refl

resend-queued_example :
    let r = resend out after.sm 4 [] in wire r.1 ++ queued 4 r.0 ≡ [] ++ queued 4 after.sm
unfolding SocketManager.new send Send.send_loop SocketManager.chain Send.enqueue Send.block_reader
resend-queued_example =
    resend-queued out wire (λ fd value bytes e. refl) after.sm 4 []
      (record { arrives = take_byte-arrives }) (λ b bytes e. take_byte-works (b ∷ bytes) e)
