-- ===== src/WebSocket/Bytes.antt =====
-- The bytes of a frame of src/websocket.c one field at a time: the mask, the lengths and the flags.
use bootstrap_agency_templat.Prelude.{
  ℕ, zero, suc, ◌+◌, ◌*◌, ◌/◌, ◌%◌, ◌^◌, ◌≤◌, ◌<◌, ◌≡◌, refl, sym, ap, ap₂, ◌∙◌, ◌⊎◌, inl, inr,
  Bool, true, false, List, [], ◌∷◌, ◌++◌, arith, ◌==◌, if◌then◌else◌, length, get_or, bit_xor_twice,
  bit_xor-bits,
}
use Prim.Native.Nat.{bit_xor}
use native.Mathlib.Nat.{div-div-eq-div-mul, div-le_self, pow-suc}
use bootstrap_agency_templat.WebSocket.{top_bit, reserved_bits, low_nibble, low_seven}
use bootstrap_agency_templat.WebSocket.Frame.{
  length_bytes, length_code, write_length, apply_mask, flag, extra_bytes, read_length, any_nonzero,
}

decide : (a : ℕ) → (a ≡ 0) ⊎ (0 < a)
decide zero = inl refl
decide (suc a) = inr (omega arith)

bit_xor_zero_fuel : (n a : ℕ) → a ≤ n → bit_xor a 0 ≡ a
bit_xor_zero_fuel zero zero h = refl
bit_xor_zero_fuel zero (suc a) h = absurd (omega arith)
bit_xor_zero_fuel (suc n) a h = elim (decide a) [
  | inl z ↦ ap (λ k. bit_xor k 0) z ∙ sym z
  | inr h' ↦ omega (arith, bit_xor-bits a 0, bit_xor_zero_fuel n (a / 2) (omega arith))
]

bit_xor_zero : (a : ℕ) → bit_xor a 0 ≡ a
bit_xor_zero a = bit_xor_zero_fuel a a (omega arith)

pub apply_mask-twice :
    (mask : List ℕ) (o : ℕ) (s : List ℕ) → apply_mask mask o (apply_mask mask o s) ≡ s
unfolding apply_mask
apply_mask-twice mask o [] = refl
apply_mask-twice mask o (ch ∷ s) =
    ap₂ (λ x xs. x ∷ xs) (bit_xor_twice ch (get_or mask (o % 4) 0))
      (apply_mask-twice mask ((o + 1) % 2 ^ 32) s)

get_or-zeros : (m : List ℕ) (i : ℕ) → any_nonzero m ≡ false → get_or m i 0 ≡ 0
unfolding any_nonzero
get_or-zeros [] i e = refl
get_or-zeros (b ∷ m) zero e = ground arith
get_or-zeros (b ∷ m) (suc i) e = get_or-zeros m i (ground arith)

-- A mask of zeros changes nothing.
pub apply_mask-zeros :
    (m : List ℕ) (o : ℕ) (s : List ℕ) → any_nonzero m ≡ false → apply_mask m o s ≡ s
unfolding apply_mask
apply_mask-zeros m o [] e = refl
apply_mask-zeros m o (ch ∷ s) e =
    ap₂ (λ x xs. x ∷ xs) (ap (bit_xor ch) (get_or-zeros m (o % 4) e) ∙ bit_xor_zero ch)
      (apply_mask-zeros m ((o + 1) % 2 ^ 32) s e)

pub length-apply_mask :
    (mask : List ℕ) (o : ℕ) (s : List ℕ) → length (apply_mask mask o s) ≡ length s
unfolding apply_mask
length-apply_mask mask o [] = refl
length-apply_mask mask o (ch ∷ s) = ap suc (length-apply_mask mask ((o + 1) % 2 ^ 32) s)

pub length-write_length : (j n : ℕ) → length (write_length j n) ≡ j
unfolding write_length
length-write_length zero n = refl
length-write_length (suc j) n = ap suc (length-write_length j n)

byte : (m : ℕ) → 2 ^ m * 256 ≡ 2 ^ (suc (suc (suc (suc (suc (suc (suc (suc m))))))))
byte m = omega (
  arith,
  pow-suc 2 m,
  pow-suc 2 (suc m),
  pow-suc 2 (suc (suc m)),
  pow-suc 2 (suc (suc (suc m))),
  pow-suc 2 (suc (suc (suc (suc m)))),
  pow-suc 2 (suc (suc (suc (suc (suc m))))),
  pow-suc 2 (suc (suc (suc (suc (suc (suc m)))))),
  pow-suc 2 (suc (suc (suc (suc (suc (suc (suc m))))))),
)

-- One more digit in base 256.
digit : (j n : ℕ) → n / 2 ^ (8 * suc j) ≡ n / 2 ^ (8 * j) / 256
digit j n = sym (
    div-div-eq-div-mul n (2 ^ (8 * j)) 256
    ∙ ap (λ p. n / p) (byte (8 * j) ∙ ap (λ k. 2 ^ k) (omega arith)))

pub read-write_length :
    (j n : ℕ) (rest : List ℕ)
    → j ≤ 8
    → n < 2 ^ 64
    → read_length j (write_length j n ++ rest) (n / 2 ^ (8 * j)) ≡ n
unfolding read_length write_length
read-write_length zero n rest h k = omega arith
read-write_length (suc j) n rest h k =
    let step : n / 2 ^ (8 * suc j) * 256 % 2 ^ 64 + n / 2 ^ (8 * j) % 256 ≡ n / 2 ^ (8 * j) =
      omega (arith, digit j n, div-le_self n (2 ^ (8 * j))) in
    ap (read_length j (write_length j n ++ rest)) step ∙ read-write_length j n rest (omega arith) k

-- A head byte as it is read: a flag above seven bits.
pub top_bit-flag : (f : Bool) (x : ℕ) → x < 128 → top_bit (flag f + x) ≡ f
top_bit-flag true x h = ground arith
top_bit-flag false x h = ground arith

pub low_seven-flag : (f : Bool) (x : ℕ) → x < 128 → low_seven (flag f + x) ≡ x
low_seven-flag true x h = omega arith
low_seven-flag false x h = omega arith

pub low_nibble-flag : (f : Bool) (x : ℕ) → x < 16 → low_nibble (flag f + x) ≡ x
low_nibble-flag true x h = omega arith
low_nibble-flag false x h = omega arith

pub reserved_bits-flag : (f : Bool) (x : ℕ) → x < 16 → reserved_bits (flag f + x) ≡ 0
reserved_bits-flag true x h = omega arith
reserved_bits-flag false x h = omega arith

pub length_code_bound : (n : ℕ) → length_code n < 128
unfolding length_code length_bytes
length_code_bound n = ground arith

pub extra_bytes-code : (n : ℕ) → extra_bytes (length_code n) ≡ length_bytes n
unfolding length_code length_bytes extra_bytes
extra_bytes-code n = ground arith

-- The three widths of a length.
pub length_bytes-cases :
    (n : ℕ)
    → (length_bytes n ≡ 0 × length_code n ≡ n)
      ⊎ ((length_bytes n ≡ 2 × n < 2 ^ 16) ⊎ (length_bytes n ≡ 8))
unfolding length_bytes length_code
length_bytes-cases n = ground arith

read_width :
    (j n : ℕ) (rest : List ℕ)
    → j ≤ 8
    → n < 2 ^ 64
    → n / 2 ^ (8 * j) ≡ 0
    → read_length j (write_length j n ++ rest) 0 ≡ n
read_width j n rest h k e =
    ap (read_length j (write_length j n ++ rest)) (sym e) ∙ read-write_length j n rest h k

-- The length that the two fields hold together.
pub read-length_code :
    (n : ℕ) (rest : List ℕ)
    → n < 2 ^ 64
    → (if length_bytes n == 0
        then length_code n
        else read_length (length_bytes n) (write_length (length_bytes n) n ++ rest) 0)
      ≡ n
read-length_code n rest h = elim (length_bytes-cases n) [
  | inl (e, code) ↦ rw (e, code)
  | inr (inl (e, small)) ↦ rw e (read_width 2 n rest (omega arith) h (omega arith))
  | inr (inr e) ↦ rw e (read_width 8 n rest (omega arith) h (omega arith))
]

pub length_bytes_bound : (n : ℕ) → length_bytes n ≤ 8
unfolding length_bytes
length_bytes_bound n = ground arith
