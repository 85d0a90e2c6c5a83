-- ===== src/Prelude/Bits.antt =====
-- `^` on bytes: undoing it, for numbers of every width.
use Prim.Native.Nat.{
  ℕ, zero, suc, ◌+◌, ◌*◌, ◌/◌, ◌%◌, ◌≤◌, ◌<◌, bit_xor, digits, bit_xor-bitwise, differ,
}
use mathlib.Core.Path.{◌≡◌, refl, ap}
use native.Mathlib.Omega.{arith}

-- More fuel than the number changes nothing.
more_fuel :
    (n m a b : ℕ) → a ≤ n → a ≤ m → digits (λ y. y) differ n a b ≡ digits (λ y. y) differ m a b
more_fuel zero zero a b h k = refl
more_fuel zero (suc m) zero b h k = refl
more_fuel zero (suc m) (suc a) b h k = absurd (omega arith)
more_fuel (suc n) zero zero b h k = refl
more_fuel (suc n) zero (suc a) b h k = absurd (omega arith)
more_fuel (suc n) (suc m) zero b h k = refl
more_fuel (suc n) (suc m) (suc a) b h k =
    omega (arith, more_fuel n m (suc a / 2) (b / 2) (omega arith) (omega arith))

-- The lowest digit and the rest.
pub bit_xor-halves : (a b : ℕ) → bit_xor a b ≡ bit_xor (a / 2) (b / 2) * 2 + differ (a % 2) (b % 2)
bit_xor-halves zero b = simp bit_xor-bitwise (omega arith)
bit_xor-halves (suc a) b =
    simp bit_xor-bitwise
      (omega (arith, more_fuel a (suc a / 2) (suc a / 2) (b / 2) (omega arith) (omega arith)))

differ_bit : (x y : ℕ) → x < 2 → y < 2 → differ x y ≡ (x + y) % 2
differ_bit zero y h k = omega arith
differ_bit (suc zero) zero h k = refl
differ_bit (suc zero) (suc zero) h k = refl
differ_bit (suc zero) (suc (suc y)) h k = absurd (omega arith)
differ_bit (suc (suc x)) y h k = absurd (omega arith)

pub bit_xor-bits : (a b : ℕ) → bit_xor a b ≡ bit_xor (a / 2) (b / 2) * 2 + (a % 2 + b % 2) % 2
bit_xor-bits a b =
    omega (arith, bit_xor-halves a b, differ_bit (a % 2) (b % 2) (omega arith) (omega arith))

xor_twice_fuel : (n a b : ℕ) → a ≤ n → b ≤ n → bit_xor (bit_xor a b) b ≡ a
xor_twice_fuel zero zero zero h k = refl
xor_twice_fuel zero zero (suc b) h k = absurd (omega arith)
xor_twice_fuel zero (suc a) b h k = absurd (omega arith)
xor_twice_fuel (suc n) a b h k =
    let half : bit_xor a b / 2 ≡ bit_xor (a / 2) (b / 2) = omega (arith, bit_xor-bits a b) in
    omega (
      arith,
      bit_xor-bits a b,
      bit_xor-bits (bit_xor a b) b,
      ap (λ t. bit_xor t (b / 2)) half,
      xor_twice_fuel n (a / 2) (b / 2) (omega arith) (omega arith),
    )

-- Applying a mask a second time takes it off.
pub bit_xor_twice : (a b : ℕ) → bit_xor (bit_xor a b) b ≡ a
bit_xor_twice a b = xor_twice_fuel (a + b) a b (omega arith) (omega arith)
