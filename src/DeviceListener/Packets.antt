-- ===== src/DeviceListener/Packets.antt =====
-- The numbers of the packets of src/device_listener.c, written and read.
use bootstrap_agency_templat.Prelude.{
  ℕ, ◌^◌, ◌≤◌, ◌<◌, ◌≡◌, refl, List, [], ◌∷◌, ◌++◌, arith, length,
}
use bootstrap_agency_templat.DeviceListener.{write_bytes, sprintf_uint32, read_bytes, sscanf_uint32}

-- `dl_sscanf_uint32` reads back what `dl_sprintf_uint32` wrote, whatever follows, for every 32-bit
-- number; and what is written is 4 bytes.
pub sscanf-sprintf :
    (value : ℕ) (rest : List ℕ)
    → value < 2 ^ 32
    → (sscanf_uint32 (sprintf_uint32 value ++ rest) ≡ value) × (length (sprintf_uint32 value) ≡ 4)
unfolding sscanf_uint32 sprintf_uint32 read_bytes write_bytes
sscanf-sprintf value rest h = (omega arith, refl)

-- A number that is read is below 2^32.
pub sscanf-bound : (s : List ℕ) → sscanf_uint32 s < 2 ^ 32
unfolding sscanf_uint32 read_bytes
sscanf-bound [] = omega arith
sscanf-bound (a ∷ []) = omega arith
sscanf-bound (a ∷ b ∷ []) = omega arith
sscanf-bound (a ∷ b ∷ c ∷ []) = omega arith
sscanf-bound (a ∷ b ∷ c ∷ d ∷ s) = omega arith

-- Only the first four bytes count.
pub sscanf-append : (s t : List ℕ) → 4 ≤ length s → sscanf_uint32 (s ++ t) ≡ sscanf_uint32 s
unfolding sscanf_uint32 read_bytes
sscanf-append [] t h = absurd (omega arith)
sscanf-append (a ∷ []) t h = absurd (omega arith)
sscanf-append (a ∷ b ∷ []) t h = absurd (omega arith)
sscanf-append (a ∷ b ∷ c ∷ []) t h = absurd (omega arith)
sscanf-append (a ∷ b ∷ c ∷ d ∷ s) t h = refl
