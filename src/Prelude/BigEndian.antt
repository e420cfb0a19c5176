-- ===== src/Prelude/BigEndian.antt =====
-- Big-endian integers on the wire: the shift loops of websocket.cpp and mgs.cpp.
use Prim.Native.Nat.{ℕ, zero, suc, ◌+◌, ◌*◌, ◌/◌, ◌%◌, ◌^◌, ◌<◌}
use mathlib.Core.Path.{◌≡◌, refl}
use mathlib.Core.List.{[], ◌∷◌}
use native.Mathlib.Omega.{arith}
use haiku_mgmt_agent.Prelude.Lists.{length, All}
use haiku_mgmt_agent.Prelude.Text.{Bytes, IsByte}

-- `n` bytes of `v`, the highest first: `(v >> shift) & 0xFF` for shift = 8 * (n - 1), ..., 0.
unfoldable pub be_bytes : ℕ → ℕ → Bytes
be_bytes zero v = []
be_bytes (suc n) v = (v / 2 ^ (8 * n) % 256) ∷ be_bytes n v

-- The loop `v = (v << 8) | b` on a `w`-bit unsigned integer; the shifted value has a zero low byte,
-- so that the disjunction is a sum.
unfoldable pub be_value : ℕ → ℕ → Bytes → ℕ
be_value w v [] = v
be_value w v (b ∷ bs) = be_value w (v * 256 % 2 ^ w + b) bs

pub length-be_bytes : (n v : ℕ) → length (be_bytes n v) ≡ n
unfolding be_bytes
length-be_bytes zero v = refl
length-be_bytes (suc n) v = omega (arith, length-be_bytes n v)

pub be_bytes-IsByte : (n v : ℕ) → All IsByte (be_bytes n v)
unfolding be_bytes
be_bytes-IsByte zero v = tt
be_bytes-IsByte (suc n) v = (omega arith, be_bytes-IsByte n v)

pub be_value-be_bytes_16 : (v : ℕ) → v < 2 ^ 16 → be_value 64 0 (be_bytes 2 v) ≡ v
unfolding be_bytes be_value
be_value-be_bytes_16 v h = omega arith

pub be_value-be_bytes_32 : (v : ℕ) → v < 2 ^ 32 → be_value 32 0 (be_bytes 4 v) ≡ v
unfolding be_bytes be_value
be_value-be_bytes_32 v h = omega arith

pub be_value-be_bytes_64 : (v : ℕ) → v < 2 ^ 64 → be_value 64 0 (be_bytes 8 v) ≡ v
unfolding be_bytes be_value
be_value-be_bytes_64 v h = omega arith
