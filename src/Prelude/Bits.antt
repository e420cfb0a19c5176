-- ===== src/Prelude/Bits.antt =====
-- Masks, shifts and exclusive or on one byte as arithmetic: each law is a table that is checked by
-- evaluation over all bytes.
use Prim.Native.Nat.{ℕ, zero, suc, ◌+◌, ◌*◌, ◌/◌, ◌%◌, ◌<◌, bit_and, bit_or, bit_xor}
use mathlib.Core.Path.{◌≡◌, refl}
use mathlib.Core.Bool.{Bool, true, ◌&&◌}
use native.Mathlib.Omega.{arith}
use haiku_mgmt_agent.Prelude.Tests.{◌==◌, ==_iff}

-- The test passes on every number below the bound.
unfoldable pub holds_below : (test : ℕ → Bool) (bound : ℕ) → Bool
holds_below test zero = true
holds_below test (suc bound) = holds_below test bound && test bound

holds_below-lt :
    (test : ℕ → Bool) (bound i : ℕ) → i < bound → holds_below test bound ≡ true → test i ≡ true
unfolding holds_below
holds_below-lt test zero i inside passes = absurd (omega (arith, inside))
holds_below-lt test (suc bound) i inside passes =
    ground (arith, passes, inside, holds_below-lt test bound i)

-- Two functions that agree at every number below `n`.
pub agree_below :
    (f g : ℕ → ℕ) (n : ℕ) → holds_below (λ x. f x == g x) n ≡ true → (x : ℕ) → x < n → f x ≡ g x
agree_below f g n h x lt = (==_iff _ _).0 (holds_below-lt (λ x. f x == g x) n x lt h)

pub and_low4 : (b : ℕ) → b < 256 → bit_and b 0x0F ≡ b % 16
unfolding holds_below
and_low4 = agree_below _ _ 256 refl

pub and_low7 : (b : ℕ) → b < 256 → bit_and b 0x7F ≡ b % 128
unfolding holds_below
and_low7 = agree_below _ _ 256 refl

pub and_top : (b : ℕ) → b < 256 → bit_and b 0x80 ≡ b / 128 * 128
unfolding holds_below
and_top = agree_below _ _ 256 refl

pub and_reserved : (b : ℕ) → b < 256 → bit_and b 0x70 ≡ b / 16 % 8 * 16
unfolding holds_below
and_reserved = agree_below _ _ 256 refl

pub or_top : (b : ℕ) → b < 128 → bit_or 0x80 b ≡ 128 + b
unfolding holds_below
or_top = agree_below _ _ 128 refl

xor_table : holds_below (λ k. holds_below (λ b. bit_xor (bit_xor b k) k == b) 256) 256 ≡ true
unfolding holds_below
xor_table = refl

xor_range : holds_below (λ k. holds_below (λ b. bit_xor b k / 256 == 0) 256) 256 ≡ true
unfolding holds_below
xor_range = refl

-- Masking a byte twice with one key byte gives the byte back.
pub xor_twice : (b k : ℕ) → b < 256 → k < 256 → bit_xor (bit_xor b k) k ≡ b
xor_twice b k hb hk = (==_iff _ _).0 (
    holds_below-lt _ 256 b hb (
      holds_below-lt (λ k. holds_below (λ b. bit_xor (bit_xor b k) k == b) 256) 256 k hk xor_table))

pub xor-lt : (b k : ℕ) → b < 256 → k < 256 → bit_xor b k < 256
xor-lt b k hb hk = omega (
  arith,
  (==_iff _ _).0 (
      holds_below-lt _ 256 b hb
        (holds_below-lt (λ k. holds_below (λ b. bit_xor b k / 256 == 0) 256) 256 k hk xor_range)),
)
