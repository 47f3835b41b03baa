-- ===== src/Prelude/Bytes.antt =====
-- Masks on one byte, checked over all its values.
use Prim.Native.Nat.{ℕ, zero, suc, ◌%◌, ◌<◌, bit_and}
use mathlib.Core.Path.{◌≡◌, refl}
use mathlib.Core.Bool.{Bool, true, false, ◌&&◌}
use native.Mathlib.Omega.{arith}
use cubrid_go.Prelude.Tests.{ltb, ◌==◌}

abbrev same : Bool → Bool → Bool
same true b = b
same false true = false
same false false = true

same→eq : (a b : Bool) → same a b ≡ true → a ≡ b
same→eq a b h = ground arith

-- Two tests that give the same answer for every byte below a bound.
agree : (f g : ℕ → Bool) → ℕ → Bool
agree f g zero = true
agree f g (suc b) = same (f b) (g b) && agree f g b

agree-eq : (f g : ℕ → Bool) (bound b : ℕ) → b < bound → agree f g bound ≡ true → f b ≡ g b
unfolding agree
agree-eq f g zero b small tested = absurd (omega arith)
agree-eq f g (suc bound) b small tested = ground (arith, same→eq (f b) (g b), agree-eq f g bound b)

-- The high bit of a byte is clear exactly below 128.
pub high_bit_clear : (b : ℕ) → b < 256 → (bit_and b 0x80 == 0) ≡ ltb b 128
unfolding agree
high_bit_clear b h = agree-eq (λ b. bit_and b 0x80 == 0) (λ b. ltb b 128) 256 b h refl

pub low_six_bits : (b : ℕ) → b < 256 → bit_and b 0x3F ≡ b % 64
unfolding agree
low_six_bits b h =
    let e : (bit_and b 0x3F == b % 64) ≡ true =
      agree-eq (λ b. bit_and b 0x3F == b % 64) (λ b. true) 256 b h refl in
    ground arith
