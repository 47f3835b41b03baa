-- ===== src/Prelude/Int.antt =====
-- Signed integers over the native numbers, and two's complement at the widths of Go's integers.
use Prim.Native.Nat.{ℕ, suc, ◌+◌, ◌-◌, ◌%◌, ◌^◌, ◌<◌}
use mathlib.Core.Path.{◌≡◌}
use mathlib.Core.Bool.{Bool, true, false}
use native.Mathlib.Omega.{arith}
use cubrid_go.Prelude.Tests.{ltb, leb, if◌then◌else◌}

-- `negsuc n` is -(n + 1).
pub data ℤ : Type 0 where
  pos : ℕ → ℤ
  negsuc : ℕ → ℤ

abbrev pub pos_part : ℤ → ℕ
pos_part (pos n) = n
pos_part (negsuc n) = 0

abbrev pub neg_part : ℤ → ℕ
neg_part (pos n) = 0
neg_part (negsuc n) = suc n

abbrev pub sub_ℕ : ℕ → ℕ → ℤ
sub_ℕ a b = if leb b a then pos (a - b) else negsuc (b - a - 1)

infixl 65 ◌+ℤ◌ ◌-ℤ◌
unfoldable pub ◌+ℤ◌ : ℤ → ℤ → ℤ
a +ℤ b = sub_ℕ (pos_part a + pos_part b) (neg_part a + neg_part b)

unfoldable pub ◌-ℤ◌ : ℤ → ℤ → ℤ
a -ℤ b = sub_ℕ (pos_part a + neg_part b) (neg_part a + pos_part b)

abbrev pub ltb_ℤ : ℤ → ℤ → Bool
ltb_ℤ a b = ltb (pos_part a + neg_part b) (pos_part b + neg_part a)

abbrev pub is_negative : ℤ → Bool
is_negative (pos n) = false
is_negative (negsuc n) = true

abbrev pub is_positive : ℤ → Bool
is_positive (pos n) = ltb 0 n
is_positive (negsuc n) = false

-- The integers of `w + 1` bits: from -2 ^ w to 2 ^ w - 1.
abbrev pub Fits : ℕ → ℤ → Type 0
Fits w (pos n) = n < 2 ^ w
Fits w (negsuc n) = n < 2 ^ w

-- `uintW(v)`: the low bits of an integer.
abbrev pub wrap : ℕ → ℤ → ℕ
wrap w (pos n) = n % 2 ^ w
wrap w (negsuc n) = 2 ^ w - 1 - n % 2 ^ w

-- `intW(w)` of an unsigned word: the integer that the bit pattern stands for.
abbrev pub signed16 : ℕ → ℤ
signed16 u = if ltb u (2 ^ 15) then pos u else negsuc (2 ^ 16 - 1 - u)

abbrev pub signed32 : ℕ → ℤ
signed32 u = if ltb u (2 ^ 31) then pos u else negsuc (2 ^ 32 - 1 - u)

abbrev pub signed64 : ℕ → ℤ
signed64 u = if ltb u (2 ^ 63) then pos u else negsuc (2 ^ 64 - 1 - u)

pub signed16-wrap : (z : ℤ) → Fits 15 z → signed16 (wrap 16 z) ≡ z
signed16-wrap (pos n) h = ground arith
signed16-wrap (negsuc n) h = ground arith

pub signed32-wrap : (z : ℤ) → Fits 31 z → signed32 (wrap 32 z) ≡ z
signed32-wrap (pos n) h = ground arith
signed32-wrap (negsuc n) h = ground arith

pub signed64-wrap : (z : ℤ) → Fits 63 z → signed64 (wrap 64 z) ≡ z
signed64-wrap (pos n) h = ground arith
signed64-wrap (negsuc n) h = ground arith

pub wrap16-lt : (z : ℤ) → wrap 16 z < 2 ^ 16
wrap16-lt (pos n) = omega arith
wrap16-lt (negsuc n) = omega arith

pub wrap32-lt : (z : ℤ) → wrap 32 z < 2 ^ 32
wrap32-lt (pos n) = omega arith
wrap32-lt (negsuc n) = omega arith

pub wrap64-lt : (z : ℤ) → wrap 64 z < 2 ^ 64
wrap64-lt (pos n) = omega arith
wrap64-lt (negsuc n) = omega arith

pub wrap16-signed16 : (u : ℕ) → u < 2 ^ 16 → wrap 16 (signed16 u) ≡ u
wrap16-signed16 u h = ground arith

pub wrap32-signed32 : (u : ℕ) → u < 2 ^ 32 → wrap 32 (signed32 u) ≡ u
wrap32-signed32 u h = ground arith
