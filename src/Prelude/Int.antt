-- ===== src/Prelude/Int.antt =====
-- Signed integers, for Go's int32 and int64 values that may be negative.
use Prim.Native.Nat.{ℕ, zero, suc, ◌-◌, ◌%◌, ◌^◌, ◌<◌}
use mathlib.Core.Path.{◌≡◌}
use mathlib.Core.Bool.{Bool, true, false}
use native.Mathlib.Omega.{arith}
use spinup.Prelude.Tests.{ltb, leb, if◌then◌else◌}

-- `negsuc n` is -(n + 1).
pub data ℤ : Type 0 where
  pos : ℕ → ℤ
  negsuc : ℕ → ℤ

-- `x <= 0`
abbrev pub non_positive : ℤ → Bool
non_positive (pos zero) = true
non_positive (pos (suc n)) = false
non_positive (negsuc n) = true

-- `x < 0`
abbrev pub negative : ℤ → Bool
negative (pos n) = false
negative (negsuc n) = true

-- `x <= y`
abbrev pub le_int : ℤ → ℤ → Bool
le_int (pos a) (pos b) = leb a b
le_int (pos a) (negsuc b) = false
le_int (negsuc a) (pos b) = true
le_int (negsuc a) (negsuc b) = leb b a

-- A 32-bit pattern read as a signed number.
signed32 : ℕ → ℤ
signed32 m = if ltb m (2 ^ 31) then pos m else negsuc (2 ^ 32 - 1 - m)

-- `int32(x)`: the lowest 32 bits.
unfoldable pub as_int32 : ℤ → ℤ
unfolding signed32
as_int32 (pos n) = signed32 (n % 2 ^ 32)
as_int32 (negsuc n) = signed32 (2 ^ 32 - 1 - n % 2 ^ 32)

pub as_int32_lem : (n : ℕ) → n < 2 ^ 31 → as_int32 (pos n) ≡ pos n
unfolding as_int32
as_int32_lem n h = ground arith
