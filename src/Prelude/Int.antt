-- ===== src/Prelude/Int.antt =====
-- Signed integers over the native numbers, and `std::to_string` of one.
use Prim.Native.Nat.{ℕ, zero, suc}
use mathlib.Core.List.{◌∷◌}
use mathlib.Core.Bool.{Bool, true, false}
use cpp_redis.Prelude.Tests.{◌==◌}
use cpp_redis.Prelude.Text.{Bytes}
use cpp_redis.Prelude.Decimal.{to_string}

-- `negsuc n` is -(n + 1).
pub data ℤ : Type 0 where
  pos : ℕ → ℤ
  negsuc : ℕ → ℤ

-- -n
abbrev pub negate : ℕ → ℤ
negate zero = pos 0
negate (suc n) = negsuc n

abbrev pub is_negative : ℤ → Bool
is_negative (pos n) = false
is_negative (negsuc n) = true

-- The absolute value.
abbrev pub nat_abs : ℤ → ℕ
nat_abs (pos n) = n
nat_abs (negsuc n) = suc n

infix 50 ◌==ℤ◌
abbrev pub ◌==ℤ◌ : ℤ → ℤ → Bool
pos m ==ℤ pos n = m == n
pos m ==ℤ negsuc n = false
negsuc m ==ℤ pos n = false
negsuc m ==ℤ negsuc n = m == n

unfoldable pub int_to_string : ℤ → Bytes
int_to_string (pos n) = to_string n
int_to_string (negsuc n) = b'-' ∷ to_string (suc n)
