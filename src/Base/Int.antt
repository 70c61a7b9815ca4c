-- ===== src/Base/Int.antt =====
-- Go's int64: an integer in range, its wrapping arithmetic, and its conversion to uint64.
use Prim.Native.Nat.{ℕ, zero, suc, ◌+◌, ◌-◌, ◌*◌, ◌/◌, ◌%◌, ◌^◌}
use mathlib.Core.Bool.{Bool, false}
use nvmeof_csi.Base.Tests.{◌==◌, nat_eq, ltb, if◌then◌else◌}

-- `negsuc n` is -(n + 1).
pub data ℤ : Type 0 where
  pos : ℕ → ℤ
  negsuc : ℕ → ℤ

abbrev pub is_zero : ℤ → Bool
is_zero (pos n) = n == 0
is_zero (negsuc n) = false

-- `uint64(z)`: two's complement
abbrev pub to_uint64 : ℤ → ℕ
to_uint64 (pos n) = n
to_uint64 (negsuc n) = 2 ^ 64 - 1 - n

-- The int64 with a bit pattern below 2 ^ 64.
abbrev pub to_int64 : ℕ → ℤ
to_int64 w = if ltb w (2 ^ 63) then pos w else negsuc (2 ^ 64 - 1 - w)

-- `a + b` and `a * b` on int64
abbrev pub add_int64 : ℤ → ℤ → ℤ
add_int64 a b = to_int64 ((to_uint64 a + to_uint64 b) % 2 ^ 64)

abbrev pub mul_int64 : ℤ → ℤ → ℤ
mul_int64 a b = to_int64 (to_uint64 a * to_uint64 b % 2 ^ 64)

abbrev pub negated : ℕ → ℤ
negated zero = pos 0
negated (suc n) = negsuc n

-- `z / d` for a positive constant, which Go truncates towards 0.
abbrev pub quotient : ℤ → ℕ → ℤ
quotient (pos n) d = pos (n / d)
quotient (negsuc n) d = negated ((n + 1) / d)
