-- ===== src/Prelude/Int.antt =====
-- The C++ `int` as an integer: a sign and a magnitude, and the remainder that truncates to zero.
use Prim.Native.Nat.{ℕ, suc, ◌-◌, ◌%◌}
use mathlib.Core.Bool.{Bool}
use tails.Prelude.Tests.{◌==◌, if◌then◌else◌}

-- `negsuc n` is -(n + 1).
pub data ℤ : Type 0 where
  pos : ℕ → ℤ
  negsuc : ℕ → ℤ

abbrev pub magnitude : ℤ → ℕ
magnitude (pos n) = n
magnitude (negsuc n) = suc n

abbrev pub is_zero : ℤ → Bool
is_zero a = magnitude a == 0

-- -n
abbrev pub negated : ℕ → ℤ
negated n = if n == 0 then pos 0 else negsuc (n - 1)

-- `a % b`: the remainder has the sign of `a`.
abbrev pub rem : ℤ → ℤ → ℤ
rem (pos n) b = pos (n % magnitude b)
rem (negsuc n) b = negated (suc n % magnitude b)
