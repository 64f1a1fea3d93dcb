-- ===== src/Base/Int.antt =====
-- C's `int` as a type of integers: file descriptors, results and negated error numbers.
use Prim.Native.Nat.{ℕ, zero, suc, ◌-◌, ◌%◌, ◌^◌, ◌<◌}
use mathlib.Core.Path.{◌≡◌}
use mathlib.Core.Bool.{Bool, true, false}
use native.Mathlib.Omega.{arith}
use usvfs_fuse.Base.Tests.{ltb, if◌then◌else◌}

-- `negsuc n` is -(n + 1).
pub data ℤ : Type 0 where
  pos : ℕ → ℤ
  negsuc : ℕ → ℤ

-- `-e`
abbrev pub neg : ℕ → ℤ
neg zero = pos 0
neg (suc e) = negsuc e

-- `z < 0`
abbrev pub is_negative : ℤ → Bool
is_negative (pos n) = false
is_negative (negsuc n) = true

-- `z == -1`
abbrev pub is_minus_one : ℤ → Bool
is_minus_one (negsuc zero) = true
is_minus_one _ = false

-- `static_cast<int>` of a 64-bit unsigned number.
abbrev pub to_int : ℕ → ℤ
to_int n = let m = n % 2 ^ 32 in if ltb m (2 ^ 31) then pos m else negsuc (2 ^ 32 - 1 - m)

pub is_negative-neg : (e : ℕ) → 0 < e → is_negative (neg e) ≡ true
is_negative-neg zero h = absurd (omega arith)
is_negative-neg (suc e) h = ground arith
