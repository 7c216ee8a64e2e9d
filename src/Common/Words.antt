-- ===== src/Common/Words.antt =====
-- Machine integers. A uint32 is a number below 2 ^ 32. An int64 is its 64-bit pattern, a number
-- below 2 ^ 64, where a pattern from 2 ^ 63 on stands for a negative value.
use Prim.Native.Nat.{ℕ, ◌+◌, ◌-◌, ◌%◌, ◌^◌, ◌<◌}
use mathlib.Core.Path.{◌≡◌}
use mathlib.Core.Bool.{Bool, not}
use native.Mathlib.Omega.{arith}
use pbo.Common.Tests.{ltb}

abbrev pub max_u32 : ℕ
max_u32 = 2 ^ 32 - 1

-- uint32 addition wraps around.
abbrev pub add_u32 : ℕ → ℕ → ℕ
add_u32 a b = (a + b) % 2 ^ 32

-- int64 addition and subtraction wrap around.
abbrev pub add_i64 : ℕ → ℕ → ℕ
add_i64 a b = (a + b) % 2 ^ 64

abbrev pub sub_i64 : ℕ → ℕ → ℕ
sub_i64 a b = (a + 2 ^ 64 - b) % 2 ^ 64

-- The signed order of int64 patterns.
abbrev pub lt_i64 : ℕ → ℕ → Bool
lt_i64 a b = ltb ((a + 2 ^ 63) % 2 ^ 64) ((b + 2 ^ 63) % 2 ^ 64)

abbrev pub le_i64 : ℕ → ℕ → Bool
le_i64 a b = not (lt_i64 b a)

abbrev pub minus_one_i64 : ℕ
minus_one_i64 = 2 ^ 64 - 1

-- On values that are not negative the signed order is the order of numbers.
pub lt_i64-eq-ltb : (a b : ℕ) → a < 2 ^ 63 → b < 2 ^ 63 → lt_i64 a b ≡ ltb a b
lt_i64-eq-ltb a b ha hb = ground arith
