-- ===== src/Prelude/Words.antt =====
-- `u64` (and `usize`, on the 64-bit targets of the program): a number below 2 ^ 64. The release
-- build wraps, and so do these operations.
use Prim.Native.Nat.{ℕ, ◌+◌, ◌-◌, ◌*◌, ◌%◌, ◌^◌, ◌<◌, ◌≤◌}
use mathlib.Core.Path.{◌≡◌}
use native.Mathlib.Omega.{arith}

abbrev pub u64_modulus : ℕ
u64_modulus = 2 ^ 64

abbrev pub add64 : ℕ → ℕ → ℕ
add64 a b = (a + b) % u64_modulus

abbrev pub sub64 : ℕ → ℕ → ℕ
sub64 a b = (a + u64_modulus - b) % u64_modulus

abbrev pub mul64 : ℕ → ℕ → ℕ
mul64 a b = a * b % u64_modulus

-- Without an overflow they are the operations on numbers.
pub add64-eq : (a b : ℕ) → a + b < 2 ^ 64 → add64 a b ≡ a + b
add64-eq a b h = omega arith

pub sub64-eq : (a b : ℕ) → b ≤ a → a < 2 ^ 64 → sub64 a b ≡ a - b
sub64-eq a b h k = omega arith
