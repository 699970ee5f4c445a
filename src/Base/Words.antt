-- ===== src/Base/Words.antt =====
-- `uint32_t` arithmetic: a value is a natural number below 2 ^ 32, and each operation wraps.
-- An `int` that the program converts back to `uint32_t` is read as the same bit pattern.
use Prim.Native.Nat.{ℕ, ◌+◌, ◌-◌, ◌*◌, ◌%◌, ◌<◌}
use native.Mathlib.Omega.{arith}

abbrev pub u32_mod : ℕ
u32_mod = 4294967296

abbrev pub u32 : ℕ → ℕ
u32 n = n % u32_mod

abbrev pub add32 : ℕ → ℕ → ℕ
add32 a b = u32 (a + b)

abbrev pub sub32 : ℕ → ℕ → ℕ
sub32 a b = u32 (a + u32_mod - b)

abbrev pub mul32 : ℕ → ℕ → ℕ
mul32 a b = u32 (a * b)

pub add32-lt : (a b : ℕ) → add32 a b < u32_mod
add32-lt a b = omega arith
