-- ===== src/Prelude/Word.antt =====
-- Unsigned machine arithmetic of a fixed width: a value is a number, and each operation wraps.
use Prim.Native.Nat.{ℕ, ◌+◌, ◌-◌, ◌%◌, ◌^◌, ◌≤◌, ◌<◌}
use mathlib.Core.Path.{◌≡◌}
use native.Mathlib.Omega.{arith}

-- `std::numeric_limits<uint32_t>::max() + 1`, and the same for `uint16_t`.
abbrev pub mod_32 : ℕ
mod_32 = 2 ^ 32

abbrev pub mod_16 : ℕ
mod_16 = 2 ^ 16

abbrev pub add_32 : ℕ → ℕ → ℕ
add_32 a b = (a + b) % mod_32

abbrev pub sub_32 : ℕ → ℕ → ℕ
sub_32 a b = (a + mod_32 - b) % mod_32

abbrev pub add_16 : ℕ → ℕ → ℕ
add_16 a b = (a + b) % mod_16

abbrev pub sub_16 : ℕ → ℕ → ℕ
sub_16 a b = (a + mod_16 - b) % mod_16

pub add_32-exact : (a b : ℕ) → a + b < mod_32 → add_32 a b ≡ a + b
add_32-exact a b h = omega arith

pub sub_32-exact : (a b : ℕ) → b ≤ a → a < mod_32 → sub_32 a b ≡ a - b
sub_32-exact a b h k = omega arith

-- The same for `size_t`.
abbrev pub mod_64 : ℕ
mod_64 = 2 ^ 64

abbrev pub add_64 : ℕ → ℕ → ℕ
add_64 a b = (a + b) % mod_64

abbrev pub sub_64 : ℕ → ℕ → ℕ
sub_64 a b = (a + mod_64 - b) % mod_64
