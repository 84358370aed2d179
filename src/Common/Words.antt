-- ===== src/Common/Words.antt =====
-- Words of 64 bits (`std::size_t`, `std::uintptr_t`, `std::uintmax_t`, pointers) as native numbers.
use Prim.Native.Nat.{ℕ, ◌+◌, ◌-◌, ◌%◌, ◌^◌, ◌≤◌, ◌<◌}
use mathlib.Core.Path.{◌≡◌}
use native.Mathlib.Omega.{arith}

abbrev pub IsByte : ℕ → Type 0
IsByte b = b < 256

abbrev pub IsU32 : ℕ → Type 0
IsU32 v = v < 2 ^ 32

abbrev pub IsU64 : ℕ → Type 0
IsU64 v = v < 2 ^ 64

infixl 65 ◌+64◌ ◌-64◌
-- a + b and a - b on words; `-` on ℕ is truncated, so the modulus is added first.
abbrev pub ◌+64◌ : ℕ → ℕ → ℕ
a +64 b = (a + b) % 2 ^ 64

abbrev pub ◌-64◌ : ℕ → ℕ → ℕ
a -64 b = (a + 2 ^ 64 - b) % 2 ^ 64

pub sub64_le : (a b : ℕ) → b ≤ a → a < 2 ^ 64 → a -64 b ≡ a - b
sub64_le a b h k = omega arith

-- The wrapped difference is far above any size once the subtrahend is larger.
pub sub64_wraps : (a b : ℕ) → a < b → b < 2 ^ 64 → a -64 b ≡ 2 ^ 64 - (b - a)
sub64_wraps a b h k = omega arith

pub add64_small : (a b : ℕ) → a + b < 2 ^ 64 → a +64 b ≡ a + b
add64_small a b h = omega arith
