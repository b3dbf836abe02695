-- ===== src/Prelude/Words.antt =====
-- `uint64_t` and `unsigned` arithmetic: native numbers with the wrap-around written out.
use Prim.Native.Nat.{ℕ, ◌+◌, ◌-◌, ◌%◌, ◌^◌, ◌<◌, ◌≤◌}
use mathlib.Core.Path.{◌≡◌}
use native.Mathlib.Omega.{arith}

-- uint64_t a + b.
unfoldable pub add64 : ℕ → ℕ → ℕ
add64 a b = (a + b) % 2 ^ 64

-- uint64_t a - b.
unfoldable pub sub64 : ℕ → ℕ → ℕ
sub64 a b = (a + 2 ^ 64 - b) % 2 ^ 64

-- static_cast<unsigned>(a).
unfoldable pub to_u32 : ℕ → ℕ
to_u32 a = a % 2 ^ 32

pub add64-eq : (a b : ℕ) → a + b < 2 ^ 64 → add64 a b ≡ a + b
unfolding add64
add64-eq a b h = omega arith

pub add64-lt : (a b : ℕ) → add64 a b < 2 ^ 64
unfolding add64
add64-lt a b = omega arith

pub sub64-eq : (a b : ℕ) → b ≤ a → a < 2 ^ 64 → sub64 a b ≡ a - b
unfolding sub64
sub64-eq a b h k = omega arith

pub sub64-lt : (a b : ℕ) → sub64 a b < 2 ^ 64
unfolding sub64
sub64-lt a b = omega arith

pub to_u32-eq : (a : ℕ) → a < 2 ^ 32 → to_u32 a ≡ a
unfolding to_u32
to_u32-eq a h = omega arith
