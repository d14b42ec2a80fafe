-- ===== src/Prelude/Words.antt =====
-- Rust's fixed-width arithmetic: `u32` sums wrap around at the width, `usize` has 64 bits.
use Prim.Native.Nat.{ℕ, ◌+◌, ◌-◌, ◌*◌, ◌%◌, ◌≤◌, ◌<◌}
use mathlib.Core.Path.{◌≡◌}
use mathlib.Core.Option.{Option, none, some}
use native.Mathlib.Omega.{arith}
use zag.Prelude.Tests.{ltb, if◌then◌else◌}

abbrev pub u32_mod : ℕ
u32_mod = 0x1_0000_0000

-- `value as u32`.
unfoldable pub as_u32 : ℕ → ℕ
as_u32 n = n % u32_mod

-- `a + b` on `u32`.
unfoldable pub u32_add : ℕ → ℕ → ℕ
u32_add a b = (a + b) % u32_mod

-- `a.checked_add(b)` on `u32`.
unfoldable pub u32_checked_add : ℕ → ℕ → Option ℕ
u32_checked_add a b = if ltb (a + b) u32_mod then some (a + b) else none

abbrev pub usize_mod : ℕ
usize_mod = 0x1_0000_0000_0000_0000

-- `a.saturating_add(b)`, `a.checked_add(b)` and `a.checked_mul(b)` on `usize`.
unfoldable pub saturating_add : ℕ → ℕ → ℕ
saturating_add a b = if ltb (a + b) usize_mod then a + b else usize_mod - 1

unfoldable pub checked_add : ℕ → ℕ → Option ℕ
checked_add a b = if ltb (a + b) usize_mod then some (a + b) else none

unfoldable pub checked_mul : ℕ → ℕ → Option ℕ
checked_mul a b = if ltb (a * b) usize_mod then some (a * b) else none

pub as_u32-eq_of_lt : (n : ℕ) → n < u32_mod → as_u32 n ≡ n
unfolding as_u32
as_u32-eq_of_lt n h = omega arith

pub u32_add-eq_of_lt : (a b : ℕ) → a + b < u32_mod → u32_add a b ≡ a + b
unfolding u32_add
u32_add-eq_of_lt a b h = omega arith

-- `a - b` on `u32`, for `b` below the modulus.
unfoldable pub u32_sub : ℕ → ℕ → ℕ
u32_sub a b = (a + u32_mod - b) % u32_mod

pub u32_sub-eq_of_le : (a b : ℕ) → b ≤ a → a < u32_mod → u32_sub a b ≡ a - b
unfolding u32_sub
u32_sub-eq_of_le a b h small = omega arith
