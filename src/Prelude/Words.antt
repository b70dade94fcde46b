-- ===== src/Prelude/Words.antt =====
-- Unsigned machine integers as native numbers, with Rust's checked, saturating and wrapping forms.
use Prim.Native.Nat.{ℕ, zero, suc, ◌+◌, ◌-◌, ◌*◌, ◌^◌, ◌≤◌, ◌%◌, min}
use native.Mathlib.Omega.{arith}
use native.Mathlib.Numerals.{unary_clauses}
use mathlib.Core.Option.{Option, none, some}
use pubky_swap.Prelude.Tests.{leb, if◌then◌else◌}

abbrev pub u16_max : ℕ
u16_max = 65_535

abbrev pub u32_max : ℕ
u32_max = 4_294_967_295

abbrev pub u64_max : ℕ
u64_max = 18_446_744_073_709_551_615

-- `as u64` on a wider value.
abbrev pub as_u64 : ℕ → ℕ
as_u64 n = n % 18_446_744_073_709_551_616

-- `as u32` on a wider value, and unchecked `u32` arithmetic in a release build.
abbrev pub as_u32 : ℕ → ℕ
as_u32 n = n % 4_294_967_296

-- `checked_add`, `checked_mul` for the width whose largest value is `top`.
abbrev pub checked_add : ℕ → ℕ → ℕ → Option ℕ
checked_add top a b = if leb (a + b) top then some (a + b) else none

abbrev pub checked_mul : ℕ → ℕ → ℕ → Option ℕ
checked_mul top a b = if leb (a * b) top then some (a * b) else none

abbrev pub checked_sub : ℕ → ℕ → Option ℕ
checked_sub a b = if leb b a then some (a - b) else none

-- `saturating_add`, `saturating_mul`. `saturating_sub` is `-`.
abbrev pub saturating_add : ℕ → ℕ → ℕ → ℕ
saturating_add top a b = min top (a + b)

abbrev pub saturating_mul : ℕ → ℕ → ℕ → ℕ
saturating_mul top a b = min top (a * b)

pub pow_pos : (n : ℕ) → 1 ≤ 2 ^ n
pow_pos zero = omega arith
pow_pos (suc n) = simp unary_clauses (omega (arith, pow_pos n))
