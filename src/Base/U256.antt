-- ===== src/Base/U256.antt =====
-- Machine words as native numbers: the wrapping, checked and saturating operations on `U256`, and
-- the conversions between widths.
use Prim.Native.Nat.{ℕ, ◌+◌, ◌-◌, ◌*◌, ◌%◌, ◌^◌, ◌≤◌, ◌<◌}
use mathlib.Core.Option.{Option, none, some}
use mathlib.Core.Path.{◌≡◌}
use native.Mathlib.Nat.{mod-eq_of_lt}
use native.Mathlib.Omega.{arith}
use op_move.Base.Tests.{leb, if◌then◌else◌}

abbrev pub modulus : ℕ
modulus = 2 ^ 256

-- `U256::MAX`, `u64::MAX` and `u128::MAX`.
abbrev pub max_value : ℕ
max_value = 2 ^ 256 - 1

abbrev pub u64_max : ℕ
u64_max = 2 ^ 64 - 1

abbrev pub u128_max : ℕ
u128_max = 2 ^ 128 - 1

-- The operators `+` and `*` of `U256` wrap.
abbrev pub wrapping_add : ℕ → ℕ → ℕ
wrapping_add a b = (a + b) % modulus

abbrev pub wrapping_mul : ℕ → ℕ → ℕ
wrapping_mul a b = (a * b) % modulus

abbrev pub wrapping_sub : ℕ → ℕ → ℕ
wrapping_sub a b = (a + modulus - b) % modulus

-- A value above the bound `hi` is replaced by `hi`.
abbrev pub clamp : ℕ → ℕ → ℕ
clamp hi a = if leb a hi then a else hi

abbrev pub saturating_add : ℕ → ℕ → ℕ
saturating_add a b = clamp max_value (a + b)

abbrev pub saturating_mul : ℕ → ℕ → ℕ
saturating_mul a b = clamp max_value (a * b)

abbrev pub saturating_sub : ℕ → ℕ → ℕ
saturating_sub a b = a - b

abbrev pub checked_sub : ℕ → ℕ → Option ℕ
checked_sub a b = if leb b a then some (a - b) else none

abbrev pub saturating_to_u64 : ℕ → ℕ
saturating_to_u64 = clamp u64_max

abbrev pub saturating_to_u128 : ℕ → ℕ
saturating_to_u128 = clamp u128_max

pub clamp_mono : (hi a b : ℕ) → a ≤ b → clamp hi a ≤ clamp hi b
clamp_mono hi a b h = ground arith

pub clamp-le : (hi a : ℕ) → clamp hi a ≤ hi
clamp-le hi a = ground arith

pub mul_mono : (a b c d : ℕ) → a ≤ b → c ≤ d → a * c ≤ b * d
mul_mono a b c d h k = grind arith

pub wrapping_mul_lem : (a b : ℕ) → a * b < modulus → wrapping_mul a b ≡ a * b
wrapping_mul_lem a b h = mod-eq_of_lt h

pub wrapping_add_lem : (a b : ℕ) → a + b < modulus → wrapping_add a b ≡ a + b
wrapping_add_lem a b h = mod-eq_of_lt h
