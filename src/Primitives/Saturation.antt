-- ===== src/Primitives/Saturation.antt =====
-- `ToU64` and `ToSaturatedU64`, by the 64-bit limbs of the wider type.
use op_move.Base.{ℕ, ◌*◌, ◌/◌, ◌%◌, ◌^◌, ◌<◌, ◌≡◌, Bool, ◌&&◌, arith, ◌==◌, if◌then◌else◌}
use op_move.Base.U256.{modulus, u64_max, saturating_to_u64}

-- `into_limbs()[i]`, little-endian.
abbrev pub limb : ℕ → ℕ → ℕ
limb i n = n / 2 ^ (64 * i) % 2 ^ 64

-- The pattern `[value, 0, 0, 0]`.
abbrev pub fits_limb : ℕ → Bool
fits_limb n = limb 1 n == 0 && (limb 2 n == 0 && limb 3 n == 0)

unfoldable pub to_saturated_u64 : ℕ → ℕ
to_saturated_u64 n = if fits_limb n then limb 0 n else u64_max

-- A `U64` has one limb.
unfoldable pub to_u64 : ℕ → ℕ
to_u64 n = limb 0 n

-- The limb pattern is saturation at the largest 64-bit value, on all of `U256`.
pub to_saturated_u64-eq-clamp : (n : ℕ) → n < modulus → to_saturated_u64 n ≡ saturating_to_u64 n
unfolding to_saturated_u64
to_saturated_u64-eq-clamp n h = ground arith
