-- ===== src/BaseFee/Bounds.antt =====
-- When the base fee is defined, which way it moves, and by how much at most.
use native.Mathlib.Nat.{div-eq_of_lt, mul-zero, zero-div}
use op_move.Base.{ℕ, ◌/◌, ◌-◌, ◌<◌, ◌≡◌, none, some, arith, max, ltb, if◌then◌else◌}
use op_move.Base.U256.{saturating_add, saturating_mul, saturating_sub}
use op_move.BaseFee.{Eip1559GasFee, base_fee_per_gas}

-- What the constructor asserts.
pub record IsValid (fee : Eip1559GasFee) : Type 0 where
  pub elasticity : 0 < fee.elasticity_multiplier
  pub denominator : 0 < fee.base_fee_max_change_denominator

abbrev pub target : Eip1559GasFee → ℕ → ℕ
target fee limit = limit / fee.elasticity_multiplier

-- The size of the step at a gas distance from the target.
abbrev pub step : Eip1559GasFee → ℕ → ℕ → ℕ → ℕ
step fee limit base distance =
    saturating_mul base distance / target fee limit / fee.base_fee_max_change_denominator

-- The fee after a parent that used `used` gas: at least one more above the target, less a step below
-- it, and the same at it.
unfoldable pub fee_after : Eip1559GasFee → ℕ → ℕ → ℕ → ℕ
fee_after fee limit base used =
    if ltb (target fee limit) used
    then saturating_add base (max (step fee limit base (used - target fee limit)) 1)
    else saturating_sub base (step fee limit base (target fee limit - used))

pub step_zero : (fee : Eip1559GasFee) (limit base : ℕ) → step fee limit base 0 ≡ 0
step_zero fee limit base = simp (mul-zero, zero-div)

-- With valid parameters and a target above zero no division panics, and the fee is that of the
-- formula on either side of the target.
pub fee_after_lem :
    (fee : Eip1559GasFee) (limit used base : ℕ)
    → IsValid fee
    → 0 < target fee limit
    → base_fee_per_gas fee limit used base ≡ some (fee_after fee limit base used)
unfolding base_fee_per_gas fee_after
fee_after_lem fee limit used base v t = ground (arith, step_zero fee limit base)

-- A parent whose gas limit is below the elasticity multiplier has target zero, and then any gas
-- used makes the computation panic.
pub base_fee_per_gas_panics :
    (fee : Eip1559GasFee) (limit used base : ℕ)
    → limit < fee.elasticity_multiplier
    → 0 < used
    → base_fee_per_gas fee limit used base ≡ none
unfolding base_fee_per_gas
base_fee_per_gas_panics fee limit used base h u =
    let zero_target : limit / fee.elasticity_multiplier ≡ 0 = div-eq_of_lt h in ground arith
