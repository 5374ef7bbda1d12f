-- ===== src/BaseFee.antt =====
-- blockchain/src/block/gas.rs: the base fee of a block from its parent, after EIP-1559. `none` is a
-- panic: of the constructor's assertions, or of a division by zero.
pub mod Bounds
pub mod Monotone
use op_move.Base.Partial.{◌>>=◌}
use op_move.Base.{ℕ, ◌*◌, ◌/◌, ◌-◌, Option, none, some, ◌&&◌, max, ltb, ◌==◌, if◌then◌else◌}
use op_move.Base.U256.{saturating_mul, saturating_add, saturating_sub}
use Prim.Native.Nat.{compare, Ordering}

pub record Eip1559GasFee : Type 0 where
  pub elasticity_multiplier : ℕ
  pub base_fee_max_change_denominator : ℕ

-- `Eip1559GasFee::new`.
pub new : ℕ → ℕ → Option Eip1559GasFee
new elasticity_multiplier base_fee_max_change_denominator =
    if ltb 0 elasticity_multiplier && ltb 0 base_fee_max_change_denominator
    then some (record {
      elasticity_multiplier = elasticity_multiplier;
      base_fee_max_change_denominator = base_fee_max_change_denominator;
    })
    else none

-- Integer division, which panics at zero.
abbrev div : ℕ → ℕ → Option ℕ
div a b = if b == 0 then none else some (a / b)

-- `parent_base_fee * distance / gas_target / denominator`, of the gas distance from the target.
delta : Eip1559GasFee → ℕ → ℕ → ℕ → Option ℕ
delta fee parent_base_fee_per_gas distance gas_target = do
  per_target ← div (saturating_mul parent_base_fee_per_gas distance) gas_target
  div per_target fee.base_fee_max_change_denominator

unfoldable pub base_fee_per_gas : Eip1559GasFee → ℕ → ℕ → ℕ → Option ℕ
unfolding delta
base_fee_per_gas fee parent_gas_limit parent_gas_used parent_base_fee_per_gas = do
  gas_target ← div parent_gas_limit fee.elasticity_multiplier
  elim (compare parent_gas_used gas_target) [
    | Ordering.gt ↦ do
      d ← delta fee parent_base_fee_per_gas (parent_gas_used - gas_target) gas_target
      some (saturating_add parent_base_fee_per_gas (max d 1))
    | Ordering.lt ↦ do
      d ← delta fee parent_base_fee_per_gas (gas_target - parent_gas_used) gas_target
      some (saturating_sub parent_base_fee_per_gas d)
    | Ordering.eq ↦ some parent_base_fee_per_gas
  ]
