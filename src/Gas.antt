-- ===== src/Gas.antt =====
-- execution/src/gas.rs: the tip and price of a transaction, the cost of publishing it to layer 1 by
-- the Ecotone formula, and the cost of its layer-2 gas. `U256` operators wrap; `none` is a panic.
pub mod Price
pub mod Ecotone
pub mod Charges
use op_move.Base.Partial.{◌>>=◌}
use op_move.Base.{
  ℕ, ◌+◌, ◌*◌, ◌/◌, ◌-◌, ◌≤◌, Option, none, some, List, Bytes, min, arith, leb, ◌==◌, if◌then◌else◌,
  unwrap_or, length, take, drop, count,
}
use op_move.Base.U256.{
  wrapping_add, wrapping_mul, wrapping_sub, saturating_mul, checked_sub, saturating_to_u64,
  saturating_to_u128,
}
use op_move.Primitives.{be_value}
use op_move.Transaction.Types.{
  NormalizedEthTransaction, NormalizedExtendedTxEnvelope, canonical, deposited_tx,
}
use op_move.Transaction.Normalize.{gas_limit}

-- What a transaction pays per unit of gas on top of the base fee.
unfoldable pub tip_per_gas : NormalizedEthTransaction → ℕ → ℕ
tip_per_gas tx base_fee =
    let extra_fee = unwrap_or (checked_sub tx.max_fee_per_gas base_fee) 0 in
    min tx.max_priority_fee_per_gas extra_fee

unfoldable pub effective_gas_price : NormalizedEthTransaction → ℕ → ℕ
unfolding tip_per_gas
effective_gas_price tx base_fee = wrapping_add (tip_per_gas tx base_fee) base_fee

-- The same of an envelope, where a deposit pays nothing (execution/src/transaction.rs).
unfoldable pub envelope_tip_per_gas : NormalizedExtendedTxEnvelope → ℕ → ℕ
envelope_tip_per_gas (deposited_tx tx) base_fee = 0
envelope_tip_per_gas (canonical tx) base_fee = tip_per_gas tx base_fee

unfoldable pub envelope_gas_limit : NormalizedExtendedTxEnvelope → ℕ
envelope_gas_limit (deposited_tx tx) = 0
envelope_gas_limit (canonical tx) = gas_limit tx

unfoldable pub envelope_effective_gas_price : NormalizedExtendedTxEnvelope → ℕ → ℕ
envelope_effective_gas_price (deposited_tx tx) base_fee = 0
envelope_effective_gas_price (canonical tx) base_fee = effective_gas_price tx base_fee

pub record L1GasFeeInput : Type 0 where
  pub zero_bytes : ℕ
  pub non_zero_bytes : ℕ

-- `From<T: AsRef<[u8]>> for L1GasFeeInput`.
unfoldable pub l1_input_of_bytes : Bytes → L1GasFeeInput
l1_input_of_bytes tx_data =
    let zero_bytes = count (λ v. v == 0) tx_data in
    record { zero_bytes = zero_bytes; non_zero_bytes = wrapping_sub (length tx_data) zero_bytes }

pub record L2GasFeeInput : Type 0 where
  pub gas_limit : ℕ
  pub effective_gas_price : ℕ

pub record EcotoneGasFee : Type 0 where
  pub base_fee : ℕ
  pub base_fee_scalar : ℕ
  pub blob_base_fee : ℕ
  pub blob_base_fee_scalar : ℕ

abbrev pub zero_byte_multiplier : ℕ
zero_byte_multiplier = 4

abbrev pub gas_price_multiplier : ℕ
gas_price_multiplier = 16

unfoldable pub tx_compressed_size : L1GasFeeInput → ℕ
tx_compressed_size input =
    wrapping_add (wrapping_mul input.zero_bytes zero_byte_multiplier)
      (wrapping_mul input.non_zero_bytes gas_price_multiplier)
    / gas_price_multiplier

unfoldable pub weighted_gas_price : EcotoneGasFee → ℕ
weighted_gas_price fee =
    wrapping_add (wrapping_mul (wrapping_mul gas_price_multiplier fee.base_fee_scalar) fee.base_fee)
      (wrapping_mul fee.blob_base_fee_scalar fee.blob_base_fee)

unfoldable pub l1_fee : EcotoneGasFee → L1GasFeeInput → ℕ
unfolding tx_compressed_size weighted_gas_price
l1_fee fee input = wrapping_mul (tx_compressed_size input) (weighted_gas_price fee)

-- `L1BlockInfo`; the fields that the program always leaves at `None` are not listed.
pub record L1BlockInfo : Type 0 where
  pub l1_gas_price : Option ℕ
  pub l1_fee : Option ℕ
  pub l1_base_fee_scalar : Option ℕ
  pub l1_blob_base_fee : Option ℕ
  pub l1_blob_base_fee_scalar : Option ℕ

unfoldable pub l1_block_info : EcotoneGasFee → L1GasFeeInput → Option L1BlockInfo
unfolding l1_fee
l1_block_info fee input = some (record {
  l1_gas_price = some (saturating_to_u128 fee.base_fee);
  l1_fee = some (saturating_to_u128 (l1_fee fee input));
  l1_base_fee_scalar = some (saturating_to_u128 fee.base_fee_scalar);
  l1_blob_base_fee = some (saturating_to_u128 fee.blob_base_fee);
  l1_blob_base_fee_scalar = some (saturating_to_u128 fee.blob_base_fee_scalar);
})

-- `&bytes[from..to]`, which panics beyond the end.
unfoldable pub slice : ℕ → ℕ → Bytes → Option Bytes
slice from to bytes =
    if leb to (length bytes) then some (take (to - from) (drop from bytes)) else none

-- `CreateEcotoneL1GasFee::for_deposit`, the parameters from the call data of the L1 attributes
-- deposit.
unfoldable pub for_deposit : Bytes → Option EcotoneGasFee
for_deposit bytes = do
  l1_base_fee ← slice 36 68 bytes
  l1_blob_base_fee ← slice 68 100 bytes
  l1_base_fee_scalar ← slice 4 8 bytes
  l1_blob_base_fee_scalar ← slice 8 12 bytes
  some (record {
    base_fee = be_value l1_base_fee;
    base_fee_scalar = be_value l1_base_fee_scalar;
    blob_base_fee = be_value l1_blob_base_fee;
    blob_base_fee_scalar = be_value l1_blob_base_fee_scalar;
  })

-- `MovedGasFee`, with its multiplier.
unfoldable pub l2_fee : ℕ → L2GasFeeInput → ℕ
l2_fee gas_fee_multiplier input =
    saturating_mul (saturating_mul input.effective_gas_price input.gas_limit) gas_fee_multiplier

abbrev pub default_l2_gas_multiplier : ℕ
default_l2_gas_multiplier = 1

-- `total_gas_used`, from the three saturating counters of the meter and the scaling factor of the
-- gas schedule.
pub record GasCounters : Type 0 where
  pub execution_gas_used : ℕ
  pub io_gas_used : ℕ
  pub storage_fee_used_in_gas_units : ℕ

abbrev saturating_add_u64 : ℕ → ℕ → ℕ
saturating_add_u64 a b = saturating_to_u64 (a + b)

unfoldable pub total_gas_used : GasCounters → ℕ → ℕ
total_gas_used g scaling_factor =
    saturating_add_u64 (saturating_add_u64 g.execution_gas_used g.io_gas_used)
      g.storage_fee_used_in_gas_units
    / scaling_factor
