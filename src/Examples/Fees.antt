-- ===== src/Examples/Fees.antt =====
-- The properties of gas, base fee and number conversion at concrete inputs.
use op_move.Base.{
  max, ◌-◌, ◌/◌, ◌<◌, ℕ, ◌≡◌, ◌≤◌, ◌+◌, some, none, Bytes, [], ◌∷◌, arith, min, replicate,
}
use op_move.Base.U256.{saturating_add}
use op_move.Transaction.Types.{TxKind, NormalizedEthTransaction}
use op_move.Gas.{L1GasFeeInput, EcotoneGasFee, tip_per_gas, effective_gas_price, l1_fee}
use op_move.Gas.Price.{effective_gas_price_bounds}
use op_move.Gas.Ecotone.{ecotone_spec, InRange, l1_fee-eq-spec}
use op_move.BaseFee.{Eip1559GasFee, base_fee_per_gas}
use op_move.BaseFee.Bounds.{IsValid, fee_after, fee_after_lem, base_fee_per_gas_panics}
use op_move.BaseFee.Monotone.{base_fee_per_gas_sides}

abbrev payment : NormalizedEthTransaction
payment = record {
  signer = 7;
  to = TxKind.call 9;
  nonce = 0;
  value = 5;
  input = [];
  chain_id = none;
  gas_limit = 21000;
  max_priority_fee_per_gas = 2;
  max_fee_per_gas = 10;
  access_list = [];
}

effective_gas_price_bounds_example :
    (effective_gas_price payment 9 ≡ tip_per_gas payment 9 + 9)
    × (9 ≤ effective_gas_price payment 9)
    × (effective_gas_price payment 9 ≤ payment.max_fee_per_gas)
    × (effective_gas_price payment 9
        ≡ min payment.max_fee_per_gas (9 + payment.max_priority_fee_per_gas))
effective_gas_price_bounds_example =
    effective_gas_price_bounds payment 9 (omega arith) (omega arith)

abbrev data_bytes : Bytes
data_bytes = 0 ∷ 1 ∷ 0 ∷ 255 ∷ []

abbrev ecotone_fee : EcotoneGasFee
ecotone_fee = record {
  base_fee = 1000;
  base_fee_scalar = 3;
  blob_base_fee = 20;
  blob_base_fee_scalar = 5;
}

abbrev bytes_count : L1GasFeeInput
bytes_count = record { zero_bytes = 40; non_zero_bytes = 60 }

in_range : InRange ecotone_fee bytes_count
in_range = record {
  base_fee = omega arith;
  blob_base_fee = omega arith;
  base_fee_scalar = omega arith;
  blob_base_fee_scalar = omega arith;
  zero_bytes = omega arith;
  non_zero_bytes = omega arith;
}

l1_fee-eq-spec_example : l1_fee ecotone_fee bytes_count ≡ ecotone_spec ecotone_fee bytes_count
l1_fee-eq-spec_example = l1_fee-eq-spec ecotone_fee bytes_count in_range

abbrev optimism_fee : Eip1559GasFee
optimism_fee = record { elasticity_multiplier = 6; base_fee_max_change_denominator = 250 }

optimism_fee-IsValid : IsValid optimism_fee
optimism_fee-IsValid = record { elasticity = omega arith; denominator = omega arith }

fee_after_lem_example :
    base_fee_per_gas optimism_fee 30000000 6000000 1000
    ≡ some (fee_after optimism_fee 30000000 1000 6000000)
fee_after_lem_example =
    fee_after_lem optimism_fee 30000000 6000000 1000 optimism_fee-IsValid (omega arith)

base_fee_per_gas_panics_example : base_fee_per_gas optimism_fee 5 1 1000 ≡ none
base_fee_per_gas_panics_example =
    base_fee_per_gas_panics optimism_fee 5 1 1000 (omega arith) (omega arith)

base_fee_per_gas_sides_example :
    (low high : ℕ) × (base_fee_per_gas optimism_fee 30000000 4000000 1000 ≡ some low)
    × (base_fee_per_gas optimism_fee 30000000 6000000 1000 ≡ some high)
    × (1000 - 1000 / 250 ≤ low)
    × (low ≤ 1000)
    × (1000 < high)
    × (base_fee_per_gas optimism_fee 30000000 5000000 1000 ≡ some 1000)
    × (base_fee_per_gas optimism_fee 30000000 0 1000 ≡ some (1000 - 1000 / 250))
    × (base_fee_per_gas optimism_fee 30000000 (5000000 + 5000000) 1000
        ≡ some (saturating_add 1000 (max (1000 / 250) 1)))
base_fee_per_gas_sides_example =
    base_fee_per_gas_sides optimism_fee 30000000 1000 4000000 6000000 optimism_fee-IsValid
      (omega arith) (omega arith) (omega arith) (omega arith) (omega arith)

abbrev account_tail : Bytes
account_tail = replicate 20 17

abbrev account_head : Bytes
account_head = replicate 12 0
