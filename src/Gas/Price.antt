-- ===== src/Gas/Price.antt =====
-- The price of a unit of gas: tip and effective price, of execution/src/gas.rs.
use op_move.Base.{ℕ, ◌+◌, ◌≤◌, ◌<◌, ◌≡◌, arith, min}
use op_move.Base.U256.{modulus}
use op_move.Transaction.Types.{NormalizedEthTransaction}
use op_move.Gas.{tip_per_gas, effective_gas_price}

-- A transaction whose fee cap covers the base fee pays base fee plus tip: the price does not wrap,
-- lies between the base fee and the cap, and is the smaller of the cap and base fee plus priority
-- fee.
pub effective_gas_price_bounds :
    (tx : NormalizedEthTransaction) (base_fee : ℕ)
    → tx.max_fee_per_gas < modulus
    → base_fee ≤ tx.max_fee_per_gas
    → (effective_gas_price tx base_fee ≡ tip_per_gas tx base_fee + base_fee)
      × (base_fee ≤ effective_gas_price tx base_fee)
      × (effective_gas_price tx base_fee ≤ tx.max_fee_per_gas)
      × (effective_gas_price tx base_fee
          ≡ min tx.max_fee_per_gas (base_fee + tx.max_priority_fee_per_gas))
unfolding effective_gas_price
effective_gas_price_bounds tx base_fee h k = ground arith

-- A cap below the base fee is not refused: the tip is zero and the price is the base fee, above the
-- cap.
pub effective_gas_price_uncovered :
    (tx : NormalizedEthTransaction) (base_fee : ℕ)
    → base_fee < modulus
    → tx.max_fee_per_gas < base_fee
    → (tip_per_gas tx base_fee ≡ 0)
      × (effective_gas_price tx base_fee ≡ base_fee)
      × (tx.max_fee_per_gas < effective_gas_price tx base_fee)
unfolding effective_gas_price
effective_gas_price_uncovered tx base_fee h k = ground arith
