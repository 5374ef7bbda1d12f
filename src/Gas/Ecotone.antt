-- ===== src/Gas/Ecotone.antt =====
-- The Ecotone formula of execution/src/gas.rs: the size of the data, the parameters from the
-- attributes deposit, and the fee over the unbounded numbers.
use op_move.Base.{
  ℕ, ◌+◌, ◌*◌, ◌/◌, ◌-◌, ◌^◌, ◌≤◌, ◌<◌, ◌≡◌, refl, ◌∙◌, Bytes, none, some, arith, length, take,
  drop, Option-cases, Bool-cases, leb, leb→le, if◌then◌else◌, inl, inr, ◌==◌, count-le-length,
}
use op_move.Base.U256.{modulus, mul_mono, wrapping_mul, wrapping_mul_lem, wrapping_add_lem}
use mathlib.Core.Path.{ap₂}
use op_move.Primitives.{be_value}
use op_move.Gas.{
  L1GasFeeInput, EcotoneGasFee, l1_input_of_bytes, tx_compressed_size, weighted_gas_price, l1_fee,
  slice, for_deposit,
}

-- Zero and other bytes partition the data, for any data shorter than 2^256 bytes.
pub l1_input_of_bytes_total :
    (bytes : Bytes)
    → length bytes < modulus
    → (l1_input_of_bytes bytes).zero_bytes + (l1_input_of_bytes bytes).non_zero_bytes ≡ length bytes
unfolding l1_input_of_bytes
l1_input_of_bytes_total bytes h = omega (arith, count-le-length (λ v. v == 0) bytes)

slice-in_range :
    (from to : ℕ) (bytes : Bytes)
    → to ≤ length bytes
    → slice from to bytes ≡ some (take (to - from) (drop from bytes))
unfolding slice
slice-in_range from to bytes h = ground arith

slice-out_of_range : (from to : ℕ) (bytes : Bytes) → length bytes < to → slice from to bytes ≡ none
unfolding slice
slice-out_of_range from to bytes h = ground arith

for_deposit_short : (bytes : Bytes) → length bytes < 100 → for_deposit bytes ≡ none
unfolding for_deposit
for_deposit_short bytes h = elim (Option-cases (slice 36 68 bytes)) [
  | inl e ↦ rw e
  | inr (v, e) ↦ rw (e, slice-out_of_range 68 100 bytes h)
]

-- The parameters are there exactly when the data has at least 100 bytes, and are then the numbers
-- at their offsets; shorter data panics.
pub for_deposit_lem :
    (bytes : Bytes)
    → for_deposit bytes ≡ (
        if leb 100 (length bytes)
        then some (record {
          base_fee = be_value (take 32 (drop 36 bytes));
          base_fee_scalar = be_value (take 4 (drop 4 bytes));
          blob_base_fee = be_value (take 32 (drop 68 bytes));
          blob_base_fee_scalar = be_value (take 4 (drop 8 bytes));
        })
        else none)
unfolding for_deposit
for_deposit_lem bytes = elim (Bool-cases (leb 100 (length bytes))) [
  | inl long ↦
      let h : 100 ≤ length bytes = leb→le _ _ long in
      rw (
        long,
        slice-in_range 36 68 bytes (omega arith),
        slice-in_range 68 100 bytes (omega arith),
        slice-in_range 4 8 bytes (omega arith),
        slice-in_range 8 12 bytes (omega arith),
      )
  | inr short ↦ rw short (for_deposit_short bytes (ground arith))
]

-- The fee over the unbounded numbers: a zero byte weighs 4 and any other 16, in sixteenths that are
-- rounded down, at 16 times the scaled base fee plus the scaled blob base fee.
abbrev pub ecotone_spec : EcotoneGasFee → L1GasFeeInput → ℕ
ecotone_spec fee input =
    (input.zero_bytes * 4 + input.non_zero_bytes * 16)
    / 16
    * (16 * fee.base_fee_scalar * fee.base_fee + fee.blob_base_fee_scalar * fee.blob_base_fee)

-- Scalars are 32 bits wide; base fees of 128 bits and data below 2^64 bytes are beyond what a chain
-- can have.
pub record InRange (fee : EcotoneGasFee) (input : L1GasFeeInput) : Type 0 where
  pub base_fee : fee.base_fee < 2 ^ 128
  pub blob_base_fee : fee.blob_base_fee < 2 ^ 128
  pub base_fee_scalar : fee.base_fee_scalar < 2 ^ 32
  pub blob_base_fee_scalar : fee.blob_base_fee_scalar < 2 ^ 32
  pub zero_bytes : input.zero_bytes < 2 ^ 64
  pub non_zero_bytes : input.non_zero_bytes < 2 ^ 64

tx_compressed_size_lem :
    (fee : EcotoneGasFee) (input : L1GasFeeInput)
    → InRange fee input
    → (tx_compressed_size input ≡ (input.zero_bytes * 4 + input.non_zero_bytes * 16) / 16)
      × (tx_compressed_size input < 2 ^ 65)
unfolding tx_compressed_size
tx_compressed_size_lem fee input r = omega arith

weighted_gas_price_lem :
    (fee : EcotoneGasFee) (input : L1GasFeeInput)
    → InRange fee input
    → (weighted_gas_price fee
        ≡ 16 * fee.base_fee_scalar * fee.base_fee + fee.blob_base_fee_scalar * fee.blob_base_fee)
      × (weighted_gas_price fee < 2 ^ 165)
unfolding weighted_gas_price
weighted_gas_price_lem fee input r =
    let base : fee.base_fee_scalar * fee.base_fee ≤ (2 ^ 32 - 1) * (2 ^ 128 - 1) =
      mul_mono _ (2 ^ 32 - 1) _ (2 ^ 128 - 1) (omega arith) (omega arith) in
    let blob : fee.blob_base_fee_scalar * fee.blob_base_fee ≤ (2 ^ 32 - 1) * (2 ^ 128 - 1) =
      mul_mono _ (2 ^ 32 - 1) _ (2 ^ 128 - 1) (omega arith) (omega arith) in
    rw
      (
        wrapping_mul_lem 16 fee.base_fee_scalar (omega arith),
        wrapping_mul_lem (16 * fee.base_fee_scalar) fee.base_fee (omega arith),
        wrapping_mul_lem fee.blob_base_fee_scalar fee.blob_base_fee (omega arith),
        wrapping_add_lem (16 * fee.base_fee_scalar * fee.base_fee)
            (fee.blob_base_fee_scalar * fee.blob_base_fee) (omega arith),
      )
      (refl, omega arith)

l1_fee_lem :
    (fee : EcotoneGasFee) (input : L1GasFeeInput)
    → l1_fee fee input ≡ wrapping_mul (tx_compressed_size input) (weighted_gas_price fee)
unfolding l1_fee
l1_fee_lem fee input = refl

-- Within those ranges no product or sum of the formula wraps.
pub l1_fee-eq-spec :
    (fee : EcotoneGasFee) (input : L1GasFeeInput)
    → InRange fee input
    → l1_fee fee input ≡ ecotone_spec fee input
l1_fee-eq-spec fee input r =
    let (size, size_lt) = tx_compressed_size_lem fee input r in
    let (price, price_lt) = weighted_gas_price_lem fee input r in
    let product : tx_compressed_size input * weighted_gas_price fee ≤ 2 ^ 65 * 2 ^ 165 =
      mul_mono _ (2 ^ 65) _ (2 ^ 165) (omega arith) (omega arith) in
    l1_fee_lem fee input ∙ wrapping_mul_lem _ _ (omega arith) ∙ ap₂ ◌*◌ size price
