-- ===== src/Gas/Charges.antt =====
-- The layer-2 charge of execution/src/gas.rs where it does not saturate.
use native.Mathlib.Nat.{mul-zero, le_refl}
use op_move.Base.{ℕ, zero, suc, ◌+◌, ◌-◌, ◌*◌, ◌≤◌, ◌≡◌, ap, arith}
use op_move.Base.U256.{max_value, clamp, mul_mono}
use op_move.Gas.{L2GasFeeInput, l2_fee}

abbrev pub l2_input : ℕ → ℕ → L2GasFeeInput
l2_input gas price = record { gas_limit = gas; effective_gas_price = price }

clamp_small : (hi a : ℕ) → a ≤ hi → clamp hi a ≡ a
clamp_small hi a h = ground arith

clamp_mul : (hi a m : ℕ) → a * m ≤ hi → clamp hi (clamp hi a * m) ≡ a * m
clamp_mul hi a zero h = simp mul-zero (clamp_small hi 0 (omega arith))
clamp_mul hi a (suc m) h =
    let small : a ≤ hi = grind arith in
    let kept : clamp hi a ≡ a = clamp_small hi a small in rw kept (clamp_small hi (a * suc m) h)

pub l2_fee_exact :
    (multiplier price gas : ℕ)
    → price * gas * multiplier ≤ max_value
    → l2_fee multiplier (l2_input gas price) ≡ price * gas * multiplier
unfolding l2_fee
l2_fee_exact multiplier price gas h = clamp_mul max_value (price * gas) multiplier h

unused_product :
    (multiplier price used rest : ℕ)
    → price * (used + rest) * multiplier ≡ price * rest * multiplier + price * used * multiplier
unused_product multiplier price used rest = grind arith

-- The part of the charge for the gas limit that is for the gas not used.
pub l2_fee-unused :
    (multiplier price used limit : ℕ)
    → used ≤ limit
    → price * limit * multiplier ≤ max_value
    → l2_fee multiplier (l2_input limit price) - l2_fee multiplier (l2_input used price)
      ≡ price * (limit - used) * multiplier
l2_fee-unused multiplier price used limit h small =
    let split : used + (limit - used) ≡ limit = omega arith in
    let product = ap (λ n. price * n * multiplier) split in
    let less : price * used * multiplier ≤ price * limit * multiplier =
      mul_mono _ _ multiplier multiplier (mul_mono price price used limit (le_refl _) h)
        (le_refl _) in
    omega (
      arith,
      less,
      small,
      product,
      unused_product multiplier price used (limit - used),
      l2_fee_exact multiplier price limit small,
      l2_fee_exact multiplier price used (omega (arith, less, small)),
    )
