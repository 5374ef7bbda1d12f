-- ===== src/BaseFee/Monotone.antt =====
-- Which way the base fee moves with the gas that the parent used, and how far.
use native.Mathlib.Nat.{div-le_of_le-mul, le-div_iff_mul-le, le_refl, mul-div-le, mul-div_cancel}
use op_move.Base.{
  ap, ◌∙◌, ◌+◌, ℕ, zero, suc, ◌*◌, ◌/◌, ◌-◌, ◌≤◌, ◌<◌, ◌≡◌, some, arith, max, ltb, if◌then◌else◌,
}
use op_move.Base.U256.{max_value, saturating_add, saturating_sub, clamp_mono, mul_mono, clamp}
use op_move.BaseFee.{Eip1559GasFee, base_fee_per_gas}
use op_move.BaseFee.Bounds.{step_zero, IsValid, target, step, fee_after, fee_after_lem}

div_mono : (a b c : ℕ) → a ≤ b → a / c ≤ b / c
div_mono a b zero h = omega arith
div_mono a b (suc c) h = (le-div_iff_mul-le (omega arith)).1 (omega (arith, mul-div-le a (suc c)))

step_mono :
    (fee : Eip1559GasFee) (limit base d e : ℕ)
    → d ≤ e
    → step fee limit base d ≤ step fee limit base e
step_mono fee limit base d e h =
    div_mono _ _ _
      (div_mono _ _ _ (clamp_mono max_value _ _ (mul_mono base base d e (le_refl _) h)))

-- Below the target the step is at most the base fee over the denominator.
clamp_le_self : (hi a : ℕ) → clamp hi a ≤ a
clamp_le_self hi a = ground arith

step-le :
    (fee : Eip1559GasFee) (limit base d : ℕ)
    → d ≤ target fee limit
    → step fee limit base d ≤ base / fee.base_fee_max_change_denominator
step-le fee limit base d h = div_mono _ _ _ (
    div-le_of_le-mul (target fee limit) (
      omega (
        arith,
        mul_mono base base d (target fee limit) (le_refl _) h,
        clamp_le_self max_value (base * d),
      )))

-- The same formula over the four steps, which are in order.
fee_order :
    (base t used more up up' down down' : ℕ)
    → base ≤ max_value
    → used ≤ more
    → up ≤ up'
    → down' ≤ down
    → (if ltb t used then saturating_add base (max up 1) else saturating_sub base down)
      ≤ (if ltb t more then saturating_add base (max up' 1) else saturating_sub base down')
fee_order base t used more up up' down down' b h u d = ground arith

fee_after_mono :
    (fee : Eip1559GasFee) (limit base used more : ℕ)
    → base ≤ max_value
    → used ≤ more
    → fee_after fee limit base used ≤ fee_after fee limit base more
unfolding fee_after
fee_after_mono fee limit base used more b h =
    fee_order base (target fee limit) used more _ _ _ _ b h
      (step_mono fee limit base _ _ (omega arith)) (step_mono fee limit base _ _ (omega arith))

-- A parent that used more gas never has a lower base fee after it.
pub base_fee_per_gas_mono :
    (fee : Eip1559GasFee) (limit base used more : ℕ)
    → IsValid fee
    → 0 < target fee limit
    → base ≤ max_value
    → used ≤ more
    → (low high : ℕ) × (base_fee_per_gas fee limit used base ≡ some low)
      × (base_fee_per_gas fee limit more base ≡ some high)
      × (low ≤ high)
base_fee_per_gas_mono fee limit base used more v t b h = (
  fee_after fee limit base used,
  fee_after fee limit base more,
  fee_after_lem fee limit used base v t,
  fee_after_lem fee limit more base v t,
  fee_after_mono fee limit base used more b h,
)

above_target :
    (base t used up down : ℕ)
    → t < used
    → base < max_value
    → base < (if ltb t used then saturating_add base (max up 1) else saturating_sub base down)
above_target base t used up down h b = ground arith

below_target :
    (base t used up down quotient : ℕ)
    → used ≤ t
    → down ≤ quotient
    → base - quotient
      ≤ (if ltb t used then saturating_add base (max up 1) else saturating_sub base down)
below_target base t used up down quotient h d = ground arith

below_target_le :
    (base t used up down : ℕ)
    → used ≤ t
    → (if ltb t used then saturating_add base (max up 1) else saturating_sub base down) ≤ base
below_target_le base t used up down h = ground arith

-- Above the target the fee rises, unless it is the largest number already.
pub base_fee_per_gas_rises :
    (fee : Eip1559GasFee) (limit used base : ℕ)
    → IsValid fee
    → 0 < target fee limit
    → base < max_value
    → target fee limit < used
    → (new : ℕ) × (base_fee_per_gas fee limit used base ≡ some new) × (base < new)
unfolding fee_after
base_fee_per_gas_rises fee limit used base v t b h = (
  fee_after fee limit base used,
  fee_after_lem fee limit used base v t,
  above_target base (target fee limit) used _ _ h b,
)

-- At the target or below, the fee falls by one part in the denominator at most, and does not rise.
pub base_fee_per_gas_falls :
    (fee : Eip1559GasFee) (limit used base : ℕ)
    → IsValid fee
    → 0 < target fee limit
    → used ≤ target fee limit
    → (new : ℕ) × (base_fee_per_gas fee limit used base ≡ some new)
      × (base - base / fee.base_fee_max_change_denominator ≤ new)
      × (new ≤ base)
unfolding fee_after
base_fee_per_gas_falls fee limit used base v t h = (
  fee_after fee limit base used,
  fee_after_lem fee limit used base v t,
  below_target base (target fee limit) used _ _ _ h
      (step-le fee limit base (target fee limit - used) (omega arith)),
  below_target_le base (target fee limit) used _ _ h,
)

-- A distance as large as the target makes the whole step.
step-target :
    (fee : Eip1559GasFee) (limit base : ℕ)
    → 0 < target fee limit
    → base * target fee limit ≤ max_value
    → step fee limit base (target fee limit) ≡ base / fee.base_fee_max_change_denominator
step-target fee limit base t small =
    let exact : clamp max_value (base * target fee limit) ≡ base * target fee limit =
      ground arith in
    rw exact (ap (λ q. q / fee.base_fee_max_change_denominator) (mul-div_cancel base t))

at_target :
    (fee : Eip1559GasFee) (limit base : ℕ) → fee_after fee limit base (target fee limit) ≡ base
unfolding fee_after
at_target fee limit base =
    let none_left : target fee limit - target fee limit ≡ 0 = omega arith in
    let still : step fee limit base (target fee limit - target fee limit) ≡ 0 =
      ap (step fee limit base) none_left ∙ step_zero fee limit base in
    ground arith

nothing_used :
    (base t up down : ℕ)
    → (if ltb t 0 then saturating_add base (max up 1) else saturating_sub base down) ≡ base - down
nothing_used base t up down = ground arith

much_used :
    (base t up down : ℕ)
    → 0 < t
    → (if ltb t (t + t) then saturating_add base (max up 1) else saturating_sub base down)
      ≡ saturating_add base (max up 1)
much_used base t up down h = ground arith

at_none :
    (fee : Eip1559GasFee) (limit base : ℕ)
    → 0 < target fee limit
    → base * target fee limit ≤ max_value
    → fee_after fee limit base 0 ≡ base - base / fee.base_fee_max_change_denominator
unfolding fee_after
at_none fee limit base t small =
    let whole : target fee limit - 0 ≡ target fee limit = omega arith in
    nothing_used base (target fee limit) _ _
    ∙ ap (λ d. base - step fee limit base d) whole
    ∙ ap (λ q. base - q) (step-target fee limit base t small)

at_twice :
    (fee : Eip1559GasFee) (limit base : ℕ)
    → 0 < target fee limit
    → base * target fee limit ≤ max_value
    → fee_after fee limit base (target fee limit + target fee limit)
      ≡ saturating_add base (max (base / fee.base_fee_max_change_denominator) 1)
unfolding fee_after
at_twice fee limit base t small =
    let whole : (target fee limit + target fee limit) - target fee limit ≡ target fee limit =
      omega arith in
    much_used base (target fee limit) _ _ t
    ∙ ap (λ d. saturating_add base (max (step fee limit base d) 1)) whole
    ∙ ap (λ q. saturating_add base (max q 1)) (step-target fee limit base t small)

-- With valid parameters, a target above zero and a base fee below the largest number, whose product
-- with the target does not saturate: the base fee stays at the target, does not rise below it, and
-- rises above it. No gas at all takes one part in the denominator off, which is the most that the fee
-- falls, and gas of twice the target adds as much, at least one, up to the largest number.
pub base_fee_per_gas_sides :
    (fee : Eip1559GasFee) (limit base used more : ℕ)
    → IsValid fee
    → 0 < target fee limit
    → base < max_value
    → base * target fee limit ≤ max_value
    → used ≤ target fee limit
    → target fee limit < more
    → (low high : ℕ) × (base_fee_per_gas fee limit used base ≡ some low)
      × (base_fee_per_gas fee limit more base ≡ some high)
      × (base - base / fee.base_fee_max_change_denominator ≤ low)
      × (low ≤ base)
      × (base < high)
      × (base_fee_per_gas fee limit (target fee limit) base ≡ some base)
      × (base_fee_per_gas fee limit 0 base
          ≡ some (base - base / fee.base_fee_max_change_denominator))
      × (base_fee_per_gas fee limit (target fee limit + target fee limit) base
          ≡ some (saturating_add base (max (base / fee.base_fee_max_change_denominator) 1)))
base_fee_per_gas_sides fee limit base used more v t b small below above =
    let (low, at_low, floor, ceiling) = base_fee_per_gas_falls fee limit used base v t below in
    let (high, at_high, rises) = base_fee_per_gas_rises fee limit more base v t b above in
    (
      low,
      high,
      at_low,
      at_high,
      floor,
      ceiling,
      rises,
      fee_after_lem fee limit (target fee limit) base v t ∙ ap some (at_target fee limit base),
      fee_after_lem fee limit 0 base v t ∙ ap some (at_none fee limit base t small),
      fee_after_lem fee limit (target fee limit + target fee limit) base v t
          ∙ ap some (at_twice fee limit base t small),
    )
