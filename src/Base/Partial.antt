-- ===== src/Base/Partial.antt =====
-- The `do` blocks over `Option`: a missing value, or a panic, ends the block.
use mathlib.Core.Path.{◌≡◌, refl}
use mathlib.Core.Option.{Option, none, some}

infixl 5 ◌>>=◌
abbrev pub ◌>>=◌ {ℓ κ} : {T : Type ℓ} {U : Type κ} → Option T → (T → Option U) → Option U
some value >>= next = next value
none >>= next = none

-- What is known when a block has a value: its first step had one, and so had the rest.
pub >>=-eq-some {ℓ κ} :
    {T : Type ℓ} {U : Type κ} (first : Option T) (next : T → Option U) {result : U}
    → (first >>= next) ≡ some result
    → (value : T) × (first ≡ some value) × (next value ≡ some result)
>>=-eq-some (some value) next done = (value, refl, done)
>>=-eq-some none next done = cc
