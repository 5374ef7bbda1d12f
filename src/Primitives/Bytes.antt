-- ===== src/Primitives/Bytes.antt =====
-- Account addresses as bytes: `ToEthAddress` and `ToMoveAddress`, and the numbers that bytes spell.
use op_move.Base.{
  ℕ, suc, ◌+◌, ◌*◌, ◌^◌, ◌<◌, ◌%◌, ◌≡◌, refl, ap, sym, ◌∙◌, [], ◌∷◌, ◌++◌, Bytes, Address,
  AccountAddress, arith, length, drop, replicate,
}
use op_move.Base.{◌↔◌}
use op_move.Base.U256.{mul_mono}
use mathlib.Core.Path.{subst}
use mathlib.Core.List.{append_cancel_right}
use native.Mathlib.Nat.{pow-suc, le_refl, mul-add-mod_self_right, mod-eq_of_lt}

-- `&self.as_slice()[12..]`, of an account address of 32 bytes.
unfoldable pub eth_bytes : Bytes → Bytes
eth_bytes account = drop 12 account

-- 12 zero bytes, then the 20 bytes of the address.
unfoldable pub move_bytes : Bytes → Bytes
move_bytes address = replicate 12 0 ++ address

-- The number that a list of bytes spells, big-endian.
unfoldable pub be_value : Bytes → ℕ
be_value [] = 0
be_value (b ∷ bs) = b * 256 ^ length bs + be_value bs

abbrev pub AreBytes : Bytes → Type 0
AreBytes [] = Unit
AreBytes (b ∷ bs) = (b < 256) × AreBytes bs

-- On numbers: the low 160 bits, and the same number.
abbrev pub to_eth_address : AccountAddress → Address
to_eth_address account = account % 2 ^ 160

abbrev pub to_move_address : Address → AccountAddress
to_move_address address = address

-- An Ethereum address comes back from the Move side as it was.
pub eth_bytes-move_bytes : (address : Bytes) → eth_bytes (move_bytes address) ≡ address
unfolding eth_bytes move_bytes
eth_bytes-move_bytes address = refl

pub be_value-move_bytes : (address : Bytes) → be_value (move_bytes address) ≡ be_value address
unfolding move_bytes be_value
be_value-move_bytes address = omega arith

pub be_value-lt : (bs : Bytes) → AreBytes bs → be_value bs < 256 ^ length bs
unfolding be_value
be_value-lt [] h = omega arith
be_value-lt (b ∷ bs) h =
    rw pow-suc
      (grind (arith, be_value-lt bs h.1, mul_mono (suc b) 256 (256 ^ length bs) _ h.0 (le_refl _)))

pow_length-append : (xs ys : Bytes) → 256 ^ length (xs ++ ys) ≡ 256 ^ length xs * 256 ^ length ys
pow_length-append [] ys = omega arith
pow_length-append (x ∷ xs) ys =
    rw (pow-suc 256 (length (xs ++ ys)), pow-suc 256 (length xs), pow_length-append xs ys)
      (omega arith)

pub be_value-append :
    (xs ys : Bytes) → be_value (xs ++ ys) ≡ be_value xs * 256 ^ length ys + be_value ys
unfolding be_value
be_value-append [] ys = omega arith
be_value-append (x ∷ xs) ys = rw (be_value-append xs ys, pow_length-append xs ys) (omega arith)

drop-length-append : (xs ys : Bytes) → drop (length xs) (xs ++ ys) ≡ ys
drop-length-append [] ys = refl
drop-length-append (x ∷ xs) ys = drop-length-append xs ys

-- On an account address of 32 bytes the Ethereum address is the number's low 160 bits.
pub be_value-eth_bytes :
    (high low : Bytes)
    → length high ≡ 12
    → length low ≡ 20
    → AreBytes low
    → be_value (eth_bytes (high ++ low)) ≡ to_eth_address (be_value (high ++ low))
unfolding eth_bytes
be_value-eth_bytes high low h l v =
    rw (← h, drop-length-append high low, be_value-append high low, l)
      (sym (
        mul-add-mod_self_right (be_value high) (256 ^ 20) (be_value low)
        ∙ mod-eq_of_lt (subst (λ n. be_value low < 256 ^ n) l (be_value-lt low v))))

-- The way back restores an account address exactly when its first 12 bytes are zero.
pub move_bytes-eth_bytes :
    (high low : Bytes)
    → length high ≡ 12
    → (move_bytes (eth_bytes (high ++ low)) ≡ high ++ low) ↔ (high ≡ replicate 12 0)
unfolding move_bytes eth_bytes
move_bytes-eth_bytes high low h =
    rw dropped (λ e. sym (append_cancel_right _ high low e), λ e. ap (λ t. t ++ low) (sym e))
  where
    dropped : drop 12 (high ++ low) ≡ low
    dropped = subst (λ n. drop n (high ++ low) ≡ low) h (drop-length-append high low)
