-- ===== src/EvmExt/Words.antt =====
-- shared/src/primitives.rs: the conversions between 256-bit words and the integers of Move, which
-- read the bytes of a hash from its last to its first.
use op_move.Base.{ℕ, zero, suc, ◌+◌, ◌*◌, ◌/◌, ◌%◌, ◌^◌, ◌<◌, ◌≡◌, ◌∙◌, B256, arith}
use native.Mathlib.Nat.{pow-suc, le_refl, mul_comm}
use op_move.Base.U256.{mul_mono}

-- The number with its last `n` bytes in the opposite order.
pub swap_bytes : ℕ → ℕ → ℕ
swap_bytes zero value = 0
swap_bytes (suc n) value = value % 256 * 256 ^ n + swap_bytes n (value / 256)

-- `ToMoveU256 for B256`.
unfoldable pub word_to_move : B256 → ℕ
unfolding swap_bytes
word_to_move hash = swap_bytes 32 hash

-- `B256::new(value.to_le_bytes())`.
unfoldable pub word_of_move : ℕ → B256
unfolding swap_bytes
word_of_move value = swap_bytes 32 value

scaled_lt : (d m p : ℕ) → d < 256 → m < p → d * p + m < 256 * p
scaled_lt d m p h k = grind (arith, mul_mono (suc d) 256 p p h (le_refl p))

swap_bytes-lt : (n value : ℕ) → swap_bytes n value < 256 ^ n
unfolding swap_bytes
swap_bytes-lt zero value = omega arith
swap_bytes-lt (suc n) value =
    rw (pow-suc, mul_comm (256 ^ n) 256)
      (scaled_lt (value % 256) (swap_bytes n (value / 256)) (256 ^ n) (omega arith)
        (swap_bytes-lt n (value / 256)))

quotient_lt : (n value : ℕ) → value < 256 ^ suc n → value / 256 < 256 ^ n
quotient_lt n value h = let e = pow-suc 256 n in omega arith

-- A digit in front goes to the end.
swap_bytes-front :
    (n digit value : ℕ)
    → digit < 256
    → value < 256 ^ n
    → swap_bytes (suc n) (digit * 256 ^ n + value) ≡ swap_bytes n value * 256 + digit
unfolding swap_bytes
swap_bytes-front zero digit value h k = omega arith
swap_bytes-front (suc n) digit value h k =
    let front = swap_bytes-front n digit (value / 256) h (quotient_lt n value k) in
    rw (kept, rest, pow-suc) (omega arith)
  where
    kept : (digit * 256 ^ suc n + value) % 256 ≡ value % 256
    kept = rw pow-suc (omega arith)

    rest : (digit * 256 ^ suc n + value) / 256 ≡ digit * 256 ^ n + value / 256
    rest = rw pow-suc (omega arith)

swap_bytes-swap_bytes : (n value : ℕ) → value < 256 ^ n → swap_bytes n (swap_bytes n value) ≡ value
unfolding swap_bytes
swap_bytes-swap_bytes zero value h = omega arith
swap_bytes-swap_bytes (suc n) value h =
    swap_bytes-front n (value % 256) (swap_bytes n (value / 256)) (omega arith)
      (swap_bytes-lt n (value / 256))
    ∙ rw (swap_bytes-swap_bytes n (value / 256) (quotient_lt n value h)) (omega arith)

-- A hash that becomes an integer of Move comes back as the same hash.
pub word_of_move-word_to_move :
    (hash : B256) → hash < 2 ^ 256 → word_of_move (word_to_move hash) ≡ hash
unfolding word_of_move word_to_move
word_of_move-word_to_move hash h = swap_bytes-swap_bytes 32 hash h
