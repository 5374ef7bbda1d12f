-- ===== src/Execution/Nonces/Sequence.antt =====
-- What the check of a nonce does to the nonces of the accounts, from what the Move module `account`
-- promises.
use op_move.Base.{
  eq_refl, refl, ℕ, ◌+◌, ◌≤◌, ◌<◌, ◌≡◌, sym, ◌∙◌, ap, Bool, true, false, [], ◌∷◌, some,
  AccountAddress, Bytes, arith, ltb, ◌&&◌, ◌==◌, if◌then◌else◌, Bool-cases, inl, inr,
}
use op_move.Base.U256.{u64_max}
use op_move.MoveTypes.{VmError, MoveValue, MoveTypeLayout}
use op_move.Error.{
  Error, invalid_transaction, incorrect_nonce, exhausted_account, nonce_invariant_violation,
  get_nonce_always_succeeds,
}
use op_move.Execution.Vm.{ok, err, Vm, FrameworkFunction, done, failed}
use op_move.Execution.Nonces.{first_nonce, get_account_nonce, check_nonce, compare_nonces}

-- What the functions of the Move module do to the accounts and their nonces, when their gas is not
-- metered. The nonce of an account that does not exist counts as 0; it cannot be read or incremented.
pub record IsAccounts (vm : Vm) (nonce : vm.State → AccountAddress → ℕ) : Type 0 where
  pub exists : vm.State → AccountAddress → Bool
  pub bounded : (s : vm.State) (a : AccountAddress) → nonce s a ≤ u64_max
  pub missing : (s : vm.State) (a : AccountAddress) → exists s a ≡ false → nonce s a ≡ 0
  pub create :
      (s : vm.State) (a : AccountAddress)
      → (t : vm.State) × (vm.call false FrameworkFunction.create_account_if_does_not_exist
            (MoveValue.address a ∷ [])
            s
          ≡ (done [], t))
        × (exists t a ≡ true)
        × ((b : AccountAddress) → nonce t b ≡ nonce s b)
  pub get :
      (s : vm.State) (a : AccountAddress)
      → exists s a ≡ true
      → (t : vm.State) × (raw : Bytes) × (layout : MoveTypeLayout) × (vm.call false
            FrameworkFunction.get_sequence_number
            (MoveValue.address a ∷ [])
            s
          ≡ (done ((raw, layout) ∷ []), t))
        × (vm.deserialize raw layout ≡ some (MoveValue.u64 (nonce s a)))
        × (exists t a ≡ true)
        × ((b : AccountAddress) → nonce t b ≡ nonce s b)
  pub get_missing :
      (s : vm.State) (a : AccountAddress)
      → exists s a ≡ false
      → (e : VmError) × (t : vm.State) × (vm.call false FrameworkFunction.get_sequence_number
            (MoveValue.address a ∷ [])
            s
          ≡ (failed e, t))
  pub increment :
      (s : vm.State) (a : AccountAddress)
      → exists s a ≡ true
      → nonce s a < u64_max
      → (t : vm.State) × (vm.call false FrameworkFunction.increment_sequence_number
            (MoveValue.address a ∷ [])
            s
          ≡ (done [], t))
        × ((b : AccountAddress) → nonce t b ≡ (if a == b then nonce s b + 1 else nonce s b))

module _ (vm : Vm) (nonce : vm.State → AccountAddress → ℕ) (law : IsAccounts vm nonce) where
  first_nonce_lem :
      (raw : Bytes) (layout : MoveTypeLayout) (n : ℕ)
      → vm.deserialize raw layout ≡ some (MoveValue.u64 n)
      → first_nonce vm false ((raw, layout) ∷ []) ≡ ok n
  unfolding first_nonce
  first_nonce_lem raw layout n e = rw e

  pub get_account_nonce_lem :
      (s : vm.State) (a : AccountAddress)
      → law.exists s a ≡ true
      → (t : vm.State) × (get_account_nonce vm false a s ≡ (ok (nonce s a), t))
        × (law.exists t a ≡ true)
        × ((b : AccountAddress) → nonce t b ≡ nonce s b)
  unfolding get_account_nonce
  get_account_nonce_lem s a here =
      let (t, raw, layout, called, read, still, same) = law.get s a here in
      (t, rw (called, first_nonce_lem raw layout (nonce s a) read), still, same)

  -- An account that does not exist has no nonce to read.
  pub get_account_nonce_missing :
      (s : vm.State) (a : AccountAddress)
      → law.exists s a ≡ false
      → (t : vm.State) × (get_account_nonce vm false a s
          ≡ (err (nonce_invariant_violation get_nonce_always_succeeds), t))
  unfolding get_account_nonce
  get_account_nonce_missing s a gone =
      let (e, t, called) = law.get_missing s a gone in (t, rw called refl)

  -- Creation and reading first, which change no nonce.
  check_nonce_start :
      (s : vm.State) (n : ℕ) (a : AccountAddress)
      → (t : vm.State) × ((b : AccountAddress) → nonce t b ≡ nonce s b)
        × ((e : Error)
            → compare_nonces vm false n (nonce s a) ≡ err e
            → check_nonce vm false n a s ≡ (err e, t))
  unfolding check_nonce
  check_nonce_start s n a =
      let (s1, created, here, same1) = law.create s a in
      let (s2, got, still, same2) = get_account_nonce_lem s1 a here in
      (s2, λ b. same2 b ∙ same1 b, λ e h. rw (created, got, same1 a, h))

  check_nonce_end :
      (s : vm.State) (n : ℕ) (a : AccountAddress)
      → compare_nonces vm false n (nonce s a) ≡ ok tt
      → nonce s a < u64_max
      → (t : vm.State) × (check_nonce vm false n a s ≡ (ok tt, t))
        × ((b : AccountAddress) → nonce t b ≡ (if a == b then nonce s b + 1 else nonce s b))
  unfolding check_nonce
  check_nonce_end s n a h below =
      let (s1, created, here, same1) = law.create s a in
      let (s2, got, still, same2) = get_account_nonce_lem s1 a here in
      let (s3, called, moved) = law.increment s2 a still (rw (same2 a, same1 a) below) in
      (s3, rw (created, got, same1 a, h, called), λ b. moved b ∙ rw (same2 b, same1 b))

-- The nonce after a check: one more for the signer if the check passes, and else as it was.
abbrev pub nonce_after : Bool → AccountAddress → ℕ → AccountAddress → ℕ
nonce_after passes a n b = if passes && (a == b) then n + 1 else n

abbrev pub passes : ℕ → ℕ → Bool
passes tx_nonce account_nonce = (tx_nonce == account_nonce) && ltb account_nonce u64_max

compare_nonces-passes :
    (vm : Vm) (n k : ℕ)
    → k ≤ u64_max
    → passes n k ≡ true
    → (compare_nonces vm false n k ≡ ok tt) × (k < u64_max)
compare_nonces-passes vm n k h p = ground arith

compare_nonces-fails :
    (vm : Vm) (n k : ℕ)
    → k ≤ u64_max
    → passes n k ≡ false
    → (e : Error) × (compare_nonces vm false n k ≡ err e)
compare_nonces-fails vm n k h p = elim (Bool-cases (n == k)) [
  | inl same ↦ (invalid_transaction exhausted_account, ground arith)
  | inr other ↦ (invalid_transaction (incorrect_nonce k n), rw other)
]

compare_nonces-ok :
    (vm : Vm) (n k : ℕ)
    → k ≤ u64_max
    → compare_nonces vm false n k ≡ ok tt
    → (n ≡ k) × (passes n k ≡ true)
compare_nonces-ok vm n k h e = ground arith

compare_nonces_next :
    (vm : Vm) (n k : ℕ)
    → k ≡ n + 1
    → compare_nonces vm false n k ≡ err (invalid_transaction (incorrect_nonce (n + 1) n))
compare_nonces_next vm n k e = ground arith

-- With accounts as the Move module promises them, the check passes exactly for the account's nonce
-- if that is not the last one, and fails with the nonce expected or with exhaustion otherwise; the
-- signer's nonce grows by one if it passes, and no other nonce ever changes.
pub check_nonce_lem :
    (vm : Vm) (nonce : vm.State → AccountAddress → ℕ) (s : vm.State) (n : ℕ) (a b : AccountAddress)
    → IsAccounts vm nonce
    → ((check_nonce vm false n a s).0 ≡ (
        if n == nonce s a
        then (if nonce s a == u64_max then err (invalid_transaction exhausted_account) else ok tt)
        else err (invalid_transaction (incorrect_nonce (nonce s a) n))))
      × (nonce (check_nonce vm false n a s).1 b
          ≡ nonce_after (passes n (nonce s a)) a (nonce s b) b)
check_nonce_lem vm nonce s n a b law = elim (Bool-cases (passes n (nonce s a))) [
  | inl good ↦
      let (equal, below) = compare_nonces-passes vm n (nonce s a) (law.bounded s a) good in
      let (t, checked, moved) = check_nonce_end vm nonce law s n a equal below in
      (ap (λ r. r.0) checked ∙ sym equal, rw (checked, good) (moved b))
  | inr wrong ↦
      let (e, bad) = compare_nonces-fails vm n (nonce s a) (law.bounded s a) wrong in
      let (t, same, fails) = check_nonce_start vm nonce law s n a in
      (ap (λ r. r.0) (fails e bad) ∙ sym bad, rw (fails e bad, wrong) (same b))
]

-- A nonce that has passed does not pass again: the same check, right after, fails with the next
-- nonce as the one expected.
pub check_nonce-check_nonce :
    (vm : Vm) (nonce : vm.State → AccountAddress → ℕ) (s : vm.State) (n : ℕ) (a : AccountAddress)
    → IsAccounts vm nonce
    → (check_nonce vm false n a s).0 ≡ ok tt
    → (check_nonce vm false n a (check_nonce vm false n a s).1).0
      ≡ err (invalid_transaction (incorrect_nonce (n + 1) n))
check_nonce-check_nonce vm nonce s n a law h =
    let (result, after) = check_nonce_lem vm nonce s n a a law in
    let (again, _) = check_nonce_lem vm nonce (check_nonce vm false n a s).1 n a a law in
    let (same, good) = compare_nonces-ok vm n (nonce s a) (law.bounded s a) (sym result ∙ h) in
    again ∙ compare_nonces_next vm n _ (after ∙ rw (good, eq_refl) (ap (λ k. k + 1) (sym same)))
