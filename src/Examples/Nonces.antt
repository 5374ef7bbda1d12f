-- ===== src/Examples/Nonces.antt =====
-- The check of nonces over a concrete VM, whose state is the nonce of each account.
use op_move.Base.{
  ◌-◌, max, ltb, Bool, Bool-cases, inl, inr, ==_iff, ap, sym, ◌∙◌, ℕ, ◌+◌, ◌≡◌, ◌<◌, refl, min,
  true, false, List, [], ◌∷◌, Option, none, some, Bytes, arith, ◌==◌, if◌then◌else◌, AccountAddress,
}
use op_move.Base.U256.{u64_max}
use op_move.MoveTypes.{status, MoveValue, MoveTypeLayout}
use op_move.Error.{invalid_transaction, incorrect_nonce, exhausted_account}
use op_move.Execution.Vm.{ok, err, Vm, VmResult, FrameworkFunction, done, failed}
use op_move.Execution.Nonces.{check_nonce}
use op_move.Execution.Nonces.Sequence.{IsAccounts, nonce_after, passes, check_nonce_lem}

-- An account that does not exist stands at 0, any other at one more than its nonce.
abbrev pub nonce : (ℕ → ℕ) → AccountAddress → ℕ
nonce s a = min (s a - 1) u64_max

abbrev pub exists : (ℕ → ℕ) → AccountAddress → Bool
exists s a = ltb 0 (s a)

abbrev pub created : ℕ → (ℕ → ℕ) → ℕ → ℕ
created a s b = if a == b then max (s b) 1 else s b

abbrev pub incremented : ℕ → (ℕ → ℕ) → ℕ → ℕ
incremented a s b = if a == b then s b + 1 else s b

abbrev pub call :
    FrameworkFunction
    → List MoveValue
    → (ℕ → ℕ)
    → VmResult (List (Bytes × MoveTypeLayout)) × (ℕ → ℕ)
call FrameworkFunction.create_account_if_does_not_exist (MoveValue.address a ∷ []) s =
    (done [], created a s)
call FrameworkFunction.get_sequence_number (MoveValue.address a ∷ []) s =
    if exists s a
    then (done ((nonce s a ∷ [], MoveTypeLayout.u64) ∷ []), s)
    else (failed (record { major_status = status 1 }), s)
call FrameworkFunction.increment_sequence_number (MoveValue.address a ∷ []) s =
    (done [], incremented a s)
call _ _ s = (done [], s)

abbrev pub deserialize : Bytes → MoveTypeLayout → Option MoveValue
deserialize (n ∷ []) layout = some (MoveValue.u64 n)
deserialize _ layout = none

abbrev pub nonce_vm : Vm
nonce_vm = record {
  State = ℕ → ℕ;
  Function = Unit {0};
  call = λ metered f args s. call f args s;
  deserialize = deserialize;
  load_function = λ f s. done tt;
  execute_entry_function = λ metered f args s. (done tt, s);
  charge_intrinsic_gas = λ n s. (true, s);
  charge_io_gas = λ n s. (true, s);
}

pub missing_lem : (s : ℕ → ℕ) (a : ℕ) → exists s a ≡ false → nonce s a ≡ 0
missing_lem s a h = ground arith

pub created_lem :
    (s : ℕ → ℕ) (a : ℕ)
    → (exists (created a s) a ≡ true) × ((b : ℕ) → nonce (created a s) b ≡ nonce s b)
created_lem s a = (grind arith, λ b. grind arith)

pub incremented_lem :
    (s : ℕ → ℕ) (a b : ℕ)
    → exists s a ≡ true
    → nonce s a < u64_max
    → nonce (incremented a s) b ≡ (if a == b then nonce s b + 1 else nonce s b)
incremented_lem s a b here h = elim (Bool-cases (a == b)) [
  | inl same ↦
      let e = (==_iff a b).0 same in
      let here' : ltb 0 (s b) ≡ true = ap (λ x. ltb 0 (s x)) (sym e) ∙ here in
      let h' : min (s b - 1) u64_max < u64_max = rw (← e) h in rw same (ground arith)
  | inr other ↦ rw other refl
]

pub nonce_vm-IsAccounts : IsAccounts nonce_vm nonce
nonce_vm-IsAccounts = record {
  exists = exists;
  bounded = λ s a. omega arith;
  missing = missing_lem;
  create = λ s a. (created a s, refl, (created_lem s a).0, (created_lem s a).1);
  get = λ s a here. (s, nonce s a ∷ [], MoveTypeLayout.u64, rw here refl, refl, here, λ b. refl);
  get_missing = λ s a gone. (record { major_status = status 1 }, s, rw gone refl);
  increment = λ s a here h. (incremented a s, refl, λ b. incremented_lem s a b here h);
}

-- Accounts with the nonce 4, and no accounts.
abbrev pub fresh : ℕ → ℕ
fresh a = 5

abbrev pub nobody : ℕ → ℕ
nobody a = 0

check_nonce_lem_example :
    ((check_nonce nonce_vm false 4 7 fresh).0 ≡ (
      if 4 == nonce fresh 7
      then (if nonce fresh 7 == u64_max then err (invalid_transaction exhausted_account) else ok tt)
      else err (invalid_transaction (incorrect_nonce (nonce fresh 7) 4))))
    × (nonce (check_nonce nonce_vm false 4 7 fresh).1 7
        ≡ nonce_after (passes 4 (nonce fresh 7)) 7 (nonce fresh 7) 7)
check_nonce_lem_example = check_nonce_lem nonce_vm nonce fresh 4 7 7 nonce_vm-IsAccounts
