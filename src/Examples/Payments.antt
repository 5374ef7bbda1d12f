-- ===== src/Examples/Payments.antt =====
-- The verification of a transaction over a concrete VM, whose state is a nonce and a balance for each
-- account.
use op_move.Base.{
  not, ℕ, ◌+◌, ◌-◌, ◌≡◌, ◌≤◌, ◌<◌, refl, true, false, List, [], ◌∷◌, some, arith, ◌==◌, ltb,
  if◌then◌else◌, AccountAddress, length,
}
use op_move.Primitives.{to_move_address}
use op_move.MoveTypes.{VmError, status, MoveValue, MoveTypeLayout}
use op_move.Error.{invalid_transaction, incorrect_chain_id, insufficient_intrinsic_gas}
use op_move.Transaction.Types.{TxKind}
use op_move.Execution.Vm.{err, Vm, VmResult, done, failed}
use op_move.Execution.Nonces.{check_nonce}
use op_move.Execution.Nonces.Sequence.{IsAccounts}
use op_move.Execution.Verify.{CanonicalVerificationInput, verify_transaction, charge_gas}
use op_move.Execution.Verify.Ledger.{IsLedger, payment, has_gas}
use op_move.Execution.Verify.Payment.{verify_transaction_lem, verify_transaction-check_nonce}
use op_move.Examples.Nonces.{
  nonce, exists, created, incremented, call, deserialize, missing_lem, created_lem, incremented_lem,
}

pub record World : Type 0 where
  pub nonces : ℕ → ℕ
  pub balances : ℕ → ℕ

abbrev pub world_nonce : World → AccountAddress → ℕ
world_nonce s a = nonce s.nonces a

abbrev pub world_balance : World → AccountAddress → ℕ
world_balance s a = s.balances a

abbrev insufficient : VmError
insufficient = record { major_status = status 1 }

abbrev move_funds : ℕ → ℕ → ℕ → (ℕ → ℕ) → ℕ → ℕ
move_funds from to amount f b =
    if from == b then f b - amount else if to == b then f b + amount else f b

abbrev pay : List MoveValue → World → VmResult (Unit {0}) × World
pay
      (MoveValue.signer admin
        ∷ MoveValue.address from
        ∷ MoveValue.address to
        ∷ MoveValue.u256 amount
        ∷ [])
      s =
    if ltb (s.balances from) amount
    then (failed insufficient, s)
    else (done tt, record s { balances = move_funds from to amount s.balances })
pay _ s = (failed insufficient, s)

abbrev pub world_vm : Vm
world_vm = record {
  State = World;
  Function = Unit {0};
  call = λ metered f args s. let r = call f args s.nonces in (r.0, record s { nonces = r.1 });
  deserialize = deserialize;
  load_function = λ f s. done tt;
  execute_entry_function = λ metered f args s. pay args s;
  charge_intrinsic_gas = λ n s. (true, s);
  charge_io_gas = λ n s. (true, s);
}

world-IsAccounts : IsAccounts world_vm world_nonce
world-IsAccounts = record {
  exists = λ s a. exists s.nonces a;
  bounded = λ s a. omega arith;
  missing = λ s a. missing_lem s.nonces a;
  create = λ s a. (
    record s { nonces = created a s.nonces },
    refl,
    (created_lem s.nonces a).0,
    (created_lem s.nonces a).1,
  );
  get = λ s a here.
      (s, nonce s.nonces a ∷ [], MoveTypeLayout.u64, rw here refl, refl, here, λ b. refl);
  get_missing = λ s a gone. (record { major_status = status 1 }, s, rw gone refl);
  increment = λ s a here h. (
    record s { nonces = incremented a s.nonces },
    refl,
    λ b. incremented_lem s.nonces a b here h,
  );
}

paid_transfer :
    (s : World) (from to amount : ℕ)
    → (from == to) ≡ false
    → amount ≤ s.balances from
    → (pay
          (MoveValue.signer 1
            ∷ MoveValue.address from
            ∷ MoveValue.address to
            ∷ MoveValue.u256 amount
            ∷ [])
          s
        ≡ (done tt, record s { balances = move_funds from to amount s.balances }))
      × (move_funds from to amount s.balances from ≡ s.balances from - amount)
      × (move_funds from to amount s.balances to ≡ s.balances to + amount)
paid_transfer s from to amount other h =
    let covered : ltb (s.balances from) amount ≡ false = ground arith in
    (rw covered, ground arith, ground arith)

refused_transfer :
    (s : World) (from to amount : ℕ)
    → s.balances from < amount
    → pay
        (MoveValue.signer 1
          ∷ MoveValue.address from
          ∷ MoveValue.address to
          ∷ MoveValue.u256 amount
          ∷ [])
        s
      ≡ (failed insufficient, s)
refused_transfer s from to amount h =
    let uncovered : ltb (s.balances from) amount ≡ true = ground arith in rw uncovered

pub world-IsLedger : IsLedger world_vm world_nonce world_balance
unfolding charge_gas
world-IsLedger = record {
  accounts = world-IsAccounts;
  function = tt;
  loaded = λ s. refl;
  transferred = λ s from to amount other h.
      let (paid, less, more) = paid_transfer s from to amount other h in
      (record s { balances = move_funds from to amount s.balances }, paid, less, more, λ a. refl);
  refused = λ s from to amount h. (insufficient, s, refused_transfer s from to amount h);
  intrinsic-keeps = λ n s a. (refl, refl);
  io-keeps = λ n s a. (refl, refl);
}

abbrev pub rich : World
rich = record { nonces = λ a. 5; balances = λ a. 100 }

abbrev pub verified_input : CanonicalVerificationInput
verified_input = record {
  tx = record {
    signer = 7;
    to = TxKind.call 9;
    nonce = 4;
    value = 5;
    input = [];
    chain_id = some 404;
    gas_limit = 21000;
    max_priority_fee_per_gas = 2;
    max_fee_per_gas = 10;
    access_list = [];
  };
  genesis_chain_id = 404;
  l1_cost = 20;
  l2_cost = 30;
  eth_treasury = 1;
}

verify_transaction_lem_example : (verify_transaction world_vm verified_input rich).0 ≡ (
    if not (404 == 404)
    then err (invalid_transaction incorrect_chain_id)
    else if has_gas world_vm (length verified_input.tx.input) rich
    then payment verified_input
        (world_balance rich (to_move_address 7))
        (world_nonce rich (to_move_address 7))
    else err (invalid_transaction insufficient_intrinsic_gas))
verify_transaction_lem_example =
    verify_transaction_lem world_vm world_nonce world_balance verified_input rich world-IsLedger
      refl

verify_transaction-check_nonce_example :
    (t : World) × (verify_transaction world_vm verified_input rich
      ≡ check_nonce world_vm false verified_input.tx.nonce (to_move_address 7) t)
    × ((a : AccountAddress) → world_nonce t a ≡ world_nonce rich a)
    × (world_balance t (to_move_address 7) + (20 + 30) ≡ world_balance rich (to_move_address 7))
    × (world_balance t 1 ≡ world_balance rich 1 + (20 + 30))
unfolding charge_gas
verify_transaction-check_nonce_example =
    verify_transaction-check_nonce world_vm world_nonce world_balance verified_input rich
      world-IsLedger refl refl refl (omega arith)
