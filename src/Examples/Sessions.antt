-- ===== src/Examples/Sessions.antt =====
-- The execution of transactions in a concrete session, over the VM of the payments.
use op_move.Base.{
  ◌+◌, ◌-◌, ◌*◌, AccountAddress, arith, ℕ, zero, ◌≡◌, ◌⊎◌, refl, false, List, [], ◌∷◌, Option, none,
  some, Bytes,
}
use op_move.MoveTypes.{VmError, status, TypeTag, MoveValue, MoveTypeLayout}
use op_move.Error
use op_move.Error.{Error, custom, invalid_transaction, mismatched_argument_count}
use op_move.Transaction.Types.{TransactionData, EntryFunction}
use op_move.Transaction.Parse.{Codec, undecoded, parse_from, parse_to}
use op_move.Gas.{total_gas_used, l2_fee}
use op_move.Execution.Vm.{Vm, ok, done, failed}
use op_move.Execution.NotUser.{NotUser}
use op_move.Execution.Nonces.{check_nonce, get_account_nonce}
use op_move.Execution.Token.{
  transfer_eth, charge_gas_cost, refund_gas_cost, replicate_transfers, replicate_origins,
  replicate_all,
}
use op_move.Execution.Verify.{verify_transaction, enough_gas, charge_gas}
use op_move.Execution.Session.{RuntimeType, reference, other, Session}
use op_move.Execution.Calls.{execute_entry_function}
use op_move.Execution.Calls.Entry.{Refused, Runs, execute_entry_function-checked}
use op_move.Execution.Calls.Scripts.{HaveTags, typed, HaveBytes, serialised}
use op_move.Execution.Canonical.{
  Machine, CanonicalExecutionInput, TxOutcome, verification_input, execute_data, replicate,
  replicate_after, collect_evm, collect, conclude, settle, execute_in_session,
  execute_canonical_transaction,
}
use op_move.Execution.Canonical.Verified.{Shows, execute_canonical_transaction-verified}
use op_move.Execution.Deposited.{canonical, execute_transaction}
use op_move.Execution.Deposited.Errors.{execute_transaction-NotUser}
use op_move.EvmExt.Events.{logs_of_events, push_all_logs, take_origins, take_transfers}
use op_move.Examples.Tags.{no_types}
use op_move.Examples.Payments.{
  World, world_vm, world_nonce, world_balance, world-IsLedger, rich, verified_input,
}
use op_move.Execution.Canonical.Refund.{settle-refund}

abbrev no_such : VmError
no_such = record { major_status = status 9 }

-- A type is known by its number: 0 is `signer`, any other `u64`.
abbrev tag_of : RuntimeType → TypeTag
tag_of (other zero) = TypeTag.signer
tag_of _ = TypeTag.u64

abbrev layout_of : RuntimeType → MoveTypeLayout
layout_of (other zero) = MoveTypeLayout.signer
layout_of _ = MoveTypeLayout.u64

abbrev bytes_of : MoveValue → Option Bytes
bytes_of (MoveValue.u64 n) = some (n ∷ [])
bytes_of (MoveValue.signer a) = some (a ∷ [])
bytes_of _ = none

abbrev number_of : Bytes → ℕ
number_of [] = 0
number_of (n ∷ ns) = n

abbrev pub session_over : (vm : Vm) → Session vm
session_over vm = record {
  Loaded = List RuntimeType;
  param_tys = λ tys. tys;
  load_function = λ m f tys s. done (reference (other 0) ∷ other 1 ∷ []);
  load_script = λ code tys s. done (other 0 ∷ other 1 ∷ []);
  get_type_tag = λ ty s. done (tag_of ty);
  get_type_layout = λ ty s. done (layout_of ty);
  tag_env = λ s. no_types;
  execute_entry_function = λ f args s. (done tt, s);
  execute_script = λ code tys args s. (done tt, s);
  call_evm = λ f args s. (failed no_such, s);
  value_of_argument = λ bytes. MoveValue.u64 (number_of bytes);
  simple_serialize = bytes_of;
  serialize = λ value layout. bytes_of value;
  deserialize_module = λ code. failed no_such;
  stage_module = λ address code s. failed no_such;
  check_module_exists = λ address name s. done false;
  ChangeSet = List ℕ;
  no_changes = [];
  add_module_op = λ changes id op. some changes;
}

abbrev world_session : Session world_vm
world_session = session_over world_vm

-- A session that always begins in the same state.
abbrev pub machine_from : {vm : Vm} → vm.State → Machine (session_over vm)
machine_from start = record {
  new_session = λ id limit. start;
  charge_publish_request = λ n s. (done tt, s);
  charge_dependency = λ a n s. (done tt, s);
  gas_counters =
      λ s. record { execution_gas_used = 10; io_gas_used = 0; storage_fee_used_in_gas_units = 0 };
  scaling_factor = 10;
  eth_transfers_logger = λ s. record { transfers = []; origins = [] };
  StorageChanges = Unit;
  finish = λ s. done (1 ∷ [], [], [], tt);
  squash = λ a b. some a;
  name_hash = λ tag. 0;
  deserialize_logs = λ bytes. none;
}

abbrev world_machine : Machine world_session
world_machine = machine_from {vm = world_vm} rich

abbrev refusing_codec : Codec
refusing_codec = record {
  decode_data = λ bytes. undecoded (custom "");
  encode_data = λ d. [];
  decode_script_or_deployment = λ bytes. undecoded (custom "");
  script_keccak = λ s. 0;
}

abbrev two_arguments : EntryFunction
two_arguments = record {
  module_id = record { address = 2; name = "m" };
  function = "f";
  ty_args = [];
  args = (7 ∷ []) ∷ (3 ∷ []) ∷ [];
}

execute_entry_function-checked_example :
    Refused world_session two_arguments 7 rich
      (execute_entry_function world_session two_arguments 7 rich)
    ⊎ Runs world_session two_arguments 7 rich
        (execute_entry_function world_session two_arguments 7 rich)
execute_entry_function-checked_example =
    execute_entry_function-checked world_session two_arguments 7 rich

-- A script that takes the signer and a number.
abbrev script_types : List RuntimeType
script_types = other 0 ∷ other 1 ∷ []

abbrev script_tags : List TypeTag
script_tags = TypeTag.signer ∷ TypeTag.u64 ∷ []

script_types-HaveTags : HaveTags world_session rich script_types script_tags
script_types-HaveTags = typed refl refl (typed refl refl HaveTags.none_left)

number-HaveBytes : HaveBytes world_session rich ((3 ∷ []) ∷ []) ((3 ∷ []) ∷ [])
number-HaveBytes = serialised refl HaveBytes.none_left

-- A transfer of tokens, at a gas limit of three.
abbrev transfer_input : CanonicalExecutionInput
transfer_input = record {
  tx = verified_input.tx;
  tx_hash = 11;
  genesis_chain_id = 404;
  l1_cost = 20;
  l2_multiplier = 1;
  l2_input = record { gas_limit = 3; effective_gas_price = 10 };
  eth_treasury = 1;
  block_header = record { number = 1; timestamp = 2; prev_randao = 3 };
}

abbrev transfer_outcome : TxOutcome world_machine
transfer_outcome = record {
  vm_outcome = none;
  changes = record { move_vm = 1 ∷ []; evm = tt };
  gas_used = 1;
  l2_price = 10;
  logs = [];
  deployment = none;
}

transfer_executes :
    execute_canonical_transaction world_machine refusing_codec transfer_input ≡ ok transfer_outcome
unfolding execute_canonical_transaction parse_from parse_to execute_in_session settle conclude
    collect collect_evm logs_of_events push_all_logs replicate_after replicate replicate_transfers
    replicate_origins replicate_all take_origins take_transfers execute_data transfer_eth
    charge_gas_cost refund_gas_cost verify_transaction enough_gas charge_gas check_nonce
    get_account_nonce l2_fee total_gas_used
transfer_executes = refl

execute_canonical_transaction-verified_example :
    (tx_data : TransactionData) × (parse_from refusing_codec verified_input.tx ≡ Error.ok tx_data)
    × ((verify_transaction world_vm
          (verification_input world_machine transfer_input (l2_fee 1 transfer_input.l2_input))
          rich).0
        ≡ ok tt)
    × Shows world_machine transfer_input transfer_outcome
execute_canonical_transaction-verified_example =
    execute_canonical_transaction-verified world_machine refusing_codec transfer_input
      transfer_executes

execute_transaction-NotUser_example :
    NotUser (execute_transaction world_machine refusing_codec (canonical transfer_input))
execute_transaction-NotUser_example =
    execute_transaction-NotUser world_machine (λ s. ((1 ∷ [], [], [], tt), refl)) refusing_codec
      (canonical transfer_input)

-- One unit of gas of three is used, at ten each.
one_used : total_gas_used (world_machine.gas_counters rich) world_machine.scaling_factor ≡ 1
unfolding total_gas_used
one_used = refl

settle-refund_example :
    (t : World) × (settle world_machine transfer_input
        (l2_fee 1 transfer_input.l2_input)
        []
        (Error.ok (none, []))
        rich
      ≡ (ok transfer_outcome, t))
    × (t.balances 7 ≡ 100 + 10 * (3 - 1) * 1)
    × (t.balances 1 ≡ 100 - 10 * (3 - 1) * 1)
    × ((a : AccountAddress) → world_nonce t a ≡ world_nonce rich a)
unfolding collect conclude
settle-refund_example =
    settle-refund world_machine world_nonce world_balance world-IsLedger transfer_input []
      (Error.ok (none, [])) 1 rich refl one_used (omega arith) (omega arith) (omega arith)
