-- ===== src/Examples/Tags.antt =====
-- The validation of arguments, and the results and events of the EVM, on concrete values.
use op_move.Base.{◌≡◌, refl, true, false, [], ◌∷◌, Option, none, some, Bytes, if◌then◌else◌}
use op_move.MoveTypes.{TypeTag, TypeTags, MoveValue, MoveValues, MoveTypeLayout}
use op_move.Error.{invalid_transaction, disallowed_entry_function_type, invalid_signer}
use op_move.Transaction.Types.{Log}
use op_move.Execution.Vm.{ok, err}
use op_move.Tags.{TagEnv, validate_entry_type_tag, validate_entry_value}
use op_move.Tags.Types.{allowed, validate_entry_type_tag-eq-allowed}
use op_move.Tags.Values.{check}
use op_move.Tags.Rounds.{validate_entry_value-eq-check}
use op_move.Tags.Layouts.{has_value_invariants, validate_entry_value-has_value_invariants}
use op_move.EvmExt.Results.{ExecutionResult, evm_result_to_move_value, logs_to_move}
use op_move.EvmExt.Events.{ContractEvent}

-- `vector<Option<Coin>>`, which is refused for the coin.
abbrev coin : TypeTag
coin = TypeTag.struct 2 "coin" "Coin" TypeTags.nil

abbrev coins : TypeTag
coins = TypeTag.vector (TypeTag.struct 1 "option" "Option" (TypeTags.cons coin TypeTags.nil))

coins_refused : allowed coins ≡ false
unfolding allowed
coins_refused = refl

validate_entry_type_tag-eq-allowed_example : validate_entry_type_tag coins ≡ (
    if allowed coins
    then ok tt
    else err (invalid_transaction (disallowed_entry_function_type coins)))
validate_entry_type_tag-eq-allowed_example = validate_entry_type_tag-eq-allowed coins tt

-- A session without types and resources.
abbrev pub no_types : TagEnv
no_types = record {
  is_utf8 = λ bytes. true;
  load_type = λ tag. none;
  GlobalValue = Unit;
  load_resource = λ address type. none;
  exists = λ value. none;
}

-- Two optional signers, of which the second is forged.
abbrev optional_signers : TypeTag
optional_signers =
    TypeTag.vector (TypeTag.struct 1 "option" "Option" (TypeTags.cons TypeTag.signer TypeTags.nil))

abbrev held : MoveValue → MoveValue
held value =
    MoveValue.struct
      (MoveValues.cons (MoveValue.vector (MoveValues.cons value MoveValues.nil)) MoveValues.nil)

abbrev forged : MoveValue
forged = MoveValue.vector (
    MoveValues.cons (held (MoveValue.signer 7))
      (MoveValues.cons (held (MoveValue.signer 8)) MoveValues.nil))

forged_refused : check no_types 7 optional_signers forged ≡ err (invalid_transaction invalid_signer)
unfolding check
forged_refused = refl

validate_entry_value-eq-check_example :
    validate_entry_value no_types 7 optional_signers forged
    ≡ check no_types 7 optional_signers forged
validate_entry_value-eq-check_example =
    validate_entry_value-eq-check no_types 7 optional_signers forged

abbrev numbers : MoveTypeLayout
numbers = MoveTypeLayout.vector MoveTypeLayout.u64

abbrev one_number : MoveValue
one_number = MoveValue.vector (MoveValues.cons (MoveValue.u64 3) MoveValues.nil)

numbers_plain : has_value_invariants numbers ≡ false
unfolding has_value_invariants
numbers_plain = refl

validate_entry_value-has_value_invariants_example :
    validate_entry_value no_types 7 (TypeTag.vector TypeTag.u64) one_number ≡ ok tt
validate_entry_value-has_value_invariants_example =
    validate_entry_value-has_value_invariants no_types 7 numbers (TypeTag.vector TypeTag.u64)
      one_number tt numbers_plain

-- A log with a topic, and a call that made it.
abbrev transfer_log : Log
transfer_log = record { address = 5; topics = 9 ∷ []; payload = 1 ∷ 2 ∷ [] }

abbrev transfer_result : ExecutionResult
transfer_result = record {
  is_success = true;
  created_address = none;
  output = some (4 ∷ []);
  logs = transfer_log ∷ [];
}

abbrev read_result : Bytes → MoveTypeLayout → Option MoveValue
read_result bytes layout = some (evm_result_to_move_value transfer_result)

abbrev coin_event : ContractEvent
coin_event = record { type_tag = coin; event_data = 6 ∷ [] }

abbrev evm_event : ContractEvent
evm_event = record {
  type_tag = TypeTag.struct 1 "evm" "EvmLogsEvent" TypeTags.nil;
  event_data = [];
}

abbrev read_logs : Bytes → Option MoveValue
read_logs bytes = some (
    MoveValue.struct
      (MoveValues.cons (MoveValue.vector (logs_to_move (transfer_log ∷ []))) MoveValues.nil))
