-- ===== src/EvmExt/Results.antt =====
-- evm-ext/src/type_utils.rs and evm-ext/src/events.rs: the outcome of an EVM execution as a value of
-- Move, and back.
use op_move.Base.{Bool, List, [], ◌∷◌, Option, none, some, AccountAddress, B256, Bytes, unwrap_or}
use op_move.MoveTypes.{MoveValue, MoveValues, MoveTypeLayout}
use op_move.Primitives.{to_eth_address, to_move_address}
use op_move.Transaction.Types.{Log}
use op_move.Execution.Vm.{Outcome, panicked, expect}
use op_move.Tags.{u8_entries}
use op_move.EvmExt.Words.{word_to_move, word_of_move}

-- What the program reads of revm's `ExecutionResult`; an address is its 20 bytes.
pub record ExecutionResult : Type 0 where
  pub is_success : Bool
  pub created_address : Option Bytes
  pub output : Option Bytes
  pub logs : List Log

-- `EvmNativeOutcome`.
pub record EvmNativeOutcome : Type 0 where
  pub is_success : Bool
  pub output : Bytes
  pub logs : List Log

abbrev pub vector_u8 : Bytes → MoveValues
vector_u8 [] = MoveValues.nil
vector_u8 (b ∷ bs) = MoveValues.cons (MoveValue.u8 b) (vector_u8 bs)

unfoldable pub vector_u256 : List B256 → MoveValues
unfolding word_to_move
vector_u256 [] = MoveValues.nil
vector_u256 (x ∷ xs) = MoveValues.cons (MoveValue.u256 (word_to_move x)) (vector_u256 xs)

abbrev three : MoveValue → MoveValue → MoveValue → MoveValue
three a b c =
    MoveValue.struct (MoveValues.cons a (MoveValues.cons b (MoveValues.cons c MoveValues.nil)))

unfoldable pub evm_log_to_move_value : Log → MoveValue
unfolding vector_u256
evm_log_to_move_value log =
    three (MoveValue.address (to_move_address log.address))
      (MoveValue.vector (vector_u256 log.topics)) (MoveValue.vector (vector_u8 log.payload))

unfoldable pub logs_to_move : List Log → MoveValues
unfolding evm_log_to_move_value
logs_to_move [] = MoveValues.nil
logs_to_move (log ∷ logs) = MoveValues.cons (evm_log_to_move_value log) (logs_to_move logs)

-- A creation reports the address of the contract as its output.
abbrev pub output_bytes : ExecutionResult → Bytes
output_bytes result = unwrap_or result.created_address (unwrap_or result.output [])

unfoldable pub evm_result_to_move_value : ExecutionResult → MoveValue
unfolding logs_to_move
evm_result_to_move_value result =
    three (MoveValue.bool result.is_success) (MoveValue.vector (vector_u8 (output_bytes result)))
      (MoveValue.vector (logs_to_move result.logs))

-- `as_b256` on the topics of a log.
unfoldable pub u256_entries : MoveValues → Option (List B256)
unfolding word_of_move
u256_entries MoveValues.nil = some []
u256_entries (MoveValues.cons (MoveValue.u256 x) vs) = elim (u256_entries vs) [
  | none ↦ none
  | some xs ↦ some (word_of_move x ∷ xs)
]
u256_entries (MoveValues.cons _ vs) = none

-- `Log::new`, which takes four topics at most.
abbrev pub new_log : AccountAddress → List B256 → Bytes → Option Log
new_log address (a ∷ b ∷ c ∷ d ∷ e ∷ topics) bytes = none
new_log address topics bytes =
    some (record { address = to_eth_address address; topics = topics; payload = bytes })

abbrev pub with_entries : AccountAddress → Option (List B256) → Option Bytes → Option Log
with_entries address (some topics) (some bytes) = new_log address topics bytes
with_entries address none bytes = none
with_entries address (some topics) none = none

-- A log from the fields of its struct; what follows the first three is not read.
abbrev pub log_of_fields : MoveValues → Option Log
log_of_fields
      (MoveValues.cons (MoveValue.address address) (
        MoveValues.cons
          (MoveValue.vector topics)
          (MoveValues.cons (MoveValue.vector bytes) rest))) =
    with_entries address (u256_entries topics) (u8_entries bytes)
log_of_fields _ = none

-- The logs of a result, where every log must be read.
abbrev cons_log : Option Log → Option (List Log) → Option (List Log)
cons_log (some log) (some logs) = some (log ∷ logs)
cons_log none logs = none
cons_log (some log) none = none

unfoldable pub logs_of_values : MoveValues → Option (List Log)
logs_of_values MoveValues.nil = some []
logs_of_values (MoveValues.cons (MoveValue.struct fields) vs) =
    cons_log (log_of_fields fields) (logs_of_values vs)
logs_of_values (MoveValues.cons _ vs) = none

abbrev outcome_of : Bool → Option Bytes → Option (List Log) → Option EvmNativeOutcome
outcome_of is_success (some output) (some logs) =
    some (record { is_success = is_success; output = output; logs = logs })
outcome_of is_success none logs = none
outcome_of is_success (some output) none = none

-- The result from the three fields of its struct, of which there are no more.
unfoldable pub outcome_of_value : MoveValue → Option EvmNativeOutcome
unfolding logs_of_values
outcome_of_value
      (MoveValue.struct (
        MoveValues.cons (MoveValue.bool is_success) (
          MoveValues.cons
            (MoveValue.vector output)
            (MoveValues.cons (MoveValue.vector logs) MoveValues.nil)))) =
    outcome_of is_success (u8_entries output) (logs_of_values logs)
outcome_of_value _ = none

abbrev read_outcome : Option MoveValue → Outcome EvmNativeOutcome
unfolding outcome_of_value
read_outcome none = panicked
read_outcome (some value) = expect (outcome_of_value value)

-- The one return value of the EVM native; anything else panics.
module _ (deserialize : Bytes → MoveTypeLayout → Option MoveValue) where
  unfoldable pub extract_evm_result : List (Bytes × MoveTypeLayout) → Outcome EvmNativeOutcome
  unfolding read_outcome
  extract_evm_result ((bytes, layout) ∷ []) = read_outcome (deserialize bytes layout)
  extract_evm_result _ = panicked
