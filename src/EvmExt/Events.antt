-- ===== src/EvmExt/Events.antt =====
-- evm-ext/src/events.rs and the logs of a session (`Logs` and `push_logs` of execution/src/lib.rs):
-- from the events of the Move VM to Ethereum logs.
use Prim.Native.String.{String}
use op_move.Base.Texts.{same_text}
use op_move.Base.{
  ℕ, ◌≡◌, ap, Bool, false, ◌&&◌, List, [], ◌∷◌, ◌++◌, Option, none, some, AccountAddress, B256,
  Bytes, ◌==◌, if◌then◌else◌,
}
use op_move.Base.Partial.{◌>>=◌}
use op_move.MoveTypes.{TypeTag, TypeTags, MoveValue, MoveValues}
use mathlib.Core.List.{append-nil, append_assoc}
use op_move.Primitives.{to_eth_address}
use op_move.Transaction.Types.{Log}
use op_move.EvmExt.Results.{log_of_fields, logs_to_move, evm_log_to_move_value}
use op_move.EvmExt.RoundTrip.{AreEvmLogs, evm_log, log-back}

-- `EthTransfer` and `EthTransfersLogger`: what happened to the tokens in the EVM.
pub record EthTransfer : Type 0 where
  pub from : AccountAddress
  pub to : AccountAddress
  pub amount : ℕ

pub record EthTransfersLogger : Type 0 where
  pub transfers : List EthTransfer
  pub origins : List (AccountAddress × ℕ)

unfoldable pub push_transfer : EthTransfer → EthTransfersLogger → EthTransfersLogger
push_transfer transfer logger = record logger { transfers = logger.transfers ++ (transfer ∷ []) }

unfoldable pub add_tx_origin : AccountAddress → ℕ → EthTransfersLogger → EthTransfersLogger
add_tx_origin address amount logger = record logger {
  origins = logger.origins ++ ((address, amount) ∷ []);
}

unfoldable pub take_transfers : EthTransfersLogger → List EthTransfer × EthTransfersLogger
take_transfers logger = (logger.transfers, record logger { transfers = [] })

unfoldable pub take_origins : EthTransfersLogger → List (AccountAddress × ℕ) × EthTransfersLogger
take_origins logger = (logger.origins, record logger { origins = [] })

-- The loop over the logs of an event, each with three fields; what it has added is lost where it
-- fails, since the caller panics then.
unfoldable pub add_logs : MoveValues → List Log → Option (List Log)
add_logs MoveValues.nil dest = some dest
add_logs
      (MoveValues.cons
        (MoveValue.struct
          (MoveValues.cons a (MoveValues.cons b (MoveValues.cons c MoveValues.nil))))
        values)
      dest =
    do
      log ← log_of_fields (MoveValues.cons a (MoveValues.cons b (MoveValues.cons c MoveValues.nil)))
      add_logs values (dest ++ (log ∷ []))
add_logs (MoveValues.cons _ values) dest = none

unfoldable pub evm_logs_event_to_log : MoveValue → List Log → Option (List Log)
unfolding add_logs
evm_logs_event_to_log (MoveValue.struct (MoveValues.cons (MoveValue.vector logs) MoveValues.nil))
      dest =
    add_logs logs dest
evm_logs_event_to_log _ dest = none

-- `EVM_LOGS_EVENT_TAG`.
abbrev pub is_evm_logs_event : AccountAddress → String → String → TypeTags → Bool
is_evm_logs_event address module_name name TypeTags.nil =
    (address == 1) && (same_text module_name "evm" && same_text name "EvmLogsEvent")
is_evm_logs_event address module_name name _ = false

-- An event of the Move VM.
pub record ContractEvent : Type 0 where
  pub type_tag : TypeTag
  pub event_data : Bytes

-- The hash of a type's canonical name, and the deserialisation at the layout of `EvmLogsEvent`.
module _ (name_hash : TypeTag → B256) (deserialize : Bytes → Option MoveValue) where
  -- The match on the type of the event; no result is a panic.
  unfoldable pub push_typed : TypeTag → Bytes → List Log → Option (List Log)
  unfolding evm_logs_event_to_log
  push_typed (TypeTag.struct address module_name name type_args) event_data dest =
      if is_evm_logs_event address module_name name type_args
      then (do value ← deserialize event_data; evm_logs_event_to_log value dest)
      else some (
          dest
          ++ (record {
            address = to_eth_address address;
            topics = name_hash (TypeTag.struct address module_name name type_args) ∷ [];
            payload = event_data;
          }
              ∷ []))
  push_typed _ event_data dest = none

  unfoldable pub push_logs : ContractEvent → List Log → Option (List Log)
  unfolding push_typed
  push_logs event dest = push_typed event.type_tag event.event_data dest

  unfoldable pub push_all_logs : List ContractEvent → List Log → Option (List Log)
  unfolding push_logs
  push_all_logs [] dest = some dest
  push_all_logs (event ∷ events) dest = do dest' ← push_logs event dest; push_all_logs events dest'

  -- `Logs::logs`.
  unfoldable pub logs_of_events : List ContractEvent → Option (List Log)
  unfolding push_all_logs
  logs_of_events events = push_all_logs events []

add_logs-logs_to_move :
    (logs dest : List Log)
    → AreEvmLogs logs
    → add_logs (logs_to_move logs) dest ≡ some (dest ++ logs)
unfolding add_logs logs_to_move evm_log_to_move_value
add_logs-logs_to_move [] dest h = rw append-nil
add_logs-logs_to_move (log ∷ logs) dest (evm_log good h) =
    rw (log-back log good, add_logs-logs_to_move logs (dest ++ (log ∷ [])) h)
      (ap some (append_assoc dest (log ∷ []) logs))

-- The event that holds logs of the EVM adds these logs, in their order, to those before it.
pub evm_logs_event_to_log-logs_to_move :
    (logs dest : List Log)
    → AreEvmLogs logs
    → evm_logs_event_to_log
        (MoveValue.struct (MoveValues.cons (MoveValue.vector (logs_to_move logs)) MoveValues.nil))
        dest
      ≡ some (dest ++ logs)
unfolding evm_logs_event_to_log
evm_logs_event_to_log-logs_to_move logs dest h = add_logs-logs_to_move logs dest h
