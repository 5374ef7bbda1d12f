-- ===== src/Transaction/Parse.antt =====
-- execution/src/transaction.rs: `TransactionData::parse_from` reads the call data of a normalised
-- transaction. The BCS codec is a parameter; what is asked of it is that it reads back what it
-- wrote, which is never empty.
use op_move.Base.{
  ◌≡◌, ◌&&◌, Bool, true, false, List, [], ◌∷◌, Option, none, some, Address, B256, Bytes, leb, ◌==◌,
  if◌then◌else◌,
}
use op_move.Primitives.{to_move_address}
use op_move.Error.{
  Error, BcsError, custom, Result, ok, err, invalid_transaction, invalid_destination,
  invalid_payload, from_bcs_error, ◌>>=◌,
}
use op_move.Transaction.Types.{
  TxKind, NormalizedEthTransaction, EntryFunction, Script, ScriptOrDeployment, TransactionData,
  SerializableTransactionData,
}

abbrev pub is_empty {ℓ} : {A : Type ℓ} → List A → Bool
is_empty [] = true
is_empty (x ∷ xs) = false

pub data Decoded (A : Type 0) : Type 0 where
  decoded : A → Decoded A
  undecoded : BcsError → Decoded A

-- `bcs::from_bytes` and `bcs::to_bytes` at the two types that the program sends, and the hash of a
-- serialised script.
pub record Codec : Type 0 where
  pub decode_data : Bytes → Decoded SerializableTransactionData
  pub encode_data : SerializableTransactionData → Bytes
  pub decode_script_or_deployment : Bytes → Decoded ScriptOrDeployment
  pub script_keccak : Script → B256

-- BCS reads the data back that it wrote, and writes the number of an enum's variant at least.
pub record ReadsBack (c : Codec) (d : SerializableTransactionData) : Type 0 where
  pub data_roundtrip : c.decode_data (c.encode_data d) ≡ decoded d
  pub encode_data-nonempty : is_empty (c.encode_data d) ≡ false

-- The `?` on a result of the codec.
abbrev pub from_decoded : {A : Type 0} → Decoded A → Result A
from_decoded (decoded a) = ok a
from_decoded (undecoded e) = err (from_bcs_error e)

abbrev pub l2_lowest_address : Address
l2_lowest_address = 0x4200000000000000000000000000000000000000

abbrev pub l2_highest_address : Address
l2_highest_address = 0x42000000000000000000000000000000000000ff

abbrev pub is_l2_contract : Address → Bool
is_l2_contract to = leb l2_lowest_address to && leb to l2_highest_address

abbrev pub expected_entry_function : Error
expected_entry_function =
    invalid_transaction (invalid_payload (custom "Expected entry function or EVM contract"))

-- The match on the decoded data of a call.
unfoldable pub parse_call_data : Address → SerializableTransactionData → Result TransactionData
parse_call_data to (SerializableTransactionData.entry_function entry_fn) =
    if entry_fn.module_id.address == to_move_address to
    then ok (TransactionData.entry_function entry_fn)
    else err (invalid_transaction invalid_destination)
parse_call_data to (SerializableTransactionData.evm_contract code) =
    ok (TransactionData.evm_contract to code)
parse_call_data to _ = err expected_entry_function

-- `From<&TransactionData> for SerializableTransactionData`.
unfoldable pub serializable : TransactionData → SerializableTransactionData
serializable (TransactionData.eoa_base_token_transfer to) =
    SerializableTransactionData.eoa_base_token_transfer to
serializable (TransactionData.script_or_deployment x) =
    SerializableTransactionData.script_or_deployment x
serializable (TransactionData.entry_function x) = SerializableTransactionData.entry_function x
serializable (TransactionData.l2_contract x) = SerializableTransactionData.l2_contract x
serializable (TransactionData.evm_contract to code) = SerializableTransactionData.evm_contract code

unfoldable pub maybe_entry_fn : TransactionData → Option EntryFunction
maybe_entry_fn (TransactionData.entry_function entry_fn) = some entry_fn
maybe_entry_fn _ = none

module _ (c : Codec) where
  -- The match on the destination.
  unfoldable pub parse_to : TxKind → Bytes → Result TransactionData
  unfolding parse_call_data
  parse_to (TxKind.call to) input =
      if is_l2_contract to
      then ok (TransactionData.l2_contract to)
      else if is_empty input
      then ok (TransactionData.eoa_base_token_transfer to)
      else (do tx_data ← from_decoded (c.decode_data input); parse_call_data to tx_data)
  parse_to TxKind.create input = do
    script_or_module ← from_decoded (c.decode_script_or_deployment input)
    ok (TransactionData.script_or_deployment script_or_module)

  unfoldable pub parse_from : NormalizedEthTransaction → Result TransactionData
  unfolding parse_to
  parse_from tx = parse_to tx.to tx.input

  -- `TransactionData::to_bytes`.
  unfoldable pub to_bytes : TransactionData → Bytes
  unfolding serializable
  to_bytes value = c.encode_data (serializable value)

  unfoldable pub script_hash : TransactionData → Option B256
  script_hash (TransactionData.script_or_deployment (ScriptOrDeployment.script s)) =
      some (c.script_keccak s)
  script_hash _ = none
