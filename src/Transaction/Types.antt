-- ===== src/Transaction/Types.antt =====
-- The types of execution/src/transaction.rs, and the transaction and receipt types of alloy and
-- op-alloy that it takes apart. Serialised code and arguments stay bytes.
use Prim.Native.String.{String}
use op_move.Base.{ℕ, List, Option, Bool, Address, AccountAddress, B256, Bytes}
use op_move.MoveTypes.{TypeTag}

-- `TxKind`.
pub data TxKind : Type 0 where
  create : TxKind
  call : Address → TxKind

abbrev pub AccessList : Type 0
AccessList = List (Address × List B256)

pub record TxLegacy : Type 0 where
  pub chain_id : Option ℕ
  pub nonce : ℕ
  pub gas_price : ℕ
  pub gas_limit : ℕ
  pub to : TxKind
  pub value : ℕ
  pub input : Bytes

pub record TxEip2930 : Type 0 where
  pub chain_id : ℕ
  pub nonce : ℕ
  pub gas_price : ℕ
  pub gas_limit : ℕ
  pub to : TxKind
  pub value : ℕ
  pub access_list : AccessList
  pub input : Bytes

pub record TxEip1559 : Type 0 where
  pub chain_id : ℕ
  pub nonce : ℕ
  pub gas_limit : ℕ
  pub max_fee_per_gas : ℕ
  pub max_priority_fee_per_gas : ℕ
  pub to : TxKind
  pub value : ℕ
  pub access_list : AccessList
  pub input : Bytes

pub record TxDeposit : Type 0 where
  pub source_hash : B256
  pub from : Address
  pub to : TxKind
  pub mint : Option ℕ
  pub value : ℕ
  pub gas_limit : ℕ
  pub is_system_transaction : Bool
  pub input : Bytes

-- A transaction with its signature bytes.
pub record Signed (T : Type 0) : Type 0 where
  pub tx : T
  pub signature : Bytes

-- Transactions that delegate code (EIP-7702) are refused whatever they hold.
pub data OpTxEnvelope : Type 0 where
  legacy : Signed TxLegacy → OpTxEnvelope
  eip2930 : Signed TxEip2930 → OpTxEnvelope
  eip1559 : Signed TxEip1559 → OpTxEnvelope
  eip7702 : Signed Bytes → OpTxEnvelope
  deposit : TxDeposit → OpTxEnvelope

pub record NormalizedEthTransaction : Type 0 where
  pub signer : Address
  pub to : TxKind
  pub nonce : ℕ
  pub value : ℕ
  pub input : Bytes
  pub chain_id : Option ℕ
  pub gas_limit : ℕ
  pub max_priority_fee_per_gas : ℕ
  pub max_fee_per_gas : ℕ
  pub access_list : AccessList

pub data NormalizedExtendedTxEnvelope : Type 0 where
  canonical : NormalizedEthTransaction → NormalizedExtendedTxEnvelope
  deposited_tx : TxDeposit → NormalizedExtendedTxEnvelope

pub record ModuleId : Type 0 where
  pub address : AccountAddress
  pub name : String

pub record EntryFunction : Type 0 where
  pub module_id : ModuleId
  pub function : String
  pub ty_args : List TypeTag
  pub args : List Bytes

pub record Script : Type 0 where
  pub code : Bytes
  pub ty_args : List TypeTag
  pub args : List Bytes

pub data ScriptOrDeployment : Type 0 where
  script : Script → ScriptOrDeployment
  module_code : Bytes → ScriptOrDeployment
  evm_contract : Bytes → ScriptOrDeployment

-- Possible parsings of the data of a transaction that is no deposit.
pub data TransactionData : Type 0 where
  eoa_base_token_transfer : Address → TransactionData
  script_or_deployment : ScriptOrDeployment → TransactionData
  entry_function : EntryFunction → TransactionData
  l2_contract : Address → TransactionData
  evm_contract : Address → Bytes → TransactionData

-- The serialised form, which leaves the address of an EVM contract to the transaction's `to`.
pub data SerializableTransactionData : Type 0 where
  eoa_base_token_transfer : Address → SerializableTransactionData
  script_or_deployment : ScriptOrDeployment → SerializableTransactionData
  entry_function : EntryFunction → SerializableTransactionData
  l2_contract : Address → SerializableTransactionData
  evm_contract : Bytes → SerializableTransactionData

pub record Log : Type 0 where
  pub address : Address
  pub topics : List B256
  pub payload : Bytes

pub record Receipt : Type 0 where
  pub status : Bool
  pub cumulative_gas_used : ℕ
  pub logs : List Log

pub record ReceiptWithBloom : Type 0 where
  pub receipt : Receipt
  pub logs_bloom : ℕ

pub record OpDepositReceiptWithBloom : Type 0 where
  pub receipt : Receipt
  pub deposit_nonce : Option ℕ
  pub deposit_receipt_version : Option ℕ
  pub logs_bloom : ℕ

pub data OpReceiptEnvelope : Type 0 where
  legacy eip2930 eip1559 eip7702 : ReceiptWithBloom → OpReceiptEnvelope
  deposit : OpDepositReceiptWithBloom → OpReceiptEnvelope
