-- ===== src/Examples/Outside.antt =====
-- A concrete choice of what the application calls outside the repository: a chain whose state is a
-- counter, on which every transaction adds one and logs once.
use op_move.Base.{true, ℕ, ◌+◌, [], ◌∷◌, Option, none, some, length, Bytes}
use op_move.Error.{ok}
use op_move.Transaction.Types.{TxKind, OpTxEnvelope, Log}
use op_move.Transaction.Normalize.{Signatures}
use op_move.Chain.Types.{Header, ExtendedBlock, ExtendedTransaction, ExtendedReceipt}
use op_move.App.Types.{Deps, Application, Payload, TransactionExecutionOutcome}
use op_move.Examples.Maps.{table_map}

abbrev recover : Signatures
recover = record { legacy = λ t. none; eip2930 = λ t. none; eip1559 = λ t. some 7 }

abbrev pub payment : ℕ → OpTxEnvelope
payment nonce = OpTxEnvelope.eip1559 (record {
  tx = record {
    chain_id = 404;
    nonce = nonce;
    gas_limit = 21000;
    max_fee_per_gas = 2000;
    max_priority_fee_per_gas = 1;
    to = TxKind.call 9;
    value = 5;
    access_list = [];
    input = [];
  };
  signature = [];
})

abbrev deposit : OpTxEnvelope
deposit = OpTxEnvelope.deposit (record {
  source_hash = 1;
  from = 2;
  to = TxKind.call 3;
  mint = none;
  value = 0;
  gas_limit = 0;
  is_system_transaction = true;
  input = [];
})

-- One byte is the nonce of a payment.
abbrev decode_byte : Bytes → Option (OpTxEnvelope × Bytes)
decode_byte [] = none
decode_byte (n ∷ rest) = some (payment n, rest)

abbrev log : Log
log = record { address = 9; topics = []; payload = [] }

abbrev outcome : TransactionExecutionOutcome ℕ
outcome = record {
  vm_outcome = none;
  changes = 1;
  gas_used = 100;
  l2_price = 3;
  logs = log ∷ [];
  deployment = none;
}

abbrev default_header : Header
default_header = record {
  parent_hash = 0;
  ommers_hash = 0;
  beneficiary = 0;
  state_root = 0;
  transactions_root = 0;
  receipts_root = 0;
  logs_bloom = 0;
  difficulty = 0;
  number = 0;
  gas_limit = 0;
  gas_used = 0;
  timestamp = 0;
  extra_data = [];
  mix_hash = 0;
  nonce = 0;
  base_fee_per_gas = none;
  withdrawals_root = none;
  blob_gas_used = none;
  excess_blob_gas = none;
  parent_beacon_block_root = none;
  requests_hash = none;
}

abbrev pub outside : Deps
outside = record {
  keccak256 = λ b. length b + 1000;
  decode = decode_byte;
  encode = λ t. 1 ∷ [];
  encode_2718 = λ t. 1 ∷ [];
  trie_hash = λ t. 5;
  gas_price = λ t base_fee. 3;
  signatures = recover;
  transactions_root = length;
  withdrawals_root = length;
  receipts_root = length;
  block_hash = λ h. h.number + 500;
  default_header = default_header;
  bloom_zero = 0;
  logs_bloom = length;
  accrue_bloom = λ a b. a + b;
  blocks = table_map ExtendedBlock;
  transactions = table_map ExtendedTransaction;
  receipts = table_map ExtendedReceipt;
  State = ℕ;
  Changes = ℕ;
  execute_transaction = λ state input. ok outcome;
  apply = λ state changes. some (state + changes);
  state_root = λ state. state;
}

abbrev pub genesis : ExtendedBlock
genesis = record {
  hash = 500;
  value = 0;
  payload_id = 0;
  block = record {
    header = record default_header { gas_limit = 30000000; base_fee_per_gas = some 1000 };
    transactions = [];
  };
}

abbrev pub empty_application : Application outside
empty_application = record {
  mem_pool = [];
  gas_fee = record { elasticity_multiplier = 6; base_fee_max_change_denominator = 250 };
  receipt_memory = record { receipts = (table_map ExtendedReceipt).empty };
  storage = record {
    block_memory = record {
      hashes = (table_map ExtendedBlock).empty;
      heights = (table_map ExtendedBlock).empty;
      payload_ids = (table_map ExtendedBlock).empty;
    };
    transaction_memory = record { transactions = (table_map ExtendedTransaction).empty };
  };
  state = 0;
}

abbrev pub attributes : Payload
attributes = record {
  timestamp = 2;
  prev_randao = 0;
  suggested_fee_recipient = 1;
  withdrawals = [];
  parent_beacon_block_root = 0;
  transactions = (4 ∷ []) ∷ [];
  gas_limit = 30000000;
}
