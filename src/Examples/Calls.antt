-- ===== src/Examples/Calls.antt =====
-- The properties of reading call data, of receipts and of their RPC form at concrete inputs.
use op_move.Base.{◌↔◌, ℕ, ◌≡◌, refl, some, none, true, [], ◌∷◌, map, length, if◌then◌else◌}
use op_move.Error.{ok, custom}
use op_move.Transaction.Types.{
  TxKind, NormalizedEthTransaction, TransactionData, Log, OpReceiptEnvelope,
}
use op_move.Transaction.Parse.{
  Codec, ReadsBack, decoded, undecoded, parse_from, to_bytes, serializable, is_empty,
}
use op_move.Transaction.Reading.{parse_from_iff, parse_from-to_bytes, Destination}
use op_move.Transaction.Receipt.{as_receipt}
use op_move.Chain.Types.{ExtendedReceipt}
use op_move.Chain.Receipts.Rpc.{rpc_receipt, RpcLog, TransactionReceipt, eip1559, no_l1_block_info}
use op_move.Chain.Receipts.Indices.{range_from, rpc_receipt-logs}

abbrev mint_call : TransactionData
mint_call = TransactionData.entry_function (record {
  module_id = record { address = 0x1234; name = "coin" };
  function = "mint";
  ty_args = [];
  args = (1 ∷ []) ∷ [];
})

-- A codec that has written one datum.
abbrev mint_codec : Codec
mint_codec = record {
  decode_data =
      λ b. if is_empty b then undecoded (custom "empty") else decoded (serializable mint_call);
  encode_data = λ d. 2 ∷ 52 ∷ [];
  decode_script_or_deployment = λ b. undecoded (custom "no script");
  script_keccak = λ s. 0;
}

mint_codec-ReadsBack : ReadsBack mint_codec (serializable mint_call)
mint_codec-ReadsBack = record { data_roundtrip = refl; encode_data-nonempty = refl }

abbrev call : NormalizedEthTransaction
call = record {
  signer = 7;
  to = TxKind.create;
  nonce = 0;
  value = 0;
  input = [];
  chain_id = some 404;
  gas_limit = 21000;
  max_priority_fee_per_gas = 0;
  max_fee_per_gas = 0;
  access_list = [];
}

parse_from-to_bytes_example :
    parse_from mint_codec
      (record call { to = TxKind.call 0x1234; input = to_bytes mint_codec mint_call })
    ≡ ok mint_call
parse_from-to_bytes_example =
    parse_from-to_bytes mint_codec call 0x1234 mint_call mint_codec-ReadsBack refl refl

parse_from_iff_example :
    (parse_from mint_codec
        (record call { to = TxKind.call 0x1234; input = to_bytes mint_codec mint_call })
      ≡ ok mint_call)
    ↔ Destination mint_codec (TxKind.call 0x1234) (to_bytes mint_codec mint_call) mint_call
parse_from_iff_example =
    parse_from_iff mint_codec
      (record call { to = TxKind.call 0x1234; input = to_bytes mint_codec mint_call }) mint_call

abbrev log : ℕ → Log
log n = record { address = n; topics = []; payload = [] }

abbrev receipt : ExtendedReceipt
receipt = record {
  transaction_hash = 77;
  transaction_index = 1;
  to = some 9;
  from = 7;
  receipt = OpReceiptEnvelope.eip1559 (record {
    receipt = record { status = true; cumulative_gas_used = 90; logs = log 1 ∷ log 2 ∷ [] };
    logs_bloom = 0;
  });
  l1_block_info = none;
  gas_used = 40;
  l2_gas_price = 3;
  contract_address = none;
  logs_offset = 5;
  block_hash = 1;
  block_number = 2;
  block_timestamp = 3;
}

abbrev rpc_log : ℕ → ℕ → RpcLog
rpc_log n i = record {
  inner = log n;
  block_hash = 1;
  block_number = 2;
  block_timestamp = 3;
  transaction_hash = 77;
  transaction_index = 1;
  log_index = i;
}

abbrev rpc_form : TransactionReceipt
rpc_form = record {
  inner = record {
    kind = eip1559;
    status = true;
    cumulative_gas_used = 90;
    logs = rpc_log 1 5 ∷ rpc_log 2 6 ∷ [];
    logs_bloom = 0;
  };
  transaction_hash = 77;
  transaction_index = 1;
  block_hash = 1;
  block_number = 2;
  gas_used = 40;
  effective_gas_price = 3;
  from = 7;
  to = some 9;
  contract_address = none;
  l1_block_info = no_l1_block_info;
}

rpc_receipt-receipt : rpc_receipt receipt ≡ some rpc_form
unfolding rpc_receipt
rpc_receipt-receipt = refl

rpc_receipt-logs_example :
    (map (λ l. l.inner) rpc_form.inner.logs ≡ (as_receipt receipt.receipt).logs)
    × (map (λ l. l.log_index) rpc_form.inner.logs
        ≡ range_from receipt.logs_offset (length (as_receipt receipt.receipt).logs))
rpc_receipt-logs_example = rpc_receipt-logs receipt rpc_form rpc_receipt-receipt
