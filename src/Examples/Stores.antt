-- ===== src/Examples/Stores.antt =====
-- The properties of the memories of blocks and receipts at concrete inputs.
use op_move.Base.{ℕ, ◌≡◌, refl, none, [], ◌∷◌, true, get_elem?, length}
use op_move.Base.U256.{checked_sub}
use op_move.Chain.Types.{ExtendedBlock, ExtendedReceipt}
use op_move.Chain.EvMap.{EvMap}
use op_move.Chain.Blocks.{new, add_all, by_height, height}
use op_move.Chain.Blocks.Height.{by_height-add_all}
use op_move.Chain.Receipts.{ReceiptMemory, extend}
use op_move.Chain.Receipts.Seen.{IsRefreshed}
use op_move.Transaction.Types.{OpReceiptEnvelope}
use op_move.Examples.Maps.{table_map, table_map-IsEvMap}
use op_move.Examples.Outside.{genesis}

abbrev pub block_map : EvMap ExtendedBlock
block_map = table_map ExtendedBlock

abbrev pub child : ExtendedBlock
child = record genesis {
  hash = 501;
  payload_id = 7;
  block = record genesis.block {
    header = record genesis.block.header { number = 1; parent_hash = 500 };
  };
}

by_height-add_all_example :
    (by_height block_map (add_all block_map (new block_map) (genesis ∷ child ∷ [])) 1
      ≡ get_elem? (genesis ∷ child ∷ []) 1)
    × (height block_map (add_all block_map (new block_map) (genesis ∷ child ∷ []))
        ≡ checked_sub (length (genesis ∷ child ∷ [])) 1)
by_height-add_all_example =
    by_height-add_all block_map (genesis ∷ child ∷ []) 1 (table_map-IsEvMap ExtendedBlock)
      (refl, (refl, tt))

abbrev receipt_map : EvMap ExtendedReceipt
receipt_map = table_map ExtendedReceipt

abbrev pub receipt_of : ℕ → ExtendedReceipt
receipt_of hash = record {
  transaction_hash = hash;
  transaction_index = 0;
  to = none;
  from = 7;
  receipt = OpReceiptEnvelope.legacy (record {
    receipt = record { status = true; cumulative_gas_used = 0; logs = [] };
    logs_bloom = 0;
  });
  l1_block_info = none;
  gas_used = 0;
  l2_gas_price = 0;
  contract_address = none;
  logs_offset = 0;
  block_hash = 0;
  block_number = 0;
  block_timestamp = 0;
}

abbrev receipt_memory : ReceiptMemory receipt_map
receipt_memory = extend receipt_map (record { receipts = receipt_map.empty }) (receipt_of 3 ∷ [])

receipt_memory-IsRefreshed :
    IsRefreshed receipt_map (table_map-IsEvMap ExtendedReceipt) receipt_memory
unfolding extend
receipt_memory-IsRefreshed = record { same = λ k. refl }
