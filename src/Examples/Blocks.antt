-- ===== src/Examples/Blocks.antt =====
-- The properties of execution and of building blocks at a concrete run: a genesis block, then one
-- block with one payment.
use op_move.Base.{
  ℕ, ◌≡◌, refl, Option, none, some, List, [], ◌∷◌, true, false, unwrap_or, get_elem?,
}
use op_move.Gas.{EcotoneGasFee, l1_fee, l1_input_of_bytes, envelope_tip_per_gas, tip_per_gas}
use op_move.Chain.Types.{ExtendedBlock, ExtendedReceipt}
use op_move.Chain.Blocks
use op_move.Chain.Receipts.Seen.{has_receipt, IsRefreshed}
use op_move.App.Types.{Application, HeaderForExecution, ExecutionOutcome}
use op_move.BaseFee.{base_fee_per_gas}
use op_move.Chain.Receipts.{contains}
use op_move.Chain.Responses.{payload_by_id}
use op_move.Transaction.Normalize.{normalize}
use op_move.Transaction.Receipt.{wrap_receipt}
use op_move.App.Execute.{step, act, verdict, Candidate, execute_transactions}
use op_move.App.Execute.Numbering.{AreConsecutive, total_gas, execute_transactions-AreConsecutive}
use op_move.App.Build.{
  candidates, decode_transaction, build, start_block_build, genesis_update,
  start_block_build_command, genesis_update_command, work,
}
use op_move.App.Build.Extension.{AreLinked, tip, work-AreLinked}
use op_move.App.Build.Seen.{has_candidate, candidates-work, start_block_build-start_block_build}
use op_move.App.Build.Decoding.{decode_transaction-l1_fee}
use op_move.Examples.Maps.{table_map-IsEvMap}
use op_move.Examples.Outside.{outside, payment, genesis, empty_application, attributes}

abbrev start_application : Application outside
start_application = genesis_update outside empty_application genesis

abbrev built : Option (ExtendedBlock × List ExtendedReceipt × Application outside)
built = build outside start_application attributes 7

abbrev built_block : ExtendedBlock
built_block = (unwrap_or built (genesis, [], start_application)).0

abbrev built_receipts : List ExtendedReceipt
built_receipts = (unwrap_or built (genesis, [], start_application)).1

abbrev built_application : Application outside
built_application = (unwrap_or built (genesis, [], start_application)).2

build-attributes :
    build outside start_application attributes 7
    ≡ some (built_block, built_receipts, built_application)
unfolding build Blocks.last genesis_update Blocks.add base_fee_per_gas execute_transactions contains
    step act verdict normalize wrap_receipt
build-attributes = refl

payment_seen : has_receipt 1001 built_receipts ≡ true
unfolding build Blocks.last genesis_update Blocks.add base_fee_per_gas execute_transactions contains
    step act verdict normalize wrap_receipt
payment_seen = refl

nothing_waits :
    IsRefreshed outside.receipts
      (table_map-IsEvMap ExtendedReceipt)
      start_application.receipt_memory
unfolding genesis_update
nothing_waits = record { same = λ k. refl }

work_nothing : work outside built_application [] ≡ some built_application
unfolding work
work_nothing = refl

candidates-work_example :
    has_candidate 1001 (candidates outside built_application attributes) ≡ false
candidates-work_example =
    candidates-work outside start_application built_application built_application attributes
      attributes 7 built_block built_receipts [] 1001 (table_map-IsEvMap ExtendedReceipt)
      nothing_waits build-attributes payment_seen work_nothing

start_block_build-attributes :
    start_block_build outside start_application attributes 7 ≡ some built_application
unfolding start_block_build payload_by_id Blocks.by_payload_id genesis_update Blocks.add Blocks.last
    base_fee_per_gas execute_transactions contains step act verdict normalize wrap_receipt
start_block_build-attributes = refl

start_block_build-start_block_build_example :
    start_block_build outside built_application (record attributes { timestamp = 9 }) 7
    ≡ some built_application
start_block_build-start_block_build_example =
    start_block_build-start_block_build outside start_application built_application attributes
      (record attributes { timestamp = 9 }) 7 (table_map-IsEvMap ExtendedBlock)
      start_block_build-attributes

work-attributes :
    work outside empty_application
      (genesis_update_command genesis ∷ start_block_build_command attributes 7 ∷ [])
    ≡ some built_application
unfolding work payload_by_id Blocks.by_payload_id Blocks.add Blocks.last base_fee_per_gas
    execute_transactions contains step act verdict normalize wrap_receipt
work-attributes = refl

work-AreLinked_example :
    (cs : List ExtendedBlock) × AreLinked genesis cs
    × ((k : ℕ)
        → Blocks.by_height outside.blocks built_application.storage.block_memory k
          ≡ get_elem? (genesis ∷ cs) k)
    × (Blocks.last outside.blocks built_application.storage.block_memory ≡ some (tip genesis cs))
unfolding Blocks.new
work-AreLinked_example =
    work-AreLinked outside genesis empty_application built_application
      (start_block_build_command attributes 7 ∷ []) (table_map-IsEvMap ExtendedBlock) refl refl refl
      work-attributes

abbrev parsed : Candidate
parsed = record {
  tx_hash = 1001;
  tx = payment 4;
  l1_cost_input = record { zero_bytes = 0; non_zero_bytes = 0 };
}

abbrev ecotone_fee : EcotoneGasFee
ecotone_fee = record {
  base_fee = 1000;
  base_fee_scalar = 3;
  blob_base_fee = 20;
  blob_base_fee_scalar = 5;
}

decode_transaction-l1_fee_example :
    (parsed.tx ≡ payment 4) × (l1_fee ecotone_fee parsed.l1_cost_input ≡ 0)
unfolding decode_transaction l1_input_of_bytes
decode_transaction-l1_fee_example =
    decode_transaction-l1_fee outside (4 ∷ []) (payment 4) parsed ecotone_fee refl refl

abbrev first_header : HeaderForExecution
first_header = record { number = 1; timestamp = 2; prev_randao = 0 }

abbrev executed_outcome : ExecutionOutcome
executed_outcome = record {
  receipts_root = 1;
  state_root = 1;
  logs_bloom = 1;
  gas_used = 100;
  total_tip = 100;
}

execute_transactions-parsed :
    execute_transactions outside 0 (parsed ∷ []) 996 first_header (λ n. none)
    ≡ some (executed_outcome, built_receipts, 1)
unfolding execute_transactions step act verdict normalize wrap_receipt envelope_tip_per_gas build
    tip_per_gas Blocks.last genesis_update Blocks.add base_fee_per_gas contains
execute_transactions-parsed = refl

execute_transactions-AreConsecutive_example :
    AreConsecutive 0 0 built_receipts × (executed_outcome.gas_used ≡ total_gas built_receipts)
execute_transactions-AreConsecutive_example =
    execute_transactions-AreConsecutive outside 0 (parsed ∷ []) 996 first_header (λ n. none)
      executed_outcome built_receipts 1 execute_transactions-parsed
