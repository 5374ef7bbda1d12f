-- ===== src/App/Build/Decoding.antt =====
-- The layer-1 fee of the transactions that the payload attributes bring.
use mathlib.Core.Option.{some-injective}
use op_move.Base.{◌≡◌, sym, ◌∙◌, ap, some, [], Bytes}
use op_move.Transaction.Types.{OpTxEnvelope}
use op_move.Gas.{EcotoneGasFee, l1_input_of_bytes, l1_fee}
use op_move.App.Types.{Deps}
use op_move.App.Execute.{Candidate}
use op_move.App.Build.{decode_transaction}
use native.Mathlib.Nat.{zero-mul}

l1_fee-empty : (fee : EcotoneGasFee) → l1_fee fee (l1_input_of_bytes []) ≡ 0
unfolding l1_fee l1_input_of_bytes
l1_fee-empty fee = rw zero-mul

decode_transaction_lem :
    (d : Deps) (tx_bytes rest : Bytes) (tx : OpTxEnvelope)
    → d.decode tx_bytes ≡ some (tx, rest)
    → decode_transaction d tx_bytes
      ≡ some (record {
        tx_hash = d.keccak256 tx_bytes;
        tx = tx;
        l1_cost_input = l1_input_of_bytes rest;
      })
unfolding decode_transaction
decode_transaction_lem d tx_bytes rest tx e = rw e

-- A transaction of the payload attributes whose bytes decode to their end, as those of a well-formed
-- one do, has layer-1 fee zero under all fee parameters, whatever its size.
pub decode_transaction-l1_fee :
    (d : Deps) (tx_bytes : Bytes) (tx : OpTxEnvelope) (c : Candidate) (fee : EcotoneGasFee)
    → d.decode tx_bytes ≡ some (tx, [])
    → decode_transaction d tx_bytes ≡ some c
    → (c.tx ≡ tx) × (l1_fee fee c.l1_cost_input ≡ 0)
decode_transaction-l1_fee d tx_bytes tx c fee e h =
    let same = some-injective _ _ (sym (decode_transaction_lem d tx_bytes [] tx e) ∙ h) in
    (sym (ap (λ t. t.tx) same), ap (λ t. l1_fee fee t.l1_cost_input) (sym same) ∙ l1_fee-empty fee)
