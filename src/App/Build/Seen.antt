-- ===== src/App/Build/Seen.antt =====
-- No block builds a payload twice or a transaction twice.
use mathlib.Core.Option.{some-injective}
use mathlib.Core.Path.{subst}
use op_move.Base.Partial.{>>=-eq-some}
use op_move.Base.{
  ==_iff, ◌≡◌, refl, sym, ◌∙◌, ap, some, List, [], ◌∷◌, map, filter, Bool, B256, PayloadId, is_some,
  inl, inr, ◌||◌, not, true, false, arith, eq_refl, ◌==◌, Bool-cases,
}
use op_move.Chain.Types.{ExtendedBlock, ExtendedReceipt, with_block_hash}
use op_move.Chain.EvMap.{EvMap, IsEvMap}
use op_move.Chain.Blocks
use op_move.Chain.Receipts
use op_move.Chain.Receipts.Seen.{has_receipt, IsRefreshed, extend-IsRefreshed, contains-extend}
use op_move.Chain.Responses.{SharedMemory, payload_by_id}
use op_move.App.Types.{Deps, Application, Payload}
use op_move.App.Execute.{Candidate}
use op_move.App.Build.{
  candidates, build, store, start_block_build, add_transaction, genesis_update, Command,
  start_block_build_command, add_transaction_command, genesis_update_command, handle_command, work,
  new_block,
}
use op_move.App.Build.Made.{IsBuilt, build_lem, start_block_build_lem, start_known}

by_payload_id-add :
    (m : EvMap ExtendedBlock) (law : IsEvMap m) (mem : Blocks.BlockMemory m) (b : ExtendedBlock)
    → (w : ExtendedBlock) × (Blocks.by_payload_id m (Blocks.add m mem b) b.payload_id ≡ some w)
unfolding Blocks.by_payload_id Blocks.add
by_payload_id-add m law mem b =
    law.get_one-some (m.refresh (m.insert b.payload_id b mem.payload_ids)) b.payload_id b
      (m.pending mem.payload_ids b.payload_id)
      (law.visible-refresh _ _
        ∙ law.pending-insert b.payload_id b mem.payload_ids b.payload_id
        ∙ rw eq_refl)

has_receipt-with_block_hash :
    (k hash : B256) (rs : List ExtendedReceipt)
    → has_receipt k (map (λ r. with_block_hash r hash) rs) ≡ has_receipt k rs
unfolding with_block_hash
has_receipt-with_block_hash k hash [] = refl
has_receipt-with_block_hash k hash (r ∷ rs) =
    ap (λ t. (r.transaction_hash == k) || t) (has_receipt-with_block_hash k hash rs)

module _ (d : Deps) where
  known_after :
      (mem : SharedMemory d.blocks d.transactions) (id : PayloadId) (w : ExtendedBlock)
      → Blocks.by_payload_id d.blocks mem.block_memory id ≡ some w
      → is_some (payload_by_id d.blocks d.transactions d.encode_2718 mem id) ≡ true
  unfolding payload_by_id
  known_after mem id w e = rw e

  built_known :
      (app : Application d) (attributes : Payload) (id : PayloadId) (block : ExtendedBlock)
      (rs : List ExtendedReceipt) (after : Application d)
      → IsEvMap d.blocks
      → IsBuilt d app attributes id block rs after
      → is_some (payload_by_id d.blocks d.transactions d.encode_2718 after.storage id) ≡ true
  unfolding store new_block
  built_known app attributes id block rs after law b =
      let (w, e) = by_payload_id-add d.blocks law app.storage.block_memory block in
      let same : block.payload_id ≡ id = ap (λ t. t.payload_id) b.made in
      known_after after.storage id w (rw (b.stored, ← same) e)

  module _ (law : IsEvMap d.receipts) where
    -- Readers see all receipts, and one of them is that of the transaction.
    pub record IsSeen (k : B256) (app : Application d) : Type 0 where
      pub refreshed : IsRefreshed d.receipts law app.receipt_memory
      pub contained : Receipts.contains d.receipts app.receipt_memory k ≡ true

    stored_receipts :
        (app : Application d) (attributes : Payload) (id : PayloadId) (block : ExtendedBlock)
        (rs : List ExtendedReceipt) (after : Application d)
        → IsBuilt d app attributes id block rs after
        → after.receipt_memory
          ≡ Receipts.extend d.receipts app.receipt_memory
              (map (λ r. with_block_hash r block.hash) rs)
    unfolding store
    stored_receipts app attributes id block rs after b = ap (λ t. t.receipt_memory) b.stored

    -- The receipts of the block are added to those that were there.
    pub built-contains :
        (app : Application d) (attributes : Payload) (id : PayloadId) (block : ExtendedBlock)
        (rs : List ExtendedReceipt) (after : Application d) (k : B256)
        → IsBuilt d app attributes id block rs after
        → IsRefreshed d.receipts law app.receipt_memory
        → Receipts.contains d.receipts after.receipt_memory k
          ≡ (Receipts.contains d.receipts app.receipt_memory k || has_receipt k rs)
    built-contains app attributes id block rs after k b r =
        rw
          (
            stored_receipts app attributes id block rs after b,
            ← has_receipt-with_block_hash k block.hash rs,
          )
          (contains-extend d.receipts law app.receipt_memory
            (map (λ r. with_block_hash r block.hash) rs) k r)

    built-IsRefreshed :
        (app : Application d) (attributes : Payload) (id : PayloadId) (block : ExtendedBlock)
        (rs : List ExtendedReceipt) (after : Application d)
        → IsBuilt d app attributes id block rs after
        → IsRefreshed d.receipts law after.receipt_memory
    built-IsRefreshed app attributes id block rs after b =
        rw (stored_receipts app attributes id block rs after b)
          (extend-IsRefreshed d.receipts law app.receipt_memory _)

    handle_command-IsSeen :
        (k : B256) (app after : Application d) (msg : Command d)
        → IsSeen k app
        → handle_command d app msg ≡ some after
        → IsSeen k after
    unfolding handle_command add_transaction genesis_update
    handle_command-IsSeen k app after (start_block_build_command attributes id) s h =
        elim (start_block_build_lem d app attributes id after h) [
          | inl (same, known) ↦ subst (IsSeen k) (sym same) s
          | inr (block, rs, made) ↦
              let b = build_lem d app attributes id block rs after made in
              record {
                refreshed = built-IsRefreshed app attributes id block rs after b;
                contained =
                    built-contains app attributes id block rs after k b s.refreshed
                    ∙ rw s.contained;
              }
        ]
    handle_command-IsSeen k app after (add_transaction_command tx_hash tx) s h =
        subst (IsSeen k) (some-injective _ _ h)
          (record { refreshed = s.refreshed; contained = s.contained })
    handle_command-IsSeen k app after (genesis_update_command block) s h =
        subst (IsSeen k) (some-injective _ _ h)
          (record { refreshed = s.refreshed; contained = s.contained })

    work-IsSeen :
        (k : B256) (app after : Application d) (msgs : List (Command d))
        → IsSeen k app
        → work d app msgs ≡ some after
        → IsSeen k after
    unfolding work
    work-IsSeen k app after [] s h = subst (IsSeen k) (some-injective _ _ h) s
    work-IsSeen k app after (msg ∷ msgs) s h =
        let (app', handled, rest) = >>=-eq-some (handle_command d app msg) (λ a. work d a msgs) h in
        work-IsSeen k app' after msgs (handle_command-IsSeen k app app' msg s handled) rest

-- Some candidate has the hash.
abbrev pub has_candidate : B256 → List Candidate → Bool
has_candidate k [] = false
has_candidate k (c ∷ cs) = (c.tx_hash == k) || has_candidate k cs

has_candidate-filter :
    (k : B256) (p : B256 → Bool) (cs : List Candidate)
    → p k ≡ true
    → has_candidate k (filter (λ c. not (p c.tx_hash)) cs) ≡ false
has_candidate-filter k p [] e = refl
has_candidate-filter k p (c ∷ cs) e = elim (Bool-cases (c.tx_hash == k)) [
  | inl here ↦ rw ((==_iff c.tx_hash k).0 here, e) (has_candidate-filter k p cs e)
  | inr other ↦ elim (Bool-cases (p c.tx_hash)) [
    | inl dropped ↦ rw dropped (has_candidate-filter k p cs e)
    | inr kept ↦ rw (kept, other) (has_candidate-filter k p cs e)
  ]
]

candidates-IsSeen :
    (d : Deps) (law : IsEvMap d.receipts) (k : B256) (app : Application d) (attributes : Payload)
    → IsSeen d law k app
    → has_candidate k (candidates d app attributes) ≡ false
unfolding candidates
candidates-IsSeen d law k app attributes s =
    has_candidate-filter k (Receipts.contains d.receipts app.receipt_memory) _ s.contained

-- A transaction that has a receipt in a block is never a candidate for a block again, however many
-- commands are handled in between and whatever a later payload or the pool holds.
pub candidates-work :
    (d : Deps) (app built later : Application d) (attributes later_attributes : Payload)
    (id : PayloadId) (block : ExtendedBlock) (rs : List ExtendedReceipt) (msgs : List (Command d))
    (k : B256) (law : IsEvMap d.receipts)
    → IsRefreshed d.receipts law app.receipt_memory
    → build d app attributes id ≡ some (block, rs, built)
    → has_receipt k rs ≡ true
    → work d built msgs ≡ some later
    → has_candidate k (candidates d later later_attributes) ≡ false
candidates-work d app built later attributes later_attributes id block rs msgs k law r h e w =
    let b = build_lem d app attributes id block rs built h in
    let s : IsSeen d law k built = record {
      refreshed = built-IsRefreshed d law app attributes id block rs built b;
      contained = built-contains d law app attributes id block rs built k b r ∙ rw e (ground arith);
    } in
    candidates-IsSeen d law k later later_attributes (work-IsSeen d law k built later msgs s w)

-- A payload that has been built is not built again: a second command with its id changes nothing,
-- whatever its attributes.
pub start_block_build-start_block_build :
    (d : Deps) (app after : Application d) (attributes other : Payload) (id : PayloadId)
    → IsEvMap d.blocks
    → start_block_build d app attributes id ≡ some after
    → start_block_build d after other id ≡ some after
start_block_build-start_block_build d app after attributes other id law h =
    elim (start_block_build_lem d app attributes id after h) [
      | inl (same, known) ↦ start_known d after other id (rw same known)
      | inr (block, rs, made) ↦ start_known d after other id (
          built_known d app attributes id block rs after law
            (build_lem d app attributes id block rs after made))
    ]
