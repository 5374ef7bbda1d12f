-- ===== src/App/Build/Extension.antt =====
-- Building blocks extends one chain: numbers without a gap, each block on its parent, whatever the
-- transactions do.
use mathlib.Core.Option.{some-injective}
use mathlib.Core.Path.{subst}
use mathlib.Core.List.{append-nil, append_assoc}
use op_move.Base.Partial.{>>=-eq-some}
use op_move.Base.{
  ◌||◌, ℕ, ◌+◌, ◌≡◌, refl, sym, ◌∙◌, ap, some, List, [], ◌∷◌, ◌++◌, Bool, PayloadId, inl, inr, true,
  false, length, get_elem?, arith,
}
use op_move.Chain.Types.{ExtendedBlock, ExtendedReceipt}
use op_move.Chain.EvMap.{IsEvMap}
use op_move.Chain.Blocks
use op_move.Chain.Blocks.Height.{Holds, add-Holds, new-Holds, by_height-Holds, last-Holds}
use op_move.App.Types.{Deps, Application, Payload}
use op_move.App.Build.{
  store, add_transaction, genesis_update, Command, start_block_build_command,
  add_transaction_command, genesis_update_command, handle_command, work, new_block, new_header,
  execution_header,
}
use op_move.App.Build.Made.{IsBuilt, build_lem, start_block_build_lem}

-- Each block names the hash of the one before it as its parent, and has the next number.
abbrev pub Follows : ExtendedBlock → ExtendedBlock → Type 0
Follows parent block =
    (block.block.header.parent_hash ≡ parent.hash)
    × (block.block.header.number ≡ parent.block.header.number + 1)

abbrev pub AreLinked : ExtendedBlock → List ExtendedBlock → Type 0
AreLinked parent [] = Unit
AreLinked parent (b ∷ bs) = Follows parent b × AreLinked b bs

-- The last block of a chain that starts with a genesis block.
abbrev pub tip : ExtendedBlock → List ExtendedBlock → ExtendedBlock
tip parent [] = parent
tip parent (b ∷ bs) = tip b bs

snoc-AreLinked :
    (g : ExtendedBlock) (bs : List ExtendedBlock) (b : ExtendedBlock)
    → AreLinked g bs
    → Follows (tip g bs) b
    → AreLinked g (bs ++ b ∷ [])
snoc-AreLinked g [] b l f = (f, tt)
snoc-AreLinked g (c ∷ cs) b l f = (l.0, snoc-AreLinked c cs b l.1 f)

tip-snoc :
    (g : ExtendedBlock) (bs : List ExtendedBlock) (b : ExtendedBlock) → tip g (bs ++ b ∷ []) ≡ b
tip-snoc g [] b = refl
tip-snoc g (c ∷ cs) b = tip-snoc c cs b

get_elem?-tip :
    (g : ExtendedBlock) (bs : List ExtendedBlock) → get_elem? (g ∷ bs) (length bs) ≡ some (tip g bs)
get_elem?-tip g [] = refl
get_elem?-tip g (c ∷ cs) = get_elem?-tip c cs

tip-number :
    (g : ExtendedBlock) (bs : List ExtendedBlock)
    → AreLinked g bs
    → (tip g bs).block.header.number ≡ g.block.header.number + length bs
tip-number g [] l = omega arith
tip-number g (c ∷ cs) l = omega (arith, tip-number c cs l.1, l.0.1)

module _ (d : Deps) where
  new_block-Follows :
      (app : Application d) (attributes : Payload) (id : PayloadId) (block : ExtendedBlock)
      (rs : List ExtendedReceipt) (after : Application d)
      (b : IsBuilt d app attributes id block rs after)
      → Follows b.parent block
  unfolding new_block new_header execution_header
  new_block-Follows app attributes id block rs after b =
      (ap (λ t. t.block.header.parent_hash) b.made, ap (λ t. t.block.header.number) b.made)

  abbrev is_genesis_update : Command d → Bool
  is_genesis_update (genesis_update_command block) = true
  is_genesis_update _ = false

  abbrev pub has_genesis_update : List (Command d) → Bool
  has_genesis_update [] = false
  has_genesis_update (msg ∷ msgs) = is_genesis_update msg || has_genesis_update msgs

  -- The memory holds a chain from a genesis block numbered zero.
  pub record IsChain (g : ExtendedBlock) (bs : List ExtendedBlock) (app : Application d)
      : Type 0 where
    pub held : Holds d.blocks app.storage.block_memory (g ∷ bs)
    pub genesis : g.block.header.number ≡ 0
    pub linked : AreLinked g bs

  stored_blocks :
      (app : Application d) (attributes : Payload) (id : PayloadId) (block : ExtendedBlock)
      (rs : List ExtendedReceipt) (after : Application d)
      → IsBuilt d app attributes id block rs after
      → after.storage.block_memory ≡ Blocks.add d.blocks app.storage.block_memory block
  unfolding store
  stored_blocks app attributes id block rs after b = ap (λ t. t.storage.block_memory) b.stored

  module _ (law : IsEvMap d.blocks) where
    parent-tip :
        (g : ExtendedBlock) (bs : List ExtendedBlock) (app : Application d) (attributes : Payload)
        (id : PayloadId) (block : ExtendedBlock) (rs : List ExtendedReceipt) (after : Application d)
        (b : IsBuilt d app attributes id block rs after)
        → IsChain g bs app
        → b.parent ≡ tip g bs
    parent-tip g bs app attributes id block rs after b c = some-injective _ _ (
        sym b.parent_last
        ∙ last-Holds d.blocks law app.storage.block_memory (g ∷ bs) (length bs) refl c.held
        ∙ get_elem?-tip g bs)

    built-IsChain :
        (g : ExtendedBlock) (bs : List ExtendedBlock) (app : Application d) (attributes : Payload)
        (id : PayloadId) (block : ExtendedBlock) (rs : List ExtendedReceipt) (after : Application d)
        → IsBuilt d app attributes id block rs after
        → IsChain g bs app
        → IsChain g (bs ++ block ∷ []) after
    built-IsChain g bs app attributes id block rs after b c =
        let f : Follows (tip g bs) block =
          subst (λ p. Follows p block) (parent-tip g bs app attributes id block rs after b c)
            (new_block-Follows app attributes id block rs after b) in
        let n : block.block.header.number ≡ length (g ∷ bs) =
          omega (arith, f.1, tip-number g bs c.linked, c.genesis) in
        record {
          held =
              subst (λ mem. Holds d.blocks mem (g ∷ bs ++ block ∷ []))
                (sym (stored_blocks app attributes id block rs after b))
                (add-Holds d.blocks law app.storage.block_memory (g ∷ bs) block c.held n);
          genesis = c.genesis;
          linked = snoc-AreLinked g bs block c.linked f;
        }

    handle_command-IsChain :
        (g : ExtendedBlock) (bs : List ExtendedBlock) (app after : Application d) (msg : Command d)
        → IsChain g bs app
        → is_genesis_update msg ≡ false
        → handle_command d app msg ≡ some after
        → (cs : List ExtendedBlock) × IsChain g (bs ++ cs) after
    unfolding handle_command add_transaction
    handle_command-IsChain g bs app after (start_block_build_command attributes id) c n h =
        elim (start_block_build_lem d app attributes id after h) [
          | inl (same, known) ↦ ([], rw append-nil (subst (IsChain g bs) (sym same) c))
          | inr (block, rs, made) ↦ (
            block ∷ [],
            built-IsChain g bs app attributes id block rs after
                (build_lem d app attributes id block rs after made) c,
          )
        ]
    handle_command-IsChain g bs app after (add_transaction_command tx_hash tx) c n h = (
      [],
      rw append-nil (
          subst (IsChain g bs) (some-injective _ _ h)
            (record { held = c.held; genesis = c.genesis; linked = c.linked })),
    )
    handle_command-IsChain g bs app after (genesis_update_command block) c n h = cc

    work-IsChain :
        (g : ExtendedBlock) (bs : List ExtendedBlock) (app after : Application d)
        (msgs : List (Command d))
        → IsChain g bs app
        → has_genesis_update msgs ≡ false
        → work d app msgs ≡ some after
        → (cs : List ExtendedBlock) × IsChain g (bs ++ cs) after
    unfolding work
    work-IsChain g bs app after [] c n h =
        ([], rw append-nil (subst (IsChain g bs) (some-injective _ _ h) c))
    work-IsChain g bs app after (msg ∷ msgs) c n h =
        let (app', handled, rest) = >>=-eq-some (handle_command d app msg) (λ a. work d a msgs) h in
        let (cs, c') = handle_command-IsChain g bs app app' msg c (ground arith) handled in
        let (es, c'') = work-IsChain g (bs ++ cs) app' after msgs c' (ground arith) rest in
        (cs ++ es, rw (← append_assoc bs cs es) c'')

-- From an application without blocks, a genesis block with number zero and then any transactions and
-- builds: the memory holds one chain from that block, with numbers without a gap, in which each
-- block names its predecessor's hash; it is found by height, and the last block is its tip.
pub work-AreLinked :
    (d : Deps) (g : ExtendedBlock) (app after : Application d) (msgs : List (Command d))
    → IsEvMap d.blocks
    → app.storage.block_memory ≡ Blocks.new d.blocks
    → g.block.header.number ≡ 0
    → has_genesis_update d msgs ≡ false
    → work d app (genesis_update_command g ∷ msgs) ≡ some after
    → (cs : List ExtendedBlock) × AreLinked g cs
      × ((k : ℕ) → Blocks.by_height d.blocks after.storage.block_memory k ≡ get_elem? (g ∷ cs) k)
      × (Blocks.last d.blocks after.storage.block_memory ≡ some (tip g cs))
unfolding work handle_command genesis_update
work-AreLinked d g app after msgs law e z n h =
    let start : IsChain d g [] (genesis_update d app g) = record {
      held =
          subst (λ mem. Holds d.blocks (Blocks.add d.blocks mem g) (g ∷ [])) (sym e)
            (add-Holds d.blocks law (Blocks.new d.blocks) [] g (new-Holds d.blocks law) z);
      genesis = z;
      linked = tt;
    } in
    let (cs, c) = work-IsChain d law g [] (genesis_update d app g) after msgs start n h in
    (
      cs,
      c.linked,
      λ k. by_height-Holds d.blocks law after.storage.block_memory (g ∷ cs) k c.held,
      last-Holds d.blocks law after.storage.block_memory (g ∷ cs) (length cs) refl c.held
          ∙ get_elem?-tip g cs,
    )
