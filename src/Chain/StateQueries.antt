-- ===== src/Chain/StateQueries.antt =====
-- blockchain/src/state/read.rs: the state at a height, by the state root of its block. A machine over
-- the state at a root is a parameter, which stands for the resolver on the state trie.
use op_move.Base.Partial.{◌>>=◌}
use op_move.Base.{
  ℕ, zero, suc, ◌≡◌, refl, ap, ◌∙◌, List, Option, none, some, AccountAddress, B256, get_elem?,
}
use op_move.Chain.Types.{ExtendedBlock}
use op_move.Chain.EvMap.{EvMap, IsEvMap}
use op_move.Chain.Blocks.{BlockMemory, map_by_height, by_height, add_all, new}
use op_move.Chain.Blocks.Height.{AreNumbered, by_height-add_all}
use op_move.Execution.Vm.{Vm, Outcome}
use op_move.Execution.Session.{Session}
use op_move.Execution.Canonical.{Machine}
use op_move.Execution.Simulate.{quick_get_nonce, quick_get_eth_balance}

module _ (bm : EvMap ExtendedBlock) where
  -- `ReadStateRoot` of the memory.
  unfoldable pub state_root_by_height : BlockMemory bm → ℕ → Option B256
  unfolding map_by_height
  state_root_by_height mem height = map_by_height bm mem height (λ b. b.block.header.state_root)

  -- The root of the genesis state stands for that of the first block.
  unfoldable pub root_by_height : B256 → BlockMemory bm → ℕ → Option B256
  unfolding state_root_by_height
  root_by_height genesis_state_root mem zero = some genesis_state_root
  root_by_height genesis_state_root mem (suc height) = state_root_by_height mem (suc height)

  module _ {vm : Vm} {session : Session vm} (machine_at : B256 → Machine session) where
    unfoldable pub balance_at : B256 → BlockMemory bm → AccountAddress → ℕ → Option (Outcome ℕ)
    unfolding root_by_height quick_get_eth_balance
    balance_at genesis_state_root mem account height = do
      root ← root_by_height genesis_state_root mem height
      some (quick_get_eth_balance (machine_at root) account)

    unfoldable pub nonce_at : B256 → BlockMemory bm → AccountAddress → ℕ → Option (Outcome ℕ)
    unfolding root_by_height quick_get_nonce
    nonce_at genesis_state_root mem account height = do
      root ← root_by_height genesis_state_root mem height
      some (quick_get_nonce (machine_at root) account)

abbrev root_of : Option ExtendedBlock → Option B256
root_of none = none
root_of (some b) = some b.block.header.state_root

root_of_lem :
    (o : Option ExtendedBlock)
    → (o >>= λ b. some b.block.header.state_root) ≡ root_of (o >>= λ b. some b)
root_of_lem none = refl
root_of_lem (some b) = refl

-- In the memory of a numbered chain the root at a positive height is the state root of the block at
-- that place, if there is one.
pub root_by_height-add_all :
    (bm : EvMap ExtendedBlock) (genesis_state_root : B256) (bs : List ExtendedBlock) (k : ℕ)
    → IsEvMap bm
    → AreNumbered 0 bs
    → root_by_height bm genesis_state_root (add_all bm (new bm) bs) (suc k)
      ≡ root_of (get_elem? bs (suc k))
unfolding root_by_height state_root_by_height map_by_height by_height
root_by_height-add_all bm genesis_state_root bs k law numbered =
    root_of_lem (bm.get_one (add_all bm (new bm) bs).heights (suc k))
    ∙ ap root_of (by_height-add_all bm bs (suc k) law numbered).0
