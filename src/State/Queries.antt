-- ===== src/State/Queries.antt =====
-- `RocksDbStateQueries` of storage/rocksdb/src/state.rs: balances and nonces at a height, on the state
-- trie at the root of the height. The roots by height are those of RocksDB; a machine over a trie is a
-- parameter.
use op_move.Base.{
  ℕ, ◌^◌, ◌<◌, ◌≡◌, refl, ◌∙◌, ap, List, ◌∷◌, Option, none, some, AccountAddress, B256, Bytes,
  length, get_elem?,
}
use op_move.Storage.Db.{DbResult, ok, err, panicked, ◌>>=◌, ColumnFamily, RocksDb, IsRocksDb}
use op_move.Storage.Rocks.Tries.{root_by_height}
use op_move.Storage.Rocks.Tries.Heights.{AreRoots, push_all, root_by_height-push_all}
use op_move.State.Store.{MerkleTrie, unwrap}
use op_move.Execution.Vm.{Vm, Outcome}
use op_move.Execution.Session.{Session}
use op_move.Execution.Canonical.{Machine}
use op_move.Execution.Simulate.{quick_get_nonce, quick_get_eth_balance}

-- `ok()?` on the tree, which may have panicked.
abbrev pub answered : {T A : Type 0} → (T → Outcome A) → DbResult T → Option (Outcome A)
answered query (ok trie) = some (query trie)
answered query (err e) = none
answered query panicked = some Outcome.panicked

module _ (t : MerkleTrie) (trie_db : t.Db) where
  -- A height without a root has an empty trie.
  abbrev pub tree_of : Option B256 → DbResult t.Trie
  tree_of (some root) = unwrap (t.from_root trie_db root)
  tree_of none = ok (t.new_trie trie_db)

  module _ (r : RocksDb) (genesis_state_root : B256) where
    unfoldable pub tree : r.Handle → ℕ → DbResult t.Trie
    unfolding root_by_height
    tree db height = do root ← root_by_height r genesis_state_root db height; tree_of root

    module _ {vm : Vm} {session : Session vm} (machine_of : t.Trie → Machine session) where
      unfoldable pub balance_at : r.Handle → AccountAddress → ℕ → Option (Outcome ℕ)
      unfolding tree quick_get_eth_balance
      balance_at db account height =
          answered (λ trie. quick_get_eth_balance (machine_of trie) account) (tree db height)

      unfoldable pub nonce_at : r.Handle → AccountAddress → ℕ → Option (Outcome ℕ)
      unfolding tree quick_get_nonce
      nonce_at db account height =
          answered (λ trie. quick_get_nonce (machine_of trie) account) (tree db height)

-- An answer from the root of a height, and another one where there is no root.
abbrev pub by_root : {A : Type 0} → (B256 → A) → A → Option B256 → A
by_root from_root without_root (some root) = from_root root
by_root from_root without_root none = without_root

answered-by_root :
    (t : MerkleTrie) (trie_db : t.Db) {A : Type 0} (query : t.Trie → Outcome A) (o : Option B256)
    → answered query (tree_of t trie_db o)
      ≡ by_root
          (λ root. answered query (unwrap (t.from_root trie_db root)))
          (some (query (t.new_trie trie_db)))
          o
answered-by_root t trie_db query (some root) = refl
answered-by_root t trie_db query none = refl

-- State roots are pushed onto an empty database, and heights are below 2 ^ 64. The nonce of an account
-- at a height is then that in the trie opened at the root of the height, where it opens; the root is
-- that of genesis for height 0 and the k-th one pushed for height k. At a height that is not reached
-- yet the query does not fail for want of a root but answers from a new trie. Balances go likewise.
pub nonce_at-push_all :
    (t : MerkleTrie) (trie_db : t.Db) (r : RocksDb) (db : r.Handle) (genesis_state_root : B256)
    (vm : Vm) (session : Session vm) (machine_of : t.Trie → Machine session) (roots : List B256)
    (account : AccountAddress) (k : ℕ)
    → IsRocksDb r
    → ((cf : ColumnFamily) (key : Bytes) → r.contents db cf key ≡ none)
    → AreRoots roots
    → length roots < 256 ^ 8
    → k < 256 ^ 8
    → (db' : r.Handle) × (push_all r db roots ≡ ok db')
      × (nonce_at t trie_db r genesis_state_root machine_of db' account k
          ≡ by_root
              (λ root.
                answered
                  (λ trie. quick_get_nonce (machine_of trie) account)
                  (unwrap (t.from_root trie_db root)))
              (some (quick_get_nonce (machine_of (t.new_trie trie_db)) account))
              (get_elem? (genesis_state_root ∷ roots) k))
      × (balance_at t trie_db r genesis_state_root machine_of db' account k
          ≡ by_root
              (λ root.
                answered
                  (λ trie. quick_get_eth_balance (machine_of trie) account)
                  (unwrap (t.from_root trie_db root)))
              (some (quick_get_eth_balance (machine_of (t.new_trie trie_db)) account))
              (get_elem? (genesis_state_root ∷ roots) k))
unfolding nonce_at balance_at tree root_by_height
nonce_at-push_all t trie_db r db genesis_state_root vm session machine_of roots account k law empty
      h low kl =
    let (db', pushed, found, height) =
      root_by_height-push_all r db genesis_state_root roots k law empty h low kl in
    let nonce : t.Trie → Outcome ℕ = λ trie. quick_get_nonce (machine_of trie) account in
    let balance : t.Trie → Outcome ℕ = λ trie. quick_get_eth_balance (machine_of trie) account in
    let at = get_elem? (genesis_state_root ∷ roots) k in
    (
      db',
      pushed,
      ap (λ o. answered nonce (do root ← o; tree_of t trie_db root)) found
          ∙ answered-by_root t trie_db nonce at,
      ap (λ o. answered balance (do root ← o; tree_of t trie_db root)) found
          ∙ answered-by_root t trie_db balance at,
    )
