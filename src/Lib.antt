-- ===== src/Lib.antt =====
-- op-move, an execution engine for the OP stack that runs Move: the parts that decide which
-- transactions are executed, what they pay, and which blocks and receipts come of them.
--
-- A node receives commands over a channel (app/src/actor.rs). A command adds a transaction to the
-- pool, stores a genesis block, or builds a block from payload attributes (app/src/command.rs): the
-- transactions of the attributes and of the pool are filtered by the receipts on record, executed
-- one after the other at the base fee that the parent block sets (blockchain/src/block/gas.rs), and
-- receipts, transactions and block go into the memories of the blockchain crate, from which queries
-- are answered.
--
-- The files:
-- - Base: shared types, lists, association lists for `HashMap`, and `U256` with its wrapping and
--   saturating operations written out over the natural numbers.
-- - MoveTypes: the Move types that the program inspects.
-- - Error: the error type of shared/src/error.rs, with the bind of `Result`.
-- - Primitives: shared/src/primitives.rs, conversions of addresses (on bytes and on numbers) and
--   saturation by limbs.
-- - Transaction: execution/src/transaction.rs. Types has the envelopes, Normalize the conversion to
--   the normalised transaction (`try_from`), Parse and Reading `TransactionData::parse_from`,
--   Receipt `wrap_receipt`.
-- - Gas: execution/src/gas.rs, tips, the Ecotone layer-1 fee and the layer-2 fee.
-- - BaseFee: blockchain/src/block/gas.rs, the base fee after EIP-1559.
-- - Chain: the blockchain crate. EvMap is the interface of the multi-map crate evmap; Blocks,
--   Receipts and Transactions are the memories (`add`, `extend`, `by_hash` and so on, under the
--   source's names), Responses the answers of block and payload queries.
--   StateQueries is the roots, balances and nonces at a height of blockchain/src/state/read.rs.
-- - App: the app crate. Types has the state (`Application`) and the parameters; Execute is
--   `execute_transactions`, with one iteration of its loop as `step`; Build is `start_block_build`
--   (its work as `build`), `add_transaction`, `genesis_update`, `handle_command` and `work`.
--   Queries is app/src/query.rs over heights and tags.
-- - Execution: the execution crate around the Move VM. Vm is the interface of the framework's
--   functions and the gas meter, with the outcomes of steps (a value, an error, or a panic), Session
--   that of the functions of users, types, the EVM native and modules; Nonces is
--   execution/src/nonces.rs, Token execution/src/eth_token.rs, Verify `verify_transaction` of
--   execution/src/canonical.rs and Canonical the rest of that file; Calls and Deploy are
--   execution/src/execute.rs, SessionId execution/src/session_id.rs, and Deposited
--   execution/src/deposited.rs with `execute_transaction` of execution/src/lib.rs. Simulate is
--   execution/src/simulate.rs with the two queries in sessions of their own.
-- - Tags: execution/src/tag_validation.rs, and in Layouts execution/src/layout.rs.
-- - EvmExt: evm-ext/src. Results is type_utils.rs, Events events.rs with the logs of a session of
--   execution/src/lib.rs, Storage state/storage.rs and the storage part of state_changes.rs,
--   Solidity solidity_abi.rs between Move and Solidity values, BlockHashes `block_hash_ref` of
--   native_evm_context.rs, and Words the byte order of hashes.
-- - Api: the requests for payloads, api/src/methods/new_payload.rs and get_payload.rs, and the
--   names of api/src/method_name.rs.
-- - Storage: the persistent backends of storage/. Keys is the order and encoding of keys (generic.rs),
--   Db what both databases hold, Contents the chain in such contents; Rocks is storage/rocksdb/src
--   and Heed storage/heed/src (block.rs, payload.rs, receipt.rs, transaction.rs), each with Blocks
--   and Memory for the proofs and Tries for trie.rs, evm_storage_trie.rs and the roots of state.rs.
-- - State: state/src, the values of a change set in the state trie; Store is the insertion and
--   `RocksDbState` of storage/rocksdb/src/state.rs (`new` as `open_state`), Queries the balances and
--   nonces of that file, Resolver `EthTrieResolver` of blockchain/src/state/read.rs.
-- - Examples: concrete parameters, and the theorems at concrete inputs.
--
-- Numbers are natural numbers with the source's wrap-around, saturation or panic written out; hashes
-- and addresses are numbers, byte strings lists of numbers. A panic, also of `unwrap`, is no result
-- of an `Option`, or an outcome of its own. The writer and reader handles of a memory are one value,
-- whose pending entries are the writer's and whose visible entries are the readers'. The order in
-- which a `HashMap` is walked is that of a list. Loops over lists and types are structural recursion.
-- The loop over the stack in the validation of values is on fuel, one more than the number of values,
-- which is enough since a round takes one value off the stack.
--
-- Parameters, with what is asked of them where a property needs it: the multi-map (IsEvMap: what it
-- documents on insertion, refresh and lookup), the BCS codec (ReadsBack), the Move VM (IsAccounts
-- and IsLedger: which accounts exist, and what the modules `account` and `eth_token` do to nonces
-- and balances; Finishes: the session ends without an error), the tries (IsEthTrie: reading after
-- writing, and words that decode to what was encoded), the types of the framework (IsUnary: the five
-- structs have one type parameter at most), RocksDB and LMDB (IsRocksDb, IsHeed: reads, batches and
-- transactions do not fail and do what they document), serde_json (ReadBack: what was written reads
-- back), the state trie (IsMerkleTrie: its store does not fail and keeps the nodes, and an empty
-- value removes the key), state keys and values of Aptos (IsEncodings), and without any demand
-- signature recovery, RLP, hashing, merkle roots and blooms. The app crate takes the execution of
-- one transaction as a parameter too, and the end of a session gives the changes of accounts by the
-- EVM, which EvmExt.Storage models for the slots only.
--
-- Keys in a database are of 8, 20 or 32 bytes, so that the properties of the backends are about
-- heights below 2 ^ 64, addresses below 2 ^ 160 and hashes below 2 ^ 256.
--
-- Not modelled: the Move and EVM interpreters, the binary encoding of the Solidity ABI, the in-memory
-- state and the staging store of the trie crate, merkle proofs, the account and code resources of
-- state_changes.rs, the JSON-RPC glue of the api crate and its fork choice, the channels, the server
-- and the genesis image.
pub mod Base
pub mod MoveTypes
pub mod Error
pub mod Primitives
pub mod Transaction
pub mod Gas
pub mod BaseFee
pub mod Chain
pub mod App
pub mod Execution
pub mod Tags
pub mod EvmExt
pub mod Api
pub mod Storage
pub mod State
pub mod Examples
