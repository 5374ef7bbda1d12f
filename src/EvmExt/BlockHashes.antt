-- ===== src/EvmExt/BlockHashes.antt =====
-- evm-ext/src/native_evm_context.rs: the hashes of earlier blocks that the EVM can ask for.
use op_move.Base.{ℕ, ◌-◌, ◌&&◌, Option, B256, unwrap_or, leb, ltb, if◌then◌else◌}

-- `ResolverBackedDB::block_hash_ref`.
unfoldable pub block_hash_ref : (ℕ → Option B256) → ℕ → ℕ → B256
block_hash_ref hash_by_number current_block_number number =
    let lower_bound = current_block_number - 256 in
    if leb lower_bound number && ltb number current_block_number
    then unwrap_or (hash_by_number number) 0
    else 0
