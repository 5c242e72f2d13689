-- ===== src/Prototype/Debug.antt =====
-- `debug_local_block_and_witness` of prototype/src/main.rs, with `format_trie` of triedb_utils.rs: a
-- stored block and its witness are checked, and described in text files. The texts are left out.
pub mod Highest
use reth_proofs.Prelude.{
  ℕ, ◌+◌, ◌%◌, ◌^◌, Bool, Option, none, some, [], ◌∷◌, leb, ◌==◌, if◌then◌else◌,
}
use reth_proofs.Outcome.{
  Outcome, ok, panic, check, unwrap, expect, unable_to_write, no_block_hash, not_the_parent,
  not_supported_for_new_trie, ◌>>=◌, ◌>>◌,
}
use reth_proofs.Table.{Table}
use reth_proofs.External.{Bytes, External}
use reth_proofs.Core.{Alloy, Block}
use reth_proofs.Core.TrieDb.{TrieDb, from_execution_witness}
use reth_proofs.Prototype.{Node}
use reth_proofs.Prototype.Rpc.{Rpc, Files, load_block_from_file, load_block_witness_from_file}

-- `max` of a key and the greatest of the others
abbrev pub larger : ℕ → Option ℕ → ℕ
larger k none = k
larger k (some j) = if leb k j then j else k

-- `trie.block_hashes.keys().max()`
unfoldable pub max_key : Table ℕ → Option ℕ
max_key [] = none
max_key ((k, hash) ∷ entries) = some (larger k (max_key entries))

module _ (x : External) (y : Alloy) where
  -- The highest block of the trie is the parent of the block.
  unfoldable pub check_highest : TrieDb x y → Block y → Outcome (Unit {0})
  check_highest trie block = do
    highest_block_number ← expect (max_key trie.block_hashes) no_block_hash
    check ((highest_block_number + 1) % 2 ^ 64 == block.header.number)
        (not_the_parent highest_block_number block.header.number)

  unfoldable pub format_trie : TrieDb x y → Outcome Bytes
  format_trie trie = panic not_supported_for_new_trie

  module _ (n : Node y) (r : Rpc y n) where
    -- `size` is that of the trie crate.
    unfoldable pub debug_local_block_and_witness :
        (size : x.CachedTrie → ℕ) → Files → ℕ → Outcome (Unit {0})
    debug_local_block_and_witness size files block_number = do
      rpc_block ← unwrap (load_block_from_file y n r files block_number)
      witness ← unwrap (load_block_witness_from_file y n r files block_number)
      check files.writable unable_to_write
      let block = n.rpc_block_to_consensus_block rpc_block
      trie ← unwrap (from_execution_witness x y witness block)
      if size trie.state.state_trie.inner == 0 then ok tt else do
        check_highest trie block
        trie_debug ← format_trie trie
        check files.writable unable_to_write
