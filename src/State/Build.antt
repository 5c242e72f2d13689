-- ===== src/State/Build.antt =====
-- `build_validated_tries` and `from_execution_witness`: the host's tries from a witness.
pub mod Detected
pub mod Tries
pub mod Witness
use reth_proofs.Prelude.{ℕ, Option, none, some, List, [], ◌∷◌, length, ◌==◌, if◌then◌else◌}
use reth_proofs.Outcome.{Outcome, ok, unwrap, expect, account_bytes_not_decoded, ◌>>=◌, ◌>>◌}
use reth_proofs.Table.{Table, insert}
use reth_proofs.External.{Bytes, empty_root, TrieAccount, External}
use reth_proofs.State.{Risc0ZkvmTrie, ExecutionWitness}
use reth_proofs.State.Mpt.{MptNode, from_digest, hydrate}
use reth_proofs.State.Validate.{validate_state_trie, validate_storage_tries}

module _ (x : External) where
  -- Step 1: the RLP-encoded nodes by their hashes. The parallel map keeps the order of its input.
  unfoldable pub index_nodes : Table Bytes → List Bytes → Table Bytes
  index_nodes node_map [] = node_map
  index_nodes node_map (encoded ∷ rest) =
      index_nodes (insert (x.keccak256 encoded) encoded node_map) rest

  abbrev non_empty : ℕ → TrieAccount → Table ℕ → Table ℕ
  non_empty hashed_address account others =
      if account.storage_root == empty_root
      then others
      else (hashed_address, account.storage_root) ∷ others

  abbrev detect_account : ℕ → Option Bytes → Outcome (Table ℕ) → Outcome (Table ℕ)
  detect_account hashed_address none rest = rest
  detect_account hashed_address (some account_bytes) rest = do
    account ← expect (x.account_codec.decode account_bytes) account_bytes_not_decoded
    others ← rest
    ok (non_empty hashed_address account others)

  -- Step 3: the storage roots of the accounts that the witness's keys name, the empty ones left out.
  unfoldable pub detect_storage_tries : MptNode x TrieAccount → List Bytes → Outcome (Table ℕ)
  detect_storage_tries state_trie [] = ok []
  detect_storage_tries state_trie (key_bytes ∷ keys) =
      let rest = detect_storage_tries state_trie keys in
      if length key_bytes == 20
      then (do
        let hashed_address = x.keccak256 key_bytes
        account_bytes ← x.trie_get state_trie.inner hashed_address
        detect_account hashed_address account_bytes rest)
      else rest

  -- Step 4: a storage trie for each root that was detected.
  unfoldable pub build_storage_tries :
      Table Bytes → Table x.CachedTrie → Table ℕ → Outcome (Table x.CachedTrie)
  build_storage_tries node_map storage_tries [] = ok storage_tries
  build_storage_tries node_map storage_tries ((hashed_address, storage_root) ∷ detected) = do
    storage_trie ← unwrap (x.hydrate_from_rlp_map (x.trie_from_digest storage_root) node_map)
    build_storage_tries node_map (insert hashed_address storage_trie storage_tries) detected

  unfoldable pub build_validated_tries :
      ExecutionWitness → ℕ → Outcome (MptNode x TrieAccount × Table x.CachedTrie)
  build_validated_tries witness pre_state_root = do
    let node_map = index_nodes [] witness.state
    state_trie ← unwrap (hydrate x (from_digest x pre_state_root) node_map)
    storage_tries_detected ← detect_storage_tries state_trie witness.keys
    storage_tries ← build_storage_tries node_map [] storage_tries_detected
    validate_state_trie x state_trie pre_state_root
    validate_storage_tries x state_trie storage_tries
    ok (state_trie, storage_tries)

  unfoldable pub from_execution_witness : ExecutionWitness → ℕ → Outcome (Risc0ZkvmTrie x)
  from_execution_witness witness pre_state_root = do
    (state_trie, storage_tries) ← unwrap (build_validated_tries witness pre_state_root)
    ok (record { state_trie = state_trie; storage_tries = storage_tries })
