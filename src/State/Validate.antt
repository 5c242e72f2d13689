-- ===== src/State/Validate.antt =====
-- The two validators of reth-trie-risc0-zkvm/src/lib.rs, which host and guest both run.
pub mod Synced
use reth_proofs.Prelude.{ℕ, [], ◌∷◌, ◌==◌, if◌then◌else◌}
use reth_proofs.Outcome.{
  Outcome, ok, err, check, map_err, ok_or, state_root_mismatch, account_not_decoded,
  account_not_found, mismatched_storage_root, ◌>>=◌, ◌>>◌,
}
use reth_proofs.Table.{Table}
use reth_proofs.External.{TrieAccount, External}
use reth_proofs.State.Mpt.{MptNode, get_rlp}

module _ (x : External) where
  unfoldable pub validate_state_trie : MptNode x TrieAccount → ℕ → Outcome (Unit {0})
  validate_state_trie state_trie pre_state_root =
      check (x.hash_slow state_trie.inner == pre_state_root) state_root_mismatch

  -- One round of the loop of `validate_storage_tries`.
  unfoldable pub validate_storage_trie :
      MptNode x TrieAccount → ℕ → x.CachedTrie → Outcome (Unit {0})
  validate_storage_trie state_trie hashed_address storage_trie = do
    found ← map_err account_not_decoded (get_rlp x x.account_codec state_trie hashed_address)
    account ← ok_or found account_not_found
    let actual_hash = x.hash_slow storage_trie
    if account.storage_root == actual_hash
        then ok tt
        else err (mismatched_storage_root hashed_address account.storage_root actual_hash)

  unfoldable pub validate_storage_tries :
      MptNode x TrieAccount → Table x.CachedTrie → Outcome (Unit {0})
  validate_storage_tries state_trie [] = ok tt
  validate_storage_tries state_trie ((hashed_address, storage_trie) ∷ rest) = do
    validate_storage_trie state_trie hashed_address storage_trie
    validate_storage_tries state_trie rest
