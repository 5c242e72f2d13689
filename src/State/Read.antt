-- ===== src/State/Read.antt =====
-- The reads of reth-trie-risc0-zkvm/src/lib.rs, and its `StatelessTrie` implementation.
pub mod Absent
use reth_proofs.Prelude.{ℕ, Option, none, some, List, [], ◌∷◌, ◌==◌, if◌then◌else◌}
use reth_proofs.Outcome.{
  Outcome, ok, panic, unwrap, expect, in_library, storage_value_not_decoded, storage_witness_todo,
  account_witness_todo, ◌>>=◌,
}
use reth_proofs.Table.{Table, lookup, insert}
use reth_proofs.External.{Bytes, empty_root, to_be_bytes, TrieAccount, External}
use reth_proofs.State.{Risc0ZkvmTrie, ExecutionWitness}
use reth_proofs.State.Mpt.{get_rlp}
use reth_proofs.State.Build.{from_execution_witness}
use reth_proofs.State.Update.{HashedPostState, update}

module _ (x : External) where
  unfoldable pub compute_state_root : Risc0ZkvmTrie x → ℕ
  compute_state_root s = x.hash_slow s.state_trie.inner

  unfoldable pub account : Risc0ZkvmTrie x → Bytes → Outcome (Option TrieAccount)
  account s address = unwrap (get_rlp x x.account_codec s.state_trie (x.keccak256 address))

  abbrev pub decode_slot : Option Bytes → Outcome ℕ
  decode_slot none = ok 0
  decode_slot (some value_bytes) =
      expect (x.u256_codec.decode value_bytes) storage_value_not_decoded

  -- The branch of `storage` where no storage trie is at hand.
  abbrev absent_storage : Option TrieAccount → Outcome ℕ
  absent_storage none = panic account_witness_todo
  absent_storage (some account) =
      if account.storage_root == empty_root then ok 0 else panic storage_witness_todo

  abbrev storage_of : Risc0ZkvmTrie x → ℕ → ℕ → Option x.CachedTrie → Outcome ℕ
  storage_of s hashed_address index none = do
    account ← unwrap (get_rlp x x.account_codec s.state_trie hashed_address)
    absent_storage account
  storage_of s hashed_address index (some storage_trie) = do
    value ← x.trie_get storage_trie (x.keccak256 (to_be_bytes 32 index))
    decode_slot value

  unfoldable pub storage : Risc0ZkvmTrie x → Bytes → ℕ → Outcome ℕ
  storage s address index =
      let hashed_address = x.keccak256 address in
      storage_of s hashed_address index (lookup hashed_address s.storage_tries)

  unfoldable pub calculate_state_root :
      Risc0ZkvmTrie x → HashedPostState → Outcome (Risc0ZkvmTrie x × ℕ)
  unfolding compute_state_root
  calculate_state_root s state = do s' ← update x s state; ok (s', compute_state_root s')

  -- `StatelessTrie::new`: the codes by their hashes. `new_raw` is revm's, `none` where it panics.
  unfoldable pub codes_by_hash :
      {B : Type 0} (new_raw : Bytes → Option B) → Table B → List Bytes → Outcome (Table B)
  codes_by_hash new_raw bytecodes [] = ok bytecodes
  codes_by_hash new_raw bytecodes (encoded ∷ codes) = do
    bytecode ← expect (new_raw encoded) in_library
    codes_by_hash new_raw (insert (x.keccak256 encoded) bytecode bytecodes) codes

  unfoldable pub stateless_new :
      {B : Type 0} (new_raw : Bytes → Option B)
      → ExecutionWitness
      → ℕ
      → Outcome (Risc0ZkvmTrie x × Table B)
  stateless_new new_raw witness pre_state_root = do
    ethereum_state ← from_execution_witness x witness pre_state_root
    bytecodes ← codes_by_hash new_raw [] witness.codes
    ok (ethereum_state, bytecodes)
