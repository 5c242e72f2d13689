-- ===== src/State/Read/Absent.antt =====
-- `storage` at an address without an account leaf.
use reth_proofs.Prelude.{ℕ, ◌≡◌, some, none}
use reth_proofs.Outcome.{ok, panic, account_witness_todo}
use reth_proofs.Table.{lookup}
use reth_proofs.External.{Bytes, External, TrieLaws, CodecLaws}
use reth_proofs.State.{Risc0ZkvmTrie}
use reth_proofs.State.Mpt.{get_rlp}
use reth_proofs.State.Read.{storage}
use reth_proofs.State.Update.{HashedPostState, update}
use reth_proofs.State.Update.Refinement.{IsDiff, deletion-update}

module _ (x : External) where
  -- Without a leaf there is no storage root to say that the storage is empty.
  pub storage_absent :
      (s : Risc0ZkvmTrie x) (address : Bytes) (index : ℕ)
      → get_rlp x x.account_codec s.state_trie (x.keccak256 address) ≡ ok none
      → lookup (x.keccak256 address) s.storage_tries ≡ none
      → storage x s address index ≡ panic account_witness_todo
  unfolding storage
  storage_absent s address index leaf absent = rw (absent, leaf)

  -- After an update that succeeds, by a diff of maps that deletes the account of an address,
  -- `storage` of each slot of the address panics: it reports a missing account, and not zero.
  pub storage-update_deleted :
      (laws : TrieLaws x) (codec : CodecLaws x.account_codec) (s s' : Risc0ZkvmTrie x)
      → (p : HashedPostState) (address : Bytes) (index : ℕ) → IsDiff x p
      → update x s p ≡ ok s'
      → lookup (x.keccak256 address) p.accounts ≡ some none
      → storage x s' address index ≡ panic account_witness_todo
  storage-update_deleted laws codec s s' p address index d h e =
      let (leaf, absent) = deletion-update x laws codec s s' p (x.keccak256 address) d h e in
      storage_absent s' address index leaf absent
