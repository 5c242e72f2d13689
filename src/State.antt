-- ===== src/State.antt =====
-- reth-trie-risc0-zkvm/src/lib.rs: the Ethereum state as a state trie and a table of storage tries.
-- The crate's mpt.rs is State/Mpt.antt; the functions stand in the children, by what they do.
pub mod Mpt
pub mod Validate
pub mod Build
pub mod Update
pub mod Read
use reth_proofs.Prelude.{ℕ, List}
use reth_proofs.Table.{Table}
use reth_proofs.External.{Bytes, TrieAccount, External}
use Mpt.{MptNode}

pub record Risc0ZkvmTrie (x : External) : Type 0 where
  pub state_trie : MptNode x TrieAccount
  pub storage_tries : Table x.CachedTrie

-- `alloy_rpc_types_debug::ExecutionWitness`
pub record ExecutionWitness : Type 0 where
  pub state : List Bytes
  pub codes : List Bytes
  pub keys : List Bytes
  pub headers : List Bytes
