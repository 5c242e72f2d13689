-- ===== src/Core/TrieDb.antt =====
-- core/src/triedb.rs: the database that the EVM reads.
pub mod Reads
use reth_proofs.Prelude.{ℕ, Option, none, some, List, [], ◌∷◌}
use reth_proofs.Outcome.{Outcome, ok, expect, unwrapped_none, block_hash_not_provided, ◌>>=◌}
use reth_proofs.Table.{Table, lookup}
use reth_proofs.External.{Bytes, TrieAccount, External}
use reth_proofs.State.{Risc0ZkvmTrie, ExecutionWitness}
use reth_proofs.State.Read.{account, storage}
use reth_proofs.Core.{Header, Alloy, Block}

pub record TrieDb (x : External) (y : Alloy) : Type 0 where
  pub state : Risc0ZkvmTrie x
  pub block_hashes : Table ℕ
  pub bytecode_by_hash : Table y.Bytecode

-- `revm::state::AccountInfo`
pub record AccountInfo (y : Alloy) : Type 0 where
  pub balance : ℕ
  pub nonce : ℕ
  pub code_hash : ℕ
  pub code : Option y.Bytecode

-- `ancestor_headers.headers.first().unwrap()`
abbrev pub first : List Header → Outcome Header
first [] = expect none unwrapped_none
first (header ∷ headers) = ok header

module _ (x : External) (y : Alloy) where
  unfoldable pub from_execution_witness : ExecutionWitness → Block y → Outcome (TrieDb x y)
  from_execution_witness witness block = do
    ancestor_headers ← reth_proofs.Core.Headers.from_execution_witness y witness
    (block_hashes, _) ←
        reth_proofs.Core.Headers.seal_and_validate y ancestor_headers (record { body = block })
    parent ← first ancestor_headers.headers
    ethereum_state ← reth_proofs.State.Build.from_execution_witness x witness parent.state_root
    bytecodes ← reth_proofs.Core.Bytecodes.from_execution_witness y witness
    ok (record {
      state = ethereum_state;
      block_hashes = block_hashes;
      bytecode_by_hash = bytecodes.codes;
    })

  abbrev account_info : Option TrieAccount → Option (AccountInfo y)
  account_info none = none
  account_info (some account_in_trie) = some (record {
    balance = account_in_trie.balance;
    nonce = account_in_trie.nonce;
    code_hash = account_in_trie.code_hash;
    code = none;
  })

  unfoldable pub basic_ref : TrieDb x y → Bytes → Outcome (Option (AccountInfo y))
  basic_ref db address = do
    account_in_trie ← account x db.state address
    ok (account_info account_in_trie)

  unfoldable pub code_by_hash_ref : TrieDb x y → ℕ → Outcome y.Bytecode
  code_by_hash_ref db hash = expect (lookup hash db.bytecode_by_hash) unwrapped_none

  unfoldable pub storage_ref : TrieDb x y → Bytes → ℕ → Outcome ℕ
  storage_ref db address index = storage x db.state address index

  unfoldable pub block_hash_ref : TrieDb x y → ℕ → Outcome ℕ
  block_hash_ref db number = expect (lookup number db.block_hashes) block_hash_not_provided
