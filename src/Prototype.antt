-- ===== src/Prototype.antt =====
-- prototype/src/lib.rs: a block is executed on the host from its RPC form and its witness, and its
-- transactions can be filtered. `Node` is what this calls of alloy's RPC types and of reth's
-- recovery. The executor and its check are here those of the host's own configuration,
-- `EthEvmConfig::mainnet()` and `reth_chainspec::MAINNET`: `m` is another instance of `Zkvm` than the
-- guest's, whose chain specification is `create_mainnet_chainspec` of core/src/lib.rs.
pub mod Filtering
pub mod Runs
pub mod Witness
pub mod Rpc
pub mod Debug
use reth_proofs.Prelude.{
  ℕ, suc, Bool, true, false, Option, some, none, List, [], ◌∷◌, ◌==◌, if◌then◌else◌,
}
use reth_proofs.Outcome.{
  Outcome, ok, err, panic, map_err, ok_or, rpc_error, block_recovery_failed, trie_db_failed,
  failed_execution, failed_validation, transactions_not_full, ◌>>=◌, ◌>>◌,
}
use reth_proofs.External.{Bytes, External}
use reth_proofs.State.{ExecutionWitness}
use reth_proofs.State.Update.{update}
use reth_proofs.State.Read.{compute_state_root}
use reth_proofs.Core.{Alloy, Block, RecoveredBlock}
use reth_proofs.Core.TrieDb.{TrieDb, from_execution_witness}
use reth_proofs.Guest.{Zkvm, validate_block_post_execution, get_hashed_post_state}

-- `alloy_rpc_types_eth::BlockTransactions`
pub data BlockTransactions (Tx : Type 0) : Type 0 where
  full_txs : List Tx → BlockTransactions Tx
  hashes : List ℕ → BlockTransactions Tx
  uncle : BlockTransactions Tx

pub record Node (y : Alloy) : Type 1 where
  pub RpcBlock : Type 0
  pub Tx : Type 0
  pub transactions : RpcBlock → BlockTransactions Tx
  pub rpc_block_to_consensus_block : RpcBlock → Block y
  pub try_recover : Block y → Option (RecoveredBlock y)

-- `block.transactions.is_full()`
abbrev pub is_full : {Tx : Type 0} → BlockTransactions Tx → Bool
is_full (full_txs txs) = true
is_full (hashes txs) = false
is_full uncle = false

module _ {Tx : Type 0} (predicate : ℕ → Tx → Bool) where
  -- `drain(..).enumerate().filter_map(..)`, from an index on
  unfoldable pub filter_from : ℕ → List Tx → List Tx
  filter_from i [] = []
  filter_from i (tx ∷ txs) =
      let rest = filter_from (suc i) txs in if predicate i tx then tx ∷ rest else rest

  unfoldable pub filter_block_txs_in_place : BlockTransactions Tx → Outcome (BlockTransactions Tx)
  filter_block_txs_in_place (full_txs txs) = ok (full_txs (filter_from 0 txs))
  filter_block_txs_in_place _ = panic transactions_not_full

module _ (x : External) (y : Alloy) (m : Zkvm x y) (n : Node y) where
  unfoldable pub recover_rpc_block : n.RpcBlock → Outcome (RecoveredBlock y)
  recover_rpc_block block =
      ok_or (n.try_recover (n.rpc_block_to_consensus_block block)) block_recovery_failed

  -- The execution of a recovered block on a database, and the check of its root.
  unfoldable pub execute_on : TrieDb x y → RecoveredBlock y → Outcome m.BlockExecutionOutput
  execute_on trie_db recovered_block = do
    output ← map_err failed_execution (m.execute trie_db recovered_block)
    validate_block_post_execution x y m recovered_block output
    state ← update x trie_db.state (get_hashed_post_state x y m output)
    if compute_state_root x state == recovered_block.block.header.state_root
        then ok output
        else err failed_validation

  unfoldable pub execute_block : n.RpcBlock → ExecutionWitness → Outcome m.BlockExecutionOutput
  execute_block block witness = do
    trie_db ←
        map_err trie_db_failed
          (from_execution_witness x y witness (n.rpc_block_to_consensus_block block))
    if is_full (n.transactions block)
        then (do recovered_block ← recover_rpc_block block; execute_on trie_db recovered_block)
        else err rpc_error
