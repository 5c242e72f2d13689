-- ===== src/Prototype/Rpc.antt =====
-- prototype/src/lib.rs: blocks and witnesses from a node or from files, and the runs on them; and the
-- two programs of prototype/src/main.rs that use these. `Rpc` is what they call of alloy's provider,
-- serde_json and reth_stateless; `none` is a transport or a JSON error. The texts of errors are left
-- out. The files under assets/ are two tables, by the block number in the file's name.
pub mod Offline
use reth_proofs.Prelude.{ℕ, Bool, true, false, Option, some, none, List, [], if◌then◌else◌}
use reth_proofs.Outcome.{
  Outcome, ok, err, panic, unwrap, expect, map_err, ok_or, unwrapped_none, rpc_error, invalid_url,
  failed_execution, failed_validation, trie_db_failed, ◌>>=◌, ◌>>◌,
}
use reth_proofs.Table.{Table, lookup, insert}
use reth_proofs.External.{Bytes, External}
use reth_proofs.State.{ExecutionWitness}
use reth_proofs.Core.{Alloy, Block}
use reth_proofs.Core.TrieDb.{TrieDb, from_execution_witness}
use reth_proofs.Guest.{Zkvm, recover_public_keys}
use reth_proofs.Prototype.{Node, execute_block}

pub record Rpc (y : Alloy) (n : Node y) : Type 1 where
  pub Provider : Type 0
  -- A URL is parsed, and a provider made of it.
  pub new_http : Bytes → Option Provider
  pub get_block_number : Provider → Option ℕ
  pub get_block_by_number : Provider → ℕ → Option (Option n.RpcBlock)
  pub debug_execution_witness : Provider → ℕ → Option ExecutionWitness
  -- `block.header.number`
  pub number_of : n.RpcBlock → ℕ
  pub block_to_string : n.RpcBlock → Option Bytes
  pub block_from_str : Bytes → Option n.RpcBlock
  pub witness_to_string : ExecutionWitness → Option Bytes
  pub witness_from_str : Bytes → Option ExecutionWitness
  -- `reth_stateless::validation::stateless_validation`
  pub stateless_validation : Block y → List y.VerifyingKey → ExecutionWitness → Outcome (Unit {0})

-- `assets/{}_full-block.json` and `assets/{}_execution-witness.json`; writing fails or not.
pub record Files : Type 0 where
  pub full_block : Table Bytes
  pub execution_witness : Table Bytes
  pub writable : Bool

module _ (y : Alloy) (n : Node y) (r : Rpc y n) where
  unfoldable pub create_provider : Bytes → Outcome r.Provider
  create_provider http_rpc_url = ok_or (r.new_http http_rpc_url) invalid_url

  unfoldable pub get_last_block_number : r.Provider → Outcome ℕ
  get_last_block_number provider = ok_or (r.get_block_number provider) rpc_error

  unfoldable pub fetch_full_block : r.Provider → ℕ → Outcome (Option n.RpcBlock)
  fetch_full_block provider block_number =
      ok_or (r.get_block_by_number provider block_number) rpc_error

  unfoldable pub fetch_block_witness : r.Provider → ℕ → Outcome ExecutionWitness
  fetch_block_witness provider block_number =
      ok_or (r.debug_execution_witness provider block_number) rpc_error

  unfoldable pub save_block_in_file : Files → n.RpcBlock → Outcome Files
  save_block_in_file files block = do
    pretty_json ← ok_or (r.block_to_string block) rpc_error
    if files.writable
        then ok
            (record files { full_block = insert (r.number_of block) pretty_json files.full_block })
        else err rpc_error

  unfoldable pub load_block_from_file : Files → ℕ → Outcome n.RpcBlock
  load_block_from_file files block_number = do
    content ← ok_or (lookup block_number files.full_block) rpc_error
    ok_or (r.block_from_str content) rpc_error

  unfoldable pub save_block_witness_in_file : Files → ExecutionWitness → ℕ → Outcome Files
  save_block_witness_in_file files witness block_number = do
    pretty_json ← ok_or (r.witness_to_string witness) rpc_error
    if files.writable
        then ok (record files {
          execution_witness = insert block_number pretty_json files.execution_witness;
        })
        else err rpc_error

  unfoldable pub load_block_witness_from_file : Files → ℕ → Outcome ExecutionWitness
  load_block_witness_from_file files block_number = do
    content ← ok_or (lookup block_number files.execution_witness) rpc_error
    ok_or (r.witness_from_str content) rpc_error

  -- `store_latest_block_and_witness` of main.rs, on the URL that is fixed there.
  unfoldable pub store_latest_block_and_witness : Bytes → Files → Outcome Files
  store_latest_block_and_witness http_rpc_url files = do
    provider ← unwrap (create_provider http_rpc_url)
    block_number ← unwrap (get_last_block_number provider)
    fetched ← unwrap (fetch_full_block provider block_number)
    block ← expect fetched unwrapped_none
    witness ← unwrap (fetch_block_witness provider block_number)
    files' ← unwrap (save_block_in_file files block)
    unwrap (save_block_witness_in_file files' witness block_number)

  -- `z` is the host's own configuration of the executor and of consensus.
  module _ (x : External) (z : Zkvm x y) where
    -- The end of the runs: the output is dropped, and every error is one of execution.
    abbrev pub executed : n.RpcBlock → ExecutionWitness → Outcome (Unit {0})
    executed block witness = do
      output ← map_err failed_execution (execute_block x y z n block witness)
      ok tt

    unfoldable pub execute_block_offline : Files → ℕ → Outcome (Unit {0})
    execute_block_offline files block_number = do
      block ← load_block_from_file files block_number
      witness ← load_block_witness_from_file files block_number
      executed block witness

    unfoldable pub execute_block_with_rpc : Bytes → ℕ → Outcome (Unit {0})
    execute_block_with_rpc http_rpc_url block_number = do
      provider ← create_provider http_rpc_url
      fetched ← fetch_full_block provider block_number
      block ← ok_or fetched rpc_error
      witness ← fetch_block_witness provider block_number
      executed block witness

    -- Whether a run is printed as a success; a panic ends the program.
    abbrev pub reported : Outcome (Unit {0}) → Outcome Bool
    reported (ok done) = ok true
    reported (err e) = ok false
    reported (panic p) = panic p

    -- `execute_latest_block_with_rpc` of main.rs
    unfoldable pub execute_latest_block_with_rpc : Bytes → Outcome Bool
    execute_latest_block_with_rpc http_rpc_url = do
      provider ← unwrap (create_provider http_rpc_url)
      block_number ← unwrap (get_last_block_number provider)
      reported (execute_block_with_rpc http_rpc_url block_number)

    unfoldable pub prepare_block_trie_db : r.Provider → n.RpcBlock → Outcome (TrieDb x y)
    prepare_block_trie_db provider block = do
      let block_number = r.number_of block
      witness ← fetch_block_witness provider block_number
      fetched ← unwrap (fetch_full_block provider block_number)
      full_block ← expect fetched unwrapped_none
      map_err trie_db_failed
          (from_execution_witness x y witness (n.rpc_block_to_consensus_block full_block))

    -- The keys of the witness are cleared, and the signers recovered from the transactions.
    unfoldable pub execute_offline_block_with_reth_stateless : Files → ℕ → Outcome (Unit {0})
    execute_offline_block_with_reth_stateless files block_number = do
      rpc_block ← unwrap (load_block_from_file files block_number)
      witness ← unwrap (load_block_witness_from_file files block_number)
      let current_block = n.rpc_block_to_consensus_block rpc_block
      public_keys ← recover_public_keys x y z current_block.transactions
      unwrap (
          map_err failed_validation
            (r.stateless_validation current_block public_keys (record witness { keys = [] })))
