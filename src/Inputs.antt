-- ===== src/Inputs.antt =====
-- `prepare_input` of gevulot2/src/main.rs and gevulot3/src/main.rs, which are the same: the block and
-- the witness of a number, fetched from the node by the functions of prototype/src/lib.rs, are made
-- into the guest's input.
pub mod Ends
pub mod Gives
use reth_proofs.Prelude.{ℕ, Bool, Option, if◌then◌else◌}
use reth_proofs.Outcome.{Outcome, ok, unwrap, expect, ok_or, unwrapped_none, rpc_error, ◌>>=◌}
use reth_proofs.External.{Bytes, External}
use reth_proofs.State.{ExecutionWitness}
use reth_proofs.Core.{Alloy}
use reth_proofs.Core.Input.{ZkvmInput}
use reth_proofs.Frame.{prepare_zkvm_input}
use reth_proofs.Prototype.{Node}
use reth_proofs.Prototype.Rpc.{Rpc, fetch_block_witness, fetch_full_block}

module _ (x : External) (y : Alloy) (n : Node y) (r : Rpc y n) where
  -- The surroundings of `prepare_input`: bincode, the variable DUMP_RAW_INPUT, and the writing of a
  -- file of the dump, which nothing reads.
  pub record Setting : Type 0 where
    pub http_provider : r.Provider
    pub serialize : ZkvmInput x y → Outcome Bytes
    pub dump_raw_input : Bool
    pub write : Bytes → Outcome (Unit {0})

  unfoldable pub dump_input : Setting → n.RpcBlock → ExecutionWitness → Outcome (Unit {0})
  dump_input setting block_rpc witness = do
    block_json ← unwrap (ok_or (r.block_to_string block_rpc) rpc_error)
    block_written ← unwrap (setting.write block_json)
    witness_json ← unwrap (ok_or (r.witness_to_string witness) rpc_error)
    unwrap (setting.write witness_json)

  unfoldable pub prepare_input : Setting → ℕ → Outcome Bytes
  prepare_input setting block_number = do
    witness ← unwrap (fetch_block_witness y n r setting.http_provider block_number)
    fetched ← unwrap (fetch_full_block y n r setting.http_provider block_number)
    block_rpc ← expect fetched unwrapped_none
    dumped ← (if setting.dump_raw_input then dump_input setting block_rpc witness else ok tt)
    prepare_zkvm_input x y setting.serialize witness (n.rpc_block_to_consensus_block block_rpc)
