-- ===== src/Hosts.antt =====
-- zkvm-common-host/src/lib.rs, zkvm/risc0-host/src/main.rs and zkvm/risc0-guest/src/main.rs: a stored
-- block is made into an input, and run and proved by RISC Zero on the local machine. `Risc0` is what
-- they call of risc0_zkvm; the timing and what is printed are left out.
pub mod Valid
pub mod Bonsai
pub mod Segments
use reth_proofs.Prelude.{ℕ}
use reth_proofs.Outcome.{Outcome, ok, unwrap, ◌>>=◌}
use reth_proofs.External.{Bytes, External}
use reth_proofs.Core.{Alloy}
use reth_proofs.Core.Input.{ZkvmInput, ZkvmAltInput, from_offline_rpc_data}
use reth_proofs.Guest.{Zkvm, guest_handler}
use reth_proofs.Prototype.{Node}
use reth_proofs.Prototype.Rpc.{Rpc, Files, load_block_from_file, load_block_witness_from_file}

-- The block that the hosts read.
abbrev pub stored_block : ℕ
stored_block = 22830000

-- An environment is built with a segment limit and a frame of bytes, which the guest reads; a guest
-- is the function that its program computes on the environment.
pub record Risc0 : Type 1 where
  pub Env : Type 0
  pub SessionInfo : Type 0
  pub Receipt : Type 0
  pub build_env : (segment_limit_po2 : ℕ) → (frame : Bytes) → Outcome Env
  pub read_frame : Env → Outcome Bytes
  pub execute : (guest : Env → Outcome (Unit {0})) → Env → Outcome SessionInfo
  pub prove_with_opts : (guest : Env → Outcome (Unit {0})) → Env → Outcome Receipt

abbrev pub max_po2 : ℕ
max_po2 = 21

module _ (x : External) (y : Alloy) where
  -- The guest of RISC Zero, which reads the frame.
  unfoldable pub risc0_guest_main : Zkvm x y → (v : Risc0) → v.Env → Outcome (Unit {0})
  risc0_guest_main z v env = do buffer ← v.read_frame env; guest_handler x y z buffer

  module _ (n : Node y) (r : Rpc y n) where
    unfoldable pub host_handler :
        (serialize : ZkvmInput x y → Outcome Bytes) → Files → Outcome Bytes
    host_handler serialize files = do
      witness ← unwrap (load_block_witness_from_file y n r files stored_block)
      block_rpc ← unwrap (load_block_from_file y n r files stored_block)
      let block_consensus = n.rpc_block_to_consensus_block block_rpc
      input ← from_offline_rpc_data x y block_consensus witness
      unwrap (serialize input)

    unfoldable pub host_alt_handler :
        (serialize : ZkvmAltInput y → Outcome Bytes) → Files → Outcome Bytes
    host_alt_handler serialize files = do
      witness ← unwrap (load_block_witness_from_file y n r files stored_block)
      block_rpc ← unwrap (load_block_from_file y n r files stored_block)
      let block_consensus = n.rpc_block_to_consensus_block block_rpc
      unwrap (serialize (record { block = record { body = block_consensus }; witness = witness }))

    -- The guest is executed, and then proved in an environment of its own.
    unfoldable pub risc0_host_main :
        Zkvm x y
        → (v : Risc0) → (serialize : ZkvmInput x y → Outcome Bytes) → Files
        → Outcome (v.SessionInfo × v.Receipt)
    risc0_host_main z v serialize files = do
      input_bytes ← host_handler serialize files
      env ← v.build_env max_po2 input_bytes
      session_info ← v.execute (risc0_guest_main z v) env
      env' ← v.build_env max_po2 input_bytes
      receipt ← unwrap (v.prove_with_opts (risc0_guest_main z v) env')
      ok (session_info, receipt)
