-- ===== src/Hosts/Valid.antt =====
-- What a receipt of the local host is worth.
use reth_proofs.Prelude.{ℕ, ◌≡◌, some}
use reth_proofs.Outcome.{Outcome, ok, >>=-eq-ok, unwrap-eq-ok}
use reth_proofs.External.{Bytes, External, TrieLaws}
use reth_proofs.State.{ExecutionWitness}
use reth_proofs.Core.{SealedHeader, Alloy, AlloyLaws}
use reth_proofs.Core.Headers.Chain.{IsChain}
use reth_proofs.Core.Input.{ZkvmInput, from_offline_rpc_data}
use reth_proofs.Guest.{Zkvm, guest_handler}
use reth_proofs.Guest.Accepts.{db_of}
use reth_proofs.Guest.Accepts.Whole.{block_of, PassesConsensus, Executes}
use reth_proofs.Guest.Host.{sealed_parent, guest_handler-from_offline_rpc_data}
use reth_proofs.Prototype.{Node}
use reth_proofs.Prototype.Rpc.{Rpc, Files, load_block_from_file, load_block_witness_from_file}
use reth_proofs.Hosts.{
  Risc0, max_po2, stored_block, risc0_guest_main, host_handler, risc0_host_main,
}

-- The guest reads the frame that the environment was built with, and an execution does not succeed
-- where the guest panics.
pub record Risc0Laws (v : Risc0) : Type 0 where
  pub read_frame-build_env :
      (po2 : ℕ) (frame : Bytes) (env : v.Env)
      → v.build_env po2 frame ≡ ok env
      → v.read_frame env ≡ ok frame
  pub execute_runs :
      (guest : v.Env → Outcome (Unit {0})) (env : v.Env) (info : v.SessionInfo)
      → v.execute guest env ≡ ok info
      → guest env ≡ ok tt

module _ (x : External) (y : Alloy) (n : Node y) (r : Rpc y n) where
  -- Decoding undoes the serialization of the input that is made of the block and the witness.
  abbrev pub Decodes :
      Zkvm x y → (ZkvmInput x y → Outcome Bytes) → n.RpcBlock → ExecutionWitness → Type 0
  Decodes z serialize b w =
      (i : ZkvmInput x y) (bytes : Bytes)
      → from_offline_rpc_data x y (n.rpc_block_to_consensus_block b) w ≡ ok i
      → serialize i ≡ ok bytes
      → z.deserialize bytes ≡ some i

  -- The stored block and its witness, whose headers link up from the block's.
  pub record IsStored (files : Files) (b : n.RpcBlock) (w : ExecutionWitness) : Type 0 where
    pub block_stored : load_block_from_file y n r files stored_block ≡ ok b
    pub witness_stored : load_block_witness_from_file y n r files stored_block ≡ ok w
    pub links_up :
        (i : ZkvmInput x y)
        → from_offline_rpc_data x y (n.rpc_block_to_consensus_block b) w ≡ ok i
        → IsChain y (n.rpc_block_to_consensus_block b).header i.ancestor_headers.headers

  host_handler_steps :
      (serialize : ZkvmInput x y → Outcome Bytes) (files : Files) (bytes : Bytes) (b : n.RpcBlock)
      (w : ExecutionWitness)
      → IsStored files b w
      → host_handler x y n r serialize files ≡ ok bytes
      → (input : ZkvmInput x y) × (from_offline_rpc_data x y (n.rpc_block_to_consensus_block b) w
          ≡ ok input)
        × (serialize input ≡ ok bytes)
  unfolding host_handler
  host_handler_steps serialize files bytes b w stored h =
      let (input, g, q) =
        >>=-eq-ok (from_offline_rpc_data x y (n.rpc_block_to_consensus_block b) w) _
          (rw (stored.block_stored, stored.witness_stored) at h) in
      (input, g, unwrap-eq-ok _ q)

  module _ (laws : TrieLaws x) (signing : AlloyLaws y) (z : Zkvm x y) (v : Risc0) where
    -- The block passes the consensus checks and executes, on the state of the input that is made of
    -- it and of the witness, to the root of its header.
    abbrev pub IsValidBlock : n.RpcBlock → ExecutionWitness → Type 0
    IsValidBlock b w =
        (input : ZkvmInput x y) × (from_offline_rpc_data x y (n.rpc_block_to_consensus_block b) w
          ≡ ok input)
        × (last : SealedHeader) × (sealed_parent x y laws signing input ≡ some last)
        × PassesConsensus x y z (block_of x y z input) last
        × Executes x y z (db_of x y input) (block_of x y z input)

    -- A guest that has run on the host's bytes vouches for the block.
    pub guest_ran-valid :
        Risc0Laws v
        → (serialize : ZkvmInput x y → Outcome Bytes) (files : Files) (bytes : Bytes) (env : v.Env)
        → (b : n.RpcBlock) (w : ExecutionWitness) → Decodes z serialize b w
        → IsStored files b w
        → host_handler x y n r serialize files ≡ ok bytes
        → v.build_env max_po2 bytes ≡ ok env
        → risc0_guest_main x y z v env ≡ ok tt
        → IsValidBlock b w
    unfolding risc0_guest_main
    guest_ran-valid risc0 serialize files bytes env b w decodes stored g i ran =
        let accepted : guest_handler x y z bytes ≡ ok tt =
          rw (risc0.read_frame-build_env max_po2 bytes env i) at ran in
        let (input, made, serialized) = host_handler_steps serialize files bytes b w stored g in
        let (last, found, guest) =
          guest_handler-from_offline_rpc_data x y laws signing z (n.rpc_block_to_consensus_block b)
            w input bytes made (stored.links_up input made) (decodes input bytes made serialized) in
        let (passes, runs) = guest.0 accepted in (input, made, last, found, passes, runs)

    -- If the local host returns a receipt for the stored block and a witness whose headers link up
    -- from it, and decoding undoes the serialization of its input, then the block passes the
    -- consensus checks and executes, on the state of the input made from them, to the root of its
    -- header.
    pub risc0_host_main-valid :
        Risc0Laws v
        → (serialize : ZkvmInput x y → Outcome Bytes) (files : Files)
        → (info : v.SessionInfo) (receipt : v.Receipt) (b : n.RpcBlock) (w : ExecutionWitness)
        → Decodes z serialize b w
        → IsStored files b w
        → risc0_host_main x y n r z v serialize files ≡ ok (info, receipt)
        → IsValidBlock b w
    unfolding risc0_host_main
    risc0_host_main-valid risc0 serialize files info receipt b w decodes stored h =
        let (bytes, g, h1) = >>=-eq-ok (host_handler x y n r serialize files) _ h in
        let (env, i, h2) = >>=-eq-ok (v.build_env max_po2 bytes) _ h1 in
        let (info', j, _) = >>=-eq-ok (v.execute (risc0_guest_main x y z v) env) _ h2 in
        guest_ran-valid risc0 serialize files bytes env b w decodes stored g i
          (risc0.execute_runs (risc0_guest_main x y z v) env info' j)
