-- ===== src/Gevulot2/Commands.antt =====
-- gevulot2/src/cli.rs, and the `main` of gevulot2/src/main.rs that carries its commands out, with
-- the files that they read and write. Paths and the urls of the web socket and of Ethproofs are
-- strings that are only compared or handed on; they are numbers here. `Json` is what is called of
-- serde_json, and `Network` of the two providers. Each command makes its own provider of the node.
pub mod Prepares
use reth_proofs.Prelude.{ℕ, Option, none, some, List, [], ◌∷◌, ◌++◌, Bool, if◌then◌else◌}
use reth_proofs.Outcome.{
  Outcome, Panic, ok, err, panic, unwrap, ◌>>◌, ok_or, io_error, json_error, ◌>>=◌,
}
use reth_proofs.Table.{Table, lookup, insert}
use reth_proofs.External.{Bytes, External}
use reth_proofs.State.{ExecutionWitness}
use reth_proofs.Core.{Alloy}
use reth_proofs.Prototype.Rpc.{create_provider}
use reth_proofs.Gevulot2.{BonsaiInput, Bento}
use reth_proofs.Gevulot2.Blocks.{
  Event, Turn, stop, prepare_from_rpc, prepare_from_local, prove_block, process_block,
}

pub record RunArgs : Type 0 where
  pub http_rpc_url : Bytes
  pub ws_rpc_url : ℕ
  pub ethproofs_api_url : ℕ
  pub ethproofs_api_token : ℕ
  pub ethproofs_cluster_id : ℕ

pub record PrepareFromRpcArgs : Type 0 where
  pub block_number : ℕ
  pub http_rpc_url : Bytes
  pub output_path : ℕ

pub record PrepareFromLocalArgs : Type 0 where
  pub block_json : ℕ
  pub witness_json : ℕ
  pub output_path : ℕ

pub data PrepareCommand : Type 0 where
  from_rpc : PrepareFromRpcArgs → PrepareCommand
  from_local : PrepareFromLocalArgs → PrepareCommand

pub record ProveBlockArgs : Type 0 where
  pub zkvm_input : ℕ
  pub output_proof_path : ℕ

pub data Command : Type 0 where
  run : RunArgs → Command
  prepare : PrepareCommand → Command
  prove_one : ProveBlockArgs → Command

-- The files, by their paths, and whether writing a path succeeds.
pub record Disk : Type 0 where
  pub files : Table Bytes
  pub writable : ℕ → Bool

unfoldable pub read_file : Disk → ℕ → Outcome Bytes
read_file disk path = ok_or (lookup path disk.files) io_error

unfoldable pub write_file : Disk → ℕ → Bytes → Outcome Disk
write_file disk path bytes =
    if disk.writable path
    then ok (record disk { files = insert path bytes disk.files })
    else err io_error

module _ (x : External) (y : Alloy) (b : Bento x y) where
  pub record Json : Type 0 where
    pub block_from_str : Bytes → Option b.node.RpcBlock
    pub witness_from_str : Bytes → Option ExecutionWitness

  pub record Network : Type 0 where
    pub connect_ws : ℕ → Outcome (Unit {0})
    -- The blocks that are reported before the loop is left.
    pub subscribe_blocks : ℕ → Outcome (List ℕ)
    pub get_block_number : b.rpc.Provider → Outcome ℕ

  -- The same, asking another provider of the node.
  abbrev pub connected : b.rpc.Provider → Bento x y
  connected provider = record b { setting = record b.setting { http_provider = provider } }

  -- What a command leaves: files, or what the main loop reported and whether it crashed.
  pub data Done : Type 0 where
    wrote : Disk → Done
    ran : (provider : b.rpc.Provider) → Turn x y (connected provider) → Done

  -- The turns of the main loop, one for each block that the stream reports, up to a panic.
  abbrev pub and_then : Turn x y b → Turn x y b → Turn x y b
  and_then turn rest = elim turn.crash [
    | some p ↦ turn
    | none ↦ record { events = turn.events ++ rest.events; crash = rest.crash }
  ]

  unfoldable pub main_loop : (prove : BonsaiInput → Outcome (b.Receipt × ℕ)) → List ℕ → Turn x y b
  main_loop prove [] = stop x y b
  main_loop prove (block_number ∷ stream) =
      let rest = main_loop prove stream in and_then (process_block x y b prove block_number) rest

module _ (x : External) (y : Alloy) (b : Bento x y) (j : Json x y b) (net : Network x y b) where
  unfoldable pub prepare_command : Disk → PrepareCommand → Outcome Disk
  prepare_command disk (from_rpc args) = do
    http_provider ← unwrap (create_provider y b.node b.rpc args.http_rpc_url)
    zkvm_input ←
        prepare_from_rpc x y (connected x y b http_provider) (net.get_block_number http_provider)
          args.block_number
    write_file disk args.output_path zkvm_input
  prepare_command disk (from_local args) = do
    block_json ← read_file disk args.block_json
    witness_json ← read_file disk args.witness_json
    block_rpc ← ok_or (j.block_from_str block_json) json_error
    witness ← ok_or (j.witness_from_str witness_json) json_error
    zkvm_input ← prepare_from_local x y b witness block_rpc
    write_file disk args.output_path zkvm_input

  module _ (prove : BonsaiInput → Outcome (b.Receipt × ℕ)) where
    unfoldable pub prove_command : Disk → ProveBlockArgs → Outcome Disk
    prove_command disk args = do
      zkvm_input ← read_file disk args.zkvm_input
      proof_bytes ← prove_block x y b prove zkvm_input
      write_file disk args.output_proof_path proof_bytes

    unfoldable pub main : Disk → Command → Outcome (Done x y b)
    main disk (prepare command) = do disk' ← prepare_command disk command; ok (wrote disk')
    main disk (prove_one args) = do disk' ← prove_command disk args; ok (wrote disk')
    main disk (run args) = do
      net.connect_ws args.ws_rpc_url
      http_provider ← unwrap (create_provider y b.node b.rpc args.http_rpc_url)
      stream ← net.subscribe_blocks args.ws_rpc_url
      latest ← net.get_block_number http_provider
      ok (ran http_provider (main_loop x y (connected x y b http_provider) prove stream))
