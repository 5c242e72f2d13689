-- ===== src/Tests/SegmentExamples.antt =====
-- The hosts of RISC Zero at the stored example block.
use reth_proofs.Prelude.{ℕ, ◌≡◌, some, List, [], ◌∷◌, arith, subst, ap}
use reth_proofs.Outcome.{Outcome, ok, >>=-eq-ok, ◌>>=◌}
use reth_proofs.External.{Bytes}
use reth_proofs.External.Toy.{toy, toy-TrieLaws}
use reth_proofs.Core.Headers.Chain.{IsChain}
use reth_proofs.Core.Input.{ZkvmInput, from_offline_rpc_data}
use reth_proofs.Recursive.{prove_and_join, prove_segments, join_many, join_rounds, join_pairs}
use reth_proofs.Hosts.{Risc0, max_po2, stored_block, risc0_guest_main, host_handler}
use reth_proofs.Hosts.Valid.{Risc0Laws, Decodes, IsStored, IsValidBlock}
use reth_proofs.Hosts.Segments.{recursive_host_main, recursive_host_main-valid}
use reth_proofs.Tests.World.{toy_alloy, toy_alloy-AlloyLaws, toy_zkvm, witness, block, input}
use reth_proofs.Tests.GuestExamples.{made, linked, accepted}
use reth_proofs.Tests.HostExamples.{node, rpc, files_of, loaded_block, loaded_witness}
use reth_proofs.Tests.RecursiveExamples.{prover, prover-ProverLaws}

-- An environment is its frame, and a session of a guest that returns has nothing more to say.
abbrev finished : Outcome (Unit {0}) → Outcome (Unit {0})
finished end = do u ← end; ok tt

abbrev risc0 : Risc0
risc0 = record {
  Env = Bytes;
  SessionInfo = Unit;
  Receipt = Unit;
  build_env = λ po2 frame. ok frame;
  read_frame = λ env. ok env;
  execute = λ guest env. finished (guest env);
  prove_with_opts = λ guest env. finished (guest env);
}

read_frame-build_env : (frame env : Bytes) → ok frame ≡ ok env → ok env ≡ ok frame
read_frame-build_env frame env h = ground (arith, h)

execute_runs : (end : Outcome (Unit {0})) → finished end ≡ ok tt → end ≡ ok tt
execute_runs end h = let (u, e, q) = >>=-eq-ok end _ h in e

risc0-Risc0Laws : Risc0Laws risc0
risc0-Risc0Laws = record {
  read_frame-build_env = λ po2 frame env h. read_frame-build_env frame env h;
  execute_runs = λ guest env info h. execute_runs (guest env) h;
}

abbrev serialize : ZkvmInput toy toy_alloy → Outcome Bytes
serialize i = ok (1 ∷ [])

input_unique :
    (i : ZkvmInput toy toy_alloy)
    → from_offline_rpc_data toy toy_alloy block witness ≡ ok i
    → input ≡ i
input_unique i h = ground (arith, h, made)

decodes : Decodes toy toy_alloy node rpc toy_zkvm serialize tt witness
decodes i bytes h e =
    let one : 1 ∷ [] ≡ bytes = ground (arith, e) in
    subst (λ t. toy_zkvm.deserialize t ≡ some i) one (ap some (input_unique i h))

files-IsStored : IsStored toy toy_alloy node rpc (files_of stored_block) tt witness
files-IsStored = record {
  block_stored = loaded_block stored_block;
  witness_stored = loaded_witness stored_block;
  links_up = λ i h.
      subst
        (λ (j : ZkvmInput toy toy_alloy). IsChain toy_alloy block.header j.ancestor_headers.headers)
        (input_unique i h) linked;
}

handled : host_handler toy toy_alloy node rpc serialize (files_of stored_block) ≡ ok (1 ∷ [])
unfolding host_handler
handled = rw (loaded_witness stored_block, loaded_block stored_block, made)

-- A run has two segments.
abbrev run : (Bytes → Outcome (Unit {0})) → Bytes → Outcome (List ℕ)
run guest env = ok (6 ∷ 7 ∷ [])

proved :
    recursive_host_main toy toy_alloy node rpc toy_zkvm risc0 prover run
      (ok tt)
      serialize
      (files_of stored_block)
    ≡ ok (6 ∷ 7 ∷ [])
unfolding recursive_host_main risc0_guest_main prove_and_join prove_segments join_many join_rounds
    join_pairs
proved = rw (handled, accepted)

recursive_host_main-valid_example :
    ((bytes : Bytes) × (host_handler toy toy_alloy node rpc serialize (files_of stored_block)
        ≡ ok bytes)
      × (env : Bytes) × (risc0.build_env max_po2 bytes ≡ ok env)
      × (segments : List ℕ) × (run (risc0_guest_main toy toy_alloy toy_zkvm risc0) env
          ≡ ok segments)
      × (prover-ProverLaws.claim (6 ∷ 7 ∷ []) ≡ segments))
    × IsValidBlock toy toy_alloy node rpc toy-TrieLaws toy_alloy-AlloyLaws toy_zkvm risc0 tt witness
recursive_host_main-valid_example =
    recursive_host_main-valid toy toy_alloy node rpc toy_zkvm risc0 prover toy-TrieLaws
      toy_alloy-AlloyLaws risc0-Risc0Laws prover-ProverLaws run (ok tt) serialize
      (files_of stored_block) (6 ∷ 7 ∷ []) tt witness decodes files-IsStored proved
