-- ===== src/Tests/PrototypeExamples.antt =====
-- The host's execution at the example block.
use reth_proofs.Prelude.{ℕ, ◌≡◌, refl, some, [], ◌∷◌}
use reth_proofs.Outcome.{ok}
use reth_proofs.External.Toy.{toy}
use reth_proofs.Core.{Block}
use reth_proofs.Prototype.{Node, full_txs, execute_block}
use reth_proofs.Prototype.Runs.{execute_block_iff}
use reth_proofs.Guest.Accepts.{db_of}
use reth_proofs.Tests.CoreExamples.{database}
use reth_proofs.Tests.StateExamples.{updated}
use reth_proofs.Tests.World.{toy_alloy, toy_zkvm, witness, block, input, post_state}

abbrev node : Node toy_alloy
node = record {
  RpcBlock = Block toy_alloy;
  Tx = ℕ;
  transactions = λ b. full_txs b.transactions;
  rpc_block_to_consensus_block = λ b. b;
  try_recover = λ b. some (record { block = b; senders = (42 ∷ []) ∷ [] });
}

recovered : node.try_recover block ≡ some (record { block = block; senders = (42 ∷ []) ∷ [] })
recovered = refl

execute_block_iff_example : execute_block toy toy_alloy toy_zkvm node block witness ≡ ok tt
execute_block_iff_example = (execute_block_iff toy toy_alloy toy_zkvm node block witness tt).1 (
  db_of toy toy_alloy input,
  database,
  refl,
  _,
  recovered,
  (refl, refl, post_state, updated, refl),
)
