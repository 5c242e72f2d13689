-- ===== src/Core/Input.antt =====
-- core/src/input.rs and input_alt.rs: the input of the guest, as the host makes it.
use reth_proofs.Outcome.{Outcome, ok, ◌>>=◌}
use reth_proofs.External.{External}
use reth_proofs.State.{Risc0ZkvmTrie, ExecutionWitness}
use reth_proofs.Core.{Alloy, Block, CurrentBlock}
use reth_proofs.Core.Headers.{AncestorHeaders}
use reth_proofs.Core.Signers.{SignersHint, from_block}
use reth_proofs.Core.Bytecodes.{Bytecodes}
use reth_proofs.Core.TrieDb.{first}

pub record ZkvmInput (x : External) (y : Alloy) : Type 0 where
  pub ancestor_headers : AncestorHeaders
  pub signers_hint : SignersHint y
  pub current_block : CurrentBlock y
  pub ethereum_state : Risc0ZkvmTrie x
  pub bytecodes : Bytecodes y

pub record ZkvmAltInput (y : Alloy) : Type 0 where
  pub block : CurrentBlock y
  pub witness : ExecutionWitness

unfoldable pub from_offline_rpc_data :
    (x : External) (y : Alloy) → Block y → ExecutionWitness → Outcome (ZkvmInput x y)
from_offline_rpc_data x y block witness = do
  ancestor_headers ← reth_proofs.Core.Headers.from_execution_witness y witness
  parent ← first ancestor_headers.headers
  signers_hint ← from_block y block
  ethereum_state ← reth_proofs.State.Build.from_execution_witness x witness parent.state_root
  bytecodes ← reth_proofs.Core.Bytecodes.from_execution_witness y witness
  ok (record {
    ancestor_headers = ancestor_headers;
    signers_hint = signers_hint;
    current_block = record { body = block };
    ethereum_state = ethereum_state;
    bytecodes = bytecodes;
  })
