-- ===== src/Frame/Zisk.antt =====
-- From the orchestrators' input to the guest's verdict.
use reth_proofs.Prelude.{ℕ, ◌≡◌, some, subst, List, ◌↔◌, arith}
use reth_proofs.Outcome.{ok, Outcome, unwrap, unwrap-eq-ok, >>=-eq-ok}
use reth_proofs.External.{External, TrieLaws}
use reth_proofs.State.{ExecutionWitness}
use reth_proofs.Core.{SealedHeader, Alloy, AlloyLaws, Block}
use reth_proofs.Core.Headers.Chain.{IsChain}
use reth_proofs.Core.Input.{ZkvmInput, from_offline_rpc_data}
use reth_proofs.Guest.{Zkvm}
use reth_proofs.Guest.Accepts.{db_of}
use reth_proofs.Guest.Accepts.Whole.{block_of, PassesConsensus, Executes}
use reth_proofs.Guest.Host.{sealed_parent, guest_handler-from_offline_rpc_data}
use reth_proofs.Frame.{skip_header, prepare_zkvm_input, zisk_main}
use reth_proofs.Frame.Bytes.{skip_header-frame}

module _ (x : External) (y : Alloy) (laws : TrieLaws x) (signing : AlloyLaws y) (z : Zkvm x y) where
  -- An orchestrator's input for a block, with ancestors that link up, makes the ZisK guest succeed
  -- exactly when the block passes the consensus checks and executes to the root of its header, if
  -- decoding undoes the serialization of that input.
  pub zisk_main-prepare_zkvm_input :
      (serialize : ZkvmInput x y → Outcome (List ℕ))
      → (witness : ExecutionWitness) (block : Block y) (input : ZkvmInput x y) (buffer : List ℕ)
      → ((bytes : List ℕ) → serialize input ≡ ok bytes → z.deserialize bytes ≡ some input)
      → from_offline_rpc_data x y block witness ≡ ok input
      → IsChain y block.header input.ancestor_headers.headers
      → prepare_zkvm_input x y serialize witness block ≡ ok buffer
      → (last : SealedHeader) × (sealed_parent x y laws signing input ≡ some last)
        × ((zisk_main x y z buffer ≡ ok tt) ↔ (
            PassesConsensus x y z (block_of x y z input) last
            × Executes x y z (db_of x y input) (block_of x y z input)))
  unfolding prepare_zkvm_input zisk_main
  zisk_main-prepare_zkvm_input serialize witness block input buffer decodes h chain prepared =
      let (made, e, q) = >>=-eq-ok (from_offline_rpc_data x y block witness) _ prepared in
      let same : made ≡ input = ground (arith, e, h) in
      let (bytes, f, r) = >>=-eq-ok (unwrap (serialize made)) _ q in
      let (_, _, _, _, skipped) = skip_header-frame bytes in
      let read : skip_header buffer ≡ ok bytes = ground (arith, r, skipped) in
      let decoded = decodes bytes (subst (λ i. serialize i ≡ ok bytes) same (unwrap-eq-ok _ f)) in
      rw read (
        guest_handler-from_offline_rpc_data x y laws signing z block witness input bytes h chain
          decoded)
