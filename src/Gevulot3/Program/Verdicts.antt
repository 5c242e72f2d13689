-- ===== src/Gevulot3/Program/Verdicts.antt =====
-- gevulot3 from the provider's stream to the input file, and the ZisK guest on that file.
use reth_proofs.Prelude.{ℕ, ◌≡◌, ◌<◌, some, get_elem?, ◌↔◌}
use reth_proofs.Outcome.{ok}
use reth_proofs.External.{Bytes, External, TrieLaws}
use reth_proofs.State.{ExecutionWitness}
use reth_proofs.Core.{SealedHeader, Alloy, AlloyLaws, Block}
use reth_proofs.Core.Headers.Chain.{IsChain}
use reth_proofs.Core.Input.{ZkvmInput}
use reth_proofs.Guest.{Zkvm}
use reth_proofs.Guest.Accepts.{db_of}
use reth_proofs.Guest.Accepts.Whole.{block_of, PassesConsensus, Executes}
use reth_proofs.Guest.Host.{sealed_parent}
use reth_proofs.Frame.{zisk_main}
use reth_proofs.Frame.Zisk.{zisk_main-prepare_zkvm_input}
use reth_proofs.Prototype.{Node}
use reth_proofs.Prototype.Rpc.{Rpc}
use reth_proofs.Gevulot3.{RunArgs}
use reth_proofs.Gevulot3.Channels.{Channels, ChannelLaws}
use reth_proofs.Gevulot3.Worker.{wrote_input}
use reth_proofs.Inputs.{Setting, prepare_input}
use reth_proofs.Gevulot3.Program.{Program, launch, Moves}
use reth_proofs.Gevulot3.Program.Inputs.{wrote_input-prepare}
use reth_proofs.Inputs.Gives.{Gives, prepare_input-Gives}

module _ (x : External) (y : Alloy) (n : Node y) (r : Rpc y n) (setting : Setting x y n r) where
  module _ (laws : TrieLaws x) (signing : AlloyLaws y) (z : Zkvm x y) where
    -- In any run of gevulot3, the file that the worker writes as the input of a block was made of the
    -- block and the witness that the node gives for its number; and the ZisK guest succeeds on it
    -- exactly when that block passes the consensus checks and executes to the root of its header.
    -- The ancestors that the node gives have to link up, decoding has to undo the serialization of
    -- such inputs, and the queue has room for a job.
    pub zisk_main-wrote_input :
        (c : Channels) (channels : ChannelLaws c) (args : RunArgs) (p : Program c) (i number : ℕ)
        → (buffer : Bytes) → 0 < args.prove_queue_capacity
        → ((k : ℕ) (witness : ExecutionWitness) (block : Block y) (input : ZkvmInput x y)
            → Gives x y n r setting k witness block input
            → IsChain y block.header input.ancestor_headers.headers)
        → ((k : ℕ) (witness : ExecutionWitness) (block : Block y) (input : ZkvmInput x y)
            → (bytes : Bytes) → Gives x y n r setting k witness block input
            → setting.serialize input ≡ ok bytes
            → z.deserialize bytes ≡ some input)
        → Moves c args (prepare_input x y n r setting) (launch c args) p
        → get_elem? p.system.events i ≡ some (wrote_input number buffer)
        → (witness : ExecutionWitness) × (block : Block y) × (input : ZkvmInput x y)
          × (last : SealedHeader) × Gives x y n r setting number witness block input
          × (sealed_parent x y laws signing input ≡ some last)
          × ((zisk_main x y z buffer ≡ ok tt) ↔ (
              PassesConsensus x y z (block_of x y z input) last
              × Executes x y z (db_of x y input) (block_of x y z input)))
    zisk_main-wrote_input c channels args p i number buffer room chained decodes moves at =
        let prepared =
          wrote_input-prepare (prepare_input x y n r setting) c args channels p i number buffer room
            moves at in
        let (witness, block, input, given, framed) =
          prepare_input-Gives x y n r setting number buffer prepared in
        let (_, block_rpc, _, _, made) = given in
        let (last, sealed, verdict) =
          zisk_main-prepare_zkvm_input x y laws signing z setting.serialize witness block input
            buffer (λ bytes. decodes number witness block input bytes given) made
            (chained number witness block input given) framed in
        (witness, block, input, last, given, sealed, verdict)
