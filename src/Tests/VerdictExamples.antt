-- ===== src/Tests/VerdictExamples.antt =====
-- gevulot3 at a run in which the example block is prepared and its input written.
use reth_proofs.Prelude.{ℕ, ◌≡◌, ◌↔◌, refl, true, false, some, [], ◌∷◌, arith, subst, ap, sym, ◌∙◌}
use reth_proofs.Table.{lookup}
use reth_proofs.Outcome.{Outcome, ok}
use reth_proofs.External.{Bytes}
use reth_proofs.External.Toy.{toy, toy-TrieLaws}
use reth_proofs.State.{ExecutionWitness}
use reth_proofs.Core.{SealedHeader, Block}
use reth_proofs.Core.Headers.Chain.{IsChain}
use reth_proofs.Core.Input.{ZkvmInput, from_offline_rpc_data}
use reth_proofs.Guest.Accepts.{db_of}
use reth_proofs.Guest.Accepts.Whole.{block_of, PassesConsensus, Executes}
use reth_proofs.Guest.Host.{sealed_parent}
use reth_proofs.Frame.{zisk_main}
use reth_proofs.Prototype.Rpc.{fetch_block_witness, fetch_full_block}
use reth_proofs.Inputs.Gives.{Gives}
use reth_proofs.Gevulot3.{ProveJob}
use reth_proofs.Gevulot3.Queue.{queued, enqueue}
use reth_proofs.Inputs.{Setting, dump_input, prepare_input}
use reth_proofs.Gevulot3.Listener.{put, main_turn, queue_input}
use reth_proofs.Gevulot3.System.{System, start, take, Step, new_block, submit}
use reth_proofs.Gevulot3.Program.{listening, Program, launch, task, Moves, still, then_move}
use reth_proofs.Gevulot3.Program.Verdicts.{zisk_main-wrote_input}
use reth_proofs.Tests.World.{toy_alloy, toy_alloy-AlloyLaws, toy_zkvm, witness, block, input}
use reth_proofs.Tests.GuestExamples.{made, linked, framed, serialize, prepared}
use reth_proofs.Tests.HostExamples.{node, rpc, text_of_witness, ExecutionWitness-discrete}
use reth_proofs.Tests.ToyChannels.{toy_channels, toy_channels-ChannelLaws}
use reth_proofs.Tests.ZiskExamples.{args, queue_of}

abbrev setting : Setting toy toy_alloy node rpc
setting = record {
  http_provider = 5;
  serialize = serialize;
  dump_raw_input = true;
  write = λ bytes. ok tt;
}

abbrev prepare : ℕ → Outcome Bytes
prepare = prepare_input toy toy_alloy node rpc setting

prepared_10 : prepare 10 ≡ ok framed
unfolding prepare_input fetch_block_witness fetch_full_block dump_input
prepared_10 = rw (text_of_witness (ExecutionWitness-discrete witness witness), prepared)

abbrev job : ProveJob
job = record { block_number = 10; zkvm_input = framed }

abbrev one_queued : System toy_channels
one_queued = record (start toy_channels args) { queue = queue_of (job ∷ []) }

abbrev one_submitted : System toy_channels
one_submitted = take toy_channels one_queued job (queue_of []) 7

enqueued :
    enqueue toy_channels args (start toy_channels args).queue job ≡ queued [] (queue_of (job ∷ []))
unfolding enqueue
enqueued = refl

first : Step toy_channels args (start toy_channels args) one_queued
first = new_block job [] (queue_of (job ∷ [])) enqueued

second : Step toy_channels args one_queued one_submitted
unfolding lookup
second = submit job (queue_of []) 7 refl refl refl

turned :
    (main_turn toy_channels prepare args (start toy_channels args).queue 10).ending
    ≡ put job (queued [] (queue_of (job ∷ [])))
unfolding main_turn
turned =
    ap (queue_input toy_channels prepare args (start toy_channels args).queue 10) prepared_10
    ∙ ap (put job) enqueued

abbrev submitted_at : Program toy_channels
submitted_at = record { system = one_submitted; phase = listening; worker_stopped = false }

to_submitted : Moves toy_channels args prepare (launch toy_channels args) submitted_at
unfolding first second
to_submitted = then_move (task first (refl, turned)) (then_move (task second (refl, refl)) still)

-- The example's witness and block make the example's input, which links up and decodes.
pub input_at :
    (w : ExecutionWitness) (b : Block toy_alloy) (i : ZkvmInput toy toy_alloy)
    → witness ≡ w
    → block ≡ b
    → from_offline_rpc_data toy toy_alloy b w ≡ ok i
    → input ≡ i
input_at w b i same_witness same_block built =
    let rebuilt : from_offline_rpc_data toy toy_alloy block witness ≡ ok i =
      subst (λ v. from_offline_rpc_data toy toy_alloy block v ≡ ok i) (sym same_witness)
        (subst (λ c. from_offline_rpc_data toy toy_alloy c w ≡ ok i) (sym same_block) built) in
    ground (arith, sym made ∙ rebuilt)

pub linked_at :
    (b : Block toy_alloy) (i : ZkvmInput toy toy_alloy)
    → block ≡ b
    → input ≡ i
    → IsChain toy_alloy b.header i.ancestor_headers.headers
linked_at b i same_block same_input =
    subst (λ (j : ZkvmInput toy toy_alloy). IsChain toy_alloy b.header j.ancestor_headers.headers)
      same_input
      (subst (λ (c : Block toy_alloy). IsChain toy_alloy c.header input.ancestor_headers.headers)
        same_block linked)

pub decoded_at :
    (i : ZkvmInput toy toy_alloy) (bytes : Bytes)
    → input ≡ i
    → serialize i ≡ ok bytes
    → (1 ∷ [] ≡ bytes) × (toy_zkvm.deserialize bytes ≡ some i)
decoded_at i bytes same_input h =
    let same : 1 ∷ [] ≡ bytes = ground (arith, h) in
    (same, subst (λ c. toy_zkvm.deserialize c ≡ some i) same (ap some same_input))

given :
    (k : ℕ) (w : ExecutionWitness) (b : Block toy_alloy) (i : ZkvmInput toy toy_alloy)
    → Gives toy toy_alloy node rpc setting k w b i
    → (block ≡ b) × (input ≡ i)
unfolding fetch_block_witness
given k w b i (fetched, block_rpc, got, same_block, built) =
    (same_block, input_at w b i (ground (arith, fetched)) same_block built)

zisk_main-wrote_input_example :
    (w : ExecutionWitness) × (b : Block toy_alloy) × (i : ZkvmInput toy toy_alloy)
    × (last : SealedHeader) × Gives toy toy_alloy node rpc setting 10 w b i
    × (sealed_parent toy toy_alloy toy-TrieLaws toy_alloy-AlloyLaws i ≡ some last)
    × ((zisk_main toy toy_alloy toy_zkvm framed ≡ ok tt) ↔ (
        PassesConsensus toy toy_alloy toy_zkvm (block_of toy toy_alloy toy_zkvm i) last
        × Executes toy toy_alloy toy_zkvm
            (db_of toy toy_alloy i)
            (block_of toy toy_alloy toy_zkvm i)))
zisk_main-wrote_input_example =
    zisk_main-wrote_input toy toy_alloy node rpc setting toy-TrieLaws toy_alloy-AlloyLaws toy_zkvm
      toy_channels toy_channels-ChannelLaws args submitted_at 1 10 framed (omega arith)
      (λ k w b i gives.
        let (same_block, same_input) = given k w b i gives in linked_at b i same_block same_input)
      (λ k w b i bytes gives h. (decoded_at i bytes (given k w b i gives).1 h).1) to_submitted refl
