-- ===== src/Tests/ProofExamples.antt =====
-- A proof of the Bento orchestrator at the example block, with a server that takes its input alone.
use reth_proofs.Prelude.{ℕ, ◌≡◌, ◌<◌, ◌^◌, refl, some, false, [], ◌∷◌, length, arith, subst}
use native.Mathlib.Decide.{ℕ_discrete}
use reth_proofs.Outcome.{Outcome, ok, err, rpc_error, ◌>>=◌}
use reth_proofs.External.{Bytes}
use reth_proofs.External.Toy.{toy, toy-TrieLaws}
use reth_proofs.State.{ExecutionWitness}
use reth_proofs.Core.{SealedHeader, Block}
use reth_proofs.Core.Input.{ZkvmInput}
use reth_proofs.Guest.{guest_handler}
use reth_proofs.Guest.Accepts.{db_of}
use reth_proofs.Guest.Accepts.Whole.{block_of, PassesConsensus, Executes}
use reth_proofs.Guest.Host.{sealed_parent}
use reth_proofs.Frame.{frame, skip_header, prepare_zkvm_input}
use reth_proofs.Frame.Bytes.{skip_header-frame}
use reth_proofs.Prototype.Rpc.{Rpc, fetch_block_witness, fetch_full_block}
use reth_proofs.Inputs.{Setting}
use reth_proofs.Inputs.Gives.{Gives}
use reth_proofs.Gevulot2.{succeeded, SessionStatus, BonsaiInput, Bento}
use reth_proofs.Gevulot2.Session.{
  prove_bonsai, polled, poll, upload_bonsai, finish_session, receipt_of, receipt_at,
  download_receipt,
}
use reth_proofs.Gevulot2.Blocks.{queued, proving, proved, prepare_input, process_block}
use reth_proofs.Gevulot2.Blocks.Uploads.{process_block_iff}
use reth_proofs.Gevulot2.Blocks.Valid.{process_block-valid}
use reth_proofs.Tests.World.{toy_alloy, toy_alloy-AlloyLaws, toy_zkvm, block, input}
use reth_proofs.Tests.GuestExamples.{made, framed, serialize, accepted}
use reth_proofs.Tests.HostExamples.{node, rpc}
use reth_proofs.Tests.BentoExamples.{ended, bonsai_input, prove}
use reth_proofs.Tests.VerdictExamples.{input_at, linked_at, decoded_at}

-- The example node, with the one block under every number.
abbrev rpc_of_any : Rpc toy_alloy node
rpc_of_any = record rpc { get_block_by_number = λ p number. some (some tt) }

abbrev setting : Setting toy toy_alloy node rpc_of_any
setting = record {
  http_provider = 5;
  serialize = serialize;
  dump_raw_input = false;
  write = λ bytes. ok tt;
}

abbrev upload_at : {bytes : Bytes} → Dec (bytes ≡ framed) → Outcome ℕ
upload_at (yes same) = ok 22
upload_at (no other) = err rpc_error

bytes_discrete : (a b : Bytes) → Dec (a ≡ b)
bytes_discrete = hlevel ℕ_discrete

abbrev bento : Bento toy toy_alloy
bento = record {
  node = node;
  rpc = rpc_of_any;
  setting = setting;
  Receipt = ℕ;
  image_id = 21;
  upload_img = λ i. ok tt;
  upload_input = λ bytes. upload_at (bytes_discrete bytes framed);
  create_session = λ image id. ok 23;
  session_status = λ s n. ok ended;
  download = λ url. ok (url ∷ []);
  deserialize_receipt = λ bytes. ok 31;
  serialize_receipt = λ r. ok (r ∷ []);
}

upload_at-framed : (d : Dec (framed ≡ framed)) → upload_at d ≡ ok 22
upload_at-framed (yes same) = refl
upload_at-framed (no other) = absurd (other refl)

upload_at_inverse :
    (bytes : Bytes) (d : Dec (bytes ≡ framed)) (id : ℕ) → upload_at d ≡ ok id → bytes ≡ framed
upload_at_inverse bytes (yes same) id h = same
upload_at_inverse bytes (no other) id h = cc

input_prepared : prepare_input toy toy_alloy bento 200 ≡ ok framed
unfolding prepare_input reth_proofs.Inputs.prepare_input fetch_block_witness fetch_full_block
    prepare_zkvm_input frame reth_proofs.Frame.to_le_bytes
input_prepared = rw made

uploaded : upload_bonsai toy toy_alloy bento framed ≡ ok bonsai_input
unfolding upload_bonsai
uploaded = rw (upload_at-framed (bytes_discrete framed framed)) refl

reported :
    (process_block toy toy_alloy bento prove 200).events
    ≡ queued 200 ∷ proving 200 ∷ proved (31 ∷ []) 200 4 21 ∷ []
reported =
    (process_block_iff toy toy_alloy bento prove 200 (31 ∷ []) 4 21).1
      (refl, framed, input_prepared, bonsai_input, uploaded, refl, 31, refl, refl)

proves : (i : BonsaiInput) → prove_bonsai toy toy_alloy bento 5 i ≡ some (prove i)
unfolding prove_bonsai poll polled finish_session receipt_of receipt_at download_receipt
proves i = refl

sound :
    (bytes : Bytes) (id session check : ℕ) (res : SessionStatus)
    → bento.upload_input bytes ≡ ok id
    → bento.create_session 21 id ≡ ok session
    → bento.session_status session check ≡ ok res
    → res.status ≡ succeeded
    → (skip_header bytes >>= guest_handler toy toy_alloy toy_zkvm) ≡ ok tt
unfolding skip_header
sound bytes id session check res uploads created answered at =
    rw (upload_at_inverse bytes (bytes_discrete bytes framed) id uploads) accepted

given :
    (k : ℕ) (w : ExecutionWitness) (b : Block toy_alloy) (i : ZkvmInput toy toy_alloy)
    → Gives toy toy_alloy node rpc_of_any setting k w b i
    → (block ≡ b) × (input ≡ i)
unfolding fetch_block_witness
given k w b i (fetched, block_rpc, got, same_block, built) =
    (same_block, input_at w b i (ground (arith, fetched)) same_block built)

decodes :
    (k : ℕ) (w : ExecutionWitness) (b : Block toy_alloy) (i : ZkvmInput toy toy_alloy)
    → (bytes : Bytes) → Gives toy toy_alloy node rpc_of_any setting k w b i
    → serialize i ≡ ok bytes
    → (length bytes < 2 ^ 32) × (toy_zkvm.deserialize bytes ≡ some i)
decodes k w b i bytes gives h =
    let (same, decoded) = decoded_at i bytes (given k w b i gives).1 h in
    (subst (λ c. length c < 2 ^ 32) same (omega arith), decoded)

process_block-valid_example :
    (w : ExecutionWitness) × (b : Block toy_alloy) × (i : ZkvmInput toy toy_alloy)
    × (last : SealedHeader) × Gives toy toy_alloy node rpc_of_any setting 200 w b i
    × (sealed_parent toy toy_alloy toy-TrieLaws toy_alloy-AlloyLaws i ≡ some last)
    × PassesConsensus toy toy_alloy toy_zkvm (block_of toy toy_alloy toy_zkvm i) last
    × Executes toy toy_alloy toy_zkvm (db_of toy toy_alloy i) (block_of toy toy_alloy toy_zkvm i)
process_block-valid_example =
    process_block-valid toy toy_alloy bento toy-TrieLaws toy_alloy-AlloyLaws toy_zkvm skip_header
      prove 5 200 (31 ∷ []) 4 21
      (λ bytes short. let (_, _, _, _, skipped) = skip_header-frame bytes in skipped) sound
      (λ k w b i gives.
        let (same_block, same_input) = given k w b i gives in linked_at b i same_block same_input)
      decodes proves reported
