-- ===== src/Tests/BentoExamples.antt =====
-- The theorems on the Bento orchestrator at a provider that knows one block.
use reth_proofs.Prelude.{ℕ, ◌≡◌, ◌⊎◌, refl, false, some, none, [], ◌∷◌, arith, ◌==◌, if◌then◌else◌}
use reth_proofs.Outcome.{Outcome, Panic, ok, err, rpc_error}
use reth_proofs.External.{Bytes}
use reth_proofs.External.Toy.{toy}
use reth_proofs.Gevulot2.{running, succeeded, SessionStatus, BonsaiInput, Bento}
use reth_proofs.Gevulot2.Session.{prove_bonsai, polled, upload_bonsai}
use reth_proofs.Gevulot2.Session.Polling.{prove_bonsai_iff}
use reth_proofs.Gevulot2.Blocks.{queued, proving, proved, prepare_input, process_block}
use reth_proofs.Gevulot2.Blocks.Uploads.{process_block-crash, process_block_iff}
use reth_proofs.Frame.{prepare_zkvm_input}
use reth_proofs.Prototype.Rpc.{Rpc, fetch_block_witness, fetch_full_block}
use reth_proofs.Inputs.{Setting}
use reth_proofs.Tests.HostExamples.{node, rpc}
use reth_proofs.Tests.World.{toy_alloy, witness}
use reth_proofs.Tests.GuestExamples.{made, framed}

-- The session's second check finds that it has succeeded.
abbrev pub ended : SessionStatus
ended = record {
  status = succeeded;
  stats = some (record { cycles = 3; total_cycles = 4; segments = 1 });
  receipt_url = some 12;
}

-- The example node, with the one block under another number.
abbrev rpc_of_200 : Rpc toy_alloy node
rpc_of_200 = record rpc {
  get_block_by_number = λ p number. some (some tt);
  debug_execution_witness = λ p number. if number == 200 then some witness else none;
}

abbrev setting : Setting toy toy_alloy node rpc_of_200
setting = record {
  http_provider = 5;
  serialize = λ i. ok (1 ∷ []);
  dump_raw_input = false;
  write = λ bytes. err rpc_error;
}

abbrev pub bento : Bento toy toy_alloy
bento = record {
  node = node;
  rpc = rpc_of_200;
  setting = setting;
  Receipt = ℕ;
  image_id = 21;
  upload_img = λ i. ok tt;
  upload_input = λ bytes. ok 22;
  create_session = λ image id. ok 23;
  session_status = λ s n.
      if n == 1
      then ok (record { status = running; stats = none; receipt_url = none })
      else ok ended;
  download = λ url. ok (url ∷ []);
  deserialize_receipt = λ bytes. ok 31;
  serialize_receipt = λ r. ok (r ∷ []);
}

abbrev pub bonsai_input : BonsaiInput
bonsai_input = record { image_id_hex = 21; input_id = 22 }

prove_bonsai_iff_example : prove_bonsai toy toy_alloy bento 5 bonsai_input ≡ some (ok (31, 4))
unfolding polled
prove_bonsai_iff_example =
    (prove_bonsai_iff toy toy_alloy bento bonsai_input 23 1 ended 5 31 4 refl
        ((_, refl, refl), refl) (omega arith)).1
      (refl, (_, refl, refl), (12, refl, 12 ∷ [], refl, refl))

abbrev pub prove : BonsaiInput → Outcome (ℕ × ℕ)
prove i = ok (31, 4)

pub input_prepared : prepare_input toy toy_alloy bento 200 ≡ ok framed
unfolding prepare_input reth_proofs.Inputs.prepare_input fetch_block_witness fetch_full_block
    prepare_zkvm_input reth_proofs.Frame.frame reth_proofs.Frame.to_le_bytes
input_prepared = rw made

process_block_iff_example :
    (process_block toy toy_alloy bento prove 200).events
    ≡ queued 200 ∷ proving 200 ∷ proved (31 ∷ []) 200 4 21 ∷ []
unfolding upload_bonsai
process_block_iff_example =
    (process_block_iff toy toy_alloy bento prove 200 (31 ∷ []) 4 21).1
      (refl, framed, input_prepared, bonsai_input, refl, refl, 31, refl, refl)

process_block-crash_example :
    ((input : Bytes) × (prepare_input toy toy_alloy bento 300 ≡ ok input))
    ⊎ ((p : Panic) × (process_block toy toy_alloy bento prove 300
          ≡ record { events = queued 300 ∷ []; crash = some p }))
process_block-crash_example = process_block-crash toy toy_alloy bento prove 300 refl
