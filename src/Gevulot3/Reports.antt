-- ===== src/Gevulot3/Reports.antt =====
-- The reports of gevulot3/src/main.rs to Ethproofs: the requests that the events of a job send, and
-- what Ethproofs reads in them.
use Prim.Native.String.{String}
use text.Mathlib.Text.{◌==◌}
use reth_proofs.Prelude.{
  ℕ, ◌≡◌, ◌<◌, ◌^◌, refl, Bool, true, false, Option, none, some, List, [], ◌∷◌, All, if◌then◌else◌,
  ap,
}
use reth_proofs.External.{Bytes}
use reth_proofs.Ethproofs.{JsonValue, string, number, Json, EthProofsClient, Request, Encoder}
use reth_proofs.Gevulot3.{ProveJob, WebhookPayload}
use reth_proofs.Gevulot3.Worker.{
  Event, proving, proved, removed_input, Replies, Verdict, failed, empty_proof, missing_cycles,
  proven, verdict_of, bytes_of_proof, upload, process_job,
}
use reth_proofs.Gevulot3.Worker.Proofs.{
  Succeeds, words_of, words_of-bytes_of_proof, verdict_of_proven,
}

-- The image id of a ZisK proof.
abbrev pub image_id_hex : String
image_id_hex = "0000000000000000000000000000000000000000000000000000000000000000"

-- The field of a JSON object.
abbrev pub field : String → Json → Option JsonValue
field key [] = none
field key ((name, value) ∷ fields) = if name == key then some value else field key fields

module _ (c : Encoder) where
  -- The bytes of the proof that a report carries.
  abbrev pub bytes_in : Option JsonValue → Option Bytes
  bytes_in (some (string encoded)) = c.base64_decode encoded
  bytes_in _ = none

  module _ (client : EthProofsClient) (elapsed : c.F32) where
    -- What the worker sends at each event; `elapsed` is the time that the proof took.
    unfoldable pub requests : List Event → List Request
    requests [] = []
    requests (proving n ∷ events) = reth_proofs.Ethproofs.proving client n ∷ requests events
    requests (proved proof_bytes n cycles ∷ events) =
        reth_proofs.Ethproofs.proved c client proof_bytes n cycles elapsed image_id_hex
        ∷ requests events
    requests (_ ∷ events) = requests events

    -- What is read in a report is a proof of the block, with its words and cycles.
    abbrev pub Carries : Json → (block_number : ℕ) → (proof : List ℕ) → (cycles : ℕ) → Type 0
    Carries json block_number proof cycles =
        (field "block_number" json ≡ some (number block_number))
        × (field "proving_cycles" json ≡ some (number cycles))
        × ((proof_bytes : Bytes) × (bytes_in (field "proof" json) ≡ some proof_bytes)
            × (words_of proof_bytes ≡ proof))

    requests-removed :
        (n : ℕ) (removed : Bool) → requests (if removed then removed_input n ∷ [] else []) ≡ []
    unfolding requests
    requests-removed n true = refl
    requests-removed n false = refl

    requests-upload :
        (job : ProveJob) (removed : Bool) (verdict : Verdict)
        → ((proof : List ℕ) (cycles : ℕ) → verdict ≡ proven proof cycles → ⊥)
        → requests (upload job removed verdict) ≡ []
    unfolding upload requests
    requests-upload job removed (proven proof cycles) not_proven =
        absurd (not_proven proof cycles refl)
    requests-upload job removed (failed e) not_proven = refl
    requests-upload job removed empty_proof not_proven = refl
    requests-upload job removed missing_cycles not_proven = refl

    -- Any other job sends the first request only.
    pub requests-fails :
        (job : ProveJob) (w : Bool) (i : Option ℕ) (p : Option WebhookPayload) (r : Bool)
        → ((proof : List ℕ) (cycles : ℕ)
            → Succeeds (record { written = w; job_id = i; payload = p; removed = r }) proof cycles
            → ⊥)
        → requests (process_job job (record { written = w; job_id = i; payload = p; removed = r }))
          ≡ reth_proofs.Ethproofs.proving client job.block_number ∷ []
    unfolding process_job requests
    requests-fails job false i p r fails = refl
    requests-fails job true none p r fails = refl
    requests-fails job true (some id) none r fails = refl
    requests-fails job true (some id) (some payload) r fails =
        ap (λ rest. reth_proofs.Ethproofs.proving client job.block_number ∷ rest)
          (requests-upload job r (verdict_of payload) λ proof cycles verdict.
            let (e, f, g) = (verdict_of_proven payload proof cycles).0 verdict in
            fails proof cycles (refl, (id, refl), (payload, refl, e, f, g)))

    -- A job that succeeds with a proof of 64-bit words sends two requests: that its block is being
    -- proved, and a report from which Ethproofs, if base64 gives back the proof's bytes, reads the
    -- block, the cycles and the words of the proof.
    pub requests-process_job :
        (job : ProveJob) (replies : Replies) (proof : List ℕ) (cycles : ℕ)
        → c.base64_decode (c.base64_encode (bytes_of_proof proof)) ≡ some (bytes_of_proof proof)
        → Succeeds replies proof cycles
        → All (λ w. w < 2 ^ 64) proof
        → (report : Request) × (requests (process_job job replies)
            ≡ reth_proofs.Ethproofs.proving client job.block_number ∷ report ∷ [])
          × Carries report.json job.block_number proof cycles
    unfolding process_job requests reth_proofs.Ethproofs.proved
    requests-process_job job replies proof cycles decoded (w, (id, i), (payload, p, e, f, g))
          small =
        (
          reth_proofs.Ethproofs.proved c client (bytes_of_proof proof) job.block_number cycles
              elapsed image_id_hex,
          rw (w, i, p, (verdict_of_proven payload proof cycles).1 (e, f, g))
              (rw (requests-removed job.block_number replies.removed)),
          (refl, refl, (bytes_of_proof proof, decoded, words_of-bytes_of_proof proof small)),
        )
