-- ===== src/Gevulot3/Worker/Proofs.antt =====
-- Which jobs end in a proof upload, and the uploaded bytes against the proof's words.
use reth_proofs.Prelude.{
  ℕ, suc, ◌≡◌, ◌<◌, ◌^◌, ◌+◌, ◌*◌, refl, Bool, true, false, Option, none, some, List, [], ◌∷◌, ◌↔◌,
  arith, ap, All,
}
use reth_proofs.External.{Bytes}
use reth_proofs.Frame.{to_le_bytes}
use reth_proofs.Gevulot3.{ProveJob, WebhookPayload}
use reth_proofs.Gevulot3.Worker.{
  Event, proving, proved, Verdict, failed, empty_proof, missing_cycles, proven, verdict_of,
  bytes_of_proof, Replies, upload, await_result, submit_and_wait, process_job,
}

-- The words that groups of eight little-endian bytes stand for.
abbrev pub word_of : ℕ → ℕ → ℕ → ℕ → ℕ → ℕ → ℕ → ℕ → ℕ
word_of a b c d e f g h =
    a + 256 * (b + 256 * (c + 256 * (d + 256 * (e + 256 * (f + 256 * (g + 256 * h))))))

abbrev pub words_of : Bytes → List ℕ
words_of (a ∷ b ∷ c ∷ d ∷ e ∷ f ∷ g ∷ h ∷ rest) = word_of a b c d e f g h ∷ words_of rest
words_of _ = []

-- Read eight by eight, the bytes that are uploaded for a proof give back its words.
pub words_of-bytes_of_proof :
    (words : List ℕ) → All (λ w. w < 2 ^ 64) words → words_of (bytes_of_proof words) ≡ words
unfolding bytes_of_proof to_le_bytes
words_of-bytes_of_proof [] small = refl
words_of-bytes_of_proof (w ∷ words) (here, small) =
    rw (words_of-bytes_of_proof words small) (ap (λ v. v ∷ words) (omega (arith, here)))

-- How many of the events upload a proof.
abbrev pub uploads : List Event → ℕ
uploads [] = 0
uploads (proved bytes n cycles ∷ events) = suc (uploads events)
uploads (_ ∷ events) = uploads events

-- The file was written, the coordinator gave an id, and the payload has a proof and a step count and
-- no error; its `is_success` is not looked at.
abbrev pub Succeeds : Replies → List ℕ → ℕ → Type 0
Succeeds replies proof cycles =
    (replies.written ≡ true)
    × ((id : ℕ) × (replies.job_id ≡ some id))
    × ((payload : WebhookPayload) × (replies.payload ≡ some payload)
        × (payload.error ≡ none)
        × (payload.proof ≡ some proof)
        × (payload.executed_steps ≡ some cycles))

pub verdict_of_proven :
    (payload : WebhookPayload) (proof : List ℕ) (cycles : ℕ)
    → (verdict_of payload ≡ proven proof cycles) ↔ (
        (payload.error ≡ none)
        × (payload.proof ≡ some proof)
        × (payload.executed_steps ≡ some cycles))
unfolding verdict_of
verdict_of_proven payload proof cycles = (λ h. ground arith, λ (e, f, g). rw (e, f, g))

upload-proven :
    (job : ProveJob) (removed : Bool) (v : Verdict)
    → uploads (upload job removed v) ≡ 1
    → (proof : List ℕ) × (cycles : ℕ) × (v ≡ proven proof cycles)
unfolding upload
upload-proven job removed (proven proof cycles) h = (proof, cycles, refl)
upload-proven job removed (failed e) h = cc
upload-proven job removed empty_proof h = cc
upload-proven job removed missing_cycles h = cc

uploads-Succeeds :
    (job : ProveJob) (w : Bool) (i : Option ℕ) (p : Option WebhookPayload) (r : Bool)
    → uploads (process_job job (record { written = w; job_id = i; payload = p; removed = r })) ≡ 1
    → (proof : List ℕ) × (cycles : ℕ) × Succeeds
        (record { written = w; job_id = i; payload = p; removed = r })
        proof
        cycles
unfolding process_job submit_and_wait await_result
uploads-Succeeds job false i p r h = cc
uploads-Succeeds job true none p r h = cc
uploads-Succeeds job true (some id) none r h = cc
uploads-Succeeds job true (some id) (some payload) r h =
    let (proof, cycles, verdict) = upload-proven job r (verdict_of payload) h in
    let (e, f, g) = (verdict_of_proven payload proof cycles).0 verdict in
    (proof, cycles, (refl, (id, refl), (payload, refl, e, f, g)))

-- A job is announced first, whatever happens to it; its proof is uploaded, once, exactly when the
-- input was written and submitted and the payload has a proof and a step count and no error.
pub process_job_iff :
    (job : ProveJob) (replies : Replies)
    → ((rest : List Event) × (process_job job replies ≡ proving job.block_number ∷ rest))
      × ((uploads (process_job job replies) ≡ 1)
          ↔ ((proof : List ℕ) × (cycles : ℕ) × Succeeds replies proof cycles))
unfolding process_job submit_and_wait await_result upload
process_job_iff job replies = (
  (_, refl),
  (
    uploads-Succeeds job replies.written replies.job_id replies.payload replies.removed,
    λ (proof, cycles, (w, (id, i), (payload, p, e, f, g))).
        rw (w, i, p, (verdict_of_proven payload proof cycles).1 (e, f, g)) (ground arith),
  ),
)
