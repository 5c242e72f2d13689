-- ===== src/Gevulot3/Worker.antt =====
-- The prove worker of gevulot3/src/main.rs: what one job makes it do, given how its calls end.
pub mod Proofs
use reth_proofs.Prelude.{
  ℕ, Bool, true, false, Option, none, some, List, [], ◌∷◌, ◌++◌, if◌then◌else◌,
}
use reth_proofs.External.{Bytes}
use reth_proofs.Frame.{to_le_bytes}
use reth_proofs.Gevulot3.{ProveJob, WebhookPayload, WebhookError}

-- What the worker does to the outside: calls of Ethproofs, the input file, and the coordinator.
pub data Event : Type 0 where
  proving : (block_number : ℕ) → Event
  wrote_input : (block_number : ℕ) → Bytes → Event
  submitted_job : (block_number job_id : ℕ) → Event
  registered : (job_id : ℕ) → Event
  proved : (proof_bytes : Bytes) → (block_number cycles : ℕ) → Event
  removed_input : (block_number : ℕ) → Event

-- The worker's reading of a payload.
pub data Verdict : Type 0 where
  failed : WebhookError → Verdict
  empty_proof : Verdict
  missing_cycles : Verdict
  proven : (proof : List ℕ) → (cycles : ℕ) → Verdict

unfoldable pub verdict_of : WebhookPayload → Verdict
verdict_of payload = elim payload.error [
  | some error ↦ failed error
  | none ↦ elim payload.proof [
    | none ↦ empty_proof
    | some proof ↦ elim payload.executed_steps [ none ↦ missing_cycles | some n ↦ proven proof n ]
  ]
]

-- `proof_bytes.iter().flat_map(|&x| x.to_le_bytes())` on `u64` words
unfoldable pub bytes_of_proof : List ℕ → Bytes
bytes_of_proof [] = []
bytes_of_proof (x ∷ words) = to_le_bytes 8 x ++ bytes_of_proof words

-- How the calls of one job end: whether the file is written, the id that the coordinator returns, and
-- what the webhook channel delivers, `none` where it is closed.
pub record Replies : Type 0 where
  pub written : Bool
  pub job_id : Option ℕ
  pub payload : Option WebhookPayload
  pub removed : Bool

-- After the verdict; the upload to Ethproofs runs in a task of its own.
unfoldable pub upload : ProveJob → (removed : Bool) → Verdict → List Event
unfolding bytes_of_proof
upload job removed (proven proof cycles) =
    proved (bytes_of_proof proof) job.block_number cycles
    ∷ (if removed then removed_input job.block_number ∷ [] else [])
upload job removed _ = []

unfoldable pub await_result : ProveJob → Replies → List Event
unfolding verdict_of upload
await_result job replies = elim replies.payload [
  | none ↦ []
  | some payload ↦ upload job replies.removed (verdict_of payload)
]

unfoldable pub submit_and_wait : ProveJob → Replies → List Event
unfolding await_result
submit_and_wait job replies = elim replies.job_id [
  | none ↦ []
  | some id ↦ submitted_job job.block_number id ∷ registered id ∷ await_result job replies
]

unfoldable pub process_job : ProveJob → Replies → List Event
unfolding submit_and_wait
process_job job replies =
    proving job.block_number
    ∷ (if replies.written
        then wrote_input job.block_number job.zkvm_input ∷ submit_and_wait job replies
        else [])
