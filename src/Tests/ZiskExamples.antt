-- ===== src/Tests/ZiskExamples.antt =====
-- The ZisK orchestrator at a run of one job.
use reth_proofs.Prelude.{
  ℕ, ◌≡◌, ◌↔◌, refl, true, false, none, some, List, [], ◌∷◌, ◌++◌, map, arith,
}
use reth_proofs.Table.{lookup, insert}
use reth_proofs.Gevulot3.{ProveJob, WebhookPayload, RunArgs}
use reth_proofs.Gevulot3.Queue.{enqueue, queued}
use reth_proofs.Gevulot3.Queue.Bounds.{IsEnqueued, enqueue_lem}
use reth_proofs.Gevulot3.Worker.{Event, Replies, proving, process_job}
use reth_proofs.Gevulot3.Worker.Proofs.{uploads, Succeeds, process_job_iff}
use reth_proofs.Gevulot3.System.{
  System, start, take, call_back, new_block, submit, webhook, Steps, done, more,
}
use reth_proofs.Gevulot3.System.History.{History, jobs_of, traces, in_hand, IsAt}
use reth_proofs.Gevulot3.System.Traces.{Steps-process_job}
use reth_proofs.Gevulot3.System.Order.{worked, job_of, arrivals, departures, arrivals-departures}
use reth_proofs.Tests.ToyChannels.{ToyQueue, toy_channels, toy_channels-ChannelLaws}

abbrev pub args : RunArgs
args = record {
  http_rpc_url = 1 ∷ [];
  ws_rpc_url = 2 ∷ [];
  ethproofs_api_url = 3 ∷ [];
  ethproofs_api_token = 4 ∷ [];
  ethproofs_cluster_id = 5;
  zisk_coordinator_url = 6 ∷ [];
  zisk_compute_units = 7;
  zisk_webhook_port = 8080;
  skip_pending_blocks = false;
  prove_queue_capacity = 2;
}

abbrev pub job : ProveJob
job = record { block_number = 100; zkvm_input = 1 ∷ [] }

abbrev pub payload : WebhookPayload
payload = record {
  job_id = 7;
  is_success = true;
  duration_ms = 1;
  proof = some (258 ∷ []);
  executed_steps = some 5;
  timestamp = [];
  error = none;
}

abbrev pub queue_of : List ProveJob → ToyQueue
queue_of jobs = record { capacity = 2; jobs = jobs; closed = false }

enqueue_lem_example :
    (dropped : List ProveJob) × (after : ToyQueue) × (enqueue toy_channels args
        (queue_of (job ∷ job ∷ []))
        job
      ≡ queued dropped after)
    × IsEnqueued toy_channels toy_channels-ChannelLaws args
        (queue_of (job ∷ job ∷ []))
        job
        dropped
        after
unfolding toy_channels-ChannelLaws
enqueue_lem_example =
    enqueue_lem toy_channels toy_channels-ChannelLaws args (queue_of (job ∷ job ∷ [])) job refl refl
      (omega arith) (omega arith)

abbrev pub replies : Replies
replies = record { written = true; job_id = some 7; payload = some payload; removed = true }

process_job_iff_example :
    ((rest : List Event) × (process_job job replies ≡ proving 100 ∷ rest))
    × ((uploads (process_job job replies) ≡ 1)
        ↔ ((proof : List ℕ) × (cycles : ℕ) × Succeeds replies proof cycles))
process_job_iff_example = process_job_iff job replies

-- A block was queued, and its job submitted.
abbrev pub one_queued : System toy_channels
one_queued = record (start toy_channels args) { queue = queue_of (job ∷ []) }

abbrev pub one_submitted : System toy_channels
one_submitted = take toy_channels one_queued job (queue_of []) 7

pub enqueued :
    enqueue toy_channels args (start toy_channels args).queue job ≡ queued [] (queue_of (job ∷ []))
unfolding enqueue
enqueued = refl

unfoldable pub to_submitted : Steps toy_channels args (start toy_channels args) one_submitted
unfolding lookup
to_submitted =
    more (new_block job [] (queue_of (job ∷ [])) enqueued)
      (more (submit job (queue_of []) 7 refl refl refl) done)

-- The coordinator has called back before the job is registered.
abbrev pub called_back : System toy_channels
called_back = call_back toy_channels one_submitted payload

to_called_back : Steps toy_channels args (start toy_channels args) called_back
unfolding lookup insert
to_called_back =
    more (new_block job [] (queue_of (job ∷ [])) enqueued)
      (more (submit job (queue_of []) 7 refl refl refl) (more (webhook payload refl) done))

arrivals-departures_example :
    arrivals toy_channels args to_submitted
    ≡ map job_of (departures toy_channels args to_submitted)
      ++ toy_channels-ChannelLaws.jobs one_submitted.queue
arrivals-departures_example =
    arrivals-departures toy_channels args toy_channels-ChannelLaws one_submitted to_submitted
      (omega arith)

Steps-process_job_example :
    (history : History) × (begun : List Event) × (one_submitted.events ≡ traces history ++ begun)
    × IsAt one_submitted.worker begun
    × (worked (departures toy_channels args to_submitted)
        ≡ jobs_of history ++ in_hand one_submitted.worker)
Steps-process_job_example = Steps-process_job toy_channels args one_submitted to_submitted
