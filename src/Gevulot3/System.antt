-- ===== src/Gevulot3/System.antt =====
-- The tasks of gevulot3/src/main.rs together, and the coordinator: the orders in which they can step.
-- The coordinator gives each job an id of its own and calls back at most once for it, at any time. A
-- turn of the main loop, with its drain of the queue, is one step: that the worker receives a job
-- between two receives of the drain is not modelled.
pub mod Fresh
pub mod Callbacks
pub mod Delivered
pub mod Capacity
pub mod Order
pub mod History
pub mod Traces
use reth_proofs.Prelude.{ℕ, ◌≡◌, Bool, true, false, none, some, List, [], ◌∷◌, ◌++◌, if◌then◌else◌}
use reth_proofs.Table.{Table, lookup, insert}
use reth_proofs.Gevulot3.{ProveJob, WebhookPayload, RunArgs}
use reth_proofs.Gevulot3.Channels.{Channels}
use reth_proofs.Gevulot3.Queue.{queued, enqueue}
use reth_proofs.Gevulot3.Worker.{
  Event, proving, wrote_input, submitted_job, registered, upload, verdict_of,
}
use reth_proofs.Gevulot3.Webhook.{AppState, app_state, webhook_handler, register_job}

-- Where the worker stands between its awaits.
pub data Worker : Type 0 where
  idle : Worker
  submitted : ProveJob → (job_id : ℕ) → Worker
  waiting : ProveJob → (channel : ℕ) → Worker

-- `coordinator` has, for each job that it was given, whether it has called back.
pub record System (c : Channels) : Type 0 where
  pub queue : c.Queue
  pub worker : Worker
  pub server : AppState c
  pub coordinator : Table Bool
  pub events : List Event

module _ (c : Channels) where
  abbrev pub start : RunArgs → System c
  start args = record {
    queue = c.bounded args.prove_queue_capacity;
    worker = idle;
    server = app_state c;
    coordinator = [];
    events = [];
  }

  -- The worker takes a job: it announces it, writes the input, and submits it.
  abbrev pub take : System c → ProveJob → c.Queue → ℕ → System c
  take s job queue job_id = record s {
    queue = queue;
    worker = submitted job job_id;
    coordinator = insert job_id false s.coordinator;
    events =
        s.events
        ++ proving job.block_number
          ∷ wrote_input job.block_number job.zkvm_input
          ∷ submitted_job job.block_number job_id
          ∷ [];
  }

  -- A job may also end before it is submitted: its input is not written, or the coordinator fails.
  abbrev pub give_up : System c → ProveJob → c.Queue → (written : Bool) → System c
  give_up s job queue written = record s {
    queue = queue;
    events =
        s.events
        ++ proving job.block_number
          ∷ (if written then wrote_input job.block_number job.zkvm_input ∷ [] else []);
  }

  abbrev pub register : System c → ProveJob → ℕ → System c
  register s job job_id =
      let (server, channel) = register_job c s.server job_id in
      record s {
        worker = waiting job channel;
        server = server;
        events = s.events ++ registered job_id ∷ [];
      }

  abbrev pub call_back : System c → WebhookPayload → System c
  call_back s payload = record s {
    server = webhook_handler c s.server payload;
    coordinator = insert payload.job_id true s.coordinator;
  }

  abbrev pub finish : System c → ProveJob → WebhookPayload → (removed : Bool) → System c
  finish s job payload removed = record s {
    worker = idle;
    events = s.events ++ upload job removed (verdict_of payload);
  }

pub data Step (c : Channels) (args : RunArgs) : System c → System c → Type 0 where
  new_block :
      {s : System c} (job : ProveJob) (dropped : List ProveJob) (queue : c.Queue)
      → enqueue c args s.queue job ≡ queued dropped queue
      → Step c args s (record s { queue = queue })
  submit :
      {s : System c} (job : ProveJob) (queue : c.Queue) (job_id : ℕ)
      → s.worker ≡ idle
      → c.try_recv s.queue ≡ some (job, queue)
      → lookup job_id s.coordinator ≡ none
      → Step c args s (take c s job queue job_id)
  fail :
      {s : System c} (job : ProveJob) (queue : c.Queue) (written : Bool)
      → s.worker ≡ idle
      → c.try_recv s.queue ≡ some (job, queue)
      → Step c args s (give_up c s job queue written)
  wait :
      {s : System c} (job : ProveJob) (job_id : ℕ)
      → s.worker ≡ submitted job job_id
      → Step c args s (register c s job job_id)
  webhook :
      {s : System c} (payload : WebhookPayload)
      → lookup payload.job_id s.coordinator ≡ some false
      → Step c args s (call_back c s payload)
  result :
      {s : System c} (job : ProveJob) (channel : ℕ) (payload : WebhookPayload) (removed : Bool)
      → s.worker ≡ waiting job channel
      → c.received s.server.oneshots channel ≡ some payload
      → Step c args s (finish c s job payload removed)

pub data Steps (c : Channels) (args : RunArgs) : System c → System c → Type 0 where
  done : {s : System c} → Steps c args s s
  more : {s t u : System c} → Step c args s t → Steps c args t u → Steps c args s u
