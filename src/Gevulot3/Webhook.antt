-- ===== src/Gevulot3/Webhook.antt =====
-- gevulot3/src/zisk.rs: the webhook server, which hands results of the coordinator to the worker.
use reth_proofs.Prelude.{ℕ, Option, none, some, []}
use reth_proofs.Table.{Table, lookup, insert, erase}
use reth_proofs.Gevulot3.{WebhookPayload}
use reth_proofs.Gevulot3.Channels.{Channels}

-- `AppState`, with the one-shot channels of the program: `pending_jobs` has the sender of each job.
pub record AppState (c : Channels) : Type 0 where
  pub pending_jobs : Table ℕ
  pub oneshots : c.OneShots

module _ (c : Channels) where
  -- `start_webhook_server`
  abbrev pub app_state : AppState c
  app_state = record { pending_jobs = []; oneshots = c.no_channels }

  -- The match on `pending_jobs.remove(&payload.job_id)`
  abbrev pub deliver : AppState c → WebhookPayload → Option ℕ → AppState c
  deliver state payload none = state
  deliver state payload (some tx) = record {
    pending_jobs = erase payload.job_id state.pending_jobs;
    oneshots = c.send_on state.oneshots tx payload;
  }

  -- `webhook_handler` answers OK in either case.
  unfoldable pub webhook_handler : AppState c → WebhookPayload → AppState c
  webhook_handler state payload = deliver state payload (lookup payload.job_id state.pending_jobs)

  -- `register_job`, which returns the channel that the caller waits on.
  unfoldable pub register_job : AppState c → ℕ → AppState c × ℕ
  register_job state job_id =
      let (oneshots, tx) = c.channel state.oneshots in
      (record { pending_jobs = insert job_id tx state.pending_jobs; oneshots = oneshots }, tx)
