-- ===== src/Gevulot3/Queue.antt =====
-- The prove queue of gevulot3/src/main.rs, which the main loop drains before it sends, where it skips
-- pending blocks or finds the queue full.
pub mod Bounds
use reth_proofs.Prelude.{
  ℕ, zero, suc, Bool, true, false, Option, none, some, List, [], ◌∷◌, if◌then◌else◌,
}
use reth_proofs.Gevulot3.{ProveJob, RunArgs}
use reth_proofs.Gevulot3.Channels.{TrySend, sent, full, closed_queue, Channels}

-- How the main loop fares with a job: it is in the queue, it is lost as the queue is closed, or the
-- loop waits in `send` for room. The jobs that were dropped to make room come with it.
pub data Enqueued (c : Channels) : Type 0 where
  queued : (dropped : List ProveJob) → c.Queue → Enqueued c
  lost : (dropped : List ProveJob) → c.Queue → Enqueued c
  blocked : (dropped : List ProveJob) → c.Queue → Enqueued c

module _ (c : Channels) where
  -- A turn of the draining loop: what was received, and the turns after it.
  abbrev pub taken :
      c.Queue
      → (c.Queue → List ProveJob × c.Queue)
      → Option (ProveJob × c.Queue)
      → List ProveJob × c.Queue
  taken queue next none = ([], queue)
  taken queue next (some (old_job, rest)) = (old_job ∷ (next rest).0, (next rest).1)

  -- The loops `while let Ok(old_job) = prove_queue_rx.try_recv()`, on fuel: what they take out, and
  -- the queue that is left.
  unfoldable pub drain : ℕ → c.Queue → List ProveJob × c.Queue
  drain zero queue = ([], queue)
  drain (suc fuel) queue = taken queue (drain fuel) (c.try_recv queue)

  -- The match on `send(job).await` after a drain
  abbrev pub sent_after : List ProveJob → c.Queue → TrySend c.Queue → Enqueued c
  sent_after dropped queue (sent queue') = queued dropped queue'
  sent_after dropped queue full = blocked dropped queue
  sent_after dropped queue closed_queue = lost dropped queue

  unfoldable pub drain_and_send : ℕ → c.Queue → ProveJob → Enqueued c
  drain_and_send fuel queue job =
      let (dropped, left) = drain fuel queue in sent_after dropped left (c.send left job)

  -- The match on `try_send(job)`
  abbrev pub tried : c.Queue → TrySend c.Queue → Enqueued c → Enqueued c
  tried queue (sent queue') drained = queued [] queue'
  tried queue full drained = drained
  tried queue closed_queue drained = lost [] queue

  -- The part of the main loop that puts a prepared job into the queue. A queue holds at most as many
  -- jobs as its capacity, which is the fuel of the drain.
  unfoldable pub enqueue : RunArgs → c.Queue → ProveJob → Enqueued c
  enqueue args queue job =
      let drained = drain_and_send args.prove_queue_capacity queue job in
      if args.skip_pending_blocks then drained else tried queue (c.try_send queue job) drained
