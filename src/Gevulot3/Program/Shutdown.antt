-- ===== src/Gevulot3/Program/Shutdown.antt =====
-- What the shutdown of gevulot3 does to a worker that waits for a lost callback.
use reth_proofs.Prelude.{ℕ, ◌≡◌, true, false, some, arith}
use reth_proofs.Table.{lookup}
use reth_proofs.Outcome.{Outcome}
use reth_proofs.External.{Bytes}
use reth_proofs.Gevulot3.{ProveJob, RunArgs}
use reth_proofs.Gevulot3.Channels.{Channels, ChannelLaws}
use reth_proofs.Gevulot3.System.{submitted, waiting, System, register, Steps, done, more}
use reth_proofs.Gevulot3.System.Callbacks.{early_callback}
use reth_proofs.Gevulot3.Program.Inputs.{Moves-Steps}
use reth_proofs.Gevulot3.Program.{
  Program, launch, task, leave_loop, crash, drop_sender, stop_cancelled, stop_closed, worker_ended,
  timed_out, Moves, still, then_move,
}

module _ (c : Channels) (args : RunArgs) (prepare : ℕ → Outcome Bytes) where
  -- A worker that waits whatever the tasks do is not stopped.
  never_stopped :
      {p q : Program c} (job : ProveJob) (channel : ℕ)
      → Moves c args prepare p q
      → ((t : System c) → Steps c args p.system t → t.worker ≡ waiting job channel)
      → p.worker_stopped ≡ false
      → q.worker_stopped ≡ false
  never_stopped job channel still waits e = e
  never_stopped job channel (then_move (task step may) moves) waits e =
      never_stopped job channel moves (λ t steps. waits t (more step steps)) e
  never_stopped job channel (then_move (leave_loop f) moves) waits e =
      never_stopped job channel moves waits e
  never_stopped job channel (then_move (crash number reason f g) moves) waits e =
      never_stopped job channel moves waits e
  never_stopped job channel (then_move (drop_sender f) moves) waits e =
      never_stopped job channel moves waits e
  never_stopped {p} job channel (then_move (stop_cancelled f g rest) moves) waits e =
      absurd (ground (arith, rest, waits p.system done))
  never_stopped {p} job channel (then_move (stop_closed f rest g) moves) waits e =
      absurd (ground (arith, rest, waits p.system done))
  never_stopped job channel (then_move (worker_ended f g) moves) waits e =
      never_stopped job channel moves waits e
  never_stopped job channel (then_move (timed_out f) moves) waits e =
      never_stopped job channel moves waits e

  module _ (laws : ChannelLaws c) where
    -- If the coordinator calls back before the worker, which has not stopped, has registered the
    -- job, then whatever happens next, the shutdown included, the worker neither finishes the job
    -- nor stops: `main` can return only when its wait for the worker times out.
    pub early_callback-shutdown :
        (p q : Program c) (job : ProveJob) (job_id : ℕ)
        → Moves c args prepare (launch c args) p
        → p.worker_stopped ≡ false
        → p.system.worker ≡ submitted job job_id
        → lookup job_id p.system.coordinator ≡ some true
        → Moves c args prepare (record p { system = register c p.system job job_id }) q
        → (q.system.worker ≡ waiting job (c.channel p.system.server.oneshots).1)
          × (q.worker_stopped ≡ false)
    early_callback-shutdown p q job job_id before running at early after =
        let stuck = λ (t : System c) (steps : Steps c args (register c p.system job job_id) t).
          early_callback c laws args p.system t job job_id (Moves-Steps prepare c args before).0 at
            early steps in
        (
          stuck q.system (Moves-Steps prepare c args after).0,
          never_stopped job (c.channel p.system.server.oneshots).1 after stuck running,
        )
