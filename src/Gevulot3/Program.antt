-- ===== src/Gevulot3/Program.antt =====
-- gevulot3/src/main.rs from its start to its end: the tasks of `Gevulot3.System` while the main loop
-- runs, and the shutdown after it. The loop is left on ctrl-c or when the stream of blocks ends; the
-- token is cancelled, the sender of the queue dropped, the worker awaited for a limited time, and the
-- webhook server aborted. Where several branches of a `select!` are ready, any of them may be taken.
-- `prepare` is the loop's `prepare_input`.
pub mod Inputs
pub mod Verdicts
pub mod Shutdown
use reth_proofs.Prelude.{ℕ, ◌≡◌, ◌≢◌, Bool, true, false, none, some}
use reth_proofs.Outcome.{Outcome, Panic}
use reth_proofs.External.{Bytes}
use reth_proofs.Gevulot3.{RunArgs}
use reth_proofs.Gevulot3.Channels.{Channels}
use reth_proofs.Gevulot3.Queue.{queued}
use reth_proofs.Gevulot3.Listener.{put, crashed, main_turn}
use reth_proofs.Gevulot3.System.{
  idle, System, start, Step, new_block, submit, fail, wait, webhook, result,
}

-- Where `main` stands. `panicked` is a panic of the main loop, which ends the program.
pub data Phase : Type 0 where
  listening : Phase
  cancelled : Phase
  sender_dropped : Phase
  shut_down : Phase
  panicked : Phase

-- The tasks run until `main` has ended.
abbrev pub is_running : Phase → Bool
is_running shut_down = false
is_running panicked = false
is_running _ = true

pub record Program (c : Channels) : Type 0 where
  pub system : System c
  pub phase : Phase
  pub worker_stopped : Bool

module _ (c : Channels) (args : RunArgs) where
  abbrev pub launch : Program c
  launch = record { system = start c args; phase = listening; worker_stopped = false }

  -- Which tasks may step: the main loop while it listens, with a job that a turn puts to the queue,
  -- the worker until it stops, and the webhook server until the end.
  abbrev pub May : (ℕ → Outcome Bytes) → {s t : System c} → Phase → Bool → Step c args s t → Type 0
  May prepare phase stopped (new_block {s} job dropped queue e) =
      (phase ≡ listening)
      × ((main_turn c prepare args s.queue job.block_number).ending
          ≡ put job (queued dropped queue))
  May prepare phase stopped (submit job queue job_id e f g) =
      (is_running phase ≡ true) × (stopped ≡ false)
  May prepare phase stopped (fail job queue written e f) =
      (is_running phase ≡ true) × (stopped ≡ false)
  May prepare phase stopped (wait job job_id e) = (is_running phase ≡ true) × (stopped ≡ false)
  May prepare phase stopped (webhook payload e) = is_running phase ≡ true
  May prepare phase stopped (result job channel payload removed e f) =
      (is_running phase ≡ true) × (stopped ≡ false)

pub data Move (c : Channels) (args : RunArgs) (prepare : ℕ → Outcome Bytes)
    : Program c → Program c → Type 0 where
  task :
      {p : Program c} {t : System c} (step : Step c args p.system t)
      → May c args prepare p.phase p.worker_stopped step
      → Move c args prepare p (record p { system = t })
  leave_loop :
      {p : Program c} → p.phase ≡ listening → Move c args prepare p (record p { phase = cancelled })
  crash :
      {p : Program c} (block_number : ℕ) (reason : Panic)
      → p.phase ≡ listening
      → (main_turn c prepare args p.system.queue block_number).ending ≡ crashed reason
      → Move c args prepare p (record p { phase = panicked })
  drop_sender :
      {p : Program c}
      → p.phase ≡ cancelled
      → Move c args prepare p (record p { phase = sender_dropped })
  -- The worker finds the token cancelled, where it would wait for a job.
  stop_cancelled :
      {p : Program c}
      → is_running p.phase ≡ true
      → p.phase ≢ listening
      → p.system.worker ≡ idle
      → Move c args prepare p (record p { worker_stopped = true })
  -- The worker finds the queue closed and empty.
  stop_closed :
      {p : Program c}
      → p.phase ≡ sender_dropped
      → p.system.worker ≡ idle
      → c.try_recv p.system.queue ≡ none
      → Move c args prepare p (record p { worker_stopped = true })
  -- The wait for the worker ends with the worker, or after thirty seconds.
  worker_ended :
      {p : Program c}
      → p.phase ≡ sender_dropped
      → p.worker_stopped ≡ true
      → Move c args prepare p (record p { phase = shut_down })
  timed_out :
      {p : Program c}
      → p.phase ≡ sender_dropped
      → Move c args prepare p (record p { phase = shut_down })

pub data Moves (c : Channels) (args : RunArgs) (prepare : ℕ → Outcome Bytes)
    : Program c → Program c → Type 0 where
  still : {p : Program c} → Moves c args prepare p p
  then_move :
      {p q r : Program c}
      → Move c args prepare p q
      → Moves c args prepare q r
      → Moves c args prepare p r
