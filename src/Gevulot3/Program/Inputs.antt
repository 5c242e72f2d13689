-- ===== src/Gevulot3/Program/Inputs.antt =====
-- Where the inputs come from that the worker of gevulot3 writes for the prover.
use reth_proofs.Prelude.{
  ℕ, ◌≡◌, Bool, true, false, some, map, All, All-append, All-left, All-right, All-get_elem?,
  get_elem?, arith, ap, subst, ◌<◌,
}
use mathlib.Core.List.{map-append}
use reth_proofs.Outcome.{Outcome, ok, err, panic}
use reth_proofs.External.{Bytes}
use reth_proofs.Gevulot3.{ProveJob, RunArgs}
use reth_proofs.Gevulot3.Channels.{Channels, ChannelLaws}
use reth_proofs.Gevulot3.Queue.{Enqueued}
use reth_proofs.Gevulot3.Worker.{
  Event, wrote_input, Verdict, failed, empty_proof, missing_cycles, proven, upload, verdict_of,
}
use reth_proofs.Gevulot3.Listener.{put, main_turn, queue_input}
use reth_proofs.Gevulot3.System.{
  System, give_up, Step, new_block, submit, fail, wait, webhook, result, Steps, done, more,
}
use reth_proofs.Gevulot3.System.Order.{
  job_of, departure, departures, arrival, arrivals, arrivals-departures,
}
use reth_proofs.Gevulot3.Program.{
  Phase, May, Program, launch, task, leave_loop, crash, drop_sender, stop_cancelled, stop_closed,
  worker_ended, timed_out, Moves, still, then_move,
}

module _ (prepare : ℕ → Outcome Bytes) where
  -- The job's input is what `prepare_input` returned for its block.
  abbrev pub IsPrepared : ProveJob → Type 0
  IsPrepared job = prepare job.block_number ≡ ok job.zkvm_input

  -- If the event is the writing of an input, then it was prepared for the block.
  abbrev pub WritesPrepared : Event → Type 0
  WritesPrepared (wrote_input block_number zkvm_input) = prepare block_number ≡ ok zkvm_input
  WritesPrepared _ = Unit

  upload-WritesPrepared :
      (job : ProveJob) (removed : Bool) (verdict : Verdict)
      → All WritesPrepared (upload job removed verdict)
  unfolding upload
  upload-WritesPrepared job removed (failed e) = tt
  upload-WritesPrepared job removed empty_proof = tt
  upload-WritesPrepared job removed missing_cycles = tt
  upload-WritesPrepared job true (proven proof cycles) = (tt, (tt, tt))
  upload-WritesPrepared job false (proven proof cycles) = (tt, tt)

  module _ (c : Channels) (args : RunArgs) where
    queue_input-IsPrepared :
        (queue : c.Queue) (n : ℕ) (prepared : Outcome Bytes) (job : ProveJob) (e : Enqueued c)
        → queue_input c prepare args queue n prepared ≡ put job e
        → (n ≡ job.block_number) × (prepared ≡ ok job.zkvm_input)
    queue_input-IsPrepared queue n (ok zkvm_input) job e h =
        let made : ProveJob = record { block_number = n; zkvm_input = zkvm_input } in
        let same : made ≡ job = ground (arith, h) in
        (ap (λ (j : ProveJob). j.block_number) same, ap (λ (j : ProveJob). ok j.zkvm_input) same)
    queue_input-IsPrepared queue n (err _) job e h = cc
    queue_input-IsPrepared queue n (panic _) job e h = cc

    arrival-IsPrepared :
        (phase : Phase) (stopped : Bool) {s t : System c} (step : Step c args s t)
        → May c args prepare phase stopped step
        → All IsPrepared (arrival c args step)
    unfolding main_turn
    arrival-IsPrepared phase stopped {s} (new_block job dropped queue e) (listens, turn) =
        ((queue_input-IsPrepared s.queue job.block_number _ job _ turn).1, tt)
    arrival-IsPrepared phase stopped (submit job queue job_id e f g) may = tt
    arrival-IsPrepared phase stopped (fail job queue written e f) may = tt
    arrival-IsPrepared phase stopped (wait job job_id e) may = tt
    arrival-IsPrepared phase stopped (webhook payload e) may = tt
    arrival-IsPrepared phase stopped (result job channel payload removed e f) may = tt

    give_up-WritesPrepared :
        (s : System c) (job : ProveJob) (queue : c.Queue) (written : Bool)
        → IsPrepared job
        → All WritesPrepared s.events
        → All WritesPrepared (give_up c s job queue written).events
    give_up-WritesPrepared s job queue true prepared before =
        All-append WritesPrepared s.events _ before (tt, (prepared, tt))
    give_up-WritesPrepared s job queue false prepared before =
        All-append WritesPrepared s.events _ before (tt, tt)

    Step-WritesPrepared :
        {s t : System c} (step : Step c args s t)
        → All IsPrepared (map job_of (departure c args step))
        → All WritesPrepared s.events
        → All WritesPrepared t.events
    Step-WritesPrepared (new_block job dropped queue e) prepared before = before
    Step-WritesPrepared {s} (submit job queue job_id e f g) prepared before =
        All-append WritesPrepared s.events _ before (tt, (prepared.0, (tt, tt)))
    Step-WritesPrepared {s} (fail job queue written e f) prepared before =
        give_up-WritesPrepared s job queue written prepared.0 before
    Step-WritesPrepared {s} (wait job job_id e) prepared before =
        All-append WritesPrepared s.events _ before (tt, tt)
    Step-WritesPrepared (webhook payload e) prepared before = before
    Step-WritesPrepared {s} (result job channel payload removed e f) prepared before =
        All-append WritesPrepared s.events _ before
          (upload-WritesPrepared job removed (verdict_of payload))

    Steps-WritesPrepared :
        {s t : System c} (steps : Steps c args s t)
        → All IsPrepared (map job_of (departures c args steps))
        → All WritesPrepared s.events
        → All WritesPrepared t.events
    Steps-WritesPrepared done prepared before = before
    Steps-WritesPrepared (more step steps) prepared before =
        let both =
          subst (All IsPrepared)
            (map-append job_of (departure c args step) (departures c args steps)) prepared in
        Steps-WritesPrepared steps
          (All-right IsPrepared (map job_of (departure c args step)) _ both)
          (Step-WritesPrepared step
            (All-left IsPrepared (map job_of (departure c args step)) _ both) before)

    -- The tasks' part of a run of the program, where what arrives in the queue was prepared.
    pub Moves-Steps :
        {p q : Program c}
        → Moves c args prepare p q
        → (steps : Steps c args p.system q.system) × All IsPrepared (arrivals c args steps)
    Moves-Steps still = (done, tt)
    Moves-Steps {p} (then_move (task step may) moves) =
        let (steps, prepared) = Moves-Steps moves in
        (
          more step steps,
          All-append IsPrepared (arrival c args step) _ (arrival-IsPrepared _ _ step may) prepared,
        )
    Moves-Steps (then_move (leave_loop e) moves) = Moves-Steps moves
    Moves-Steps (then_move (crash n reason e f) moves) = Moves-Steps moves
    Moves-Steps (then_move (drop_sender e) moves) = Moves-Steps moves
    Moves-Steps (then_move (stop_cancelled e f g) moves) = Moves-Steps moves
    Moves-Steps (then_move (stop_closed e f g) moves) = Moves-Steps moves
    Moves-Steps (then_move (worker_ended e f) moves) = Moves-Steps moves
    Moves-Steps (then_move (timed_out e) moves) = Moves-Steps moves

    -- Whatever happens in a run of the program, what the worker has written as the input of a block
    -- is what `prepare_input` returned for that block.
    pub wrote_input-prepare :
        (laws : ChannelLaws c) (p : Program c) (i n : ℕ) (zkvm_input : Bytes)
        → 0 < args.prove_queue_capacity
        → Moves c args prepare (launch c args) p
        → get_elem? p.system.events i ≡ some (wrote_input n zkvm_input)
        → prepare n ≡ ok zkvm_input
    wrote_input-prepare laws p i n zkvm_input room moves at =
        let (steps, prepared) = Moves-Steps moves in
        let all =
          subst (All IsPrepared) (arrivals-departures c args laws p.system steps room) prepared in
        let left = All-left IsPrepared (map job_of (departures c args steps)) _ all in
        All-get_elem? WritesPrepared p.system.events i (Steps-WritesPrepared steps left tt) at
