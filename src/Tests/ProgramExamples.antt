-- ===== src/Tests/ProgramExamples.antt =====
-- The early and the late callback of the ZisK orchestrator at a run of one job.
use reth_proofs.Prelude.{ℕ, ◌≡◌, ◌⊎◌, some, refl, false, [], ◌∷◌}
use reth_proofs.Outcome.{Outcome, ok}
use reth_proofs.External.{Bytes}
use reth_proofs.Table.{lookup, insert}
use reth_proofs.Gevulot3.{WebhookPayload}
use reth_proofs.Gevulot3.Queue.{enqueue}
use reth_proofs.Gevulot3.Listener.{main_turn}
use reth_proofs.Gevulot3.System.{
  waiting, System, start, register, call_back, Step, new_block, submit, webhook, Steps, done, more,
}
use reth_proofs.Gevulot3.Program.{
  listening, shut_down, Program, launch, task, leave_loop, drop_sender, timed_out, Moves, still,
  then_move,
}
use reth_proofs.Gevulot3.Program.Shutdown.{early_callback-shutdown}
use reth_proofs.Gevulot3.System.Delivered.Late.{HasFinished, late_callback}
use reth_proofs.Tests.ToyChannels.{toy_channels, toy_channels-ChannelLaws}
use reth_proofs.Tests.ZiskExamples.{
  args, job, payload, queue_of, one_queued, one_submitted, to_submitted, called_back, enqueued,
}

abbrev prepare : ℕ → Outcome Bytes
prepare block_number = ok (1 ∷ [])

abbrev listening_at : System toy_channels → Program toy_channels
listening_at s = record { system = s; phase = listening; worker_stopped = false }

first : Step toy_channels args (start toy_channels args) one_queued
first = new_block job [] (queue_of (job ∷ [])) enqueued

second : Step toy_channels args one_queued one_submitted
unfolding lookup
second = submit job (queue_of []) 7 refl refl refl

third : Step toy_channels args one_submitted called_back
unfolding lookup insert
third = webhook payload refl

to_called_back :
    Moves toy_channels args prepare (launch toy_channels args) (listening_at called_back)
unfolding first second third main_turn enqueue
to_called_back =
    then_move (task first (refl, refl))
      (then_move (task second (refl, refl)) (then_move (task third refl) still))

-- The job is registered too late, and the program stopped.
abbrev registered : System toy_channels
registered = register toy_channels called_back job 7

abbrev stopped : Program toy_channels
stopped = record { system = registered; phase = shut_down; worker_stopped = false }

to_stopped : Moves toy_channels args prepare (listening_at registered) stopped
to_stopped =
    then_move (leave_loop refl) (then_move (drop_sender refl) (then_move (timed_out refl) still))

early_callback-shutdown_example :
    (stopped.system.worker ≡ waiting job (toy_channels.channel called_back.server.oneshots).1)
    × (stopped.worker_stopped ≡ false)
unfolding lookup insert
early_callback-shutdown_example =
    early_callback-shutdown toy_channels args prepare toy_channels-ChannelLaws
      (listening_at called_back) stopped job 7 to_called_back refl refl refl to_stopped

-- The job is registered, and then called back.
abbrev delivered : System toy_channels
delivered = call_back toy_channels (register toy_channels one_submitted job 7) payload

called : Steps toy_channels args (register toy_channels one_submitted job 7) delivered
unfolding lookup insert
called = more (webhook payload refl) done

late_callback_example :
    ((delivered.worker ≡ waiting job (toy_channels.channel one_submitted.server.oneshots).1)
      × ((lookup 7 delivered.coordinator ≡ some false)
          ⊎ ((received : WebhookPayload) × (received.job_id ≡ 7)
              × (toy_channels.received delivered.server.oneshots
                    (toy_channels.channel one_submitted.server.oneshots).1
                  ≡ some received))))
    ⊎ HasFinished toy_channels toy_channels-ChannelLaws args job 7
        (toy_channels.channel one_submitted.server.oneshots).1
        (register toy_channels one_submitted job 7)
        delivered
unfolding lookup insert
late_callback_example =
    late_callback toy_channels toy_channels-ChannelLaws args one_submitted delivered job 7
      to_submitted refl refl called
