-- ===== src/Gevulot3/Listener.antt =====
-- The main loop of gevulot3/src/main.rs on a block of the provider's stream: it prepares the input
-- by `prepare_input` of `Inputs`, and puts it into the prove queue.
pub mod Turns
use reth_proofs.Prelude.{ℕ, Bool, List, [], ◌∷◌, if◌then◌else◌}
use reth_proofs.Outcome.{
  Outcome, Error, Panic, ok, err, panic, unwrap, expect, ok_or, unwrapped_none, rpc_error, ◌>>=◌,
}
use reth_proofs.External.{Bytes, External}
use reth_proofs.Gevulot3.{ProveJob, RunArgs}
use reth_proofs.Gevulot3.Channels.{Channels}
use reth_proofs.Gevulot3.Queue.{Enqueued, enqueue}

-- How a turn ends: the input has an error and the loop goes on, the program panics, or the job has
-- been put to the queue.
pub data Ending (c : Channels) : Type 0 where
  no_input : Error → Ending c
  crashed : Panic → Ending c
  put : ProveJob → Enqueued c → Ending c

-- What a turn reports as queued to Ethproofs, and its ending.
pub record Turn (c : Channels) : Type 0 where
  pub announced : List ℕ
  pub ending : Ending c

module _ (c : Channels) (prepare : ℕ → Outcome Bytes) (args : RunArgs) where
  -- The match on `prepare_input(..)`, and the rest of the turn.
  abbrev pub queue_input : c.Queue → ℕ → Outcome Bytes → Ending c
  queue_input queue block_number (ok zkvm_input) =
      let prove_job : ProveJob = record { block_number = block_number; zkvm_input = zkvm_input } in
      put prove_job (enqueue c args queue prove_job)
  queue_input queue block_number (err e) = no_input e
  queue_input queue block_number (panic p) = crashed p

  unfoldable pub main_turn : c.Queue → ℕ → Turn c
  main_turn queue block_number = record {
    announced = block_number ∷ [];
    ending = queue_input queue block_number (prepare block_number);
  }
