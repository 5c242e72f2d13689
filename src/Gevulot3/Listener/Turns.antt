-- ===== src/Gevulot3/Listener/Turns.antt =====
-- How a turn of gevulot3's main loop ends.
use reth_proofs.Prelude.{ℕ, ◌≡◌, ◌⊎◌, inl, inr, ap}
use reth_proofs.Outcome.{Panic}
use reth_proofs.External.{External}
use reth_proofs.Core.{Alloy}
use reth_proofs.Prototype.{Node}
use reth_proofs.Prototype.Rpc.{Rpc}
use reth_proofs.Inputs.{Setting, prepare_input}
use reth_proofs.Inputs.Ends.{prepare_input-NeverErrs, ok_or_panic}
use reth_proofs.Gevulot3.{ProveJob, RunArgs}
use reth_proofs.Gevulot3.Channels.{Channels}
use reth_proofs.Gevulot3.Queue.{enqueue}
use reth_proofs.Gevulot3.Listener.{crashed, put, queue_input, main_turn}

module _ (x : External) (y : Alloy) (n : Node y) (r : Rpc y n) (setting : Setting x y n r) where
  -- A turn of the main loop either puts a job with the block's prepared input to the queue, or
  -- panics: it never goes on after an error of the input.
  pub main_turn-ending :
      (c : Channels) (args : RunArgs) (queue : c.Queue) (number : ℕ)
      → ((job : ProveJob) × ((main_turn c (prepare_input x y n r setting) args queue number).ending
            ≡ put job (enqueue c args queue job)))
        ⊎ ((p : Panic) × ((main_turn c (prepare_input x y n r setting) args queue number).ending
              ≡ crashed p))
  unfolding main_turn
  main_turn-ending c args queue number =
      let prepare = prepare_input x y n r setting in
      let queued_as = queue_input c prepare args queue number in
      elim (ok_or_panic (prepare number) (prepare_input-NeverErrs x y n r setting number)) [
        | inl (zkvm_input, e) ↦
            (inl (record { block_number = number; zkvm_input = zkvm_input }, ap queued_as e))
        | inr (p, e) ↦ (inr (p, ap queued_as e))
      ]
