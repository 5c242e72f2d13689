-- ===== src/Gevulot2/Blocks.antt =====
-- The commands and the main loop of gevulot2/src/main.rs.
pub mod Uploads
pub mod Valid
use reth_proofs.Prelude.{
  ℕ, ◌-◌, ◌%◌, Bool, Option, none, some, List, [], ◌∷◌, ◌==◌, ltb, if◌then◌else◌,
}
use reth_proofs.Outcome.{
  Outcome, Panic, ok, err, panic, unwrap, expect, unwrapped_none, block_too_old, ◌>>=◌,
}
use reth_proofs.External.{Bytes, External}
use reth_proofs.State.{ExecutionWitness}
use reth_proofs.Core.{Alloy}
use reth_proofs.Frame.{prepare_zkvm_input}
use reth_proofs.Gevulot2.{BonsaiInput, Bento}
use reth_proofs.Gevulot2.Session.{upload_bonsai}

-- What one turn of the main loop reports to Ethproofs.
pub data Event (x : External) (y : Alloy) (b : Bento x y) : Type 0 where
  queued : (block_number : ℕ) → Event x y b
  proving : (block_number : ℕ) → Event x y b
  proved : (proof_bytes : Bytes) → (block_number cycles image_id_hex : ℕ) → Event x y b

-- `crash` is the panic that ends the program, if there is one.
pub record Turn (x : External) (y : Alloy) (b : Bento x y) : Type 0 where
  pub events : List (Event x y b)
  pub crash : Option Panic

module _ (x : External) (y : Alloy) (b : Bento x y) where
  unfoldable pub prepare_input : ℕ → Outcome Bytes
  prepare_input = reth_proofs.Inputs.prepare_input x y b.node b.rpc b.setting

  -- `prepare from-rpc`, with the provider's answer for the latest block: the bytes for the file.
  unfoldable pub prepare_from_rpc : (latest : Outcome ℕ) → (block_number : ℕ) → Outcome Bytes
  prepare_from_rpc latest block_number = do
    latest_block_number ← latest
    if ltb block_number (latest_block_number - 100)
        then err (block_too_old block_number (latest_block_number - 100))
        else prepare_input block_number

  -- `prepare from-local`, with the parsed files.
  unfoldable pub prepare_from_local : ExecutionWitness → b.node.RpcBlock → Outcome Bytes
  prepare_from_local witness block_rpc =
      prepare_zkvm_input x y b.setting.serialize witness
        (b.node.rpc_block_to_consensus_block block_rpc)

  -- `prove-block`, with the input file's bytes: the bytes for the proof's file.
  unfoldable pub prove_block :
      (prove : BonsaiInput → Outcome (b.Receipt × ℕ)) → Bytes → Outcome Bytes
  prove_block prove zkvm_input = do
    bento_input ← upload_bonsai x y b zkvm_input
    (receipt, cycles) ← prove bento_input
    b.serialize_receipt receipt

  abbrev pub stop : Turn x y b
  stop = record { events = []; crash = none }

  abbrev pub emit : Event x y b → Turn x y b → Turn x y b
  emit event turn = record turn { events = event ∷ turn.events }

  -- `match call { Ok(a) => .., Err(e) => { error!(..); continue; } }`
  abbrev pub or_continue {ℓ} : {A : Type ℓ} → Outcome A → (A → Turn x y b) → Turn x y b
  or_continue (ok a) next = next a
  or_continue (err e) next = stop
  or_continue (panic p) next = record { events = []; crash = some p }

  -- A turn of the main loop for a block that the provider reports.
  unfoldable pub process_block : (prove : BonsaiInput → Outcome (b.Receipt × ℕ)) → ℕ → Turn x y b
  process_block prove block_number =
      if block_number % 100 == 0
      then emit (queued block_number) (
          or_continue (prepare_input block_number) λ zkvm_input.
            or_continue (upload_bonsai x y b zkvm_input) λ bento_input.
              emit (proving block_number) (
                or_continue (prove bento_input) λ (receipt, cycles).
                  or_continue (b.serialize_receipt receipt) λ proof_bytes.
                    emit (proved proof_bytes block_number cycles bento_input.image_id_hex) stop))
      else stop
