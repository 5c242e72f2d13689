-- ===== src/Frame.antt =====
-- `prepare_zkvm_input` of gevulot2/src/main.rs and gevulot3/src/main.rs, which are the same, and the
-- `main` of zkvm/zisk-guest: how the guest's input travels as a frame of bytes.
pub mod Bytes
pub mod Zisk
use reth_proofs.Prelude.{ℕ, zero, suc, ◌/◌, ◌%◌, ◌+◌, ◌*◌, ◌^◌, List, [], ◌∷◌, ◌++◌, length, drop}
use reth_proofs.Outcome.{Outcome, ok, panic, unwrap, index_out_of_bounds, ◌>>=◌}
use reth_proofs.External.{External}
use reth_proofs.State.{ExecutionWitness}
use reth_proofs.Core.{Alloy, Block}
use reth_proofs.Core.Input.{ZkvmInput, from_offline_rpc_data}
use reth_proofs.Guest.{Zkvm, guest_handler}

-- `to_le_bytes` of an unsigned number of the given number of bytes.
unfoldable pub to_le_bytes : ℕ → ℕ → List ℕ
to_le_bytes zero v = []
to_le_bytes (suc n) v = v % 256 ∷ to_le_bytes n (v / 256)

-- The raw frame: the length as a `u32`, then the bytes.
unfoldable pub frame : List ℕ → List ℕ
frame input_bytes = to_le_bytes 4 (length input_bytes % 2 ^ 32) ++ input_bytes

-- `&buffer[4..]`
unfoldable pub skip_header : List ℕ → Outcome (List ℕ)
skip_header (a ∷ b ∷ c ∷ d ∷ buffer) = ok buffer
skip_header buffer = panic index_out_of_bounds

module _ (x : External) (y : Alloy) where
  -- `serialize` is bincode's, and the block has been converted by `rpc_block_to_consensus_block`.
  unfoldable pub prepare_zkvm_input :
      (serialize : ZkvmInput x y → Outcome (List ℕ)) → ExecutionWitness → Block y → Outcome (List ℕ)
  prepare_zkvm_input serialize witness block = do
    client_input ← from_offline_rpc_data x y block witness
    input_bytes ← unwrap (serialize client_input)
    ok (frame input_bytes)

  -- The ZisK guest, which reads the whole frame.
  unfoldable pub zisk_main : Zkvm x y → List ℕ → Outcome (Unit {0})
  zisk_main z buffer = do input_buffer ← skip_header buffer; guest_handler x y z input_buffer
