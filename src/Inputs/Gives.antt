-- ===== src/Inputs/Gives.antt =====
-- What the input of a block is made of, if `prepare_input` returns it.
use reth_proofs.Prelude.{ℕ, ◌≡◌, refl, ap, ◌∙◌, if◌then◌else◌, some}
use reth_proofs.Outcome.{ok, unwrap, expect, unwrapped_none, >>=-eq-ok, unwrap-eq-ok, expect-eq-ok}
use reth_proofs.External.{Bytes, External}
use reth_proofs.State.{ExecutionWitness}
use reth_proofs.Core.{Alloy, Block}
use reth_proofs.Core.Input.{ZkvmInput, from_offline_rpc_data}
use reth_proofs.Frame.{prepare_zkvm_input}
use reth_proofs.Prototype.{Node}
use reth_proofs.Prototype.Rpc.{Rpc, fetch_block_witness, fetch_full_block}
use reth_proofs.Inputs.{Setting, dump_input, prepare_input}

module _ (x : External) (y : Alloy) (n : Node y) (r : Rpc y n) (setting : Setting x y n r) where
  -- The node gives the witness and the block of a number, and they make this input.
  abbrev pub Gives : ℕ → ExecutionWitness → Block y → ZkvmInput x y → Type 0
  Gives number witness block input =
      (fetch_block_witness y n r setting.http_provider number ≡ ok witness)
      × (block_rpc : n.RpcBlock) × (fetch_full_block y n r setting.http_provider number
          ≡ ok (some block_rpc))
      × (n.rpc_block_to_consensus_block block_rpc ≡ block)
      × (from_offline_rpc_data x y block witness ≡ ok input)

  -- What `prepare_input` returns for a block, it made of what the node gives for it.
  pub prepare_input-Gives :
      (number : ℕ) (buffer : Bytes)
      → prepare_input x y n r setting number ≡ ok buffer
      → (witness : ExecutionWitness) × (block : Block y) × (input : ZkvmInput x y) × Gives number
          witness block input
        × (prepare_zkvm_input x y setting.serialize witness block ≡ ok buffer)
  unfolding prepare_input prepare_zkvm_input
  prepare_input-Gives number buffer h =
      let (witness, e, q) =
        >>=-eq-ok (unwrap (fetch_block_witness y n r setting.http_provider number)) _ h in
      let (fetched, f, t) =
        >>=-eq-ok (unwrap (fetch_full_block y n r setting.http_provider number)) _ q in
      let (block_rpc, g, u) = >>=-eq-ok (expect fetched unwrapped_none) _ t in
      let dump =
        (if setting.dump_raw_input then dump_input x y n r setting block_rpc witness else ok tt) in
      let (dumped, i, v) = >>=-eq-ok dump _ u in
      let block = n.rpc_block_to_consensus_block block_rpc in
      let (input, j, w) = >>=-eq-ok (from_offline_rpc_data x y block witness) _ v in
      (
        witness,
        block,
        input,
        (
          unwrap-eq-ok _ e,
          block_rpc,
          unwrap-eq-ok _ f ∙ ap ok (expect-eq-ok fetched unwrapped_none g),
          refl,
          j,
        ),
        v,
      )
