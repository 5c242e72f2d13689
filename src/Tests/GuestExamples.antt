-- ===== src/Tests/GuestExamples.antt =====
-- The guest, the frame and the host's input at the example block.
use reth_proofs.Prelude.{ℕ, subst, ◌≡◌, refl, some, List, [], ◌∷◌, ◌↔◌, arith}
use reth_proofs.Outcome.{Outcome, ok}
use reth_proofs.External.Toy.{toy, toy-TrieLaws}
use reth_proofs.State.Update.{
  update, update_storages, update_storage, apply_slots, apply_slot, entry_or_default,
  update_accounts, update_account, delete_account, storage_root_of, sorted_by_key, sort_insert,
}
use reth_proofs.Core.{SealedHeader, AlloyLaws}
use reth_proofs.Core.Headers.{seal}
use reth_proofs.Core.Headers.Chain.{IsChain}
use reth_proofs.Core.Signers.Signed.{AreSigned}
use reth_proofs.Core.Input.{ZkvmInput, from_offline_rpc_data}
use reth_proofs.Guest.{guest_handler}
use reth_proofs.Guest.Accepts.{IsValidated, db_of}
use reth_proofs.Guest.Accepts.Whole.{block_of, PassesConsensus, Executes, guest_handler_iff}
use reth_proofs.Guest.Host.{sealed_parent, guest_handler-from_offline_rpc_data}
use reth_proofs.Frame.{frame, skip_header, prepare_zkvm_input, zisk_main}
use reth_proofs.Frame.Zisk.{zisk_main-prepare_zkvm_input}
use reth_proofs.Tests.World.{
  toy_alloy, toy_alloy-AlloyLaws, toy_zkvm, witness, block, input, parent, post_state,
}

pub made : from_offline_rpc_data toy toy_alloy block witness ≡ ok input
unfolding from_offline_rpc_data reth_proofs.Core.Headers.from_execution_witness
    reth_proofs.Core.Headers.decode_headers reth_proofs.Core.Signers.from_block
    reth_proofs.Core.Signers.recover_signers reth_proofs.State.Build.from_execution_witness
    reth_proofs.State.Build.build_validated_tries reth_proofs.State.Build.index_nodes
    reth_proofs.State.Build.detect_storage_tries reth_proofs.State.Build.build_storage_tries
    reth_proofs.State.Validate.validate_state_trie reth_proofs.State.Validate.validate_storage_tries
    reth_proofs.State.Validate.validate_storage_trie reth_proofs.State.Mpt.hydrate
    reth_proofs.State.Mpt.from_digest reth_proofs.State.Mpt.get_rlp
    reth_proofs.Core.Bytecodes.from_execution_witness reth_proofs.Core.Bytecodes.build_map
    reth_proofs.Core.Bytecodes.hash_pairs reth_proofs.Core.Bytecodes.insert_pairs
    reth_proofs.Table.lookup reth_proofs.Table.insert
made = refl

pub linked : IsChain toy_alloy block.header input.ancestor_headers.headers
linked = (refl, refl, (refl, refl, tt))

validated : IsValidated toy toy_alloy input (seal toy_alloy parent)
unfolding reth_proofs.State.Mpt.get_rlp reth_proofs.Table.lookup
validated = (linked, refl, refl, ((_, refl, refl), tt), (refl, tt))

signed : AreSigned toy_alloy input.signers_hint.signers input.current_block.body.transactions
signed = ((42, refl, refl), tt)

executed :
    Executes toy toy_alloy toy_zkvm
      (db_of toy toy_alloy input)
      (block_of toy toy_alloy toy_zkvm input)
unfolding update update_storages update_storage apply_slots apply_slot entry_or_default
    update_accounts update_account delete_account storage_root_of sorted_by_key sort_insert
    reth_proofs.State.Mpt.insert_rlp reth_proofs.State.Mpt.remove reth_proofs.Table.lookup
    reth_proofs.Table.insert reth_proofs.Table.erase
executed = (tt, refl, refl, post_state, refl, refl)

pub accepted : guest_handler toy toy_alloy toy_zkvm (1 ∷ []) ≡ ok tt
accepted =
    (guest_handler_iff toy toy_alloy toy_zkvm (1 ∷ [])).1
      (input, refl, seal toy_alloy parent, validated, signed, (refl, refl, refl), executed)

guest_handler_iff_example : guest_handler toy toy_alloy toy_zkvm (1 ∷ []) ≡ ok tt
guest_handler_iff_example =
    (guest_handler_iff toy toy_alloy toy_zkvm (1 ∷ [])).1
      (input, refl, seal toy_alloy parent, validated, signed, (refl, refl, refl), executed)

guest_handler-from_offline_rpc_data_example :
    (last : SealedHeader) × (sealed_parent toy toy_alloy toy-TrieLaws toy_alloy-AlloyLaws input
      ≡ some last)
    × ((guest_handler toy toy_alloy toy_zkvm (1 ∷ []) ≡ ok tt) ↔ (
        PassesConsensus toy toy_alloy toy_zkvm (block_of toy toy_alloy toy_zkvm input) last
        × Executes toy toy_alloy toy_zkvm
            (db_of toy toy_alloy input)
            (block_of toy toy_alloy toy_zkvm input)))
guest_handler-from_offline_rpc_data_example =
    guest_handler-from_offline_rpc_data toy toy_alloy toy-TrieLaws toy_alloy-AlloyLaws toy_zkvm
      block witness input (1 ∷ []) made linked refl

abbrev pub serialize : ZkvmInput toy toy_alloy → Outcome (List ℕ)
serialize i = ok (1 ∷ [])

abbrev pub framed : List ℕ
framed = 1 ∷ 0 ∷ 0 ∷ 0 ∷ 1 ∷ []

pub prepared : prepare_zkvm_input toy toy_alloy serialize witness block ≡ ok framed
unfolding prepare_zkvm_input frame reth_proofs.Frame.to_le_bytes
prepared = rw made

decodes : (bytes : List ℕ) → serialize input ≡ ok bytes → toy_zkvm.deserialize bytes ≡ some input
decodes bytes h =
    let same : 1 ∷ [] ≡ bytes = ground (arith, h) in
    subst (λ b. toy_zkvm.deserialize b ≡ some input) same refl

zisk_main-prepare_zkvm_input_example :
    (last : SealedHeader) × (sealed_parent toy toy_alloy toy-TrieLaws toy_alloy-AlloyLaws input
      ≡ some last)
    × ((zisk_main toy toy_alloy toy_zkvm framed ≡ ok tt) ↔ (
        PassesConsensus toy toy_alloy toy_zkvm (block_of toy toy_alloy toy_zkvm input) last
        × Executes toy toy_alloy toy_zkvm
            (db_of toy toy_alloy input)
            (block_of toy toy_alloy toy_zkvm input)))
zisk_main-prepare_zkvm_input_example =
    zisk_main-prepare_zkvm_input toy toy_alloy toy-TrieLaws toy_alloy-AlloyLaws toy_zkvm serialize
      witness block input framed decodes made linked prepared
