-- ===== src/Tests/CoreExamples.antt =====
-- The theorems on headers, signers, bytecodes and the database at the example witness.
use reth_proofs.Prelude.{All, ◌↔◌, ℕ, ◌≡◌, ◌≢◌, refl, List, [], ◌∷◌, map, arith}
use reth_proofs.Outcome.{ok}
use reth_proofs.Table.{Table, lookup}
use reth_proofs.External.Toy.{toy, toy-TrieLaws}
use reth_proofs.State.Validate.Synced.{IsSynced}
use reth_proofs.Core.{Header, SealedHeader, CurrentBlock, RecoveredBlock}
use reth_proofs.Core.Headers.{seal, link, seal_headers, seal_and_validate}
use reth_proofs.Core.Headers.Chain.{IsChain, hashes_of, seal_and_validate_iff}
use reth_proofs.Core.Headers.Hashes.{hash_at, seal_and_validate_lem}
use reth_proofs.Core.Signers.{recover_with_signers_hint, recover_signers, from_block}
use reth_proofs.Core.Signers.Signed.{
  recover_with_signers_hint_iff, recover_with_signers_hint-from_block_iff, IsVerified,
}
use reth_proofs.Core.Bytecodes.{from_execution_witness, build_map, hash_pairs, insert_pairs}
use reth_proofs.Core.TrieDb.{TrieDb, first}
use reth_proofs.Core.TrieDb.Reads.{Answers, from_execution_witness-Answers}
use reth_proofs.Guest.Accepts.{db_of}
use reth_proofs.Tests.World.{toy_alloy, witness, block, input, parent, bytecodes}

abbrev ancestor_hashes : Table ℕ
unfolding reth_proofs.Table.insert
ancestor_hashes = hashes_of toy_alloy input.ancestor_headers.headers []

abbrev recovered : RecoveredBlock toy_alloy
recovered = record { block = block; senders = (42 ∷ []) ∷ [] }

sealed :
    seal_and_validate toy_alloy input.ancestor_headers input.current_block
    ≡ ok (ancestor_hashes, seal toy_alloy parent)
unfolding seal_and_validate seal_headers link reth_proofs.Table.insert
sealed = refl

seal_and_validate_iff_example :
    IsChain toy_alloy block.header input.ancestor_headers.headers
    × (input.ancestor_headers.headers ≢ [])
seal_and_validate_iff_example =
    (seal_and_validate_iff toy_alloy input.ancestor_headers input.current_block).0
      ((ancestor_hashes, seal toy_alloy parent), sealed)

seal_and_validate_lem_example :
    ((n : ℕ) → lookup n ancestor_hashes ≡ hash_at toy_alloy n input.ancestor_headers.headers)
    × ((rest : List Header) × (input.ancestor_headers.headers ≡ parent ∷ rest))
    × ((seal toy_alloy parent).hash ≡ toy_alloy.hash_header parent)
seal_and_validate_lem_example =
    seal_and_validate_lem toy_alloy input.ancestor_headers input.current_block ancestor_hashes
      (seal toy_alloy parent) (omega arith) (omega arith) sealed

recover_with_signers_hint_iff_example :
    recover_with_signers_hint toy_alloy input.current_block input.signers_hint ≡ ok recovered
recover_with_signers_hint_iff_example =
    (recover_with_signers_hint_iff toy_alloy input.current_block input.signers_hint recovered).1
      (((42, refl, refl), tt), refl, refl)

hinted : from_block toy_alloy block ≡ ok input.signers_hint
unfolding from_block recover_signers
hinted = refl

recover_with_signers_hint-from_block_iff_example :
    (recover_with_signers_hint toy_alloy (record { body = block }) input.signers_hint
      ≡ ok (record {
        block = block;
        senders = map toy_alloy.address_from_public_key input.signers_hint.signers;
      }))
    ↔ All (IsVerified toy_alloy) block.transactions
recover_with_signers_hint-from_block_iff_example =
    recover_with_signers_hint-from_block_iff toy_alloy block input.signers_hint hinted

mapped : from_execution_witness toy_alloy witness ≡ ok bytecodes
unfolding from_execution_witness build_map hash_pairs insert_pairs reth_proofs.Table.insert
mapped = refl

headers_decoded :
    reth_proofs.Core.Headers.from_execution_witness toy_alloy witness ≡ ok input.ancestor_headers
unfolding reth_proofs.Core.Headers.from_execution_witness reth_proofs.Core.Headers.decode_headers
headers_decoded = refl

pub database :
    reth_proofs.Core.TrieDb.from_execution_witness toy toy_alloy witness block
    ≡ ok (db_of toy toy_alloy input)
unfolding reth_proofs.Core.TrieDb.from_execution_witness
    reth_proofs.Core.Headers.from_execution_witness reth_proofs.Core.Headers.decode_headers
    seal_and_validate seal_headers link reth_proofs.State.Build.from_execution_witness
    reth_proofs.State.Build.build_validated_tries reth_proofs.State.Build.index_nodes
    reth_proofs.State.Build.detect_storage_tries reth_proofs.State.Build.build_storage_tries
    reth_proofs.State.Validate.validate_state_trie reth_proofs.State.Validate.validate_storage_tries
    reth_proofs.State.Validate.validate_storage_trie reth_proofs.State.Mpt.hydrate
    reth_proofs.State.Mpt.from_digest reth_proofs.State.Mpt.get_rlp from_execution_witness build_map
    hash_pairs insert_pairs reth_proofs.Table.lookup reth_proofs.Table.insert
database = refl

from_execution_witness-Answers_example :
    Answers toy toy_alloy (db_of toy toy_alloy input) input.ancestor_headers.headers
    × (first_header : Header) × (first input.ancestor_headers.headers ≡ ok first_header)
    × (toy.hash_slow (db_of toy toy_alloy input).state.state_trie.inner ≡ first_header.state_root)
    × IsSynced toy
        (db_of toy toy_alloy input).state.state_trie
        (db_of toy toy_alloy input).state.storage_tries
from_execution_witness-Answers_example =
    from_execution_witness-Answers toy toy_alloy toy-TrieLaws witness block
      (db_of toy toy_alloy input) input.ancestor_headers headers_decoded (omega arith) (omega arith)
      database
