-- ===== src/Core/TrieDb/Reads.antt =====
-- What the database returns to the EVM: hashes of ancestors and codes with the hash asked for.
use reth_proofs.Prelude.{ℕ, ◌^◌, ◌≤◌, ◌<◌, ◌≡◌, List, arith, ap, ◌∙◌, subst, All, length}
use reth_proofs.Outcome.{ok, expect, >>=-eq-ok, block_hash_not_provided}
use reth_proofs.Table.{lookup}
use reth_proofs.Table.Laws.{All-lookup}
use reth_proofs.External.{External, TrieLaws}
use reth_proofs.State.{Risc0ZkvmTrie, ExecutionWitness}
use reth_proofs.State.Validate.Synced.{IsSynced}
use reth_proofs.State.Build.Witness.{from_execution_witness_lem}
use reth_proofs.Core.{Header, SealedHeader, Alloy, Block}
use reth_proofs.Core.Headers.{AncestorHeaders, seal_and_validate}
use reth_proofs.Core.Headers.Hashes.{hash_at, seal_and_validate_lem}
use reth_proofs.Core.Bytecodes.{Bytecodes}
use reth_proofs.Core.Bytecodes.Keys.{IsHashed, validate_iff, validate-from_execution_witness}
use reth_proofs.Core.TrieDb.{
  TrieDb, first, from_execution_witness, block_hash_ref, code_by_hash_ref,
}

module _ (x : External) (y : Alloy) where
  -- The database answers for the ancestors that are given, and with codes that match their hashes.
  abbrev pub Answers : TrieDb x y → List Header → Type 0
  Answers db headers =
      ((n : ℕ) → block_hash_ref x y db n ≡ expect (hash_at y n headers) block_hash_not_provided)
      × ((hash : ℕ) (code : y.Bytecode)
          → code_by_hash_ref x y db hash ≡ ok code
          → y.bytecode_hash_slow code ≡ hash)

  pub parts-Answers :
      (db : TrieDb x y) (headers : List Header)
      → ((n : ℕ) → lookup n db.block_hashes ≡ hash_at y n headers)
      → All (IsHashed y) db.bytecode_by_hash
      → Answers db headers
  unfolding block_hash_ref code_by_hash_ref
  parts-Answers db headers hashes hashed = (
    λ n. rw (hashes n),
    λ hash code e. All-lookup (IsHashed y) db.bytecode_by_hash hash code hashed (ground (arith, e)),
  )

  -- A database made from a witness, whose ancestors are not more than the block's number, answers
  -- each block number with the hash of the ancestor that has it, and panics at the others; each
  -- code that it returns has the hash that was asked for; and its state has the root of the first
  -- ancestor.
  pub from_execution_witness-Answers :
      (laws : TrieLaws x) (w : ExecutionWitness) (block : Block y) (db : TrieDb x y)
      → (a : AncestorHeaders) → reth_proofs.Core.Headers.from_execution_witness y w ≡ ok a
      → length a.headers ≤ block.header.number
      → block.header.number < 2 ^ 64
      → from_execution_witness x y w block ≡ ok db
      → Answers db a.headers
        × (parent : Header) × (first a.headers ≡ ok parent)
        × (x.hash_slow db.state.state_trie.inner ≡ parent.state_root)
        × IsSynced x db.state.state_trie db.state.storage_tries
  unfolding from_execution_witness
  from_execution_witness-Answers laws w block db a decoded l u h =
      let ((hashes, last), e, q) =
        >>=-eq-ok (seal_and_validate y a (record { body = block })) _ (rw decoded at h) in
      let (parent, f, p) = >>=-eq-ok (first a.headers) _ q in
      let (s, g, r) =
        >>=-eq-ok (reth_proofs.State.Build.from_execution_witness x w parent.state_root) _ p in
      let (b, i, made) = >>=-eq-ok (reth_proofs.Core.Bytecodes.from_execution_witness y w) _ r in
      let (found, _, _) = seal_and_validate_lem y a (record { body = block }) hashes last l u e in
      let same_hashes : hashes ≡ db.block_hashes = ground (arith, made) in
      let same_state : s ≡ db.state = ground (arith, made) in
      let same_codes : b.codes ≡ db.bytecode_by_hash = ground (arith, made) in
      let hashed = (validate_iff y b).0 (validate-from_execution_witness y w b i) in
      let (hash, synced, _, _) =
        from_execution_witness_lem x laws w parent.state_root db.state (g ∙ ap ok same_state) in
      (
        parts-Answers db a.headers (λ n. rw (← same_hashes) (found n))
            (subst (All (IsHashed y)) same_codes hashed),
        parent,
        f,
        hash,
        synced,
      )
