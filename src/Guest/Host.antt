-- ===== src/Guest/Host.antt =====
-- core/src/input.rs against the guest: what the host's own input is still checked for.
use reth_proofs.Prelude.{
  ℕ, ◌≡◌, ◌≢◌, some, none, Option, List, [], ◌∷◌, ◌↔◌, arith, ap, ◌∙◌, subst, sym,
}
use reth_proofs.Outcome.{ok, >>=-eq-ok}
use reth_proofs.External.{Bytes, External, TrieLaws}
use reth_proofs.State.{Risc0ZkvmTrie, ExecutionWitness}
use reth_proofs.State.Validate.Synced.{validate_storage_tries_iff, validate_storage_tries-IsSynced}
use reth_proofs.State.Build.Witness.{from_execution_witness_lem}
use reth_proofs.Core.{Header, SealedHeader, Alloy, AlloyLaws, Block, CurrentBlock}
use reth_proofs.Core.Headers.{AncestorHeaders, pred_u64}
use reth_proofs.Core.Headers.Chain.{IsChain, parent_of, parent_found}
use reth_proofs.Core.Signers.{from_block}
use reth_proofs.Core.Signers.Signed.{
  AreSigned, recover_with_signers_hint_iff, recover_with_signers_hint-from_block,
}
use reth_proofs.Core.Bytecodes.{Bytecodes}
use reth_proofs.Core.Bytecodes.Keys.{validate_iff, validate-from_execution_witness}
use reth_proofs.Core.TrieDb.{first}
use reth_proofs.Core.Input.{ZkvmInput, from_offline_rpc_data}
use reth_proofs.Guest.{Zkvm, guest_handler}
use reth_proofs.Guest.Accepts.{IsRooted, IsValidated, db_of}
use reth_proofs.Guest.Accepts.Whole.{block_of, PassesConsensus, Executes, guest_handler_iff}

module _ (x : External) (y : Alloy) (laws : TrieLaws x) (signing : AlloyLaws y) where
  -- The parent that the guest seals.
  abbrev pub sealed_parent : ZkvmInput x y → Option SealedHeader
  sealed_parent input =
      parent_of y (pred_u64 input.current_block.body.header.number) input.ancestor_headers.headers
        none

  -- The parts of an input that the host makes.
  pub from_offline_rpc_data_steps :
      (block : Block y) (w : ExecutionWitness) (input : ZkvmInput x y)
      → from_offline_rpc_data x y block w ≡ ok input
      → (parent : Header) × (first input.ancestor_headers.headers ≡ ok parent)
        × (from_block y block ≡ ok input.signers_hint)
        × (reth_proofs.State.Build.from_execution_witness x w parent.state_root
            ≡ ok input.ethereum_state)
        × (reth_proofs.Core.Bytecodes.from_execution_witness y w ≡ ok input.bytecodes)
        × (input.current_block ≡ record { body = block })
        × (reth_proofs.Core.Headers.from_execution_witness y w ≡ ok input.ancestor_headers)
  unfolding from_offline_rpc_data
  from_offline_rpc_data_steps block w input h =
      let (a, e, q) = >>=-eq-ok (reth_proofs.Core.Headers.from_execution_witness y w) _ h in
      let (parent, f, r) = >>=-eq-ok (first a.headers) _ q in
      let (hint, g, t) = >>=-eq-ok (from_block y block) _ r in
      let (s, i, u) =
        >>=-eq-ok (reth_proofs.State.Build.from_execution_witness x w parent.state_root) _ t in
      let (codes, j, made) =
        >>=-eq-ok (reth_proofs.Core.Bytecodes.from_execution_witness y w) _ u in
      let same_headers : a ≡ input.ancestor_headers = ground (arith, made) in
      let same_hint : hint ≡ input.signers_hint = ground (arith, made) in
      let same_state : s ≡ input.ethereum_state = ground (arith, made) in
      let same_codes : codes ≡ input.bytecodes = ground (arith, made) in
      (
        parent,
        subst (λ (b : AncestorHeaders). first b.headers ≡ ok parent) same_headers f,
        g ∙ ap ok same_hint,
        i ∙ ap ok same_state,
        j ∙ ap ok same_codes,
        ground (arith, made),
        e ∙ ap ok same_headers,
      )

  hash-IsRooted :
      (headers : List Header) (parent : Header) (root : ℕ)
      → first headers ≡ ok parent
      → root ≡ parent.state_root
      → IsRooted x y headers root × (headers ≢ [])
  hash-IsRooted [] parent root h e = cc
  hash-IsRooted (p ∷ headers) parent root h e =
      let same : parent ≡ p = ground (arith, h) in
      (subst (λ (q : Header). root ≡ q.state_root) same e, λ empty. cc)

  -- An input that the host makes, with ancestors that link up, is validated and signed.
  from_offline_rpc_data-IsValidated :
      (block : Block y) (w : ExecutionWitness) (input : ZkvmInput x y)
      → from_offline_rpc_data x y block w ≡ ok input
      → IsChain y block.header input.ancestor_headers.headers
      → ((last : SealedHeader) × IsValidated x y input last)
        × AreSigned y input.signers_hint.signers input.current_block.body.transactions
  from_offline_rpc_data-IsValidated block w input h chain =
      let (parent, one, hint, state, codes, same, _) =
        from_offline_rpc_data_steps block w input h in
      let s = input.ethereum_state in
      let (hash, synced, keyed, _) =
        from_execution_witness_lem x laws w parent.state_root s state in
      let headers = input.ancestor_headers.headers in
      let (rooted, full) = hash-IsRooted headers parent (x.hash_slow s.state_trie.inner) one hash in
      let linked : IsChain y input.current_block.body.header headers =
        subst (λ (b : CurrentBlock y). IsChain y b.body.header headers) (sym same) chain in
      let (last, found) = parent_found y input.current_block.body.header headers linked full in
      let tries = validate_storage_tries_iff x s.state_trie s.storage_tries in
      let passed =
        (validate_storage_tries-IsSynced x s.state_trie s.storage_tries keyed).1 synced in
      let hashed =
        (validate_iff y input.bytecodes).0
          (validate-from_execution_witness y w input.bytecodes codes) in
      let recovered =
        recover_with_signers_hint-from_block y signing block input.signers_hint hint in
      let (signed, _, _) =
        (recover_with_signers_hint_iff y (record { body = block }) input.signers_hint _).0
          recovered in
      (
        (last, (linked, found, rooted, tries.0 passed, hashed)),
        subst (λ (b : CurrentBlock y). AreSigned y input.signers_hint.signers b.body.transactions)
            (sym same) signed,
      )

  -- Of an input that the host makes from a witness whose headers link up from the block's, the guest
  -- checks nothing but consensus and execution: it succeeds exactly when the block passes the
  -- consensus checks and executes, on the input's state, to the root of its header.
  pub guest_handler-from_offline_rpc_data :
      (z : Zkvm x y) (block : Block y) (w : ExecutionWitness) (input : ZkvmInput x y)
      (buffer : Bytes)
      → from_offline_rpc_data x y block w ≡ ok input
      → IsChain y block.header input.ancestor_headers.headers
      → z.deserialize buffer ≡ some input
      → (last : SealedHeader) × (sealed_parent input ≡ some last)
        × ((guest_handler x y z buffer ≡ ok tt) ↔ (
            PassesConsensus x y z (block_of x y z input) last
            × Executes x y z (db_of x y input) (block_of x y z input)))
  guest_handler-from_offline_rpc_data z block w input buffer h chain decoded =
      let ((last, validated), signed) = from_offline_rpc_data-IsValidated block w input h chain in
      (
        last,
        validated.1,
        (
          λ accepted.
              let (input', e, last', valid, _, passes, runs) =
                (guest_handler_iff x y z buffer).0 accepted in
              let same : input' ≡ input = ground (arith, decoded, e) in
              let found : sealed_parent input ≡ some last' =
                subst (λ i. sealed_parent i ≡ some last') same valid.1 in
              let same_last : last' ≡ last = ground (arith, found, validated.1) in
              (
                subst (PassesConsensus x y z (block_of x y z input)) same_last
                    (subst (λ i. PassesConsensus x y z (block_of x y z i) last') same passes),
                subst (λ i. Executes x y z (db_of x y i) (block_of x y z i)) same runs,
              ),
          λ (passes, runs).
              (guest_handler_iff x y z buffer).1
                (input, decoded, last, validated, signed, passes, runs),
        ),
      )
