-- ===== src/Guest/Accepts/Whole.antt =====
-- The whole of `guest_handler`: what its success means.
use reth_proofs.Prelude.{◌≡◌, refl, true, some, ◌↔◌, ==_iff, ==_refl, arith, subst}
use reth_proofs.Outcome.{
  ok, check, expect, unwrap, unwrapped, bincode_error, failed_validation, >>=-eq-ok, check-eq-ok,
  unwrap-eq-ok,
}
use reth_proofs.External.{Bytes, External}
use reth_proofs.State.{Risc0ZkvmTrie}
use reth_proofs.State.Update.{update}
use reth_proofs.State.Read.{compute_state_root}
use reth_proofs.Core.{SealedHeader, Alloy, RecoveredBlock}
use reth_proofs.Core.Signers.{recover_with_signers_hint}
use reth_proofs.Core.Signers.Signed.{AreSigned, senders_of, recover_with_signers_hint_iff}
use reth_proofs.Core.TrieDb.{TrieDb}
use reth_proofs.Core.Input.{ZkvmInput}
use reth_proofs.Guest.{
  Zkvm, validated_db, validate_consensus, execute_and_verify, guest_handler,
  validate_block_post_execution,
}
use reth_proofs.Guest.Accepts.{
  IsValidated, db_of, validated_db_of_IsValidated, validated_db-IsValidated,
}

module _ (x : External) (y : Alloy) (z : Zkvm x y) where
  -- The recovered block of an input.
  abbrev pub block_of : ZkvmInput x y → RecoveredBlock y
  block_of input = record {
    block = input.current_block.body;
    senders = senders_of y input.signers_hint.signers input.current_block.body.transactions;
  }

  abbrev pub PassesConsensus : RecoveredBlock y → SealedHeader → Type 0
  PassesConsensus b last =
      (z.validate_header b.block.header ≡ true)
      × (z.validate_header_against_parent b.block.header last ≡ true)
      × (z.validate_block_pre_execution b ≡ true)

  -- The block runs on the database, and takes its state to one with the root that its header claims.
  abbrev pub Executes : TrieDb x y → RecoveredBlock y → Type 0
  Executes db b =
      (output : z.BlockExecutionOutput) × (z.execute db b ≡ ok output)
      × (z.post_execution_is_ok b output ≡ true)
      × (s : Risc0ZkvmTrie x) × (update x db.state (z.from_bundle_state output) ≡ ok s)
      × (x.hash_slow s.state_trie.inner ≡ b.block.header.state_root)

  validate_consensus_iff :
      (b : RecoveredBlock y) (last : SealedHeader)
      → (validate_consensus x y z b last ≡ ok tt) ↔ PassesConsensus b last
  unfolding validate_consensus
  validate_consensus_iff b last = (
    λ h.
        let p = unwrapped failed_validation in
        let (_, e, q) = >>=-eq-ok (check (z.validate_header b.block.header) p) _ h in
        let (_, f, r) =
          >>=-eq-ok (check (z.validate_header_against_parent b.block.header last) p) _ q in
        (check-eq-ok _ _ e, check-eq-ok _ _ f, check-eq-ok _ _ r),
    λ (e, f, g). rw (e, f, g),
  )

  execute_and_verify_iff :
      (db : TrieDb x y) (b : RecoveredBlock y)
      → (execute_and_verify x y z db b ≡ ok tt) ↔ Executes db b
  unfolding execute_and_verify validate_block_post_execution compute_state_root
  execute_and_verify_iff db b = (
    λ h.
        let (output, e, q) = >>=-eq-ok (unwrap (z.execute db b)) _ h in
        let (_, f, r) = >>=-eq-ok (validate_block_post_execution x y z b output) _ q in
        let (s, g, t) = >>=-eq-ok (update x db.state (z.from_bundle_state output)) _ r in
        (output, unwrap-eq-ok _ e, check-eq-ok _ _ f, s, g, (==_iff _ _).0 (check-eq-ok _ _ t)),
    λ (output, e, f, s, g, same). rw (e, f, g, same, ==_refl b.block.header.state_root),
  )

  -- The guest succeeds exactly when its input decodes, is validated against its ancestors (`last`
  -- is the sealed parent) and their state root, each transaction is signed by the key at its place,
  -- the consensus checks pass, and the block executes to a state with the root of its header.
  pub guest_handler_iff :
      (buffer : Bytes)
      → (guest_handler x y z buffer ≡ ok tt) ↔ (
          (input : ZkvmInput x y) × (z.deserialize buffer ≡ some input)
          × (last : SealedHeader) × IsValidated x y input last
          × AreSigned y input.signers_hint.signers input.current_block.body.transactions
          × PassesConsensus (block_of input) last
          × Executes (db_of x y input) (block_of input))
  unfolding guest_handler
  guest_handler_iff buffer = (
    λ h.
        let (input, e, q) =
          >>=-eq-ok (expect (z.deserialize buffer) (unwrapped bincode_error)) _ h in
        let ((db, last), f, r) = >>=-eq-ok (validated_db x y z input) _ q in
        let hint = input.signers_hint in
        let (b, g, t) = >>=-eq-ok (recover_with_signers_hint y input.current_block hint) _ r in
        let (_, c, v) = >>=-eq-ok (validate_consensus x y z b last) _ t in
        let (validated, same_db) = validated_db-IsValidated x y z input db last f in
        let (signed, body, senders) =
          (recover_with_signers_hint_iff y input.current_block hint b).0 g in
        let same_block : b ≡ block_of input = ground (arith, body, senders) in
        let passes = (validate_consensus_iff b last).0 c in
        let runs = (execute_and_verify_iff db b).0 v in
        (
          input,
          ground (arith, e),
          last,
          validated,
          signed,
          subst (λ c. PassesConsensus c last) same_block passes,
          subst (λ d. Executes d (block_of input)) same_db (subst (Executes db) same_block runs),
        ),
    λ (input, e, last, validated, signed, passes, runs). rw (
      e,
      validated_db_of_IsValidated x y z input last validated,
      (recover_with_signers_hint_iff y input.current_block input.signers_hint (block_of input)).1
          (signed, refl, refl),
      (validate_consensus_iff (block_of input) last).1 passes,
      (execute_and_verify_iff (db_of x y input) (block_of input)).1 runs,
    ),
  )
