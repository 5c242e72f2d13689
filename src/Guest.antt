-- ===== src/Guest.antt =====
-- zkvm-common-guest/src/lib.rs: the program that is proved, which checks a block against its
-- witness. `Zkvm` is what it calls of bincode and reth: decoding, consensus and execution; the
-- chain specification that the guest makes of core/src/lib.rs, `create_mainnet_chainspec`, is fixed
-- inside them.
pub mod Accepts
pub mod Host
use reth_proofs.Prelude.{ℕ, Bool, Option, some, none, List, [], ◌∷◌, ◌==◌}
use reth_proofs.Outcome.{
  Outcome, Error, Panic, ok, check, expect, unwrap, unwrapped, bincode_error, failed_validation,
  failed_execution, failed_after_execution, new_state_root_mismatch, signer_not_recovered, ◌>>=◌,
  ◌>>◌,
}
use reth_proofs.External.{Bytes, External}
use reth_proofs.State.{ExecutionWitness}
use reth_proofs.State.Validate.{validate_state_trie, validate_storage_tries}
use reth_proofs.State.Update.{HashedPostState, update}
use reth_proofs.State.Read.{compute_state_root}
use reth_proofs.Core.{Header, SealedHeader, Alloy, Block, RecoveredBlock}
use reth_proofs.Core.Headers.{seal_and_validate}
use reth_proofs.Core.Signers.{recover_with_signers_hint}
use reth_proofs.Core.Bytecodes.{validate}
use reth_proofs.Core.TrieDb.{TrieDb, first}
use reth_proofs.Core.Input.{ZkvmInput, ZkvmAltInput}

pub record Zkvm (x : External) (y : Alloy) : Type 1 where
  pub deserialize : Bytes → Option (ZkvmInput x y)
  pub deserialize_alt : Bytes → Option (ZkvmAltInput y)
  -- `EthBeaconConsensus`: whether each check returns `Ok`
  pub validate_header : Header → Bool
  pub validate_header_against_parent : Header → SealedHeader → Bool
  pub validate_block_pre_execution : RecoveredBlock y → Bool
  -- `BasicBlockExecutor::execute`, which reads the database and does not change it
  pub BlockExecutionOutput : Type 0
  pub execute : TrieDb x y → RecoveredBlock y → Outcome BlockExecutionOutput
  pub post_execution_is_ok : RecoveredBlock y → BlockExecutionOutput → Bool
  pub from_bundle_state : BlockExecutionOutput → HashedPostState
  -- `reth_stateless::stateless_validation_with_trie`
  pub stateless_validation : Block y → List y.VerifyingKey → ExecutionWitness → Outcome (Unit {0})

module _ (x : External) (y : Alloy) (z : Zkvm x y) where
  -- Steps 3 to 7: the inputs are validated, and make up the database.
  unfoldable pub validated_db : ZkvmInput x y → Outcome (TrieDb x y × SealedHeader)
  validated_db input = do
    (block_hashes, last_sealed) ← seal_and_validate y input.ancestor_headers input.current_block
    parent ← first input.ancestor_headers.headers
    let state = input.ethereum_state
    validate_state_trie x state.state_trie parent.state_root
    unwrap (validate_storage_tries x state.state_trie state.storage_tries)
    validate y input.bytecodes
    let db : TrieDb x y = record {
      state = state;
      block_hashes = block_hashes;
      bytecode_by_hash = input.bytecodes.codes;
    }
    ok (db, last_sealed)

  -- Step 9.5
  unfoldable pub validate_consensus : RecoveredBlock y → SealedHeader → Outcome (Unit {0})
  validate_consensus recovered_block last_sealed = do
    let header = recovered_block.block.header
    check (z.validate_header header) (unwrapped failed_validation)
    check (z.validate_header_against_parent header last_sealed) (unwrapped failed_validation)
    check (z.validate_block_pre_execution recovered_block) (unwrapped failed_validation)

  -- `validate_block_post_execution` of core/src/lib.rs
  unfoldable pub validate_block_post_execution :
      RecoveredBlock y → z.BlockExecutionOutput → Outcome (Unit {0})
  validate_block_post_execution recovered_block execution_output =
      check (z.post_execution_is_ok recovered_block execution_output) failed_after_execution

  -- `get_hashed_post_state` of core/src/lib.rs
  abbrev pub get_hashed_post_state : z.BlockExecutionOutput → HashedPostState
  get_hashed_post_state output = z.from_bundle_state output

  -- Steps 10 to 14: the block runs, and the updated state has the root that its header claims.
  unfoldable pub execute_and_verify : TrieDb x y → RecoveredBlock y → Outcome (Unit {0})
  execute_and_verify trie_db recovered_block = do
    output ← unwrap (z.execute trie_db recovered_block)
    validate_block_post_execution recovered_block output
    state ← update x trie_db.state (get_hashed_post_state output)
    let new_state_root = compute_state_root x state
    let expected_root = recovered_block.block.header.state_root
    check (new_state_root == expected_root) (new_state_root_mismatch new_state_root expected_root)

  unfoldable pub guest_handler : Bytes → Outcome (Unit {0})
  guest_handler input_buffer = do
    input ← expect (z.deserialize input_buffer) (unwrapped bincode_error)
    (trie_db, last_sealed) ← validated_db input
    recovered_block ← recover_with_signers_hint y input.current_block input.signers_hint
    validate_consensus recovered_block last_sealed
    execute_and_verify trie_db recovered_block

  -- The signers that `guest_alt_handler` recovers by itself.
  unfoldable pub recover_public_keys : List y.Transaction → Outcome (List y.VerifyingKey)
  recover_public_keys [] = ok []
  recover_public_keys (tx ∷ txs) = do
    key ← expect (y.recover_from_prehash tx (y.signature_hash tx)) signer_not_recovered
    keys ← recover_public_keys txs
    ok (key ∷ keys)

  unfoldable pub guest_alt_handler : Bytes → Outcome (Unit {0})
  guest_alt_handler input_buffer = do
    input ← expect (z.deserialize_alt input_buffer) (unwrapped bincode_error)
    public_keys ← recover_public_keys input.block.body.transactions
    unwrap (z.stateless_validation input.block.body public_keys input.witness)
