-- ===== src/Core/Signers.antt =====
-- `SignersHint` and `CurrentBlock` of core/src/lib.rs: the keys that the host recovers from the
-- transactions' signatures, and their use in the guest.
pub mod Signed
use reth_proofs.Prelude.{ℕ, zero, suc, Option, some, none, List, [], ◌∷◌, get_elem?}
use reth_proofs.Outcome.{
  Outcome, ok, check, expect, unwrap, signer_not_recovered, index_out_of_bounds,
  invalid_signature_format, invalid_signature, ◌>>=◌, ◌>>◌,
}
use reth_proofs.External.{Bytes}
use reth_proofs.Core.{Alloy, Block, CurrentBlock, RecoveredBlock}

pub record SignersHint (y : Alloy) : Type 0 where
  pub signers : List y.VerifyingKey

module _ (y : Alloy) where
  unfoldable pub recover_signers : List y.Transaction → Outcome (List y.VerifyingKey)
  recover_signers [] = ok []
  recover_signers (tx ∷ txs) = do
    signer ← expect (y.recover_from_prehash tx (y.signature_hash tx)) signer_not_recovered
    signers ← recover_signers txs
    ok (signer ∷ signers)

  unfoldable pub from_block : Block y → Outcome (SignersHint y)
  from_block block = do
    signers ← recover_signers block.transactions
    ok (record { signers = signers })

  -- One turn of the loop of `recover_with_signers_hint`.
  unfoldable pub verify_tx : List y.VerifyingKey → ℕ → y.Transaction → Outcome Bytes
  verify_tx signers i tx = do
    vk ← expect (get_elem? signers i) index_out_of_bounds
    sig ← expect (y.to_k256 tx) (invalid_signature_format i)
    check (y.verify_prehash vk (y.signature_hash tx) sig) (invalid_signature i)
    ok (y.address_from_public_key vk)

  unfoldable pub verify_txs : List y.VerifyingKey → ℕ → List y.Transaction → Outcome (List Bytes)
  verify_txs signers i [] = ok []
  verify_txs signers i (tx ∷ txs) = do
    sender ← verify_tx signers i tx
    senders ← verify_txs signers (suc i) txs
    ok (sender ∷ senders)

  unfoldable pub recover_with_signers_hint :
      CurrentBlock y → SignersHint y → Outcome (RecoveredBlock y)
  recover_with_signers_hint current_block signers_hint = do
    senders ← verify_txs signers_hint.signers 0 current_block.body.transactions
    ok (record { block = current_block.body; senders = senders })

  -- `RecoveredBlock::try_recover` is reth's.
  unfoldable pub recover_senders :
      (try_recover : Block y → Outcome (RecoveredBlock y))
      → CurrentBlock y
      → Outcome (RecoveredBlock y)
  recover_senders try_recover current_block = unwrap (try_recover current_block.body)
