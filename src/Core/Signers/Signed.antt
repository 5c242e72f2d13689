-- ===== src/Core/Signers/Signed.antt =====
-- Which hints the guest accepts, and those of the host against them.
use reth_proofs.Prelude.{
  ℕ, suc, ◌≡◌, refl, true, some, List, [], ◌∷◌, ◌↔◌, arith, map, get_elem?, drop, drop-cons,
  drop-nil, ap, ◌∙◌, sym, subst, All,
}
use reth_proofs.Outcome.{
  ok, check, expect, >>=-eq-ok, check-eq-ok, index_out_of_bounds, invalid_signature_format,
  invalid_signature, signer_not_recovered,
}
use reth_proofs.External.{Bytes}
use reth_proofs.Core.{Alloy, AlloyLaws, Block, CurrentBlock, RecoveredBlock}
use reth_proofs.Core.Signers.{
  SignersHint, recover_signers, from_block, verify_tx, verify_txs, recover_with_signers_hint,
}

module _ (y : Alloy) where
  -- The key verifies the transaction's signature of its own hash.
  abbrev pub Signs : y.VerifyingKey → y.Transaction → Type 0
  Signs vk tx =
      (sig : y.Signature) × (y.to_k256 tx ≡ some sig)
      × (y.verify_prehash vk (y.signature_hash tx) sig ≡ true)

  -- Each transaction has a key, in order, that signs it; keys beyond the last are not looked at.
  abbrev pub AreSigned : List y.VerifyingKey → List y.Transaction → Type 0
  AreSigned signers [] = Unit
  AreSigned [] (tx ∷ txs) = ⊥
  AreSigned (vk ∷ signers) (tx ∷ txs) = Signs vk tx × AreSigned signers txs

  abbrev pub senders_of : List y.VerifyingKey → List y.Transaction → List Bytes
  senders_of signers [] = []
  senders_of [] (tx ∷ txs) = []
  senders_of (vk ∷ signers) (tx ∷ txs) = y.address_from_public_key vk ∷ senders_of signers txs

  verify_txs_of_AreSigned :
      (signers : List y.VerifyingKey) (i : ℕ) (txs : List y.Transaction)
      (rest : List y.VerifyingKey)
      → drop i signers ≡ rest
      → AreSigned rest txs
      → verify_txs y signers i txs ≡ ok (senders_of rest txs)
  unfolding verify_txs verify_tx
  verify_txs_of_AreSigned signers i [] rest d all = refl
  verify_txs_of_AreSigned signers i (tx ∷ txs) [] d all = absurd all
  verify_txs_of_AreSigned signers i (tx ∷ txs) (vk ∷ rest) d ((sig, format, valid), all) =
      let (here, next) = drop-cons i signers vk rest d in
      rw (here, format, valid, verify_txs_of_AreSigned signers (suc i) txs rest next all)

  verify_txs-AreSigned :
      (signers : List y.VerifyingKey) (i : ℕ) (txs : List y.Transaction)
      (rest : List y.VerifyingKey)
      → drop i signers ≡ rest
      → (senders : List Bytes) → verify_txs y signers i txs ≡ ok senders
      → AreSigned rest txs
  unfolding verify_txs verify_tx
  verify_txs-AreSigned signers i [] rest d senders h = tt
  verify_txs-AreSigned signers i (tx ∷ txs) [] d senders h =
      let (sender, e, _) = >>=-eq-ok (verify_tx y signers i tx) _ h in
      ground (arith, drop-nil i signers d, e)
  verify_txs-AreSigned signers i (tx ∷ txs) (vk ∷ rest) d senders h =
      let (here, next) = drop-cons i signers vk rest d in
      let (sender, e, q) = >>=-eq-ok (verify_tx y signers i tx) _ h in
      let (others, f, _) = >>=-eq-ok (verify_txs y signers (suc i) txs) _ q in
      let (vk', g, r) = >>=-eq-ok (expect (get_elem? signers i) index_out_of_bounds) _ e in
      let same : vk ≡ vk' = ground (arith, here, g) in
      let (sig, format, t) = >>=-eq-ok (expect (y.to_k256 tx) (invalid_signature_format i)) _ r in
      let (_, valid, _) =
        >>=-eq-ok (check (y.verify_prehash vk' (y.signature_hash tx) sig) (invalid_signature i)) _
          t in
      (
        (
          sig,
          ground (arith, format),
          rw same (
              check-eq-ok (y.verify_prehash vk' (y.signature_hash tx) sig) (invalid_signature i)
                valid),
        ),
        verify_txs-AreSigned signers (suc i) txs rest next others f,
      )

  -- The guest recovers a block exactly when each transaction has, at its place in the hint, a key
  -- that verifies its signature; the senders are then the addresses of those keys.
  pub recover_with_signers_hint_iff :
      (b : CurrentBlock y) (hint : SignersHint y) (r : RecoveredBlock y)
      → (recover_with_signers_hint y b hint ≡ ok r) ↔ (
          AreSigned hint.signers b.body.transactions
          × (r.block ≡ b.body)
          × (r.senders ≡ senders_of hint.signers b.body.transactions))
  unfolding recover_with_signers_hint
  recover_with_signers_hint_iff b hint r =
      let txs = b.body.transactions in
      (
        (λ h.
            let (senders, e, q) = >>=-eq-ok (verify_txs y hint.signers 0 txs) _ h in
            let all = verify_txs-AreSigned hint.signers 0 txs hint.signers refl senders e in
            let made = verify_txs_of_AreSigned hint.signers 0 txs hint.signers refl all in
            (all, ground (arith, q), ground (arith, q, made, e))),
        λ (all, same, senders).
            rw (verify_txs_of_AreSigned hint.signers 0 txs hint.signers refl all) ground
              (arith, same, senders),
      )

  senders_of-recover_signers :
      (txs : List y.Transaction) (signers : List y.VerifyingKey)
      → recover_signers y txs ≡ ok signers
      → senders_of signers txs ≡ map y.address_from_public_key signers
  unfolding recover_signers
  senders_of-recover_signers [] signers h =
      let none_left : [] ≡ signers = ground (arith, h) in rw (← none_left)
  senders_of-recover_signers (tx ∷ txs) signers h =
      let prehash = y.recover_from_prehash tx (y.signature_hash tx) in
      let (vk, e, q) = >>=-eq-ok (expect prehash signer_not_recovered) _ h in
      let (vks, f, p) = >>=-eq-ok (recover_signers y txs) _ q in
      let same : vk ∷ vks ≡ signers = ground (arith, p) in
      rw (← same, senders_of-recover_signers txs vks f)

  -- The key that is recovered from a transaction's signature, if there is one, verifies it.
  abbrev pub IsVerified : y.Transaction → Type 0
  IsVerified tx =
      (vk : y.VerifyingKey)
      → y.recover_from_prehash tx (y.signature_hash tx) ≡ some vk
      → Signs vk tx

  recover_signers-AreSigned_iff :
      (txs : List y.Transaction) (signers : List y.VerifyingKey)
      → recover_signers y txs ≡ ok signers
      → AreSigned signers txs ↔ All IsVerified txs
  unfolding recover_signers
  recover_signers-AreSigned_iff [] signers h = (λ all. tt, λ all. tt)
  recover_signers-AreSigned_iff (tx ∷ txs) signers h =
      let prehash = y.recover_from_prehash tx (y.signature_hash tx) in
      let (vk, e, q) = >>=-eq-ok (expect prehash signer_not_recovered) _ h in
      let (vks, f, p) = >>=-eq-ok (recover_signers y txs) _ q in
      let recovered : prehash ≡ some vk = ground (arith, e) in
      let same : vk ∷ vks ≡ signers = ground (arith, p) in
      let others = recover_signers-AreSigned_iff txs vks f in
      subst (λ s. AreSigned s (tx ∷ txs) ↔ All IsVerified (tx ∷ txs)) same
        (
          (λ (here, all). (
            (λ vk' r. let found : vk ≡ vk' = cc in subst (λ k. Signs k tx) found here),
            others.0 all,
          )),
          λ (here, all). (here vk recovered, others.1 all),
        )

  -- With the hint that the host makes from a block, the guest recovers the block, and as senders
  -- the addresses of the hint's keys, exactly if each transaction's recovered key verifies the
  -- transaction's signature as the guest converts it.
  pub recover_with_signers_hint-from_block_iff :
      (block : Block y) (hint : SignersHint y)
      → from_block y block ≡ ok hint
      → (recover_with_signers_hint y (record { body = block }) hint
          ≡ ok (record { block = block; senders = map y.address_from_public_key hint.signers }))
        ↔ All IsVerified block.transactions
  unfolding from_block
  recover_with_signers_hint-from_block_iff block hint h =
      let (signers, e, q) = >>=-eq-ok (recover_signers y block.transactions) _ h in
      let same : signers ≡ hint.signers = ground (arith, q) in
      let recovered : recover_signers y block.transactions ≡ ok hint.signers = e ∙ ap ok same in
      let signed = recover_signers-AreSigned_iff block.transactions hint.signers recovered in
      let accepted = recover_with_signers_hint_iff (record { body = block }) hint _ in
      let senders = sym (senders_of-recover_signers block.transactions hint.signers recovered) in
      (λ r. signed.0 (accepted.0 r).0, λ all. accepted.1 (signed.1 all, refl, senders))

  All-IsVerified : (laws : AlloyLaws y) (txs : List y.Transaction) → All IsVerified txs
  All-IsVerified laws [] = tt
  All-IsVerified laws (tx ∷ txs) = (laws.recovered_verifies tx, All-IsVerified laws txs)

  -- The same where every recovered key verifies.
  pub recover_with_signers_hint-from_block :
      (laws : AlloyLaws y) (block : Block y) (hint : SignersHint y)
      → from_block y block ≡ ok hint
      → recover_with_signers_hint y (record { body = block }) hint
        ≡ ok (record { block = block; senders = map y.address_from_public_key hint.signers })
  recover_with_signers_hint-from_block laws block hint h =
      (recover_with_signers_hint-from_block_iff block hint h).1
        (All-IsVerified laws block.transactions)
