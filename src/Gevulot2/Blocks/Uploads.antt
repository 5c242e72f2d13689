-- ===== src/Gevulot2/Blocks/Uploads.antt =====
-- Which blocks the main loop proves.
use reth_proofs.Prelude.{
  ℕ, ◌%◌, ◌+◌, ◌<◌, ◌-◌, ◌≡◌, ◌≢◌, ◌≢◌, refl, some, List, [], ◌∷◌, ◌↔◌, ◌⊎◌, ◌==◌, ==_iff, arith,
  ap, ◌∙◌, subst, Bool-cases, inl, inr, ltb,
}
use reth_proofs.Outcome.{Outcome, Error, Panic, ok, err, panic, NeverErrs, block_too_old}
use reth_proofs.External.{Bytes, External}
use reth_proofs.Core.{Alloy}
use reth_proofs.Inputs.Ends.{ok_or_panic}
use reth_proofs.Gevulot2.{BonsaiInput, Bento}
use reth_proofs.Gevulot2.Session.{upload_bonsai}
use reth_proofs.Gevulot2.Blocks.{
  Event, queued, proving, proved, Turn, prepare_input, prepare_from_rpc, or_continue, process_block,
}

module _ (x : External) (y : Alloy) (b : Bento x y) where
  prepare_input-NeverErrs : (n : ℕ) → NeverErrs (prepare_input x y b n)
  unfolding prepare_input
  prepare_input-NeverErrs =
      reth_proofs.Inputs.Ends.prepare_input-NeverErrs x y b.node b.rpc b.setting

  -- Of a block that is to be proved, either the input is prepared, or the program ends once the
  -- block was reported as queued: the loop does not go on to the next block.
  pub process_block-crash :
      (prove : BonsaiInput → Outcome (b.Receipt × ℕ)) (n : ℕ)
      → n % 100 ≡ 0
      → ((input : Bytes) × (prepare_input x y b n ≡ ok input))
        ⊎ ((p : Panic) × (process_block x y b prove n
              ≡ record { events = queued n ∷ []; crash = some p }))
  unfolding process_block
  process_block-crash prove n target =
      elim (ok_or_panic (prepare_input x y b n) (prepare_input-NeverErrs n)) [
        | inl prepared ↦ inl prepared
        | inr (p, e) ↦ inr (p, rw ((==_iff (n % 100) 0).1 target, e))
      ]

  tail_eq {ℓ} : {A : Type ℓ} {a c : A} {more cs : List A} → a ∷ more ≡ c ∷ cs → more ≡ cs
  tail_eq h = cc

  or_continue-events {ℓ} :
      {A : Type ℓ} (m : Outcome A) (next : A → Turn x y b) (event : Event x y b)
      (events : List (Event x y b))
      → (or_continue x y b m next).events ≡ event ∷ events
      → (a : A) × (m ≡ ok a) × ((next a).events ≡ event ∷ events)
  or_continue-events (ok a) next event events h = (a, refl, h)
  or_continue-events (err e) next event events h = cc
  or_continue-events (panic p) next event events h = cc

  -- What must go well for a block to be proved.
  abbrev pub Uploads : (BonsaiInput → Outcome (b.Receipt × ℕ)) → ℕ → Bytes → ℕ → ℕ → Type 0
  Uploads prove n proof_bytes cycles image_id_hex =
      (n % 100 ≡ 0)
      × (zkvm_input : Bytes) × (prepare_input x y b n ≡ ok zkvm_input)
      × (bento_input : BonsaiInput) × (upload_bonsai x y b zkvm_input ≡ ok bento_input)
      × (bento_input.image_id_hex ≡ image_id_hex)
      × (receipt : b.Receipt) × (prove bento_input ≡ ok (receipt, cycles))
      × (b.serialize_receipt receipt ≡ ok proof_bytes)

  -- A turn of the loop reports a block as queued, then proving, then proved with the bytes, cycles
  -- and image, exactly if its number is a multiple of 100, its input is prepared and uploaded, and
  -- Bento's receipt and cycles for it are these, the receipt serialized.
  pub process_block_iff :
      (prove : BonsaiInput → Outcome (b.Receipt × ℕ)) (n : ℕ) (proof_bytes : Bytes)
      → (cycles image_id_hex : ℕ)
      → ((process_block x y b prove n).events
          ≡ queued n ∷ proving n ∷ proved proof_bytes n cycles image_id_hex ∷ [])
        ↔ Uploads prove n proof_bytes cycles image_id_hex
  unfolding process_block
  process_block_iff prove n proof_bytes cycles image_id_hex = (
    λ h. elim (Bool-cases (n % 100 == 0)) [
      | inl target ↦
          let all = tail_eq (rw target at h) in
          let (input, e, q) = or_continue-events (prepare_input x y b n) _ _ _ all in
          let (bento_input, f, r) = or_continue-events (upload_bonsai x y b input) _ _ _ q in
          let ((receipt, cycles'), g, t) =
            or_continue-events (prove bento_input) _ _ _ (tail_eq r) in
          let (bytes, i, u) = or_continue-events (b.serialize_receipt receipt) _ _ _ t in
          let same_bytes : bytes ≡ proof_bytes = ground (arith, u) in
          let same_cycles : cycles' ≡ cycles = ground (arith, u) in
          (
            (==_iff (n % 100) 0).0 target,
            input,
            e,
            bento_input,
            f,
            ground (arith, u),
            receipt,
            g ∙ ap (λ c. ok (receipt, c)) same_cycles,
            i ∙ ap ok same_bytes,
          )
      | inr other ↦ cc (rw other at h)
    ],
    λ (target, input, e, bento_input, f, image, receipt, g, i).
        rw ((==_iff (n % 100) 0).1 target, e, f, g, i, image),
  )

  prepare_input-err : (n : ℕ) (e : Error) → prepare_input x y b n ≢ err e
  prepare_input-err n e h = subst NeverErrs h (prepare_input-NeverErrs n)

  -- `prepare from-rpc` refuses a block as too old exactly if more than 100 blocks came after it.
  pub prepare_from_rpc_iff :
      (latest n : ℕ)
      → (prepare_from_rpc x y b (ok latest) n ≡ err (block_too_old n (latest - 100)))
        ↔ (n + 100 < latest)
  unfolding prepare_from_rpc
  prepare_from_rpc_iff latest n = (
    λ h. elim (Bool-cases (ltb n (latest - 100))) [
      | inl old ↦ ground (arith, old)
      | inr recent ↦ absurd (prepare_input-err n _ (rw recent at h))
    ],
    λ lt. ground arith,
  )
