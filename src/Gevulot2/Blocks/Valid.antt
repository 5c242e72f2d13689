-- ===== src/Gevulot2/Blocks/Valid.antt =====
-- What a proof is worth that the Bento orchestrator reports, from the node to the guest.
use reth_proofs.Prelude.{
  ℕ, zero, suc, ◌≡◌, ◌<◌, ◌^◌, refl, ap, sym, ◌∙◌, none, some, [], ◌∷◌, length, arith, Option,
  Option-cases, inl, inr,
}
use reth_proofs.Outcome.{Outcome, ok, err, panic, unwrap, ◌>>=◌, >>=-eq-ok, unwrap-eq-ok}
use reth_proofs.External.{Bytes, External, TrieLaws}
use reth_proofs.State.{ExecutionWitness}
use reth_proofs.Core.{SealedHeader, Alloy, AlloyLaws, Block}
use reth_proofs.Core.Headers.Chain.{IsChain}
use reth_proofs.Core.Input.{ZkvmInput, from_offline_rpc_data}
use reth_proofs.Guest.{Zkvm, guest_handler}
use reth_proofs.Guest.Accepts.{db_of}
use reth_proofs.Guest.Accepts.Whole.{block_of, PassesConsensus, Executes}
use reth_proofs.Guest.Host.{sealed_parent, guest_handler-from_offline_rpc_data}
use reth_proofs.Frame.{frame, prepare_zkvm_input}
use reth_proofs.Inputs.Gives.{Gives, prepare_input-Gives}
use reth_proofs.Gevulot2.{SessionStatus, succeeded, BonsaiInput, Bento}
use reth_proofs.Gevulot2.Session.{
  poll, polled, finish_session, receipt_of, run_session, prove_bonsai, upload_bonsai,
}
use reth_proofs.Gevulot2.Session.Polling.{receipt_at-succeeded}
use reth_proofs.Gevulot2.Blocks.{queued, proving, proved, prepare_input, process_block}
use reth_proofs.Gevulot2.Blocks.Uploads.{process_block_iff}

module _ (x : External) (y : Alloy) (b : Bento x y) where
  polled-ok :
      (m : Outcome SessionStatus) (res : SessionStatus)
      → polled x y b m ≡ some (ok res)
      → m ≡ ok res
  unfolding polled
  polled-ok (ok answer) res h = ground (arith, h)
  polled-ok (err e) res h = cc
  polled-ok (panic p) res h = cc

  -- The loop's answer is one of the session's.
  poll-session_status :
      (session k fuel : ℕ) (res : SessionStatus)
      → poll x y b session k fuel ≡ some (ok res)
      → (check : ℕ) × (b.session_status session check ≡ ok res)
  unfolding poll
  poll-session_status session k zero res h = cc
  poll-session_status session k (suc fuel) res h =
      elim (Option-cases (polled x y b (b.session_status session k))) [
        | inl going ↦ poll-session_status session (suc k) fuel res (rw going at h)
        | inr (answer, ended) ↦
            let same : answer ≡ ok res = ground (arith, rw ended at h) in
            (k, polled-ok (b.session_status session k) res (ended ∙ ap some same))
      ]

  upload_bonsai-input :
      (bytes : Bytes) (input : BonsaiInput)
      → upload_bonsai x y b bytes ≡ ok input
      → (b.upload_input bytes ≡ ok input.input_id) × (b.image_id ≡ input.image_id_hex)
  unfolding upload_bonsai
  upload_bonsai-input bytes input h =
      let (done, e, q) = >>=-eq-ok (b.upload_img b.image_id) _ h in
      let (id, f, r) = >>=-eq-ok (b.upload_input bytes) _ q in
      let made : BonsaiInput = record { image_id_hex = b.image_id; input_id = id } in
      let same : made ≡ input = ground (arith, r) in
      (
        f ∙ ap (λ (i : BonsaiInput). ok i.input_id) same,
        ap (λ (i : BonsaiInput). i.image_id_hex) same,
      )

  run_session-ok :
      (fuel : ℕ) (m : Outcome ℕ) (r : b.Receipt × ℕ)
      → run_session x y b fuel m ≡ some (ok r)
      → (session : ℕ) × (m ≡ ok session)
        × (finish_session x y b (poll x y b session 1 fuel) ≡ some (ok r))
  run_session-ok fuel (ok session) r h = (session, refl, h)
  run_session-ok fuel (err e) r h = cc
  run_session-ok fuel (panic p) r h = cc

  finish_session-ok :
      (o : Option (Outcome SessionStatus)) (r : b.Receipt × ℕ)
      → finish_session x y b o ≡ some (ok r)
      → (res : SessionStatus) × (o ≡ some (ok res)) × (receipt_of x y b res ≡ ok r)
  unfolding finish_session
  finish_session-ok none r h = cc
  finish_session-ok (some m) r h =
      let (res, e, q) = >>=-eq-ok m (receipt_of x y b) (ground (arith, h)) in (res, ap some e, q)

  -- A receipt comes from a session that was created and has succeeded.
  prove_bonsai-succeeded :
      (fuel : ℕ) (input : BonsaiInput) (receipt : b.Receipt) (cycles : ℕ)
      → prove_bonsai x y b fuel input ≡ some (ok (receipt, cycles))
      → (session check : ℕ) × (res : SessionStatus) × (b.create_session input.image_id_hex
            input.input_id
          ≡ ok session)
        × (b.session_status session check ≡ ok res)
        × (res.status ≡ succeeded)
  unfolding prove_bonsai receipt_of
  prove_bonsai-succeeded fuel input receipt cycles h =
      let create = b.create_session input.image_id_hex input.input_id in
      let (session, created, q) = run_session-ok fuel create (receipt, cycles) h in
      let (res, ended, got) = finish_session-ok (poll x y b session 1 fuel) (receipt, cycles) q in
      let (check, answered) = poll-session_status session 1 fuel res ended in
      let (at, _) = receipt_at-succeeded x y b res.status res (receipt, cycles) got in
      (session, check, res, created, answered, at)

  module _ (laws : TrieLaws x) (signing : AlloyLaws y) (z : Zkvm x y) where
    -- If a turn of the Bento orchestrator reports a proof of a block, then the block that the node
    -- gives for its number passes the consensus checks and executes, on the state of the input made
    -- of it and of its witness, to the root of its header. A session of the image may succeed only
    -- where the guest does on the frame of its input; a frame is read as it was written if its
    -- length fits 32 bits, as the serialized input's does; decoding undoes the serialization;
    -- the node's ancestors link up; and every session ends within the fuel, that is, `prove_bonsai`
    -- returns for each input.
    pub process_block-valid :
        (read_frame : Bytes → Outcome Bytes) (prove : BonsaiInput → Outcome (b.Receipt × ℕ))
        (fuel n : ℕ) (proof_bytes : Bytes)
        → (cycles image_id_hex : ℕ)
        → ((bytes : Bytes) → length bytes < 2 ^ 32 → read_frame (frame bytes) ≡ ok bytes)
        → ((bytes : Bytes) (input_id session check : ℕ) (res : SessionStatus)
            → b.upload_input bytes ≡ ok input_id
            → b.create_session b.image_id input_id ≡ ok session
            → b.session_status session check ≡ ok res
            → res.status ≡ succeeded
            → (read_frame bytes >>= guest_handler x y z) ≡ ok tt)
        → ((k : ℕ) (witness : ExecutionWitness) (block : Block y) (input : ZkvmInput x y)
            → Gives x y b.node b.rpc b.setting k witness block input
            → IsChain y block.header input.ancestor_headers.headers)
        → ((k : ℕ) (witness : ExecutionWitness) (block : Block y) (input : ZkvmInput x y)
            → (bytes : Bytes) → Gives x y b.node b.rpc b.setting k witness block input
            → b.setting.serialize input ≡ ok bytes
            → (length bytes < 2 ^ 32) × (z.deserialize bytes ≡ some input))
        → ((input : BonsaiInput) → prove_bonsai x y b fuel input ≡ some (prove input))
        → (process_block x y b prove n).events
          ≡ queued n ∷ proving n ∷ proved proof_bytes n cycles image_id_hex ∷ []
        → (witness : ExecutionWitness) × (block : Block y) × (input : ZkvmInput x y)
          × (last : SealedHeader) × Gives x y b.node b.rpc b.setting n witness block input
          × (sealed_parent x y laws signing input ≡ some last)
          × PassesConsensus x y z (block_of x y z input) last
          × Executes x y z (db_of x y input) (block_of x y z input)
    unfolding prepare_input prepare_zkvm_input
    process_block-valid read_frame prove fuel n proof_bytes cycles image_id_hex reads sound chained
          decodes proves reported =
        let (_, buffer, prepared, bento_input, uploaded, _, receipt, proven, _) =
          (process_block_iff x y b prove n proof_bytes cycles image_id_hex).0 reported in
        let (witness, block, input, given, framed) =
          prepare_input-Gives x y b.node b.rpc b.setting n buffer prepared in
        let (_, block_rpc, _, _, made) = given in
        let (input', e, q) = >>=-eq-ok (from_offline_rpc_data x y block witness) _ framed in
        let same : input' ≡ input = ground (arith, e, made) in
        let (bytes, f, written) = >>=-eq-ok (unwrap (b.setting.serialize input')) _ q in
        let serialized = ap b.setting.serialize (sym same) ∙ unwrap-eq-ok _ f in
        let (short, decoded) = decodes n witness block input bytes given serialized in
        let (uploads, image) = upload_bonsai-input buffer bento_input uploaded in
        let (session, check, res, created, answered, at) =
          prove_bonsai-succeeded fuel bento_input receipt cycles
            (proves bento_input ∙ ap some proven) in
        let ran =
          sound buffer bento_input.input_id session check res uploads (rw image created) answered
            at in
        let read : read_frame buffer ≡ ok bytes =
          ap read_frame (ground (arith, sym written)) ∙ reads bytes short in
        let accepted : guest_handler x y z bytes ≡ ok tt = rw read at ran in
        let (last, sealed, verdict) =
          guest_handler-from_offline_rpc_data x y laws signing z block witness input bytes made
            (chained n witness block input given) decoded in
        let (passes, runs) = verdict.0 accepted in
        (witness, block, input, last, given, sealed, passes, runs)
