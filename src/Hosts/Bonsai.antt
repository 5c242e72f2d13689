-- ===== src/Hosts/Bonsai.antt =====
-- zkvm/risc0-host/src/main-bonsai.rs: the stored block is proved by a Bonsai server. The client is
-- that of the Bento orchestrator.
use reth_proofs.Prelude.{ℕ, ◌<◌, ◌≡◌, ◌≢◌, ◌↔◌, refl, Option, none, some, arith, ap, ◌∙◌}
use reth_proofs.Outcome.{
  Outcome, ok, err, panic, expect, missing_stats, missing_receipt_url, ◌>>=◌, ◌>>◌, >>=-eq-ok,
}
use reth_proofs.External.{Bytes, External}
use reth_proofs.Core.{Alloy}
use reth_proofs.Frame.{frame}
use reth_proofs.Gevulot2.{
  Status, running, succeeded, other_status, SessionStats, SessionStatus, Bento,
}
use reth_proofs.Gevulot2.Session.{poll}
use reth_proofs.Gevulot2.Session.Polling.{EndsWith, poll_lem}
use reth_proofs.Prototype.{Node}
use reth_proofs.Prototype.Rpc.{Rpc, Files}
use reth_proofs.Hosts.{host_handler}

-- How the program ends without an error: the session failed, or a receipt was downloaded.
pub data Ended (Receipt : Type 0) : Type 0 where
  exited : Status → Ended Receipt
  downloaded : Receipt → Ended Receipt

module _ (x : External) (y : Alloy) (b : Bento x y) where
  -- The receipt of a session that succeeded, once its stats have been printed.
  unfoldable pub download_session : SessionStatus → Outcome (Ended b.Receipt)
  download_session res = do
    stats ← expect res.stats missing_stats
    receipt_url ← expect res.receipt_url missing_receipt_url
    receipt_buf ← b.download receipt_url
    receipt ← b.deserialize_receipt receipt_buf
    ok (downloaded receipt)

  abbrev pub ended_at : Status → SessionStatus → Outcome (Ended b.Receipt)
  ended_at succeeded res = download_session res
  ended_at running res = ok (exited running)
  ended_at other_status res = ok (exited other_status)

  abbrev pub after_polling : Option (Outcome SessionStatus) → Option (Outcome (Ended b.Receipt))
  after_polling none = none
  after_polling (some answer) = some (do res ← answer; ended_at res.status res)

  -- The session on an input that was uploaded, polled on fuel; `none` where it outlasts the fuel.
  abbrev pub in_session : ℕ → Outcome ℕ → Option (Outcome (Ended b.Receipt))
  in_session fuel (ok session) = after_polling (poll x y b session 1 fuel)
  in_session fuel (err e) = some (err e)
  in_session fuel (panic p) = some (panic p)

  module _ (n : Node y) (r : Rpc y n) where
    -- The image and the framed input are uploaded, and a session is created on them.
    unfoldable pub create_session : Files → Outcome ℕ
    create_session files = do
      input_bytes ← host_handler x y n r b.setting.serialize files
      b.upload_img b.image_id
      input_id ← b.upload_input (frame input_bytes)
      b.create_session b.image_id input_id

    unfoldable pub bonsai_host_main : ℕ → Files → Option (Outcome (Ended b.Receipt))
    bonsai_host_main fuel files = in_session fuel (create_session files)

  -- What a last answer must say for its receipt to be downloaded.
  abbrev pub HasReceipt : SessionStatus → b.Receipt → Type 0
  HasReceipt res receipt =
      (res.status ≡ succeeded)
      × ((stats : SessionStats) × (res.stats ≡ some stats))
      × ((url : ℕ) × (res.receipt_url ≡ some url)
          × (buffer : Bytes) × (b.download url ≡ ok buffer)
          × (b.deserialize_receipt buffer ≡ ok receipt))

  ended_at-downloaded :
      (status : Status) (res : SessionStatus) (receipt : b.Receipt)
      → ended_at status res ≡ ok (downloaded receipt)
      → (status ≡ succeeded) × (download_session res ≡ ok (downloaded receipt))
  ended_at-downloaded succeeded res receipt h = (refl, h)
  ended_at-downloaded running res receipt h = cc
  ended_at-downloaded other_status res receipt h = cc

  downloaded_iff :
      (res : SessionStatus) (receipt : b.Receipt)
      → (ended_at res.status res ≡ ok (downloaded receipt)) ↔ HasReceipt res receipt
  unfolding download_session
  downloaded_iff res receipt = (
    λ h.
        let (at, got) = ended_at-downloaded res.status res receipt h in
        let (stats, e, q) = >>=-eq-ok (expect res.stats missing_stats) _ got in
        let (url, f, p) = >>=-eq-ok (expect res.receipt_url missing_receipt_url) _ q in
        let (buffer, g, t) = >>=-eq-ok (b.download url) _ p in
        let (receipt', i, made) = >>=-eq-ok (b.deserialize_receipt buffer) _ t in
        let same : receipt' ≡ receipt = ground (arith, made) in
        (at, (stats, ground (arith, e)), (url, ground (arith, f), buffer, g, i ∙ ap ok same)),
    λ (at, (stats, e), (url, f, buffer, g, i)). rw (at, e, f, g, i),
  )

  download_session-ne-exited :
      (res : SessionStatus) (status : Status) → download_session res ≢ ok (exited status)
  unfolding download_session
  download_session-ne-exited res status h =
      let (stats, e, q) = >>=-eq-ok (expect res.stats missing_stats) _ h in
      let (url, f, p) = >>=-eq-ok (expect res.receipt_url missing_receipt_url) _ q in
      let (buffer, g, t) = >>=-eq-ok (b.download url) _ p in
      let (receipt, i, made) = >>=-eq-ok (b.deserialize_receipt buffer) _ t in cc made

  exited_iff :
      (at status : Status) (res : SessionStatus)
      → (ended_at at res ≡ ok (exited status)) ↔ ((at ≡ status) × (at ≢ succeeded))
  exited_iff succeeded status res =
      (λ h. absurd (download_session-ne-exited res status h), λ (e, f). absurd (f refl))
  exited_iff running status res =
      (λ h. (ground (arith, h), λ e. cc), λ (e, f). ap (λ s. ok (exited s)) e)
  exited_iff other_status status res =
      (λ h. (ground (arith, h), λ e. cc), λ (e, f). ap (λ s. ok (exited s)) e)

  module _ (n : Node y) (r : Rpc y n) where
    -- A session that is created on the framed input, and whose first answer that is not `RUNNING`
    -- comes before the fuel runs out, ends the program with a receipt exactly if that answer is a
    -- success with stats and a url, from which the receipt downloads and decodes. Where that answer
    -- is another than a success, and only there, the program ends without a receipt and without an
    -- error.
    pub bonsai_host_main_iff :
        (files : Files) (session count : ℕ) (res : SessionStatus) (fuel : ℕ)
        → create_session n r files ≡ ok session
        → EndsWith x y b session 1 count (ok res)
        → count < fuel
        → ((receipt : b.Receipt)
            → (bonsai_host_main n r fuel files ≡ some (ok (downloaded receipt)))
              ↔ HasReceipt res receipt)
          × ((status : Status)
              → (bonsai_host_main n r fuel files ≡ some (ok (exited status)))
                ↔ ((res.status ≡ status) × (res.status ≢ succeeded)))
    unfolding bonsai_host_main
    bonsai_host_main_iff files session count res fuel created ends lt =
        let made : bonsai_host_main n r fuel files ≡ some (ended_at res.status res) =
          ap (in_session fuel) created
          ∙ ap after_polling (poll_lem x y b session 1 count (ok res) fuel ends lt) in
        (
          λ receipt.
              let step = downloaded_iff res receipt in
              (λ h. step.0 (ground (arith, h, made)), λ has. made ∙ ap some (step.1 has)),
          λ status.
              let step = exited_iff res.status status res in
              (λ h. step.0 (ground (arith, h, made)), λ other. made ∙ ap some (step.1 other)),
        )
