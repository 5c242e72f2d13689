-- ===== src/Gevulot2/Session/Polling.antt =====
-- With which answer the polling loop ends, and what a session returns.
use reth_proofs.Prelude.{ℕ, zero, suc, ◌<◌, ◌≡◌, refl, none, some, arith, ap, ◌∙◌, ◌↔◌}
use reth_proofs.Outcome.{Outcome, ok, >>=-eq-ok, expect, missing_stats, missing_receipt_url}
use reth_proofs.External.{Bytes, External}
use reth_proofs.Core.{Alloy}
use reth_proofs.Gevulot2.{
  Status, running, succeeded, other_status, SessionStats, SessionStatus, BonsaiInput, Bento,
}
use reth_proofs.Gevulot2.Session.{
  polled, poll, receipt_of, finish_session, run_session, prove_bonsai, receipt_at, download_receipt,
}

module _ (x : External) (y : Alloy) (b : Bento x y) where
  -- From a check on, as many answers as said are `RUNNING`, and the next one ends the loop with
  -- `res`.
  abbrev pub EndsWith : (session num_checks count : ℕ) → Outcome SessionStatus → Type 0
  EndsWith session num_checks zero res =
      polled x y b (b.session_status session num_checks) ≡ some res
  EndsWith session num_checks (suc count) res =
      ((answer : SessionStatus) × (b.session_status session num_checks ≡ ok answer)
        × (answer.status ≡ running))
      × EndsWith session (suc num_checks) count res

  polled-running :
      (session num_checks : ℕ) (answer : SessionStatus)
      → b.session_status session num_checks ≡ ok answer
      → answer.status ≡ running
      → polled x y b (b.session_status session num_checks) ≡ none
  unfolding polled
  polled-running session num_checks answer e at = rw (e, at)

  -- The loop returns the first answer that is not `RUNNING`, or the first failure, on any fuel beyond
  -- the number of `RUNNING` answers.
  pub poll_lem :
      (session num_checks count : ℕ) (res : Outcome SessionStatus) (fuel : ℕ)
      → EndsWith session num_checks count res
      → count < fuel
      → poll x y b session num_checks fuel ≡ some res
  unfolding poll
  poll_lem session num_checks count res zero ends lt = absurd (omega (arith, lt))
  poll_lem session num_checks zero res (suc fuel) ends lt = rw ends
  poll_lem session num_checks (suc count) res (suc fuel) ((answer, e, at), ends) lt =
      rw (polled-running session num_checks answer e at)
        (poll_lem session (suc num_checks) count res fuel ends (omega (arith, lt)))

  pub receipt_at-succeeded :
      (status : Status) (res : SessionStatus) (r : b.Receipt × ℕ)
      → receipt_at x y b status res ≡ ok r
      → (status ≡ succeeded) × (download_receipt x y b res ≡ ok r)
  unfolding receipt_at
  receipt_at-succeeded succeeded res r h = (refl, h)
  receipt_at-succeeded running res r h = cc
  receipt_at-succeeded other_status res r h = cc

  -- What a session's last answer must say for its receipt to be returned.
  abbrev pub Yields : SessionStatus → b.Receipt → ℕ → Type 0
  Yields res receipt cycles =
      (res.status ≡ succeeded)
      × ((stats : SessionStats) × (res.stats ≡ some stats) × (stats.total_cycles ≡ cycles))
      × ((url : ℕ) × (res.receipt_url ≡ some url)
          × (buffer : Bytes) × (b.download url ≡ ok buffer)
          × (b.deserialize_receipt buffer ≡ ok receipt))

  receipt_of_iff :
      (res : SessionStatus) (receipt : b.Receipt) (cycles : ℕ)
      → (receipt_of x y b res ≡ ok (receipt, cycles)) ↔ Yields res receipt cycles
  unfolding receipt_of download_receipt receipt_at
  receipt_of_iff res receipt cycles = (
    λ h.
        let (at, got) = receipt_at-succeeded res.status res (receipt, cycles) h in
        let (stats, e, q) = >>=-eq-ok (expect res.stats missing_stats) _ got in
        let (url, f, r) = >>=-eq-ok (expect res.receipt_url missing_receipt_url) _ q in
        let (buffer, g, t) = >>=-eq-ok (b.download url) _ r in
        let (receipt', i, made) = >>=-eq-ok (b.deserialize_receipt buffer) _ t in
        let same : receipt' ≡ receipt = ground (arith, made) in
        (
          at,
          (stats, ground (arith, e), ground (arith, made)),
          (url, ground (arith, f), buffer, g, i ∙ ap ok same),
        ),
    λ (at, (stats, e, same), (url, f, buffer, g, i)). rw (at, e, f, g, i, same),
  )

  -- A session whose first answer that is not `RUNNING` comes before the fuel runs out returns a
  -- receipt exactly if that answer is a success with stats and a url, from which the receipt
  -- downloads and decodes; the cycles are the total cycles of the stats.
  pub prove_bonsai_iff :
      (input : BonsaiInput) (session count : ℕ) (res : SessionStatus) (fuel : ℕ)
      (receipt : b.Receipt) (cycles : ℕ)
      → b.create_session input.image_id_hex input.input_id ≡ ok session
      → EndsWith session 1 count (ok res)
      → count < fuel
      → (prove_bonsai x y b fuel input ≡ some (ok (receipt, cycles))) ↔ Yields res receipt cycles
  unfolding prove_bonsai finish_session
  prove_bonsai_iff input session count res fuel receipt cycles created ends lt =
      let step = receipt_of_iff res receipt cycles in
      let made : prove_bonsai x y b fuel input ≡ some (receipt_of x y b res) =
        ap (run_session x y b fuel) created
        ∙ ap (finish_session x y b) (poll_lem session 1 count (ok res) fuel ends lt) in
      (λ h. step.0 (ground (arith, h, made)), λ yields. made ∙ ap some (step.1 yields))
