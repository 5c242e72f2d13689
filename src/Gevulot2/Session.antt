-- ===== src/Gevulot2/Session.antt =====
-- `upload_bonsai` and `prove_bonsai` of gevulot2/src/main.rs. The polling interval, and the panic on
-- one that does not parse, are left out.
pub mod Polling
use reth_proofs.Prelude.{ℕ, zero, suc, Option, none, some}
use reth_proofs.Outcome.{
  Outcome, ok, err, panic, expect, session_failed, missing_stats, missing_receipt_url, ◌>>=◌, ◌>>◌,
}
use reth_proofs.External.{Bytes, External}
use reth_proofs.Core.{Alloy}
use reth_proofs.Gevulot2.{
  Status, running, succeeded, other_status, SessionStatus, BonsaiInput, Bento,
}

module _ (x : External) (y : Alloy) (b : Bento x y) where
  unfoldable pub upload_bonsai : Bytes → Outcome BonsaiInput
  upload_bonsai zkvm_input = do
    b.upload_img b.image_id
    input_id ← b.upload_input zkvm_input
    ok (record { image_id_hex = b.image_id; input_id = input_id })

  -- The end of a poll: `none` where the session is still running, so that the loop goes on.
  unfoldable pub polled : Outcome SessionStatus → Option (Outcome SessionStatus)
  polled (ok res) = elim res.status [ running ↦ none | _ ↦ some (ok res) ]
  polled (err e) = some (err e)
  polled (panic p) = some (panic p)

  abbrev pub or_else :
      Option (Outcome SessionStatus)
      → Option (Outcome SessionStatus)
      → Option (Outcome SessionStatus)
  or_else none rest = rest
  or_else (some res) rest = some res

  -- The polling loop from a check on, on fuel; `none` where it has not ended.
  unfoldable pub poll : (session num_checks fuel : ℕ) → Option (Outcome SessionStatus)
  poll session num_checks zero = none
  poll session num_checks (suc fuel) =
      let rest = poll session (suc num_checks) fuel in
      or_else (polled (b.session_status session num_checks)) rest

  -- The receipt of a session that succeeded, and its total cycles.
  unfoldable pub download_receipt : SessionStatus → Outcome (b.Receipt × ℕ)
  download_receipt res = do
    stats ← expect res.stats missing_stats
    receipt_url ← expect res.receipt_url missing_receipt_url
    receipt_buf ← b.download receipt_url
    receipt ← b.deserialize_receipt receipt_buf
    ok (receipt, stats.total_cycles)

  unfoldable pub receipt_at : Status → SessionStatus → Outcome (b.Receipt × ℕ)
  receipt_at succeeded res = download_receipt res
  receipt_at _ res = err session_failed

  -- What follows the loop.
  unfoldable pub receipt_of : SessionStatus → Outcome (b.Receipt × ℕ)
  receipt_of res = receipt_at res.status res

  unfoldable pub finish_session : Option (Outcome SessionStatus) → Option (Outcome (b.Receipt × ℕ))
  unfolding receipt_of
  finish_session none = none
  finish_session (some res) = some (res >>= receipt_of)

  abbrev pub run_session : ℕ → Outcome ℕ → Option (Outcome (b.Receipt × ℕ))
  run_session fuel (ok session) = finish_session (poll session 1 fuel)
  run_session fuel (err e) = some (err e)
  run_session fuel (panic p) = some (panic p)

  -- `none` where the session outlasts the fuel.
  unfoldable pub prove_bonsai : ℕ → BonsaiInput → Option (Outcome (b.Receipt × ℕ))
  prove_bonsai fuel bonsai_input =
      run_session fuel (b.create_session bonsai_input.image_id_hex bonsai_input.input_id)
