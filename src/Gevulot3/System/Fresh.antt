-- ===== src/Gevulot3/System/Fresh.antt =====
-- The webhook server's pending senders, over every order of the tasks' steps.
use reth_proofs.Prelude.{
  ℕ, ◌≡◌, none, some, arith, ap, sym, subst, Option-cases, Bool-cases, inl, inr, ◌==◌,
}
use reth_proofs.Table.{lookup, erase}
use reth_proofs.Table.Laws.{lookup-insert, lookup-erase}
use reth_proofs.Gevulot3.{WebhookPayload, RunArgs}
use reth_proofs.Gevulot3.Channels.{Channels, ChannelLaws}
use reth_proofs.Gevulot3.Webhook.{AppState, deliver, webhook_handler, register_job}
use reth_proofs.Gevulot3.System.{
  System, start, Step, new_block, submit, fail, wait, webhook, result, Steps, done, more,
}

module _ (c : Channels) (laws : ChannelLaws c) where
  -- The senders that are pending are those of channels that were made.
  abbrev pub IsFresh : AppState c → Type 0
  IsFresh server =
      (id tx : ℕ) → lookup id server.pending_jobs ≡ some tx → laws.IsMade server.oneshots tx

  pub webhook_handler-known :
      (server : AppState c) (payload : WebhookPayload) (tx : ℕ)
      → lookup payload.job_id server.pending_jobs ≡ some tx
      → webhook_handler c server payload ≡ deliver c server payload (some tx)
  unfolding webhook_handler
  webhook_handler-known server payload tx known = ap (deliver c server payload) known

  pub webhook_handler-unknown :
      (server : AppState c) (payload : WebhookPayload)
      → lookup payload.job_id server.pending_jobs ≡ none
      → webhook_handler c server payload ≡ server
  unfolding webhook_handler
  webhook_handler-unknown server payload unknown = ap (deliver c server payload) unknown

  -- Taking one entry out leaves only entries that were there.
  pub lookup_of_erased :
      (key id tx : ℕ) (server : AppState c)
      → lookup id (erase key server.pending_jobs) ≡ some tx
      → lookup id server.pending_jobs ≡ some tx
  lookup_of_erased key id tx server e = ground (arith, e, lookup-erase key id server.pending_jobs)

  webhook_handler-IsFresh :
      (server : AppState c) (payload : WebhookPayload)
      → IsFresh server
      → IsFresh (webhook_handler c server payload)
  webhook_handler-IsFresh server payload fresh =
      elim (Option-cases (lookup payload.job_id server.pending_jobs)) [
        | inl unknown ↦ subst IsFresh (sym (webhook_handler-unknown server payload unknown)) fresh
        | inr (tx, known) ↦
            subst IsFresh (sym (webhook_handler-known server payload tx known)) (λ id d e.
              laws.send_on-made server.oneshots tx d payload
                (fresh id d (lookup_of_erased payload.job_id id d server e)))
      ]

  register_job-IsFresh :
      (server : AppState c) (job_id : ℕ) → IsFresh server → IsFresh (register_job c server job_id).0
  unfolding register_job
  register_job-IsFresh server job_id fresh id d e =
      let new = (c.channel server.oneshots).1 in
      let found = lookup-insert job_id id new server.pending_jobs in
      laws.channel-made server.oneshots d (elim (Bool-cases (job_id == id)) [
        | inl same ↦ inr (ground (arith, e, found, same))
        | inr other ↦ inl (fresh id d (ground (arith, e, found, other)))
      ])

  Step-IsFresh :
      (args : RunArgs) {s t : System c} → Step c args s t → IsFresh s.server → IsFresh t.server
  Step-IsFresh args (new_block job dropped queue e) fresh = fresh
  Step-IsFresh args (submit job queue job_id e f g) fresh = fresh
  Step-IsFresh args (fail job queue written e f) fresh = fresh
  Step-IsFresh args {s} (wait job job_id e) fresh = register_job-IsFresh s.server job_id fresh
  Step-IsFresh args {s} (webhook payload e) fresh = webhook_handler-IsFresh s.server payload fresh
  Step-IsFresh args (result job channel payload removed e f) fresh = fresh

  pub Steps-IsFresh :
      (args : RunArgs) {s t : System c} → Steps c args s t → IsFresh s.server → IsFresh t.server
  Steps-IsFresh args done fresh = fresh
  Steps-IsFresh args (more step steps) fresh =
      Steps-IsFresh args steps (Step-IsFresh args step fresh)

  pub start-IsFresh : (args : RunArgs) → IsFresh (start c args).server
  unfolding lookup
  start-IsFresh args id tx e = cc
