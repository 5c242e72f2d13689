-- ===== src/Gevulot3/System/Callbacks.antt =====
-- A callback that comes before its job is registered, over every order of the tasks' steps.
use reth_proofs.Prelude.{
  ℕ, ◌≡◌, ◌≢◌, refl, true, false, none, some, arith, ◌∙◌, sym, subst, Option-cases, Bool-cases, inl,
  inr, ◌==◌,
}
use reth_proofs.Table.{lookup, insert}
use reth_proofs.Table.Laws.{lookup-insert}
use reth_proofs.Gevulot3.{ProveJob, WebhookPayload, RunArgs}
use reth_proofs.Gevulot3.Channels.{Channels, ChannelLaws}
use reth_proofs.Gevulot3.Webhook.{AppState, deliver, register_job}
use reth_proofs.Gevulot3.System.{
  submitted, waiting, System, start, register, Step, new_block, submit, fail, wait, webhook, result,
  Steps, done, more,
}
use reth_proofs.Gevulot3.System.Fresh.{
  webhook_handler-known, webhook_handler-unknown, lookup_of_erased, Steps-IsFresh, start-IsFresh,
}

module _ (c : Channels) (laws : ChannelLaws c) where
  -- The worker waits on a channel that nothing will be sent on.
  abbrev IsStuck : ProveJob → ℕ → System c → Type 0
  IsStuck job channel s =
      (s.worker ≡ waiting job channel)
      × (c.received s.server.oneshots channel ≡ none)
      × ((id : ℕ)
          → lookup id s.server.pending_jobs ≡ some channel
          → lookup id s.coordinator ≡ some true)

  -- A callback of another job is not for the channel.
  deliver-IsStuck :
      (s : System c) (job : ProveJob) (channel : ℕ) (payload : WebhookPayload) (tx : ℕ)
      → lookup payload.job_id s.server.pending_jobs ≡ some tx
      → lookup payload.job_id s.coordinator ≡ some false
      → IsStuck job channel s
      → IsStuck job channel (record s {
        server = deliver c s.server payload (some tx);
        coordinator = insert payload.job_id true s.coordinator;
      })
  deliver-IsStuck s job channel payload tx known owed (at, unsent, dead) =
      let other : tx ≢ channel = λ same. ground (arith, dead payload.job_id, known, owed, same) in
      (
        at,
        laws.received-send_on-other s.server.oneshots tx channel payload other ∙ unsent,
        λ id e. ground (
          arith,
          dead id (lookup_of_erased c laws payload.job_id id channel s.server e),
          lookup-insert payload.job_id id true s.coordinator,
        ),
      )

  ignore-IsStuck :
      (s : System c) (job : ProveJob) (channel : ℕ) (payload : WebhookPayload)
      → IsStuck job channel s
      → IsStuck job channel (record s { coordinator = insert payload.job_id true s.coordinator })
  ignore-IsStuck s job channel payload (at, unsent, dead) = (
    at,
    unsent,
    λ id e. ground (arith, dead id e, lookup-insert payload.job_id id true s.coordinator),
  )

  Step-IsStuck :
      (args : RunArgs) (job : ProveJob) (channel : ℕ) {s t : System c}
      → Step c args s t
      → IsStuck job channel s
      → IsStuck job channel t
  Step-IsStuck args job channel (new_block j dropped queue e) stuck = stuck
  Step-IsStuck args job channel (submit j queue job_id e f g) stuck = cc
  Step-IsStuck args job channel (fail j queue written e f) stuck = stuck
  Step-IsStuck args job channel (wait j job_id e) stuck = cc
  Step-IsStuck args job channel {s} (webhook payload e) stuck =
      let called = λ (server : AppState c). record s {
        server = server;
        coordinator = insert payload.job_id true s.coordinator;
      } in
      elim (Option-cases (lookup payload.job_id s.server.pending_jobs)) [
        | inl unknown ↦
            subst (λ server. IsStuck job channel (called server))
              (sym (webhook_handler-unknown c laws s.server payload unknown))
              (ignore-IsStuck s job channel payload stuck)
        | inr (tx, known) ↦
            subst (λ server. IsStuck job channel (called server))
              (sym (webhook_handler-known c laws s.server payload tx known))
              (deliver-IsStuck s job channel payload tx known e stuck)
      ]
  Step-IsStuck args job channel (result j d payload removed e f) stuck = cc

  Steps-IsStuck :
      (args : RunArgs) (job : ProveJob) (channel : ℕ) {s t : System c}
      → Steps c args s t
      → IsStuck job channel s
      → IsStuck job channel t
  Steps-IsStuck args job channel done stuck = stuck
  Steps-IsStuck args job channel (more step steps) stuck =
      Steps-IsStuck args job channel steps (Step-IsStuck args job channel step stuck)

  -- If the coordinator calls back before the worker has registered the job, the result is lost: from
  -- then on, whatever steps the tasks take, the worker waits on the job's channel.
  pub early_callback :
      (args : RunArgs) (s t : System c) (job : ProveJob) (job_id : ℕ)
      → Steps c args (start c args) s
      → s.worker ≡ submitted job job_id
      → lookup job_id s.coordinator ≡ some true
      → Steps c args (register c s job job_id) t
      → t.worker ≡ waiting job (c.channel s.server.oneshots).1
  unfolding register_job
  early_callback args s t job job_id before at early after =
      let fresh = Steps-IsFresh c laws args before (start-IsFresh c laws args) in
      let o = s.server.oneshots in
      let tx = (c.channel o).1 in
      let unsent = laws.received-channel o tx ∙ laws.received-unmade o tx (laws.channel-new o) in
      let found = λ (id : ℕ). lookup-insert job_id id tx s.server.pending_jobs in
      let stuck : IsStuck job tx (register c s job job_id) = (
        refl,
        unsent,
        λ id e. elim (Bool-cases (job_id == id)) [
          | inl same ↦ ground (arith, early, same)
          | inr other ↦
              absurd (laws.channel-new o (fresh id tx (ground (arith, e, found id, other))))
        ],
      ) in
      (Steps-IsStuck args job tx after stuck).0
