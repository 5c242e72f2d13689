-- ===== src/Gevulot3/System/Delivered/Late.antt =====
-- A callback that comes after its job is registered, over every order of the tasks' steps.
use reth_proofs.Prelude.{ℕ, ◌≡◌, Bool, false, some, arith, ap, ◌∙◌, sym, subst, inl, inr, ◌⊎◌}
use reth_proofs.Table.{lookup}
use reth_proofs.Gevulot3.{ProveJob, WebhookPayload, RunArgs}
use reth_proofs.Gevulot3.Channels.{Channels, ChannelLaws}
use reth_proofs.Gevulot3.System.{
  submitted, waiting, System, start, register, finish, Step, new_block, submit, fail, wait, webhook,
  result, Steps, done, more,
}
use reth_proofs.Gevulot3.System.Fresh.{Steps-IsFresh, start-IsFresh}
use reth_proofs.Gevulot3.System.Delivered.{IsLive, webhook-IsLive, register-IsLive}

module _ (c : Channels) (laws : ChannelLaws c) where
  module _ (args : RunArgs) (job : ProveJob) (job_id channel : ℕ) where
    -- Between the two states the worker received the job's payload, and finished the job with it.
    abbrev pub HasFinished : System c → System c → Type 0
    HasFinished s t =
        (u : System c) × (payload : WebhookPayload) × (removed : Bool) × Steps c args s u
        × (payload.job_id ≡ job_id)
        × (u.worker ≡ waiting job channel)
        × (c.received u.server.oneshots channel ≡ some payload)
        × Steps c args (finish c u job payload removed) t

    IsLive-more :
        {s t u : System c}
        → Step c args s t
        → IsLive c laws job job_id channel u ⊎ HasFinished t u
        → IsLive c laws job job_id channel u ⊎ HasFinished s u
    IsLive-more step (inl live) = inl live
    IsLive-more step (inr (v, payload, removed, before, own, at, sent, rest)) =
        inr (v, payload, removed, more step before, own, at, sent, rest)

    -- A worker that waits for a result that is not lost goes on to wait for it, or has finished.
    Steps-IsLive :
        {s t : System c}
        → Steps c args s t
        → IsLive c laws job job_id channel s
        → IsLive c laws job job_id channel t ⊎ HasFinished s t
    Steps-IsLive done live = inl live
    Steps-IsLive (more (new_block j dropped queue e) steps) live =
        IsLive-more (new_block j dropped queue e) (Steps-IsLive steps live)
    Steps-IsLive (more (submit j queue id e f g) steps) live = cc
    Steps-IsLive (more (fail j queue written e f) steps) live = cc
    Steps-IsLive (more (wait j id e) steps) live = cc
    Steps-IsLive {s} (more (webhook payload e) steps) live =
        IsLive-more (webhook payload e)
          (Steps-IsLive steps (webhook-IsLive c laws s payload job job_id channel e live))
    Steps-IsLive {s} {t} (more (result j d payload removed e f) steps) live =
        let same_job : j ≡ job = cc in
        let same : d ≡ channel = cc in
        let received : c.received s.server.oneshots channel ≡ some payload = rw same at f in
        let own : payload.job_id ≡ job_id = elim live.2 [
          | inl (_, _, _, unsent) ↦ cc (sym received ∙ unsent)
          | inr (p, id, _, sent) ↦
              (let one : payload ≡ p = ground (arith, received, sent) in
                ap (λ q. q.job_id) one ∙ id)
        ] in
        inr (
          s,
          payload,
          removed,
          done,
          own,
          live.0,
          received,
          subst (λ k. Steps c args (finish c s k payload removed) t) same_job steps,
        )

  -- If the coordinator calls back only after the worker has registered the job, the result is not
  -- lost. From then on, whatever steps the tasks take, the worker waits on the job's channel, and
  -- the callback is still owed or its payload can be received there, or it has finished the job
  -- with the payload of the job's callback.
  pub late_callback :
      (args : RunArgs) (s t : System c) (job : ProveJob) (job_id : ℕ)
      → Steps c args (start c args) s
      → s.worker ≡ submitted job job_id
      → lookup job_id s.coordinator ≡ some false
      → Steps c args (register c s job job_id) t
      → ((t.worker ≡ waiting job (c.channel s.server.oneshots).1)
          × ((lookup job_id t.coordinator ≡ some false)
              ⊎ ((payload : WebhookPayload) × (payload.job_id ≡ job_id)
                  × (c.received t.server.oneshots (c.channel s.server.oneshots).1 ≡ some payload))))
        ⊎ HasFinished args job job_id (c.channel s.server.oneshots).1 (register c s job job_id) t
  late_callback args s t job job_id before at owed after =
      let channel = (c.channel s.server.oneshots).1 in
      let fresh = Steps-IsFresh c laws args before (start-IsFresh c laws args) in
      elim (Steps-IsLive args job job_id channel after
        (register-IsLive c laws s job job_id fresh owed)) [
          | inl (waits, _, inl (still_owed, _, _, _)) ↦ inl (waits, inl still_owed)
          | inl (waits, _, inr (payload, own, _, sent)) ↦ inl (waits, inr (payload, own, sent))
          | inr finished ↦ inr finished
        ]
