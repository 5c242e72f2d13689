-- ===== src/Gevulot3/System/Delivered.antt =====
-- A worker whose result cannot be lost: what a callback and a registration make of this.
pub mod Late
use reth_proofs.Prelude.{
  ℕ, ◌≡◌, ◌≢◌, refl, Bool, true, false, none, some, arith, ap, ◌∙◌, sym, subst, Option-cases,
  Bool-cases, inl, inr, ◌==◌, ◌⊎◌, ==_iff,
}
use reth_proofs.Table.{lookup, insert}
use reth_proofs.Table.Laws.{lookup-insert, lookup-erase}
use reth_proofs.Gevulot3.{ProveJob, WebhookPayload, RunArgs}
use reth_proofs.Gevulot3.Channels.{Channels, ChannelLaws}
use reth_proofs.Gevulot3.Webhook.{AppState, deliver, register_job}
use reth_proofs.Gevulot3.System.{
  submitted, waiting, System, start, register, call_back, finish, Step, new_block, submit, fail,
  wait, webhook, result, Steps, done, more,
}
use reth_proofs.Gevulot3.System.Fresh.{
  IsFresh, webhook_handler-known, webhook_handler-unknown, lookup_of_erased, Steps-IsFresh,
  start-IsFresh,
}

module _ (c : Channels) (laws : ChannelLaws c) where
  -- The job's callback is owed, with a sender that waits for it, or its payload is on the channel.
  abbrev pub IsDelivered : ℕ → ℕ → System c → Type 0
  IsDelivered job_id channel s =
      ((lookup job_id s.coordinator ≡ some false)
        × (lookup job_id s.server.pending_jobs ≡ some channel)
        × laws.IsMade s.server.oneshots channel
        × (c.received s.server.oneshots channel ≡ none))
      ⊎ ((payload : WebhookPayload) × (payload.job_id ≡ job_id)
          × (lookup job_id s.coordinator ≡ some true)
          × (c.received s.server.oneshots channel ≡ some payload))

  -- Only the job's sender is that of the channel.
  abbrev pub IsOwned : ℕ → ℕ → System c → Type 0
  IsOwned job_id channel s = (id : ℕ) → lookup id s.server.pending_jobs ≡ some channel → id ≡ job_id

  -- The worker waits for a result that is not lost.
  abbrev pub IsLive : ProveJob → ℕ → ℕ → System c → Type 0
  IsLive job job_id channel s =
      (s.worker ≡ waiting job channel) × IsOwned job_id channel s × IsDelivered job_id channel s

  -- The server after a callback that has a sender.
  abbrev answered : System c → WebhookPayload → ℕ → System c
  answered s payload tx = record s {
    server = deliver c s.server payload (some tx);
    coordinator = insert payload.job_id true s.coordinator;
  }

  answered-IsOwned :
      (s : System c) (payload : WebhookPayload) (tx job_id channel : ℕ)
      → IsOwned job_id channel s
      → IsOwned job_id channel (answered s payload tx)
  answered-IsOwned s payload tx job_id channel owned id e =
      owned id (lookup_of_erased c laws payload.job_id id channel s.server e)

  -- The callback of the job itself, which is owed.
  answered-IsDelivered_self :
      (s : System c) (payload : WebhookPayload) (channel : ℕ)
      → laws.IsMade s.server.oneshots channel
      → c.received s.server.oneshots channel ≡ none
      → IsDelivered payload.job_id channel (answered s payload channel)
  answered-IsDelivered_self s payload channel made unsent = inr (
    payload,
    refl,
    ground (arith, lookup-insert payload.job_id payload.job_id true s.coordinator),
    laws.received-send_on s.server.oneshots channel payload made unsent,
  )

  -- The callback of another job.
  answered-IsDelivered_other :
      (s : System c) (payload : WebhookPayload) (tx job_id channel : ℕ)
      → payload.job_id ≢ job_id
      → tx ≢ channel
      → IsDelivered job_id channel s
      → IsDelivered job_id channel (answered s payload tx)
  answered-IsDelivered_other s payload tx job_id channel other apart
        (inl (owed, pending, made, unsent)) =
      inl (
        ground (arith, owed, other, lookup-insert payload.job_id job_id true s.coordinator),
        ground (arith, pending, other, lookup-erase payload.job_id job_id s.server.pending_jobs),
        laws.send_on-made s.server.oneshots tx channel payload made,
        laws.received-send_on-other s.server.oneshots tx channel payload apart ∙ unsent,
      )
  answered-IsDelivered_other s payload tx job_id channel other apart (inr (p, same, called, sent)) =
      inr (
        p,
        same,
        ground (arith, called, other, lookup-insert payload.job_id job_id true s.coordinator),
        laws.received-send_on-other s.server.oneshots tx channel payload apart ∙ sent,
      )

  -- A callback that has no sender is of another job, and changes nothing.
  ignored-IsDelivered :
      (s : System c) (payload : WebhookPayload) (job_id channel : ℕ)
      → lookup payload.job_id s.server.pending_jobs ≡ none
      → lookup payload.job_id s.coordinator ≡ some false
      → IsDelivered job_id channel s
      → IsDelivered job_id channel
          (record s { coordinator = insert payload.job_id true s.coordinator })
  ignored-IsDelivered s payload job_id channel unknown now (inl (owed, pending, made, unsent)) =
      let other : payload.job_id ≢ job_id = λ same. ground (arith, unknown, pending, same) in
      inl (
        ground (arith, owed, other, lookup-insert payload.job_id job_id true s.coordinator),
        pending,
        made,
        unsent,
      )
  ignored-IsDelivered s payload job_id channel unknown now (inr (p, same, called, sent)) =
      let other : payload.job_id ≢ job_id = λ same_id. ground (arith, now, called, same_id) in
      inr (
        p,
        same,
        ground (arith, called, other, lookup-insert payload.job_id job_id true s.coordinator),
        sent,
      )

  answered-IsDelivered :
      (s : System c) (payload : WebhookPayload) (tx job_id channel : ℕ)
      → lookup payload.job_id s.server.pending_jobs ≡ some tx
      → lookup payload.job_id s.coordinator ≡ some false
      → IsOwned job_id channel s
      → IsDelivered job_id channel s
      → IsDelivered job_id channel (answered s payload tx)
  answered-IsDelivered s payload tx job_id channel known now owned delivered =
      let apart = λ (other : payload.job_id ≢ job_id) (same : tx ≡ channel).
        other (owned payload.job_id (known ∙ ap some same)) in
      elim (Bool-cases (payload.job_id == job_id)) [
        | inr differs ↦
            let other : payload.job_id ≢ job_id = λ same. ground (arith, differs, same) in
            answered-IsDelivered_other s payload tx job_id channel other (apart other) delivered
        | inl equal ↦
            let same = (==_iff payload.job_id job_id).0 equal in
            elim delivered [
              | inr (p, _, called, _) ↦ ground (arith, now, called, same)
              | inl (_, pending, made, unsent) ↦
                  let one : channel ≡ tx = ground (arith, known, pending, same) in
                  subst (λ id. IsDelivered id channel (answered s payload tx)) same
                    (subst (λ d. IsDelivered payload.job_id channel (answered s payload d)) one
                      (answered-IsDelivered_self s payload channel made unsent))
            ]
      ]

  pub webhook-IsLive :
      (s : System c) (payload : WebhookPayload) (job : ProveJob) (job_id channel : ℕ)
      → lookup payload.job_id s.coordinator ≡ some false
      → IsLive job job_id channel s
      → IsLive job job_id channel (call_back c s payload)
  webhook-IsLive s payload job job_id channel now (at, owned, delivered) =
      let after = λ (server : AppState c). record s {
        server = server;
        coordinator = insert payload.job_id true s.coordinator;
      } in
      elim (Option-cases (lookup payload.job_id s.server.pending_jobs)) [
        | inl unknown ↦
            subst (λ server. IsLive job job_id channel (after server))
              (sym (webhook_handler-unknown c laws s.server payload unknown))
              (at, owned, ignored-IsDelivered s payload job_id channel unknown now delivered)
        | inr (tx, known) ↦
            subst (λ server. IsLive job job_id channel (after server))
              (sym (webhook_handler-known c laws s.server payload tx known))
              (
                at,
                answered-IsOwned s payload tx job_id channel owned,
                answered-IsDelivered s payload tx job_id channel known now owned delivered,
              )
      ]

  -- Registering a job whose callback is owed.
  pub register-IsLive :
      (s : System c) (job : ProveJob) (job_id : ℕ)
      → IsFresh c laws s.server
      → lookup job_id s.coordinator ≡ some false
      → IsLive job job_id (c.channel s.server.oneshots).1 (register c s job job_id)
  unfolding register_job
  register-IsLive s job job_id fresh owed =
      let o = s.server.oneshots in
      let tx = (c.channel o).1 in
      let found = λ (id : ℕ). lookup-insert job_id id tx s.server.pending_jobs in
      (
        refl,
        λ id e. elim (Bool-cases (job_id == id)) [
          | inl same ↦ sym ((==_iff job_id id).0 same)
          | inr other ↦
              absurd (laws.channel-new o (fresh id tx (ground (arith, e, found id, other))))
        ],
        inl (
          owed,
          ground (arith, found job_id),
          laws.channel-made o tx (inr refl),
          laws.received-channel o tx ∙ laws.received-unmade o tx (laws.channel-new o),
        ),
      )
