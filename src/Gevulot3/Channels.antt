-- ===== src/Gevulot3/Channels.antt =====
-- What gevulot3/src calls of async_channel and of tokio's one-shot channels, with the documented
-- behaviour that it relies on: a queue of bounded capacity, first in first out, and channels that
-- carry one value each. A one-shot channel is a number.
use reth_proofs.Prelude.{
  ℕ, ◌≤◌, ◌<◌, ◌≡◌, ◌≢◌, Bool, false, Option, none, some, List, [], ◌∷◌, ◌++◌, length, ◌⊎◌,
}
use reth_proofs.Gevulot3.{ProveJob, WebhookPayload}

-- How sending a job ends; `full` where `send` would wait.
pub data TrySend (Queue : Type 0) : Type 0 where
  sent : Queue → TrySend Queue
  full : TrySend Queue
  closed_queue : TrySend Queue

pub record Channels : Type 1 where
  pub Queue : Type 0
  pub bounded : ℕ → Queue
  pub try_send : Queue → ProveJob → TrySend Queue
  pub send : Queue → ProveJob → TrySend Queue
  pub try_recv : Queue → Option (ProveJob × Queue)
  pub OneShots : Type 0
  pub no_channels : OneShots
  pub channel : OneShots → OneShots × ℕ
  pub send_on : OneShots → ℕ → WebhookPayload → OneShots
  pub received : OneShots → ℕ → Option WebhookPayload

pub record ChannelLaws (c : Channels) : Type 1 where
  pub capacity : c.Queue → ℕ
  pub jobs : c.Queue → List ProveJob
  pub closed : c.Queue → Bool
  pub jobs-bounded : (n : ℕ) → jobs (c.bounded n) ≡ []
  pub capacity-bounded : (n : ℕ) → capacity (c.bounded n) ≡ n
  pub closed-bounded : (n : ℕ) → closed (c.bounded n) ≡ false
  pub try_recv-empty : (q : c.Queue) → jobs q ≡ [] → c.try_recv q ≡ none
  pub try_recv-first :
      (q : c.Queue) (job : ProveJob) (rest : List ProveJob)
      → jobs q ≡ job ∷ rest
      → (q' : c.Queue) × (c.try_recv q ≡ some (job, q'))
        × (jobs q' ≡ rest)
        × (capacity q' ≡ capacity q)
        × (closed q' ≡ closed q)
  pub try_send-room :
      (q : c.Queue) (job : ProveJob)
      → closed q ≡ false
      → length (jobs q) < capacity q
      → (q' : c.Queue) × (c.try_send q job ≡ sent q')
        × (jobs q' ≡ jobs q ++ job ∷ [])
        × (capacity q' ≡ capacity q)
        × (closed q' ≡ false)
  pub try_send-full :
      (q : c.Queue) (job : ProveJob)
      → closed q ≡ false
      → capacity q ≤ length (jobs q)
      → c.try_send q job ≡ full
  pub send-room :
      (q : c.Queue) (job : ProveJob)
      → closed q ≡ false
      → length (jobs q) < capacity q
      → c.send q job ≡ c.try_send q job
  -- The channels that were made so far.
  pub IsMade : c.OneShots → ℕ → Type 0
  pub none-made : (d : ℕ) → IsMade c.no_channels d → ⊥
  pub channel-new : (o : c.OneShots) → IsMade o (c.channel o).1 → ⊥
  pub channel-made :
      (o : c.OneShots) (d : ℕ) → IsMade o d ⊎ (d ≡ (c.channel o).1) → IsMade (c.channel o).0 d
  pub received-channel : (o : c.OneShots) (d : ℕ) → c.received (c.channel o).0 d ≡ c.received o d
  pub received-unmade : (o : c.OneShots) (d : ℕ) → (IsMade o d → ⊥) → c.received o d ≡ none
  pub send_on-made :
      (o : c.OneShots) (d e : ℕ) (p : WebhookPayload) → IsMade o e → IsMade (c.send_on o d p) e
  pub received-send_on :
      (o : c.OneShots) (d : ℕ) (p : WebhookPayload)
      → IsMade o d
      → c.received o d ≡ none
      → c.received (c.send_on o d p) d ≡ some p
  pub received-send_on-other :
      (o : c.OneShots) (d e : ℕ) (p : WebhookPayload)
      → d ≢ e
      → c.received (c.send_on o d p) e ≡ c.received o e
