-- ===== src/Tests/ToyChannels.antt =====
-- Channels that meet the assumed behaviour: a queue with the list of its jobs, and a list of what was
-- sent on each of the one-shot channels.
use reth_proofs.Prelude.{
  ℕ, zero, suc, ◌<◌, ◌≤◌, ◌≡◌, ◌≢◌, refl, Bool, false, Option, none, some, List, [], ◌∷◌, ◌++◌,
  if◌then◌else◌, ltb, length, length-append, arith, ap, ◌⊎◌, ◌⊎◌,
}
use reth_proofs.Gevulot3.{ProveJob, WebhookPayload}
use reth_proofs.Gevulot3.Channels.{TrySend, sent, full, closed_queue, Channels, ChannelLaws}

pub record ToyQueue : Type 0 where
  pub capacity : ℕ
  pub jobs : List ProveJob
  pub closed : Bool

abbrev pub send_job : ToyQueue → ProveJob → TrySend ToyQueue
send_job q job =
    if q.closed
    then closed_queue
    else (if ltb (length q.jobs) q.capacity
        then sent (record q { jobs = q.jobs ++ job ∷ [] })
        else full)

abbrev pub first_of : ToyQueue → List ProveJob → Option (ProveJob × ToyQueue)
first_of q [] = none
first_of q (job ∷ rest) = some (job, record q { jobs = rest })

-- The one-shot channels are a list of what each holds.
abbrev pub Mail : Type 0
Mail = List (Option WebhookPayload)

abbrev pub value_at : Mail → ℕ → Option WebhookPayload
value_at [] d = none
value_at (v ∷ mail) zero = v
value_at (v ∷ mail) (suc d) = value_at mail d

abbrev pub send_at : Mail → ℕ → WebhookPayload → Mail
send_at [] d p = []
send_at (v ∷ mail) zero p = some p ∷ mail
send_at (v ∷ mail) (suc d) p = v ∷ send_at mail d p

abbrev pub toy_channels : Channels
toy_channels = record {
  Queue = ToyQueue;
  bounded = λ n. record { capacity = n; jobs = []; closed = false };
  try_send = send_job;
  send = send_job;
  try_recv = λ q. first_of q q.jobs;
  OneShots = Mail;
  no_channels = [];
  channel = λ m. (m ++ none ∷ [], length m);
  send_on = send_at;
  received = value_at;
}

pub value_at-none : (mail : Mail) (d : ℕ) → value_at (mail ++ none ∷ []) d ≡ value_at mail d
value_at-none [] zero = refl
value_at-none [] (suc d) = refl
value_at-none (v ∷ mail) zero = refl
value_at-none (v ∷ mail) (suc d) = value_at-none mail d

pub value_at-beyond : (mail : Mail) (d : ℕ) → length mail ≤ d → value_at mail d ≡ none
value_at-beyond [] d le = refl
value_at-beyond (v ∷ mail) zero le = absurd (omega (arith, le))
value_at-beyond (v ∷ mail) (suc d) le = value_at-beyond mail d (omega (arith, le))

pub length-send_at :
    (mail : Mail) (d : ℕ) (p : WebhookPayload) → length (send_at mail d p) ≡ length mail
length-send_at [] d p = refl
length-send_at (v ∷ mail) zero p = refl
length-send_at (v ∷ mail) (suc d) p = ap (λ n. suc n) (length-send_at mail d p)

pub value_at-send_at :
    (mail : Mail) (d : ℕ) (p : WebhookPayload)
    → d < length mail
    → value_at (send_at mail d p) d ≡ some p
value_at-send_at [] d p lt = absurd (omega (arith, lt))
value_at-send_at (v ∷ mail) zero p lt = refl
value_at-send_at (v ∷ mail) (suc d) p lt = value_at-send_at mail d p (omega (arith, lt))

pub value_at-send_at-other :
    (mail : Mail) (d e : ℕ) (p : WebhookPayload)
    → d ≢ e
    → value_at (send_at mail d p) e ≡ value_at mail e
value_at-send_at-other [] d e p ne = refl
value_at-send_at-other (v ∷ mail) zero zero p ne = absurd (ne refl)
value_at-send_at-other (v ∷ mail) zero (suc e) p ne = refl
value_at-send_at-other (v ∷ mail) (suc d) zero p ne = refl
value_at-send_at-other (v ∷ mail) (suc d) (suc e) p ne =
    value_at-send_at-other mail d e p (λ same. ne (ap (λ n. suc n) same))

pub first_of-cons :
    (q : ToyQueue) (job : ProveJob) (rest : List ProveJob)
    → q.jobs ≡ job ∷ rest
    → (q' : ToyQueue) × (first_of q q.jobs ≡ some (job, q'))
      × (q'.jobs ≡ rest)
      × (q'.capacity ≡ q.capacity)
      × (q'.closed ≡ q.closed)
first_of-cons q job rest e = (record q { jobs = rest }, ap (first_of q) e, refl, refl, refl)

pub send_job-room :
    (q : ToyQueue) (job : ProveJob)
    → q.closed ≡ false
    → length q.jobs < q.capacity
    → (q' : ToyQueue) × (send_job q job ≡ sent q')
      × (q'.jobs ≡ q.jobs ++ job ∷ [])
      × (q'.capacity ≡ q.capacity)
      × (q'.closed ≡ false)
send_job-room q job e lt =
    (record q { jobs = q.jobs ++ job ∷ [] }, ground (arith, e, lt), refl, refl, e)

pub send_job-full :
    (q : ToyQueue) (job : ProveJob)
    → q.closed ≡ false
    → q.capacity ≤ length q.jobs
    → send_job q job ≡ full
send_job-full q job e le = ground (arith, e, le)

pub lt-length_of_made :
    (mail : Mail) (d : ℕ) → (d < length mail) ⊎ (d ≡ length mail) → d < length (mail ++ none ∷ [])
lt-length_of_made mail d made = ground (arith, made, length-append mail (none ∷ []))

pub length_irrefl : (mail : Mail) → length mail < length mail → ⊥
length_irrefl mail lt = omega (arith, lt)

unfoldable pub toy_channels-ChannelLaws : ChannelLaws toy_channels
toy_channels-ChannelLaws = record {
  capacity = λ q. q.capacity;
  jobs = λ q. q.jobs;
  closed = λ q. q.closed;
  jobs-bounded = λ n. refl;
  capacity-bounded = λ n. refl;
  closed-bounded = λ n. refl;
  try_recv-empty = λ q e. ap (first_of q) e;
  try_recv-first = first_of-cons;
  try_send-room = send_job-room;
  try_send-full = send_job-full;
  send-room = λ q job e lt. refl;
  IsMade = λ o d. d < length o;
  none-made = λ d lt. omega (arith, lt);
  channel-new = length_irrefl;
  channel-made = lt-length_of_made;
  received-channel = value_at-none;
  received-unmade = λ o d unmade. value_at-beyond o d (omega (arith, unmade));
  send_on-made = λ o d e p lt. omega (arith, lt, length-send_at o d p);
  received-send_on = λ o d p made empty. value_at-send_at o d p made;
  received-send_on-other = value_at-send_at-other;
}
