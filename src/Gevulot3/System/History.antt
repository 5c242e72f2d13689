-- ===== src/Gevulot3/System/History.antt =====
-- The events of gevulot3 as those of jobs that were processed one after another, and of one in hand.
use reth_proofs.Prelude.{
  ℕ, ◌≡◌, refl, true, false, Bool, some, none, List, [], ◌∷◌, ◌++◌, map, ap, sym, ◌∙◌,
  if◌then◌else◌,
}
use mathlib.Core.List.{map-append, append_assoc, append-nil}
use reth_proofs.Gevulot3.{ProveJob, WebhookPayload}
use reth_proofs.Gevulot3.Worker.{
  Event, Replies, proving, wrote_input, submitted_job, registered, process_job, upload, verdict_of,
}
use reth_proofs.Gevulot3.System.{Worker, idle, submitted, waiting}

-- The jobs that the worker is done with, each with how its calls ended.
abbrev pub History : Type 0
History = List (ProveJob × Replies)

abbrev pub jobs_of : History → List ProveJob
jobs_of history = map (λ (entry : ProveJob × Replies). entry.0) history

-- What `process_job` does for these jobs, one after another.
abbrev pub traces : History → List Event
traces [] = []
traces ((job, replies) ∷ history) = process_job job replies ++ traces history

traces-append : (h k : History) → traces (h ++ k) ≡ traces h ++ traces k
traces-append [] k = refl
traces-append ((job, replies) ∷ h) k =
    ap (λ es. process_job job replies ++ es) (traces-append h k)
    ∙ sym (append_assoc (process_job job replies) (traces h) (traces k))

traces-snoc :
    (h : History) (job : ProveJob) (replies : Replies)
    → traces (h ++ (job, replies) ∷ []) ≡ traces h ++ process_job job replies
traces-snoc h job replies =
    traces-append h ((job, replies) ∷ [])
    ∙ ap (λ es. traces h ++ es) (append-nil (process_job job replies))

jobs_of-snoc :
    (h : History) (job : ProveJob) (replies : Replies)
    → jobs_of (h ++ (job, replies) ∷ []) ≡ jobs_of h ++ job ∷ []
jobs_of-snoc h job replies =
    map-append (λ (entry : ProveJob × Replies). entry.0) h ((job, replies) ∷ [])

-- The job that the worker is at, and what it has done for it.
abbrev pub in_hand : Worker → List ProveJob
in_hand idle = []
in_hand (submitted job job_id) = job ∷ []
in_hand (waiting job channel) = job ∷ []

abbrev pub opened : ProveJob → ℕ → List Event
opened job job_id =
    proving job.block_number
    ∷ wrote_input job.block_number job.zkvm_input
    ∷ submitted_job job.block_number job_id
    ∷ []

abbrev pub IsAt : Worker → List Event → Type 0
IsAt idle events = events ≡ []
IsAt (submitted job job_id) events = events ≡ opened job job_id
IsAt (waiting job channel) events =
    (job_id : ℕ) × (events ≡ opened job job_id ++ registered job_id ∷ [])

-- The events are the traces of a history, and what the worker has begun.
pub record IsTraced (worker : Worker) (events : List Event) (taken : List ProveJob) : Type 0 where
  pub history : History
  pub begun : List Event
  pub events_are : events ≡ traces history ++ begun
  pub begun_is : IsAt worker begun
  pub taken_are : taken ≡ jobs_of history ++ in_hand worker

abbrev given_up : Bool → Replies
given_up written = record { written = written; job_id = none; payload = none; removed = false }

abbrev answered : ℕ → WebhookPayload → Bool → Replies
answered job_id payload removed = record {
  written = true;
  job_id = some job_id;
  payload = some payload;
  removed = removed;
}

process_job-given_up :
    (job : ProveJob) (written : Bool)
    → process_job job (given_up written)
      ≡ proving job.block_number
        ∷ (if written then wrote_input job.block_number job.zkvm_input ∷ [] else [])
unfolding process_job
process_job-given_up job true = refl
process_job-given_up job false = refl

-- The worker ends a job with some replies.
close :
    (events more_events : List Event) (taken : List ProveJob) (job : ProveJob) (replies : Replies)
    (h : History) (begun : List Event)
    → events ≡ traces h ++ begun
    → begun ++ more_events ≡ process_job job replies
    → taken ≡ jobs_of h ++ job ∷ []
    → IsTraced idle (events ++ more_events) taken
close events more_events taken job replies h begun e f g = record {
  history = h ++ (job, replies) ∷ [];
  begun = [];
  events_are =
      ap (λ es. es ++ more_events) e
      ∙ append_assoc (traces h) begun more_events
      ∙ ap (λ es. traces h ++ es) f
      ∙ sym (traces-snoc h job replies)
      ∙ sym (append-nil (traces (h ++ (job, replies) ∷ [])));
  begun_is = refl;
  taken_are =
      g ∙ sym (jobs_of-snoc h job replies) ∙ sym (append-nil (jobs_of (h ++ (job, replies) ∷ [])));
}

-- An idle worker has begun nothing.
at_rest :
    (events : List Event) (taken : List ProveJob) (tr : IsTraced idle events taken)
    → (events ≡ traces tr.history) × (taken ≡ jobs_of tr.history)
at_rest events taken tr = (
  tr.events_are ∙ ap (λ es. traces tr.history ++ es) tr.begun_is ∙ append-nil (traces tr.history),
  tr.taken_are ∙ append-nil (jobs_of tr.history),
)

pub open_job :
    (events : List Event) (taken : List ProveJob) (job : ProveJob) (job_id : ℕ)
    → IsTraced idle events taken
    → IsTraced (submitted job job_id) (events ++ opened job job_id) (taken ++ job ∷ [])
open_job events taken job job_id tr =
    let (e, f) = at_rest events taken tr in
    record {
      history = tr.history;
      begun = opened job job_id;
      events_are = ap (λ es. es ++ opened job job_id) e;
      begun_is = refl;
      taken_are = ap (λ js. js ++ job ∷ []) f;
    }

pub register_job_at :
    (events : List Event) (taken : List ProveJob) (job : ProveJob) (job_id channel : ℕ)
    → IsTraced (submitted job job_id) events taken
    → IsTraced (waiting job channel) (events ++ registered job_id ∷ []) taken
register_job_at events taken job job_id channel tr = record {
  history = tr.history;
  begun = tr.begun ++ registered job_id ∷ [];
  events_are =
      ap (λ es. es ++ registered job_id ∷ []) tr.events_are
      ∙ append_assoc (traces tr.history) tr.begun (registered job_id ∷ []);
  begun_is = (job_id, ap (λ es. es ++ registered job_id ∷ []) tr.begun_is);
  taken_are = tr.taken_are;
}

pub finish_job :
    (events : List Event) (taken : List ProveJob) (job : ProveJob) (channel : ℕ)
    (payload : WebhookPayload) (removed : Bool)
    → IsTraced (waiting job channel) events taken
    → IsTraced idle (events ++ upload job removed (verdict_of payload)) taken
unfolding process_job
finish_job events taken job channel payload removed tr =
    let (job_id, e) = tr.begun_is in
    let uploaded = upload job removed (verdict_of payload) in
    close events uploaded taken job (answered job_id payload removed) tr.history tr.begun
      tr.events_are (ap (λ es. es ++ uploaded) e) tr.taken_are

pub give_up_job :
    (events : List Event) (taken : List ProveJob) (job : ProveJob) (written : Bool)
    → IsTraced idle events taken
    → IsTraced idle
        (events
          ++ proving job.block_number
            ∷ (if written then wrote_input job.block_number job.zkvm_input ∷ [] else []))
        (taken ++ job ∷ [])
give_up_job events taken job written tr =
    let (e, f) = at_rest events taken tr in
    close events _ (taken ++ job ∷ []) job (given_up written) tr.history []
      (e ∙ sym (append-nil (traces tr.history))) (sym (process_job-given_up job written))
      (ap (λ js. js ++ job ∷ []) f)
