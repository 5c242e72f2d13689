-- ===== src/Gevulot3/System/Order.antt =====
-- The order in which blocks leave the prove queue of gevulot3, over every order of the tasks' steps.
use reth_proofs.Prelude.{
  ◌≡◌, ◌<◌, refl, some, List, [], ◌∷◌, ◌++◌, map, arith, ap, sym, ◌∙◌, inl, inr,
}
use mathlib.Core.List.{map-append, append_assoc, append-nil}
use reth_proofs.Gevulot3.{ProveJob, RunArgs}
use reth_proofs.Gevulot3.Channels.{Channels, ChannelLaws}
use reth_proofs.Gevulot3.Queue.Bounds.{list_cases, enqueue_lem}
use reth_proofs.Gevulot3.System.{
  System, start, Step, new_block, submit, fail, wait, webhook, result, Steps, done, more,
}
use reth_proofs.Gevulot3.System.Capacity.{IsBounded, Step-IsBounded, start-IsBounded}

-- A job leaves the queue for the worker, or is dropped by the main loop.
pub data Departure : Type 0 where
  to_worker : ProveJob → Departure
  dropped_job : ProveJob → Departure

abbrev pub job_of : Departure → ProveJob
job_of (to_worker job) = job
job_of (dropped_job job) = job

-- The jobs that the worker took.
abbrev pub worked : List Departure → List ProveJob
worked [] = []
worked (to_worker job ∷ departures) = job ∷ worked departures
worked (dropped_job job ∷ departures) = worked departures

pub worked-append : (ds es : List Departure) → worked (ds ++ es) ≡ worked ds ++ worked es
worked-append [] es = refl
worked-append (to_worker job ∷ ds) es = ap (λ js. job ∷ js) (worked-append ds es)
worked-append (dropped_job job ∷ ds) es = worked-append ds es

abbrev pub all_dropped : List ProveJob → List Departure
all_dropped [] = []
all_dropped (job ∷ jobs) = dropped_job job ∷ all_dropped jobs

pub worked-all_dropped : (jobs : List ProveJob) → worked (all_dropped jobs) ≡ []
worked-all_dropped [] = refl
worked-all_dropped (job ∷ jobs) = worked-all_dropped jobs

map-all_dropped : (jobs : List ProveJob) → map job_of (all_dropped jobs) ≡ jobs
map-all_dropped [] = refl
map-all_dropped (job ∷ jobs) = ap (λ js. job ∷ js) (map-all_dropped jobs)

module _ (c : Channels) (args : RunArgs) where
  -- The jobs that a step puts into the queue, and those that it takes out.
  abbrev pub arrival : {s t : System c} → Step c args s t → List ProveJob
  arrival (new_block job dropped queue e) = job ∷ []
  arrival (submit job queue job_id e f g) = []
  arrival (fail job queue written e f) = []
  arrival (wait job job_id e) = []
  arrival (webhook payload e) = []
  arrival (result job channel payload removed e f) = []

  abbrev pub departure : {s t : System c} → Step c args s t → List Departure
  departure (new_block job dropped queue e) = all_dropped dropped
  departure (submit job queue job_id e f g) = to_worker job ∷ []
  departure (fail job queue written e f) = to_worker job ∷ []
  departure (wait job job_id e) = []
  departure (webhook payload e) = []
  departure (result job channel payload removed e f) = []

  abbrev pub arrivals : {s t : System c} → Steps c args s t → List ProveJob
  arrivals done = []
  arrivals (more step steps) = arrival step ++ arrivals steps

  abbrev pub departures : {s t : System c} → Steps c args s t → List Departure
  departures done = []
  departures (more step steps) = departure step ++ departures steps

  module _ (laws : ChannelLaws c) where
    -- What a receive takes out stood first.
    pub try_recv-jobs :
        (q q' : c.Queue) (job : ProveJob)
        → c.try_recv q ≡ some (job, q')
        → laws.jobs q ≡ job ∷ laws.jobs q'
    try_recv-jobs q q' job e = elim (list_cases c laws (laws.jobs q)) [
      | inl empty ↦ absurd (ground (arith, e, laws.try_recv-empty q empty))
      | inr (j, js, f) ↦
          let (taken, got, rest, _, _) = laws.try_recv-first q j js f in
          let one : taken ≡ q' = ground (arith, e, got) in
          let same : j ≡ job = ground (arith, e, got) in
          f ∙ ap (λ i. i ∷ js) same ∙ ap (λ r. job ∷ r) (sym rest ∙ ap laws.jobs one)
    ]

    Step-order :
        {s t : System c} (step : Step c args s t)
        → 0 < args.prove_queue_capacity
        → IsBounded c laws args s.queue
        → laws.jobs s.queue ++ arrival step ≡ map job_of (departure step) ++ laws.jobs t.queue
    Step-order {s} (new_block job dropped queue e) room (size, le, open_queue) =
        let (gone, after, f, (_, kept, _, _, _)) =
          enqueue_lem c laws args s.queue job open_queue size room le in
        let one : after ≡ queue = ground (arith, e, f) in
        let same : gone ≡ dropped = ground (arith, e, f) in
        sym kept
        ∙ ap (λ q. gone ++ laws.jobs q) one
        ∙ ap (λ js. js ++ laws.jobs queue) (same ∙ sym (map-all_dropped dropped))
    Step-order {s} (submit job queue job_id e f g) room bounded =
        append-nil (laws.jobs s.queue) ∙ try_recv-jobs s.queue queue job f
    Step-order {s} (fail job queue written e f) room bounded =
        append-nil (laws.jobs s.queue) ∙ try_recv-jobs s.queue queue job f
    Step-order {s} (wait job job_id e) room bounded = append-nil (laws.jobs s.queue)
    Step-order {s} (webhook payload e) room bounded = append-nil (laws.jobs s.queue)
    Step-order {s} (result job channel payload removed e f) room bounded =
        append-nil (laws.jobs s.queue)

    Steps-order :
        {s t : System c} (steps : Steps c args s t)
        → 0 < args.prove_queue_capacity
        → IsBounded c laws args s.queue
        → laws.jobs s.queue ++ arrivals steps ≡ map job_of (departures steps) ++ laws.jobs t.queue
    Steps-order {s} done room bounded = append-nil (laws.jobs s.queue)
    Steps-order {s} {t} (more {t = u} step steps) room bounded =
        let here = Step-order step room bounded in
        let there = Steps-order steps room (Step-IsBounded c laws args room step bounded) in
        sym (append_assoc (laws.jobs s.queue) (arrival step) (arrivals steps))
        ∙ ap (λ js. js ++ arrivals steps) here
        ∙ append_assoc (map job_of (departure step)) (laws.jobs u.queue) (arrivals steps)
        ∙ ap (λ js. map job_of (departure step) ++ js) there
        ∙ sym (
            append_assoc (map job_of (departure step)) (map job_of (departures steps))
              (laws.jobs t.queue))
        ∙ ap (λ js. js ++ laws.jobs t.queue)
            (sym (map-append job_of (departure step) (departures steps)))

    -- Whatever steps the tasks take from the start, if the queue's capacity is not zero, blocks
    -- leave the queue in the order in which they were prepared, each once, to the worker or
    -- dropped: those that left and then those that wait are all that were prepared.
    pub arrivals-departures :
        (s : System c) (steps : Steps c args (start c args) s)
        → 0 < args.prove_queue_capacity
        → arrivals steps ≡ map job_of (departures steps) ++ laws.jobs s.queue
    arrivals-departures s steps room =
        ap (λ js. js ++ arrivals steps) (sym (laws.jobs-bounded args.prove_queue_capacity))
        ∙ Steps-order steps room (start-IsBounded c laws args)
