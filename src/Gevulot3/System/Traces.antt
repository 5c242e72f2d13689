-- ===== src/Gevulot3/System/Traces.antt =====
-- The worker in the whole of gevulot3 against the worker on its own: what all the tasks together do
-- to the outside against what `process_job` does for one job after another.
use reth_proofs.Prelude.{◌≡◌, refl, List, [], ◌∷◌, ◌++◌, ap, sym, subst, ◌∙◌}
use mathlib.Core.List.{append_assoc, append-nil}
use reth_proofs.Gevulot3.{ProveJob, RunArgs}
use reth_proofs.Gevulot3.Channels.{Channels}
use reth_proofs.Gevulot3.Worker.{Event}
use reth_proofs.Gevulot3.System.{
  System, start, give_up, Step, new_block, submit, fail, wait, webhook, result, Steps, done, more,
}
use reth_proofs.Gevulot3.System.History.{
  History, jobs_of, traces, in_hand, IsAt, IsTraced, open_job, register_job_at, finish_job,
  give_up_job,
}
use reth_proofs.Gevulot3.System.Order.{
  worked, worked-append, worked-all_dropped, departure, departures,
}

module _ (c : Channels) (args : RunArgs) where
  abbrev pub Traced : System c → List ProveJob → Type 0
  Traced s taken = IsTraced s.worker s.events taken

  Step-Traced :
      {s t : System c} (step : Step c args s t) (taken : List ProveJob)
      → Traced s taken
      → Traced t (taken ++ worked (departure c args step))
  Step-Traced {s} (new_block job dropped queue e) taken tr =
      subst (Traced s)
        (sym (ap (λ js. taken ++ js) (worked-all_dropped dropped) ∙ append-nil taken)) tr
  Step-Traced {s} (submit job queue job_id e f g) taken tr =
      open_job s.events taken job job_id (subst (λ w. IsTraced w s.events taken) e tr)
  Step-Traced {s} (fail job queue written e f) taken tr =
      let after = give_up_job s.events taken job written in
      subst (λ w. IsTraced w (give_up c s job queue written).events (taken ++ job ∷ [])) (sym e)
        (after (subst (λ w. IsTraced w s.events taken) e tr))
  Step-Traced {s} {t} (wait job job_id e) taken tr =
      subst (Traced t) (sym (append-nil taken))
        (register_job_at s.events taken job job_id _ (subst (λ w. IsTraced w s.events taken) e tr))
  Step-Traced {t} (webhook payload e) taken tr = subst (Traced t) (sym (append-nil taken)) tr
  Step-Traced {s} {t} (result job channel payload removed e f) taken tr =
      subst (Traced t) (sym (append-nil taken)) (
        finish_job s.events taken job channel payload removed
          (subst (λ w. IsTraced w s.events taken) e tr))

  Steps-Traced :
      {s t : System c} (steps : Steps c args s t) (taken : List ProveJob)
      → Traced s taken
      → Traced t (taken ++ worked (departures c args steps))
  Steps-Traced {s} done taken tr = subst (Traced s) (sym (append-nil taken)) tr
  Steps-Traced {t} (more step steps) taken tr =
      let here = departure c args step in
      let there = departures c args steps in
      subst (Traced t)
        (append_assoc taken (worked here) (worked there)
          ∙ ap (λ js. taken ++ js) (sym (worked-append here there)))
        (Steps-Traced steps (taken ++ worked here) (Step-Traced step taken tr))

  -- Whatever steps the tasks take, what they do to the outside is what `process_job` does for some of
  -- the jobs, one after another, and what the worker has begun for the job in its hand; these are the
  -- jobs that left the queue for the worker, in that order.
  pub Steps-process_job :
      (s : System c) (steps : Steps c args (start c args) s)
      → (history : History) × (begun : List Event) × (s.events ≡ traces history ++ begun)
        × IsAt s.worker begun
        × (worked (departures c args steps) ≡ jobs_of history ++ in_hand s.worker)
  Steps-process_job s steps =
      let none_yet : Traced (start c args) [] = record {
        history = [];
        begun = [];
        events_are = refl;
        begun_is = refl;
        taken_are = refl;
      } in
      let tr = Steps-Traced steps [] none_yet in
      (tr.history, tr.begun, tr.events_are, tr.begun_is, tr.taken_are)
