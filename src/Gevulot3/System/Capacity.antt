-- ===== src/Gevulot3/System/Capacity.antt =====
-- The bound of the prove queue, which every step of the tasks keeps.
use reth_proofs.Prelude.{◌≡◌, ◌≤◌, ◌<◌, false, some, arith, ◌∙◌, subst, length, inl, inr}
use reth_proofs.Gevulot3.{ProveJob, RunArgs}
use reth_proofs.Gevulot3.Channels.{Channels, ChannelLaws}
use reth_proofs.Gevulot3.Queue.Bounds.{list_cases, enqueue_lem}
use reth_proofs.Gevulot3.System.{
  System, start, Step, new_block, submit, fail, wait, webhook, result,
}

module _ (c : Channels) (laws : ChannelLaws c) where
  abbrev pub IsBounded : RunArgs → c.Queue → Type 0
  IsBounded args q =
      (laws.capacity q ≡ args.prove_queue_capacity)
      × (length (laws.jobs q) ≤ args.prove_queue_capacity)
      × (laws.closed q ≡ false)

  -- Receiving a job leaves a queue with fewer.
  try_recv-IsBounded :
      (args : RunArgs) (q q' : c.Queue) (job : ProveJob)
      → c.try_recv q ≡ some (job, q')
      → IsBounded args q
      → IsBounded args q'
  try_recv-IsBounded args q q' job e (size, le, open_queue) =
      elim (list_cases c laws (laws.jobs q)) [
        | inl empty ↦ absurd (ground (arith, e, laws.try_recv-empty q empty))
        | inr (j, js, f) ↦
            let (taken, got, rest, same, still) = laws.try_recv-first q j js f in
            let one : taken ≡ q' = ground (arith, e, got) in
            subst (IsBounded args) one
              (same ∙ size, ground (arith, rest, le, f), still ∙ open_queue)
      ]

  pub Step-IsBounded :
      (args : RunArgs) {s t : System c}
      → 0 < args.prove_queue_capacity
      → Step c args s t
      → IsBounded args s.queue
      → IsBounded args t.queue
  Step-IsBounded args {s} room (new_block job dropped queue e) (size, le, open_queue) =
      let (_, after, f, (_, _, fits, kept, still)) =
        enqueue_lem c laws args s.queue job open_queue size room le in
      let one : after ≡ queue = ground (arith, e, f) in
      subst (IsBounded args) one (kept ∙ size, omega (arith, fits, size), still)
  Step-IsBounded args {s} room (submit job queue job_id e f g) bounded =
      try_recv-IsBounded args s.queue queue job f bounded
  Step-IsBounded args {s} room (fail job queue written e f) bounded =
      try_recv-IsBounded args s.queue queue job f bounded
  Step-IsBounded args room (wait job job_id e) bounded = bounded
  Step-IsBounded args room (webhook payload e) bounded = bounded
  Step-IsBounded args room (result job channel payload removed e f) bounded = bounded

  pub start-IsBounded : (args : RunArgs) → IsBounded args (start c args).queue
  start-IsBounded args =
      let n = args.prove_queue_capacity in
      let empty = laws.jobs-bounded n in
      (laws.capacity-bounded n, ground (arith, empty), laws.closed-bounded n)
