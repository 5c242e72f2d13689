-- ===== src/Gevulot3/Queue/Bounds.antt =====
-- What a new job does to the prove queue: its size, and the jobs that it drops.
use reth_proofs.Prelude.{
  ℕ, zero, suc, ◌≤◌, ◌<◌, ◌≡◌, refl, ap, sym, ◌∙◌, sym, true, false, List, [], ◌∷◌, ◌++◌, length,
  length-append, ltb, ◌⊎◌, inl, inr, arith, Bool-cases,
}
use reth_proofs.Gevulot3.{ProveJob, RunArgs}
use reth_proofs.Gevulot3.Channels.{Channels, ChannelLaws}
use reth_proofs.Gevulot3.Queue.{queued, taken, drain, drain_and_send, enqueue}

module _ (c : Channels) (laws : ChannelLaws c) where
  pub list_cases :
      (xs : List ProveJob) → (xs ≡ []) ⊎ ((j : ProveJob) × (js : List ProveJob) × (xs ≡ j ∷ js))
  list_cases [] = inl refl
  list_cases (j ∷ js) = inr (j, js, refl)

  -- A drain on fuel for all the jobs takes all of them, in order.
  drain_all :
      (fuel : ℕ) (q : c.Queue)
      → length (laws.jobs q) ≤ fuel
      → (left : c.Queue) × (drain c fuel q ≡ (laws.jobs q, left))
        × (laws.jobs left ≡ [])
        × (laws.capacity left ≡ laws.capacity q)
        × (laws.closed left ≡ laws.closed q)
  unfolding drain
  drain_all zero q le =
      let empty : laws.jobs q ≡ [] = ground (arith, le) in (q, rw empty, empty, refl, refl)
  drain_all (suc fuel) q le = elim (list_cases (laws.jobs q)) [
    | inl empty ↦ (
      q,
      ap (taken c q (drain c fuel)) (laws.try_recv-empty q empty) ∙ ap (λ js. (js, q)) (sym empty),
      empty,
      refl,
      refl,
    )
    | inr (j, js, e) ↦
        let (q', took, rest, same, open_still) = laws.try_recv-first q j js e in
        let (left, d, none_left, capacity, closed) =
          drain_all fuel q' (ground (arith, le, rest, e)) in
        let all : j ∷ laws.jobs q' ≡ laws.jobs q = ap (λ r. j ∷ r) rest ∙ sym e in
        (
          left,
          ap (taken c q (drain c fuel)) took
              ∙ ap (λ (r : List ProveJob × c.Queue). (j ∷ r.0, r.1)) d
              ∙ ap (λ js. (js, left)) all,
          none_left,
          capacity ∙ same,
          closed ∙ open_still,
        )
  ]

  -- What an enqueued job does to an open queue: the dropped jobs, if any, are all that waited.
  abbrev pub IsEnqueued : RunArgs → c.Queue → ProveJob → List ProveJob → c.Queue → Type 0
  IsEnqueued args q job dropped q' =
      (((dropped ≡ [])
          × (laws.jobs q' ≡ laws.jobs q ++ job ∷ [])
          × (args.skip_pending_blocks ≡ false)
          × (length (laws.jobs q) < laws.capacity q))
        ⊎ ((dropped ≡ laws.jobs q)
            × (laws.jobs q' ≡ job ∷ [])
            × ((args.skip_pending_blocks ≡ true) ⊎ (laws.capacity q ≤ length (laws.jobs q)))))
      × (dropped ++ laws.jobs q' ≡ laws.jobs q ++ job ∷ [])
      × (length (laws.jobs q') ≤ laws.capacity q)
      × (laws.capacity q' ≡ laws.capacity q)
      × (laws.closed q' ≡ false)

  drain_and_send_lem :
      (fuel : ℕ) (q : c.Queue) (job : ProveJob)
      → laws.closed q ≡ false
      → 0 < laws.capacity q
      → length (laws.jobs q) ≤ fuel
      → (q' : c.Queue) × (drain_and_send c fuel q job ≡ queued (laws.jobs q) q')
        × (laws.jobs q' ≡ job ∷ [])
        × (laws.capacity q' ≡ laws.capacity q)
        × (laws.closed q' ≡ false)
  unfolding drain_and_send
  drain_and_send_lem fuel q job open_queue room le =
      let (left, d, empty, same, still) = drain_all fuel q le in
      let left_open = still ∙ open_queue in
      let fits : length (laws.jobs left) < laws.capacity left = ground (arith, empty, same, room) in
      let (q', e, jobs, capacity, closed) = laws.try_send-room left job left_open fits in
      (
        q',
        rw (d, laws.send-room left job left_open fits, e),
        rw empty at jobs,
        capacity ∙ same,
        closed,
      )

  -- A queue that is open, of the configured capacity, if that is not zero, and within it, always
  -- takes the new job without waiting. Either there was room, no pending blocks are to be skipped,
  -- and the job comes last; or all that waited is dropped, since they are to be skipped or the
  -- queue is full, and the job is alone. The dropped jobs, then the queue, are what waited and the
  -- job, in order; the queue is within its capacity and stays open.
  pub enqueue_lem :
      (args : RunArgs) (q : c.Queue) (job : ProveJob)
      → laws.closed q ≡ false
      → laws.capacity q ≡ args.prove_queue_capacity
      → 0 < args.prove_queue_capacity
      → length (laws.jobs q) ≤ args.prove_queue_capacity
      → (dropped : List ProveJob) × (q' : c.Queue) × (enqueue c args q job ≡ queued dropped q')
        × IsEnqueued args q job dropped q'
  unfolding enqueue
  enqueue_lem args q job open_queue size room within =
      let jobs = laws.jobs q in
      let (alone, drained, only, same, closed) =
        drain_and_send_lem args.prove_queue_capacity q job open_queue (omega (arith, size, room))
          within in
      let short : length (laws.jobs alone) ≤ laws.capacity q = ground (arith, only, size, room) in
      let kept : jobs ++ laws.jobs alone ≡ jobs ++ job ∷ [] = ap (λ js. jobs ++ js) only in
      elim (Bool-cases args.skip_pending_blocks) [
        | inl skip ↦ (
          jobs,
          alone,
          rw (skip, drained),
          (inr (refl, only, inl skip), kept, short, same, closed),
        )
        | inr keep ↦ elim (Bool-cases (ltb (length jobs) (laws.capacity q))) [
          | inl fits ↦
              let lt : length jobs < laws.capacity q = ground (arith, fits) in
              let (q', e, last, same', still) = laws.try_send-room q job open_queue lt in
              (
                [],
                q',
                rw (keep, e),
                (
                  inl (refl, last, keep, lt),
                  last,
                  ground (arith, last, lt, length-append jobs (job ∷ [])),
                  same',
                  still,
                ),
              )
          | inr no_room ↦
              let le : laws.capacity q ≤ length jobs = ground (arith, no_room) in
              (
                jobs,
                alone,
                rw (keep, laws.try_send-full q job open_queue le, drained),
                (inr (refl, only, inr le), kept, short, same, closed),
              )
        ]
      ]
