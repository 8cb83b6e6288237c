-- ===== src/Scheduler/Limits.antt =====
-- The calls of admit in src/flux/engine/scheduler.py leave the scheduler's bounds as they are.
use flux_llm_inference_engin.Prelude.{
  ℕ, zero, suc, ◌-◌, List, [], ◌∷◌, ◌≡◌, refl, ap, ◌∙◌, Option, none, some, Bool, true, false,
  if_ind,
}
use flux_llm_inference_engin.Sequence.{Sequence, reservation_tokens}
use flux_llm_inference_engin.Pool.{BlockPool, allocate}
use flux_llm_inference_engin.Prefix.{PrefixCache, PrefixHit}
use flux_llm_inference_engin.Scheduler.{
  Scheduler, RequestQueue, Policy, fcfs, memory_fit, fits, first_fit, pop_one, pop_from, push_front,
  remove, peek_one, lookup_at, allocated, allocate_at, try_allocate, attempt, fcfs_candidate,
  fcfs_round, fit_candidate, memory_fit_round, round, admit_more, admit_loop, admit, need_after,
}
use flux_llm_inference_engin.Scheduler.Moved.{ids}

module _ {V L : Type 0} where
  -- The bounds that a scheduler is made with: those of its batch and of its queue.
  abbrev pub bounds_of : Scheduler V L → ℕ × ℕ
  bounds_of sched = (sched.max_batch, sched.queue.max_waiting)

  bounds-lookup_at :
      (now : ℕ) (token_ids : List ℕ) (sched : Scheduler V L) (o : Option (PrefixCache V L))
      → bounds_of (lookup_at now token_ids sched o).1 ≡ bounds_of sched
  bounds-lookup_at now token_ids sched none = refl
  bounds-lookup_at now token_ids sched (some cache) = refl

  bounds-allocated :
      (sched : Scheduler V L) (seq : Sequence V L) (hit : Option (PrefixHit V L))
      (o : Option (List ℕ × BlockPool × Sequence V L))
      → bounds_of (allocated sched seq hit o).1 ≡ bounds_of sched
  bounds-allocated sched seq hit none = refl
  bounds-allocated sched seq hit (some (ids, pool, seq')) = refl

  bounds-allocate_at :
      (sched : Scheduler V L) (seq : Sequence V L) (hit : Option (PrefixHit V L))
      (o : Option BlockPool)
      → bounds_of (allocate_at sched seq hit o).1 ≡ bounds_of sched
  bounds-allocate_at sched seq hit none = refl
  bounds-allocate_at sched seq hit (some pool) =
      bounds-allocated sched seq hit (allocate pool seq (need_after (reservation_tokens seq) hit))

  bounds-try_allocate :
      (now : ℕ) (sched : Scheduler V L) (seq : Sequence V L)
      → bounds_of (try_allocate now sched seq).1 ≡ bounds_of sched
  unfolding try_allocate
  bounds-try_allocate now sched seq =
      let found = lookup_at now seq.prompt_ids sched sched.prefix_cache in
      bounds-allocate_at found.1 seq found.0 found.1.pool
      ∙ bounds-lookup_at now seq.prompt_ids sched sched.prefix_cache

  bounds-attempt :
      (done : Bool × Scheduler V L × Sequence V L) → bounds_of (attempt done).1 ≡ bounds_of done.1
  unfolding push_front
  bounds-attempt (true, sched, seq) = refl
  bounds-attempt (false, sched, seq) = refl

  bounds-pop_from :
      (queue : RequestQueue V L) (q : List (Sequence V L))
      → (pop_from queue q).1.max_waiting ≡ queue.max_waiting
  bounds-pop_from queue [] = refl
  bounds-pop_from queue (seq ∷ rest) = refl

  bounds-fcfs_candidate :
      (now : ℕ) (sched : Scheduler V L) (o : Option (Sequence V L))
      → bounds_of (fcfs_candidate now sched o).1 ≡ bounds_of sched
  unfolding pop_one
  bounds-fcfs_candidate now sched none = refl
  bounds-fcfs_candidate now sched (some seq) =
      let popped = record sched { queue = (pop_from sched.queue sched.queue.waiting_list).1 } in
      if_ind (λ (done : Option (Sequence V L) × Scheduler V L). bounds_of done.1 ≡ bounds_of sched)
        (fits sched seq)
        (λ _.
          bounds-attempt (try_allocate now popped seq)
          ∙ bounds-try_allocate now popped seq
          ∙ ap (λ n. (sched.max_batch, n)) (bounds-pop_from sched.queue sched.queue.waiting_list))
        (λ _. refl)

  bounds-fit_candidate :
      (now : ℕ) (sched : Scheduler V L) (o : Option (Sequence V L))
      → bounds_of (fit_candidate now sched o).1 ≡ bounds_of sched
  unfolding remove
  bounds-fit_candidate now sched none = refl
  bounds-fit_candidate now sched (some seq) =
      let taken = record sched { queue = (remove sched.queue seq).0 } in
      bounds-attempt (try_allocate now taken seq) ∙ bounds-try_allocate now taken seq

  bounds-round :
      (now : ℕ) (policy : Policy) (sched : Scheduler V L)
      → bounds_of (round now policy sched).1 ≡ bounds_of sched
  unfolding fcfs_round memory_fit_round
  bounds-round now fcfs sched = bounds-fcfs_candidate now sched (peek_one sched.queue)
  bounds-round now memory_fit sched =
      bounds-fit_candidate now sched (first_fit sched sched.queue.waiting_list)

  bounds-admit_more :
      (o : Option (Sequence V L)) (mid : Scheduler V L) (rest : List (Sequence V L) × Scheduler V L)
      → bounds_of rest.1 ≡ bounds_of mid
      → bounds_of (admit_more o mid rest).1 ≡ bounds_of mid
  bounds-admit_more none mid rest h = refl
  bounds-admit_more (some seq) mid rest h = h

  bounds-admit_loop :
      (now : ℕ) (policy : Policy) (room : ℕ) (sched : Scheduler V L)
      → bounds_of (admit_loop now policy room sched).1 ≡ bounds_of sched
  unfolding admit_loop
  bounds-admit_loop now policy zero sched = refl
  bounds-admit_loop now policy (suc room) sched =
      let one = round now policy sched in
      bounds-admit_more one.0 one.1 (admit_loop now policy room one.1)
        (bounds-admit_loop now policy room one.1)
      ∙ bounds-round now policy sched

  pub bounds-admit :
      (now : ℕ) (sched : Scheduler V L) (running_count : ℕ)
      → bounds_of (admit now sched running_count).1 ≡ bounds_of sched
  unfolding admit
  bounds-admit now sched running_count =
      bounds-admit_loop now sched.policy (sched.max_batch - running_count) sched
