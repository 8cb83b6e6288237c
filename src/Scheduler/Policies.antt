-- ===== src/Scheduler/Policies.antt =====
-- The two admission policies of src/flux/engine/scheduler.py: how many sequences `admit` lets in, and in
-- which order.
use flux_llm_inference_engin.Prelude.{
  ℕ, zero, suc, ◌+◌, ◌-◌, ◌≤◌, List, [], ◌∷◌, ◌++◌, ◌≡◌, refl, sym, subst, ◌∙◌, ap, Option, none,
  some, Bool, true, false, arith, if_ind, length,
}
use flux_llm_inference_engin.Sequence.{Sequence}
use flux_llm_inference_engin.Scheduler.{
  Scheduler, Policy, fcfs, pop_one, pop_from, push_front, first, fits, try_allocate, attempt,
  fcfs_candidate, fcfs_round, round, admit_loop, admit_more, admit,
}
use flux_llm_inference_engin.Scheduler.Books.{Allocates, try_allocate-Allocates}
use flux_llm_inference_engin.Scheduler.Moved.{IsReady, ids, admitted_ids}
use flux_llm_inference_engin.Scheduler.Admission.{pop-Taken, round-Moves}

module _ {V L : Type 0} where
  length-admit_more :
      (room : ℕ) (o : Option (Sequence V L)) (mid : Scheduler V L)
      (rest : List (Sequence V L) × Scheduler V L)
      → length rest.0 ≤ room
      → length (admit_more o mid rest).0 ≤ suc room
  length-admit_more room none mid rest h = omega arith
  length-admit_more room (some seq) mid rest h = omega arith

  length-admit_loop :
      (now : ℕ) (policy : Policy) (room : ℕ) (sched : Scheduler V L)
      → length (admit_loop now policy room sched).0 ≤ room
  unfolding admit_loop
  length-admit_loop now policy zero sched = omega arith
  length-admit_loop now policy (suc room) sched =
      length-admit_more room (round now policy sched).0 (round now policy sched).1 _
        (length-admit_loop now policy room (round now policy sched).1)

  -- With the sequences that run, those admitted never make up more than a full batch.
  pub length-admit :
      (now : ℕ) (sched : Scheduler V L) (running_count : ℕ)
      → running_count ≤ sched.max_batch
      → running_count + length (admit now sched running_count).0 ≤ sched.max_batch
  unfolding admit
  length-admit now sched running_count h =
      omega (arith, length-admit_loop now sched.policy (sched.max_batch - running_count) sched)

  attempt_order :
      (taken : Scheduler V L) (seq : Sequence V L) (done : Bool × Scheduler V L × Sequence V L)
      → Allocates taken seq done
      → admitted_ids (attempt done).0 ++ ids (attempt done).1.queue.waiting_list
        ≡ seq.id ∷ ids taken.queue.waiting_list
  unfolding push_front
  attempt_order taken seq (true, sched', seq') a = rw (a.same_id, a.queue)
  attempt_order taken seq (false, sched', seq') a = rw (a.same_id, a.queue)

  candidate_order :
      (now : ℕ) (sched : Scheduler V L) (q : List (Sequence V L))
      → sched.queue.waiting_list ≡ q
      → IsReady sched
      → let done = fcfs_candidate now sched (first q) in
        admitted_ids done.0 ++ ids done.1.queue.waiting_list ≡ ids q
  unfolding pop_one
  candidate_order now sched [] e r = ap ids e
  candidate_order now sched (seq ∷ q) e r =
      let taken = record sched { queue = (pop_from sched.queue sched.queue.waiting_list).1 } in
      let t = pop-Taken sched seq sched.queue.waiting_list refl (ap first e) r in
      if_ind
        (λ (done : Option (Sequence V L) × Scheduler V L).
          admitted_ids done.0 ++ ids done.1.queue.waiting_list ≡ ids (seq ∷ q))
        (fits sched seq)
        (λ _.
          attempt_order taken seq (try_allocate now taken seq)
            (try_allocate-Allocates now taken seq r.books t.unallocated)
          ∙ ap (λ l. seq.id ∷ ids (pop_from sched.queue l).1.waiting_list) e)
        (λ _. ap ids e)

  more_order :
      (o : Option (Sequence V L)) (mid : Scheduler V L) (rest : List (Sequence V L) × Scheduler V L)
      (before : List ℕ)
      → admitted_ids o ++ ids mid.queue.waiting_list ≡ before
      → ids rest.0 ++ ids rest.1.queue.waiting_list ≡ ids mid.queue.waiting_list
      → let done = admit_more o mid rest in ids done.0 ++ ids done.1.queue.waiting_list ≡ before
  more_order none mid rest before h k = h
  more_order (some seq) mid rest before h k = ap (λ l. seq.id ∷ l) k ∙ h

  loop_order :
      (now room : ℕ) (sched : Scheduler V L)
      → IsReady sched
      → let done = admit_loop now fcfs room sched in
        ids done.0 ++ ids done.1.queue.waiting_list ≡ ids sched.queue.waiting_list
  unfolding admit_loop fcfs_round
  loop_order now zero sched r = refl
  loop_order now (suc room) sched r =
      let mid = (fcfs_round now sched).1 in
      more_order (fcfs_round now sched).0 mid (admit_loop now fcfs room mid) _
        (candidate_order now sched sched.queue.waiting_list refl r)
        (loop_order now room mid (round-Moves now fcfs sched r).ready)

  -- First come, first served: those admitted, in order, and then those who still wait are the queue
  -- as it was, also where an allocation fails after the head was taken out.
  pub admit-fcfs :
      (now : ℕ) (sched : Scheduler V L) (running_count : ℕ)
      → sched.policy ≡ fcfs
      → IsReady sched
      → let done = admit now sched running_count in
        ids done.0 ++ ids done.1.queue.waiting_list ≡ ids sched.queue.waiting_list
  unfolding admit
  admit-fcfs now sched running_count p r =
      subst
        (λ policy.
          let done = admit_loop now policy (sched.max_batch - running_count) sched in
          ids done.0 ++ ids done.1.queue.waiting_list ≡ ids sched.queue.waiting_list)
        (sym p) (loop_order now (sched.max_batch - running_count) sched r)
