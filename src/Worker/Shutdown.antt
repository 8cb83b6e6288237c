-- ===== src/Worker/Shutdown.antt =====
-- `_abort_leftovers` of src/flux/engine/worker.py: when the worker stops, no client is left waiting.
use flux_llm_inference_engin.Prelude.{
  List, [], ◌∷◌, ◌++◌, ◌≡◌, refl, ap, ◌∙◌, Option, none, some, true, if_ind, if◌then◌else◌, All,
}
use flux_llm_inference_engin.Sequence.{Sequence, aborted}
use flux_llm_inference_engin.Pool.{BlockPool, free}
use flux_llm_inference_engin.Scheduler.{Scheduler, RequestQueue, release_in, pop_one, pop_from}
use flux_llm_inference_engin.Scheduler.Moved.{ids}
use flux_llm_inference_engin.Worker.{
  Worker, stopped, free_at, release_seq, abort_one, sweep, abort_waiting, abort_leftovers,
}

module _ {V L : Type 0} where
  abbrev pub IsWoken : Sequence V L → Type 0
  IsWoken seq = seq.finished_event ≡ true

  -- What ends a sequence leaves of the scheduler's queue and of the sequence's id.
  free_at-queue :
      (seq : Sequence V L) (sched : Scheduler V L) (o : Option BlockPool)
      → ((free_at seq sched o).1.queue ≡ sched.queue) × ((free_at seq sched o).0.id ≡ seq.id)
  unfolding free
  free_at-queue seq sched none = (refl, refl)
  free_at-queue seq sched (some pool) = (refl, refl)

  pub abort_one-queue :
      (seq : Sequence V L) (sched : Scheduler V L)
      → ((abort_one seq sched).1.queue ≡ sched.queue) × ((abort_one seq sched).0.id ≡ seq.id)
  unfolding abort_one release_seq
  abort_one-queue seq sched =
      let mid = release_in seq.prefix_key sched in
      free_at-queue (record seq { status = aborted }) mid mid.pool

  abort_one-IsWoken : (seq : Sequence V L) (sched : Scheduler V L) → IsWoken (abort_one seq sched).0
  unfolding abort_one
  abort_one-IsWoken seq sched = refl

  -- All of a list of sequences are woken, in order, and the queue is as it says.
  pub record Woken (before left : List (Sequence V L)) (done : List (Sequence V L) × Scheduler V L)
      : Type 0 where
    pub woken : All IsWoken done.0
    pub same_ids : ids done.0 ≡ ids before
    pub queue : done.1.queue.waiting_list ≡ left

  popped :
      (queue : RequestQueue V L) (q : List (Sequence V L)) (seq : Sequence V L)
      → queue.waiting_list ≡ seq ∷ q
      → (pop_one queue).1.waiting_list ≡ q
  unfolding pop_one
  popped queue q seq e = ap (λ l. (pop_from queue l).1.waiting_list) e

  abort_waiting-Woken :
      (q : List (Sequence V L)) (sched : Scheduler V L)
      → sched.queue.waiting_list ≡ q
      → Woken q [] (abort_waiting q sched)
  unfolding abort_waiting
  abort_waiting-Woken [] sched e = record { woken = tt; same_ids = refl; queue = e }
  abort_waiting-Woken (seq ∷ q) sched e =
      let mid = record sched { queue = (pop_one sched.queue).1 } in
      let one = abort_one-queue seq mid in
      let rest = abort_waiting-Woken q (abort_one seq mid).1 (
        ap (λ (queue : RequestQueue V L). queue.waiting_list) one.0 ∙ popped sched.queue q seq e) in
      record {
        woken = (abort_one-IsWoken seq mid, rest.woken);
        same_ids =
            ap (λ i. i ∷ ids (abort_waiting q (abort_one seq mid).1).0) one.1
            ∙ ap (λ l. seq.id ∷ l) rest.same_ids;
        queue = rest.queue;
      }

  abbrev wake_one : Sequence V L → Scheduler V L → Sequence V L × Scheduler V L
  wake_one seq sched = if seq.finished_event then (seq, sched) else abort_one seq sched

  wake_one-Woken :
      (seq : Sequence V L) (sched : Scheduler V L)
      → let done = wake_one seq sched in
        IsWoken done.0 × (done.0.id ≡ seq.id) × (done.1.queue ≡ sched.queue)
  wake_one-Woken seq sched =
      if_ind
        (λ (done : Sequence V L × Scheduler V L).
          IsWoken done.0 × (done.0.id ≡ seq.id) × (done.1.queue ≡ sched.queue))
        seq.finished_event (λ h. (h, refl, refl))
        (λ _. let one = abort_one-queue seq sched in (abort_one-IsWoken seq sched, one.1, one.0))

  runners-Woken :
      (seqs : List (Sequence V L)) (sched : Scheduler V L)
      → Woken seqs sched.queue.waiting_list (sweep wake_one seqs sched)
  unfolding sweep
  runners-Woken [] sched = record { woken = tt; same_ids = refl; queue = refl }
  runners-Woken (seq ∷ seqs) sched =
      let one = wake_one-Woken seq sched in
      let rest = runners-Woken seqs (wake_one seq sched).1 in
      record {
        woken = (one.0, rest.woken);
        same_ids =
            ap (λ i. i ∷ ids (sweep wake_one seqs (wake_one seq sched).1).0) one.1
            ∙ ap (λ l. seq.id ∷ l) rest.same_ids;
        queue = rest.queue ∙ ap (λ (queue : RequestQueue V L). queue.waiting_list) one.2;
      }

  All-append :
      (xs ys : List (Sequence V L)) → All IsWoken xs → All IsWoken ys → All IsWoken (xs ++ ys)
  All-append [] ys a b = b
  All-append (x ∷ xs) ys a b = (a.0, All-append xs ys a.1 b)

  ids-append : (xs ys : List (Sequence V L)) → ids (xs ++ ys) ≡ ids xs ++ ids ys
  ids-append [] ys = refl
  ids-append (x ∷ xs) ys = ap (λ l. x.id ∷ l) (ids-append xs ys)

  -- Where the worker ends up.
  pub record IsStopped (before after : Worker V L) : Type 0 where
    pub phase : after.phase ≡ stopped
    pub no_waiters : after.sched.queue.waiting_list ≡ []
    pub no_runners : after.running ≡ []
    pub let_go : List (Sequence V L)
    pub gone : after.gone ≡ before.gone ++ let_go
    pub woken : All IsWoken let_go
    pub whole : ids let_go ≡ ids before.sched.queue.waiting_list ++ ids before.running

  -- `_abort_leftovers` empties the queue and the batch, and the event of each sequence that waited or
  -- ran, in order, is set.
  pub abort_leftovers-IsStopped : (w : Worker V L) → IsStopped w (abort_leftovers w)
  unfolding abort_leftovers
  abort_leftovers-IsStopped w =
      let waiters = abort_waiting w.sched.queue.waiting_list w.sched in
      let first = abort_waiting-Woken w.sched.queue.waiting_list w.sched refl in
      let runners = sweep wake_one w.running waiters.1 in
      let second = runners-Woken w.running waiters.1 in
      record {
        phase = refl;
        no_waiters = second.queue ∙ first.queue;
        no_runners = refl;
        let_go = waiters.0 ++ runners.0;
        gone = refl;
        woken = All-append waiters.0 runners.0 first.woken second.woken;
        whole =
            ids-append waiters.0 runners.0
            ∙ ap (λ l. l ++ ids runners.0) first.same_ids
            ∙ ap (λ l. ids w.sched.queue.waiting_list ++ l) second.same_ids;
      }
