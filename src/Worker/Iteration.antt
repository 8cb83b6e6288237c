-- ===== src/Worker/Iteration.antt =====
-- The part of `ContinuousWorker.run` in src/flux/engine/worker.py that decodes: from the last prefill to the top
-- of the loop.
use flux_llm_inference_engin.Prelude.{
  ℕ, nat_eq, ◌+◌, ◌≤◌, List, [], ◌∷◌, ◌++◌, ◌≡◌, refl, sym, ap, ◌∙◌, subst, Option, Bool, not,
  arith, if_ind, nat_eq, count, All, keep_if,
}
use flux_llm_inference_engin.Sequence.{Sequence, SamplingParams}
use flux_llm_inference_engin.Pool.{BlockPool, alloc_at, holds, present}
use flux_llm_inference_engin.Scheduler.{Scheduler}
use flux_llm_inference_engin.Scheduler.Books.{Books}
use flux_llm_inference_engin.Scheduler.Moved.{ids}
use flux_llm_inference_engin.Engine.{Engine}
use flux_llm_inference_engin.Worker.{sweep, decode_one_step, abort_late}
use flux_llm_inference_engin.Worker.Batch.{
  Runs, IsOver, Fate, runs, is_gone, Fate-stays, AreDistinct,
}
use flux_llm_inference_engin.Worker.Decode.{
  sweep-Swept, abort_late-Stepped, then-Swept, decode_one_step-Swept,
}
use flux_llm_inference_engin.Worker.{Worker, decode_step, goes_on}

module _ {V L : Type 0} where
  -- The batch is in order: the books are kept, no sequence is there twice, and each one runs.
  pub record IsRunning (sched : Scheduler V L) (running : List (Sequence V L)) : Type 0 where
    pub books : Books sched
    pub once : AreDistinct running
    pub each : All (Runs sched.pool) running

  -- What the decode part of an iteration makes of the worker: those that go on run in order, the others
  -- are let go of, over and woken, none is lost, and no other allocation changes.
  pub record Decoded (before after : Worker V L) : Type 0 where
    pub running : IsRunning after.sched after.running
    pub queue : after.sched.queue ≡ before.sched.queue
    pub max_batch : after.sched.max_batch ≡ before.sched.max_batch
    pub let_go : List (Sequence V L)
    pub gone : after.gone ≡ before.gone ++ let_go
    pub over : All (IsOver after.sched.pool) let_go
    pub others :
        (i : ℕ)
        → count i (ids before.running) ≡ 0
        → holds i (alloc_at after.sched.pool) ≡ holds i (alloc_at before.sched.pool)
    pub presence : present (alloc_at after.sched.pool) ≡ present (alloc_at before.sched.pool)
    pub none_lost :
        (i : ℕ) → count i (ids after.running) + count i (ids let_go) ≡ count i (ids before.running)

  module _ (engine : Engine V L) where
    kept_run :
        (pool : Option BlockPool) (seqs : List (Sequence V L))
        → All (Fate pool) seqs
        → All (Runs pool) (keep_if (goes_on engine) seqs)
    kept_run pool [] all = tt
    kept_run pool (seq ∷ seqs) (runs r, all) =
        if_ind (All (Runs pool)) (goes_on engine seq) (λ _. (r, kept_run pool seqs all))
          (λ _. kept_run pool seqs all)
    kept_run pool (seq ∷ seqs) (is_gone g, all) =
        if_ind (All (Runs pool)) (goes_on engine seq) (λ h. cc (g.over))
          (λ _. kept_run pool seqs all)

    dropped-IsOver :
        (pool : Option BlockPool) (seqs : List (Sequence V L))
        → All (Fate pool) seqs
        → All (IsOver pool) (keep_if (λ seq. not (goes_on engine seq)) seqs)
    dropped-IsOver pool [] all = tt
    dropped-IsOver pool (seq ∷ seqs) (is_gone g, all) =
        if_ind (All (IsOver pool)) (not (goes_on engine seq))
          (λ _. (g, dropped-IsOver pool seqs all)) (λ _. dropped-IsOver pool seqs all)
    dropped-IsOver pool (seq ∷ seqs) (runs r, all) =
        if_ind (All (IsOver pool)) (not (goes_on engine seq)) (λ h. cc (r.going))
          (λ _. dropped-IsOver pool seqs all)

  pub parted :
      (p : Sequence V L → Bool) (i : ℕ) (seqs : List (Sequence V L))
      → count i (ids (keep_if p seqs)) + count i (ids (keep_if (λ seq. not (p seq)) seqs))
        ≡ count i (ids seqs)
  parted p i [] = refl
  parted p i (seq ∷ seqs) = ground (arith, parted p i seqs)

  -- `run` from the last prefill to the top of the loop, on a batch in order, where the sampler raises on no
  -- row, and whatever the engine returns or raises: it stays in order, those
  -- that ended are let go of, over and woken, none is lost, and the waiting queue and all other
  -- allocations are as they were.
  pub decode_step-Decoded :
      (engine : Engine V L) (sample : SamplingParams → L → ℕ) (late : ℕ → Bool) (w : Worker V L)
      → IsRunning w.sched w.running
      → Decoded w (decode_step engine sample late w)
  unfolding decode_step
  decode_step-Decoded engine sample late w r =
      let stepped = decode_one_step engine sample late w.running w.sched in
      let first =
        decode_one_step-Swept engine sample late w.running w.sched r.books r.once r.each in
      let distinct : AreDistinct stepped.0 =
        λ i. subst (λ l. count i l ≤ 1) (sym first.same_ids) (r.once i) in
      let still = sweep (abort_late engine) stepped.0 stepped.1 in
      let second =
        sweep-Swept Fate Fate-stays (abort_late engine) (abort_late-Stepped engine) stepped.0
          stepped.1 first.books distinct first.fates in
      let all = then-Swept engine sample late w.sched w.running stepped still first second in
      let whole : (i : ℕ)
          → count i (ids (keep_if (goes_on engine) still.0))
              + count i (ids (keep_if (λ seq. not (goes_on engine seq)) still.0))
            ≡ count i (ids w.running) =
        λ i. parted (goes_on engine) i still.0 ∙ ap (count i) all.same_ids in
      record {
        running = record {
          books = all.books;
          once = λ i. omega (arith, whole i, r.once i);
          each = kept_run engine still.1.pool still.0 all.fates;
        };
        queue = all.queue;
        max_batch = all.max_batch;
        let_go = keep_if (λ seq. not (goes_on engine seq)) still.0;
        gone = refl;
        over = dropped-IsOver engine still.1.pool still.0 all.fates;
        others = all.others;
        presence = all.presence;
        none_lost = whole;
      }
