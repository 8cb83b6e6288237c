-- ===== src/Worker/Capacity.antt =====
-- The bounds that src/flux/engine/scheduler.py puts on the batch and on the queue, over all steps of
-- `ContinuousWorker` of src/flux/engine/worker.py.
use flux_llm_inference_engin.Prelude.{
  count, ℕ, ◌+◌, ◌≤◌, List, [], ◌∷◌, ◌≡◌, refl, ap, ◌∙◌, subst, Bool, true, false, not, arith,
  length, length-append, inl, inr, All,
}
use flux_llm_inference_engin.Sequence.{Sequence, SamplingParams, new}
use flux_llm_inference_engin.Outcome.{Outcome}
use flux_llm_inference_engin.Worker.Decode.{decode_one_step-Swept}
use flux_llm_inference_engin.Engine.{Engine}
use flux_llm_inference_engin.Scheduler.{Scheduler, RequestQueue, accepted, submit}
use flux_llm_inference_engin.Scheduler.Policies.{length-admit}
use flux_llm_inference_engin.Scheduler.Limits.{bounds_of, bounds-admit}
use flux_llm_inference_engin.Worker.{
  has_ended, crashes, cut_at, decode_crash, Worker, begin, prefill_from, prefill_next, prefill_one,
  settle, is_over, wants_abort, decode_step, abort_leftovers, abort_id, client_abort, Step, submits,
  aborts, admin_aborts, begins, prefills, decodes, stops, Reach, here, next,
}
use flux_llm_inference_engin.Worker.Limits.{
  length-ids, length-map, length-keep_if, shorter, submit-bounds, bounds-abort_leftovers,
  admin_abort-bounds,
}
use flux_llm_inference_engin.Worker.Steps.{prefill_one-Settled}
use flux_llm_inference_engin.Worker.Batch.{Settled-Stepped}
use flux_llm_inference_engin.Worker.Iteration.{decode_step-Decoded}
use flux_llm_inference_engin.Worker.Shutdown.{abort_leftovers-IsStopped}
use flux_llm_inference_engin.Worker.Begin.{swept, kept, out, swept-Swept, moved}
use flux_llm_inference_engin.Worker.Invariant.{IsSafe, Admitted}
use flux_llm_inference_engin.Worker.Safety.{Works, WorksOrEnded, Reach-WorksOrEnded}

module _ {V L : Type 0} where
  -- The bounds are as they were made, and the batch and the queue keep to them.
  pub record IsWithin (max_batch max_waiting : ℕ) (w : Worker V L) : Type 0 where
    pub bounds : bounds_of w.sched ≡ (max_batch, max_waiting)
    pub batch : length w.admitted + length w.running ≤ max_batch
    pub queue : length w.sched.queue.waiting_list ≤ max_waiting

  module _ (max_batch max_waiting : ℕ) where
    IsWithin-submits :
        (w : Worker V L) (after : Scheduler V L) (seq : Sequence V L)
        → submit w.sched seq ≡ accepted after
        → IsWithin max_batch max_waiting w
        → IsWithin max_batch max_waiting (record w { sched = after })
    IsWithin-submits w after seq h k =
        let b = submit-bounds w.sched after seq h in
        record {
          bounds = b.0 ∙ k.bounds;
          batch = k.batch;
          queue = omega (arith, b.1, ap (λ (p : ℕ × ℕ). p.1) k.bounds);
        }

    IsWithin-aborts :
        (w : Worker V L) (id : ℕ)
        → IsWithin max_batch max_waiting w
        → IsWithin max_batch max_waiting (client_abort id w)
    unfolding client_abort
    IsWithin-aborts w id k = record {
      bounds = k.bounds;
      batch =
          omega (
            arith,
            k.batch,
            length-map (abort_id id) w.admitted,
            length-map (abort_id id) w.running,
          );
      queue = omega (arith, k.queue, length-map (abort_id id) w.sched.queue.waiting_list);
    }

    IsWithin-begins :
        (w : Worker V L) (now : ℕ)
        → w.admitted ≡ []
        → IsSafe w
        → IsWithin max_batch max_waiting w
        → IsWithin max_batch max_waiting (begin now w)
    unfolding begin
    IsWithin-begins w now none_admitted s k =
        let first = swept-Swept now w none_admitted s in
        let mid = (swept now w none_admitted s).1 in
        let few = kept now w none_admitted s in
        let done = out now w none_admitted s in
        let same : bounds_of mid ≡ (max_batch, max_waiting) =
          cc (first.max_batch, first.queue, k.bounds) in
        let fewer : length few ≤ length w.running = omega (
          arith,
          length-keep_if (λ seq. not (wants_abort seq)) (swept now w none_admitted s).0,
          length-ids (swept now w none_admitted s).0,
          length-ids w.running,
          ap length first.same_ids,
        ) in
        let full = ap (λ (p : ℕ × ℕ). p.0) same in
        record {
          bounds = bounds-admit now mid (length few) ∙ same;
          batch = omega (
            arith,
            length-admit now mid (length few) (omega (arith, fewer, k.batch, full)),
            full,
          );
          queue = omega (
            arith,
            k.queue,
            shorter done.1.queue.waiting_list w.sched.queue.waiting_list
                (λ i. omega (arith, moved now w none_admitted s i)),
          );
        }

    IsWithin-settle :
        (seq : Sequence V L) (rest : List (Sequence V L)) (w : Worker V L) (b : Bool)
        (done : Sequence V L × Scheduler V L)
        → w.admitted ≡ seq ∷ rest
        → bounds_of done.1 ≡ bounds_of w.sched
        → done.1.queue ≡ w.sched.queue
        → IsWithin max_batch max_waiting w
        → IsWithin max_batch max_waiting
            (settle b done.0 (record w { sched = done.1; admitted = rest }))
    IsWithin-settle seq rest w true done e same q k = record {
      bounds = same ∙ k.bounds;
      batch = omega (arith, k.batch, ap length e);
      queue = omega (arith, k.queue, ap (λ (r : RequestQueue V L). length r.waiting_list) q);
    }
    IsWithin-settle seq rest w false done e same q k = record {
      bounds = same ∙ k.bounds;
      batch = omega (arith, k.batch, ap length e, length-append w.running (done.0 ∷ []));
      queue = omega (arith, k.queue, ap (λ (r : RequestQueue V L). length r.waiting_list) q);
    }

    module _ (engine : Engine V L) (sample : SamplingParams → L → Outcome ℕ) (late : ℕ → Bool) where
      IsWithin-prefills :
          (w : Worker V L) (now : ℕ)
          → IsSafe w
          → IsWithin max_batch max_waiting w
          → IsWithin max_batch max_waiting (prefill_next engine sample late now w)
      unfolding prefill_next
      IsWithin-prefills w now s k = from w.admitted refl
        where
          from :
              (q : List (Sequence V L))
              → w.admitted ≡ q
              → IsWithin max_batch max_waiting (prefill_from engine sample late now q w)
          from [] e = k
          from (seq ∷ rest) e =
              let first = (subst (All (Admitted w.sched.pool)) e s.admitted).0 in
              let done = prefill_one engine sample late now seq w.sched in
              let step =
                Settled-Stepped w.sched seq.id done (
                  prefill_one-Settled engine sample late now seq w.sched s.books first.0 first.1) in
              IsWithin-settle seq rest w (is_over done.0.status) done e
                (cc (step.max_batch, step.queue)) step.queue k

    module _ (engine : Engine V L) (sample : SamplingParams → L → ℕ) (late : ℕ → Bool) where
      IsWithin-decodes :
          (w : Worker V L)
          → w.admitted ≡ []
          → IsSafe w
          → IsWithin max_batch max_waiting w
          → IsWithin max_batch max_waiting (decode_step engine sample late w)
      unfolding decode_step
      IsWithin-decodes w none_admitted s k =
          let d = decode_step-Decoded engine sample late w (record {
            books = s.books;
            once = λ i. omega (arith, s.one_place i);
            each = s.running;
          }) in
          let after = decode_step engine sample late w in
          record {
            bounds = cc (d.max_batch, d.queue, k.bounds);
            batch = omega (
              arith,
              k.batch,
              shorter after.running w.running (λ i. omega (arith, d.none_lost i)),
            );
            queue =
                omega
                  (arith, k.queue, ap (λ (r : RequestQueue V L). length r.waiting_list) d.queue);
          }

      IsWithin-crashes :
          (w : Worker V L) (n : ℕ)
          → IsSafe w
          → IsWithin max_batch max_waiting w
          → IsWithin max_batch max_waiting (decode_crash engine sample late n w)
      unfolding decode_crash
      IsWithin-crashes w n s k =
          let d =
            decode_one_step-Swept (cut_at n engine) sample late w.running w.sched s.books
              (λ i. omega (arith, s.one_place i)) s.running in
          let after = decode_crash engine sample late n w in
          record {
            bounds = cc (d.max_batch, d.queue, k.bounds);
            batch = omega (
              arith,
              k.batch,
              shorter after.running w.running (λ i. omega (arith, ap (count i) d.same_ids)),
            );
            queue =
                omega
                  (arith, k.queue, ap (λ (r : RequestQueue V L). length r.waiting_list) d.queue);
          }

  module _ (engine : Engine V L) (max_batch max_waiting : ℕ) where
    IsWithin-stops :
        (w : Worker V L)
        → w.admitted ≡ []
        → IsWithin max_batch max_waiting w
        → IsWithin max_batch max_waiting (abort_leftovers w)
    unfolding abort_leftovers
    IsWithin-stops w none_admitted k =
        let stop_it = abort_leftovers-IsStopped w in
        record {
          bounds = bounds-abort_leftovers w ∙ k.bounds;
          batch = omega (arith, ap length none_admitted);
          queue = omega (arith, ap length stop_it.no_waiters);
        }

    afterwards-IsWithin :
        {w w' : Worker V L}
        → Step engine w w'
        → WorksOrEnded w
        → IsWithin max_batch max_waiting w
        → IsWithin max_batch max_waiting w'
    afterwards-IsWithin (submits w id prompt_ids sampling sched fresh some_token h) o k =
        IsWithin-submits max_batch max_waiting w sched (new id prompt_ids sampling) h k
    afterwards-IsWithin (aborts w id) o k = IsWithin-aborts max_batch max_waiting w id k
    afterwards-IsWithin (admin_aborts w id) o k =
        let b = admin_abort-bounds id w in
        record {
          bounds = b.0 ∙ k.bounds;
          batch = omega (arith, k.batch, b.2, b.3);
          queue = omega (arith, k.queue, b.1);
        }
    afterwards-IsWithin (begins w now at_top) (inl over) k = cc (over, ap has_ended at_top)
    afterwards-IsWithin (begins w now at_top) (inr works) k =
        IsWithin-begins max_batch max_waiting w now (works.none_at_top at_top) works.safe k
    afterwards-IsWithin (prefills w sample late now fills) (inl over) k =
        cc (over, ap has_ended fills)
    afterwards-IsWithin (prefills w sample late now fills) (inr works) k =
        IsWithin-prefills max_batch max_waiting engine sample late w now works.safe k
    afterwards-IsWithin (decodes w sample late fills none_left) (inl over) k =
        cc (over, ap has_ended fills)
    afterwards-IsWithin (decodes w sample late fills none_left) (inr works) k =
        IsWithin-decodes max_batch max_waiting engine sample late w none_left works.safe k
    afterwards-IsWithin (crashes w sample late n logits caches fills none_left forward row)
          (inl over) k =
        cc (over, ap has_ended fills)
    afterwards-IsWithin (crashes w sample late n logits caches fills none_left forward row)
          (inr works) k =
        IsWithin-crashes max_batch max_waiting engine sample late w n works.safe k
    afterwards-IsWithin (stops w at_top) (inl over) k = cc (over, ap has_ended at_top)
    afterwards-IsWithin (stops w at_top) (inr works) k =
        IsWithin-stops w (works.none_at_top at_top) k

    -- In every state that is reached from one in which the worker works, with the bounds of the batch
    -- and of the queue kept, they are kept: those admitted and those who run are never more than
    -- max_batch, those who wait are never more than max_waiting, and the bounds stay what they were.
    pub Reach-IsWithin :
        {start last : Worker V L}
        → Reach engine start last
        → Works start
        → IsWithin max_batch max_waiting start
        → IsWithin max_batch max_waiting last
    Reach-IsWithin here works k = k
    Reach-IsWithin (next path step) works k =
        afterwards-IsWithin step (Reach-WorksOrEnded engine path works)
          (Reach-IsWithin path works k)
