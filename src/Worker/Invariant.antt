-- ===== src/Worker/Invariant.antt =====
-- What holds of `ContinuousWorker` of src/flux/engine/worker.py between any two of its steps, and that the
-- steps which prefill and decode keep it.
use flux_llm_inference_engin.Prelude.{
  ℕ, ◌+◌, ◌≤◌, ◌<◌, List, [], ◌∷◌, ◌++◌, ◌≡◌, refl, sym, ap, ◌∙◌, subst, Option, none, some, Bool,
  true, arith, map, count, All, nat_beq, nat_beq_iff, nat_eq, Bool-cases, inl, inr,
}
use flux_llm_inference_engin.Sequence.{Sequence, SamplingParams}
use flux_llm_inference_engin.Pool.{BlockPool, alloc_at, holds, present}
use flux_llm_inference_engin.Pool.Balance.{Granted, Granted-stays}
use flux_llm_inference_engin.Scheduler.{Scheduler, RequestQueue}
use flux_llm_inference_engin.Scheduler.Books.{Books, Unallocated}
use flux_llm_inference_engin.Scheduler.Moved.{ids}
use flux_llm_inference_engin.Outcome.{Outcome}
use flux_llm_inference_engin.Engine.{Engine}
use flux_llm_inference_engin.Worker.{
  Worker, prefill_one, prefill_from, prefill_next, decode_step, settle, is_over,
}
use flux_llm_inference_engin.Worker.Tokens.{IsOpen}
use flux_llm_inference_engin.Worker.Settling.{Settled, ended, decodes}
use flux_llm_inference_engin.Worker.Steps.{prefill_one-Settled}
use flux_llm_inference_engin.Worker.Batch.{later_stay, Runs, IsOver, Runs-stays, Settled-Stepped}
use flux_llm_inference_engin.Worker.Iteration.{decode_step-Decoded}

module _ {V L : Type 0} where
  -- A sequence that waits: it goes on, and holds no block.
  pub record Waits (seq : Sequence V L) : Type 0 where
    pub opened : IsOpen seq
    pub owns_none : seq.owned_block_ids ≡ []
    pub has_none : seq.block_ids ≡ []

  -- A sequence that was admitted, before its prefill.
  abbrev pub Admitted : Option BlockPool → Sequence V L → Type 0
  Admitted pool seq = Granted pool seq.id × IsOpen seq

  -- A sequence that the worker let go of.
  pub record LetGo (seq : Sequence V L) : Type 0 where
    pub over : is_over seq.status ≡ true
    pub signalled : seq.finished_event ≡ true
    pub told : seq.token_queue ≡ map some seq.output_ids ++ none ∷ []

  -- In how many places the sequence `i` is.
  abbrev pub places_of : ℕ → Worker V L → ℕ
  places_of i w =
      count i (ids w.sched.queue.waiting_list)
      + count i (ids w.admitted)
      + count i (ids w.running)
      + count i (ids w.gone)

  -- The books are kept; each sequence is in one place; those who wait hold nothing and are new; those
  -- admitted hold blocks; those who run hold blocks and decode; those let go of are over and woken; and
  -- only those admitted or running hold anything.
  pub record IsSafe (w : Worker V L) : Type 0 where
    pub books : Books w.sched
    pub one_place : (i : ℕ) → places_of i w ≤ 1
    pub waiting : All Waits w.sched.queue.waiting_list
    pub admitted : All (Admitted w.sched.pool) w.admitted
    pub running : All (Runs w.sched.pool) w.running
    pub gone : All LetGo w.gone
    pub only :
        (i : ℕ)
        → count i (ids w.admitted) + count i (ids w.running) ≡ 0
        → Unallocated w.sched.pool i

  pub All-append :
      (P : Sequence V L → Type 0) (xs ys : List (Sequence V L))
      → All P xs
      → All P ys
      → All P (xs ++ ys)
  All-append P [] ys a b = b
  All-append P (x ∷ xs) ys a b = (a.0, All-append P xs ys a.1 b)

  pub count-ids-append :
      (i : ℕ) (xs ys : List (Sequence V L))
      → count i (ids (xs ++ ys)) ≡ count i (ids xs) + count i (ids ys)
  count-ids-append i [] ys = omega arith
  count-ids-append i (x ∷ xs) ys = omega (arith, count-ids-append i xs ys)

  pub over-LetGo :
      (pool : Option BlockPool) (seqs : List (Sequence V L))
      → All (IsOver pool) seqs
      → All LetGo seqs
  over-LetGo pool [] all = tt
  over-LetGo pool (seq ∷ seqs) (o, all) =
      (record { over = o.over; signalled = o.signalled; told = o.told }, over-LetGo pool seqs all)

  pub over_holds :
      (pool : Option BlockPool) (i : ℕ) (seqs : List (Sequence V L))
      → All (IsOver pool) seqs
      → 0 < count i (ids seqs)
      → Unallocated pool i
  over_holds pool i [] all h = absurd (omega arith)
  over_holds pool i (seq ∷ seqs) (o, all) h = elim (Bool-cases (nat_beq seq.id i)) [
    | inl same ↦ subst (Unallocated pool) ((nat_beq_iff seq.id i).0 same) o.unallocated
    | inr other ↦ over_holds pool i seqs all (ground (arith, other))
  ]

  -- The part of `run` that decodes keeps the worker safe.
  pub decode_step-IsSafe :
      (engine : Engine V L) (sample : SamplingParams → L → ℕ) (late : ℕ → Bool) (w : Worker V L)
      → w.admitted ≡ []
      → IsSafe w
      → IsSafe (decode_step engine sample late w)
  unfolding decode_step
  decode_step-IsSafe engine sample late w none_admitted s =
      let d =
        decode_step-Decoded engine sample late w (record {
          books = s.books;
          once = λ i. omega (arith, s.one_place i);
          each = s.running;
        }) in
      let after = decode_step engine sample late w in
      record {
        books = d.running.books;
        one_place = λ i. omega (
          arith,
          s.one_place i,
          d.none_lost i,
          ap (λ (q : RequestQueue V L). count i (ids q.waiting_list)) d.queue,
          ap (λ g. count i (ids g)) d.gone,
          count-ids-append i w.gone d.let_go,
        );
        waiting =
            subst (λ (q : RequestQueue V L). All Waits q.waiting_list) (sym d.queue) s.waiting;
        admitted = subst (All (Admitted after.sched.pool)) (sym none_admitted) tt;
        running = d.running.each;
        gone =
            subst (All LetGo) (sym d.gone) (
              All-append LetGo w.gone d.let_go s.gone
                (over-LetGo after.sched.pool d.let_go d.over));
        only = λ i absent. elim (Bool-cases (nat_beq (count i (ids d.let_go)) 0)) [
          | inl not_there ↦
              let before : count i (ids w.running) ≡ 0 =
                ground (arith, d.none_lost i, absent, not_there) in
              d.others i before
              ∙ s.only i (omega (arith, before, ap (λ l. count i (ids l)) none_admitted))
          | inr there ↦ over_holds after.sched.pool i d.let_go d.over (ground (arith, there))
        ];
      }

  pub Admitted-stays :
      (pool pool' : Option BlockPool) (seq : Sequence V L)
      → present (alloc_at pool') ≡ present (alloc_at pool)
      → holds seq.id (alloc_at pool') ≡ holds seq.id (alloc_at pool)
      → Admitted pool seq
      → Admitted pool' seq
  Admitted-stays pool pool' seq p h a = (Granted-stays pool pool' seq.id p h a.0, a.1)

  -- The first of those admitted is settled; all others are as they were.
  module _ (w : Worker V L) (seq : Sequence V L) (rest : List (Sequence V L))
      (e : w.admitted ≡ seq ∷ rest) (s : IsSafe w) where
    place :
        (i : ℕ)
        → places_of i w
          ≡ count i (ids w.sched.queue.waiting_list)
            + count i (ids (seq ∷ rest))
            + count i (ids w.running)
            + count i (ids w.gone)
    place i =
        ap
          (λ l.
            count i (ids w.sched.queue.waiting_list)
            + count i (ids l)
            + count i (ids w.running)
            + count i (ids w.gone))
          e

    absent : (count seq.id (ids rest) ≡ 0) × (count seq.id (ids w.running) ≡ 0)
    absent = (
      ground (arith, place seq.id, s.one_place seq.id, nat_beq_iff seq.id seq.id),
      ground (arith, place seq.id, s.one_place seq.id, nat_beq_iff seq.id seq.id),
    )

    settle-IsSafe :
        (done : Sequence V L × Scheduler V L)
        → Settled w.sched seq.id done
        → IsSafe
            (settle (is_over done.0.status) done.0 (record w { sched = done.1; admitted = rest }))
    settle-IsSafe done (ended seq' after f over signalled told) =
        let a =
          Settled-Stepped w.sched seq.id (seq', after) (ended seq' after f over signalled told) in
        let all = subst (All (Admitted w.sched.pool)) e s.admitted in
        subst (λ b. IsSafe (settle b seq' (record w { sched = after; admitted = rest }))) (sym over)
          (record {
            books = a.books;
            one_place = λ i. omega (
              arith,
              s.one_place i,
              place i,
              ap (λ (q : RequestQueue V L). count i (ids q.waiting_list)) a.queue,
              ap (λ j. count i (j ∷ [])) a.same_id,
              count-ids-append i w.gone (seq' ∷ []),
            );
            waiting =
                subst (λ (q : RequestQueue V L). All Waits q.waiting_list) (sym a.queue) s.waiting;
            admitted =
                later_stay Admitted Admitted-stays w.sched seq.id (seq', after) rest a absent.0
                  all.1;
            running =
                later_stay Runs Runs-stays w.sched seq.id (seq', after) w.running a absent.1
                  s.running;
            gone =
                All-append LetGo w.gone (seq' ∷ []) s.gone
                  (record { over = over; signalled = signalled; told = told }, tt);
            only = λ i none_here. elim (Bool-cases (nat_beq seq.id i)) [
              | inl same ↦
                  subst (Unallocated after.pool) ((nat_beq_iff seq.id i).0 same) f.unallocated
              | inr other ↦
                  a.others i (ground (arith, nat_beq_iff seq.id i, other))
                  ∙ s.only i (ground (arith, none_here, other, ap (λ l. count i (ids l)) e))
            ];
          })
    settle-IsSafe done (decodes seq' after m going opened) =
        let a = Settled-Stepped w.sched seq.id (seq', after) (decodes seq' after m going opened) in
        let all = subst (All (Admitted w.sched.pool)) e s.admitted in
        subst (λ b. IsSafe (settle b seq' (record w { sched = after; admitted = rest })))
          (sym (ap is_over going))
          (record {
            books = a.books;
            one_place = λ i. omega (
              arith,
              s.one_place i,
              place i,
              ap (λ (q : RequestQueue V L). count i (ids q.waiting_list)) a.queue,
              ap (λ j. count i (j ∷ [])) a.same_id,
              count-ids-append i w.running (seq' ∷ []),
            );
            waiting =
                subst (λ (q : RequestQueue V L). All Waits q.waiting_list) (sym a.queue) s.waiting;
            admitted =
                later_stay Admitted Admitted-stays w.sched seq.id (seq', after) rest a absent.0
                  all.1;
            running =
                All-append (Runs after.pool) w.running (seq' ∷ [])
                  (later_stay Runs Runs-stays w.sched seq.id (seq', after) w.running a absent.1
                    s.running)
                  (
                    record {
                      granted = subst (Granted after.pool) (sym m.same_id) m.allocs.granted;
                      going = going;
                      opened = opened;
                    },
                    tt,
                  );
            gone = s.gone;
            only = λ i none_here.
                let apart : count i (ids w.running) + count i (seq'.id ∷ [])
                    ≡ count i (ids (w.running ++ seq' ∷ [])) =
                  sym (count-ids-append i w.running (seq' ∷ [])) in
                let other : count i (seq.id ∷ []) ≡ 0 =
                  omega (arith, none_here, apart, ap (λ j. count i (j ∷ [])) a.same_id) in
                a.others i (ground (arith, nat_beq_iff seq.id i, other))
                ∙ s.only i (ground (arith, none_here, apart, other, ap (λ l. count i (ids l)) e));
          })

  -- A pass of the loop over those admitted keeps the worker safe.
  pub prefill_next-IsSafe :
      (engine : Engine V L) (sample : SamplingParams → L → Outcome ℕ) (late : ℕ → Bool) (now : ℕ)
      (w : Worker V L)
      → IsSafe w
      → IsSafe (prefill_next engine sample late now w)
  unfolding prefill_next
  prefill_next-IsSafe engine sample late now w s = from w.admitted refl s
    where
      from :
          (q : List (Sequence V L))
          → w.admitted ≡ q
          → IsSafe w
          → IsSafe (prefill_from engine sample late now q w)
      from [] e s' = s'
      from (seq ∷ rest) e s' =
          let first = (subst (All (Admitted w.sched.pool)) e s'.admitted).0 in
          settle-IsSafe w seq rest e s' (prefill_one engine sample late now seq w.sched)
            (prefill_one-Settled engine sample late now seq w.sched s'.books first.0 first.1)
