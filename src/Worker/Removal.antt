-- ===== src/Worker/Removal.antt =====
-- What `admin_abort` of src/flux/server/routes_admin.py does to a sequence that waits in the queue of
-- src/flux/engine/worker.py.
use flux_llm_inference_engin.Prelude.{
  ℕ, ◌<◌, List, [], ◌∷◌, ◌++◌, ◌≡◌, refl, sym, ap, ◌∙◌, subst, Option, none, some, Bool, true,
  false, arith, map, count, All, nat_beq, nat_beq_iff, nat_eq, Bool-cases, inl, inr,
}
use flux_llm_inference_engin.Sequence.{Sequence, aborted}
use flux_llm_inference_engin.Pool.{BlockPool}
use flux_llm_inference_engin.Pool.Balance.{Freeable}
use flux_llm_inference_engin.Scheduler.{Scheduler, RequestQueue, remove_from}
use flux_llm_inference_engin.Scheduler.Books.{Unallocated}
use flux_llm_inference_engin.Scheduler.Moved.{ids}
use flux_llm_inference_engin.Scheduler.Admission.{remove_from-count, remove_from-All}
use flux_llm_inference_engin.Worker.{Worker, abort_one, find_in}
use flux_llm_inference_engin.Worker.Acts.{Ends, abort_one-Ends}
use flux_llm_inference_engin.Worker.Settling.{ended, output_end_as}
use flux_llm_inference_engin.Worker.Batch.{Runs, Runs-stays, Stepped, Settled-Stepped, later_stay}
use flux_llm_inference_engin.Worker.Invariant.{
  IsSafe, LetGo, Waits, Admitted, Admitted-stays, All-append, count-ids-append,
}

module _ {V L : Type 0} where
  -- A sequence that `remove` finds stood in the queue.
  pub removed_there :
      (id : ℕ) (q : List (Sequence V L)) → (remove_from id q).1 ≡ true → 0 < count id (ids q)
  unfolding remove_from
  removed_there id [] h = cc
  removed_there id (x ∷ q) h = ground (arith, removed_there id q)

  -- What holds of all the sequences of a list, and of no sequence with another id twice, holds of the one
  -- that is found.
  pub find_in-All {ℓ} :
      (P : Sequence V L → Type ℓ) (id : ℕ) (q : List (Sequence V L)) (seq : Sequence V L)
      → All P q
      → find_in id q ≡ some seq
      → P seq × (seq.id ≡ id)
  find_in-All P id [] seq all h = cc
  find_in-All P id (x ∷ q) seq all h = elim (Bool-cases (nat_beq x.id id)) [
    | inl same ↦
        let here : x ≡ seq = cc (h, same) in
        (
          subst P here all.0,
          ap (λ (s : Sequence V L). s.id) (sym here) ∙ (nat_beq_iff x.id id).0 same,
        )
    | inr other ↦ find_in-All P id q seq all.1 (rw other at h)
  ]

  pub found_there :
      (id : ℕ) (q : List (Sequence V L)) (seq : Sequence V L)
      → find_in id q ≡ some seq
      → 0 < count id (ids q)
  found_there id [] seq h = cc
  found_there id (x ∷ q) seq h = ground (arith, found_there id q seq)

  pub kept_absent :
      (id : ℕ) (q : List (Sequence V L)) → (remove_from id q).1 ≡ false → count id (ids q) ≡ 0
  unfolding remove_from
  kept_absent id [] h = refl
  kept_absent id (x ∷ q) h = ground (arith, kept_absent id q)

  pub find_in-none : (id : ℕ) (q : List (Sequence V L)) → find_in id q ≡ none → count id (ids q) ≡ 0
  find_in-none id [] h = refl
  find_in-none id (x ∷ q) h = ground (arith, find_in-none id q)

  Waits-Freeable : (pool : Option BlockPool) (seq : Sequence V L) → Waits seq → Freeable pool seq
  Waits-Freeable none seq a = tt
  Waits-Freeable (some pool) seq a = λ _. cc (a.owns_none, a.has_none)

  output_abort_one :
      (seq : Sequence V L) (sched : Scheduler V L)
      → (abort_one seq sched).0.output_ids ≡ seq.output_ids
  unfolding abort_one
  output_abort_one seq sched = output_end_as (record seq { status = aborted }) sched

  -- The abort of a sequence that was taken out of the queue.
  module _ (seq : Sequence V L) (w : Worker V L) (s : IsSafe w)
      (there : 0 < count seq.id (ids w.sched.queue.waiting_list)) (a : Waits seq)
      (event : Bool) where
    abbrev left : List (Sequence V L)
    left = (remove_from seq.id w.sched.queue.waiting_list).0

    abbrev taken : Scheduler V L
    taken = record (w.sched) {
      queue = record (w.sched.queue) { waiting_list = left; event = event };
    }

    abbrev pub done : Sequence V L × Scheduler V L
    done = abort_one seq taken

    pub ends : Ends taken seq.id seq.token_queue done
    ends = abort_one-Ends seq taken s.books (Waits-Freeable w.sched.pool seq a)

    pub over_told : done.0.token_queue ≡ map some done.0.output_ids ++ none ∷ []
    over_told =
        ends.told
        ∙ ap (λ q. q ++ none ∷ [])
            (a.opened.told ∙ ap (map some) (sym (output_abort_one seq taken)))

    pub stepped : Stepped taken seq.id done
    stepped =
        Settled-Stepped taken seq.id done
          (ended done.0 done.1 ends.frees ends.over ends.signalled over_told)

    pub moved : (i : ℕ) → count i (seq.id ∷ ids left) ≡ count i (ids w.sched.queue.waiting_list)
    moved i = remove_from-count seq.id i w.sched.queue.waiting_list there

    pub same_queue : done.1.queue.waiting_list ≡ left
    same_queue = ap (λ (q : RequestQueue V L). q.waiting_list) stepped.queue

    elsewhere : (count seq.id (ids w.admitted) ≡ 0) × (count seq.id (ids w.running) ≡ 0)
    elsewhere = (omega (arith, s.one_place seq.id, there), omega (arith, s.one_place seq.id, there))

    pub abort_removed-IsSafe : IsSafe (record w { sched = done.1; gone = w.gone ++ done.0 ∷ [] })
    abort_removed-IsSafe = record {
      books = stepped.books;
      one_place = λ i. omega (
        arith,
        s.one_place i,
        moved i,
        ap (λ q. count i (ids q)) same_queue,
        ap (λ j. count i (j ∷ [])) stepped.same_id,
        count-ids-append i w.gone (done.0 ∷ []),
      );
      waiting =
          subst (All Waits) (sym same_queue)
            (remove_from-All Waits seq.id w.sched.queue.waiting_list s.waiting);
      admitted =
          later_stay Admitted Admitted-stays taken seq.id done w.admitted stepped elsewhere.0
            s.admitted;
      running =
          later_stay Runs Runs-stays taken seq.id done w.running stepped elsewhere.1 s.running;
      gone =
          All-append LetGo w.gone (done.0 ∷ []) s.gone
            (record { over = ends.over; signalled = ends.signalled; told = over_told }, tt);
      only = λ i none_here. elim (Bool-cases (nat_beq seq.id i)) [
        | inl same ↦
            subst (Unallocated done.1.pool) ((nat_beq_iff seq.id i).0 same) ends.frees.unallocated
        | inr other ↦
            stepped.others i (ground (arith, nat_beq_iff seq.id i, other)) ∙ s.only i none_here
      ];
    }
