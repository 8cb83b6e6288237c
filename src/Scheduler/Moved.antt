-- ===== src/Scheduler/Moved.antt =====
-- What a round of src/flux/engine/scheduler.py does to the books, the waiting queue and the allocations.
use flux_llm_inference_engin.Prelude.{
  ℕ, ◌+◌, ◌≤◌, ◌<◌, List, [], ◌∷◌, ◌≡◌, ◌≢◌, refl, sym, subst, ◌∙◌, ap, Option, none, some, Bool,
  true, false, arith, All, All-map, All-both, Bool-cases, inl, inr, nat_beq, nat_beq_iff, count,
  map, nat_eq,
}
use flux_llm_inference_engin.Sequence.{Sequence}
use flux_llm_inference_engin.Pool.{alloc_at, holds, present}
use flux_llm_inference_engin.Pool.Balance.{Granted}
use flux_llm_inference_engin.Scheduler.{Scheduler, push_front, attempt}
use flux_llm_inference_engin.Scheduler.Books.{Books, Unallocated, Allocates}

module _ {V L : Type 0} where
  abbrev pub ids : List (Sequence V L) → List ℕ
  ids seqs = map (λ seq. seq.id) seqs

  abbrev pub admitted_ids : Option (Sequence V L) → List ℕ
  admitted_ids none = []
  admitted_ids (some seq) = seq.id ∷ []

  -- The books are kept, no id waits twice, and the pool holds nothing for those who wait.
  pub record IsReady (sched : Scheduler V L) : Type 0 where
    pub books : Books sched
    pub once : (id : ℕ) → count id (ids sched.queue.waiting_list) ≤ 1
    pub unallocated :
        All (λ (q : Sequence V L). Unallocated sched.pool q.id) sched.queue.waiting_list

  -- What a round, or a whole call of `admit`, leaves, where `out` lists the ids that it admitted.
  pub record Moves (sched : Scheduler V L) (out : List ℕ) (sched' : Scheduler V L) : Type 0 where
    pub ready : IsReady sched'
    pub moved :
        (id : ℕ)
        → count id out + count id (ids sched'.queue.waiting_list)
          ≡ count id (ids sched.queue.waiting_list)
    pub others :
        (id : ℕ)
        → count id out ≡ 0
        → holds id (alloc_at sched'.pool) ≡ holds id (alloc_at sched.pool)
    pub presence : present (alloc_at sched'.pool) ≡ present (alloc_at sched.pool)
    pub granted : (id : ℕ) → 0 < count id out → Granted sched'.pool id

  All-ne :
      (id : ℕ) (seqs : List (Sequence V L))
      → count id (ids seqs) ≡ 0
      → All (λ (q : Sequence V L). id ≢ q.id) seqs
  All-ne id [] h = tt
  All-ne id (q ∷ seqs) h = (ground (arith, nat_beq_iff q.id id), All-ne id seqs (ground arith))

  -- The rest of the queue, after one sequence was taken out of it.
  pub record Taken (sched : Scheduler V L) (seq : Sequence V L) (rest : List (Sequence V L))
      : Type 0 where
    pub unallocated : Unallocated sched.pool seq.id
    pub others : All (λ (q : Sequence V L). Unallocated sched.pool q.id) rest
    pub moved : (id : ℕ) → count id (seq.id ∷ ids rest) ≡ count id (ids sched.queue.waiting_list)

  -- Those who still wait hold nothing after the attempt either.
  others_wait :
      (sched taken : Scheduler V L) (seq : Sequence V L)
      (done : Bool × Scheduler V L × Sequence V L)
      → IsReady sched
      → Taken sched seq taken.queue.waiting_list
      → taken.pool ≡ sched.pool
      → Allocates taken seq done
      → All (λ (q : Sequence V L). Unallocated done.1.pool q.id) done.1.queue.waiting_list
  others_wait sched taken seq done r t p a = rw (a.queue) (
      All-map _ _ taken.queue.waiting_list
        (λ q known. a.others q.id known.1 ∙ ap (λ o. holds q.id (alloc_at o)) p ∙ known.0)
        (All-both _ _ taken.queue.waiting_list t.others (
          All-ne seq.id taken.queue.waiting_list
            (ground (arith, t.moved seq.id, r.once seq.id, nat_beq_iff seq.id seq.id)))))

  moved_on :
      (sched taken : Scheduler V L) (seq : Sequence V L)
      (done : Bool × Scheduler V L × Sequence V L)
      → Taken sched seq taken.queue.waiting_list
      → Allocates taken seq done
      → (id : ℕ)
      → count id (done.2.id ∷ ids done.1.queue.waiting_list)
        ≡ count id (ids sched.queue.waiting_list)
  moved_on sched taken seq done t a id = rw (a.same_id, a.queue) (t.moved id)

  pub attempt-Moves :
      (sched taken : Scheduler V L) (seq : Sequence V L)
      (done : Bool × Scheduler V L × Sequence V L)
      → IsReady sched
      → Taken sched seq taken.queue.waiting_list
      → taken.pool ≡ sched.pool
      → Allocates taken seq done
      → Moves sched (admitted_ids (attempt done).0) (attempt done).1
  unfolding push_front
  attempt-Moves sched taken seq (true, sched', seq') r t p a =
      let waits = others_wait sched taken seq (true, sched', seq') r t p a in
      let moved = moved_on sched taken seq (true, sched', seq') t a in
      record {
        ready = record {
          books = a.books;
          once = λ id. omega (arith, moved id, r.once id);
          unallocated = waits;
        };
        moved = λ id. omega (arith, moved id);
        others = λ id out.
            a.others id (ground (arith, nat_beq_iff seq'.id id, a.same_id))
            ∙ ap (λ o. holds id (alloc_at o)) p;
        presence = a.presence ∙ ap (λ o. present (alloc_at o)) p;
        granted = λ id out.
            subst (Granted sched'.pool) (ground (arith, nat_beq_iff seq'.id id, a.same_id))
              (a.granted refl);
      }
  attempt-Moves sched taken seq (false, sched', seq') r t p a =
      let waits = others_wait sched taken seq (false, sched', seq') r t p a in
      let moved = moved_on sched taken seq (false, sched', seq') t a in
      record {
        ready = record {
          books = a.books;
          once = λ id. omega (arith, moved id, r.once id);
          unallocated = (rw (a.same_id) ((a.failed refl).1), waits);
        };
        moved = λ id. omega (arith, moved id);
        others = λ id _. elim (Bool-cases (nat_beq seq.id id)) [
          | inl same ↦
              let here : seq.id ≡ id = (nat_beq_iff seq.id id).0 same in
              subst (λ j. holds j (alloc_at sched'.pool) ≡ holds j (alloc_at sched.pool)) here
                ((a.failed refl).1 ∙ sym t.unallocated)
          | inr other ↦
              a.others id (ground (arith, nat_beq_iff seq.id id))
              ∙ ap (λ o. holds id (alloc_at o)) p
        ];
        presence = a.presence ∙ ap (λ o. present (alloc_at o)) p;
        granted = λ id out. absurd (omega arith);
      }
