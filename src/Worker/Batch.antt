-- ===== src/Worker/Batch.antt =====
-- The batch of src/flux/engine/worker.py: a decode step, on all sequences that run, leaves each of them
-- either ended or running on, and the books in order.
use flux_llm_inference_engin.Prelude.{
  ℕ, ◌≤◌, List, [], ◌∷◌, ◌++◌, ◌≡◌, ◌≢◌, refl, sym, ap, ◌∙◌, subst, Option, none, some, true, arith,
  map, nat_eq, nat_beq_iff, count, All,
}
use flux_llm_inference_engin.Sequence.{Sequence, decoding}
use flux_llm_inference_engin.Pool.{BlockPool, alloc_at, holds, present}
use flux_llm_inference_engin.Pool.Balance.{Granted, Granted-stays, same-KeepsAllocs}
use flux_llm_inference_engin.Scheduler.{Scheduler}
use flux_llm_inference_engin.Scheduler.Books.{Books, Unallocated}
use flux_llm_inference_engin.Scheduler.Moved.{ids}
use flux_llm_inference_engin.Worker.{is_over}
use flux_llm_inference_engin.Worker.Tokens.{IsOpen}
use flux_llm_inference_engin.Worker.Settling.{Midway, Settled, ended, decodes}

module _ {V L : Type 0} where
  -- A sequence that runs: it holds its blocks, it decodes, and it has room for a token.
  pub record Runs (pool : Option BlockPool) (seq : Sequence V L) : Type 0 where
    pub granted : Granted pool seq.id
    pub going : seq.status ≡ decoding
    pub opened : IsOpen seq

  -- A sequence that is over: it holds nothing, its client is woken, and was told of all tokens and then
  -- of the end.
  pub record IsOver (pool : Option BlockPool) (seq : Sequence V L) : Type 0 where
    pub unallocated : Unallocated pool seq.id
    pub over : is_over seq.status ≡ true
    pub signalled : seq.finished_event ≡ true
    pub told : seq.token_queue ≡ map some seq.output_ids ++ none ∷ []

  pub data Fate (pool : Option BlockPool) (seq : Sequence V L) : Type 0 where
    runs : Runs pool seq → Fate pool seq
    is_gone : IsOver pool seq → Fate pool seq

  -- The pool changed, but not for the sequence.
  pub Runs-stays :
      (pool pool' : Option BlockPool) (seq : Sequence V L)
      → present (alloc_at pool') ≡ present (alloc_at pool)
      → holds seq.id (alloc_at pool') ≡ holds seq.id (alloc_at pool)
      → Runs pool seq
      → Runs pool' seq
  Runs-stays pool pool' seq p h r = record {
    granted = Granted-stays pool pool' seq.id p h r.granted;
    going = r.going;
    opened = r.opened;
  }

  pub Fate-stays :
      (pool pool' : Option BlockPool) (seq : Sequence V L)
      → present (alloc_at pool') ≡ present (alloc_at pool)
      → holds seq.id (alloc_at pool') ≡ holds seq.id (alloc_at pool)
      → Fate pool seq
      → Fate pool' seq
  Fate-stays pool pool' seq p h (runs r) = runs (Runs-stays pool pool' seq p h r)
  Fate-stays pool pool' seq p h (is_gone g) = is_gone (record {
    unallocated = h ∙ g.unallocated;
    over = g.over;
    signalled = g.signalled;
    told = g.told;
  })

  -- What an action on one sequence of the batch leaves.
  pub record Stepped (sched : Scheduler V L) (id : ℕ) (done : Sequence V L × Scheduler V L)
      : Type 0 where
    pub books : Books done.1
    pub queue : done.1.queue ≡ sched.queue
    pub max_batch : done.1.max_batch ≡ sched.max_batch
    pub same_id : done.0.id ≡ id
    pub others : (i : ℕ) → id ≢ i → holds i (alloc_at done.1.pool) ≡ holds i (alloc_at sched.pool)
    pub presence : present (alloc_at done.1.pool) ≡ present (alloc_at sched.pool)
    pub fate : Fate done.1.pool done.0

  pub Settled-Stepped :
      (sched : Scheduler V L) (id : ℕ) (done : Sequence V L × Scheduler V L)
      → Settled sched id done
      → Stepped sched id done
  Settled-Stepped sched id done (ended seq after f over signalled told) = record {
    books = f.acts.books;
    queue = f.acts.queue;
    max_batch = f.acts.max_batch;
    same_id = f.acts.same_id;
    others = f.acts.others;
    presence = f.acts.presence;
    fate = is_gone (record {
      unallocated = subst (Unallocated after.pool) (sym f.acts.same_id) f.unallocated;
      over = over;
      signalled = signalled;
      told = told;
    });
  }
  Settled-Stepped sched id done (decodes seq after m going opened) = record {
    books = m.books;
    queue = m.queue;
    max_batch = m.max_batch;
    same_id = m.same_id;
    others = m.allocs.others;
    presence = m.allocs.presence;
    fate = runs (record {
      granted = subst (Granted after.pool) (sym m.same_id) m.allocs.granted;
      going = going;
      opened = opened;
    });
  }

  pub left_alone :
      (sched : Scheduler V L) (seq : Sequence V L)
      → Books sched
      → Fate sched.pool seq
      → Stepped sched seq.id (seq, sched)
  left_alone sched seq s f = record {
    books = s;
    queue = refl;
    max_batch = refl;
    same_id = refl;
    others = λ i _. refl;
    presence = refl;
    fate = f;
  }

  pub Runs-Midway :
      (sched : Scheduler V L) (seq : Sequence V L)
      → Books sched
      → Runs sched.pool seq
      → Midway sched seq.id seq sched
  Runs-Midway sched seq s r = record {
    books = s;
    queue = refl;
    max_batch = refl;
    same_id = refl;
    allocs = same-KeepsAllocs sched.pool sched.pool seq.id refl r.granted;
    told = r.opened.told;
  }

  -- What an action on the whole batch leaves: the same sequences, in order, each with its fate.
  pub record Swept (sched : Scheduler V L) (seqs : List (Sequence V L))
      (done : List (Sequence V L) × Scheduler V L) : Type 0 where
    pub books : Books done.1
    pub queue : done.1.queue ≡ sched.queue
    pub max_batch : done.1.max_batch ≡ sched.max_batch
    pub same_ids : ids done.0 ≡ ids seqs
    pub others :
        (i : ℕ)
        → count i (ids seqs) ≡ 0
        → holds i (alloc_at done.1.pool) ≡ holds i (alloc_at sched.pool)
    pub presence : present (alloc_at done.1.pool) ≡ present (alloc_at sched.pool)
    pub fates : All (Fate done.1.pool) done.0

  abbrev pub AreDistinct : List (Sequence V L) → Type 0
  AreDistinct seqs = (i : ℕ) → count i (ids seqs) ≤ 1

  pub cons-Swept :
      (sched : Scheduler V L) (seq : Sequence V L) (seqs : List (Sequence V L))
      (done : Sequence V L × Scheduler V L) (rest : List (Sequence V L) × Scheduler V L)
      → AreDistinct (seq ∷ seqs)
      → Stepped sched seq.id done
      → Swept done.1 seqs rest
      → Swept sched (seq ∷ seqs) (done.0 ∷ rest.0, rest.1)
  cons-Swept sched seq seqs done rest once a r =
      let absent : count done.0.id (ids seqs) ≡ 0 =
        ap (λ i. count i (ids seqs)) a.same_id
        ∙ ground (arith, once seq.id, nat_beq_iff seq.id seq.id) in
      record {
        books = r.books;
        queue = r.queue ∙ a.queue;
        max_batch = r.max_batch ∙ a.max_batch;
        same_ids = ap (λ i. i ∷ ids rest.0) a.same_id ∙ ap (λ l. seq.id ∷ l) r.same_ids;
        others = λ i none_of.
            r.others i (ground arith) ∙ a.others i (ground (arith, nat_beq_iff seq.id i));
        presence = r.presence ∙ a.presence;
        fates = (
          Fate-stays done.1.pool rest.1.pool done.0 r.presence (r.others done.0.id absent) a.fate,
          r.fates,
        );
      }

  pub tail_distinct :
      (seq : Sequence V L) (seqs : List (Sequence V L))
      → AreDistinct (seq ∷ seqs)
      → AreDistinct seqs
  tail_distinct seq seqs once i = ground (arith, once i)

  -- Those that come later are as they were.
  pub later_stay :
      (P : Option BlockPool → Sequence V L → Type 0)
      → ((pool pool' : Option BlockPool) (q : Sequence V L)
          → present (alloc_at pool') ≡ present (alloc_at pool)
          → holds q.id (alloc_at pool') ≡ holds q.id (alloc_at pool)
          → P pool q
          → P pool' q)
      → (sched : Scheduler V L) (id : ℕ) (done : Sequence V L × Scheduler V L)
        (seqs : List (Sequence V L))
      → Stepped sched id done
      → count id (ids seqs) ≡ 0
      → All (P sched.pool) seqs
      → All (P done.1.pool) seqs
  later_stay P stays sched id done [] a h all = tt
  later_stay P stays sched id done (q ∷ seqs) a h all = (
    stays sched.pool done.1.pool q a.presence (a.others q.id (ground (arith, nat_beq_iff q.id id)))
        all.0,
    later_stay P stays sched id done seqs a (ground arith) all.1,
  )
