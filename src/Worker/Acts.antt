-- ===== src/Worker/Acts.antt =====
-- What the functions of src/flux/engine/worker.py on one sequence do to the scheduler: each keeps the
-- books, the waiting queue and the allocations of every other sequence.
use Prim.Native.String.{String}
use flux_llm_inference_engin.Prelude.{
  ℕ, ◌+◌, List, [], ◌∷◌, ◌++◌, ◌≡◌, ◌≢◌, refl, sym, subst, ◌∙◌, ap, Option, none, some, true, arith,
  nat_beq_iff, nat_eq,
}
use flux_llm_inference_engin.Prelude.Dict.{Dict, get-del, del-Distinct}
use flux_llm_inference_engin.Sequence.{Sequence, aborted, finished, error}
use flux_llm_inference_engin.Pool.{BlockPool, alloc_at, holds, present, free}
use flux_llm_inference_engin.Pool.Balance.{places-free, Freeable, Freeable-stays, Freeable-fields}
use flux_llm_inference_engin.Prefix.{PrefixEntry}
use flux_llm_inference_engin.Prefix.Ledger.{IsSound, held}
use flux_llm_inference_engin.Scheduler.{Scheduler, release_in}
use flux_llm_inference_engin.Scheduler.Books.{
  Books, BooksAt, pins_at, entries_at, Unallocated, release_at-Books, release_at-alloc,
}
use flux_llm_inference_engin.Engine.{Engine, pack_result}
use flux_llm_inference_engin.Worker.{
  free_at, forget_caches, release_seq, signal_end, end_as, abort_one, finish_sequence, fail_one,
  is_over, reason_or_length,
}

module _ {V L : Type 0} where
  -- What every action on the sequence `id` keeps.
  pub record Acts (sched : Scheduler V L) (id : ℕ) (done : Sequence V L × Scheduler V L)
      : Type 0 where
    pub books : Books done.1
    pub queue : done.1.queue ≡ sched.queue
    pub max_batch : done.1.max_batch ≡ sched.max_batch
    pub same_id : done.0.id ≡ id
    pub others : (i : ℕ) → id ≢ i → holds i (alloc_at done.1.pool) ≡ holds i (alloc_at sched.pool)
    pub presence : present (alloc_at done.1.pool) ≡ present (alloc_at sched.pool)

  free-IsSound :
      (pool : BlockPool) (pins : Dict ℕ ℕ) (entries : Dict (List ℕ) (PrefixEntry V L))
      (seq : Sequence V L)
      → IsSound pool pins entries
      → Freeable (some pool) seq
      → IsSound (free pool seq).0 pins entries
  unfolding free
  free-IsSound pool pins entries seq s f = record {
    balanced = λ b. ap (λ p. p + held pins b) (places-free b pool seq f) ∙ s.balanced b;
    pinned = s.pinned;
    distinct_alloc = del-Distinct seq.id pool.alloc s.distinct_alloc;
    distinct_pins = s.distinct_pins;
    distinct_keys = s.distinct_keys;
    keyed = s.keyed;
    idle = s.idle;
  }

  -- The sequence was freed: nothing is held for it, and it says so itself.
  pub record Frees (sched : Scheduler V L) (id : ℕ) (done : Sequence V L × Scheduler V L)
      : Type 0 where
    pub acts : Acts sched id done
    pub unallocated : Unallocated done.1.pool id
    pub freeable : Freeable done.1.pool done.0

  free_at-Frees :
      (seq : Sequence V L) (sched : Scheduler V L) (o : Option BlockPool)
      → sched.pool ≡ o
      → BooksAt o sched.prefix_cache
      → Freeable o seq
      → Frees sched seq.id (free_at seq sched o)
  unfolding free
  free_at-Frees seq sched none p s f = record {
    acts = record {
      books = subst (λ o. BooksAt o sched.prefix_cache) (sym p) s;
      queue = refl;
      max_batch = refl;
      same_id = refl;
      others = λ i other. refl;
      presence = refl;
    };
    unallocated = ap (λ o. holds seq.id (alloc_at o)) p;
    freeable = subst (λ o. Freeable o seq) (sym p) tt;
  }
  free_at-Frees seq sched (some pool) p s f = record {
    acts = record {
      books =
          free-IsSound pool (pins_at sched.prefix_cache) (entries_at sched.prefix_cache) seq s f;
      queue = refl;
      max_batch = refl;
      same_id = refl;
      others = λ i other.
          ground (arith, get-del seq.id i pool.alloc s.distinct_alloc, nat_beq_iff seq.id i)
          ∙ ap (λ o. holds i (alloc_at o)) (sym p);
      presence = ap (λ o. present (alloc_at o)) (sym p);
    };
    unallocated =
        ground
          (arith, get-del seq.id seq.id pool.alloc s.distinct_alloc, nat_beq_iff seq.id seq.id);
    freeable = λ absent. refl;
  }

  -- `_release`, for a sequence whose blocks the pool knows of, leaves nothing allocated to it, and keeps
  -- the books, the queue and the other allocations.
  pub release_seq-Frees :
      (seq : Sequence V L) (sched : Scheduler V L)
      → Books sched
      → Freeable sched.pool seq
      → Frees sched seq.id (release_seq seq sched)
  unfolding release_seq
  release_seq-Frees seq sched s f =
      let mid = release_in seq.prefix_key sched in
      let kept = release_at-alloc seq.prefix_key sched.pool sched.prefix_cache in
      let freed =
        free_at-Frees seq mid mid.pool refl
          (release_at-Books seq.prefix_key sched.pool sched.prefix_cache s)
          (Freeable-stays sched.pool mid.pool seq kept f) in
      record {
        acts = record {
          books = freed.acts.books;
          queue = freed.acts.queue;
          max_batch = freed.acts.max_batch;
          same_id = freed.acts.same_id;
          others = λ i other. freed.acts.others i other ∙ ap (holds i) kept;
          presence = freed.acts.presence ∙ ap present kept;
        };
        unallocated = freed.unallocated;
        freeable = freeable_kept (free_at seq mid mid.pool) freed.freeable;
      }
    where
      freeable_kept :
          (done : Sequence V L × Scheduler V L)
          → Freeable done.1.pool done.0
          → Freeable done.1.pool (forget_caches done.0)
      freeable_kept (seq', sched') f' =
          Freeable-fields sched'.pool seq' (forget_caches seq') refl refl refl f'

  free_at_status :
      (seq : Sequence V L) (sched : Scheduler V L) (o : Option BlockPool)
      → ((free_at seq sched o).0.status ≡ seq.status)
        × ((free_at seq sched o).0.token_queue ≡ seq.token_queue)
  unfolding free
  free_at_status seq sched none = (refl, refl)
  free_at_status seq sched (some pool) = (refl, refl)

  -- The end of a sequence: it is freed, its client is woken, and the last item that the client reads
  -- is the end mark.
  pub record Ends (sched : Scheduler V L) (id : ℕ) (queue : List (Option ℕ))
      (done : Sequence V L × Scheduler V L) : Type 0 where
    pub frees : Frees sched id done
    pub signalled : done.0.finished_event ≡ true
    pub over : is_over done.0.status ≡ true
    pub told : done.0.token_queue ≡ queue ++ none ∷ []

  end_as-Ends :
      (seq : Sequence V L) (sched : Scheduler V L)
      → Books sched
      → Freeable sched.pool seq
      → is_over seq.status ≡ true
      → Ends sched seq.id seq.token_queue (end_as seq sched)
  unfolding release_seq
  end_as-Ends seq sched s f over =
      let mid = release_in seq.prefix_key sched in
      let freed = release_seq-Frees seq sched s f in
      record {
        frees = record {
          acts = record {
            books = freed.acts.books;
            queue = freed.acts.queue;
            max_batch = freed.acts.max_batch;
            same_id = freed.acts.same_id;
            others = freed.acts.others;
            presence = freed.acts.presence;
          };
          unallocated = freed.unallocated;
          freeable =
              Freeable-fields (release_seq seq sched).1.pool (release_seq seq sched).0
                (signal_end (release_seq seq sched).0) refl refl refl freed.freeable;
        };
        signalled = refl;
        over = ap is_over (free_at_status seq mid mid.pool).0 ∙ over;
        told = ap (λ q. q ++ none ∷ []) (free_at_status seq mid mid.pool).1;
      }

  module _ (seq : Sequence V L) (sched : Scheduler V L) (s : Books sched)
      (f : Freeable sched.pool seq) where
    -- `_abort_one`, for a sequence whose blocks the pool knows of, frees them all, wakes the client,
    -- puts the end mark last, and keeps the books and the other allocations.
    pub abort_one-Ends : Ends sched seq.id seq.token_queue (abort_one seq sched)
    unfolding abort_one
    abort_one-Ends =
        let seq' = record seq { status = aborted } in
        end_as-Ends seq' sched s (Freeable-fields sched.pool seq seq' refl refl refl f) refl

    -- The handler of an error of the engine, for a sequence whose blocks the pool knows of, frees them
    -- all, wakes the client, puts the end mark last, and keeps the books and the other allocations.
    pub fail_one-Ends : (e : String) → Ends sched seq.id seq.token_queue (fail_one e seq sched)
    unfolding fail_one
    fail_one-Ends e =
        let seq' = record seq { error = some e; status = error } in
        end_as-Ends seq' sched s (Freeable-fields sched.pool seq seq' refl refl refl f) refl

    -- `_finish_sequence`, for a sequence whose blocks the pool knows of, frees them all, wakes the client,
    -- puts the end mark last, and keeps the books and the other allocations.
    pub finish_sequence-Ends :
        (engine : Engine V L) (name : String)
        → Ends sched seq.id seq.token_queue (finish_sequence engine name seq sched)
    unfolding finish_sequence
    finish_sequence-Ends engine name =
        let seq' = record seq {
          result = some (
              pack_result engine.decode_text seq.prompt_ids seq.output_ids
                (reason_or_length seq.finish_reason) name);
          status = finished;
        } in
        end_as-Ends seq' sched s (Freeable-fields sched.pool seq seq' refl refl refl f) refl
