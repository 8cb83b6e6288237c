-- ===== src/Scheduler/Books.antt =====
-- What `Scheduler` of src/flux/engine/scheduler.py keeps: the books of the pool and the cache, and a
-- waiting queue whose members hold nothing.
use flux_llm_inference_engin.Prelude.{
  ℕ, ◌+◌, List, [], ◌≡◌, ◌≢◌, refl, sym, subst, ◌∙◌, ap, Option, none, some, Bool, true, false,
  arith, nat_beq_iff, nat_eq, tokens_eq, count, range,
}
use flux_llm_inference_engin.Prelude.Dict.{Dict, get}
use flux_llm_inference_engin.Sequence.{Sequence}
use flux_llm_inference_engin.Pool.{BlockPool, alloc_at, holds, present, allocate}
use flux_llm_inference_engin.Pool.Balance.{places-allocate, allocate-Allocated, Granted}
use flux_llm_inference_engin.Prefix.{PrefixCache, PrefixHit, PrefixEntry}
use flux_llm_inference_engin.Prefix.Ledger.{IsSound, SoundAt, held}
use flux_llm_inference_engin.Prefix.Ledger.Acquire.{lookup-Sound}
use flux_llm_inference_engin.Prefix.Ledger.Release.{release_key-Sound}
use flux_llm_inference_engin.Prefix.Allocations.{alloc_at-lookup, alloc_at-release_key}
use flux_llm_inference_engin.Scheduler.{
  Scheduler, lookup_at, release_at, allocate_at, allocated, try_allocate, hit_key, apply_hit,
}

-- The pool holds nothing for a sequence.
abbrev pub Unallocated : Option BlockPool → ℕ → Type 0
Unallocated pool id = holds id (alloc_at pool) ≡ none

module _ {V L : Type 0} where
  abbrev pub pins_at : Option (PrefixCache V L) → Dict ℕ ℕ
  pins_at none = []
  pins_at (some cache) = cache.block_pins

  abbrev pub entries_at : Option (PrefixCache V L) → Dict (List ℕ) (PrefixEntry V L)
  entries_at none = []
  entries_at (some cache) = cache.entries

  -- The books of a pool and a cache that both may be absent.
  abbrev pub BooksAt : Option BlockPool → Option (PrefixCache V L) → Type 0
  BooksAt pool cache = SoundAt pool (pins_at cache) (entries_at cache)

  abbrev pub Books : Scheduler V L → Type 0
  Books sched = BooksAt sched.pool sched.prefix_cache

  lookup_at-Books :
      (now : ℕ) (token_ids : List ℕ) (sched : Scheduler V L) (o : Option (PrefixCache V L))
      → sched.prefix_cache ≡ o
      → BooksAt sched.pool o
      → Books (lookup_at now token_ids sched o).1
  lookup_at-Books now token_ids sched none e s = rw e s
  lookup_at-Books now token_ids sched (some cache) e s =
      lookup-Sound now token_ids (record { pool = sched.pool; cache = cache }) s

  lookup_at-alloc :
      (now : ℕ) (token_ids : List ℕ) (sched : Scheduler V L) (o : Option (PrefixCache V L))
      → alloc_at (lookup_at now token_ids sched o).1.pool ≡ alloc_at sched.pool
  lookup_at-alloc now token_ids sched none = refl
  lookup_at-alloc now token_ids sched (some cache) =
      alloc_at-lookup now token_ids (record { pool = sched.pool; cache = cache })

  pub release_at-Books :
      (key : Option (List ℕ)) (pool : Option BlockPool) (cache : Option (PrefixCache V L))
      → BooksAt pool cache
      → BooksAt (release_at key pool cache).0 (release_at key pool cache).1
  release_at-Books key pool none s = s
  release_at-Books key pool (some cache) s =
      release_key-Sound key (record { pool = pool; cache = cache }) s

  pub release_at-alloc :
      (key : Option (List ℕ)) (pool : Option BlockPool) (cache : Option (PrefixCache V L))
      → alloc_at (release_at key pool cache).0 ≡ alloc_at pool
  release_at-alloc key pool none = refl
  release_at-alloc key pool (some cache) =
      alloc_at-release_key key (record { pool = pool; cache = cache })

  -- What an attempt to allocate for a sequence does to the pool and the sequence.
  pub record Allocates (sched : Scheduler V L) (seq : Sequence V L)
      (done : Bool × Scheduler V L × Sequence V L) : Type 0 where
    pub books : Books done.1
    pub queue : done.1.queue ≡ sched.queue
    pub same_id : done.2.id ≡ seq.id
    pub others :
        (id : ℕ) → seq.id ≢ id → holds id (alloc_at done.1.pool) ≡ holds id (alloc_at sched.pool)
    pub presence : present (alloc_at done.1.pool) ≡ present (alloc_at sched.pool)
    pub granted : done.0 ≡ true → Granted done.1.pool seq.id
    pub failed : done.0 ≡ false → (done.2 ≡ seq) × Unallocated done.1.pool seq.id

  allocate-IsSound :
      (pool : BlockPool) (pins : Dict ℕ ℕ) (entries : Dict (List ℕ) (PrefixEntry V L))
      (seq : Sequence V L) (n : ℕ) {ids : List ℕ} {pool' : BlockPool} {seq' : Sequence V L}
      → IsSound pool pins entries
      → get seq.id pool.alloc ≡ none
      → allocate pool seq n ≡ some (ids, pool', seq')
      → IsSound pool' pins entries
  allocate-IsSound pool pins entries seq n {ids} {pool'} {seq'} s fresh e = record {
    balanced = λ b.
        ap (λ p. p + held pins b) (places-allocate b pool seq n fresh e)
        ∙ s.balanced b
        ∙ ap (λ k. count b (range k)) (sym (allocate-Allocated pool seq n e).size);
    pinned = s.pinned;
    distinct_alloc = (allocate-Allocated pool seq n e).distinct s.distinct_alloc;
    distinct_pins = s.distinct_pins;
    distinct_keys = s.distinct_keys;
    keyed = s.keyed;
    idle = s.idle;
  }

  apply_hit-id :
      (hit : Option (PrefixHit V L)) (seq : Sequence V L) → (apply_hit hit seq).id ≡ seq.id
  unfolding apply_hit
  apply_hit-id none seq = refl
  apply_hit-id (some hit) seq = refl

  allocated-Allocates :
      (sched : Scheduler V L) (seq : Sequence V L) (hit : Option (PrefixHit V L)) (pool : BlockPool)
      (n : ℕ) (o : Option (List ℕ × BlockPool × Sequence V L))
      → allocate pool seq n ≡ o
      → sched.pool ≡ some pool
      → Books sched
      → Unallocated sched.pool seq.id
      → Allocates sched seq (allocated sched seq hit o)
  allocated-Allocates sched seq hit pool n none e p s fresh =
      let kept = release_at-alloc (hit_key hit) sched.pool sched.prefix_cache in
      record {
        books = release_at-Books (hit_key hit) sched.pool sched.prefix_cache s;
        queue = refl;
        same_id = refl;
        others = λ id other. ap (holds id) kept;
        presence = ap present kept;
        granted = λ h. cc;
        failed = λ _. (refl, ap (holds seq.id) kept ∙ fresh);
      }
  allocated-Allocates sched seq hit pool n (some (ids, pool', seq')) e p s fresh =
      let a = allocate-Allocated pool seq n e in
      record {
        books =
            allocate-IsSound pool (pins_at sched.prefix_cache) (entries_at sched.prefix_cache) seq n
              (subst (λ o. BooksAt o sched.prefix_cache) p s)
              (subst (λ o. Unallocated o seq.id) p fresh) e;
        queue = refl;
        same_id =
            apply_hit-id hit (record seq' { owned_block_ids = ids })
            ∙ ap (λ (q : Sequence V L). q.id) a.sequence;
        others = λ id other.
            ground (arith, a.found id, nat_beq_iff seq.id id, ap (λ q. holds id (alloc_at q)) p);
        presence = ap (λ o. present (alloc_at o)) (sym p);
        granted = λ _. (ids, ground (arith, a.found seq.id, nat_beq_iff seq.id seq.id));
        failed = λ h. cc;
      }

  allocate_at-Allocates :
      (sched : Scheduler V L) (seq : Sequence V L) (hit : Option (PrefixHit V L))
      (o : Option BlockPool)
      → sched.pool ≡ o
      → Books sched
      → Unallocated sched.pool seq.id
      → Allocates sched seq (allocate_at sched seq hit o)
  allocate_at-Allocates sched seq hit none p s fresh = record {
    books = s;
    queue = refl;
    same_id = apply_hit-id hit seq;
    others = λ id other. refl;
    presence = refl;
    granted = λ _. rw p tt;
    failed = λ h. cc;
  }
  allocate_at-Allocates sched seq hit (some pool) p s fresh =
      allocated-Allocates sched seq hit pool _ _ refl p s fresh

  pub lookup_at-queue :
      (now : ℕ) (token_ids : List ℕ) (sched : Scheduler V L) (o : Option (PrefixCache V L))
      → (lookup_at now token_ids sched o).1.queue ≡ sched.queue
  lookup_at-queue now token_ids sched none = refl
  lookup_at-queue now token_ids sched (some cache) = refl

  -- `_try_allocate`, for a sequence that holds nothing, keeps the books, the queue and the allocations of
  -- other sequences. If it fails, the sequence is as it was and still holds nothing.
  pub try_allocate-Allocates :
      (now : ℕ) (sched : Scheduler V L) (seq : Sequence V L)
      → Books sched
      → Unallocated sched.pool seq.id
      → Allocates sched seq (try_allocate now sched seq)
  unfolding try_allocate
  try_allocate-Allocates now sched seq s fresh =
      let looked = (lookup_at now seq.prompt_ids sched sched.prefix_cache).1 in
      let hit = (lookup_at now seq.prompt_ids sched sched.prefix_cache).0 in
      let kept = lookup_at-alloc now seq.prompt_ids sched sched.prefix_cache in
      let a =
        allocate_at-Allocates looked seq hit looked.pool refl
          (lookup_at-Books now seq.prompt_ids sched sched.prefix_cache refl s)
          (ap (holds seq.id) kept ∙ fresh) in
      record {
        books = a.books;
        queue = a.queue ∙ lookup_at-queue now seq.prompt_ids sched sched.prefix_cache;
        same_id = a.same_id;
        others = λ id other. a.others id other ∙ ap (holds id) kept;
        presence = a.presence ∙ ap present kept;
        granted = a.granted;
        failed = a.failed;
      }
