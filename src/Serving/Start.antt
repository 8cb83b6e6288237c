-- ===== src/Serving/Start.antt =====
-- The worker that src/flux/engine/serving.py attaches: what it is like before its loop runs.
use Prim.Native.String.{String}
use flux_llm_inference_engin.Prelude.{
  ℕ, ◌<◌, [], ◌≡◌, refl, sym, subst, ap, Option, none, some, true, false, not, arith, if_ind,
  nat_eq, ◌⊎◌, inl, inr, ◌≢◌,
}
use flux_llm_inference_engin.Prelude.Dict.{get, Distinct}
use flux_llm_inference_engin.Outcome.{Outcome, ok, raised}
use flux_llm_inference_engin.Config.{Settings}
use flux_llm_inference_engin.Pool.{BlockPool, new as new_pool, resolve_num_kv_blocks}
use flux_llm_inference_engin.Pool.Balance.{new-IsBalanced}
use flux_llm_inference_engin.Prefix.{new as new_cache}
use flux_llm_inference_engin.Prefix.Ledger.{IsSound}
use flux_llm_inference_engin.Scheduler.{Scheduler}
use flux_llm_inference_engin.Scheduler.Books.{Books, BooksAt}
use flux_llm_inference_engin.Worker.{Worker, top}
use flux_llm_inference_engin.Worker.Safety.{Works}
use flux_llm_inference_engin.Serving.{
  Mode, queued, continuous, naive, cached, Attached, detached, queued_worker, continuous_worker,
  attach_worker, EngineKind, naive_engine, cached_engine, scheduler_with, new_worker,
  is_worker_mode, normalize_serve_engine, num_blocks_for, num_blocks_or_raise, blocks_setting,
  pool_with, attach_with, attach_engine,
}

new_pool-fields :
    (num_blocks block_size : ℕ) (pool : BlockPool)
    → new_pool num_blocks block_size ≡ some pool
    → (pool.alloc ≡ []) × (pool.num_blocks ≡ num_blocks)
unfolding new_pool
new_pool-fields num_blocks block_size pool h = ground arith

new_pool-sizes :
    (num_blocks block_size : ℕ) (pool : BlockPool)
    → new_pool num_blocks block_size ≡ some pool
    → (pool.block_size ≡ block_size) × (0 < block_size)
unfolding new_pool
new_pool-sizes num_blocks block_size pool h = ground arith

resolved_some :
    (given : Option ℕ) (bpt ram block_size max_batch_size max_seq_len n : ℕ)
    → resolve_num_kv_blocks given bpt ram block_size max_batch_size max_seq_len ≡ some n
    → 0 < n
unfolding resolve_num_kv_blocks
resolved_some none bpt ram block_size max_batch_size max_seq_len n h = ground arith
resolved_some (some m) bpt ram block_size max_batch_size max_seq_len n h = ground arith

new_pool-none :
    (num_blocks block_size : ℕ)
    → 0 < num_blocks
    → new_pool num_blocks block_size ≡ none
    → block_size ≡ 0
unfolding new_pool
new_pool-none num_blocks block_size pos h = ground arith

num_blocks-positive :
    (settings : Settings) (bytes_per_token ram n : ℕ)
    → num_blocks_for settings bytes_per_token ram ≡ some n
    → 0 < n
unfolding num_blocks_for
num_blocks-positive settings bytes_per_token ram n =
    by_setting (blocks_setting settings.num_kv_blocks)
  where
    by_setting :
        (o : Outcome (Option ℕ))
        → num_blocks_or_raise settings bytes_per_token ram o ≡ some n
        → 0 < n
    by_setting (raised e) h = cc
    by_setting (ok given) h =
        resolved_some given bytes_per_token ram settings.block_size settings.max_batch_size
          settings.max_seq_len n h

fresh-IsSound :
    {V L : Type 0} (num_blocks block_size : ℕ) (pool : BlockPool)
    → new_pool num_blocks block_size ≡ some pool
    → IsSound {V = V} {L = L} pool [] []
unfolding get
fresh-IsSound num_blocks block_size pool h = record {
  balanced = new-IsBalanced num_blocks block_size pool h;
  pinned = λ b. refl;
  distinct_alloc = subst Distinct (sym (new_pool-fields num_blocks block_size pool h).0) tt;
  distinct_pins = tt;
  distinct_keys = tt;
  keyed = tt;
  idle = tt;
}

module _ {V L : Type 0} where
  fresh-Books :
      (settings : Settings) (num_blocks : ℕ) (pool : BlockPool)
      → new_pool num_blocks settings.block_size ≡ some pool
      → Books {V = V} {L = L} (scheduler_with settings pool)
  unfolding new_cache
  fresh-Books settings num_blocks pool h =
      if_ind (BooksAt {V = V} {L = L} (some pool)) settings.enable_prefix_cache
        (λ _. fresh-IsSound num_blocks settings.block_size pool h)
        (λ _. fresh-IsSound num_blocks settings.block_size pool h)

  fresh-Works :
      (settings : Settings) (num_blocks : ℕ) (pool : BlockPool)
      → new_pool num_blocks settings.block_size ≡ some pool
      → Works {V = V} {L = L} (new_worker (scheduler_with settings pool))
  unfolding get
  fresh-Works settings num_blocks pool h = record {
    safe = record {
      books = fresh-Books settings num_blocks pool h;
      one_place = λ i. omega arith;
      waiting = tt;
      admitted = tt;
      running = tt;
      gone = tt;
      only = λ i _. ap (get i) (new_pool-fields num_blocks settings.block_size pool h).0;
    };
    none_at_top = λ _. refl;
  }

  -- A scheduler as the settings say, with nobody waiting and its books in order.
  pub record IsFresh (settings : Settings) (sched : Scheduler V L) : Type 0 where
    pub books : Books sched
    pub nobody : sched.queue.waiting_list ≡ []
    pub max_waiting : sched.queue.max_waiting ≡ settings.max_waiting
    pub max_batch : sched.max_batch ≡ settings.max_batch_size
    pub pool : BlockPool
    pub pooled : sched.pool ≡ some pool
    pub block_size : pool.block_size ≡ settings.block_size
    pub sized : 0 < pool.block_size

  -- What attach_worker may come to, from the settings, the engine and the number of blocks.
  pub data Attachment (settings : Settings) (engine : Option EngineKind) (blocks : Option ℕ)
      : Outcome (Attached V L) → Type 0 where
    unattached :
        (is_worker_mode (normalize_serve_engine settings.serve_engine) ≡ false)
          ⊎ (engine ≢ some cached_engine)
        → Attachment settings engine blocks (ok detached)
    unsized :
        (e : String)
        → (blocks ≡ none) ⊎ (settings.block_size ≡ 0)
        → Attachment settings engine blocks (raised e)
    attached_queued :
        (w : Worker V L)
        → normalize_serve_engine settings.serve_engine ≡ queued
        → IsFresh settings w.sched
        → w.running ≡ []
        → Attachment settings engine blocks (ok (queued_worker w))
    attached_continuous :
        (w : Worker V L)
        → normalize_serve_engine settings.serve_engine ≡ continuous
        → IsFresh settings w.sched
        → w.phase ≡ top
        → w.running ≡ []
        → Works w
        → Attachment settings engine blocks (ok (continuous_worker w))

  scheduler_with-IsFresh :
      (settings : Settings) (num_blocks : ℕ) (pool : BlockPool)
      → new_pool num_blocks settings.block_size ≡ some pool
      → IsFresh settings (scheduler_with settings pool)
  scheduler_with-IsFresh settings num_blocks pool h =
      let sizes = new_pool-sizes num_blocks settings.block_size pool h in
      record {
        books = fresh-Books settings num_blocks pool h;
        nobody = refl;
        max_waiting = refl;
        max_batch = refl;
        pool = pool;
        pooled = refl;
        block_size = sizes.0;
        sized = omega (arith, sizes.0, sizes.1);
      }

  attach_with-Attachment :
      (settings : Settings) (engine : Option EngineKind) (blocks : Option ℕ) (mode : Mode) (n : ℕ)
      (o : Option BlockPool)
      → normalize_serve_engine settings.serve_engine ≡ mode
      → is_worker_mode mode ≡ true
      → 0 < n
      → new_pool n settings.block_size ≡ o
      → Attachment settings engine blocks (attach_with settings mode o)
  attach_with-Attachment settings engine blocks mode n none m e pos h =
      unsized "ValueError" (inr (new_pool-none n settings.block_size pos h))
  attach_with-Attachment settings engine blocks naive n (some pool) m e pos h = cc
  attach_with-Attachment settings engine blocks cached n (some pool) m e pos h = cc
  attach_with-Attachment settings engine blocks queued n (some pool) m e pos h =
      attached_queued (new_worker (scheduler_with settings pool)) m
        (scheduler_with-IsFresh settings n pool h) refl
  attach_with-Attachment settings engine blocks continuous n (some pool) m e pos h =
      attached_continuous (new_worker (scheduler_with settings pool)) m
        (scheduler_with-IsFresh settings n pool h) refl refl (fresh-Works settings n pool h)

  blocks-Attachment :
      (settings : Settings) (engine : Option EngineKind) (mode : Mode) (blocks : Option ℕ)
      → normalize_serve_engine settings.serve_engine ≡ mode
      → is_worker_mode mode ≡ true
      → ((n : ℕ) → blocks ≡ some n → 0 < n)
      → Attachment settings engine blocks
          (attach_with settings mode (pool_with settings.block_size blocks))
  blocks-Attachment settings engine mode none m e pos = unsized "ValueError" (inl refl)
  blocks-Attachment settings engine mode (some n) m e pos =
      attach_with-Attachment settings engine (some n) mode n (new_pool n settings.block_size) m e
        (pos n refl) refl

  module _ (settings : Settings) (bytes_per_token ram : ℕ) where
    engine-Attachment :
        (engine : Option EngineKind) (mode : Mode)
        → normalize_serve_engine settings.serve_engine ≡ mode
        → is_worker_mode mode ≡ true
        → Attachment settings engine
            (num_blocks_for settings bytes_per_token ram)
            (attach_engine settings bytes_per_token ram mode engine)
    engine-Attachment none mode m e = unattached (inr (λ h. cc))
    engine-Attachment (some naive_engine) mode m e = unattached (inr (λ h. cc))
    engine-Attachment (some cached_engine) mode m e =
        blocks-Attachment settings (some cached_engine) mode
          (num_blocks_for settings bytes_per_token ram) m e
          (num_blocks-positive settings bytes_per_token ram)

    -- attach_worker, whatever the settings: no worker where the mode asks for none or the engine is not
    -- the cached one; an exception only where the number of blocks is none or a block has no size; else
    -- the worker of the mode, with an empty queue, the bounds of the settings and its books in order,
    -- and a continuous worker that works, which is where the theorem on all its steps starts.
    pub attach_worker-Attachment :
        (engine : Option EngineKind)
        → Attachment settings engine
            (num_blocks_for settings bytes_per_token ram)
            (attach_worker settings engine bytes_per_token ram)
    unfolding attach_worker
    attach_worker-Attachment engine =
        let mode = normalize_serve_engine settings.serve_engine in
        if_ind (Attachment settings engine (num_blocks_for settings bytes_per_token ram))
          (not (is_worker_mode mode)) (λ h. unattached (inl (ground (arith, h))))
          (λ h. engine-Attachment engine mode refl (ground (arith, h)))
