-- ===== src/Serving.antt =====
-- src/flux/engine/serving.py, and build_engine of src/flux/server/app.py: which engine serves, and the worker
-- with its queue, pool and prefix cache. The four attributes that attach_worker sets on the application
-- are one value: the pool and the cache stand in the scheduler. An exception is its text.
pub mod Start
use Prim.Native.String.{String}
use flux_llm_inference_engin.Prelude.{
  ℕ, [], ◌∷◌, Bool, true, false, ◌||◌, not, Option, none, some, codes, strip, lower, is_among,
  is_empty, read_int, if◌then◌else◌,
}
use flux_llm_inference_engin.Config.{Str, Settings}
use flux_llm_inference_engin.Outcome.{Outcome, ok, raised}
use flux_llm_inference_engin.Pool.{BlockPool, resolve_num_kv_blocks, new as new_pool}
use flux_llm_inference_engin.Prefix.{PrefixCache, new as new_cache}
use flux_llm_inference_engin.Scheduler.{Scheduler, Policy, fcfs, memory_fit, empty_queue}
use flux_llm_inference_engin.Worker.{Worker, top}

pub data Mode : Type 0 where
  naive cached queued continuous : Mode

-- `(name or fallback).strip().lower()`
abbrev pub cleaned : String → Str → Str
cleaned fallback name = lower (strip (if is_empty name then codes fallback else name))

abbrev mode_named : Str → Mode
mode_named value =
    if is_among value ("naive" ∷ [])
    then naive
    else if is_among value ("cached" ∷ [])
    then cached
    else if is_among value ("queued" ∷ [])
    then queued
    else continuous

unfoldable pub normalize_serve_engine : Str → Mode
normalize_serve_engine name = mode_named (cleaned "continuous" name)

-- `mode in WORKER_ENGINES`
abbrev pub is_worker_mode : Mode → Bool
is_worker_mode queued = true
is_worker_mode continuous = true
is_worker_mode _ = false

-- The class of the engine, if there is one.
pub data EngineKind : Type 0 where
  naive_engine cached_engine : EngineKind

abbrev kind_for : Mode → EngineKind
kind_for naive = naive_engine
kind_for _ = cached_engine

-- `build_engine`: the class of the engine that it makes.
unfoldable pub build_engine : Settings → EngineKind
build_engine settings = kind_for (normalize_serve_engine settings.serve_engine)

-- `Scheduler.__init__` on the policy's name.
unfoldable pub policy_for : Str → Policy
policy_for name = if is_among (cleaned "fcfs" name) ("memory_fit" ∷ []) then memory_fit else fcfs

-- The setting as resolve_num_kv_blocks reads it: "auto", a number, or a text that int refuses.
abbrev blocks_given : Option ℕ → Outcome (Option ℕ)
blocks_given none = raised "invalid literal for int()"
blocks_given (some n) = ok (some n)

unfoldable pub blocks_setting : Str → Outcome (Option ℕ)
blocks_setting text =
    let raw = lower (strip text) in
    if is_empty raw || is_among raw ("auto" ∷ []) then ok none else blocks_given (read_int raw)

abbrev pub num_blocks_or_raise : Settings → ℕ → ℕ → Outcome (Option ℕ) → Option ℕ
num_blocks_or_raise settings bytes_per_token ram (raised e) = none
num_blocks_or_raise settings bytes_per_token ram (ok given) =
    resolve_num_kv_blocks given bytes_per_token ram settings.block_size settings.max_batch_size
      settings.max_seq_len

-- The blocks of the pool; `none` is an exception.
unfoldable pub num_blocks_for : Settings → (bytes_per_token ram : ℕ) → Option ℕ
num_blocks_for settings bytes_per_token ram =
    num_blocks_or_raise settings bytes_per_token ram (blocks_setting settings.num_kv_blocks)

abbrev pub pool_with : ℕ → Option ℕ → Option BlockPool
pool_with block_size none = none
pool_with block_size (some num_blocks) = new_pool num_blocks block_size

pub data Attached (V L : Type 0) : Type 0 where
  detached : Attached V L
  queued_worker : Worker V L → Attached V L
  continuous_worker : Worker V L → Attached V L

module _ {V L : Type 0} where
  -- `app.state.scheduler`
  abbrev pub scheduler_of : Attached V L → Option (Scheduler V L)
  scheduler_of detached = none
  scheduler_of (queued_worker w) = some w.sched
  scheduler_of (continuous_worker w) = some w.sched

  -- `app.state.worker`
  abbrev pub worker_of : Attached V L → Option (Worker V L)
  worker_of detached = none
  worker_of (queued_worker w) = some w
  worker_of (continuous_worker w) = some w

  abbrev pub cache_for : Settings → Option (PrefixCache V L)
  cache_for settings =
      if settings.enable_prefix_cache
      then some (new_cache settings.prefix_cache_max_entries 8 settings.block_size)
      else none

  abbrev pub scheduler_with : Settings → BlockPool → Scheduler V L
  scheduler_with settings pool = record {
    queue = empty_queue settings.max_waiting;
    max_batch = settings.max_batch_size;
    pool = some pool;
    prefix_cache = cache_for settings;
    policy = policy_for settings.scheduler;
  }

  -- `ContinuousWorker(engine, scheduler)`, before `run`. Of a `QueuedWorker`, the record is what its
  -- statistics hold, and nobody is admitted in it.
  abbrev pub new_worker : Scheduler V L → Worker V L
  new_worker sched = record {
    sched = sched;
    phase = top;
    admitted = [];
    running = [];
    gone = [];
    last_batch_size = 0;
  }

  abbrev pub worker_for : Mode → Scheduler V L → Attached V L
  worker_for queued sched = queued_worker (new_worker sched)
  worker_for _ sched = continuous_worker (new_worker sched)

  abbrev pub attach_with : Settings → Mode → Option BlockPool → Outcome (Attached V L)
  attach_with settings mode none = raised "ValueError"
  attach_with settings mode (some pool) = ok (worker_for mode (scheduler_with settings pool))

  abbrev pub attach_engine :
      Settings → (bytes_per_token ram : ℕ) → Mode → Option EngineKind → Outcome (Attached V L)
  attach_engine settings bytes_per_token ram mode (some cached_engine) =
      attach_with settings mode
        (pool_with settings.block_size (num_blocks_for settings bytes_per_token ram))
  attach_engine settings bytes_per_token ram mode _ = ok detached

  -- `attach_worker`, from the class of the engine, the bytes per token of its model and the host's RAM.
  unfoldable pub attach_worker :
      Settings → Option EngineKind → (bytes_per_token ram : ℕ) → Outcome (Attached V L)
  unfolding build_engine normalize_serve_engine
  attach_worker settings engine bytes_per_token ram =
      let mode = normalize_serve_engine settings.serve_engine in
      if not (is_worker_mode mode)
      then ok detached
      else attach_engine settings bytes_per_token ram mode engine
