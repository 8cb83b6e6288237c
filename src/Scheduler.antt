-- ===== src/Scheduler.antt =====
-- `Scheduler` of src/flux/engine/scheduler.py: submission and admission under the two policies. The
-- scheduler and the prefix cache hold the same pool, so it stands here once. `time.time()`, which
-- `lookup` reads, is an argument, constant over one call of `admit`.
mod Queue
pub mod Books
pub mod Moved
pub mod Admission
pub mod Policies
pub mod Progress
pub mod Life
pub mod Limits
pub use Queue.{RequestQueue}
unfoldable pub use Queue.{
  empty_queue, queue_len, try_enqueue, first, peek_one, event_for, pop_from, pop_one, push_front,
  remove_from, remove, snapshot_ids, wake,
}
use Prim.Native.String.{String}
use flux_llm_inference_engin.Prelude.{
  ℕ, zero, suc, ◌-◌, List, [], ◌∷◌, ◌++◌, Bool, true, false, Option, none, some, ltb, if◌then◌else◌,
  string_eq, ◌==◌,
}
use flux_llm_inference_engin.Sequence.{Sequence, reservation_tokens}
use flux_llm_inference_engin.Pool.{BlockPool, blocks_needed, can_allocate, allocate}
use flux_llm_inference_engin.Prefix.{PrefixCache, PrefixHit, peek, lookup, release_key}

pub data Policy : Type 0 where
  fcfs memory_fit : Policy

-- `__init__` on a name that is stripped and in lower case: an unknown one means fcfs.
unfoldable pub policy_of : String → Policy
policy_of name = if name == "memory_fit" then memory_fit else fcfs

pub record Scheduler (V L : Type 0) : Type 0 where
  pub queue : RequestQueue V L
  pub max_batch : ℕ
  pub pool : Option BlockPool
  pub prefix_cache : Option (PrefixCache V L)
  pub policy : Policy

pub data SubmitError : Type 0 where
  request_too_large : ℕ → SubmitError
  queue_full : SubmitError

pub data Submitted (V L : Type 0) : Type 0 where
  accepted : Scheduler V L → Submitted V L
  refused : SubmitError → Submitted V L

-- The check of `submit` against the whole pool: the blocks needed, if they are too many.
abbrev pub too_large : Option BlockPool → ℕ → Option ℕ
too_large none need = none
too_large (some pool) need =
    if ltb pool.num_blocks (blocks_needed pool need) then some (blocks_needed pool need) else none

abbrev pub fits_at : Option BlockPool → ℕ → Bool
fits_at none need = true
fits_at (some pool) need = can_allocate pool need

module _ {V L : Type 0} where
  -- The tokens of a reservation that a hit leaves to the sequence: max(0, need - hit.n_tokens).
  abbrev pub need_after : ℕ → Option (PrefixHit V L) → ℕ
  need_after need none = need
  need_after need (some hit) = need - hit.n_tokens

  abbrev pub peek_prefix : Option (PrefixCache V L) → List ℕ → Option (PrefixHit V L)
  peek_prefix none token_ids = none
  peek_prefix (some cache) token_ids = peek cache token_ids

  unfoldable pub need_tokens : Scheduler V L → Sequence V L → ℕ
  need_tokens sched seq =
      need_after (reservation_tokens seq) (peek_prefix sched.prefix_cache seq.prompt_ids)

  unfoldable pub apply_hit : Option (PrefixHit V L) → Sequence V L → Sequence V L
  apply_hit none seq = seq
  apply_hit (some hit) seq = record seq {
    prefix_key = some hit.token_ids;
    prefix_tokens = hit.n_tokens;
    prefix_kv = some hit.kv_cache;
    prefix_logits = hit.last_logits;
  }

  abbrev pub enqueue_checked : Scheduler V L → Sequence V L → Option ℕ → Submitted V L
  enqueue_checked sched seq (some needed) = refused (request_too_large needed)
  enqueue_checked sched seq none =
      if (try_enqueue sched.queue seq).1
      then accepted (record sched { queue = (try_enqueue sched.queue seq).0 })
      else refused queue_full

  unfoldable pub submit : Scheduler V L → Sequence V L → Submitted V L
  submit sched seq = enqueue_checked sched seq (too_large sched.pool (need_tokens sched seq))

  -- `self.prefix_cache.lookup(…)`, where there is a cache.
  abbrev pub lookup_at :
      ℕ → List ℕ → Scheduler V L → Option (PrefixCache V L) → Option (PrefixHit V L) × Scheduler V L
  lookup_at now token_ids sched none = (none, sched)
  lookup_at now token_ids sched (some cache) =
      let (hit, kv) = lookup now token_ids (record { pool = sched.pool; cache = cache }) in
      (hit, record sched { pool = kv.pool; prefix_cache = some kv.cache })

  -- `self.prefix_cache.release(hit.token_ids)`, where there is a cache and a hit.
  abbrev pub release_at :
      Option (List ℕ)
      → Option BlockPool
      → Option (PrefixCache V L)
      → Option BlockPool × Option (PrefixCache V L)
  release_at key pool none = (pool, none)
  release_at key pool (some cache) =
      let kv = release_key key (record { pool = pool; cache = cache }) in (kv.pool, some kv.cache)

  abbrev pub release_in : Option (List ℕ) → Scheduler V L → Scheduler V L
  release_in key sched =
      let (pool, cache) = release_at key sched.pool sched.prefix_cache in
      record sched { pool = pool; prefix_cache = cache }

  abbrev pub hit_key : Option (PrefixHit V L) → Option (List ℕ)
  hit_key none = none
  hit_key (some hit) = some hit.token_ids

  abbrev pub hit_blocks : Option (PrefixHit V L) → List ℕ → List ℕ
  hit_blocks none ids = ids
  hit_blocks (some hit) ids = hit.block_ids ++ ids

  -- The end of `_try_allocate`, on what `allocate` returns: success, the scheduler, the sequence.
  abbrev pub allocated :
      Scheduler V L
      → Sequence V L
      → Option (PrefixHit V L)
      → Option (List ℕ × BlockPool × Sequence V L)
      → Bool × Scheduler V L × Sequence V L
  allocated sched seq hit none = (false, release_in (hit_key hit) sched, seq)
  allocated sched seq hit (some (ids, pool, seq')) = (
    true,
    record sched { pool = some pool },
    record (apply_hit hit (record seq' { owned_block_ids = ids })) {
      block_ids = hit_blocks hit ids;
    },
  )

  abbrev pub allocate_at :
      Scheduler V L
      → Sequence V L
      → Option (PrefixHit V L)
      → Option BlockPool
      → Bool × Scheduler V L × Sequence V L
  allocate_at sched seq hit none = (true, sched, apply_hit hit seq)
  allocate_at sched seq hit (some pool) =
      allocated sched seq hit (allocate pool seq (need_after (reservation_tokens seq) hit))

  unfoldable pub try_allocate :
      ℕ → Scheduler V L → Sequence V L → Bool × Scheduler V L × Sequence V L
  unfolding apply_hit
  try_allocate now sched seq =
      let (hit, sched') = lookup_at now seq.prompt_ids sched sched.prefix_cache in
      allocate_at sched' seq hit sched'.pool

  unfoldable pub fits : Scheduler V L → Sequence V L → Bool
  fits sched seq = fits_at sched.pool (need_tokens sched seq)

  -- What an attempt on a sequence that was taken out of the queue leaves: on failure it is put back
  -- in front and the loop ends, on success it is admitted.
  abbrev pub attempt : Bool × Scheduler V L × Sequence V L → Option (Sequence V L) × Scheduler V L
  attempt (true, sched, seq) = (some seq, sched)
  attempt (false, sched, seq) = (none, record sched { queue = push_front sched.queue seq })

  -- One round of `_admit_fcfs`: the sequence admitted, or none where the loop breaks.
  abbrev pub fcfs_candidate :
      ℕ → Scheduler V L → Option (Sequence V L) → Option (Sequence V L) × Scheduler V L
  fcfs_candidate now sched none = (none, sched)
  fcfs_candidate now sched (some seq) =
      if fits sched seq
      then attempt (try_allocate now (record sched { queue = (pop_one sched.queue).1 }) seq)
      else (none, sched)

  unfoldable pub fcfs_round : ℕ → Scheduler V L → Option (Sequence V L) × Scheduler V L
  fcfs_round now sched = fcfs_candidate now sched (peek_one sched.queue)

  abbrev pub first_fit : Scheduler V L → List (Sequence V L) → Option (Sequence V L)
  first_fit sched [] = none
  first_fit sched (seq ∷ rest) = if fits sched seq then some seq else first_fit sched rest

  abbrev pub fit_candidate :
      ℕ → Scheduler V L → Option (Sequence V L) → Option (Sequence V L) × Scheduler V L
  fit_candidate now sched none = (none, sched)
  fit_candidate now sched (some chosen) =
      attempt (try_allocate now (record sched { queue = (remove sched.queue chosen).0 }) chosen)

  -- One round of `_admit_memory_fit`.
  unfoldable pub memory_fit_round : ℕ → Scheduler V L → Option (Sequence V L) × Scheduler V L
  memory_fit_round now sched = fit_candidate now sched (first_fit sched sched.queue.waiting_list)

  abbrev pub round : ℕ → Policy → Scheduler V L → Option (Sequence V L) × Scheduler V L
  round now fcfs sched = fcfs_round now sched
  round now memory_fit sched = memory_fit_round now sched

  -- After one round: the loop breaks, or goes on to the rest of the rounds.
  abbrev pub admit_more :
      Option (Sequence V L)
      → Scheduler V L
      → List (Sequence V L) × Scheduler V L
      → List (Sequence V L) × Scheduler V L
  admit_more none sched rest = ([], sched)
  admit_more (some seq) sched (admitted, sched') = (seq ∷ admitted, sched')

  -- The `while room > 0` loop that the two policies share: the admitted sequences in order.
  unfoldable pub admit_loop : ℕ → Policy → ℕ → Scheduler V L → List (Sequence V L) × Scheduler V L
  admit_loop now policy zero sched = ([], sched)
  admit_loop now policy (suc room) sched =
      let (admitted, sched') = round now policy sched in
      admit_more admitted sched' (admit_loop now policy room sched')

  unfoldable pub admit : ℕ → Scheduler V L → ℕ → List (Sequence V L) × Scheduler V L
  admit now sched running_count =
      admit_loop now sched.policy (sched.max_batch - running_count) sched
