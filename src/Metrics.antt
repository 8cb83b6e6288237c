-- ===== src/Metrics.antt =====
-- src/flux/metrics/prometheus.py: the metrics of the process. A gauge is the number that it was set to last,
-- a histogram the list of what it observed, a counter the sum of what it was raised by, and the counter
-- of requests the list of the labels that it was raised under. Durations are whole numbers of one small
-- unit, floats in the code, and not negative. The memory in use is what the system reports.
use flux_llm_inference_engin.Prelude.{
  ℕ, ◌+◌, List, [], ◌∷◌, ◌++◌, Bool, true, false, Option, none, some, leb, if◌then◌else◌,
}
use flux_llm_inference_engin.Sequence.{Sequence, Status, finished, aborted, error}
use flux_llm_inference_engin.Pool.{BlockPool, used_blocks}
use flux_llm_inference_engin.Prefix.{PrefixCache, snapshot}
use flux_llm_inference_engin.Scheduler.{Scheduler, queue_len}
use flux_llm_inference_engin.Worker.{Worker}
use flux_llm_inference_engin.Control.{RecentTtft, add}

pub data Endpoint : Type 0 where
  generate completions chat : Endpoint

pub record Gauges : Type 0 where
  pub waiting : ℕ
  pub running : ℕ
  pub in_flight : ℕ
  pub decode_batch : ℕ
  pub kv_used : ℕ
  pub kv_total : ℕ
  pub prefix_entries : ℕ
  pub prefix_hits : ℕ
  pub prefix_misses : ℕ
  pub prefix_tokens : ℕ
  pub rss : ℕ

pub record Metrics : Type 0 where
  pub ttft : List ℕ
  pub e2e : List ℕ
  pub prefill : List ℕ
  pub decode : List ℕ
  pub tokens : ℕ
  pub requests : List (Endpoint × ℕ)
  pub recent_ttft : RecentTtft

-- What observe_finished reads of a result.
pub record Timing : Type 0 where
  pub ttft_s : ℕ
  pub latency_s : ℕ
  pub completion_tokens : ℕ

-- `_DONE`
abbrev pub is_done : Status → Bool
is_done finished = true
is_done aborted = true
is_done error = true
is_done _ = false

abbrev pub used_at : Option BlockPool → ℕ
used_at none = 0
used_at (some pool) = used_blocks pool

abbrev pub total_at : Option BlockPool → ℕ
total_at none = 0
total_at (some pool) = pool.num_blocks

module _ {V L : Type 0} where
  abbrev pub waiting_at : Option (Scheduler V L) → ℕ
  waiting_at none = 0
  waiting_at (some sched) = queue_len sched.queue

  -- `sum(1 for seq in … if seq.status not in _DONE)`
  abbrev pub count_running : List (Sequence V L) → ℕ
  count_running [] = 0
  count_running (seq ∷ seqs) = (if is_done seq.status then 0 else 1) + count_running seqs

  abbrev pub running_at : Option (Worker V L) → ℕ
  running_at none = 0
  running_at (some w) = count_running w.running

  abbrev pub batch_at : Option (Worker V L) → ℕ
  batch_at none = 0
  batch_at (some w) = w.last_batch_size

  abbrev pub pool_at : Option (Scheduler V L) → Option BlockPool
  pool_at none = none
  pool_at (some sched) = sched.pool

  abbrev pub cache_at : Option (Scheduler V L) → Option (PrefixCache V L)
  cache_at none = none
  cache_at (some sched) = sched.prefix_cache

  -- The last four gauges of the prefix cache: entries, hits, misses and tokens saved.
  abbrev pub prefix_at : Option (PrefixCache V L) → ℕ × ℕ × ℕ × ℕ
  prefix_at none = (0, 0, 0, 0)
  prefix_at (some cache) =
      let snap = snapshot cache in
      (snap.prefix_entries, snap.prefix_hits, snap.prefix_misses, snap.prefix_tokens_saved)

  unfoldable pub update_gauges : Option (Scheduler V L) → Option (Worker V L) → (rss : ℕ) → Gauges
  update_gauges sched worker rss =
      let waiting = waiting_at sched in
      let running = running_at worker in
      let (entries, hits, misses, tokens) = prefix_at (cache_at sched) in
      record {
        waiting = waiting;
        running = running;
        in_flight = waiting + running;
        decode_batch = batch_at worker;
        kv_used = used_at (pool_at sched);
        kv_total = total_at (pool_at sched);
        prefix_entries = entries;
        prefix_hits = hits;
        prefix_misses = misses;
        prefix_tokens = tokens;
        rss = rss;
      }

pub data StepKind : Type 0 where
  prefill_step decode_step : StepKind

unfoldable pub observe_step : StepKind → ℕ → Metrics → Metrics
observe_step prefill_step seconds m = record m { prefill = m.prefill ++ seconds ∷ [] }
observe_step decode_step seconds m = record m { decode = m.decode ++ seconds ∷ [] }

-- `if ttft > 0`, `if e2e > 0`, `if tokens > 0`
abbrev observe_ttft : ℕ → ℕ → Metrics → Metrics
observe_ttft now ttft m =
    if leb ttft 0
    then m
    else record m { ttft = m.ttft ++ ttft ∷ []; recent_ttft = add now ttft m.recent_ttft }

abbrev observe_e2e : ℕ → Metrics → Metrics
observe_e2e e2e m = if leb e2e 0 then m else record m { e2e = m.e2e ++ e2e ∷ [] }

abbrev count_tokens : ℕ → Metrics → Metrics
count_tokens tokens m = record m { tokens = m.tokens + tokens }

unfoldable pub observe_finished : ℕ → Option Timing → Metrics → Metrics
observe_finished now none m = m
observe_finished now (some result) m =
    count_tokens result.completion_tokens
      (observe_e2e result.latency_s (observe_ttft now result.ttft_s m))

unfoldable pub observe_request : Endpoint → ℕ → Metrics → Metrics
observe_request endpoint status m = record m { requests = m.requests ++ (endpoint, status) ∷ [] }
