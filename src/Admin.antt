-- ===== src/Admin.antt =====
-- src/flux/server/routes_admin.py: what the operator sees and does. `admin_abort` and `_find_sequence` stand with
-- the worker, in Worker.State. The version, the process's memory and the hardware are left out of the
-- answers; the file of the last benchmark is not read.
pub mod Numbers
use Prim.Native.String.{String}
use flux_llm_inference_engin.Prelude.{
  ℕ, ◌+◌, ◌/◌, List, [], Bool, true, false, Option, none, some, length, map, keep_if, not,
}
use flux_llm_inference_engin.Config.{Str, Settings}
use flux_llm_inference_engin.Sequence.{Sequence, Status, waiting, prefill, decoding}
use flux_llm_inference_engin.Pool.{BlockPool, PoolSnapshot, snapshot}
use flux_llm_inference_engin.Prefix.{PrefixCache, PrefixSnapshot, snapshot as snapshot_of}
use flux_llm_inference_engin.Scheduler.{Scheduler, Policy, snapshot_ids}
use flux_llm_inference_engin.Worker.{Worker, find_sequence}
use flux_llm_inference_engin.Control.{observe, p50_ms}
use flux_llm_inference_engin.ControlPlane.{Redis, ControlPlane, Job, get_job}
use flux_llm_inference_engin.Serving.{Mode, normalize_serve_engine, scheduler_of, worker_of}
use flux_llm_inference_engin.App.{App}
use flux_llm_inference_engin.Requests.{Http, done, failed}

-- The policy that runs, or the setting as it is written where there is no scheduler.
pub data PolicyShown : Type 0 where
  in_force : Policy → PolicyShown
  as_set : Str → PolicyShown

pub record Stats : Type 0 where
  pub waiting : ℕ
  pub running : ℕ
  pub in_flight : ℕ
  pub max_waiting : ℕ
  pub max_batch_size : ℕ
  pub last_batch_size : ℕ
  pub tokens_generated : ℕ
  pub tok_s : Option (ℕ × ℕ)
  pub ttft_p50_ms : Option ℕ
  pub waiting_ids : List ℕ
  pub running_ids : List ℕ
  pub serve_engine : Mode
  pub scheduler : PolicyShown
  pub kv : PoolSnapshot
  pub prefix : PrefixSnapshot

-- What get_request answers: a job, or a sequence that the server knows.
pub data Found : Type 0 where
  job : Job → Found
  sequence : ℕ → Status → (output_tokens : ℕ) → Found

abbrev pub kv_numbers : Settings → Option BlockPool → PoolSnapshot
kv_numbers settings none = record {
  kv_blocks_used = 0;
  kv_blocks_free = 0;
  kv_blocks_total = 0;
  kv_block_size = settings.block_size;
}
kv_numbers settings (some pool) = snapshot pool

abbrev pub job_or_sequence : Option Job → Http Found → Http Found
job_or_sequence none live = live
job_or_sequence (some found) live = done (job found)

abbrev pub redis_on : {R : Type 0} → Option (ControlPlane R) → Bool
redis_on none = false
redis_on (some plane) = plane.enabled

-- `_DONE`
abbrev pub in_done : Status → Bool
in_done waiting = false
in_done prefill = false
in_done decoding = false
in_done _ = true

module _ {V L : Type 0} where
  -- The sequences of `worker.stats.running` that are not over.
  abbrev pub still_running : Option (Worker V L) → List (Sequence V L)
  still_running none = []
  still_running (some w) = keep_if (λ seq. not (in_done seq.status)) w.running

  abbrev pub last_batch : Option (Worker V L) → ℕ
  last_batch none = 0
  last_batch (some w) = w.last_batch_size

  abbrev pub pool_of : Option (Scheduler V L) → Option BlockPool
  pool_of none = none
  pool_of (some sched) = sched.pool

  abbrev pub prefix_payload : Option (PrefixCache V L) → PrefixSnapshot
  prefix_payload none = record {
    prefix_entries = 0;
    prefix_hits = 0;
    prefix_misses = 0;
    prefix_tokens_saved = 0;
    prefix_live_refs = 0;
  }
  prefix_payload (some cache) = snapshot_of cache

  abbrev pub prefix_of : Option (Scheduler V L) → Option (PrefixCache V L)
  prefix_of none = none
  prefix_of (some sched) = sched.prefix_cache

  abbrev pub waiting_ids_at : Option (Scheduler V L) → List ℕ
  waiting_ids_at none = []
  waiting_ids_at (some sched) = snapshot_ids sched.queue

  abbrev pub policy_at : Settings → Option (Scheduler V L) → PolicyShown
  policy_at settings none = as_set settings.scheduler
  policy_at settings (some sched) = in_force sched.policy

  abbrev pub found_sequence : Option (Sequence V L) → Http Found
  found_sequence none = failed 404
  found_sequence (some seq) = done (sequence seq.id seq.status (length seq.output_ids))

  abbrev pub live_sequence : ℕ → Option (Worker V L) → Http Found
  live_sequence id none = failed 404
  live_sequence id (some w) = found_sequence (find_sequence id w)

module _ {V L R : Type 0} where
  -- `admin_stats`, at the time `now`, with the tokens that the worker has counted.
  unfoldable pub admin_stats : ℕ → ℕ → App V L R → Stats × App V L R
  admin_stats now tokens app =
      let sched = scheduler_of app.attached in
      let worker = worker_of app.attached in
      let waiting_ids = waiting_ids_at sched in
      let running_ids = map (λ seq. seq.id) (still_running worker) in
      let (tok_s, token_rate) = observe now tokens app.token_rate in
      let (p50, recent) = p50_ms now app.metrics.recent_ttft in
      (
        record {
          waiting = length waiting_ids;
          running = length running_ids;
          in_flight = length waiting_ids + length running_ids;
          max_waiting = app.settings.max_waiting;
          max_batch_size = app.settings.max_batch_size;
          last_batch_size = last_batch worker;
          tokens_generated = tokens;
          tok_s = tok_s;
          ttft_p50_ms = p50;
          waiting_ids = waiting_ids;
          running_ids = running_ids;
          serve_engine = normalize_serve_engine app.settings.serve_engine;
          scheduler = policy_at app.settings sched;
          kv = kv_numbers app.settings (pool_of sched);
          prefix = prefix_payload (prefix_of sched);
        },
        record app {
          token_rate = token_rate;
          metrics = record (app.metrics) { recent_ttft = recent };
        },
      )

  -- `ready`
  abbrev pub ready : App V L R → Http Bool
  ready app = elim app.engine [ none ↦ failed 503 | some engine ↦ done true ]

  -- `health`, of which the hardware's part is left out: is the model loaded, which engine serves, is
  -- Redis connected.
  abbrev pub health : App V L R → Bool × Mode × Bool
  health app = (
    (elim app.engine [ none ↦ false | some engine ↦ true ]),
    normalize_serve_engine app.settings.serve_engine,
    redis_on app.control,
  )

  abbrev get_request_at :
      Redis R → String → Option ℕ → App V L R → Option (ControlPlane R) → Http Found × App V L R
  get_request_at client request_id id app none = (failed 404, app)
  get_request_at client request_id id app (some plane) =
      let (found, plane') = get_job client request_id plane in
      (
        job_or_sequence found
            (elim id [ none ↦ failed 404 | some n ↦ live_sequence n (worker_of app.attached) ]),
        record app { control = some plane' },
      )

  -- `get_request`, for the id as it is written; `id` is the sequence's number, if it is one of a sequence.
  unfoldable pub get_request : Redis R → String → Option ℕ → App V L R → Http Found × App V L R
  get_request client request_id id app = get_request_at client request_id id app app.control
