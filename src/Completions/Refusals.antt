-- ===== src/Completions/Refusals.antt =====
-- All that a handler of src/flux/server/routes_openai.py may come to, and what it leaves of the server's state.
use Prim.Native.String.{String}
use flux_llm_inference_engin.Prelude.{
  ℕ, ◌≤◌, List, ◌≡◌, Option, none, some, Bool, false, length, if◌then◌else◌, string_eq, true,
}
use flux_llm_inference_engin.Config.{Settings, is_served}
use flux_llm_inference_engin.Sequence.{SamplingParams, GenerateResult, new}
use flux_llm_inference_engin.Scheduler.{
  Scheduler, accepted, refused, SubmitError, queue_full, request_too_large, submit,
}
use flux_llm_inference_engin.Serving.{EngineKind, Attached, scheduler_of}
use flux_llm_inference_engin.App.{App}
use flux_llm_inference_engin.Metrics.{Timing}
use flux_llm_inference_engin.Outcome.{Outcome, ok, raised}
use flux_llm_inference_engin.Completions.{
  Params, Reply, http_error, crash, streams_sequence, streams_result, waits_for, answers, limits_of,
  with_scheduler, Host, Call, uses_worker, enforce_rate_limit,
}
use flux_llm_inference_engin.Completions.Fits.{Served}

-- The status of an exception of `submit`.
abbrev pub status_of : SubmitError → ℕ
status_of queue_full = 429
status_of (request_too_large needed) = 400

-- What an answer depends on: the settings, the engine, what the rate limit says, the worker, whether a
-- worker is to serve, and what the engine generates where none is.
pub record Situation (V L : Type 0) : Type 0 where
  pub settings : Settings
  pub engine : Option EngineKind
  pub allowed : Bool
  pub attached : Attached V L
  pub by_worker : Bool
  pub generate : List ℕ → SamplingParams → Outcome (GenerateResult × Timing)

module _ {V L R : Type 0} (host : Host R) where
  abbrev pub seen : Bool → App V L R → Situation V L
  seen allowed app = record {
    settings = app.settings;
    engine = app.engine;
    allowed = allowed;
    attached = app.attached;
    by_worker = uses_worker app;
    generate = host.generate_ids;
  }

  abbrev pub seen_at : Call → App V L R → Situation V L
  seen_at call app = seen (enforce_rate_limit host call app).0 app

module _ {V L : Type 0} (now : Situation V L) (seq_id : ℕ) (params : Params)
    (prompt_ids : List ℕ) where
  -- A request that nothing refuses before it is served: the model is known, the rate limit allows it, there
  -- is an engine, and the parameters are cut to the bounds.
  pub record Passes (sampling : SamplingParams) : Type 0 where
    pub known : is_served params.model ≡ true
    pub within_rate : now.allowed ≡ true
    pub kind : EngineKind
    pub loaded : now.engine ≡ some kind
    pub served : Served (limits_of now.settings) (length prompt_ids) params.max_tokens sampling

  -- Why a request is refused, with its status.
  pub data Why : ℕ → Type 0 where
    unknown_model : is_served params.model ≡ false → Why 404
    over_limit : is_served params.model ≡ true → now.allowed ≡ false → Why 429
    no_engine : is_served params.model ≡ true → now.allowed ≡ true → now.engine ≡ none → Why 503
    too_long :
        is_served params.model ≡ true
        → now.allowed ≡ true
        → now.settings.max_seq_len ≤ length prompt_ids
        → Why 400
    not_queued :
        (sched : Scheduler V L) (sampling : SamplingParams) (e : SubmitError)
        → Passes sampling
        → now.by_worker ≡ true
        → scheduler_of now.attached ≡ some sched
        → submit sched (new seq_id prompt_ids sampling) ≡ refused e
        → Why (status_of e)

  -- What a handler may come to. An error has its cause, and no scheduler has changed. An exception is that of
  -- the engine, and a result is what the engine generated, of a request that passes and that no worker is
  -- to serve. Where the handler streams from a sequence or waits for one, the request passes, a worker is to
  -- serve it, and its scheduler has accepted the new sequence; nothing else of the worker has changed.
  pub data Responds {R : Type 0} : Reply × App V L R → Type 0 where
    refuses :
        (status : ℕ) (after : App V L R)
        → Why status
        → after.attached ≡ now.attached
        → Responds (http_error status, after)
    crashes :
        (sampling : SamplingParams) (e : String) (after : App V L R)
        → Passes sampling
        → now.by_worker ≡ false
        → now.generate prompt_ids sampling ≡ raised e
        → after.attached ≡ now.attached
        → Responds (crash e, after)
    has_result :
        (sampling : SamplingParams) (result : GenerateResult) (timing : Timing) (after : App V L R)
        → Passes sampling
        → now.by_worker ≡ false
        → now.generate prompt_ids sampling ≡ ok (result, timing)
        → after.attached ≡ now.attached
        → Responds ((if params.stream then streams_result result else answers result), after)
    has_sequence :
        (sched queued : Scheduler V L) (sampling : SamplingParams) (after : App V L R)
        → Passes sampling
        → now.by_worker ≡ true
        → scheduler_of now.attached ≡ some sched
        → submit sched (new seq_id prompt_ids sampling) ≡ accepted queued
        → after.attached ≡ with_scheduler queued now.attached
        → Responds ((if params.stream then streams_sequence seq_id else waits_for seq_id), after)
