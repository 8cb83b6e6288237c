-- ===== src/Completions.antt =====
-- The endpoints of src/flux/server/routes_openai.py, from the parsed body to the answer or to the wait for a
-- worker. A handler runs without an `await` up to there, so that it is one step. What it calls of
-- third-party code and of the engine is a field of `Host`: the Redis client, the tokenizer's encoders and
-- decoder, `generate_ids` of an engine without a worker, which holds the lock meanwhile, and the
-- text that `uuid4().hex` makes of an id.
pub mod Fits
pub mod Refusals
pub mod Accepts
pub mod Refines
mod Clients
pub use Clients.{Client}
unfoldable pub use Clients.{client_ip}
use Prim.Native.Char.{code}
use Prim.Native.String.{String, ◌++◌ as concat}
use flux_llm_inference_engin.Prelude.{
  ℕ, List, [], ◌∷◌, Bool, true, false, not, ◌&&◌, Option, none, some, if◌then◌else◌, string_eq,
}
use flux_llm_inference_engin.Config.{Str, Settings, is_served}
use flux_llm_inference_engin.Outcome.{Outcome, ok, raised}
use flux_llm_inference_engin.Sequence.{SamplingParams, GenerateResult, new, stop, length_limit}
use flux_llm_inference_engin.Scheduler.{Scheduler}
use flux_llm_inference_engin.ControlPlane.{Redis, ControlPlane, Job, text, allow, put_job}
use flux_llm_inference_engin.Metrics.{
  Endpoint, generate, completions, chat, Timing, observe_request, observe_finished,
}
use flux_llm_inference_engin.Serving.{
  EngineKind, Attached, detached, queued_worker, continuous_worker, scheduler_of, is_worker_mode,
  normalize_serve_engine,
}
use flux_llm_inference_engin.App.{App}
use flux_llm_inference_engin.Streaming.{EndReason, because, by_abort, Streamed}
use flux_llm_inference_engin.Requests.{
  Limits, Http, done, failed, sampling_for, fit_max_seq, submit_request,
}

pub record Host (R : Type 0) : Type 0 where
  pub redis : Redis R
  pub generate_ids : List ℕ → SamplingParams → Outcome (GenerateResult × Timing)
  pub encode_text : Str → List ℕ
  pub encode_chat : List (Str × Str) → List ℕ
  pub hex : ℕ → String

-- What is new about a call: the time, the ids that are drawn, and who calls.
pub record Call : Type 0 where
  pub now : ℕ
  pub seq_id : ℕ
  pub request_id : ℕ
  pub client : Client

-- The fields of both bodies that the handlers share.
pub record Params : Type 0 where
  pub model : Str
  pub max_tokens : ℕ
  pub temperature : ℕ
  pub top_p : ℕ
  pub stream : Bool

-- What a handler comes to: an HTTP error, an exception that it lets through, the stream of a sequence or
-- of a result, the wait for a sequence, or the answer.
pub data Reply : Type 0 where
  http_error : ℕ → Reply
  crash : String → Reply
  streams_sequence : ℕ → Reply
  streams_result : GenerateResult → Reply
  waits_for : ℕ → Reply
  answers : GenerateResult → Reply

abbrev pub limits_of : Settings → Limits
limits_of settings = record {
  max_new_tokens_cap = settings.max_new_tokens_cap;
  max_seq_len = settings.max_seq_len;
}

-- `{"id": …, "status": …}` with what is added to it.
abbrev job_of : String → String → Job → Job
job_of id status extra = ("id", text id) ∷ ("status", text status) ∷ extra

abbrev pub request_name : Endpoint → String → String
request_name chat hex = concat "chatcmpl-" hex
request_name _ hex = concat "cmpl-" hex

abbrev pub reason_text : EndReason → String
reason_text by_abort = "abort"
reason_text (because stop) = "stop"
reason_text (because length_limit) = "length"

module _ {V L : Type 0} where
  abbrev pub has_scheduler : Option (Scheduler V L) → Bool
  has_scheduler none = false
  has_scheduler (some sched) = true

  abbrev pub with_scheduler : Scheduler V L → Attached V L → Attached V L
  with_scheduler sched detached = detached
  with_scheduler sched (queued_worker w) = queued_worker (record w { sched = sched })
  with_scheduler sched (continuous_worker w) = continuous_worker (record w { sched = sched })

module _ {V L R : Type 0} where
  -- `_uses_worker`
  abbrev pub uses_worker : App V L R → Bool
  uses_worker app =
      is_worker_mode (normalize_serve_engine app.settings.serve_engine)
      && has_scheduler (scheduler_of app.attached)

  abbrev pub observed : Endpoint → ℕ → App V L R → App V L R
  observed endpoint status app = record app {
    metrics = observe_request endpoint status app.metrics;
  }

  module _ (host : Host R) (call : Call) where
    abbrev pub limited : App V L R → Bool × ControlPlane R → Bool × App V L R
    limited app (true, plane) = (true, record app { control = some plane })
    limited app (false, plane) =
        (false, observed generate 429 (record app { control = some plane }))

    abbrev pub limit_at : App V L R → Option (ControlPlane R) → Bool × App V L R
    limit_at app none = (true, app)
    limit_at app (some plane) =
        if plane.enabled
        then limited app
            (allow host.redis (client_ip call.client) app.settings.rate_limit_per_min 60 plane)
        else (true, app)

    -- `_enforce_rate_limit`: whether the request goes on.
    unfoldable pub enforce_rate_limit : App V L R → Bool × App V L R
    enforce_rate_limit app = limit_at app app.control

    abbrev pub remember_at : Job → String → App V L R → Option (ControlPlane R) → App V L R
    remember_at payload job_id app none = app
    remember_at payload job_id app (some plane) = record app {
      control = some (put_job host.redis call.now job_id payload 3600 plane);
    }

    -- `_remember_job`
    unfoldable pub remember_job : String → String → Job → App V L R → App V L R
    remember_job job_id status extra app =
        remember_at (job_of job_id status extra) job_id app app.control

    abbrev pub submitted : App V L R → Http (Scheduler V L) → Http (App V L R) × App V L R
    submitted app (failed status) = (failed status, observed generate status app)
    submitted app (done sched) =
        let app' =
          remember_job (host.hex call.seq_id) "waiting" []
            (record app { attached = with_scheduler sched app.attached }) in
        (done app', app')

    abbrev pub submit_at :
        List ℕ → SamplingParams → App V L R → Option (Scheduler V L) → Http (App V L R) × App V L R
    submit_at prompt_ids sampling app none = (failed 500, app)
    submit_at prompt_ids sampling app (some sched) =
        submitted app (submit_request call.seq_id sched prompt_ids sampling)

    -- `_submit`, for the sequence with the new id: where it does not raise, the application after it.
    unfoldable pub submit_to : List ℕ → SamplingParams → App V L R → Http (App V L R) × App V L R
    submit_to prompt_ids sampling app =
        submit_at prompt_ids sampling app (scheduler_of app.attached)

    -- What both handlers do with a result, before they answer.
    unfoldable pub note_result : Endpoint → GenerateResult → App V L R → App V L R
    note_result kind result app =
        remember_job (request_name kind (host.hex call.request_id)) "finished"
          (("engine", text result.engine) ∷ []) (observed kind 200 app)

    -- The stream of a sequence that was accepted, or the wait for it.
    abbrev pub after_submit : Endpoint → Bool → Http (App V L R) × App V L R → Reply × App V L R
    after_submit kind stream (failed status, app) = (http_error status, app)
    after_submit kind true (done app, _) = (
      streams_sequence call.seq_id,
      observed kind 200 (
          remember_job (request_name kind (host.hex call.request_id)) "running"
            (("seq_id", text (host.hex call.seq_id)) ∷ []) app),
    )
    after_submit kind false (done app, _) = (waits_for call.seq_id, app)

    abbrev pub after_generate :
        Endpoint → Bool → App V L R → Outcome (GenerateResult × Timing) → Reply × App V L R
    after_generate kind stream app (raised e) = (crash e, app)
    after_generate kind stream app (ok (result, timing)) = (
      (if stream then streams_result result else answers result),
      note_result kind result
          (record app { metrics = observe_finished call.now (some timing) app.metrics }),
    )

    -- `_generate_ids`, which bounds the length again, up to its wait where a worker serves.
    abbrev pub generate_fitted :
        Endpoint → Bool → List ℕ → App V L R → Http SamplingParams → Reply × App V L R
    generate_fitted kind stream prompt_ids app (failed status) = (http_error status, app)
    generate_fitted kind stream prompt_ids app (done sampling) =
        if uses_worker app
        then after_submit kind false (submit_to prompt_ids sampling app)
        else after_generate kind stream app (host.generate_ids prompt_ids sampling)

    -- From the bounded parameters on.
    abbrev pub start_fitted :
        Endpoint → Bool → List ℕ → App V L R → Http SamplingParams → Reply × App V L R
    start_fitted kind stream prompt_ids app (failed status) = (http_error status, app)
    start_fitted kind stream prompt_ids app (done sampling) =
        if stream && uses_worker app
        then after_submit kind true (submit_to prompt_ids sampling app)
        else generate_fitted kind stream prompt_ids app
            (fit_max_seq (limits_of app.settings) prompt_ids sampling)

    -- `_engine`, and what follows where there is one.
    abbrev pub engine_at :
        Endpoint → Params → List ℕ → App V L R → Option EngineKind → Reply × App V L R
    engine_at kind params prompt_ids app none = (http_error 503, app)
    engine_at kind params prompt_ids app (some engine) =
        let limits = limits_of app.settings in
        start_fitted kind params.stream prompt_ids app (
          fit_max_seq limits prompt_ids
            (sampling_for limits params.temperature params.top_p params.max_tokens))

    abbrev pub with_engine : Endpoint → Params → List ℕ → App V L R → Reply × App V L R
    with_engine kind params prompt_ids app = engine_at kind params prompt_ids app app.engine

    abbrev pub within_limit : Endpoint → Params → List ℕ → Bool × App V L R → Reply × App V L R
    within_limit kind params prompt_ids (false, app) = (http_error 429, app)
    within_limit kind params prompt_ids (true, app) = with_engine kind params prompt_ids app

    abbrev pub respond : Endpoint → Params → List ℕ → App V L R → Reply × App V L R
    respond kind params prompt_ids app =
        if is_served params.model
        then within_limit kind params prompt_ids (enforce_rate_limit app)
        else (http_error 404, app)

    unfoldable pub create_completion : Params → Str → App V L R → Reply × App V L R
    create_completion params prompt app = respond completions params (host.encode_text prompt) app

    unfoldable pub create_chat_completion :
        Params → List (Str × Str) → App V L R → Reply × App V L R
    create_chat_completion params messages app = respond chat params (host.encode_chat messages) app

    -- The rest of a handler that has waited, on what `_wait_result` made of the sequence.
    unfoldable pub after_wait : Endpoint → Http GenerateResult → App V L R → Reply × App V L R
    after_wait kind (failed status) app = (http_error status, app)
    after_wait kind (done result) app = (answers result, note_result kind result app)

    -- The end of the stream of a sequence: what `_stream_completion` and `_stream_chat` leave with the job,
    -- if they came to their end.
    unfoldable pub after_stream : Endpoint → Streamed → App V L R → App V L R
    after_stream kind streamed app = elim streamed.finished_with [
      | none ↦ app
      | some reason ↦
          remember_job (request_name kind (host.hex call.request_id)) "finished"
            (("seq_id", text (host.hex call.seq_id)) ∷ ("reason", text (reason_text reason)) ∷ [])
            app
    ]
