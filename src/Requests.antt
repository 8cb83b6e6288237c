-- ===== src/Requests.antt =====
-- The path of a request through src/flux/server/routes_openai.py: the bounds on its length, its submission,
-- and what the client is told at the end. An HTTPException is `failed` with its status code.
pub mod Bounds
pub mod Replies
use flux_llm_inference_engin.Prelude.{
  ℕ, ◌-◌, min, List, [], length, false, Option, none, some, ltb, if◌then◌else◌,
}
use flux_llm_inference_engin.Sequence.{
  Sequence, SamplingParams, GenerateResult, Status, aborted, error, new,
}
use flux_llm_inference_engin.Scheduler.{
  Scheduler, Submitted, accepted, refused, request_too_large, queue_full, submit,
}

pub data Http (A : Type 0) : Type 0 where
  done : A → Http A
  failed : ℕ → Http A

-- The settings that bound a request.
pub record Limits : Type 0 where
  pub max_new_tokens_cap : ℕ
  pub max_seq_len : ℕ

-- `_sampling`
unfoldable pub sampling_for : Limits → (temperature top_p max_tokens : ℕ) → SamplingParams
sampling_for limits temperature top_p max_tokens = record {
  temperature = temperature;
  top_p = top_p;
  max_tokens = min max_tokens limits.max_new_tokens_cap;
  stop_token_ids = [];
  ignore_eos = false;
}

-- `_fit_max_seq`
unfoldable pub fit_max_seq : Limits → List ℕ → SamplingParams → Http SamplingParams
fit_max_seq limits input_ids sampling =
    let prompt_len = length input_ids in
    let room = limits.max_seq_len - prompt_len in
    if ltb limits.max_seq_len prompt_len
    then failed 400
    else if ltb room 1
    then failed 400
    else if ltb room sampling.max_tokens
    then done (record sampling { max_tokens = room })
    else done sampling

abbrev pub reply_of_status : Status → Option GenerateResult → Http GenerateResult
reply_of_status aborted result = failed 499
reply_of_status status none = failed 500
reply_of_status status (some result) = done result

module _ {V L : Type 0} where
  abbrev pub reply_to_submit : Submitted V L → Http (Scheduler V L)
  reply_to_submit (accepted sched) = done sched
  reply_to_submit (refused queue_full) = failed 429
  reply_to_submit (refused (request_too_large needed)) = failed 400

  -- `_submit`, for a new sequence with the given id.
  unfoldable pub submit_request : ℕ → Scheduler V L → List ℕ → SamplingParams → Http (Scheduler V L)
  submit_request id sched prompt_ids sampling =
      reply_to_submit (submit sched (new id prompt_ids sampling))

  abbrev pub fitted_submit : ℕ → Scheduler V L → List ℕ → Http SamplingParams → Http (Scheduler V L)
  fitted_submit id sched prompt_ids (failed code) = failed code
  fitted_submit id sched prompt_ids (done sampling) = submit_request id sched prompt_ids sampling

  -- `_generate_ids` up to its wait, where a worker serves.
  unfoldable pub start_request :
      Limits → ℕ → Scheduler V L → List ℕ → SamplingParams → Http (Scheduler V L)
  start_request limits id sched prompt_ids sampling =
      fitted_submit id sched prompt_ids (fit_max_seq limits prompt_ids sampling)

  -- `_wait_result`, after the event.
  unfoldable pub wait_result : Sequence V L → Http GenerateResult
  wait_result seq = elim seq.error [
    | some e ↦ failed 500
    | none ↦ reply_of_status seq.status seq.result
  ]
