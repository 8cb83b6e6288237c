-- ===== src/Tests/Services.antt =====
-- Runs of the job store, the rate limit, the numbers of the operator, the event streams, the model that
-- stands in for the real one, and the prefill of a suffix.
use Prim.Native.String.{String}
use flux_llm_inference_engin.Prelude.{
  ℕ, ◌+◌, List, [], ◌∷◌, ◌++◌, ◌≡◌, refl, Option, none, some, true, false, arith, length, string_eq,
  ◌==◌, if◌then◌else◌, ap, ◌∙◌,
}
use flux_llm_inference_engin.Kv.{Cache, slice_cache}
use flux_llm_inference_engin.Sequence.{Sequence, GenerateResult, length_limit}
use flux_llm_inference_engin.Outcome.{ok, raised}
use flux_llm_inference_engin.ControlPlane.{Redis, ControlPlane, Job, text, put_job, get_job}
use flux_llm_inference_engin.ControlPlane.Limit.{Counts, allowed_of, allowed_of-limit}
use flux_llm_inference_engin.ControlPlane.Jobs.{Stores, Tells, get_job-put_job}
use flux_llm_inference_engin.Control.{RecentTtft, p50_ms}
use flux_llm_inference_engin.Control.Median.{IsMedian, p50_ms-IsMedian}
use flux_llm_inference_engin.Metrics.{chat}
use flux_llm_inference_engin.Streaming.{stream_from_result, stream_completion, stream_chat}
use flux_llm_inference_engin.Streaming.Words.{
  words, IsGrowing, stream_from_result-decode, stream_completion-decode,
}
use flux_llm_inference_engin.FakeLm.{decode, fake_lm}
use flux_llm_inference_engin.FakeLm.Agreement.{decode-Extends, fake_cached-naive}
use flux_llm_inference_engin.Generate.{
  Model, prefill, prefill_from_prefix, naive_generate_ids, cached_generate_ids,
}
use flux_llm_inference_engin.Generate.Agreement.{renamed}
use flux_llm_inference_engin.Generate.Reuse.{IsCausal, prefill_from_prefix-prefill}
use flux_llm_inference_engin.Tests.{prompt, params, request}
use flux_llm_inference_engin.Tests.Engines.{words as tokenizer}

-- A Redis that counts each key and has the last job of each.
pub record Store : Type 0 where
  pub value : String → ℕ
  pub job_at : String → Option Job

abbrev raise_at : String → (String → ℕ) → String → ℕ
raise_at key value other = if key == other then value other + 1 else value other

abbrev store_at : String → Job → (String → Option Job) → String → Option Job
store_at key job job_at other = if key == other then some job else job_at other

abbrev up : Redis Store
up = record {
  connect = λ url. raised "refused";
  incr = λ key r. (ok (r.value key + 1), record r { value = raise_at key r.value });
  expire = λ key s r. (ok tt, r);
  setex = λ key ttl job r. (ok tt, record r { job_at = store_at key job r.job_at });
  fetch = λ key r. (ok (r.job_at key), r);
}

abbrev empty_store : Store
empty_store = record { value = λ key. 0; job_at = λ key. none }

abbrev on_redis : ControlPlane Store
on_redis = record { enabled = true; redis = some empty_store; jobs = [] }

same_key : (key : String) → (key == key) ≡ true
same_key key = (string_eq.same_iff key key).1 refl

up-Counts : Counts up (λ key r. r.value key)
up-Counts = record {
  answers = λ key r. refl;
  counts = λ key r. rw (same_key key) refl;
  others = λ key other r differ. ground (arith, string_eq.same_iff key other, differ);
  expires = λ key s r. refl;
  untouched = λ key other s r. refl;
}

allowed_of-limit_example : allowed_of up 2 60 "a" ("a" ∷ "b" ∷ "a" ∷ "a" ∷ []) on_redis ≡ 2
allowed_of-limit_example =
    allowed_of-limit up 2 60 (λ key r. r.value key) up-Counts (omega arith) "a"
      ("a" ∷ "b" ∷ "a" ∷ "a" ∷ []) empty_store on_redis refl

up-Stores : Stores up
up-Stores = record { reads = λ key ttl job r h. rw (same_key key) refl }

get_job-put_job_example :
    Tells up 12 "7"
      (("status", text "waiting") ∷ [])
      3600
      on_redis
      (get_job up "7" (put_job up 12 "7" (("status", text "waiting") ∷ []) 3600 on_redis)).0
get_job-put_job_example =
    get_job-put_job up 12 "7" (("status", text "waiting") ∷ []) 3600 on_redis up-Stores

abbrev last_minute : RecentTtft
last_minute = record { window_s = 60; samples = (10, 9) ∷ (50, 3) ∷ (55, 8) ∷ (80, 5) ∷ [] }

-- The first sample is older than the window.
p50_ms-IsMedian_example : IsMedian (3000 ∷ 8000 ∷ 5000 ∷ []) (p50_ms 100 last_minute).0
p50_ms-IsMedian_example = p50_ms-IsMedian 100 last_minute (ground arith)

abbrev a_result : GenerateResult
a_result = record {
  text = "bc";
  prompt_token_ids = prompt;
  output_token_ids = 1 ∷ 2 ∷ [];
  prompt_tokens = 4;
  completion_tokens = 2;
  finish_reason = length_limit;
  engine = "cached";
}

stream_from_result-decode_example :
    words (stream_from_result (decode true) chat "chatcmpl-1" 12 a_result) ≡ 98 ∷ 99 ∷ []
unfolding decode
stream_from_result-decode_example =
    stream_from_result-decode (decode true) (decode-Extends true) chat "chatcmpl-1" 12 a_result

-- Two tokens that the worker has made, of which the first was taken from the queue alone.
abbrev made_two : Sequence ℕ ℕ
made_two = record (request 1) { output_ids = 1 ∷ 2 ∷ []; finished_event = true }

made_two-IsGrowing : IsGrowing [] ((1 ∷ []) ∷ (1 ∷ 2 ∷ []) ∷ []) (1 ∷ 2 ∷ [])
made_two-IsGrowing = ((1 ∷ [], refl), ((2 ∷ [], refl), ([], refl)))

stream_completion-decode_example :
    (words
        (stream_completion
          (decode true)
          (λ k. false)
          "cmpl-1"
          12
          ((1 ∷ []) ∷ (1 ∷ 2 ∷ []) ∷ [])
          made_two).events
      ≡ 98 ∷ 99 ∷ [])
    × (words
          (stream_chat
            (decode true)
            (λ k. false)
            "cmpl-1"
            12
            ((1 ∷ []) ∷ (1 ∷ 2 ∷ []) ∷ [])
            made_two).events
        ≡ 98 ∷ 99 ∷ [])
unfolding decode
stream_completion-decode_example =
    stream_completion-decode (decode true) (decode-Extends true) "cmpl-1" 12
      ((1 ∷ []) ∷ (1 ∷ 2 ∷ []) ∷ []) made_two made_two-IsGrowing

fake_cached-naive_example :
    cached_generate_ids (fake_lm tt 12 2) tokenizer (λ k logits. length logits) (3 ∷ 4 ∷ []) params
    ≡ renamed "cached" (
        naive_generate_ids
          (fake_lm tt 12 2)
          tokenizer
          (λ k logits. length logits)
          (3 ∷ 4 ∷ [])
          params)
fake_cached-naive_example =
    fake_cached-naive tt 12 2 tokenizer (λ k logits. length logits) 3 (4 ∷ []) params

-- A causal model: its cache holds the tokens, and its logits are the tokens.
abbrev tokens_in : Option (Cache ℕ) → List ℕ
tokens_in none = []
tokens_in (some []) = []
tokens_in (some ((key, value) ∷ layers)) = key

abbrev recall : Model ℕ (List ℕ)
recall = record {
  run = λ past new. (tokens_in past ++ new, (tokens_in past ++ new, tokens_in past ++ new) ∷ []);
  run_at = λ call.
      let seen = tokens_in (some call.past_key_values) ++ call.input_ids in
      (seen, (seen, seen) ∷ []);
}

recall-IsCausal : IsCausal recall (λ k tokens. length tokens) (9 ∷ [])
recall-IsCausal = record {
  sized = λ ids. refl;
  cuts = λ ids n some_token held. refl;
  continues = λ first past t new call ids cache position places mask.
      ap (λ l. recall.run (some call.past_key_values) l) ids
      ∙ ap (λ c. recall.run (some c) (t ∷ new)) cache;
}

-- The stored prompt and the new one share their first two tokens.
prefill_from_prefix-prefill_example :
    prefill_from_prefix recall
      (λ k tokens. length tokens)
      (9 ∷ [])
      (3 ∷ 4 ∷ [])
      (slice_cache (prefill recall (λ k tokens. length tokens) (9 ∷ []) (5 ∷ 6 ∷ 7 ∷ [])).1 2)
    ≡ ok (prefill recall (λ k tokens. length tokens) (9 ∷ []) (5 ∷ 6 ∷ 3 ∷ 4 ∷ []))
prefill_from_prefix-prefill_example =
    prefill_from_prefix-prefill recall (λ k tokens. length tokens) (9 ∷ []) recall-IsCausal
      (5 ∷ 6 ∷ 7 ∷ []) (5 ∷ 6 ∷ 3 ∷ 4 ∷ []) 2 (omega arith) (omega arith) (omega arith) refl
