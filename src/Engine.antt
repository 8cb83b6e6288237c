-- ===== src/Engine.antt =====
-- What the workers of src/flux/engine/worker.py use of src/flux/engine/cached_engine.py, of the sampler
-- and of the tokenizer, as an interface. An operation that may raise returns an `Outcome`.

use Prim.Native.String.{String}
use flux_llm_inference_engin.Prelude.{
  ℕ, List, [], ◌∷◌, ◌++◌, Bool, false, ◌||◌, length, nat_beq, if◌then◌else◌,
}
use flux_llm_inference_engin.Kv.{Cache}
use flux_llm_inference_engin.Sequence.{Reason, GenerateResult}
use flux_llm_inference_engin.Outcome.{Outcome}

pub record Engine (V L : Type 0) : Type 0 where
  pub prefill : List ℕ → Outcome (L × Cache V)
  pub prefill_from_prefix : List ℕ → Cache V → Outcome (L × Cache V)
  pub decode : ℕ → Cache V → Outcome (L × Cache V)
  pub decode_batch : List ℕ → List (Cache V) → Outcome (List L × List (Cache V))
  pub stop_token_ids : List ℕ
  pub decode_text : List ℕ → String

-- `token in stop_ids`
abbrev pub is_stop : ℕ → List ℕ → Bool
is_stop token [] = false
is_stop token (s ∷ stops) = nat_beq s token || is_stop token stops

-- `combined_stop_ids` of src/flux/engine/tokenizer.py. The set union is a list here, and only its
-- membership is read.
unfoldable pub combined_stop_ids : List ℕ → List ℕ → Bool → List ℕ
combined_stop_ids tokenizer_stops params_stop ignore_eos =
    if ignore_eos then params_stop else params_stop ++ tokenizer_stops

-- `pack_result` of src/flux/engine/naive_engine.py, without its timings.
abbrev pub pack_result :
    (List ℕ → String) → (prompt_ids output_ids : List ℕ) → Reason → String → GenerateResult
pack_result decode_text prompt_ids output_ids reason engine_name = record {
  text = decode_text output_ids;
  prompt_token_ids = prompt_ids;
  output_token_ids = output_ids;
  prompt_tokens = length prompt_ids;
  completion_tokens = length output_ids;
  finish_reason = reason;
  engine = engine_name;
}
