-- ===== src/Generate.antt =====
-- The generate loops of src/flux/engine/naive_engine.py and src/flux/engine/cached_engine.py, for one
-- prompt. The model is third-party code: a forward pass takes the past, if there is one, and new
-- tokens, and returns the logits at the last position and the cache of all positions. The naive engine
-- asks for no cache, so that it only reads the logits. A forward pass that raises is left out, since no
-- loop handles it. `draw` is the sampler: the token that it takes at its k-th call, which
-- also stands for the state of its random generator.
pub mod Tokens
pub mod Agreement
pub mod Reuse
use Prim.Native.String.{String}
use flux_llm_inference_engin.Prelude.{
  ℕ, zero, suc, ◌+◌, ◌-◌, List, [], ◌∷◌, ◌++◌, Option, none, some, ltb, if◌then◌else◌, length,
}
use flux_llm_inference_engin.Kv.{Cache, cache_seq_len}
use flux_llm_inference_engin.Batching.{times}
use flux_llm_inference_engin.Sequence.{SamplingParams, GenerateResult, Reason, stop, length_limit}
use flux_llm_inference_engin.Engine.{is_stop, combined_stop_ids, pack_result}
use flux_llm_inference_engin.Outcome.{Outcome, ok, raised}

-- A call of the model that says where the new tokens stand: the keyword arguments of the source.
pub record PrefixCall (V : Type 0) : Type 0 where
  pub input_ids : List ℕ
  pub past_key_values : Cache V
  pub cache_position : List ℕ
  pub attention_mask : List ℕ
  pub position_ids : List ℕ

-- A call without those arguments, or with the positions from the past's length on, is `run`.
pub record Model (V L : Type 0) : Type 0 where
  pub run : Option (Cache V) → List ℕ → L × Cache V
  pub run_at : PrefixCall V → L × Cache V

-- `torch.arange(start, start + count)`
abbrev pub arange : ℕ → ℕ → List ℕ
arange start zero = []
arange start (suc count) = start ∷ arange (suc start) count

-- What the engines use of a tokenizer.
pub record Tokenizer : Type 0 where
  pub stop_token_ids : List ℕ
  pub decode : List ℕ → String

-- The token is put on, and the loop ends at a stop token.
abbrev pub note_or_stop : ℕ → List ℕ → List ℕ × Reason → List ℕ × Reason
note_or_stop token stop_ids rest =
    if is_stop token stop_ids then (token ∷ [], stop) else (token ∷ rest.0, rest.1)

module _ {V L : Type 0} (model : Model V L) (draw : ℕ → L → ℕ) (stop_ids : List ℕ) where
  -- The loop of NaiveEngine.generate_ids: every pass runs the model on all tokens again.
  unfoldable pub naive_loop : ℕ → ℕ → List ℕ → List ℕ × Reason
  naive_loop zero k input_ids = ([], length_limit)
  naive_loop (suc left) k input_ids =
      let token = draw k (model.run none input_ids).0 in
      let rest = naive_loop left (suc k) (input_ids ++ token ∷ []) in
      note_or_stop token stop_ids rest

  -- CachedEngine.prefill and decode.
  unfoldable pub prefill : List ℕ → L × Cache V
  prefill prompt_ids = model.run none prompt_ids

  -- The call of CachedEngine.prefill_from_prefix, for one sequence.
  abbrev pub prefix_call : List ℕ → Cache V → PrefixCall V
  prefix_call suffix_ids prefix_kv =
      let past_len = cache_seq_len prefix_kv in
      let cache_position = arange past_len (length suffix_ids) in
      record {
        input_ids = suffix_ids;
        past_key_values = prefix_kv;
        cache_position = cache_position;
        attention_mask = times (past_len + length suffix_ids) 1;
        position_ids = cache_position;
      }

  -- CachedEngine.prefill_from_prefix: only the suffix runs, on the cache of the prefix.
  unfoldable pub prefill_from_prefix : List ℕ → Cache V → Outcome (L × Cache V)
  prefill_from_prefix [] prefix_kv = raised "prefill_from_prefix requires a non-empty suffix"
  prefill_from_prefix (t ∷ suffix_ids) prefix_kv =
      ok (model.run_at (prefix_call (t ∷ suffix_ids) prefix_kv))

  unfoldable pub decode : ℕ → Cache V → L × Cache V
  decode last_token kv_cache = model.run (some kv_cache) (last_token ∷ [])

  -- The loop of CachedEngine.generate_ids.
  unfoldable pub cached_loop : ℕ → ℕ → ℕ → Cache V → List ℕ × Reason
  cached_loop zero k last_token kv_cache = ([], length_limit)
  cached_loop (suc left) k last_token kv_cache =
      let (logits, kv_cache') = decode last_token kv_cache in
      let token = draw k logits in
      let rest = cached_loop left (suc k) token kv_cache' in note_or_stop token stop_ids rest

  -- All that CachedEngine.generate_ids does under `torch.inference_mode()`.
  unfoldable pub cached_tokens : ℕ → List ℕ → List ℕ × Reason
  cached_tokens max_tokens prompt_ids =
      let (logits, kv_cache) = prefill prompt_ids in
      let token = draw 0 logits in
      let rest = cached_loop (max_tokens - 1) 1 token kv_cache in note_or_stop token stop_ids rest

-- The frame of both `generate_ids`.
abbrev pub generate_with :
    String → Tokenizer → SamplingParams → List ℕ → List ℕ × Reason → Outcome GenerateResult
generate_with engine_name tokenizer sampling prompt_ids (output_ids, reason) =
    if ltb sampling.max_tokens 1
    then raised "max_tokens must be >= 1"
    else ok (pack_result tokenizer.decode prompt_ids output_ids reason engine_name)

abbrev pub stop_ids_for : Tokenizer → SamplingParams → List ℕ
stop_ids_for tokenizer sampling =
    combined_stop_ids tokenizer.stop_token_ids sampling.stop_token_ids sampling.ignore_eos

module _ {V L : Type 0} (model : Model V L) (tokenizer : Tokenizer) (draw : ℕ → L → ℕ) where
  unfoldable pub naive_generate_ids : List ℕ → SamplingParams → Outcome GenerateResult
  naive_generate_ids prompt_ids sampling =
      generate_with "naive" tokenizer sampling prompt_ids
        (naive_loop model draw (stop_ids_for tokenizer sampling) sampling.max_tokens 0 prompt_ids)

  unfoldable pub cached_generate_ids : List ℕ → SamplingParams → Outcome GenerateResult
  cached_generate_ids prompt_ids sampling =
      generate_with "cached" tokenizer sampling prompt_ids
        (cached_tokens model draw (stop_ids_for tokenizer sampling) sampling.max_tokens prompt_ids)
