-- ===== src/Generate/Agreement.antt =====
-- The engine of src/flux/engine/cached_engine.py answers as that of src/flux/engine/naive_engine.py does.
use Prim.Native.String.{String}
use flux_llm_inference_engin.Prelude.{
  ℕ, zero, suc, ◌-◌, ◌<◌, List, [], ◌∷◌, ◌++◌, ◌≡◌, refl, ap, ◌∙◌, none, some, arith, ltb,
  Bool-cases, inl, inr,
}
use flux_llm_inference_engin.Sequence.{Reason, SamplingParams, GenerateResult}
use flux_llm_inference_engin.Outcome.{Outcome, ok, raised}
use flux_llm_inference_engin.Generate.{
  Model, Tokenizer, naive_loop, note_or_stop, prefill, decode, cached_loop, cached_tokens,
  generate_with, stop_ids_for, naive_generate_ids, cached_generate_ids,
}

module _ {V L : Type 0} (model : Model V L) where
  -- What a model promises of `past_key_values`: a token after the cache of some tokens gives what all the
  -- tokens at once give.
  abbrev pub IsIncremental : Type 0
  IsIncremental =
      (first : ℕ) (past : List ℕ) (token : ℕ)
      → model.run (some (model.run none (first ∷ past)).1) (token ∷ [])
        ≡ model.run none (first ∷ (past ++ token ∷ []))

  module _ (draw : ℕ → L → ℕ) (stop_ids : List ℕ) (incremental : IsIncremental) where
    cached_loop-naive_loop :
        (left k first : ℕ) (past : List ℕ) (last_token : ℕ)
        → cached_loop model draw stop_ids left k last_token (model.run none (first ∷ past)).1
          ≡ naive_loop model draw stop_ids left k (first ∷ (past ++ last_token ∷ []))
    unfolding cached_loop naive_loop decode
    cached_loop-naive_loop zero k first past last_token = refl
    cached_loop-naive_loop (suc left) k first past last_token =
        let token = draw k (model.run none (first ∷ (past ++ last_token ∷ []))).0 in
        ap
          (λ out.
            note_or_stop (draw k out.0) stop_ids
              (cached_loop model draw stop_ids left (suc k) (draw k out.0) out.1))
          (incremental first past last_token)
        ∙ ap (note_or_stop token stop_ids)
            (cached_loop-naive_loop left (suc k) first (past ++ last_token ∷ []) token)

    tokens_agree :
        (left first : ℕ) (prompt_ids : List ℕ)
        → cached_tokens model draw stop_ids (suc left) (first ∷ prompt_ids)
          ≡ naive_loop model draw stop_ids (suc left) 0 (first ∷ prompt_ids)
    unfolding cached_tokens naive_loop prefill
    tokens_agree left first prompt_ids =
        let token = draw 0 (model.run none (first ∷ prompt_ids)).0 in
        let one_less : suc left - 1 ≡ left = omega arith in
        ap
          (λ n.
            note_or_stop token stop_ids
              (cached_loop model draw stop_ids n 1 token (model.run none (first ∷ prompt_ids)).1))
          one_less
        ∙ ap (note_or_stop token stop_ids) (cached_loop-naive_loop left 1 first prompt_ids token)

-- The same outcome under another engine's name.
abbrev pub renamed : String → Outcome GenerateResult → Outcome GenerateResult
renamed name (raised e) = raised e
renamed name (ok result) = ok (record result { engine = name })

module _ {V L : Type 0} (model : Model V L) (tokenizer : Tokenizer) (draw : ℕ → L → ℕ) where
  generate_with-renamed :
      (sampling : SamplingParams) (prompt_ids : List ℕ) (answer answer' : List ℕ × Reason)
      → (0 < sampling.max_tokens → answer ≡ answer')
      → generate_with "cached" tokenizer sampling prompt_ids answer
        ≡ renamed "cached" (generate_with "naive" tokenizer sampling prompt_ids answer')
  generate_with-renamed sampling prompt_ids answer answer' same =
      elim (Bool-cases (ltb sampling.max_tokens 1)) [
        | inl few ↦ rw few refl
        | inr enough ↦ rw (enough, same (ground arith)) refl
      ]

  -- With an incremental model, the cached engine answers a prompt of at least one token as the naive
  -- engine does, and raises where it does, up to the engine's name in the result.
  pub cached_generate_ids-naive :
      (first : ℕ) (prompt_ids : List ℕ) (sampling : SamplingParams)
      → IsIncremental model
      → cached_generate_ids model tokenizer draw (first ∷ prompt_ids) sampling
        ≡ renamed "cached" (naive_generate_ids model tokenizer draw (first ∷ prompt_ids) sampling)
  unfolding cached_generate_ids naive_generate_ids
  cached_generate_ids-naive first prompt_ids sampling incremental =
      generate_with-renamed sampling (first ∷ prompt_ids) _ _ (answers sampling.max_tokens)
    where
      answers :
          (n : ℕ)
          → 0 < n
          → cached_tokens model draw (stop_ids_for tokenizer sampling) n (first ∷ prompt_ids)
            ≡ naive_loop model draw (stop_ids_for tokenizer sampling) n 0 (first ∷ prompt_ids)
      answers zero h = absurd (omega arith)
      answers (suc left) h =
          tokens_agree model draw (stop_ids_for tokenizer sampling) incremental left first
            prompt_ids
