-- ===== src/Completions/Fits.antt =====
-- `_fit_max_seq` of src/flux/server/routes_openai.py is called by the handlers, and again by `_generate_ids`.
use flux_llm_inference_engin.Prelude.{
  ℕ, ◌+◌, ◌-◌, ◌≤◌, ◌<◌, List, ◌≡◌, refl, subst, arith, length, ltb, min, if_ind,
}
use flux_llm_inference_engin.Sequence.{SamplingParams}
use flux_llm_inference_engin.Requests.{Limits, Http, done, fit_max_seq, sampling_for}
use flux_llm_inference_engin.Requests.Bounds.{Fitted, no_room, fitted, fit_max_seq-Fitted}

-- Parameters that fit are left as they are.
fit_max_seq-fits :
    (limits : Limits) (input_ids : List ℕ) (sampling : SamplingParams)
    → length input_ids + sampling.max_tokens ≤ limits.max_seq_len
    → length input_ids < limits.max_seq_len
    → fit_max_seq limits input_ids sampling ≡ done sampling
unfolding fit_max_seq
fit_max_seq-fits limits input_ids sampling fits room =
    let n = length input_ids in
    if_ind (λ (o : Http SamplingParams). o ≡ done sampling) (ltb limits.max_seq_len n)
      (λ h. absurd (ground arith))
      (λ _.
        if_ind (λ (o : Http SamplingParams). o ≡ done sampling) (ltb (limits.max_seq_len - n) 1)
          (λ h. absurd (ground arith))
          (λ _.
            if_ind (λ (o : Http SamplingParams). o ≡ done sampling)
              (ltb (limits.max_seq_len - n) sampling.max_tokens) (λ h. absurd (ground arith))
              (λ _. refl)))

-- What a request that fits is served with: a token at least and no more than was asked for or than the
-- cap, and the prompt with them within max_seq_len.
pub record Served (limits : Limits) (prompt_len asked : ℕ) (sampling : SamplingParams)
    : Type 0 where
  pub some_token : 0 < asked → 0 < limits.max_new_tokens_cap → 0 < sampling.max_tokens
  pub not_more : sampling.max_tokens ≤ min asked limits.max_new_tokens_cap
  pub within : prompt_len + sampling.max_tokens ≤ limits.max_seq_len

module _ (limits : Limits) (prompt_ids : List ℕ) (temperature top_p asked : ℕ) where
  abbrev pub fit_once : Http SamplingParams
  fit_once = fit_max_seq limits prompt_ids (sampling_for limits temperature top_p asked)

  pub fit_once-Served :
      (sampling : SamplingParams)
      → fit_once ≡ done sampling
      → Served limits (length prompt_ids) asked sampling
  unfolding sampling_for
  fit_once-Served sampling h =
      from fit_once
        (fit_max_seq-Fitted limits prompt_ids (sampling_for limits temperature top_p asked)) h
    where
      from :
          (o : Http SamplingParams)
          → Fitted limits (length prompt_ids) (sampling_for limits temperature top_p asked) o
          → o ≡ done sampling
          → Served limits (length prompt_ids) asked sampling
      from o (no_room long) e = cc
      from o (fitted n few le cut some_token) e =
          let same : record (sampling_for limits temperature top_p asked) { max_tokens = n }
              ≡ sampling =
            cc e in
          subst (Served limits (length prompt_ids) asked) same (record {
            some_token = λ a b. some_token (omega (arith, a, b));
            not_more = few;
            within = le;
          })

  -- The second call of `_fit_max_seq`, on what the first one returned, changes nothing and refuses nothing,
  -- where a token is asked for and the cap allows one.
  pub fit_once-again :
      (sampling : SamplingParams)
      → 0 < asked
      → 0 < limits.max_new_tokens_cap
      → fit_once ≡ done sampling
      → fit_max_seq limits prompt_ids sampling ≡ done sampling
  fit_once-again sampling some_asked some_cap h =
      let s = fit_once-Served sampling h in
      let positive = s.some_token some_asked some_cap in
      fit_max_seq-fits limits prompt_ids sampling s.within (omega (arith, positive, s.within))
