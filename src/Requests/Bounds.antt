-- ===== src/Requests/Bounds.antt =====
-- The bounds that src/flux/server/routes_openai.py puts on a request, and what they mean for the pool of
-- src/flux/engine/block_pool.py.
use flux_llm_inference_engin.Prelude.{
  ℕ, ◌+◌, ◌-◌, ◌*◌, ◌≤◌, ◌<◌, List, ◌≡◌, ◌≢◌, ◌⊎◌, inl, inr, refl, sym, ap, ◌∙◌, subst, Option,
  none, some, arith, length, ltb, if_ind,
}
use flux_llm_inference_engin.Sequence.{Sequence, SamplingParams, new}
use flux_llm_inference_engin.Pool.{BlockPool}
use flux_llm_inference_engin.Pool.Sizes.{blocks_needed-IsLeastCover}
use flux_llm_inference_engin.Prefix.{PrefixHit}
use flux_llm_inference_engin.Scheduler.{
  Scheduler, try_enqueue, submit, need_tokens, need_after, peek_prefix, too_large, enqueue_checked,
}
use flux_llm_inference_engin.Requests.{
  Limits, Http, done, failed, fit_max_seq, start_request, fitted_submit, submit_request,
  reply_to_submit,
}

-- What `_fit_max_seq` may answer: the error for a prompt that leaves no room, or the parameters, with as
-- many tokens as were asked for or as there is room for.
pub data Fitted (limits : Limits) (prompt_len : ℕ) (sampling : SamplingParams)
    : Http SamplingParams → Type 0 where
  no_room : limits.max_seq_len ≤ prompt_len → Fitted limits prompt_len sampling (failed 400)
  fitted :
      (n : ℕ)
      → n ≤ sampling.max_tokens
      → prompt_len + n ≤ limits.max_seq_len
      → (n ≡ sampling.max_tokens) ⊎ (prompt_len + n ≡ limits.max_seq_len)
      → (0 < sampling.max_tokens → 0 < n)
      → Fitted limits prompt_len sampling (done (record sampling { max_tokens = n }))

-- `_fit_max_seq` refuses a prompt exactly if it leaves no room, and else cuts `max_tokens` to the room,
-- and no further.
pub fit_max_seq-Fitted :
    (limits : Limits) (input_ids : List ℕ) (sampling : SamplingParams)
    → Fitted limits (length input_ids) sampling (fit_max_seq limits input_ids sampling)
unfolding fit_max_seq
fit_max_seq-Fitted limits input_ids sampling =
    let n = length input_ids in
    let room = limits.max_seq_len - n in
    if_ind (Fitted limits n sampling) (ltb limits.max_seq_len n) (λ long. no_room (ground arith))
      (λ short.
        if_ind (Fitted limits n sampling) (ltb room 1) (λ full. no_room (ground arith))
          (λ some_room.
            if_ind (Fitted limits n sampling) (ltb room sampling.max_tokens)
              (λ much.
                fitted room (ground arith) (ground arith) (inr (ground arith)) (λ _. ground arith))
              (λ little.
                fitted sampling.max_tokens (ground arith) (ground arith) (inl refl) (λ h. h))))

too_large-none :
    (pool : BlockPool) (need : ℕ)
    → 0 < pool.block_size
    → need ≤ pool.num_blocks * pool.block_size
    → too_large (some pool) need ≡ none
too_large-none pool need pos small =
    let least = (blocks_needed-IsLeastCover pool need pos).least pool.num_blocks small in
    ground (arith, least)

module _ {V L : Type 0} where
  need_tokens-reservation : (need : ℕ) (o : Option (PrefixHit V L)) → need_after need o ≤ need
  need_tokens-reservation need none = omega arith
  need_tokens-reservation need (some hit) = omega arith

  accepted_or_full :
      (sched : Scheduler V L) (seq : Sequence V L)
      → reply_to_submit (enqueue_checked sched seq none) ≢ failed 400
  accepted_or_full sched seq =
      if_ind (λ r. reply_to_submit r ≢ failed 400) ((try_enqueue sched.queue seq).1) (λ _ h. cc)
        (λ _ h. absurd (omega (arith, ap code h)))
    where
      code : Http (Scheduler V L) → ℕ
      code (done s) = 0
      code (failed n) = n

  -- A request that fits the whole pool is not refused as too large.
  small_submit :
      (id : ℕ) (sched : Scheduler V L) (prompt_ids : List ℕ) (sampling : SamplingParams)
      (pool : BlockPool)
      → sched.pool ≡ some pool
      → 0 < pool.block_size
      → length prompt_ids + sampling.max_tokens ≤ pool.num_blocks * pool.block_size
      → submit_request id sched prompt_ids sampling ≢ failed 400
  unfolding submit_request submit need_tokens
  small_submit id sched prompt_ids sampling pool e pos small =
      let seq : Sequence V L = new id prompt_ids sampling in
      let need =
        need_after (length prompt_ids + sampling.max_tokens)
          (peek_prefix sched.prefix_cache prompt_ids) in
      let none_large : too_large sched.pool need ≡ none =
        ap (λ o. too_large o need) e
        ∙ too_large-none pool need pos (
            omega (
              arith,
              need_tokens-reservation (length prompt_ids + sampling.max_tokens)
                  (peek_prefix sched.prefix_cache prompt_ids),
            )) in
      subst (λ o. reply_to_submit (enqueue_checked sched seq o) ≢ failed 400) (sym none_large)
        (accepted_or_full sched seq)

  -- With a pool that holds `max_seq_len` tokens, a request fails with the status 400 only if its prompt
  -- leaves no room for a token: what `_fit_max_seq` lets through, `submit` never refuses as too large.
  pub start_request-failed :
      (limits : Limits) (id : ℕ) (sched : Scheduler V L) (prompt_ids : List ℕ)
      (sampling : SamplingParams) (pool : BlockPool)
      → sched.pool ≡ some pool
      → 0 < pool.block_size
      → limits.max_seq_len ≤ pool.num_blocks * pool.block_size
      → start_request limits id sched prompt_ids sampling ≡ failed 400
      → limits.max_seq_len ≤ length prompt_ids
  unfolding start_request
  start_request-failed limits id sched prompt_ids sampling pool e pos holds refused_it =
      by_fit (fit_max_seq limits prompt_ids sampling)
        (fit_max_seq-Fitted limits prompt_ids sampling)
        (λ n le.
          small_submit id sched prompt_ids (record sampling { max_tokens = n }) pool e pos
            (omega (arith, le, holds)))
        refused_it
    where
      by_fit :
          (o : Http SamplingParams)
          → Fitted limits (length prompt_ids) sampling o
          → ((n : ℕ)
              → length prompt_ids + n ≤ limits.max_seq_len
              → submit_request id sched prompt_ids (record sampling { max_tokens = n })
                ≢ failed 400)
          → fitted_submit id sched prompt_ids o ≡ failed 400
          → limits.max_seq_len ≤ length prompt_ids
      by_fit o (no_room long) small h = long
      by_fit o (fitted n few le cut some_token) small h = absurd (small n le h)
