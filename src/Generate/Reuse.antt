-- ===== src/Generate/Reuse.antt =====
-- `prefill_from_prefix` of src/flux/engine/cached_engine.py, on the cache of a stored prompt that was cut to a
-- shared prefix as `slice_cache` of src/flux/engine/kv_utils.py cuts it.
use flux_llm_inference_engin.Prelude.{
  ℕ, ◌≤◌, ◌<◌, List, [], ◌∷◌, ◌++◌, ◌≡◌, ap, ◌∙◌, none, arith, length, take, drop, length-take,
  length-drop, take-append-drop, refl, ◌+◌,
}
use flux_llm_inference_engin.Kv.{slice_cache, cache_seq_len}
use flux_llm_inference_engin.Batching.{times}
use flux_llm_inference_engin.Outcome.{ok}
use flux_llm_inference_engin.Generate.{
  Model, PrefixCall, arange, prefix_call, prefill, prefill_from_prefix,
}

module _ {V L : Type 0} (model : Model V L) (draw : ℕ → L → ℕ) (stop_ids : List ℕ) where
  -- What a causal model promises of its cache. It has a position for each token. No position depends on
  -- a later token. And a call with new tokens gives what all tokens at once give, if it says of the new ones
  -- that they stand right after those of the cache, and lets them attend to all positions: of a call that
  -- says anything else, nothing is promised.
  pub record IsCausal : Type 0 where
    pub sized : (ids : List ℕ) → cache_seq_len (model.run none ids).1 ≡ length ids
    pub cuts :
        (ids : List ℕ) (n : ℕ)
        → 0 < n
        → n ≤ length ids
        → slice_cache (model.run none ids).1 n ≡ (model.run none (take n ids)).1
    pub continues :
        (first : ℕ) (past : List ℕ) (t : ℕ) (new : List ℕ) (call : PrefixCall V)
        → call.input_ids ≡ t ∷ new
        → call.past_key_values ≡ (model.run none (first ∷ past)).1
        → call.cache_position ≡ arange (length (first ∷ past)) (length (t ∷ new))
        → call.position_ids ≡ arange (length (first ∷ past)) (length (t ∷ new))
        → call.attention_mask ≡ times (length (first ∷ past) + length (t ∷ new)) 1
        → model.run_at call ≡ model.run none (first ∷ past ++ t ∷ new)

  module _ (causal : IsCausal) where
    joined :
        (before after : List ℕ)
        → 0 < length before
        → 0 < length after
        → prefill_from_prefix model draw stop_ids after (model.run none before).1
          ≡ ok (model.run none (before ++ after))
    unfolding prefill_from_prefix
    joined [] after h g = absurd (omega arith)
    joined (first ∷ past) [] h g = absurd (omega arith)
    joined (first ∷ past) (t ∷ new) h g =
        let cache = (model.run none (first ∷ past)).1 in
        let len = causal.sized (first ∷ past) in
        let placed = ap (λ n. arange n (length (t ∷ new))) len in
        ap ok (
          causal.continues first past t new (prefix_call model draw stop_ids (t ∷ new) cache) refl
            refl placed placed (ap (λ n. times (n + length (t ∷ new)) 1) len))

    -- With a causal model, on a prompt that shares its first n tokens with a stored one, n at least 1, and has
    -- more: the call that prefill_from_prefix makes for the rest, on the stored cache cut to n positions, with
    -- the positions and the mask that it computes, gives the logits and the cache of the whole prompt.
    pub prefill_from_prefix-prefill :
        (stored prompt_ids : List ℕ) (n : ℕ)
        → 0 < n
        → n ≤ length stored
        → n < length prompt_ids
        → take n stored ≡ take n prompt_ids
        → prefill_from_prefix model draw stop_ids
            (drop n prompt_ids)
            (slice_cache (prefill model draw stop_ids stored).1 n)
          ≡ ok (prefill model draw stop_ids prompt_ids)
    unfolding prefill
    prefill_from_prefix-prefill stored prompt_ids n some_prefix held more same =
        let cache : slice_cache (model.run none stored).1 n
            ≡ (model.run none (take n prompt_ids)).1 =
          causal.cuts stored n some_prefix held ∙ ap (λ l. (model.run none l).1) same in
        ap (prefill_from_prefix model draw stop_ids (drop n prompt_ids)) cache
        ∙ joined (take n prompt_ids) (drop n prompt_ids)
            (omega (arith, length-take n prompt_ids, some_prefix, more))
            (omega (arith, length-drop n prompt_ids, more))
        ∙ ap (λ l. ok (model.run none l)) (take-append-drop n prompt_ids)
