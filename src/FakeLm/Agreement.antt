-- ===== src/FakeLm/Agreement.antt =====
-- On the model of src/flux/engine/fake_lm.py the two engines agree, and its text only grows.
use flux_llm_inference_engin.Prelude.{
  ℕ, zero, suc, ◌+◌, ◌%◌, List, [], ◌∷◌, ◌++◌, ◌≡◌, refl, sym, ap, ◌∙◌, Bool, true, arith, length,
  nat_beq_iff, length-append,
}
use flux_llm_inference_engin.Batching.{times}
use flux_llm_inference_engin.Sequence.{SamplingParams}
use flux_llm_inference_engin.Generate.{Tokenizer, cached_generate_ids, naive_generate_ids}
use flux_llm_inference_engin.Generate.Agreement.{IsIncremental, renamed, cached_generate_ids-naive}
use flux_llm_inference_engin.Tokenizer.{starts_with}
use flux_llm_inference_engin.Streaming.Words.{Extends}
use flux_llm_inference_engin.FakeLm.{
  Logit, last_id, next_id, logits_for, grow_layers, forward, fake_lm, decode,
}

last_id-append : (x y : ℕ) (ids : List ℕ) → last_id (x ∷ (ids ++ y ∷ [])) ≡ y
last_id-append x y [] = refl
last_id-append x y (z ∷ ids) = last_id-append z y ids

module _ {V : Type 0} (blank : V) where
  times-append : (m : ℕ) → times m blank ++ blank ∷ [] ≡ times (suc m) blank
  times-append zero = refl
  times-append (suc m) = ap (λ l. blank ∷ l) (times-append m)

  grow-grow :
      (n m : ℕ) → grow_layers blank n (grow_layers blank n [] m) 1 ≡ grow_layers blank n [] (suc m)
  unfolding grow_layers
  grow-grow zero m = refl
  grow-grow (suc n) m =
      ap (λ l. (l, l) ∷ grow_layers blank n (grow_layers blank n [] m) 1) (times-append m)
      ∙ ap (λ c. (times (suc m) blank, times (suc m) blank) ∷ c) (grow-grow n m)

  -- FakeLM's cache is what it promises to be: a token after the cache of some tokens gives what all the
  -- tokens at once give.
  pub fake_lm-IsIncremental :
      (vocab_size n_layers : ℕ) → IsIncremental (fake_lm blank vocab_size n_layers)
  unfolding forward
  fake_lm-IsIncremental vocab_size n_layers first past token =
      let one_more : length (first ∷ (past ++ token ∷ [])) ≡ suc (length (first ∷ past)) =
        ap suc (length-append past (token ∷ []) ∙ omega arith) in
      ap
        (λ last. (
          logits_for vocab_size (next_id vocab_size last),
          grow_layers blank n_layers (grow_layers blank n_layers [] (length (first ∷ past))) 1,
        ))
        (sym (last_id-append first token past))
      ∙ ap
          (λ c. (
            logits_for vocab_size (next_id vocab_size (last_id (first ∷ (past ++ token ∷ [])))),
            c,
          ))
          (grow-grow n_layers (length (first ∷ past))
            ∙ ap (grow_layers blank n_layers []) (sym one_more))

  -- On FakeLM, whatever its size and whatever the sampler draws, the cached engine answers a prompt of at
  -- least one token as the naive engine does, up to the engine's name.
  pub fake_cached-naive :
      (vocab_size n_layers : ℕ) (tokenizer : Tokenizer) (draw : ℕ → List Logit → ℕ) (first : ℕ)
      (prompt_ids : List ℕ) (sampling : SamplingParams)
      → cached_generate_ids
          (fake_lm blank vocab_size n_layers)
          tokenizer
          draw
          (first ∷ prompt_ids)
          sampling
        ≡ renamed "cached" (
            naive_generate_ids
              (fake_lm blank vocab_size n_layers)
              tokenizer
              draw
              (first ∷ prompt_ids)
              sampling)
  fake_cached-naive vocab_size n_layers tokenizer draw first prompt_ids sampling =
      cached_generate_ids-naive (fake_lm blank vocab_size n_layers) tokenizer draw first prompt_ids
        sampling (fake_lm-IsIncremental vocab_size n_layers)

-- FakeTokenizer's text of more tokens begins with that of the tokens before.
grows :
    (skip : Bool) (ids more : List ℕ)
    → starts_with (decode skip ids) (decode skip (ids ++ more)) ≡ true
unfolding decode
grows skip [] more = refl
grows skip (t ∷ ids) more =
    ground (arith, grows skip ids more, nat_beq_iff (97 + t % 26) (97 + t % 26))

pub decode-Extends : (skip : Bool) → Extends (decode skip)
unfolding decode
decode-Extends skip = record { empty = refl; grows = grows skip }
