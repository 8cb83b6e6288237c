-- ===== src/Tests/Engines.antt =====
-- Runs of the engines, the tokenizer, the batching and the bounds on requests.
use mathlib.Core.Option.{some-injective}
use flux_llm_inference_engin.Prelude.{
  ℕ, List, [], ◌∷◌, ◌++◌, ◌≡◌, refl, subst, Option, none, some, ◌||◌, arith, length, ◌≤◌, nat_eq,
  tokens_eq, count,
}
use flux_llm_inference_engin.Kv.{Cache, Layer}
use flux_llm_inference_engin.Pool.{blocks_needed}
use flux_llm_inference_engin.Pool.Sizes.{IsLeastCover, blocks_needed-IsLeastCover}
use flux_llm_inference_engin.Generate.{
  Model, Tokenizer, naive_loop, naive_generate_ids, cached_generate_ids,
}
use flux_llm_inference_engin.Generate.Tokens.{Complete, naive_loop-Complete}
use flux_llm_inference_engin.Generate.Agreement.{IsIncremental, renamed, cached_generate_ids-naive}
use flux_llm_inference_engin.Tokenizer.{
  id_of, token, several, cons, nil, absent, stop_token_ids, is_found, iter_text_deltas,
}
use flux_llm_inference_engin.Tokenizer.Stops.{names, piece_names, stop_token_ids-Pushes}
use flux_llm_inference_engin.Tokenizer.Stream.{join, text_after, join-iter_text_deltas}
use flux_llm_inference_engin.Batching.{stack_layer, row_pieces}
use flux_llm_inference_engin.Batching.RoundTrip.{Fits, grow, row_pieces-stack_layer}
use flux_llm_inference_engin.Requests.{Limits, fit_max_seq, start_request}
use flux_llm_inference_engin.Requests.Bounds.{start_request-failed}
use flux_llm_inference_engin.Tests.{prompt, params, eight_blocks, two_wait}

-- A model whose logits are all the tokens it has seen, and whose cache holds them.
abbrev seen_before : Option (Cache ℕ) → List ℕ
seen_before none = []
seen_before (some []) = []
seen_before (some ((key, value) ∷ layers)) = key

abbrev echo : Model ℕ (List ℕ)
echo = record {
  run = λ past new. (seen_before past ++ new, (seen_before past ++ new, []) ∷ []);
  run_at = λ call.
      let seen = seen_before (some call.past_key_values) ++ call.input_ids in
      (seen, (seen, []) ∷ []);
}

abbrev pub words : Tokenizer
words = record { stop_token_ids = 9 ∷ []; decode = λ tokens. "" }

echo-IsIncremental : IsIncremental echo
echo-IsIncremental = λ first past token. refl

cached_generate_ids-naive_example :
    cached_generate_ids echo words (λ k tokens. length tokens) prompt params
    ≡ renamed "cached" (naive_generate_ids echo words (λ k tokens. length tokens) prompt params)
cached_generate_ids-naive_example =
    cached_generate_ids-naive echo words (λ k tokens. length tokens) 5 (6 ∷ 7 ∷ 8 ∷ []) params
      echo-IsIncremental

naive_loop-Complete_example :
    Complete (9 ∷ []) 4 (naive_loop echo (λ k tokens. length tokens) (9 ∷ []) 4 0 prompt)
naive_loop-Complete_example =
    naive_loop-Complete echo (λ k tokens. length tokens) (9 ∷ []) 4 0 prompt

stop_token_ids-Pushes_example :
    let stops =
      stop_token_ids (several (cons (token 7) (cons absent nil))) (some 0) (id_of 9) (id_of 0) in
    (count 9 stops ≤ 1)
    × (is_found 9 stops ≡ (
        names 9 (several (cons (token 7) (cons absent nil)))
        || (piece_names 9 (some 0) (id_of 9) || piece_names 9 (some 0) (id_of 0))))
stop_token_ids-Pushes_example =
    stop_token_ids-Pushes 9 (several (cons (token 7) (cons absent nil))) (some 0) (id_of 9)
      (id_of 0)

join-iter_text_deltas_example :
    4 ∷ []
      ++ join (iter_text_deltas (λ tokens. tokens) ((4 ∷ 5 ∷ []) ∷ (6 ∷ []) ∷ []) (6 ∷ []) (4 ∷ []))
    ≡ text_after (λ tokens. tokens) ((4 ∷ 5 ∷ []) ∷ (6 ∷ []) ∷ []) (6 ∷ []) (4 ∷ [])
join-iter_text_deltas_example =
    join-iter_text_deltas (λ tokens. tokens) ((4 ∷ 5 ∷ []) ∷ (6 ∷ []) ∷ []) (6 ∷ []) (4 ∷ [])

abbrev long_cache : Cache ℕ
long_cache = (1 ∷ 2 ∷ [], 3 ∷ 4 ∷ []) ∷ []

abbrev short_cache : Cache ℕ
short_cache = (5 ∷ [], 6 ∷ []) ∷ []

long_cache-Fits : Fits 0 2 long_cache
long_cache-Fits = (
  omega arith,
  λ layer e.
      subst (λ (l : Layer ℕ). (length l.0 ≡ 2) × (length l.1 ≡ 2)) (some-injective _ _ e)
        (refl, refl),
)

short_cache-Fits : Fits 0 2 short_cache
short_cache-Fits = (
  omega arith,
  λ layer e.
      subst (λ (l : Layer ℕ). (length l.0 ≡ 1) × (length l.1 ≡ 1)) (some-injective _ _ e)
        (refl, refl),
)

abbrev padded_keys : List (List ℕ)
padded_keys = (1 ∷ 2 ∷ []) ∷ (5 ∷ 0 ∷ []) ∷ []

abbrev padded_values : List (List ℕ)
padded_values = (3 ∷ 4 ∷ []) ∷ (6 ∷ 0 ∷ []) ∷ []

row_pieces-stack_layer_example :
    (row_pieces (grow (7 ∷ 8 ∷ []) padded_keys) 1 1 ≡ 5 ∷ 8 ∷ [])
    × (row_pieces (grow (7 ∷ 9 ∷ []) padded_values) 1 1 ≡ 6 ∷ 9 ∷ [])
unfolding stack_layer
row_pieces-stack_layer_example =
    row_pieces-stack_layer 0 0 2 (long_cache ∷ short_cache ∷ []) padded_keys padded_values 1
      short_cache (5 ∷ []) (6 ∷ []) (7 ∷ 8 ∷ []) (7 ∷ 9 ∷ []) 8 9
      (long_cache-Fits, (short_cache-Fits, tt)) refl refl refl refl refl

abbrev limits : Limits
limits = record { max_new_tokens_cap = 8; max_seq_len = 6 }

start_request-failed_example : 6 ≤ 7
unfolding start_request fit_max_seq
start_request-failed_example =
    start_request-failed limits 4 two_wait (1 ∷ 2 ∷ 3 ∷ 4 ∷ 5 ∷ 6 ∷ 7 ∷ []) params _ refl
      (omega arith) (omega arith) refl

blocks_needed-IsLeastCover_example : IsLeastCover 2 7 (blocks_needed eight_blocks 7)
blocks_needed-IsLeastCover_example = blocks_needed-IsLeastCover eight_blocks 7 (omega arith)
