-- ===== src/Generate/Tokens.antt =====
-- What the loop of src/flux/engine/naive_engine.py returns, whatever the model and the sampler do.
use flux_llm_inference_engin.Prelude.{
  ℕ, zero, suc, List, [], ◌∷◌, ◌++◌, ◌≡◌, true, false, none, if_ind,
}
use flux_llm_inference_engin.Sequence.{Reason, stop, length_limit}
use flux_llm_inference_engin.Engine.{is_stop}
use flux_llm_inference_engin.Generate.{Model, naive_loop, note_or_stop}

-- A complete answer of at most `left` tokens: either it ends at its only stop token, or no token of it
-- is a stop token and it has all the tokens that it may have.
pub data Complete (stop_ids : List ℕ) : ℕ → List ℕ × Reason → Type 0 where
  full : Complete stop_ids 0 ([], length_limit)
  stopped :
      (left token : ℕ)
      → is_stop token stop_ids ≡ true
      → Complete stop_ids (suc left) (token ∷ [], stop)
  more :
      (left token : ℕ) (tokens : List ℕ) (reason : Reason)
      → is_stop token stop_ids ≡ false
      → Complete stop_ids left (tokens, reason)
      → Complete stop_ids (suc left) (token ∷ tokens, reason)

pub note_or_stop-Complete :
    (stop_ids : List ℕ) (left token : ℕ) (rest : List ℕ × Reason)
    → Complete stop_ids left rest
    → Complete stop_ids (suc left) (note_or_stop token stop_ids rest)
note_or_stop-Complete stop_ids left token (tokens, reason) c =
    if_ind (Complete stop_ids (suc left)) (is_stop token stop_ids) (λ yes. stopped left token yes)
      (λ no. more left token tokens reason no c)

module _ {V L : Type 0} (model : Model V L) (draw : ℕ → L → ℕ) (stop_ids : List ℕ) where
  -- The loop of the naive engine returns a complete answer of at most as many tokens as it has passes:
  -- it stops at the first stop token and nowhere else.
  pub naive_loop-Complete :
      (left k : ℕ) (input_ids : List ℕ)
      → Complete stop_ids left (naive_loop model draw stop_ids left k input_ids)
  unfolding naive_loop
  naive_loop-Complete zero k input_ids = full
  naive_loop-Complete (suc left) k input_ids =
      let token = draw k (model.run none input_ids).0 in
      note_or_stop-Complete stop_ids left token _
        (naive_loop-Complete left (suc k) (input_ids ++ token ∷ []))
