-- ===== src/FakeLm/Encoding.antt =====
-- The prompts that FakeTokenizer of src/flux/engine/fake_lm.py makes.
use native.Mathlib.Nat.{mod-lt}
use flux_llm_inference_engin.Prelude.{
  ℕ, zero, suc, ◌+◌, ◌-◌, ◌%◌, ◌≤◌, ◌<◌, List, [], ◌∷◌, arith, All, length, take, map, length-take,
}
use flux_llm_inference_engin.Tokenizer.{Text}
use flux_llm_inference_engin.FakeLm.{encode}

-- A prompt that the model can be given: a token at least, 48 at most, and each one of the vocabulary, but
-- not the end of the text.
pub record IsPrompt (vocab_size : ℕ) (ids : List ℕ) : Type 0 where
  pub some_token : 0 < length ids
  pub bounded : length ids ≤ 48
  pub known : All (λ (t : ℕ). (0 < t) × (t < vocab_size)) ids

take-All : (P : ℕ → Type 0) (n : ℕ) (xs : List ℕ) → All P xs → All P (take n xs)
take-All P zero xs all = tt
take-All P (suc n) [] all = tt
take-All P (suc n) (x ∷ xs) all = (all.0, take-All P n xs all.1)

shifted :
    (vocab_size : ℕ) (text : Text)
    → 2 < vocab_size
    → All (λ (t : ℕ). (0 < t) × (t < vocab_size)) (map (λ c. c % (vocab_size - 2) + 1) text)
shifted vocab_size [] h = tt
shifted vocab_size (c ∷ text) h =
    let small : c % (vocab_size - 2) < vocab_size - 2 = mod-lt c (omega (arith, h)) in
    ((omega arith, omega (arith, small)), shifted vocab_size text h)

-- With a vocabulary of more than two, every text and every chat is encoded as such a prompt.
pub encode-IsPrompt :
    (vocab_size : ℕ) (text : Text) → 2 < vocab_size → IsPrompt vocab_size (encode vocab_size text)
unfolding encode
encode-IsPrompt vocab_size [] h = record {
  some_token = omega arith;
  bounded = omega arith;
  known = ((omega arith, omega (arith, h)), tt);
}
encode-IsPrompt vocab_size (c ∷ text) h =
    let ids = map (λ char. char % (vocab_size - 2) + 1) (c ∷ text) in
    record {
      some_token = omega arith;
      bounded = omega (arith, length-take 48 (1 ∷ ids));
      known =
          take-All (λ (t : ℕ). (0 < t) × (t < vocab_size)) 48 (1 ∷ ids)
            ((omega arith, omega (arith, h)), shifted vocab_size (c ∷ text) h);
    }
