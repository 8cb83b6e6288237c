-- ===== src/FakeLm.antt =====
-- src/flux/engine/fake_lm.py: the model and the tokenizer that stand in for the real ones. A position of the
-- cache is the [heads, dim] slice of zeros, `blank`. The logits at the last position are the list over
-- the vocabulary. The log of the calls and the layers of the network that nothing reads are left out. An
-- empty input and a past with too few layers, which raise, are not calls that the engines make.
pub mod Agreement
pub mod Encoding
use flux_llm_inference_engin.Prelude.{
  ℕ, zero, suc, ◌+◌, ◌-◌, ◌%◌, List, [], ◌∷◌, ◌++◌, Bool, ◌&&◌, Option, none, some, map, length,
  take, range, leb, nat_beq, codes, is_among, if◌then◌else◌,
}
use flux_llm_inference_engin.Kv.{Cache}
use flux_llm_inference_engin.Batching.{times}
use flux_llm_inference_engin.Generate.{Model}
use flux_llm_inference_engin.Tokenizer.{Text, Piece, negative, id_of}

pub data Logit : Type 0 where
  masked peak : Logit

-- `input_ids[:, -1]`
abbrev pub last_id : List ℕ → ℕ
last_id [] = 0
last_id (x ∷ []) = x
last_id (x ∷ y ∷ ids) = last_id (y ∷ ids)

unfoldable pub next_id : (vocab_size last : ℕ) → ℕ
next_id vocab_size last =
    let next = if leb vocab_size (last + 1) then 1 else last + 1 in
    if nat_beq next 0 then 1 else next

unfoldable pub logits_for : (vocab_size next : ℕ) → List Logit
logits_for vocab_size next = map (λ i. if nat_beq i next then peak else masked) (range vocab_size)

module _ {V : Type 0} (blank : V) where
  -- The layers of the new cache: the past of each, if there is one, and zeros for the new positions.
  unfoldable pub grow_layers : (n_layers : ℕ) → Cache V → ℕ → Cache V
  grow_layers zero past seq = []
  grow_layers (suc n) [] seq = (times seq blank, times seq blank) ∷ grow_layers n [] seq
  grow_layers (suc n) ((key, value) ∷ past) seq =
      (key ++ times seq blank, value ++ times seq blank) ∷ grow_layers n past seq

  abbrev pub past_layers : Option (Cache V) → Cache V
  past_layers none = []
  past_layers (some past) = past

  -- FakeLM.forward with `use_cache`, for a batch of one.
  unfoldable pub forward :
      (vocab_size n_layers : ℕ) → Option (Cache V) → List ℕ → List Logit × Cache V
  forward vocab_size n_layers past input_ids = (
    logits_for vocab_size (next_id vocab_size (last_id input_ids)),
    grow_layers n_layers (past_layers past) (length input_ids),
  )

  abbrev pub fake_lm : (vocab_size n_layers : ℕ) → Model V (List Logit)
  fake_lm vocab_size n_layers = record {
    run = forward vocab_size n_layers;
    run_at = λ call. forward vocab_size n_layers (some call.past_key_values) call.input_ids;
  }

-- FakeTokenizer.encode, for a vocabulary of more than two.
unfoldable pub encode : ℕ → Text → List ℕ
encode vocab_size [] = 1 ∷ []
encode vocab_size (c ∷ text) = take 48 (1 ∷ map (λ char. char % (vocab_size - 2) + 1) (c ∷ text))

-- FakeTokenizer.decode
unfoldable pub decode : Bool → List ℕ → Text
decode skip_special_tokens [] = []
decode skip_special_tokens (t ∷ ids) =
    let rest = decode skip_special_tokens ids in
    if skip_special_tokens && nat_beq t 0 then rest else (97 + t % 26) ∷ rest

-- The text of apply_chat_template, from the roles and contents.
unfoldable pub chat_text : Bool → List (Text × Text) → Text
chat_text add_generation_prompt [] = if add_generation_prompt then codes "<|assistant|>" else []
chat_text add_generation_prompt ((role, content) ∷ messages) =
    codes "<|"
    ++ (role
        ++ (codes "|>"
            ++ (content ++ (codes "<|im_end|>" ++ chat_text add_generation_prompt messages))))

unfoldable pub apply_chat_template : ℕ → Bool → List (Text × Text) → List ℕ
apply_chat_template vocab_size add_generation_prompt messages =
    encode vocab_size (chat_text add_generation_prompt messages)

unfoldable pub convert_tokens_to_ids : Text → Piece
convert_tokens_to_ids piece =
    if is_among piece ("<|im_end|>" ∷ "<|endoftext|>" ∷ []) then id_of 0 else negative
