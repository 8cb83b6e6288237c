-- ===== src/Kv.antt =====
-- src/flux/engine/kv_utils.py: the KV cache of one sequence. A cache is the list of its layers, each
-- a key and a value tensor. A tensor of one sequence has batch size 1, and the code only ever cuts
-- it along the sequence dimension, so it is the list of its positions; the [heads, dim] slice at a
-- position is a value of the type V. An HF DynamicCache is read by `iter_kv` as the same list.
use flux_llm_inference_engin.Prelude.{ℕ, List, [], ◌∷◌, Option, none, some, length, take}

abbrev pub Layer : Type 0 → Type 0
Layer V = List V × List V

abbrev pub Cache : Type 0 → Type 0
Cache V = List (Layer V)

module _ {V : Type 0} where
  -- A cache that is None has no layers.
  abbrev pub iter_kv : Option (Cache V) → List (Layer V)
  iter_kv none = []
  iter_kv (some layers) = layers

  -- The length of the first layer's key tensor.
  abbrev pub cache_seq_len : Cache V → ℕ
  cache_seq_len [] = 0
  cache_seq_len ((key, value) ∷ layers) = length key

  -- The first `n_tokens` positions of each layer. (A negative `n_tokens`, which raises, is not a ℕ.)
  abbrev pub slice_cache : Cache V → ℕ → Cache V
  slice_cache [] n_tokens = []
  slice_cache ((key, value) ∷ layers) n_tokens =
      (take n_tokens key, take n_tokens value) ∷ slice_cache layers n_tokens

  abbrev pub clone_cache : Cache V → Cache V
  clone_cache cache = slice_cache cache (cache_seq_len cache)
