-- ===== src/Batching.antt =====
-- src/flux/engine/batching.py: the caches of a batch, padded on the right and stacked, the mask, and the
-- cache of a row after a decode step. A stacked tensor is the list of its rows, a row the list of its
-- positions. `blank` is the vector of zeros that pads. `none` stands for the exceptions: no cache at
-- all, or a cache with fewer layers than the first one.
pub mod RoundTrip
use flux_llm_inference_engin.Prelude.{
  ℕ, zero, suc, ◌+◌, ◌-◌, max, List, [], ◌∷◌, ◌++◌, Option, none, some, length, take, drop, map,
}
use flux_llm_inference_engin.Kv.{Cache, Layer, cache_seq_len}

abbrev pub Stacked : Type 0 → Type 0
Stacked V = List (List V) × List (List V)

abbrev pub times : {A : Type 0} → ℕ → A → List A
times zero x = []
times (suc n) x = x ∷ times n x

abbrev pub longest : List ℕ → ℕ
longest [] = 0
longest (n ∷ lengths) = max n (longest lengths)

module _ {V : Type 0} where
  -- `iter_kv(cache)[layer_idx]`
  abbrev pub layer_at : ℕ → Cache V → Option (Layer V)
  layer_at idx [] = none
  layer_at zero (layer ∷ layers) = some layer
  layer_at (suc idx) (layer ∷ layers) = layer_at idx layers

  abbrev pub row_at : ℕ → List (List V) → List V
  row_at row [] = []
  row_at zero (r ∷ rows) = r
  row_at (suc row) (r ∷ rows) = row_at row rows

  -- The length of a tensor's sequence dimension, which all rows share.
  abbrev pub width : List (List V) → ℕ
  width [] = 0
  width (r ∷ rows) = length r

  module _ (blank : V) where
    -- A row of zeros, with the first `seq_len` positions written.
    abbrev pub pad : ℕ → ℕ → List V → List V
    pad max_len seq_len xs = take seq_len xs ++ times (max_len - seq_len) blank

    abbrev pub add_row : ℕ → ℕ → Option (Layer V) → Option (Stacked V) → Option (Stacked V)
    add_row max_len seq_len none rest = none
    add_row max_len seq_len (some layer) none = none
    add_row max_len seq_len (some (key, value)) (some (keys, values)) =
        some (pad max_len seq_len key ∷ keys, pad max_len seq_len value ∷ values)

    -- The body of the loop over the layers.
    unfoldable pub stack_layer : ℕ → ℕ → List (Cache V) → Option (Stacked V)
    stack_layer idx max_len [] = some ([], [])
    stack_layer idx max_len (cache ∷ caches) =
        add_row max_len (cache_seq_len cache) (layer_at idx cache) (stack_layer idx max_len caches)

    abbrev pub add_layer :
        Option (Stacked V) → Option (List (Stacked V)) → Option (List (Stacked V))
    add_layer none rest = none
    add_layer (some layer) none = none
    add_layer (some layer) (some layers) = some (layer ∷ layers)

    -- The loop over the layers of the first cache, from the layer `idx` on.
    unfoldable pub stack_from : ℕ → Cache V → ℕ → List (Cache V) → Option (List (Stacked V))
    stack_from idx [] max_len caches = some []
    stack_from idx (layer ∷ layers) max_len caches =
        add_layer (stack_layer idx max_len caches) (stack_from (suc idx) layers max_len caches)

    abbrev pub with_lengths :
        List ℕ → ℕ → Option (List (Stacked V)) → Option (List (Stacked V) × List ℕ × ℕ)
    with_lengths lengths max_len none = none
    with_lengths lengths max_len (some stacked) = some (stacked, lengths, max_len)

    unfoldable pub stack_caches : List (Cache V) → Option (List (Stacked V) × List ℕ × ℕ)
    stack_caches [] = none
    stack_caches (cache ∷ caches) =
        let lengths = map cache_seq_len (cache ∷ caches) in
        with_lengths lengths (longest lengths)
          (stack_from 0 cache (longest lengths) (cache ∷ caches))

  -- The tokens of a row, and the token at the last position.
  abbrev pub row_pieces : List (List V) → ℕ → ℕ → List V
  row_pieces rows row zero = take 1 (drop (width rows - 1) (row_at row rows))
  row_pieces rows row (suc n) =
      take (suc n) (row_at row rows) ++ take 1 (drop (width rows - 1) (row_at row rows))

  unfoldable pub extract_row_cache : List (Stacked V) → ℕ → ℕ → Cache V
  extract_row_cache [] row old_len = []
  extract_row_cache ((keys, values) ∷ layers) row old_len =
      (row_pieces keys row old_len, row_pieces values row old_len)
      ∷ extract_row_cache layers row old_len

-- A row of the mask: the past tokens, the padding, and the new token.
abbrev pub mask_row : ℕ → ℕ → List ℕ
mask_row max_past seq_len = times seq_len 1 ++ (times (max_past - seq_len) 0 ++ 1 ∷ [])

unfoldable pub attention_mask_for_decode : List ℕ → ℕ → List (List ℕ)
attention_mask_for_decode lengths max_past = map (mask_row max_past) lengths
