-- ===== src/Prefix/Lookup.antt =====
-- `candidate_lengths` and `peek` of src/flux/engine/prefix_cache.py, which read the cache alone.
use flux_llm_inference_engin.Prelude.{
  ℕ, zero, suc, ◌-◌, ◌*◌, ◌/◌, List, [], ◌∷◌, ◌++◌, Option, none, some, Bool, false, ◌||◌, length,
  take, leb, nat_beq, if◌then◌else◌, tokens_eq,
}
use flux_llm_inference_engin.Prelude.Dict.{get}
use flux_llm_inference_engin.Prefix.Defs.{PrefixHit, PrefixEntry, PrefixCache}

-- `n in lengths`
abbrev pub contains : ℕ → List ℕ → Bool
contains n [] = false
contains n (m ∷ lengths) = nat_beq m n || contains n lengths

-- The `while aligned >= self.min_tokens` loop. The fuel is the number of whole blocks: once it is
-- used up, `aligned` is 0, which is below `min_tokens`.
unfoldable pub aligned_lengths : (fuel min_tokens block_size aligned : ℕ) → List ℕ → List ℕ
aligned_lengths zero min_tokens block_size aligned lengths = lengths
aligned_lengths (suc fuel) min_tokens block_size aligned lengths =
    let rest =
      aligned_lengths fuel min_tokens block_size (aligned - block_size)
        (if contains aligned lengths then lengths else lengths ++ aligned ∷ []) in
    if leb min_tokens aligned then rest else lengths

module _ {V L : Type 0} (cache : PrefixCache V L) where
  unfoldable pub candidate_lengths : List ℕ → List ℕ
  candidate_lengths token_ids =
      let n = length token_ids in
      aligned_lengths (n / cache.block_size) cache.min_tokens cache.block_size
        ((n / cache.block_size) * cache.block_size) (if leb cache.min_tokens n then n ∷ [] else [])

  abbrev pub hit_of : List ℕ → ℕ → PrefixEntry V L → PrefixHit V L
  hit_of token_ids n entry = record {
    token_ids = take n token_ids;
    n_tokens = n;
    block_ids = entry.block_ids;
    kv_cache = entry.kv_cache;
    last_logits = if nat_beq n (length token_ids) then entry.last_logits else none;
  }

  -- The `while n >= self.min_tokens` loop. At 0 it has ended, since `min_tokens` is at least 1.
  unfoldable pub peek_from : List ℕ → ℕ → Option (PrefixHit V L)
  peek_from token_ids zero = none
  peek_from token_ids (suc n) =
      let shorter = peek_from token_ids n in
      if leb cache.min_tokens (suc n)
      then (elim (get (take (suc n) token_ids) cache.entries) [
        | some entry ↦ some (hit_of token_ids (suc n) entry)
        | none ↦ shorter
      ])
      else none

  unfoldable pub peek : List ℕ → Option (PrefixHit V L)
  unfolding peek_from
  peek token_ids = peek_from token_ids (length token_ids)
