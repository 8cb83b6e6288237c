-- ===== src/Prefix/Ledger/Adopt.antt =====
-- `adopt` of src/flux/engine/prefix_cache.py keeps the books: after a prefill that missed, the blocks of
-- the prompt pass from the sequence's allocation to the entry.
use flux_llm_inference_engin.Prelude.{
  ℕ, ◌+◌, List, [], ◌∷◌, ◌≡◌, refl, Option, none, some, arith, count-range, length, take, ltb,
  nat_eq, tokens_eq, if_ind,
}
use flux_llm_inference_engin.Prelude.Dict.{Dict, get}
use flux_llm_inference_engin.Pool.{BlockPool, blocks_needed, detach}
use flux_llm_inference_engin.Sequence.{Sequence}
use flux_llm_inference_engin.Pool.Balance.{
  places, places-detach, num_blocks-detach, alloc-detach, Granted,
}
use flux_llm_inference_engin.Prefix.{
  PrefixEntry, PrefixCache, Kv, pin, adopt_blocks, adopt_entry, adopt_longest, adopt_new, adopt,
}
use flux_llm_inference_engin.Prefix.Pins.{pin_count-pin, pin-Distinct}
use flux_llm_inference_engin.Prefix.{candidate_lengths}
use flux_llm_inference_engin.Prefix.Ledger.Acquire.{acquire-store-Sound}
use flux_llm_inference_engin.Prefix.Ledger.{held, IsSound, Sound, SoundAt, put-IsSound}

module _ {V L : Type 0} (now : ℕ) (seq : Sequence V L) where
  -- Detached blocks are pinned for the first time.
  detach_fresh :
      {pool : BlockPool} {pins : Dict ℕ ℕ} {entries : Dict (List ℕ) (PrefixEntry V L)}
      (s : IsSound pool pins entries) (n : ℕ) {ids : List ℕ} (b : ℕ)
      → get seq.id pool.alloc ≡ some ids
      → places b (detach pool seq n).1 + held (pin (detach pool seq n).0 pins) b
        ≡ places b pool + held pins b
  detach_fresh {pool} {pins} s n b e = ground (
    arith,
    places-detach b pool seq n e,
    pin_count-pin b (detach pool seq n).0 pins,
    s.balanced b,
    count-range b pool.num_blocks,
  )

  idle-Sound :
      (pool : Option BlockPool) (cache : PrefixCache V L) (key : List ℕ) (entry : PrefixEntry V L)
      → get key cache.entries ≡ some entry
      → entry.refs ≡ 0
      → Granted pool seq.id
      → SoundAt pool cache.block_pins cache.entries
      → Sound (adopt_blocks now key entry seq cache pool).0
  idle-Sound none cache key entry found idle owns s = tt
  idle-Sound (some pool) cache key entry found idle owns s =
      put-IsSound pool (detach pool seq n).1 cache.block_pins
        (pin (detach pool seq n).0 cache.block_pins) cache.entries key entry
        (record entry { block_ids = (detach pool seq n).0; refs = 1; last_used = now }) s found refl
        (λ zero_refs. absurd (omega arith)) (num_blocks-detach pool seq n)
        (alloc-detach pool seq n s.distinct_alloc)
        (pin-Distinct (detach pool seq n).0 cache.block_pins s.distinct_pins)
        (λ b. rw idle (omega (arith, pin_count-pin b (detach pool seq n).0 cache.block_pins)))
        (λ b. detach_fresh s n b owns.1)
    where
      n : ℕ
      n = blocks_needed pool (length entry.token_ids)

  entry-Sound :
      (pool : Option BlockPool) (cache : PrefixCache V L) (key : List ℕ)
      (o : Option (PrefixEntry V L))
      → get key cache.entries ≡ o
      → Granted pool seq.id
      → SoundAt pool cache.block_pins cache.entries
      → Sound (adopt_entry now key seq (record { pool = pool; cache = cache }) o).0
  entry-Sound pool cache key none found owns s = s
  entry-Sound pool cache key (some entry) found owns s =
      if_ind (λ (r : Kv V L × Sequence V L). Sound r.0) (ltb 0 entry.refs)
        (λ live. acquire-store-Sound pool cache key entry _ found s refl refl refl)
        (λ idle. idle-Sound pool cache key entry found (ground arith) owns s)

  longest-Sound :
      (kv : Kv V L) (lengths : List ℕ)
      → Granted kv.pool seq.id
      → Sound kv
      → Sound (adopt_longest now seq kv lengths).0
  longest-Sound kv [] owns s = s
  longest-Sound kv (n ∷ lengths) owns s =
      entry-Sound kv.pool kv.cache (take n seq.prompt_ids)
        (get (take n seq.prompt_ids) kv.cache.entries) refl owns s

  new-Sound :
      (kv : Kv V L) (o : Option (List ℕ))
      → Granted kv.pool seq.id
      → Sound kv
      → Sound (adopt_new now seq kv o).0
  new-Sound kv (some key) owns s = s
  new-Sound kv none owns s = longest-Sound kv (candidate_lengths kv.cache seq.prompt_ids) owns s

  -- `adopt` keeps the books for a sequence that was admitted.
  pub adopt-Sound : (kv : Kv V L) → Granted kv.pool seq.id → Sound kv → Sound (adopt now seq kv).0
  unfolding adopt
  adopt-Sound kv owns s = new-Sound kv seq.prefix_key owns s
