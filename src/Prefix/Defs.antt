-- ===== src/Prefix/Defs.antt =====
-- The state of src/flux/engine/prefix_cache.py: stored prefixes, pins on blocks, counters. `time.time()`
-- is an argument of the calls that read it. The cache keeps a reference to the scheduler's pool: the
-- two stand together in `Kv`, and a method returns the new `Kv`.
use flux_llm_inference_engin.Prelude.{ℕ, max, List, [], Option, length, nat_eq, tokens_eq}
use flux_llm_inference_engin.Prelude.Dict.{Dict, total}
use flux_llm_inference_engin.Kv.{Cache}
use flux_llm_inference_engin.Pool.{BlockPool}

pub record PrefixHit (V L : Type 0) : Type 0 where
  pub token_ids : List ℕ
  pub n_tokens : ℕ
  pub block_ids : List ℕ
  pub kv_cache : Cache V
  pub last_logits : Option L

pub record PrefixEntry (V L : Type 0) : Type 0 where
  pub token_ids : List ℕ
  pub kv_cache : Cache V
  pub last_logits : Option L
  pub block_ids : List ℕ
  pub refs : ℕ
  pub hits : ℕ
  pub last_used : ℕ

pub record PrefixCache (V L : Type 0) : Type 0 where
  pub max_entries : ℕ
  pub min_tokens : ℕ
  pub block_size : ℕ
  pub entries : Dict (List ℕ) (PrefixEntry V L)
  pub block_pins : Dict ℕ ℕ
  pub hits : ℕ
  pub misses : ℕ
  pub tokens_saved : ℕ

pub record Kv (V L : Type 0) : Type 0 where
  pub pool : Option BlockPool
  pub cache : PrefixCache V L

pub record PrefixSnapshot : Type 0 where
  pub prefix_entries : ℕ
  pub prefix_hits : ℕ
  pub prefix_misses : ℕ
  pub prefix_tokens_saved : ℕ
  pub prefix_live_refs : ℕ

module _ {V L : Type 0} where
  -- PrefixCache(pool, max_entries=…, min_tokens=…, block_size=…), without the pool.
  unfoldable pub new : (max_entries min_tokens block_size : ℕ) → PrefixCache V L
  new max_entries min_tokens block_size = record {
    max_entries = max 1 max_entries;
    min_tokens = max 1 min_tokens;
    block_size = block_size;
    entries = [];
    block_pins = [];
    hits = 0;
    misses = 0;
    tokens_saved = 0;
  }

  unfoldable pub snapshot : PrefixCache V L → PrefixSnapshot
  snapshot cache = record {
    prefix_entries = length cache.entries;
    prefix_hits = cache.hits;
    prefix_misses = cache.misses;
    prefix_tokens_saved = cache.tokens_saved;
    prefix_live_refs = total (λ entry. entry.refs) cache.entries;
  }
