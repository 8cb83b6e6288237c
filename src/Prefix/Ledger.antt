-- ===== src/Prefix/Ledger.antt =====
-- The books that src/flux/engine/prefix_cache.py and src/flux/engine/block_pool.py keep together: where
-- each block is, and how often the entries refer to it.
pub mod Acquire
pub mod Release
pub mod Insert
pub mod Adopt
use flux_llm_inference_engin.Prelude.{
  ℕ, ◌+◌, ◌-◌, ◌*◌, ◌≤◌, ◌<◌, List, [], ◌≡◌, sym, ◌∙◌, ap, Option, none, some, arith, count,
  count-range, range, ltb, if◌then◌else◌, nat_eq, tokens_eq, All,
}
use flux_llm_inference_engin.Prelude.Dict.{
  Dict, get, put, total, Distinct, put-Distinct, put-All, get-All, total-put_old,
}
use flux_llm_inference_engin.Pool.{BlockPool, reserve}
use flux_llm_inference_engin.Pool.Balance.{places, places-reserve}
use flux_llm_inference_engin.Prefix.{PrefixEntry, Kv, pin_count, pin}
use flux_llm_inference_engin.Prefix.Pins.{pin_count-pin}

-- 1 if block b is pinned, and 0 if not.
abbrev pub held : Dict ℕ ℕ → ℕ → ℕ
held pins b = if ltb 0 (pin_count b pins) then 1 else 0

-- What is pinned already may be pinned again.
pub held-pin :
    (b : ℕ) (ids : List ℕ) (pins : Dict ℕ ℕ)
    → count b ids ≤ pin_count b pins
    → held (pin ids pins) b ≡ held pins b
held-pin b ids pins h = ground (arith, pin_count-pin b ids pins)

module _ {V L : Type 0} where
  -- How often an entry's references count block b.
  abbrev pub weight : ℕ → PrefixEntry V L → ℕ
  weight b entry = entry.refs * count b entry.block_ids

  -- Each block of the pool is free, allocated, reserved under a key or pinned, in one place only. The
  -- pins of a block are the references of the entries that hold it. An entry stands under its own
  -- tokens, and holds no block while nothing refers to it.
  pub record IsSound (pool : BlockPool) (pins : Dict ℕ ℕ)
      (entries : Dict (List ℕ) (PrefixEntry V L)) : Type 0 where
    pub balanced : (b : ℕ) → places b pool + held pins b ≡ count b (range pool.num_blocks)
    pub pinned : (b : ℕ) → pin_count b pins ≡ total (weight b) entries
    pub distinct_alloc : Distinct pool.alloc
    pub distinct_pins : Distinct pins
    pub distinct_keys : Distinct entries
    pub keyed : All (λ (p : List ℕ × PrefixEntry V L). p.1.token_ids ≡ p.0) entries
    pub idle : All (λ (p : List ℕ × PrefixEntry V L). p.1.refs ≡ 0 → p.1.block_ids ≡ []) entries

  -- Where the cache has no pool, there are no books.
  abbrev pub SoundAt : Option BlockPool → Dict ℕ ℕ → Dict (List ℕ) (PrefixEntry V L) → Type 0
  SoundAt none pins entries = Unit
  SoundAt (some pool) pins entries = IsSound pool pins entries

  abbrev pub Sound : Kv V L → Type 0
  Sound kv = SoundAt kv.pool kv.cache.block_pins kv.cache.entries

  -- An entry may be replaced if the pins follow its weight and the pool follows the pins.
  pub put-IsSound :
      (pool pool' : BlockPool) (pins pins' : Dict ℕ ℕ) (entries : Dict (List ℕ) (PrefixEntry V L))
      (key : List ℕ) (old e : PrefixEntry V L)
      → IsSound pool pins entries
      → get key entries ≡ some old
      → e.token_ids ≡ old.token_ids
      → (e.refs ≡ 0 → e.block_ids ≡ [])
      → pool'.num_blocks ≡ pool.num_blocks
      → Distinct pool'.alloc
      → Distinct pins'
      → ((b : ℕ) → pin_count b pins' + weight b old ≡ pin_count b pins + weight b e)
      → ((b : ℕ) → places b pool' + held pins' b ≡ places b pool + held pins b)
      → IsSound pool' pins' (put key e entries)
  put-IsSound pool pool' pins pins' entries key old e s found same idle size da d moved kept =
      record {
        balanced = λ b. kept b ∙ s.balanced b ∙ ap (λ n. count b (range n)) (sym size);
        pinned = λ b.
            omega (arith, moved b, s.pinned b, total-put_old (weight b) key e old entries found);
        distinct_alloc = da;
        distinct_pins = d;
        distinct_keys = put-Distinct key e entries s.distinct_keys;
        keyed = put-All _ key e entries (same ∙ get-All _ key entries s.keyed found) s.keyed;
        idle = put-All _ key e entries idle s.idle;
      }

  pub count-le-weight :
      (b : ℕ) (e : PrefixEntry V L) → 0 < e.refs → count b e.block_ids ≤ weight b e
  count-le-weight b e h = grind arith

  module _ {pool : BlockPool} {pins : Dict ℕ ℕ} {entries : Dict (List ℕ) (PrefixEntry V L)}
      (s : IsSound pool pins entries) where
    -- Blocks that leave the free list are pinned for the first time.
    pub reserve_fresh :
        (num_tokens : ℕ) {ids : List ℕ} {pool' : BlockPool} (b : ℕ)
        → reserve pool num_tokens none ≡ some (ids, pool')
        → places b pool' + held (pin ids pins) b ≡ places b pool + held pins b
    reserve_fresh num_tokens {ids} b e = ground (
      arith,
      places-reserve b pool num_tokens e,
      pin_count-pin b ids pins,
      s.balanced b,
      count-range b pool.num_blocks,
    )
