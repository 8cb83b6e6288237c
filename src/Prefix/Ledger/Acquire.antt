-- ===== src/Prefix/Ledger/Acquire.antt =====
-- `_acquire_blocks` and `lookup` of src/flux/engine/prefix_cache.py keep the books.
use flux_llm_inference_engin.Prelude.{
  ℕ, suc, ◌+◌, ◌≤◌, ◌<◌, List, [], ◌∷◌, ◌≡◌, refl, sym, subst, ◌∙◌, ap, Option, none, some, Bool,
  true, false, arith, count, length, ltb, if◌then◌else◌, nat_eq, tokens_eq, count-take-drop,
}
use flux_llm_inference_engin.Prelude.Dict.{Dict, get, put, values, total, Distinct, total-get}
use flux_llm_inference_engin.Pool.{BlockPool, reserve, blocks_needed}
use flux_llm_inference_engin.Pool.Balance.{places, num_blocks-reserve, alloc-reserve}
use flux_llm_inference_engin.Prefix.{
  PrefixEntry, PrefixCache, PrefixHit, Kv, pin_count, pin, pin_in, share_from, share_from_live,
  acquire_blocks, acquire_idle, acquire_reserved, lookup_entry, lookup_hit, lookup, peek,
}
use flux_llm_inference_engin.Prefix.Pins.{pin_count-pin, pin-Distinct}
use flux_llm_inference_engin.Prefix.Ledger.{
  held, weight, IsSound, Sound, SoundAt, put-IsSound, held-pin, count-le-weight, reserve_fresh,
}

module _ {V L : Type 0} where
  -- Blocks that an entry shares with a live one are pinned already.
  share_from-le_total :
      (b n : ℕ) (token_ids : List ℕ) (entries : Dict (List ℕ) (PrefixEntry V L)) {shared : List ℕ}
      → share_from n token_ids (values entries) ≡ some shared
      → count b shared ≤ total (weight b) entries
  unfolding share_from
  share_from-le_total b n token_ids [] h = cc
  share_from-le_total b n token_ids ((k, e) ∷ entries) {shared} h = ground (
    arith,
    share_from-le_total b n token_ids entries {shared = shared},
    count-take-drop b n e.block_ids,
    count-le-weight b e,
  )

  -- The entry has one more reference, and what it holds is pinned.
  pub record Acquired (pool : BlockPool) (cache : PrefixCache V L) (entry : PrefixEntry V L)
      (done : PrefixEntry V L × Kv V L) : Type 0 where
    pub pool' : BlockPool
    pub pools : done.1.pool ≡ some pool'
    pub size : pool'.num_blocks ≡ pool.num_blocks
    pub alloc : pool'.alloc ≡ pool.alloc
    pub entries : done.1.cache.entries ≡ cache.entries
    pub tokens : done.0.token_ids ≡ entry.token_ids
    pub refs : done.0.refs ≡ suc entry.refs
    pub distinct : Distinct done.1.cache.block_pins
    pub moved :
        (b : ℕ)
        → pin_count b done.1.cache.block_pins + weight b entry
          ≡ pin_count b cache.block_pins + weight b done.0
    pub kept :
        (b : ℕ)
        → places b pool' + held done.1.cache.block_pins b ≡ places b pool + held cache.block_pins b

  module _ (pool : BlockPool) (cache : PrefixCache V L) (entry : PrefixEntry V L) (key : List ℕ)
      (s : IsSound pool cache.block_pins cache.entries)
      (found : get key cache.entries ≡ some entry) where
    abbrev state : Kv V L
    state = record { pool = some pool; cache = cache }

    again :
        0 < entry.refs
        → Acquired pool cache entry
            (record entry { refs = entry.refs + 1 }, pin_in entry.block_ids state)
    again live = record {
      pool' = pool;
      pools = refl;
      size = refl;
      alloc = refl;
      entries = refl;
      tokens = refl;
      refs = omega arith;
      distinct = pin-Distinct entry.block_ids cache.block_pins s.distinct_pins;
      moved = λ b. omega (arith, pin_count-pin b entry.block_ids cache.block_pins);
      kept = λ b.
          ap (λ n. places b pool + n)
            (held-pin b entry.block_ids cache.block_pins (
              omega (
                arith,
                s.pinned b,
                total-get (weight b) key entry cache.entries found,
                count-le-weight b entry live,
              )));
    }

    fresh :
        (ids : List ℕ) (pool' : BlockPool)
        → entry.refs ≡ 0
        → pool'.num_blocks ≡ pool.num_blocks
        → pool'.alloc ≡ pool.alloc
        → ((b : ℕ)
            → places b pool' + held (pin ids cache.block_pins) b
              ≡ places b pool + held cache.block_pins b)
        → Acquired pool cache entry (
          record entry { block_ids = ids; refs = entry.refs + 1 },
          pin_in ids (record state { pool = some pool' }),
        )
    fresh ids pool' idle size alloc kept = record {
      pool' = pool';
      pools = refl;
      size = size;
      alloc = alloc;
      entries = refl;
      tokens = refl;
      refs = omega arith;
      distinct = pin-Distinct ids cache.block_pins s.distinct_pins;
      moved = λ b. rw idle (omega (arith, pin_count-pin b ids cache.block_pins));
      kept = kept;
    }

    reserved :
        (o : Option (List ℕ × BlockPool))
        → reserve pool (length entry.token_ids) none ≡ o
        → entry.refs ≡ 0
        → Acquired pool cache entry (acquire_reserved entry state o)
    unfolding pin
    reserved none e idle = fresh [] pool idle refl refl (λ b. refl)
    reserved (some (ids, pool')) e idle =
        fresh ids pool' idle (num_blocks-reserve pool _ e) (alloc-reserve pool _ e)
          (λ b. reserve_fresh s _ b e)

    shared_or_reserved :
        (o : Option (List ℕ))
        → share_from_live entry.token_ids state ≡ o
        → entry.refs ≡ 0
        → Acquired pool cache entry (acquire_idle entry state pool o)
    unfolding share_from_live
    shared_or_reserved none e idle = reserved _ refl idle
    shared_or_reserved (some shared) e idle = fresh shared pool idle refl refl λ b.
        ap (λ n. places b pool + n)
          (held-pin b shared cache.block_pins (
            omega (
              arith,
              s.pinned b,
              share_from-le_total b (blocks_needed pool (length entry.token_ids)) entry.token_ids
                  cache.entries e,
            )))

    pub acquire_blocks-Acquired : Acquired pool cache entry (acquire_blocks entry state)
    unfolding acquire_blocks
    acquire_blocks-Acquired = branch (ltb 0 entry.refs) refl
      where
        branch :
            (live : Bool)
            → ltb 0 entry.refs ≡ live
            → Acquired pool cache entry (
                if live
                then (record entry { refs = entry.refs + 1 }, pin_in entry.block_ids state)
                else acquire_idle entry state pool (share_from_live entry.token_ids state))
        branch true e = again (ground arith)
        branch false e = shared_or_reserved _ refl (ground arith)

    -- The entry that was acquired may be written back, with other counters.
    pub store-Sound :
        (done : PrefixEntry V L × Kv V L) (a : Acquired pool cache entry done) (e : PrefixEntry V L)
        → e.token_ids ≡ done.0.token_ids
        → e.refs ≡ done.0.refs
        → e.block_ids ≡ done.0.block_ids
        → SoundAt done.1.pool done.1.cache.block_pins (put key e done.1.cache.entries)
    store-Sound done a e tokens refs blocks =
        rw (a.pools, a.entries)
          (put-IsSound pool a.pool' cache.block_pins done.1.cache.block_pins cache.entries key entry
            e s found (tokens ∙ a.tokens) (λ none_left. absurd (omega (arith, a.refs))) a.size
            (subst Distinct (sym a.alloc) s.distinct_alloc) a.distinct
            (λ b. rw (refs, blocks) (a.moved b)) a.kept)

module _ {V L : Type 0} where
  -- So it is whether the cache has a pool or not.
  pub acquire-store-Sound :
      (pool : Option BlockPool) (cache : PrefixCache V L) (key : List ℕ) (entry e : PrefixEntry V L)
      → get key cache.entries ≡ some entry
      → SoundAt pool cache.block_pins cache.entries
      → let done = acquire_blocks entry (record { pool = pool; cache = cache }) in
        e.token_ids ≡ done.0.token_ids
        → e.refs ≡ done.0.refs
        → e.block_ids ≡ done.0.block_ids
        → SoundAt done.1.pool done.1.cache.block_pins (put key e done.1.cache.entries)
  unfolding acquire_blocks
  acquire-store-Sound none cache key entry e found s tokens refs blocks = tt
  acquire-store-Sound (some pool) cache key entry e found s tokens refs blocks =
      store-Sound pool cache entry key s found _
        (acquire_blocks-Acquired pool cache entry key s found) e tokens refs blocks

module _ {V L : Type 0} (now : ℕ) (token_ids : List ℕ) where
  found-Sound :
      (pool : Option BlockPool) (cache : PrefixCache V L) (key : List ℕ)
      (o : Option (PrefixEntry V L))
      → get key cache.entries ≡ o
      → SoundAt pool cache.block_pins cache.entries
      → Sound (lookup_entry now token_ids key (record { pool = pool; cache = cache }) o).1
  found-Sound pool cache key none e s = s
  found-Sound pool cache key (some entry) e s =
      acquire-store-Sound pool cache key entry _ e s refl refl refl

  hit-Sound :
      (pool : Option BlockPool) (cache : PrefixCache V L) (o : Option (PrefixHit V L))
      → SoundAt pool cache.block_pins cache.entries
      → Sound (lookup_hit now token_ids (record { pool = pool; cache = cache }) o).1
  hit-Sound pool cache none s = s
  hit-Sound pool cache (some hit) s =
      found-Sound pool cache hit.token_ids (get hit.token_ids cache.entries) refl s

  -- `lookup` keeps the books, on a hit and on a miss.
  pub lookup-Sound : (kv : Kv V L) → Sound kv → Sound (lookup now token_ids kv).1
  unfolding lookup
  lookup-Sound kv s = hit-Sound kv.pool kv.cache (peek kv.cache token_ids) s
