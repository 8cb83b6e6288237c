-- ===== src/Prefix.antt =====
-- src/flux/engine/prefix_cache.py: the methods that change the cache, its pins and the pool. An entry
-- that a method changes in place is written back under its key. `_clone_logits` copies a tensor: the
-- copy is the same value here.
mod Defs
mod Lookup
mod Blocks
pub mod Candidates
pub mod Longest
pub mod Pins
pub mod Ledger
pub mod Allocations
pub use Defs.{PrefixHit, PrefixEntry, PrefixCache, Kv, PrefixSnapshot}
unfoldable pub use Defs.{new, snapshot}
pub use Blocks.{pin_count, release_some, unpin_at, pin_in, store, acquire_reserved, acquire_idle}
unfoldable pub use Blocks.{pin, unpin_loop, unpin, share_from, share_from_live, acquire_blocks}
unfoldable pub use Lookup.{contains, aligned_lengths, candidate_lengths, hit_of, peek_from, peek}
use flux_llm_inference_engin.Prelude.{
  ℕ, zero, suc, ◌+◌, ◌-◌, List, [], ◌∷◌, ◌++◌, Option, none, some, Bool, true, false, length, take,
  keep_if, leb, ltb, nat_beq, if◌then◌else◌, nat_eq, tokens_eq,
}
use flux_llm_inference_engin.Prelude.Dict.{get, del, values}
use flux_llm_inference_engin.Kv.{Cache, cache_seq_len, slice_cache}
use flux_llm_inference_engin.Sequence.{Sequence}
use flux_llm_inference_engin.Pool.{BlockPool, alloc_of, blocks_needed, release, detach}

module _ {V L : Type 0} where
  -- After the entry of a hit was found: the counters and the hit that `lookup` returns.
  abbrev pub lookup_found :
      ℕ → List ℕ → List ℕ → PrefixEntry V L × Kv V L → Option (PrefixHit V L) × Kv V L
  lookup_found now token_ids key (entry, kv) = (
    some (record {
      token_ids = entry.token_ids;
      n_tokens = length entry.token_ids;
      block_ids = entry.block_ids;
      kv_cache = entry.kv_cache;
      last_logits =
          if nat_beq (length entry.token_ids) (length token_ids) then entry.last_logits else none;
    }),
    store key (record entry { hits = entry.hits + 1; last_used = now })
        (record kv {
          cache = record (kv.cache) {
            hits = kv.cache.hits + 1;
            tokens_saved = kv.cache.tokens_saved + length entry.token_ids;
          };
        }),
  )

  abbrev pub miss : Kv V L → Option (PrefixHit V L) × Kv V L
  miss kv = (none, record kv { cache = record (kv.cache) { misses = kv.cache.misses + 1 } })

  -- The KeyError of `self._entries[hit.token_ids]` cannot occur: `peek` has found that key.
  abbrev pub lookup_entry :
      ℕ → List ℕ → List ℕ → Kv V L → Option (PrefixEntry V L) → Option (PrefixHit V L) × Kv V L
  lookup_entry now token_ids key kv none = (none, kv)
  lookup_entry now token_ids key kv (some entry) =
      lookup_found now token_ids key (acquire_blocks entry kv)

  abbrev pub lookup_hit :
      ℕ → List ℕ → Kv V L → Option (PrefixHit V L) → Option (PrefixHit V L) × Kv V L
  lookup_hit now token_ids kv none = miss kv
  lookup_hit now token_ids kv (some hit) =
      lookup_entry now token_ids hit.token_ids kv (get hit.token_ids kv.cache.entries)

  unfoldable pub lookup : ℕ → List ℕ → Kv V L → Option (PrefixHit V L) × Kv V L
  lookup now token_ids kv = lookup_hit now token_ids kv (peek kv.cache token_ids)

  -- Python's `min` over the unused entries: the first with the least `last_used`.
  abbrev pub oldest : PrefixEntry V L → List (PrefixEntry V L) → PrefixEntry V L
  oldest best [] = best
  oldest best (e ∷ es) = oldest (if ltb e.last_used best.last_used then e else best) es

  abbrev pub victim : List (PrefixEntry V L) → Option (PrefixEntry V L)
  victim [] = none
  victim (e ∷ es) = some (oldest e es)

  abbrev pub unused : Kv V L → List (PrefixEntry V L)
  unused kv = keep_if (λ e. nat_beq e.refs 0) (values kv.cache.entries)

  abbrev pub evict_one : PrefixEntry V L → Kv V L → Kv V L
  evict_one entry kv =
      let kv' = unpin entry.block_ids kv in
      record kv' { cache = record (kv'.cache) { entries = del entry.token_ids kv'.cache.entries } }

  -- One round of `_evict`: the state, and whether the loop goes on.
  abbrev pub evict_victim : Kv V L → Option (PrefixEntry V L) → Kv V L × Bool
  evict_victim kv none = (kv, false)
  evict_victim kv (some entry) = (evict_one entry kv, true)

  -- `_evict`. Each round drops an entry, so the number of entries is fuel enough.
  unfoldable pub evict_loop : ℕ → Kv V L → Kv V L
  evict_loop zero kv = kv
  evict_loop (suc fuel) kv =
      let (kv', more) = evict_victim kv (victim (unused kv)) in
      let rest = evict_loop fuel kv' in
      if leb kv.cache.max_entries (length kv.cache.entries)
      then (if more then rest else kv')
      else kv

  unfoldable pub evict : Kv V L → Kv V L
  evict kv = evict_loop (length kv.cache.entries) kv

  -- The entry that `insert` stores for a prefix of n tokens.
  abbrev pub new_entry : ℕ → List ℕ → Cache V → Option L → ℕ → PrefixEntry V L
  new_entry now token_ids kv_cache last_logits n = record {
    token_ids = take n token_ids;
    kv_cache = slice_cache kv_cache n;
    last_logits = if nat_beq n (length token_ids) then last_logits else none;
    block_ids = [];
    refs = 0;
    hits = 0;
    last_used = now;
  }

  abbrev pub add_entry : ℕ → List ℕ → Cache V → Option L → ℕ → Kv V L → Kv V L
  add_entry now token_ids kv_cache last_logits n kv =
      if leb kv.cache.max_entries (length kv.cache.entries)
      then kv
      else store (take n token_ids) (new_entry now token_ids kv_cache last_logits n) kv

  abbrev pub insert_absent :
      ℕ → List ℕ → Cache V → Option L → ℕ → Kv V L → Option (PrefixEntry V L) → Kv V L
  insert_absent now token_ids kv_cache last_logits n kv (some entry) = kv
  insert_absent now token_ids kv_cache last_logits n kv none =
      add_entry now token_ids kv_cache last_logits n (evict kv)

  -- The body of the loop of `insert`.
  unfoldable pub insert_one : ℕ → List ℕ → Cache V → Option L → ℕ → Kv V L → Kv V L
  insert_one now token_ids kv_cache last_logits n kv =
      if ltb (cache_seq_len kv_cache) n
      then kv
      else insert_absent now token_ids kv_cache last_logits n kv
          (get (take n token_ids) kv.cache.entries)

  unfoldable pub insert_loop : ℕ → List ℕ → Cache V → Option L → List ℕ → Kv V L → Kv V L
  insert_loop now token_ids kv_cache last_logits [] kv = kv
  insert_loop now token_ids kv_cache last_logits (n ∷ lengths) kv =
      insert_loop now token_ids kv_cache last_logits lengths
        (insert_one now token_ids kv_cache last_logits n kv)

  unfoldable pub insert : ℕ → List ℕ → Option (Cache V) → Option L → Kv V L → Kv V L
  insert now token_ids none last_logits kv = kv
  insert now token_ids (some kv_cache) last_logits kv =
      if ltb (cache_seq_len kv_cache) kv.cache.min_tokens
      then kv
      else insert_loop now token_ids kv_cache last_logits (candidate_lengths kv.cache token_ids) kv

  -- `adopt`, where the entry is idle: its blocks come out of the sequence's own reservation.
  abbrev pub adopt_blocks :
      ℕ
      → List ℕ
      → PrefixEntry V L
      → Sequence V L
      → PrefixCache V L
      → Option BlockPool
      → Kv V L × Sequence V L
  adopt_blocks now key entry seq cache none = (
    store key (record entry { block_ids = []; refs = 1; last_used = now })
        (record { pool = none; cache = cache }),
    record seq { prefix_key = some key; block_ids = seq.owned_block_ids },
  )
  adopt_blocks now key entry seq cache (some pool) =
      let n_blocks = blocks_needed pool (length entry.token_ids) in
      let (taken, pool', seq') = detach pool seq n_blocks in
      let owned = alloc_of seq.id pool' in
      (
        store key (record entry { block_ids = taken; refs = 1; last_used = now })
            (pin_in taken (record { pool = some pool'; cache = cache })),
        record seq' { prefix_key = some key; owned_block_ids = owned; block_ids = taken ++ owned },
      )

  abbrev pub adopt_entry :
      ℕ → List ℕ → Sequence V L → Kv V L → Option (PrefixEntry V L) → Kv V L × Sequence V L
  adopt_entry now key seq kv none = (kv, seq)
  adopt_entry now key seq kv (some entry) =
      if ltb 0 entry.refs
      then (
        store key (acquire_blocks entry kv).0 (acquire_blocks entry kv).1,
        record seq { prefix_key = some key },
      )
      else adopt_blocks now key entry seq kv.cache kv.pool

  abbrev pub adopt_longest : ℕ → Sequence V L → Kv V L → List ℕ → Kv V L × Sequence V L
  adopt_longest now seq kv [] = (kv, seq)
  adopt_longest now seq kv (n ∷ lengths) =
      let key = take n seq.prompt_ids in adopt_entry now key seq kv (get key kv.cache.entries)

  abbrev pub adopt_new : ℕ → Sequence V L → Kv V L → Option (List ℕ) → Kv V L × Sequence V L
  adopt_new now seq kv (some key) = (kv, seq)
  adopt_new now seq kv none = adopt_longest now seq kv (candidate_lengths kv.cache seq.prompt_ids)

  unfoldable pub adopt : ℕ → Sequence V L → Kv V L → Kv V L × Sequence V L
  adopt now seq kv = adopt_new now seq kv seq.prefix_key

  -- The entry after one reference was dropped.
  abbrev pub dropped : PrefixEntry V L → PrefixEntry V L
  dropped entry = record entry {
    refs = entry.refs - 1;
    block_ids = if nat_beq (entry.refs - 1) 0 then [] else entry.block_ids;
  }

  abbrev pub release_entry : List ℕ → Kv V L → Option (PrefixEntry V L) → Kv V L
  release_entry key kv none = kv
  release_entry key kv (some entry) =
      if leb entry.refs 0 then kv else store key (dropped entry) (unpin entry.block_ids kv)

  -- `release`. An empty key is falsy, as None is.
  unfoldable pub release_key : Option (List ℕ) → Kv V L → Kv V L
  release_key none kv = kv
  release_key (some []) kv = kv
  release_key (some (t ∷ ts)) kv = release_entry (t ∷ ts) kv (get (t ∷ ts) kv.cache.entries)
