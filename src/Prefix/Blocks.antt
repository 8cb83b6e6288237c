-- ===== src/Prefix/Blocks.antt =====
-- The pins of src/flux/engine/prefix_cache.py, and how an entry gets its blocks.
use flux_llm_inference_engin.Prelude.{
  ℕ, ◌+◌, ◌-◌, List, [], ◌∷◌, ◌++◌, Option, none, some, Bool, ◌&&◌, length, take, leb, ltb,
  tokens_beq, if◌then◌else◌, nat_eq, tokens_eq,
}
use flux_llm_inference_engin.Prelude.Dict.{Dict, get, put, del, values}
use flux_llm_inference_engin.Pool.{BlockPool, blocks_needed, reserve, release}
use flux_llm_inference_engin.Prefix.Defs.{PrefixEntry, PrefixCache, Kv}

-- `self._block_pins.get(block_id, 0)`
abbrev pub pin_count : ℕ → Dict ℕ ℕ → ℕ
pin_count b pins = elim (get b pins) [ none ↦ 0 | some n ↦ n ]

unfoldable pub pin : List ℕ → Dict ℕ ℕ → Dict ℕ ℕ
pin [] pins = pins
pin (b ∷ ids) pins = pin ids (put b (pin_count b pins + 1) pins)

-- The loop of `_unpin`: the pins left and the blocks to free. `left <= 0` is a count of 1 or less.
unfoldable pub unpin_loop : List ℕ → Dict ℕ ℕ → List ℕ → List ℕ × Dict ℕ ℕ
unpin_loop [] pins to_free = (to_free, pins)
unpin_loop (b ∷ ids) pins to_free =
    let last = leb (pin_count b pins) 1 in
    unpin_loop ids (if last then del b pins else put b (pin_count b pins - 1) pins)
      (if last then to_free ++ b ∷ [] else to_free)

abbrev pub release_some : List ℕ → BlockPool → BlockPool
release_some [] pool = pool
release_some (b ∷ ids) pool = release pool (b ∷ ids) none

module _ {V L : Type 0} where
  abbrev pub unpin_at : List ℕ → PrefixCache V L → Option BlockPool → Kv V L
  unpin_at ids cache none = record { pool = none; cache = cache }
  unpin_at ids cache (some pool) =
      let (to_free, pins) = unpin_loop ids cache.block_pins [] in
      record { pool = some (release_some to_free pool); cache = record cache { block_pins = pins } }

  unfoldable pub unpin : List ℕ → Kv V L → Kv V L
  unpin ids kv = unpin_at ids kv.cache kv.pool

  abbrev pub pin_in : List ℕ → Kv V L → Kv V L
  pin_in ids kv = record kv {
    cache = record (kv.cache) { block_pins = pin ids kv.cache.block_pins };
  }

  abbrev pub store : List ℕ → PrefixEntry V L → Kv V L → Kv V L
  store key entry kv = record kv {
    cache = record (kv.cache) { entries = put key entry kv.cache.entries };
  }

  -- The test of a live entry whose tokens begin with the given ones.
  abbrev shares : List ℕ → PrefixEntry V L → Bool
  shares token_ids other =
      ltb 0 other.refs
      && (ltb 0 (length other.block_ids)
          && tokens_beq (take (length token_ids) other.token_ids) token_ids)

  unfoldable pub share_from : ℕ → List ℕ → List (PrefixEntry V L) → Option (List ℕ)
  share_from n_blocks token_ids [] = none
  share_from n_blocks token_ids (other ∷ others) =
      if shares token_ids other
      then some (take n_blocks other.block_ids)
      else share_from n_blocks token_ids others

  unfoldable pub share_from_live : List ℕ → Kv V L → Option (List ℕ)
  unfolding share_from
  share_from_live token_ids kv = elim kv.pool [
    | none ↦ none
    | some pool ↦
        share_from (blocks_needed pool (length token_ids)) token_ids (values kv.cache.entries)
  ]

  -- The last branches of `_acquire_blocks`, on what `reserve` and `_share_from_live` return.
  abbrev pub acquire_reserved :
      PrefixEntry V L → Kv V L → Option (List ℕ × BlockPool) → PrefixEntry V L × Kv V L
  acquire_reserved entry kv none = (record entry { block_ids = []; refs = entry.refs + 1 }, kv)
  acquire_reserved entry kv (some (ids, pool')) = (
    record entry { block_ids = ids; refs = entry.refs + 1 },
    pin_in ids (record kv { pool = some pool' }),
  )

  abbrev pub acquire_idle :
      PrefixEntry V L → Kv V L → BlockPool → Option (List ℕ) → PrefixEntry V L × Kv V L
  acquire_idle entry kv pool (some shared) =
      (record entry { block_ids = shared; refs = entry.refs + 1 }, pin_in shared kv)
  acquire_idle entry kv pool none =
      acquire_reserved entry kv (reserve pool (length entry.token_ids) none)

  -- `_acquire_blocks`: the entry as it becomes, and the state. Its caller writes the entry back.
  unfoldable pub acquire_blocks : PrefixEntry V L → Kv V L → PrefixEntry V L × Kv V L
  acquire_blocks entry kv = elim kv.pool [
    | none ↦ (record entry { refs = entry.refs + 1 }, kv)
    | some pool ↦
        if ltb 0 entry.refs
        then (record entry { refs = entry.refs + 1 }, pin_in entry.block_ids kv)
        else acquire_idle entry kv pool (share_from_live entry.token_ids kv)
  ]
