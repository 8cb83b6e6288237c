-- ===== src/Prefix/Ledger/Release.antt =====
-- `release` of src/flux/engine/prefix_cache.py keeps the books: a reference is dropped, and a block
-- that nothing refers to any more goes back to the pool.
use flux_llm_inference_engin.Prelude.{
  ℕ, zero, suc, ◌+◌, ◌-◌, ◌*◌, ◌<◌, List, [], ◌∷◌, ◌≡◌, refl, ap, Option, none, some, Bool, true,
  false, arith, count, leb, nat_beq, if◌then◌else◌, nat_eq, tokens_eq,
}
use flux_llm_inference_engin.Prelude.Dict.{Dict, get, Distinct, total-get}
use flux_llm_inference_engin.Pool.{BlockPool, release}
use flux_llm_inference_engin.Pool.Balance.{places, places-release}
use flux_llm_inference_engin.Prefix.{
  PrefixEntry, PrefixCache, Kv, unpin, unpin_loop, store, release_key, release_entry, release_some,
  unpin_at, dropped,
}
use flux_llm_inference_engin.Prefix.Pins.{Unpins, unpin_loop-Unpins, unpin_loop-Distinct}
use flux_llm_inference_engin.Prefix.Ledger.{
  weight, IsSound, Sound, SoundAt, put-IsSound, count-le-weight,
}

pub places-release_some :
    (b : ℕ) (ids : List ℕ) (pool : BlockPool)
    → places b (release_some ids pool) ≡ places b pool + count b ids
places-release_some b [] pool = omega arith
places-release_some b (j ∷ ids) pool = places-release b pool (j ∷ ids)

alloc-release_some :
    (ids : List ℕ) (pool : BlockPool) → Distinct pool.alloc → Distinct (release_some ids pool).alloc
unfolding release
alloc-release_some [] pool d = d
alloc-release_some (j ∷ ids) pool d = d

pub num_blocks-release_some :
    (ids : List ℕ) (pool : BlockPool) → (release_some ids pool).num_blocks ≡ pool.num_blocks
unfolding release
num_blocks-release_some [] pool = refl
num_blocks-release_some (j ∷ ids) pool = refl

one_less :
    (r b : ℕ) (ids : List ℕ)
    → r * count b (if nat_beq r 0 then [] else ids) + count b ids ≡ suc r * count b ids
one_less zero b ids = omega arith
one_less (suc r) b ids =
    let more : nat_beq (suc r) 0 ≡ false = ground arith in rw more (omega arith)

module _ {V L : Type 0} where
  weight-dropped :
      (b : ℕ) (e : PrefixEntry V L)
      → 0 < e.refs
      → weight b (dropped e) + count b e.block_ids ≡ weight b e
  weight-dropped b e h =
      let refs : e.refs ≡ suc (e.refs - 1) = omega arith in
      omega
        (arith, one_less (e.refs - 1) b e.block_ids, ap (λ (r : ℕ). r * count b e.block_ids) refs)

  dropped-idle : (e : PrefixEntry V L) → (dropped e).refs ≡ 0 → (dropped e).block_ids ≡ []
  dropped-idle e h = ground arith

  dropped-Sound :
      (pool : BlockPool) (cache : PrefixCache V L) (key : List ℕ) (e : PrefixEntry V L)
      → IsSound pool cache.block_pins cache.entries
      → get key cache.entries ≡ some e
      → 0 < e.refs
      → Sound (store key (dropped e) (unpin_at e.block_ids cache (some pool)))
  dropped-Sound pool cache key e s found live =
      put-IsSound pool (release_some done.0 pool) cache.block_pins done.1 cache.entries key e
        (dropped e) s found refl (dropped-idle e) (num_blocks-release_some done.0 pool)
        (alloc-release_some done.0 pool s.distinct_alloc)
        (unpin_loop-Distinct e.block_ids cache.block_pins [] s.distinct_pins)
        (λ b. omega (arith, weight-dropped b e live, (unpins b).left))
        (λ b. omega (arith, places-release_some b done.0 pool, (unpins b).freed))
    where
      done : List ℕ × Dict ℕ ℕ
      done = unpin_loop e.block_ids cache.block_pins []

      unpins : (b : ℕ) → Unpins b e.block_ids cache.block_pins [] done
      unpins b = unpin_loop-Unpins b e.block_ids cache.block_pins [] s.distinct_pins (
          omega (
            arith,
            s.pinned b,
            count-le-weight b e live,
            total-get (weight b) key e cache.entries found,
          ))

  entry-Sound :
      (key : List ℕ) (pool : Option BlockPool) (cache : PrefixCache V L)
      (o : Option (PrefixEntry V L))
      → get key cache.entries ≡ o
      → SoundAt pool cache.block_pins cache.entries
      → Sound (release_entry key (record { pool = pool; cache = cache }) o)
  unfolding unpin
  entry-Sound key pool cache none e s = s
  entry-Sound key none cache (some entry) e s = branch (leb entry.refs 0)
    where
      branch :
          (idle : Bool)
          → Sound (
              if idle
              then record { pool = none; cache = cache }
              else store key (dropped entry) (unpin_at entry.block_ids cache none))
      branch true = tt
      branch false = tt
  entry-Sound key (some pool) cache (some entry) e s = branch (leb entry.refs 0) refl
    where
      branch :
          (idle : Bool)
          → leb entry.refs 0 ≡ idle
          → Sound (
              if idle
              then record { pool = some pool; cache = cache }
              else store key (dropped entry) (unpin_at entry.block_ids cache (some pool)))
      branch true idle = s
      branch false live = dropped-Sound pool cache key entry s e (ground arith)

  -- `release` keeps the books, whatever key it is given.
  pub release_key-Sound :
      (key : Option (List ℕ)) (kv : Kv V L) → Sound kv → Sound (release_key key kv)
  unfolding release_key
  release_key-Sound none kv s = s
  release_key-Sound (some []) kv s = s
  release_key-Sound (some (t ∷ ts)) kv s =
      entry-Sound (t ∷ ts) kv.pool kv.cache (get (t ∷ ts) kv.cache.entries) refl s
