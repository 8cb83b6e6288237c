-- ===== src/Prefix/Allocations.antt =====
-- What the methods of src/flux/engine/prefix_cache.py do to the allocations of the sequences: `lookup`,
-- `insert` and `release` leave them alone, and `adopt` touches that of its own sequence.
use flux_llm_inference_engin.Prelude.{
  ℕ, zero, suc, List, [], ◌∷◌, ◌≡◌, refl, ◌∙◌, ap, Option, none, some, length, take, leb, ltb,
  nat_eq, tokens_eq, if_ind,
}
use flux_llm_inference_engin.Prelude.Dict.{get}
use flux_llm_inference_engin.Kv.{Cache, cache_seq_len}
use flux_llm_inference_engin.Pool.{BlockPool, alloc_at, reserve, detach}
use flux_llm_inference_engin.Sequence.{Sequence}
use flux_llm_inference_engin.Sequence.Life.{SameLife, SameLife-refl}
use flux_llm_inference_engin.Pool.Balance.{
  alloc-reserve, alloc-release, Granted, KeepsAllocs, same-KeepsAllocs, detach-KeepsAllocs,
}
use flux_llm_inference_engin.Prefix.{
  PrefixEntry, PrefixCache, PrefixHit, Kv, unpin, acquire_blocks, acquire_idle, acquire_reserved,
  lookup_entry, lookup_hit, release_key, release_entry, release_some, unpin_at, evict_victim,
  insert_absent, victim, unused, adopt_blocks, adopt_entry, adopt_longest, adopt_new, lookup,
  candidate_lengths, evict, evict_loop, insert, insert_one, insert_loop, adopt,
}

pub alloc-release_some :
    (ids : List ℕ) (pool : BlockPool) → (release_some ids pool).alloc ≡ pool.alloc
alloc-release_some [] pool = refl
alloc-release_some (j ∷ ids) pool = alloc-release pool (j ∷ ids)

module _ {V L : Type 0} where
  -- The pool's allocations are what they were.
  abbrev Leaves : Option BlockPool → Kv V L → Type 0
  Leaves pool kv = alloc_at kv.pool ≡ alloc_at pool

  unpin-Leaves : (ids : List ℕ) (kv : Kv V L) → Leaves kv.pool (unpin ids kv)
  unfolding unpin
  unpin-Leaves ids kv = at kv.pool
    where
      at : (pool : Option BlockPool) → Leaves pool (unpin_at ids kv.cache pool)
      at none = refl
      at (some pool) = ap some (alloc-release_some _ pool)

  reserved-Leaves :
      (entry : PrefixEntry V L) (cache : PrefixCache V L) (pool : BlockPool)
      (o : Option (List ℕ × BlockPool))
      → reserve pool (length entry.token_ids) none ≡ o
      → Leaves (some pool) (acquire_reserved entry (record { pool = some pool; cache = cache }) o).1
  reserved-Leaves entry cache pool none e = refl
  reserved-Leaves entry cache pool (some (ids, pool')) e = ap some (alloc-reserve pool _ e)

  idle-Leaves :
      (entry : PrefixEntry V L) (cache : PrefixCache V L) (pool : BlockPool) (o : Option (List ℕ))
      → Leaves
          (some pool)
          (acquire_idle entry (record { pool = some pool; cache = cache }) pool o).1
  idle-Leaves entry cache pool none = reserved-Leaves entry cache pool _ refl
  idle-Leaves entry cache pool (some shared) = refl

  acquire-Leaves :
      (entry : PrefixEntry V L) (cache : PrefixCache V L) (pool : Option BlockPool)
      → Leaves pool (acquire_blocks entry (record { pool = pool; cache = cache })).1
  unfolding acquire_blocks
  acquire-Leaves entry cache none = refl
  acquire-Leaves entry cache (some pool) =
      if_ind (λ (r : PrefixEntry V L × Kv V L). Leaves (some pool) r.1) (ltb 0 entry.refs)
        (λ _. refl) (λ _. idle-Leaves entry cache pool _)

  lookup_entry-Leaves :
      (now : ℕ) (token_ids key : List ℕ) (kv : Kv V L) (o : Option (PrefixEntry V L))
      → Leaves kv.pool (lookup_entry now token_ids key kv o).1
  lookup_entry-Leaves now token_ids key kv none = refl
  lookup_entry-Leaves now token_ids key kv (some entry) = acquire-Leaves entry kv.cache kv.pool

  lookup_hit-Leaves :
      (now : ℕ) (token_ids : List ℕ) (kv : Kv V L) (o : Option (PrefixHit V L))
      → Leaves kv.pool (lookup_hit now token_ids kv o).1
  lookup_hit-Leaves now token_ids kv none = refl
  lookup_hit-Leaves now token_ids kv (some hit) =
      lookup_entry-Leaves now token_ids hit.token_ids kv _

  pub alloc_at-lookup :
      (now : ℕ) (token_ids : List ℕ) (kv : Kv V L)
      → alloc_at (lookup now token_ids kv).1.pool ≡ alloc_at kv.pool
  unfolding lookup
  alloc_at-lookup now token_ids kv = lookup_hit-Leaves now token_ids kv _

  release_entry-Leaves :
      (key : List ℕ) (kv : Kv V L) (o : Option (PrefixEntry V L))
      → Leaves kv.pool (release_entry key kv o)
  release_entry-Leaves key kv none = refl
  release_entry-Leaves key kv (some entry) =
      if_ind (Leaves kv.pool) (leb entry.refs 0) (λ _. refl) (λ _. unpin-Leaves entry.block_ids kv)

  pub alloc_at-release_key :
      (key : Option (List ℕ)) (kv : Kv V L) → alloc_at (release_key key kv).pool ≡ alloc_at kv.pool
  unfolding release_key
  alloc_at-release_key none kv = refl
  alloc_at-release_key (some []) kv = refl
  alloc_at-release_key (some (t ∷ ts)) kv =
      release_entry-Leaves (t ∷ ts) kv (get (t ∷ ts) kv.cache.entries)

  evict_victim-Leaves :
      (kv : Kv V L) (o : Option (PrefixEntry V L)) → Leaves kv.pool (evict_victim kv o).0
  evict_victim-Leaves kv none = refl
  evict_victim-Leaves kv (some e) = unpin-Leaves e.block_ids kv

  evict_loop-Leaves : (fuel : ℕ) (kv : Kv V L) → Leaves kv.pool (evict_loop fuel kv)
  unfolding evict_loop
  evict_loop-Leaves zero kv = refl
  evict_loop-Leaves (suc fuel) kv =
      let after = evict_victim kv (victim (unused kv)) in
      let one = evict_victim-Leaves kv (victim (unused kv)) in
      if_ind (Leaves kv.pool) (leb kv.cache.max_entries (length kv.cache.entries))
        (λ _.
          if_ind (Leaves kv.pool) after.1 (λ _. evict_loop-Leaves fuel after.0 ∙ one) (λ _. one))
        (λ _. refl)

  module _ (now : ℕ) (token_ids : List ℕ) (kv_cache : Cache V) (last_logits : Option L) where
    absent-Leaves :
        (n : ℕ) (kv : Kv V L) (o : Option (PrefixEntry V L))
        → Leaves kv.pool (insert_absent now token_ids kv_cache last_logits n kv o)
    unfolding evict
    absent-Leaves n kv (some e) = refl
    absent-Leaves n kv none =
        let kept = evict_loop-Leaves (length kv.cache.entries) kv in
        if_ind (Leaves kv.pool) (leb (evict kv).cache.max_entries (length (evict kv).cache.entries))
          (λ _. kept) (λ _. kept)

    insert_loop-Leaves :
        (lengths : List ℕ) (kv : Kv V L)
        → Leaves kv.pool (insert_loop now token_ids kv_cache last_logits lengths kv)
    unfolding insert_loop insert_one
    insert_loop-Leaves [] kv = refl
    insert_loop-Leaves (n ∷ lengths) kv =
        insert_loop-Leaves lengths (insert_one now token_ids kv_cache last_logits n kv)
        ∙ if_ind (Leaves kv.pool) (ltb (cache_seq_len kv_cache) n) (λ _. refl)
            (λ _. absent-Leaves n kv _)

  pub alloc_at-insert :
      (now : ℕ) (token_ids : List ℕ) (kv_cache : Option (Cache V)) (last_logits : Option L)
      (kv : Kv V L)
      → alloc_at (insert now token_ids kv_cache last_logits kv).pool ≡ alloc_at kv.pool
  unfolding insert
  alloc_at-insert now token_ids none last_logits kv = refl
  alloc_at-insert now token_ids (some kv_cache) last_logits kv =
      if_ind (Leaves kv.pool) (ltb (cache_seq_len kv_cache) kv.cache.min_tokens) (λ _. refl)
        (λ _. insert_loop-Leaves now token_ids kv_cache last_logits _ kv)

  module _ (now : ℕ) (seq : Sequence V L) where
    adopt_blocks-Keeps :
        (key : List ℕ) (entry : PrefixEntry V L) (cache : PrefixCache V L) (pool : Option BlockPool)
        → Granted pool seq.id
        → KeepsAllocs pool seq.id (adopt_blocks now key entry seq cache pool).0.pool
    adopt_blocks-Keeps key entry cache none g = same-KeepsAllocs none none seq.id refl g
    adopt_blocks-Keeps key entry cache (some pool) g = detach-KeepsAllocs pool seq _

    adopt_entry-Keeps :
        (key : List ℕ) (kv : Kv V L) (o : Option (PrefixEntry V L))
        → Granted kv.pool seq.id
        → KeepsAllocs kv.pool seq.id (adopt_entry now key seq kv o).0.pool
    adopt_entry-Keeps key kv none g = same-KeepsAllocs kv.pool kv.pool seq.id refl g
    adopt_entry-Keeps key kv (some entry) g =
        if_ind (λ (r : Kv V L × Sequence V L). KeepsAllocs kv.pool seq.id r.0.pool)
          (ltb 0 entry.refs)
          (λ _.
            same-KeepsAllocs kv.pool (acquire_blocks entry kv).1.pool seq.id
              (acquire-Leaves entry kv.cache kv.pool) g)
          (λ _. adopt_blocks-Keeps key entry kv.cache kv.pool g)

    adopt_longest-Keeps :
        (kv : Kv V L) (lengths : List ℕ)
        → Granted kv.pool seq.id
        → KeepsAllocs kv.pool seq.id (adopt_longest now seq kv lengths).0.pool
    adopt_longest-Keeps kv [] g = same-KeepsAllocs kv.pool kv.pool seq.id refl g
    adopt_longest-Keeps kv (n ∷ lengths) g =
        adopt_entry-Keeps (take n seq.prompt_ids) kv (get (take n seq.prompt_ids) kv.cache.entries)
          g

    adopt_new-Keeps :
        (kv : Kv V L) (o : Option (List ℕ))
        → Granted kv.pool seq.id
        → KeepsAllocs kv.pool seq.id (adopt_new now seq kv o).0.pool
    adopt_new-Keeps kv (some key) g = same-KeepsAllocs kv.pool kv.pool seq.id refl g
    adopt_new-Keeps kv none g = adopt_longest-Keeps kv (candidate_lengths kv.cache seq.prompt_ids) g

    pub adopt-KeepsAllocs :
        (kv : Kv V L)
        → Granted kv.pool seq.id
        → KeepsAllocs kv.pool seq.id (adopt now seq kv).0.pool
    unfolding adopt
    adopt-KeepsAllocs kv g = adopt_new-Keeps kv seq.prefix_key g

    adopt_blocks-SameLife :
        (key : List ℕ) (entry : PrefixEntry V L) (cache : PrefixCache V L) (pool : Option BlockPool)
        → SameLife (adopt_blocks now key entry seq cache pool).1 seq
    unfolding detach
    adopt_blocks-SameLife key entry cache none = record {
      id = refl;
      prompt_ids = refl;
      sampling = refl;
      output_ids = refl;
      status = refl;
      last_token = refl;
      finish_reason = refl;
      token_queue = refl;
      finished_event = refl;
      abort_requested = refl;
    }
    adopt_blocks-SameLife key entry cache (some pool) = record {
      id = refl;
      prompt_ids = refl;
      sampling = refl;
      output_ids = refl;
      status = refl;
      last_token = refl;
      finish_reason = refl;
      token_queue = refl;
      finished_event = refl;
      abort_requested = refl;
    }

    adopt_entry-SameLife :
        (key : List ℕ) (kv : Kv V L) (o : Option (PrefixEntry V L))
        → SameLife (adopt_entry now key seq kv o).1 seq
    adopt_entry-SameLife key kv none = SameLife-refl seq
    adopt_entry-SameLife key kv (some entry) =
        if_ind (λ (r : Kv V L × Sequence V L). SameLife r.1 seq) (ltb 0 entry.refs)
          (λ _. record {
            id = refl;
            prompt_ids = refl;
            sampling = refl;
            output_ids = refl;
            status = refl;
            last_token = refl;
            finish_reason = refl;
            token_queue = refl;
            finished_event = refl;
            abort_requested = refl;
          })
          (λ _. adopt_blocks-SameLife key entry kv.cache kv.pool)

    adopt_longest-SameLife :
        (kv : Kv V L) (lengths : List ℕ) → SameLife (adopt_longest now seq kv lengths).1 seq
    adopt_longest-SameLife kv [] = SameLife-refl seq
    adopt_longest-SameLife kv (n ∷ lengths) =
        adopt_entry-SameLife (take n seq.prompt_ids) kv
          (get (take n seq.prompt_ids) kv.cache.entries)

    adopt_new-SameLife :
        (kv : Kv V L) (o : Option (List ℕ)) → SameLife (adopt_new now seq kv o).1 seq
    adopt_new-SameLife kv (some key) = SameLife-refl seq
    adopt_new-SameLife kv none =
        adopt_longest-SameLife kv (candidate_lengths kv.cache seq.prompt_ids)

    pub adopt-SameLife : (kv : Kv V L) → SameLife (adopt now seq kv).1 seq
    unfolding adopt
    adopt-SameLife kv = adopt_new-SameLife kv seq.prefix_key
