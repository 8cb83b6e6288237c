-- ===== src/Prefix/Ledger/Insert.antt =====
-- `_evict` and `insert` of src/flux/engine/prefix_cache.py keep the books: only idle entries, which
-- hold no block, are dropped, and a new entry starts with no reference.
use mathlib.Core.Option.{some-injective}
use flux_llm_inference_engin.Prelude.{
  ℕ, zero, suc, List, [], ◌∷◌, ◌≡◌, refl, sym, subst, Option, none, some, arith, length, take,
  keep_if-All, All-map, All-both, leb, ltb, if◌then◌else◌, nat_eq, tokens_eq, nat_beq_iff, All,
  if_ind,
}
use flux_llm_inference_engin.Prelude.Dict.{
  Dict, get, values, put-Distinct, del-Distinct, put-All, del-All, total-put_new, total-del,
  get_each, get-del-none, values-All,
}
use flux_llm_inference_engin.Kv.{Cache, cache_seq_len}
use flux_llm_inference_engin.Prefix.{candidate_lengths}
use flux_llm_inference_engin.Pool.{BlockPool}
use flux_llm_inference_engin.Prefix.{
  PrefixEntry, PrefixCache, Kv, unpin, unpin_loop, evict_one, evict_victim, add_entry, new_entry,
  insert_absent, victim, oldest, unused, evict, evict_loop, insert, insert_one, insert_loop,
}
use flux_llm_inference_engin.Prefix.Ledger.{weight, IsSound, Sound, SoundAt}

abbrev Entries : Type 0 → Type 0 → Type 0
Entries V L = Dict (List ℕ) (PrefixEntry V L)

module _ {V L : Type 0} where
  -- What is known of a victim: its tokens find it, it has no reference and it holds no block.
  record IsIdle (entries : Entries V L) (e : PrefixEntry V L) : Type 0 where
    found : get e.token_ids entries ≡ some e
    unreferenced : e.refs ≡ 0
    empty : e.block_ids ≡ []

  module _ (pool : BlockPool) (cache : PrefixCache V L)
      (s : IsSound pool cache.block_pins cache.entries) where
    abbrev state : Kv V L
    state = record { pool = some pool; cache = cache }

    values_known :
        All
          (λ (e : PrefixEntry V L).
            (get e.token_ids cache.entries ≡ some e) × (e.refs ≡ 0 → e.block_ids ≡ []))
          (values cache.entries)
    values_known =
        values-All _ _ cache.entries
          (λ p known.
            (subst (λ k. get k cache.entries ≡ some p.1) (sym known.0.0) known.1, known.0.1))
          (All-both _ _ cache.entries (All-both _ _ cache.entries s.keyed s.idle)
            (get_each cache.entries cache.entries s.distinct_keys (λ k v found. found)))

    unused-IsIdle : All (IsIdle cache.entries) (unused state)
    unused-IsIdle =
        All-map _ _ (unused state)
          (λ e known.
            let none_left : e.refs ≡ 0 = (nat_beq_iff e.refs 0).0 known.1 in
            record { found = known.0.0; unreferenced = none_left; empty = known.0.1 none_left })
          (keep_if-All _ _ (values cache.entries) values_known)

  oldest-IsIdle :
      (entries : Entries V L) (best : PrefixEntry V L) (es : List (PrefixEntry V L))
      → IsIdle entries best
      → All (IsIdle entries) es
      → IsIdle entries (oldest best es)
  oldest-IsIdle entries best [] known all = known
  oldest-IsIdle entries best (e ∷ es) known all =
      oldest-IsIdle entries (if ltb e.last_used best.last_used then e else best) es
        (if_ind (IsIdle entries) (ltb e.last_used best.last_used) (λ _. all.0) (λ _. known)) all.1

  victim-IsIdle :
      (entries : Entries V L) (es : List (PrefixEntry V L)) (e : PrefixEntry V L)
      → All (IsIdle entries) es
      → victim es ≡ some e
      → IsIdle entries e
  victim-IsIdle entries [] e all h = cc
  victim-IsIdle entries (x ∷ xs) e all h =
      subst (IsIdle entries) (some-injective _ _ h) (oldest-IsIdle entries x xs all.0 all.1)

  -- Dropping an idle entry moves no block.
  evict_one-IsSound :
      (pool : BlockPool) (cache : PrefixCache V L) (e : PrefixEntry V L)
      → IsSound pool cache.block_pins cache.entries
      → IsIdle cache.entries e
      → Sound (evict_one e (record { pool = some pool; cache = cache }))
  unfolding unpin unpin_loop
  evict_one-IsSound pool cache e s known = rw (known.empty) (record {
    balanced = s.balanced;
    pinned = λ b.
        let gone : weight b e ≡ 0 = rw (known.unreferenced) (omega arith) in
        omega
          (arith, s.pinned b, gone, total-del (weight b) e.token_ids e cache.entries known.found);
    distinct_alloc = s.distinct_alloc;
    distinct_pins = s.distinct_pins;
    distinct_keys = del-Distinct e.token_ids cache.entries s.distinct_keys;
    keyed = del-All _ e.token_ids cache.entries s.keyed;
    idle = del-All _ e.token_ids cache.entries s.idle;
  })

  evict_victim-Sound :
      (pool : Option BlockPool) (cache : PrefixCache V L) (o : Option (PrefixEntry V L))
      → victim (unused (record { pool = pool; cache = cache })) ≡ o
      → SoundAt pool cache.block_pins cache.entries
      → Sound (evict_victim (record { pool = pool; cache = cache }) o).0
  unfolding unpin
  evict_victim-Sound pool cache none h s = s
  evict_victim-Sound none cache (some e) h s = tt
  evict_victim-Sound (some pool) cache (some e) h s =
      evict_one-IsSound pool cache e s
        (victim-IsIdle cache.entries _ e (unused-IsIdle pool cache s) h)

  evict_loop-Sound : (fuel : ℕ) (kv : Kv V L) → Sound kv → Sound (evict_loop fuel kv)
  unfolding evict_loop
  evict_loop-Sound zero kv s = s
  evict_loop-Sound (suc fuel) kv s =
      let after = evict_victim-Sound kv.pool kv.cache (victim (unused kv)) refl s in
      if_ind Sound (leb kv.cache.max_entries (length kv.cache.entries))
        (λ _.
          if_ind Sound (evict_victim kv (victim (unused kv))).1
            (λ _. evict_loop-Sound fuel (evict_victim kv (victim (unused kv))).0 after)
            (λ _. after))
        (λ _. s)

  pub evict-Sound : (kv : Kv V L) → Sound kv → Sound (evict kv)
  unfolding evict
  evict-Sound kv s = evict_loop-Sound (length kv.cache.entries) kv s

  -- A key that is not there is not there after an eviction either.
  evict_victim_absent :
      (key : List ℕ) (pool : Option BlockPool) (cache : PrefixCache V L)
      (o : Option (PrefixEntry V L))
      → get key cache.entries ≡ none
      → get key (evict_victim (record { pool = pool; cache = cache }) o).0.cache.entries ≡ none
  unfolding unpin
  evict_victim_absent key pool cache none h = h
  evict_victim_absent key none cache (some e) h = get-del-none e.token_ids key cache.entries h
  evict_victim_absent key (some pool) cache (some e) h =
      get-del-none e.token_ids key cache.entries h

  evict_loop_absent :
      (key : List ℕ) (fuel : ℕ) (kv : Kv V L)
      → get key kv.cache.entries ≡ none
      → get key (evict_loop fuel kv).cache.entries ≡ none
  unfolding evict_loop
  evict_loop_absent key zero kv h = h
  evict_loop_absent key (suc fuel) kv h =
      let after = evict_victim_absent key kv.pool kv.cache (victim (unused kv)) h in
      let P = λ (k : Kv V L). get key k.cache.entries ≡ none in
      if_ind P (leb kv.cache.max_entries (length kv.cache.entries))
        (λ _.
          if_ind P (evict_victim kv (victim (unused kv))).1
            (λ _. evict_loop_absent key fuel (evict_victim kv (victim (unused kv))).0 after)
            (λ _. after))
        (λ _. h)

  module _ (now : ℕ) (token_ids : List ℕ) (kv_cache : Cache V) (last_logits : Option L) where
    add_entry-Sound :
        (n : ℕ) (pool : Option BlockPool) (cache : PrefixCache V L)
        → get (take n token_ids) cache.entries ≡ none
        → SoundAt pool cache.block_pins cache.entries
        → Sound
            (add_entry now token_ids kv_cache last_logits n (record { pool = pool; cache = cache }))
    add_entry-Sound n none cache absent s =
        if_ind Sound (leb cache.max_entries (length cache.entries)) (λ _. tt) (λ _. tt)
    add_entry-Sound n (some pool) cache absent s =
        if_ind Sound (leb cache.max_entries (length cache.entries)) (λ _. s)
          (λ _. record {
            balanced = s.balanced;
            pinned = λ b. omega (
              arith,
              s.pinned b,
              total-put_new (weight b) (take n token_ids)
                  (new_entry now token_ids kv_cache last_logits n) cache.entries absent,
            );
            distinct_alloc = s.distinct_alloc;
            distinct_pins = s.distinct_pins;
            distinct_keys = put-Distinct (take n token_ids) _ cache.entries s.distinct_keys;
            keyed = put-All _ (take n token_ids) _ cache.entries refl s.keyed;
            idle = put-All _ (take n token_ids) _ cache.entries (λ _. refl) s.idle;
          })

    absent-Sound :
        (n : ℕ) (kv : Kv V L) (o : Option (PrefixEntry V L))
        → get (take n token_ids) kv.cache.entries ≡ o
        → Sound kv
        → Sound (insert_absent now token_ids kv_cache last_logits n kv o)
    unfolding evict
    absent-Sound n kv (some e) h s = s
    absent-Sound n kv none h s =
        add_entry-Sound n (evict kv).pool (evict kv).cache
          (evict_loop_absent (take n token_ids) (length kv.cache.entries) kv h) (evict-Sound kv s)

    insert_loop-Sound :
        (lengths : List ℕ) (kv : Kv V L)
        → Sound kv
        → Sound (insert_loop now token_ids kv_cache last_logits lengths kv)
    unfolding insert_loop insert_one
    insert_loop-Sound [] kv s = s
    insert_loop-Sound (n ∷ lengths) kv s =
        insert_loop-Sound lengths (insert_one now token_ids kv_cache last_logits n kv) (
          if_ind Sound (ltb (cache_seq_len kv_cache) n) (λ _. s)
            (λ _. absent-Sound n kv (get (take n token_ids) kv.cache.entries) refl s))

  -- `insert` keeps the books, also where it evicts.
  pub insert-Sound :
      (now : ℕ) (token_ids : List ℕ) (kv_cache : Option (Cache V)) (last_logits : Option L)
      (kv : Kv V L)
      → Sound kv
      → Sound (insert now token_ids kv_cache last_logits kv)
  unfolding insert
  insert-Sound now token_ids none last_logits kv s = s
  insert-Sound now token_ids (some kv_cache) last_logits kv s =
      if_ind Sound (ltb (cache_seq_len kv_cache) kv.cache.min_tokens) (λ _. s)
        (λ _.
          insert_loop-Sound now token_ids kv_cache last_logits
            (candidate_lengths kv.cache token_ids) kv s)
