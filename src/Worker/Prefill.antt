-- ===== src/Worker/Prefill.antt =====
-- `_bind_prefix_at_prefill` and `_prefill_with_reuse` of src/flux/engine/worker.py keep the books, and
-- the sequence keeps its allocation.
use flux_llm_inference_engin.Prelude.{
  ℕ, ◌+◌, List, ◌≡◌, refl, sym, subst, ◌∙◌, ap, Option, none, some, count, range, nat_eq,
}
use flux_llm_inference_engin.Prelude.Dict.{Dict, Distinct}
use flux_llm_inference_engin.Kv.{Cache}
use flux_llm_inference_engin.Sequence.{Sequence}
use flux_llm_inference_engin.Sequence.Life.{SameLife, SameLife-refl, SameLife-trans}
use flux_llm_inference_engin.Pool.{BlockPool, blocks_needed, detach}
use flux_llm_inference_engin.Pool.Balance.{
  places, places-detach, num_blocks-detach, alloc-detach, Granted, KeepsAllocs, same-KeepsAllocs,
  then-KeepsAllocs, detach-KeepsAllocs,
}
use flux_llm_inference_engin.Prefix.{
  PrefixCache, PrefixHit, PrefixEntry, Kv, lookup, insert, release_some, peek,
}
use flux_llm_inference_engin.Prefix.Ledger.{IsSound, held}
use flux_llm_inference_engin.Prefix.Ledger.Acquire.{lookup-Sound}
use flux_llm_inference_engin.Prefix.Ledger.Insert.{insert-Sound}
use flux_llm_inference_engin.Prefix.Ledger.Adopt.{adopt-Sound}
use flux_llm_inference_engin.Prefix.Ledger.Release.{places-release_some, num_blocks-release_some}
use flux_llm_inference_engin.Prefix.Allocations.{
  alloc_at-lookup, alloc_at-insert, adopt-KeepsAllocs, adopt-SameLife, alloc-release_some,
}
use flux_llm_inference_engin.Scheduler.{Scheduler, apply_hit}
use flux_llm_inference_engin.Scheduler.Books.{Books, BooksAt, pins_at, entries_at}
use flux_llm_inference_engin.Engine.{Engine}
use flux_llm_inference_engin.Outcome.{Outcome, ok, raised}
use flux_llm_inference_engin.Worker.{
  bind_blocks, bind_hit, bind_peeked, bind_unbound, bind_prefix_at_prefill, store_prefix,
  store_outcome, prefill_with_reuse, forward,
}

module _ {V L : Type 0} where
  -- An action on a sequence that was admitted and is not over: it keeps the books, the queue and the
  -- other allocations, and the sequence keeps its own.
  pub record Serves (sched : Scheduler V L) (seq : Sequence V L)
      (done : Sequence V L × Scheduler V L) : Type 0 where
    pub books : Books done.1
    pub queue : done.1.queue ≡ sched.queue
    pub max_batch : done.1.max_batch ≡ sched.max_batch
    pub life : SameLife done.0 seq
    pub allocs : KeepsAllocs sched.pool seq.id done.1.pool

  detach-IsSound :
      (pool : BlockPool) (pins : Dict ℕ ℕ) (entries : Dict (List ℕ) (PrefixEntry V L))
      (seq : Sequence V L) (n : ℕ)
      → IsSound pool pins entries
      → Granted (some pool) seq.id
      → IsSound (release_some (detach pool seq n).0 (detach pool seq n).1) pins entries
  detach-IsSound pool pins entries seq n s g =
      let taken = (detach pool seq n).0 in
      let left = (detach pool seq n).1 in
      record {
        balanced = λ b.
            let back : places b (release_some taken left) ≡ places b pool =
              places-release_some b taken left ∙ places-detach b pool seq n g.1 in
            let size : (release_some taken left).num_blocks ≡ pool.num_blocks =
              num_blocks-release_some taken left ∙ num_blocks-detach pool seq n in
            ap (λ p. p + held pins b) back ∙ s.balanced b ∙ ap (λ k. count b (range k)) (sym size);
        pinned = s.pinned;
        distinct_alloc =
            subst Distinct (sym (alloc-release_some taken left))
              (alloc-detach pool seq n s.distinct_alloc);
        distinct_pins = s.distinct_pins;
        distinct_keys = s.distinct_keys;
        keyed = s.keyed;
        idle = s.idle;
      }

  stays :
      (seq : Sequence V L) (sched : Scheduler V L)
      → Books sched
      → Granted sched.pool seq.id
      → Serves sched seq (seq, sched)
  stays seq sched s g = record {
    books = s;
    queue = refl;
    max_batch = refl;
    life = SameLife-refl seq;
    allocs = same-KeepsAllocs sched.pool sched.pool seq.id refl g;
  }

  bind_blocks-Serves :
      (hit : PrefixHit V L) (seq : Sequence V L) (sched : Scheduler V L) (o : Option BlockPool)
      → sched.pool ≡ o
      → Books sched
      → Granted sched.pool seq.id
      → Serves sched seq (bind_blocks hit seq sched o)
  unfolding detach
  bind_blocks-Serves hit seq sched none p s g = stays seq sched s g
  bind_blocks-Serves hit seq sched (some pool) p s g =
      let n = blocks_needed pool hit.n_tokens in
      let g' : Granted (some pool) seq.id = subst (λ o. Granted o seq.id) p g in
      let s' : BooksAt (some pool) sched.prefix_cache =
        subst (λ o. BooksAt o sched.prefix_cache) p s in
      record {
        books =
            detach-IsSound pool (pins_at sched.prefix_cache) (entries_at sched.prefix_cache) seq n
              s' g';
        queue = refl;
        max_batch = refl;
        life = record {
          id = refl;
          prompt_ids = refl;
          sampling = refl;
          output_ids = refl;
          status = refl;
          last_token = refl;
          finish_reason = refl;
          token_queue = refl;
          finished_event = refl;
          abort_requested = refl;
        };
        allocs =
            subst
              (λ o.
                KeepsAllocs o seq.id
                  (some (release_some (detach pool seq n).0 (detach pool seq n).1)))
              (sym p)
              (then-KeepsAllocs (some pool) (some (detach pool seq n).1) _ seq.id
                (detach-KeepsAllocs pool seq n)
                (same-KeepsAllocs (some (detach pool seq n).1) _ seq.id
                  (ap some (alloc-release_some (detach pool seq n).0 (detach pool seq n).1))
                  (detach-KeepsAllocs pool seq n).granted));
      }

  -- One action after another, on a sequence that is in life the same.
  then-Serves :
      (sched mid : Scheduler V L) (seq seq' : Sequence V L) (done : Sequence V L × Scheduler V L)
      → mid.queue ≡ sched.queue
      → mid.max_batch ≡ sched.max_batch
      → KeepsAllocs sched.pool seq.id mid.pool
      → SameLife seq' seq
      → Serves mid seq' done
      → Serves sched seq done
  then-Serves sched mid seq seq' done q m k l v = record {
    books = v.books;
    queue = v.queue ∙ q;
    max_batch = v.max_batch ∙ m;
    life = SameLife-trans done.0 seq' seq v.life l;
    allocs =
        then-KeepsAllocs sched.pool mid.pool done.1.pool seq.id k
          (subst (λ i. KeepsAllocs mid.pool i done.1.pool) l.id v.allocs);
  }

  bind_hit-Serves :
      (seq : Sequence V L) (sched : Scheduler V L) (o : Option (PrefixHit V L))
      → Books sched
      → Granted sched.pool seq.id
      → Serves sched seq (bind_hit seq sched o)
  unfolding apply_hit
  bind_hit-Serves seq sched none s g = stays seq sched s g
  bind_hit-Serves seq sched (some hit) s g =
      then-Serves sched sched seq (apply_hit (some hit) seq)
        (bind_blocks hit (apply_hit (some hit) seq) sched sched.pool) refl refl
        (same-KeepsAllocs sched.pool sched.pool seq.id refl g)
        (record {
          id = refl;
          prompt_ids = refl;
          sampling = refl;
          output_ids = refl;
          status = refl;
          last_token = refl;
          finish_reason = refl;
          token_queue = refl;
          finished_event = refl;
          abort_requested = refl;
        })
        (bind_blocks-Serves hit (apply_hit (some hit) seq) sched sched.pool refl s g)

  bind_peeked-Serves :
      (now : ℕ) (seq : Sequence V L) (sched : Scheduler V L) (cache : PrefixCache V L)
      (o : Option (PrefixHit V L))
      → sched.prefix_cache ≡ some cache
      → Books sched
      → Granted sched.pool seq.id
      → Serves sched seq (bind_peeked now seq sched cache o)
  bind_peeked-Serves now seq sched cache none e s g = stays seq sched s g
  bind_peeked-Serves now seq sched cache (some peeked) e s g =
      let kv : Kv V L = record { pool = sched.pool; cache = cache } in
      let looked = lookup now seq.prompt_ids kv in
      let mid = record sched { pool = looked.1.pool; prefix_cache = some looked.1.cache } in
      let k =
        same-KeepsAllocs sched.pool looked.1.pool seq.id (alloc_at-lookup now seq.prompt_ids kv)
          g in
      then-Serves sched mid seq seq (bind_hit seq mid looked.0) refl refl k (SameLife-refl seq) (
        bind_hit-Serves seq mid looked.0
          (lookup-Sound now seq.prompt_ids kv (subst (λ c. BooksAt sched.pool c) e s)) k.granted)

  bind_unbound-Serves :
      (now : ℕ) (seq : Sequence V L) (sched : Scheduler V L) (o : Option (PrefixCache V L))
      (key : Option (List ℕ))
      → sched.prefix_cache ≡ o
      → Books sched
      → Granted sched.pool seq.id
      → Serves sched seq (bind_unbound now seq sched o key)
  bind_unbound-Serves now seq sched none key e s g = stays seq sched s g
  bind_unbound-Serves now seq sched (some cache) (some key) e s g = stays seq sched s g
  bind_unbound-Serves now seq sched (some cache) none e s g =
      bind_peeked-Serves now seq sched cache (peek cache seq.prompt_ids) e s g

  pub bind_prefix_at_prefill-Serves :
      (now : ℕ) (seq : Sequence V L) (sched : Scheduler V L)
      → Books sched
      → Granted sched.pool seq.id
      → Serves sched seq (bind_prefix_at_prefill now seq sched)
  unfolding bind_prefix_at_prefill
  bind_prefix_at_prefill-Serves now seq sched s g =
      bind_unbound-Serves now seq sched sched.prefix_cache seq.prefix_key refl s g

  store_prefix-Serves :
      (now : ℕ) (out : L × Cache V) (seq : Sequence V L) (sched : Scheduler V L)
      (o : Option (PrefixCache V L))
      → sched.prefix_cache ≡ o
      → Books sched
      → Granted sched.pool seq.id
      → Serves sched seq (store_prefix now out seq sched o)
  store_prefix-Serves now out seq sched none e s g = stays seq sched s g
  store_prefix-Serves now out seq sched (some cache) e s g =
      let kv : Kv V L = record { pool = sched.pool; cache = cache } in
      let mid = insert now seq.prompt_ids (some out.1) (some out.0) kv in
      let k =
        same-KeepsAllocs sched.pool mid.pool seq.id
          (alloc_at-insert now seq.prompt_ids (some out.1) (some out.0) kv) g in
      record {
        books = adopt-Sound now seq mid k.granted (
            insert-Sound now seq.prompt_ids (some out.1) (some out.0) kv
              (subst (λ c. BooksAt sched.pool c) e s));
        queue = refl;
        max_batch = refl;
        life = adopt-SameLife now seq mid;
        allocs =
            then-KeepsAllocs sched.pool mid.pool _ seq.id k
              (adopt-KeepsAllocs now seq mid k.granted);
      }

  store_outcome-Serves :
      (now : ℕ) (seq : Sequence V L) (sched : Scheduler V L) (o : Outcome (L × Cache V))
      → Books sched
      → Granted sched.pool seq.id
      → let done = store_outcome now (seq, sched) o in Serves sched seq (done.1, done.2)
  store_outcome-Serves now seq sched (raised e) s g = stays seq sched s g
  store_outcome-Serves now seq sched (ok out) s g =
      store_prefix-Serves now out seq sched sched.prefix_cache refl s g

  -- `_prefill_with_reuse` on a sequence that was admitted keeps the books, the queue and the other
  -- allocations, and all that a client sees of the sequence, also where the engine raises.
  pub prefill_with_reuse-Serves :
      (engine : Engine V L) (now : ℕ) (seq : Sequence V L) (sched : Scheduler V L)
      → Books sched
      → Granted sched.pool seq.id
      → let done = prefill_with_reuse engine now seq sched in Serves sched seq (done.1, done.2)
  unfolding prefill_with_reuse
  prefill_with_reuse-Serves engine now seq sched s g =
      let bound = bind_prefix_at_prefill now seq sched in
      let b = bind_prefix_at_prefill-Serves now seq sched s g in
      then-Serves sched bound.1 seq bound.0 _ b.queue b.max_batch b.allocs b.life (
        store_outcome-Serves now bound.0 bound.1
          (forward engine seq.prompt_ids bound.0.prefix_tokens bound.0.prefix_kv
            bound.0.prefix_logits)
          b.books (subst (Granted bound.1.pool) (sym b.life.id) b.allocs.granted))
