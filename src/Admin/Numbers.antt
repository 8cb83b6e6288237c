-- ===== src/Admin/Numbers.antt =====
-- The numbers that the operator sees of src/flux/server/routes_admin.py and of src/flux/metrics/prometheus.py.
use flux_llm_inference_engin.Prelude.{
  ℕ, suc, List, [], ◌∷◌, ◌≡◌, refl, sym, ap, Option, none, some, not, arith, length, map, keep_if,
  ◌∙◌,
}
use flux_llm_inference_engin.Config.{Settings}
use flux_llm_inference_engin.Sequence.{
  Sequence, Status, waiting, prefill, decoding, finished, aborted, error,
}
use flux_llm_inference_engin.Pool.{BlockPool, snapshot}
use flux_llm_inference_engin.Prefix.{PrefixCache}
use flux_llm_inference_engin.Scheduler.{Scheduler}
use flux_llm_inference_engin.Worker.{Worker}
use flux_llm_inference_engin.Metrics.{
  Gauges, update_gauges, is_done, count_running, running_at, batch_at, waiting_at, used_at,
  total_at, pool_at, cache_at, prefix_at,
}
use flux_llm_inference_engin.Serving.{scheduler_of, worker_of}
use flux_llm_inference_engin.App.{App}
use flux_llm_inference_engin.Admin.{
  Stats, admin_stats, kv_numbers, waiting_ids_at, in_done, still_running, last_batch, pool_of,
  prefix_of, prefix_payload,
}

module _ {V L : Type 0} where
  length-map_ids : (seqs : List (Sequence V L)) → length (map (λ seq. seq.id) seqs) ≡ length seqs
  length-map_ids [] = refl
  length-map_ids (seq ∷ seqs) = ap suc (length-map_ids seqs)

-- The metrics and the operator's page agree.
pub record Agree (gauges : Gauges) (stats : Stats) : Type 0 where
  pub waiting : gauges.waiting ≡ stats.waiting
  pub running : gauges.running ≡ stats.running
  pub in_flight : gauges.in_flight ≡ stats.in_flight
  pub decode_batch : gauges.decode_batch ≡ stats.last_batch_size
  pub kv_used : gauges.kv_used ≡ stats.kv.kv_blocks_used
  pub kv_total : gauges.kv_total ≡ stats.kv.kv_blocks_total
  pub entries : gauges.prefix_entries ≡ stats.prefix.prefix_entries
  pub hits : gauges.prefix_hits ≡ stats.prefix.prefix_hits
  pub misses : gauges.prefix_misses ≡ stats.prefix.prefix_misses
  pub tokens_saved : gauges.prefix_tokens ≡ stats.prefix.prefix_tokens_saved

same_done : (status : Status) → is_done status ≡ in_done status
same_done waiting = refl
same_done prefill = refl
same_done decoding = refl
same_done finished = refl
same_done aborted = refl
same_done error = refl

module _ {V L : Type 0} where
  count_running-keep_if :
      (seqs : List (Sequence V L))
      → count_running seqs ≡ length (keep_if (λ seq. not (in_done seq.status)) seqs)
  count_running-keep_if [] = refl
  count_running-keep_if (seq ∷ seqs) =
      ground (arith, same_done seq.status, count_running-keep_if seqs)

  running_at-still_running :
      (o : Option (Worker V L)) → running_at o ≡ length (map (λ seq. seq.id) (still_running o))
  running_at-still_running none = refl
  running_at-still_running (some w) =
      count_running-keep_if w.running ∙ sym (length-map_ids (still_running (some w)))

  batch_at-last : (o : Option (Worker V L)) → batch_at o ≡ last_batch o
  batch_at-last none = refl
  batch_at-last (some w) = refl

  pool_at-of : (o : Option (Scheduler V L)) → pool_at o ≡ pool_of o
  pool_at-of none = refl
  pool_at-of (some sched) = refl

  cache_at-of : (o : Option (Scheduler V L)) → cache_at o ≡ prefix_of o
  cache_at-of none = refl
  cache_at-of (some sched) = refl

  prefix_at-payload :
      (o : Option (PrefixCache V L))
      → let said = prefix_payload o in
        prefix_at o
        ≡ (said.prefix_entries, said.prefix_hits, said.prefix_misses, said.prefix_tokens_saved)
  prefix_at-payload none = refl
  prefix_at-payload (some cache) = refl

  waiting_at-ids : (o : Option (Scheduler V L)) → waiting_at o ≡ length (waiting_ids_at o)
  waiting_at-ids none = refl
  waiting_at-ids (some sched) = sym (length-map_ids sched.queue.waiting_list)

used_at-numbers :
    (settings : Settings) (o : Option BlockPool)
    → (used_at o ≡ (kv_numbers settings o).kv_blocks_used)
      × (total_at o ≡ (kv_numbers settings o).kv_blocks_total)
unfolding snapshot
used_at-numbers settings none = (refl, refl)
used_at-numbers settings (some pool) = (refl, refl)

module _ {V L R : Type 0} where
  -- At any time and in any state of the server, what update_gauges sets and what admin_stats reports is the
  -- same: the two modules count the same things.
  pub update_gauges-admin_stats :
      (now tokens rss : ℕ) (app : App V L R)
      → Agree
          (update_gauges (scheduler_of app.attached) (worker_of app.attached) rss)
          (admin_stats now tokens app).0
  unfolding update_gauges admin_stats
  update_gauges-admin_stats now tokens rss app =
      let sched = scheduler_of app.attached in
      let worker = worker_of app.attached in
      let waits = waiting_at-ids sched in
      let runs_now = running_at-still_running worker in
      let kv = used_at-numbers app.settings (pool_at sched) in
      let pool = pool_at-of sched in
      let prefix = ap prefix_at (cache_at-of sched) ∙ prefix_at-payload (prefix_of sched) in
      record {
        waiting = waits;
        running = runs_now;
        in_flight = omega (arith, waits, runs_now);
        decode_batch = batch_at-last worker;
        kv_used = kv.0 ∙ ap (λ o. (kv_numbers app.settings o).kv_blocks_used) pool;
        kv_total = kv.1 ∙ ap (λ o. (kv_numbers app.settings o).kv_blocks_total) pool;
        entries = ap (λ (p : ℕ × ℕ × ℕ × ℕ). p.0) prefix;
        hits = ap (λ (p : ℕ × ℕ × ℕ × ℕ). p.1) prefix;
        misses = ap (λ (p : ℕ × ℕ × ℕ × ℕ). p.2) prefix;
        tokens_saved = ap (λ (p : ℕ × ℕ × ℕ × ℕ). p.3) prefix;
      }
