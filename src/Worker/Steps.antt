-- ===== src/Worker/Steps.antt =====
-- What `_prefill_one` and a row of `_decode_one_step` of src/flux/engine/worker.py make of a sequence: either
-- it ends, in one of the three ways, or it goes on to decode.
use flux_llm_inference_engin.Prelude.{
  ℕ, ◌<◌, ◌≡◌, refl, sym, ap, ◌∙◌, subst, none, some, Bool, if_ind, length, map, nat_eq,
}
use flux_llm_inference_engin.Kv.{Cache}
use flux_llm_inference_engin.Sequence.{Sequence, SamplingParams, prefill, decoding}
use flux_llm_inference_engin.Pool.Balance.{Granted, same-KeepsAllocs}
use flux_llm_inference_engin.Scheduler.{Scheduler}
use flux_llm_inference_engin.Scheduler.Books.{Books}
use flux_llm_inference_engin.Engine.{Engine}
use flux_llm_inference_engin.Outcome.{Outcome, ok, raised}
use flux_llm_inference_engin.Worker.{
  wants_abort, note_token, prefill_with_reuse, mark, sampled, stop_ids_of, prefill_token, prefilled,
  prefill_one, decode_row,
}
use flux_llm_inference_engin.Worker.Prefill.{prefill_with_reuse-Serves}
use flux_llm_inference_engin.Worker.Tokens.{IsOpen, note_token-Noted}
use flux_llm_inference_engin.Worker.Settling.{
  Noted-IsOpen, Midway, Settled, abort_one-Settled, fail_one-Settled, finish_if-Settled,
}

module _ {V L : Type 0} where
  module _ (engine : Engine V L) (sample : SamplingParams → L → ℕ) (sched mid : Scheduler V L)
      (id : ℕ) (logits : L) (cache : Cache V) (seq : Sequence V L) (m : Midway sched id seq mid)
      (o : IsOpen seq) where
    pub sampled-Midway : Midway sched id (sampled engine sample logits cache seq) mid
    unfolding note_token
    sampled-Midway = record {
      books = m.books;
      queue = m.queue;
      max_batch = m.max_batch;
      same_id = m.same_id;
      allocs = m.allocs;
      told = (note_token-Noted (sample seq.sampling logits) (stop_ids_of engine seq) seq o).told;
    }

    pub sampled-IsOpen :
        (sampled engine sample logits cache seq).finish_reason ≡ none
        → IsOpen (sampled engine sample logits cache seq)
    sampled-IsOpen none_yet =
        let token = sample seq.sampling logits in
        let after = note_token token (stop_ids_of engine seq) seq in
        let opened =
          Noted-IsOpen token (stop_ids_of engine seq) seq after
            (note_token-Noted token (stop_ids_of engine seq) seq o) none_yet in
        record {
          no_reason = opened.no_reason;
          room = opened.room;
          told = opened.told;
          unsignalled = opened.unsignalled;
        }

  module _ (late : ℕ → Bool) where
    pub mark-Midway :
        (sched mid : Scheduler V L) (id : ℕ) (seq : Sequence V L)
        → Midway sched id seq mid
        → Midway sched id (mark late seq) mid
    mark-Midway sched mid id seq m = record {
      books = m.books;
      queue = m.queue;
      max_batch = m.max_batch;
      same_id = m.same_id;
      allocs = m.allocs;
      told = m.told;
    }

    pub mark-IsOpen : (seq : Sequence V L) → IsOpen seq → IsOpen (mark late seq)
    mark-IsOpen seq o = record {
      no_reason = o.no_reason;
      room = o.room;
      told = o.told;
      unsignalled = o.unsignalled;
    }

  module _ (engine : Engine V L) (sample : SamplingParams → L → ℕ) (late : ℕ → Bool) where
    -- A row of `_decode_one_step` settles a sequence that decodes.
    pub decode_row-Settled :
        (logits : L) (cache : Cache V) (seq : Sequence V L) (sched : Scheduler V L)
        → Books sched
        → Granted sched.pool seq.id
        → IsOpen seq
        → seq.status ≡ decoding
        → Settled sched seq.id (decode_row engine sample logits cache seq sched)
    unfolding note_token
    decode_row-Settled logits cache seq sched s g o going =
        let m : Midway sched seq.id seq sched = record {
          books = s;
          queue = refl;
          max_batch = refl;
          same_id = refl;
          allocs = same-KeepsAllocs sched.pool sched.pool seq.id refl g;
          told = o.told;
        } in
        let seq' = sampled engine sample logits cache seq in
        if_ind (Settled sched seq.id) (wants_abort seq)
          (λ _. abort_one-Settled sched sched seq.id seq m)
          (λ _.
            finish_if-Settled engine sched sched seq.id seq' seq'.finish_reason seq'.status going
              (sampled-Midway engine sample sched sched seq.id logits cache seq m o)
              (sampled-IsOpen engine sample sched sched seq.id logits cache seq m o))

  module _ (engine : Engine V L) (sample : SamplingParams → L → Outcome ℕ) (late : ℕ → Bool) where
    prefill_token-Settled :
        (sched mid : Scheduler V L) (id : ℕ) (logits : L) (cache : Cache V) (out : Outcome ℕ)
        (seq : Sequence V L)
        → Midway sched id seq mid
        → IsOpen seq
        → Settled sched id (prefill_token engine logits cache out seq mid)
    prefill_token-Settled sched mid id logits cache (raised e) seq m o =
        fail_one-Settled sched mid id seq e m
    prefill_token-Settled sched mid id logits cache (ok token) seq m o =
        let choice : SamplingParams → L → ℕ = λ params l. token in
        let seq' = sampled engine choice logits cache seq in
        let m' = sampled-Midway engine choice sched mid id logits cache seq m o in
        if_ind (Settled sched id) (wants_abort seq') (λ _. abort_one-Settled sched mid id seq' m')
          (λ _.
            finish_if-Settled engine sched mid id seq' seq'.finish_reason decoding refl m'
              (sampled-IsOpen engine choice sched mid id logits cache seq m o))

    prefilled-Settled :
        (sched mid : Scheduler V L) (id : ℕ) (out : Outcome (L × Cache V)) (seq : Sequence V L)
        → Midway sched id seq mid
        → IsOpen seq
        → Settled sched id (prefilled engine sample late out seq mid)
    prefilled-Settled sched mid id (raised e) seq m o =
        fail_one-Settled sched mid id (mark late seq) e (mark-Midway late sched mid id seq m)
    prefilled-Settled sched mid id (ok (logits, cache)) seq m o =
        prefill_token-Settled sched mid id logits cache (sample seq.sampling logits) (mark late seq)
          (mark-Midway late sched mid id seq m) (mark-IsOpen late seq o)

    -- `_prefill_one` on a sequence that was admitted and is not over settles it, whatever the engine, the
    -- sampler and its client do in the meantime; both may raise.
    pub prefill_one-Settled :
        (now : ℕ) (seq : Sequence V L) (sched : Scheduler V L)
        → Books sched
        → Granted sched.pool seq.id
        → IsOpen seq
        → Settled sched seq.id (prefill_one engine sample late now seq sched)
    unfolding prefill_one
    prefill_one-Settled now seq sched s g o =
        let started = record seq { status = prefill } in
        let reused = prefill_with_reuse engine now started sched in
        let serves = prefill_with_reuse-Serves engine now started sched s g in
        let life = serves.life in
        if_ind (Settled sched seq.id) (wants_abort seq)
          (λ _. abort_one-Settled sched sched seq.id seq (record {
            books = s;
            queue = refl;
            max_batch = refl;
            same_id = refl;
            allocs = same-KeepsAllocs sched.pool sched.pool seq.id refl g;
            told = o.told;
          }))
          (λ _.
            prefilled-Settled sched reused.2 seq.id reused.0 reused.1
              (record {
                books = serves.books;
                queue = serves.queue;
                max_batch = serves.max_batch;
                same_id = life.id;
                allocs = serves.allocs;
                told = life.token_queue ∙ o.told ∙ ap (map some) (sym life.output_ids);
              })
              (record {
                no_reason = life.finish_reason ∙ o.no_reason;
                room =
                    subst (λ (p : SamplingParams). length reused.1.output_ids < p.max_tokens)
                      (sym life.sampling)
                      (subst (λ out. length out < seq.sampling.max_tokens) (sym life.output_ids)
                        o.room);
                told = life.token_queue ∙ o.told ∙ ap (map some) (sym life.output_ids);
                unsignalled = life.finished_event ∙ o.unsignalled;
              }))
