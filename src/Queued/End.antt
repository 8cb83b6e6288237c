-- ===== src/Queued/End.antt =====
-- `_run_one` of src/flux/engine/worker.py comes to an end, and ends its sequence, within max_tokens passes.
use Prim.Native.String.{String}
use flux_llm_inference_engin.Prelude.{
  ℕ, zero, suc, ◌+◌, ◌≤◌, ◌<◌, [], ◌∷◌, ◌≡◌, refl, sym, ap, ◌∙◌, subst, Option, none, some, Bool,
  true, arith, if_ind, length, map, length-append,
}
use flux_llm_inference_engin.Kv.{Cache}
use flux_llm_inference_engin.Sequence.{Sequence, SamplingParams, decoding, finished, Reason}
use flux_llm_inference_engin.Pool.Balance.{Granted, same-KeepsAllocs}
use flux_llm_inference_engin.Scheduler.{Scheduler}
use flux_llm_inference_engin.Scheduler.Books.{Books}
use flux_llm_inference_engin.Engine.{Engine, pack_result}
use flux_llm_inference_engin.Outcome.{Outcome, ok, raised}
use flux_llm_inference_engin.Worker.{
  abort_one, finish_sequence, fail_one, wants_abort, prefill_with_reuse, sampled, note_token,
  reason_or_length, is_over,
}
use flux_llm_inference_engin.Worker.Acts.{abort_one-Ends, fail_one-Ends, finish_sequence-Ends}
use flux_llm_inference_engin.Worker.Prefill.{prefill_with_reuse-Serves}
use flux_llm_inference_engin.Worker.Tokens.{IsOpen}
use flux_llm_inference_engin.Worker.Settling.{
  Midway, Settled, Ends-Settled, Midway-Freeable, output_end_as, abort_one-Settled,
  fail_one-Settled,
}
use flux_llm_inference_engin.Worker.Steps.{sampled-Midway, sampled-IsOpen}
use flux_llm_inference_engin.Queued.{look, unless_raised, unless_finished, run_loop, run_one, serve}

module _ {V L : Type 0} where
  -- The sequence is settled, and it is over.
  abbrev pub IsEnded : Scheduler V L → ℕ → Sequence V L × Scheduler V L → Type 0
  IsEnded sched id done = Settled sched id done × (is_over done.0.status ≡ true)

  abort_one-IsEnded :
      (sched mid : Scheduler V L) (id : ℕ) (seq : Sequence V L)
      → Midway sched id seq mid
      → IsEnded sched id (abort_one seq mid)
  abort_one-IsEnded sched mid id seq m = (
    abort_one-Settled sched mid id seq m,
    (abort_one-Ends seq mid m.books (Midway-Freeable sched mid id seq m)).over,
  )

  fail_one-IsEnded :
      (sched mid : Scheduler V L) (id : ℕ) (seq : Sequence V L) (e : String)
      → Midway sched id seq mid
      → IsEnded sched id (fail_one e seq mid)
  fail_one-IsEnded sched mid id seq e m = (
    fail_one-Settled sched mid id seq e m,
    (fail_one-Ends seq mid m.books (Midway-Freeable sched mid id seq m) e).over,
  )

  finish_sequence-IsEnded :
      (engine : Engine V L) (sched mid : Scheduler V L) (id : ℕ) (seq : Sequence V L)
      → Midway sched id seq mid
      → IsEnded sched id (finish_sequence engine "queued" seq mid)
  unfolding finish_sequence
  finish_sequence-IsEnded engine sched mid id seq m =
      let e =
        finish_sequence-Ends seq mid m.books (Midway-Freeable sched mid id seq m) engine "queued" in
      (
        Ends-Settled sched mid id seq (finish_sequence engine "queued" seq mid) m e (
            output_end_as
              (record seq {
                result = some (
                    pack_result engine.decode_text seq.prompt_ids seq.output_ids
                      (reason_or_length seq.finish_reason) "queued");
                status = finished;
              })
              mid),
        e.over,
      )

  module _ (engine : Engine V L) (sample : SamplingParams → L → ℕ) (late : ℕ → Bool) where
    look-Midway :
        (k : ℕ) (sched mid : Scheduler V L) (id : ℕ) (seq : Sequence V L)
        → Midway sched id seq mid
        → Midway sched id (look engine sample late k seq) mid
    look-Midway k sched mid id seq m = record {
      books = m.books;
      queue = m.queue;
      max_batch = m.max_batch;
      same_id = m.same_id;
      allocs = m.allocs;
      told = m.told;
    }

    look-IsOpen : (k : ℕ) (seq : Sequence V L) → IsOpen seq → IsOpen (look engine sample late k seq)
    look-IsOpen k seq o = record {
      no_reason = o.no_reason;
      room = o.room;
      told = o.told;
      unsignalled = o.unsignalled;
    }

    sampled-length :
        (logits : L) (cache : Cache V) (seq : Sequence V L)
        → let after = sampled engine sample logits cache seq in
          (length after.output_ids ≡ suc (length seq.output_ids))
          × (after.sampling.max_tokens ≡ seq.sampling.max_tokens)
    unfolding note_token
    sampled-length logits cache seq =
        (omega (arith, length-append seq.output_ids (sample seq.sampling logits ∷ [])), refl)

    unless_finished-IsEnded :
        (sched mid : Scheduler V L) (id : ℕ) (seq : Sequence V L) (o : Option Reason)
        (more : Sequence V L × Scheduler V L)
        → seq.finish_reason ≡ o
        → Midway sched id seq mid
        → (o ≡ none → IsEnded sched id more)
        → IsEnded sched id (unless_finished engine sample late o seq mid more)
    unless_finished-IsEnded sched mid id seq none more e m goes = goes refl
    unless_finished-IsEnded sched mid id seq (some reason) more e m goes =
        finish_sequence-IsEnded engine sched mid id seq m

    unless_raised-IsEnded :
        (sched mid : Scheduler V L) (id : ℕ) (seq : Sequence V L) (o : Outcome (L × Cache V))
        (go_on : L → Cache V → Sequence V L × Scheduler V L)
        → Midway sched id seq mid
        → ((logits : L) (cache : Cache V) → IsEnded sched id (go_on logits cache))
        → IsEnded sched id (unless_raised engine sample late o seq mid go_on)
    unless_raised-IsEnded sched mid id seq (raised e) go_on m ends =
        fail_one-IsEnded sched mid id seq e m
    unless_raised-IsEnded sched mid id seq (ok (logits, cache)) go_on m ends = ends logits cache

    -- The loop on a sequence that has a reason to end, or room for another token, with fuel for the
    -- tokens that are left.
    run_loop-IsEnded :
        (fuel k last_token : ℕ) (cache : Cache V) (sched mid : Scheduler V L) (id : ℕ)
        (seq : Sequence V L)
        → Midway sched id seq mid
        → (seq.finish_reason ≡ none → IsOpen seq)
        → length seq.output_ids ≤ seq.sampling.max_tokens
        → seq.sampling.max_tokens < fuel + length seq.output_ids
        → IsEnded sched id (run_loop engine sample late fuel k last_token cache seq mid)
    unfolding run_loop
    run_loop-IsEnded zero k last_token cache sched mid id seq m opened bound enough =
        absurd (omega arith)
    run_loop-IsEnded (suc fuel) k last_token cache sched mid id seq m opened bound enough =
        let looked = look engine sample late k seq in
        let m' = look-Midway k sched mid id seq m in
        unless_finished-IsEnded sched mid id seq seq.finish_reason _ refl m λ none_yet.
          let o = look-IsOpen k seq (opened none_yet) in
          if_ind (IsEnded sched id) (wants_abort looked)
            (λ _. abort_one-IsEnded sched mid id looked m')
            (λ _.
              unless_raised-IsEnded sched mid id looked (engine.decode last_token cache) _ m'
                λ logits cache'.
                  let more = sampled-length logits cache' looked in
                  run_loop-IsEnded fuel (suc k) (sample looked.sampling logits) cache' sched mid id
                    (sampled engine sample logits cache' looked)
                    (sampled-Midway engine sample sched mid id logits cache' looked m' o)
                    (sampled-IsOpen engine sample sched mid id logits cache' looked m' o)
                    (omega (arith, more, o.room)) (omega (arith, more, enough)))

    -- `run` on a sequence that was admitted and is not over ends it: whatever the engine returns or
    -- raises, and whenever its client aborts, max_tokens passes of the loop are enough, after which its
    -- blocks are free and its client was told of all tokens and of the end.
    pub serve-IsEnded :
        (now : ℕ) (seq : Sequence V L) (sched : Scheduler V L)
        → Books sched
        → Granted sched.pool seq.id
        → IsOpen seq
        → IsEnded sched seq.id (serve engine sample late now seq sched)
    unfolding serve run_one
    serve-IsEnded now seq sched s g o =
        let started = record seq { status = decoding } in
        let reused = prefill_with_reuse engine now started sched in
        let serves = prefill_with_reuse-Serves engine now started sched s g in
        let life = serves.life in
        let told = life.token_queue ∙ o.told ∙ ap (map some) (sym life.output_ids) in
        let m : Midway sched seq.id reused.1 reused.2 = record {
          books = serves.books;
          queue = serves.queue;
          max_batch = serves.max_batch;
          same_id = life.id;
          allocs = serves.allocs;
          told = told;
        } in
        let opened : IsOpen reused.1 = record {
          no_reason = life.finish_reason ∙ o.no_reason;
          room =
              subst (λ (p : SamplingParams). length reused.1.output_ids < p.max_tokens)
                (sym life.sampling)
                (subst (λ out. length out < seq.sampling.max_tokens) (sym life.output_ids) o.room);
          told = told;
          unsignalled = life.finished_event ∙ o.unsignalled;
        } in
        if_ind (IsEnded sched seq.id) (wants_abort seq)
          (λ _. abort_one-IsEnded sched sched seq.id seq (record {
            books = s;
            queue = refl;
            max_batch = refl;
            same_id = refl;
            allocs = same-KeepsAllocs sched.pool sched.pool seq.id refl g;
            told = o.told;
          }))
          (λ _. unless_raised-IsEnded sched reused.2 seq.id reused.1 reused.0 _ m λ logits cache.
            let after = sampled engine sample logits cache reused.1 in
            let noted = look engine sample late 0 after in
            let more = sampled-length logits cache reused.1 in
            let m' =
              look-Midway 0 sched reused.2 seq.id after (
                sampled-Midway engine sample sched reused.2 seq.id logits cache reused.1 m
                  opened) in
            if_ind (IsEnded sched seq.id) (wants_abort noted)
              (λ _. abort_one-IsEnded sched reused.2 seq.id noted m')
              (λ _.
                run_loop-IsEnded (suc noted.sampling.max_tokens) 1 (sample reused.1.sampling logits)
                  cache sched reused.2 seq.id noted m'
                  (λ none_yet. look-IsOpen 0 after (
                    sampled-IsOpen engine sample sched reused.2 seq.id logits cache reused.1 m
                      opened none_yet))
                  (omega (arith, more, opened.room)) (omega (arith, more))))
