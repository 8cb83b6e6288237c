-- ===== src/Worker/Passes.antt =====
-- The parts of `ContinuousWorker` of src/flux/engine/worker.py that call the engine: the prefill of a sequence
-- and the decode step of the batch.
use flux_llm_inference_engin.Prelude.{
  ℕ, List, [], ◌∷◌, ◌++◌, Bool, true, false, not, ◌&&◌, ◌||◌, Option, none, some, length, keep_if,
  take, nat_beq, if◌then◌else◌,
}
use flux_llm_inference_engin.Kv.{Cache}
use flux_llm_inference_engin.Sequence.{Sequence, SamplingParams, Status, prefill, decoding, Reason}
use flux_llm_inference_engin.Engine.{Engine, combined_stop_ids}
use flux_llm_inference_engin.Outcome.{Outcome, ok, raised}
use flux_llm_inference_engin.Worker.Sequences.{
  prefill_with_reuse, abort_one, finish_sequence, fail_one, note_token, wants_abort,
}
use flux_llm_inference_engin.Worker.State.{
  Worker, top, crashed, sweep, abort_if_wanted, is_over, has_token, is_decoding,
}
use flux_llm_inference_engin.Scheduler.{Scheduler}

module _ {V L : Type 0} where
  -- The clients that asked for an abort while a forward pass ran.
  abbrev pub mark : (ℕ → Bool) → Sequence V L → Sequence V L
  mark late seq = record seq { abort_requested = seq.abort_requested || late seq.id }

  -- The sequences that a decode step takes.
  abbrev pub is_live : Sequence V L → Bool
  is_live seq = is_decoding seq.status && (has_token seq.last_token && not (wants_abort seq))

  abbrev pub last_tokens : List (Sequence V L) → List ℕ
  last_tokens [] = []
  last_tokens (seq ∷ seqs) =
      (elim seq.last_token [ none ↦ 0 | some token ↦ token ]) ∷ last_tokens seqs

  abbrev pub caches_of : List (Sequence V L) → List (Cache V)
  caches_of [] = []
  caches_of (seq ∷ seqs) = (elim seq.kv_cache [ none ↦ [] | some cache ↦ cache ]) ∷ caches_of seqs

  abbrev pub settle : Bool → Sequence V L → Worker V L → Worker V L
  settle true seq w = record w { gone = w.gone ++ seq ∷ [] }
  settle false seq w = record w { running = w.running ++ seq ∷ [] }

  module _ (engine : Engine V L) where
    abbrev pub stop_ids_of : Sequence V L → List ℕ
    stop_ids_of seq =
        combined_stop_ids engine.stop_token_ids seq.sampling.stop_token_ids seq.sampling.ignore_eos

    abbrev pub sampled : (SamplingParams → L → ℕ) → L → Cache V → Sequence V L → Sequence V L
    sampled sample logits cache seq =
        record (note_token (sample seq.sampling logits) (stop_ids_of seq) seq) {
          kv_cache = some cache;
        }

    abbrev pub finish_if :
        Option Reason → Status → Sequence V L → Scheduler V L → Sequence V L × Scheduler V L
    finish_if none status seq sched = (record seq { status = status }, sched)
    finish_if (some reason) status seq sched = finish_sequence engine "continuous" seq sched

    -- `_prefill_one` from the sampler on. An exception of the sampler ends the sequence.
    abbrev pub prefill_token :
        L → Cache V → Outcome ℕ → Sequence V L → Scheduler V L → Sequence V L × Scheduler V L
    prefill_token logits cache (raised e) seq sched = fail_one e seq sched
    prefill_token logits cache (ok token) seq sched =
        let seq' = sampled (λ params l. token) logits cache seq in
        if wants_abort seq'
        then abort_one seq' sched
        else finish_if seq'.finish_reason decoding seq' sched

    -- The rest of `_prefill_one`, on the outcome of the forward pass.
    abbrev pub prefilled :
        (SamplingParams → L → Outcome ℕ)
        → (ℕ → Bool)
        → Outcome (L × Cache V)
        → Sequence V L
        → Scheduler V L
        → Sequence V L × Scheduler V L
    prefilled sample late (raised e) seq sched = fail_one e (mark late seq) sched
    prefilled sample late (ok (logits, cache)) seq sched =
        prefill_token logits cache (sample seq.sampling logits) (mark late seq) sched

    -- `_prefill_one`
    unfoldable pub prefill_one :
        (SamplingParams → L → Outcome ℕ)
        → (ℕ → Bool)
        → ℕ
        → Sequence V L
        → Scheduler V L
        → Sequence V L × Scheduler V L
    prefill_one sample late now seq sched =
        let (outcome, seq', sched') =
          prefill_with_reuse engine now (record seq { status = prefill }) sched in
        if wants_abort seq then abort_one seq sched else prefilled sample late outcome seq' sched'

    -- The body of the loop over the admitted sequences.
    abbrev pub prefill_from :
        (SamplingParams → L → Outcome ℕ)
        → (ℕ → Bool)
        → ℕ
        → List (Sequence V L)
        → Worker V L
        → Worker V L
    prefill_from sample late now [] w = w
    prefill_from sample late now (seq ∷ rest) w =
        let (seq', sched') = prefill_one sample late now seq w.sched in
        settle (is_over seq'.status) seq' (record w { sched = sched'; admitted = rest })

    unfoldable pub prefill_next :
        (SamplingParams → L → Outcome ℕ) → (ℕ → Bool) → ℕ → Worker V L → Worker V L
    prefill_next sample late now w = prefill_from sample late now w.admitted w

    -- What a row of the batch does to its sequence.
    abbrev pub decode_row :
        (SamplingParams → L → ℕ)
        → L
        → Cache V
        → Sequence V L
        → Scheduler V L
        → Sequence V L × Scheduler V L
    decode_row sample logits cache seq sched =
        let seq' = sampled sample logits cache seq in
        if wants_abort seq
        then abort_one seq sched
        else finish_if seq'.finish_reason seq'.status seq' sched

    -- The rows in order, each to the next live sequence. The engine returns a row for each.
    unfoldable pub decode_rows :
        (SamplingParams → L → ℕ)
        → (ℕ → Bool)
        → List L
        → List (Cache V)
        → List (Sequence V L)
        → Scheduler V L
        → List (Sequence V L) × Scheduler V L
    decode_rows sample late (l ∷ logits) (c ∷ caches) (seq ∷ seqs) sched =
        let live = is_live seq in
        let (seq', sched') =
          (if live then decode_row sample l c (mark late seq) sched else (mark late seq, sched)) in
        let rest =
          decode_rows sample late (if live then logits else l ∷ logits)
            (if live then caches else c ∷ caches) seqs sched' in
        (seq' ∷ rest.0, rest.1)
    decode_rows sample late _ _ seqs sched = (seqs, sched)

    abbrev pub decoded :
        (SamplingParams → L → ℕ)
        → (ℕ → Bool)
        → Outcome (List L × List (Cache V))
        → List (Sequence V L)
        → Scheduler V L
        → List (Sequence V L) × Scheduler V L
    decoded sample late (ok (logits, caches)) seqs sched =
        decode_rows sample late logits caches seqs sched
    decoded sample late (raised e) seqs sched =
        sweep
          (λ seq sched'. if is_live seq then fail_one e (mark late seq) sched' else (seq, sched'))
          seqs sched

    -- `_decode_one_step`, on the sequences and the scheduler.
    unfoldable pub decode_one_step :
        (SamplingParams → L → ℕ)
        → (ℕ → Bool)
        → List (Sequence V L)
        → Scheduler V L
        → List (Sequence V L) × Scheduler V L
    decode_one_step sample late running sched =
        let swept = sweep abort_if_wanted running sched in
        let live = keep_if is_live swept.0 in
        if nat_beq (length live) 0
        then swept
        else decoded sample late (engine.decode_batch (last_tokens live) (caches_of live)) swept.0
            swept.1

    -- The loop that makes `still`: what is over is dropped, what is to be aborted is aborted.
    abbrev pub abort_late : Sequence V L → Scheduler V L → Sequence V L × Scheduler V L
    abort_late seq sched = if is_over seq.status then (seq, sched) else abort_if_wanted seq sched

    abbrev pub goes_on : Sequence V L → Bool
    goes_on seq = not (is_over seq.status)

    -- From the last prefill to the top of the loop. The `if` on an empty batch is that of `run`.
    unfoldable pub decode_step : (SamplingParams → L → ℕ) → (ℕ → Bool) → Worker V L → Worker V L
    decode_step sample late w =
        let live = keep_if is_live (sweep abort_if_wanted w.running w.sched).0 in
        let stepped = decode_one_step sample late w.running w.sched in
        let still = sweep abort_late stepped.0 stepped.1 in
        record w {
          sched = still.1;
          phase = top;
          running = keep_if goes_on still.0;
          gone = w.gone ++ keep_if (λ seq. not (goes_on seq)) still.0;
          last_batch_size = if nat_beq (length live) 0 then w.last_batch_size else length live;
        }

    -- The sequences and the tensors of a decode step's forward pass.
    abbrev pub live_of : Worker V L → List (Sequence V L)
    live_of w = keep_if is_live (sweep abort_if_wanted w.running w.sched).0

  -- The rows before the n-th one.
  abbrev pub cut : ℕ → Outcome (List L × List (Cache V)) → Outcome (List L × List (Cache V))
  cut n (raised e) = raised e
  cut n (ok (logits, caches)) = ok (take n logits, take n caches)

  -- An engine of which `_decode_one_step` sees the first n rows alone.
  abbrev pub cut_at : ℕ → Engine V L → Engine V L
  cut_at n engine = record engine {
    decode_batch = λ tokens caches. cut n (engine.decode_batch tokens caches);
  }

  -- `run` where the sampler raises on the n-th row of a decode step, which no handler catches: the rows
  -- before it are done, the others and the batch are as they were, and the task ends.
  unfoldable pub decode_crash :
      Engine V L → (SamplingParams → L → ℕ) → (ℕ → Bool) → ℕ → Worker V L → Worker V L
  unfolding decode_one_step
  decode_crash engine sample late n w =
      let stepped = decode_one_step (cut_at n engine) sample late w.running w.sched in
      record w {
        sched = stepped.1;
        phase = crashed;
        running = stepped.0;
        last_batch_size = length (live_of engine w);
      }
