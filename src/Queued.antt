-- ===== src/Queued.antt =====
-- `QueuedWorker` of src/flux/engine/worker.py, which serves one sequence at a time: what it does to a sequence
-- that it took out of the queue. `late k` says that the client has asked for an abort by the k-th time
-- that the worker looks. A thread runs `_run_one`, and an exception of it is handled by `run`.
pub mod End
use flux_llm_inference_engin.Prelude.{
  ℕ, zero, suc, ◌-◌, List, [], ◌∷◌, Bool, ◌||◌, Option, none, some, if◌then◌else◌,
}
use flux_llm_inference_engin.Kv.{Cache}
use flux_llm_inference_engin.Sequence.{Sequence, SamplingParams, decoding, Reason}
use flux_llm_inference_engin.Scheduler.{Scheduler, admit}
use flux_llm_inference_engin.Engine.{Engine}
use flux_llm_inference_engin.Outcome.{Outcome, ok, raised}
use flux_llm_inference_engin.Worker.{
  abort_one, finish_sequence, fail_one, wants_abort, prefill_with_reuse, sampled,
}

module _ {V L : Type 0} (engine : Engine V L) (sample : SamplingParams → L → ℕ)
    (late : ℕ → Bool) where
  -- The client's wish, as it is when the worker looks for the k-th time.
  abbrev pub look : ℕ → Sequence V L → Sequence V L
  look k seq = record seq { abort_requested = seq.abort_requested || late k }

  -- A forward pass that raises ends the sequence; one that returns goes on.
  abbrev pub unless_raised :
      Outcome (L × Cache V)
      → Sequence V L
      → Scheduler V L
      → (L → Cache V → Sequence V L × Scheduler V L)
      → Sequence V L × Scheduler V L
  unless_raised (raised e) seq sched go_on = fail_one e seq sched
  unless_raised (ok (logits, cache)) seq sched go_on = go_on logits cache

  abbrev pub unless_finished :
      Option Reason
      → Sequence V L
      → Scheduler V L
      → Sequence V L × Scheduler V L
      → Sequence V L × Scheduler V L
  unless_finished none seq sched more = more
  unless_finished (some reason) seq sched more = finish_sequence engine "queued" seq sched

  -- The loop of `_run_one`, on fuel; without fuel it stops in the middle.
  unfoldable pub run_loop :
      ℕ → ℕ → ℕ → Cache V → Sequence V L → Scheduler V L → Sequence V L × Scheduler V L
  run_loop zero k last_token cache seq sched = (seq, sched)
  run_loop (suc fuel) k last_token cache seq sched =
      let looked = look k seq in
      let more = unless_raised (engine.decode last_token cache) looked sched λ logits cache'.
        run_loop fuel (suc k) (sample looked.sampling logits) cache'
          (sampled engine sample logits cache' looked) sched in
      unless_finished seq.finish_reason seq sched
        (if wants_abort looked then abort_one looked sched else more)

  -- `_run_one`, with the handler of `run` where it raises.
  unfoldable pub run_one : ℕ → Sequence V L → Scheduler V L → Sequence V L × Scheduler V L
  run_one now seq sched =
      let (outcome, seq', sched') = prefill_with_reuse engine now seq sched in
      unless_raised outcome seq' sched' λ logits cache.
        let noted = look 0 (sampled engine sample logits cache seq') in
        if wants_abort noted
        then abort_one noted sched'
        else run_loop (suc noted.sampling.max_tokens) 1 (sample seq'.sampling logits) cache noted
            sched'

  -- What `run` does to the sequence that it took out of the queue.
  unfoldable pub serve : ℕ → Sequence V L → Scheduler V L → Sequence V L × Scheduler V L
  serve now seq sched =
      if wants_abort seq
      then abort_one seq sched
      else run_one now (record seq { status = decoding }) sched

  abbrev pub serve_first :
      ℕ → List (Sequence V L) × Scheduler V L → Option (Sequence V L) × Scheduler V L
  serve_first now ([], sched) = (none, sched)
  serve_first now (seq ∷ others, sched) =
      let (seq', sched') = serve now seq sched in (some seq', sched')

  -- A pass of the loop of `run`: the sequence served, if one was admitted. There is room for one.
  unfoldable pub queued_pass : ℕ → Scheduler V L → Option (Sequence V L) × Scheduler V L
  queued_pass now sched = serve_first now (admit now sched (sched.max_batch - 1))
