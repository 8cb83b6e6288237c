-- ===== src/Worker.antt =====
-- The continuous-batching loop of src/flux/engine/worker.py. The coroutine `run` is a step relation: each
-- step is what runs between two points where other tasks may run, which are the `await`s of the loop.
-- Sequences are values: a sequence stands in the queue, among those admitted in this iteration, among
-- those running, or among those that the worker has let go of (`gone`), which only clients still hold.
-- The counter `tokens_generated`, which only the operator's page reads, is left out. The endpoint
-- `admin_abort` is one step, although its handler runs in a thread of its own, without a lock.
-- `sample` is the sampler's choice of a token; it may differ from step to step, and it may raise. What a
-- sampler's exception does depends on the pass: `_prefill_one` catches it, `_decode_one_step` does not, so
-- that `run` ends (`crashes`). The tokenizer's decode of token ids is taken not to raise.
mod Sequences
mod State
mod Passes
pub mod Acts
pub mod Prefill
pub mod Tokens
pub mod Settling
pub mod Steps
pub mod Batch
pub mod Decode
pub mod Iteration
pub mod Shutdown
pub mod Invariant
pub mod Clients
pub mod Removal
pub mod Admin
pub mod Begin
pub mod Safety
pub mod Limits
pub mod Capacity
unfoldable pub use Sequences.{
  queue_put, signal_end, bind_blocks, bind_hit, bind_peeked, bind_unbound, bind_prefix_at_prefill,
  suffix_forward, reuse_forward, forward, store_prefix, store_outcome, prefill_with_reuse, free_at,
  forget_caches, release_seq, end_as, abort_one, reason_or_length, finish_sequence, fail_one,
  reason_after, note_token, is_aborted, wants_abort,
}
pub use State.{Phase, top, filling, stopped, crashed, Worker}
unfoldable pub use State.{
  has_ended, is_over, has_token, is_decoding, find_after, sweep, abort_if_wanted, begin,
  abort_waiting, abort_leftovers, abort_id, client_abort, seqs_of, find_in, find_sequence,
  abort_removed, abort_found, admin_abort,
}
unfoldable pub use Passes.{
  mark, is_live, last_tokens, caches_of, settle, stop_ids_of, sampled, finish_if, prefill_token,
  prefilled, live_of, cut, cut_at, decode_crash, prefill_one, prefill_from, prefill_next,
  decode_row, decode_rows, decoded, decode_one_step, abort_late, goes_on, decode_step,
}
use flux_llm_inference_engin.Prelude.{◌<◌, ℕ, List, [], Bool, map, count, length, ◌≡◌}
use flux_llm_inference_engin.Kv.{Cache}
use flux_llm_inference_engin.Outcome.{Outcome, ok}
use flux_llm_inference_engin.Sequence.{SamplingParams, new}
use flux_llm_inference_engin.Engine.{Engine}
use flux_llm_inference_engin.Scheduler.{Scheduler, accepted, submit}

-- The steps of the worker and of its clients. A new request has an id that no request has, as a fresh
-- UUID does, and asks for a token at least, as the server's schemas require. `aborts` is a client that
-- goes away, `admin_aborts` a call of the endpoint. `decodes` is a decode step in which the sampler raises
-- on no row, `crashes` one in which it raises on the n-th.
pub data Step {V L : Type 0} (engine : Engine V L) : Worker V L → Worker V L → Type 0 where
  submits :
      (w : Worker V L) (id : ℕ) (prompt_ids : List ℕ) (sampling : SamplingParams)
      (sched : Scheduler V L)
      → count id (map (λ seq. seq.id) (seqs_of w)) ≡ 0
      → 0 < sampling.max_tokens
      → submit w.sched (new id prompt_ids sampling) ≡ accepted sched
      → Step engine w (record w { sched = sched })
  aborts : (w : Worker V L) (id : ℕ) → Step engine w (client_abort id w)
  admin_aborts : (w : Worker V L) (id : ℕ) → Step engine w (admin_abort id w).1
  begins : (w : Worker V L) (now : ℕ) → w.phase ≡ top → Step engine w (begin now w)
  prefills :
      (w : Worker V L) (sample : SamplingParams → L → Outcome ℕ) (late : ℕ → Bool) (now : ℕ)
      → w.phase ≡ filling
      → Step engine w (prefill_next engine sample late now w)
  decodes :
      (w : Worker V L) (sample : SamplingParams → L → ℕ) (late : ℕ → Bool)
      → w.phase ≡ filling
      → w.admitted ≡ []
      → Step engine w (decode_step engine sample late w)
  crashes :
      (w : Worker V L) (sample : SamplingParams → L → ℕ) (late : ℕ → Bool) (n : ℕ) (logits : List L)
      (caches : List (Cache V))
      → w.phase ≡ filling
      → w.admitted ≡ []
      → engine.decode_batch (last_tokens (live_of engine w)) (caches_of (live_of engine w))
        ≡ ok (logits, caches)
      → n < length (live_of engine w)
      → Step engine w (decode_crash engine sample late n w)
  stops : (w : Worker V L) → w.phase ≡ top → Step engine w (abort_leftovers w)

pub data Reach {V L : Type 0} (engine : Engine V L) (start : Worker V L) : Worker V L → Type 0 where
  here : Reach engine start start
  next :
      {mid last : Worker V L}
      → Reach engine start mid
      → Step engine mid last
      → Reach engine start last
