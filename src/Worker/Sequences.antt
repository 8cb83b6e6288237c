-- ===== src/Worker/Sequences.antt =====
-- What src/flux/engine/worker.py does to one sequence: binding a stored prefix, the prefill, the end of a
-- request. A function that also changes the scheduler takes and returns the pair of both. The token
-- queue of a sequence is unbounded, so `put_nowait` never raises, and `call_soon_threadsafe` only
-- delays it.
use Prim.Native.String.{String}
use flux_llm_inference_engin.Prelude.{
  ℕ, ◌+◌, List, [], ◌∷◌, ◌++◌, Bool, true, false, ◌||◌, Option, none, some, length, drop, leb, ltb,
  if◌then◌else◌,
}
use flux_llm_inference_engin.Kv.{Cache, clone_cache}
use flux_llm_inference_engin.Sequence.{
  Sequence, Status, finished, aborted, error, Reason, stop, length_limit,
}
use flux_llm_inference_engin.Pool.{BlockPool, alloc_of, blocks_needed, detach, free}
use flux_llm_inference_engin.Prefix.{
  PrefixCache, PrefixHit, release_some, peek, lookup, insert, adopt,
}
use flux_llm_inference_engin.Scheduler.{Scheduler, apply_hit, release_in}
use flux_llm_inference_engin.Engine.{Engine, is_stop, pack_result}
use flux_llm_inference_engin.Outcome.{Outcome, ok, raised}

abbrev pub reason_or_length : Option Reason → Reason
reason_or_length none = length_limit
reason_or_length (some reason) = reason

abbrev pub is_aborted : Status → Bool
is_aborted aborted = true
is_aborted _ = false

module _ {V L : Type 0} where
  -- `_queue_put`
  abbrev pub queue_put : Option ℕ → Sequence V L → Sequence V L
  queue_put item seq = record seq { token_queue = seq.token_queue ++ item ∷ [] }

  abbrev pub signal_end : Sequence V L → Sequence V L
  signal_end seq = record (queue_put none seq) { finished_event = true }

  -- The end of `_bind_prefix_at_prefill`: the blocks that the prefix makes needless go back.
  abbrev pub bind_blocks :
      PrefixHit V L → Sequence V L → Scheduler V L → Option BlockPool → Sequence V L × Scheduler V L
  bind_blocks hit seq sched none = (seq, sched)
  bind_blocks hit seq sched (some pool) =
      let (extra, detached, seq') = detach pool seq (blocks_needed pool hit.n_tokens) in
      let pool' = release_some extra detached in
      let owned = alloc_of seq.id pool' in
      (
        record seq' { owned_block_ids = owned; block_ids = hit.block_ids ++ owned },
        record sched { pool = some pool' },
      )

  abbrev pub bind_hit :
      Sequence V L → Scheduler V L → Option (PrefixHit V L) → Sequence V L × Scheduler V L
  bind_hit seq sched none = (seq, sched)
  bind_hit seq sched (some hit) = bind_blocks hit (apply_hit (some hit) seq) sched sched.pool

  abbrev pub bind_peeked :
      ℕ
      → Sequence V L
      → Scheduler V L
      → PrefixCache V L
      → Option (PrefixHit V L)
      → Sequence V L × Scheduler V L
  bind_peeked now seq sched cache none = (seq, sched)
  bind_peeked now seq sched cache (some peeked) =
      let (hit, kv) = lookup now seq.prompt_ids (record { pool = sched.pool; cache = cache }) in
      bind_hit seq (record sched { pool = kv.pool; prefix_cache = some kv.cache }) hit

  abbrev pub bind_unbound :
      ℕ
      → Sequence V L
      → Scheduler V L
      → Option (PrefixCache V L)
      → Option (List ℕ)
      → Sequence V L × Scheduler V L
  bind_unbound now seq sched none key = (seq, sched)
  bind_unbound now seq sched (some cache) (some key) = (seq, sched)
  bind_unbound now seq sched (some cache) none =
      bind_peeked now seq sched cache (peek cache seq.prompt_ids)

  -- `_bind_prefix_at_prefill`
  unfoldable pub bind_prefix_at_prefill :
      ℕ → Sequence V L → Scheduler V L → Sequence V L × Scheduler V L
  unfolding apply_hit
  bind_prefix_at_prefill now seq sched =
      bind_unbound now seq sched sched.prefix_cache seq.prefix_key

  -- The forward pass that a prefix of `tokens` tokens leaves to do. The logits are kept only for a
  -- prefix that is the whole prompt.
  abbrev pub suffix_forward : Engine V L → List ℕ → Cache V → List ℕ → Outcome (L × Cache V)
  suffix_forward engine prompt_ids prefix [] = engine.prefill prompt_ids
  suffix_forward engine prompt_ids prefix (t ∷ suffix) =
      engine.prefill_from_prefix (t ∷ suffix) prefix

  abbrev pub reuse_forward : Engine V L → List ℕ → ℕ → Cache V → Option L → Outcome (L × Cache V)
  reuse_forward engine prompt_ids tokens prefix (some logits) =
      if leb (length prompt_ids) tokens
      then ok (logits, prefix)
      else suffix_forward engine prompt_ids prefix (drop tokens prompt_ids)
  reuse_forward engine prompt_ids tokens prefix none =
      suffix_forward engine prompt_ids prefix (drop tokens prompt_ids)

  abbrev pub forward : Engine V L → List ℕ → ℕ → Option (Cache V) → Option L → Outcome (L × Cache V)
  forward engine prompt_ids tokens none logits = engine.prefill prompt_ids
  forward engine prompt_ids tokens (some kv) logits =
      if ltb 0 tokens
      then reuse_forward engine prompt_ids tokens (clone_cache kv) logits
      else engine.prefill prompt_ids

  -- After the forward pass: `insert` and `adopt`.
  abbrev pub store_prefix :
      ℕ
      → L × Cache V
      → Sequence V L
      → Scheduler V L
      → Option (PrefixCache V L)
      → Sequence V L × Scheduler V L
  store_prefix now out seq sched none = (seq, sched)
  store_prefix now (logits, kv_cache) seq sched (some cache) =
      let kv =
        insert now seq.prompt_ids (some kv_cache) (some logits)
          (record { pool = sched.pool; cache = cache }) in
      let (kv', seq') = adopt now seq kv in
      (seq', record sched { pool = kv'.pool; prefix_cache = some kv'.cache })

  abbrev pub store_outcome :
      ℕ
      → Sequence V L × Scheduler V L
      → Outcome (L × Cache V)
      → Outcome (L × Cache V) × Sequence V L × Scheduler V L
  store_outcome now (seq, sched) (raised e) = (raised e, seq, sched)
  store_outcome now (seq, sched) (ok out) =
      let (seq', sched') = store_prefix now out seq sched sched.prefix_cache in
      (ok out, seq', sched')

  -- `_prefill_with_reuse`: the outcome, the sequence and the scheduler.
  unfoldable pub prefill_with_reuse :
      Engine V L
      → ℕ
      → Sequence V L
      → Scheduler V L
      → Outcome (L × Cache V) × Sequence V L × Scheduler V L
  prefill_with_reuse engine now seq sched =
      let bound = bind_prefix_at_prefill now seq sched in
      store_outcome now bound (
        forward engine seq.prompt_ids bound.0.prefix_tokens bound.0.prefix_kv bound.0.prefix_logits)

  abbrev pub free_at :
      Sequence V L → Scheduler V L → Option BlockPool → Sequence V L × Scheduler V L
  free_at seq sched none = (seq, sched)
  free_at seq sched (some pool) =
      let (pool', seq') = free pool seq in (seq', record sched { pool = some pool' })

  abbrev pub forget_caches : Sequence V L → Sequence V L
  forget_caches seq = record seq { kv_cache = none; prefix_kv = none; prefix_logits = none }

  -- `_release`
  unfoldable pub release_seq : Sequence V L → Scheduler V L → Sequence V L × Scheduler V L
  release_seq seq sched =
      let sched' = release_in seq.prefix_key sched in
      let (seq', sched'') = free_at seq sched' sched'.pool in (forget_caches seq', sched'')

  abbrev pub end_as : Sequence V L → Scheduler V L → Sequence V L × Scheduler V L
  end_as seq sched = let (seq', sched') = release_seq seq sched in (signal_end seq', sched')

  -- `_abort_one`
  unfoldable pub abort_one : Sequence V L → Scheduler V L → Sequence V L × Scheduler V L
  abort_one seq sched = end_as (record seq { status = aborted }) sched

  -- `_finish_sequence`
  unfoldable pub finish_sequence :
      Engine V L → String → Sequence V L → Scheduler V L → Sequence V L × Scheduler V L
  finish_sequence engine engine_name seq sched =
      end_as
        (record seq {
          result = some (
              pack_result engine.decode_text seq.prompt_ids seq.output_ids
                (reason_or_length seq.finish_reason) engine_name);
          status = finished;
        })
        sched

  -- The handler of an exception of the engine.
  unfoldable pub fail_one : String → Sequence V L → Scheduler V L → Sequence V L × Scheduler V L
  fail_one e seq sched = end_as (record seq { error = some e; status = error }) sched

  abbrev pub reason_after : Sequence V L → List ℕ → ℕ → Option Reason
  reason_after seq stop_ids token =
      if is_stop token stop_ids
      then some stop
      else if leb seq.sampling.max_tokens (length seq.output_ids + 1)
      then some length_limit
      else seq.finish_reason

  -- `_note_token`
  unfoldable pub note_token : ℕ → List ℕ → Sequence V L → Sequence V L
  note_token token stop_ids seq = record (queue_put (some token) seq) {
    output_ids = seq.output_ids ++ token ∷ [];
    last_token = some token;
    finish_reason = reason_after seq stop_ids token;
  }

  -- `_wants_abort`
  abbrev pub wants_abort : Sequence V L → Bool
  wants_abort seq = seq.abort_requested || is_aborted seq.status
