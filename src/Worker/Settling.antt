-- ===== src/Worker/Settling.antt =====
-- How a step on one sequence of src/flux/engine/worker.py may end.
use Prim.Native.String.{String}
use flux_llm_inference_engin.Prelude.{
  ℕ, List, [], ◌∷◌, ◌++◌, ◌≡◌, refl, sym, ap, ◌∙◌, subst, Option, none, some, true, arith, length,
  map, inl, inr, Bool-cases, nat_eq, ltb,
}
use flux_llm_inference_engin.Sequence.{Sequence, Status, decoding, aborted, finished, error, Reason}
use flux_llm_inference_engin.Pool.{BlockPool, free}
use flux_llm_inference_engin.Pool.Balance.{Granted, Freeable, Granted-Freeable, KeepsAllocs}
use flux_llm_inference_engin.Scheduler.{Scheduler, release_in}
use flux_llm_inference_engin.Scheduler.Books.{Books, Unallocated}
use flux_llm_inference_engin.Engine.{Engine, is_stop, pack_result}
use flux_llm_inference_engin.Worker.{
  free_at, end_as, release_seq, abort_one, finish_sequence, fail_one, reason_or_length, is_over,
  finish_if,
}
use flux_llm_inference_engin.Worker.Acts.{
  Frees, Ends, abort_one-Ends, fail_one-Ends, finish_sequence-Ends,
}
use flux_llm_inference_engin.Worker.Tokens.{IsTold, IsOpen, Noted}

module _ {V L : Type 0} where
  -- A sequence in the middle of a step: the books are kept so far, it still holds its blocks, and its
  -- client was told of all tokens.
  pub record Midway (sched : Scheduler V L) (id : ℕ) (seq : Sequence V L) (mid : Scheduler V L)
      : Type 0 where
    pub books : Books mid
    pub queue : mid.queue ≡ sched.queue
    pub max_batch : mid.max_batch ≡ sched.max_batch
    pub same_id : seq.id ≡ id
    pub allocs : KeepsAllocs sched.pool id mid.pool
    pub told : IsTold seq

  -- A step's result. Either the sequence is over: it is freed, its client is woken and has been told of
  -- all tokens and then of the end. Or it decodes on, with its blocks and with room for a token.
  pub data Settled (sched : Scheduler V L) (id : ℕ) : Sequence V L × Scheduler V L → Type 0 where
    ended :
        (seq : Sequence V L) (after : Scheduler V L)
        → Frees sched id (seq, after)
        → is_over seq.status ≡ true
        → seq.finished_event ≡ true
        → seq.token_queue ≡ map some seq.output_ids ++ none ∷ []
        → Settled sched id (seq, after)
    decodes :
        (seq : Sequence V L) (after : Scheduler V L)
        → Midway sched id seq after
        → seq.status ≡ decoding
        → IsOpen seq
        → Settled sched id (seq, after)

  output_free_at :
      (seq : Sequence V L) (sched : Scheduler V L) (o : Option BlockPool)
      → (free_at seq sched o).0.output_ids ≡ seq.output_ids
  unfolding free
  output_free_at seq sched none = refl
  output_free_at seq sched (some pool) = refl

  pub output_end_as :
      (seq : Sequence V L) (sched : Scheduler V L)
      → (end_as seq sched).0.output_ids ≡ seq.output_ids
  unfolding release_seq
  output_end_as seq sched =
      let mid = release_in seq.prefix_key sched in output_free_at seq mid mid.pool

  pub Ends-Settled :
      (sched mid : Scheduler V L) (id : ℕ) (seq : Sequence V L)
      (done : Sequence V L × Scheduler V L)
      → Midway sched id seq mid
      → Ends mid seq.id seq.token_queue done
      → done.0.output_ids ≡ seq.output_ids
      → Settled sched id done
  Ends-Settled sched mid id seq (seq', after) m e same =
      let acts = e.frees.acts in
      ended seq' after
        (record {
          acts = record {
            books = acts.books;
            queue = acts.queue ∙ m.queue;
            max_batch = acts.max_batch ∙ m.max_batch;
            same_id = acts.same_id ∙ m.same_id;
            others =
                λ i other. acts.others i (λ h. other (sym m.same_id ∙ h)) ∙ m.allocs.others i other;
            presence = acts.presence ∙ m.allocs.presence;
          };
          unallocated = subst (Unallocated after.pool) m.same_id e.frees.unallocated;
          freeable = e.frees.freeable;
        })
        e.over e.signalled (e.told ∙ ap (λ q. q ++ none ∷ []) (m.told ∙ ap (map some) (sym same)))

  pub Midway-Freeable :
      (sched mid : Scheduler V L) (id : ℕ) (seq : Sequence V L)
      → Midway sched id seq mid
      → Freeable mid.pool seq
  Midway-Freeable sched mid id seq m =
      Granted-Freeable mid.pool seq (subst (Granted mid.pool) (sym m.same_id) m.allocs.granted)

  pub abort_one-Settled :
      (sched mid : Scheduler V L) (id : ℕ) (seq : Sequence V L)
      → Midway sched id seq mid
      → Settled sched id (abort_one seq mid)
  unfolding abort_one
  abort_one-Settled sched mid id seq m =
      Ends-Settled sched mid id seq (abort_one seq mid) m
        (abort_one-Ends seq mid m.books (Midway-Freeable sched mid id seq m))
        (output_end_as (record seq { status = aborted }) mid)

  pub fail_one-Settled :
      (sched mid : Scheduler V L) (id : ℕ) (seq : Sequence V L) (e : String)
      → Midway sched id seq mid
      → Settled sched id (fail_one e seq mid)
  unfolding fail_one
  fail_one-Settled sched mid id seq e m =
      Ends-Settled sched mid id seq (fail_one e seq mid) m
        (fail_one-Ends seq mid m.books (Midway-Freeable sched mid id seq m) e)
        (output_end_as (record seq { error = some e; status = error }) mid)

  pub finish_if-Settled :
      (engine : Engine V L) (sched mid : Scheduler V L) (id : ℕ) (seq : Sequence V L)
      (o : Option Reason) (status : Status)
      → status ≡ decoding
      → Midway sched id seq mid
      → (o ≡ none → IsOpen seq)
      → Settled sched id (finish_if engine o status seq mid)
  unfolding finish_sequence
  finish_if-Settled engine sched mid id seq none status st m open_if =
      let o = open_if refl in
      decodes (record seq { status = status }) mid
        (record {
          books = m.books;
          queue = m.queue;
          max_batch = m.max_batch;
          same_id = m.same_id;
          allocs = m.allocs;
          told = m.told;
        })
        st
        (record {
          no_reason = o.no_reason;
          room = o.room;
          told = o.told;
          unsignalled = o.unsignalled;
        })
  finish_if-Settled engine sched mid id seq (some reason) status st m open_if =
      Ends-Settled sched mid id seq (finish_sequence engine "continuous" seq mid) m
        (finish_sequence-Ends seq mid m.books (Midway-Freeable sched mid id seq m) engine
          "continuous")
        (output_end_as
          (record seq {
            result = some (
                pack_result engine.decode_text seq.prompt_ids seq.output_ids
                  (reason_or_length seq.finish_reason) "continuous");
            status = finished;
          })
          mid)

  pub Noted-IsOpen :
      (token : ℕ) (stop_ids : List ℕ) (seq after : Sequence V L)
      → Noted token stop_ids seq after
      → after.finish_reason ≡ none
      → IsOpen after
  Noted-IsOpen token stop_ids seq after n none_yet = elim (Bool-cases (is_stop token stop_ids)) [
    | inl hit ↦ cc (n.stops hit)
    | inr miss ↦ elim (Bool-cases (ltb (length after.output_ids) after.sampling.max_tokens)) [
      | inl short ↦ n.goes_on miss (ground arith)
      | inr long ↦
          let full : length after.output_ids ≡ after.sampling.max_tokens =
            ground (arith, n.bounded) in
          cc (n.fills miss full)
    ]
  ]
