-- ===== src/Worker/Decode.antt =====
-- A decode step of src/flux/engine/worker.py on the batch: its first loop, the forward pass, the rows, and the
-- loop of `run` that follows.
use flux_llm_inference_engin.Prelude.{
  ℕ, ◌≤◌, List, [], ◌∷◌, ◌≡◌, refl, sym, ap, ◌∙◌, subst, Option, Bool, true, arith, if_ind,
  if◌then◌else◌, length, nat_eq, nat_beq, nat_beq_iff, count, All, keep_if,
}
use flux_llm_inference_engin.Kv.{Cache}
use flux_llm_inference_engin.Sequence.{
  Sequence, SamplingParams, Status, waiting, prefill, decoding, finished, aborted, error,
}
use flux_llm_inference_engin.Pool.{BlockPool, alloc_at, holds, present}
use flux_llm_inference_engin.Scheduler.{Scheduler}
use flux_llm_inference_engin.Scheduler.Books.{Books}
use flux_llm_inference_engin.Scheduler.Moved.{ids}
use flux_llm_inference_engin.Engine.{Engine}
use flux_llm_inference_engin.Outcome.{Outcome, ok, raised}
use flux_llm_inference_engin.Worker.{
  sweep, abort_if_wanted, abort_one, fail_one, wants_abort, mark, is_live, is_over, is_decoding,
  decode_row, decode_rows, decoded, decode_one_step, last_tokens, caches_of, abort_late,
}
use flux_llm_inference_engin.Worker.Settling.{abort_one-Settled, fail_one-Settled}
use flux_llm_inference_engin.Worker.Steps.{decode_row-Settled, mark-IsOpen}
use flux_llm_inference_engin.Worker.Batch.{
  Runs, Fate, runs, is_gone, Runs-stays, Fate-stays, Stepped, Settled-Stepped, left_alone,
  Runs-Midway, Swept, AreDistinct, cons-Swept, tail_distinct, later_stay,
}

decoding_of : (s : Status) → is_decoding s ≡ true → s ≡ decoding
decoding_of waiting h = cc
decoding_of prefill h = cc
decoding_of decoding h = refl
decoding_of finished h = cc
decoding_of aborted h = cc
decoding_of error h = cc

module _ {V L : Type 0} where
  absent_after :
      (seq : Sequence V L) (seqs : List (Sequence V L))
      → AreDistinct (seq ∷ seqs)
      → count seq.id (ids seqs) ≡ 0
  absent_after seq seqs once = ground (arith, once seq.id, nat_beq_iff seq.id seq.id)

  module _ (P : Option BlockPool → Sequence V L → Type 0)
      (stays : (pool pool' : Option BlockPool) (q : Sequence V L)
        → present (alloc_at pool') ≡ present (alloc_at pool)
        → holds q.id (alloc_at pool') ≡ holds q.id (alloc_at pool)
        → P pool q
        → P pool' q)
      (act : Sequence V L → Scheduler V L → Sequence V L × Scheduler V L)
      (act_steps : (seq : Sequence V L) (sched : Scheduler V L)
        → Books sched
        → P sched.pool seq
        → Stepped sched seq.id (act seq sched)) where
    pub sweep-Swept :
        (seqs : List (Sequence V L)) (sched : Scheduler V L)
        → Books sched
        → AreDistinct seqs
        → All (P sched.pool) seqs
        → Swept sched seqs (sweep act seqs sched)
    unfolding sweep
    sweep-Swept [] sched s once all = record {
      books = s;
      queue = refl;
      max_batch = refl;
      same_ids = refl;
      others = λ i _. refl;
      presence = refl;
      fates = tt;
    }
    sweep-Swept (seq ∷ seqs) sched s once all =
        let done = act seq sched in
        let a = act_steps seq sched s all.0 in
        cons-Swept sched seq seqs done (sweep act seqs done.1) once a (
          sweep-Swept seqs done.1 a.books (tail_distinct seq seqs once)
            (later_stay P stays sched seq.id done seqs a (absent_after seq seqs once) all.1))

  -- The first loop of a decode step, and the one of `_drop_aborted`.
  pub abort_if_wanted-Stepped :
      (seq : Sequence V L) (sched : Scheduler V L)
      → Books sched
      → Runs sched.pool seq
      → Stepped sched seq.id (abort_if_wanted seq sched)
  abort_if_wanted-Stepped seq sched s r =
      if_ind (Stepped sched seq.id) (wants_abort seq)
        (λ _.
          Settled-Stepped sched seq.id (abort_one seq sched)
            (abort_one-Settled sched sched seq.id seq (Runs-Midway sched seq s r)))
        (λ _. left_alone sched seq s (runs r))

  -- The loop that makes `still` leaves alone what is over.
  pub abort_late-Stepped :
      (engine : Engine V L) (seq : Sequence V L) (sched : Scheduler V L)
      → Books sched
      → Fate sched.pool seq
      → Stepped sched seq.id (abort_late engine seq sched)
  abort_late-Stepped engine seq sched s (is_gone g) =
      if_ind (Stepped sched seq.id) (is_over seq.status) (λ _. left_alone sched seq s (is_gone g))
        (λ h. cc (g.over))
  abort_late-Stepped engine seq sched s (runs r) =
      if_ind (Stepped sched seq.id) (is_over seq.status) (λ _. left_alone sched seq s (runs r))
        (λ _. abort_if_wanted-Stepped seq sched s r)

  live-Runs :
      (pool : Option BlockPool) (seq : Sequence V L)
      → is_live seq ≡ true
      → Fate pool seq
      → Runs pool seq
  live-Runs pool seq h (runs r) = r
  live-Runs pool seq h (is_gone g) =
      let going : seq.status ≡ decoding = decoding_of seq.status (ground arith) in
      cc (g.over, going)

  module _ (engine : Engine V L) (sample : SamplingParams → L → ℕ) (late : ℕ → Bool) where
    mark-Runs :
        (pool : Option BlockPool) (seq : Sequence V L) → Runs pool seq → Runs pool (mark late seq)
    mark-Runs pool seq r = record {
      granted = r.granted;
      going = r.going;
      opened = mark-IsOpen late seq r.opened;
    }

    mark-Fate :
        (pool : Option BlockPool) (seq : Sequence V L) → Fate pool seq → Fate pool (mark late seq)
    mark-Fate pool seq (runs r) = runs (mark-Runs pool seq r)
    mark-Fate pool seq (is_gone g) = is_gone (record {
      unallocated = g.unallocated;
      over = g.over;
      signalled = g.signalled;
      told = g.told;
    })

    marked_alone :
        (seq : Sequence V L) (sched : Scheduler V L)
        → Books sched
        → Fate sched.pool seq
        → Stepped sched seq.id (mark late seq, sched)
    marked_alone seq sched s f = record {
      books = s;
      queue = refl;
      max_batch = refl;
      same_id = refl;
      others = λ i _. refl;
      presence = refl;
      fate = mark-Fate sched.pool seq f;
    }

    row-Stepped :
        (l : L) (c : Cache V) (seq : Sequence V L) (sched : Scheduler V L)
        → Books sched
        → Fate sched.pool seq
        → Stepped sched seq.id (
            if is_live seq
            then decode_row engine sample l c (mark late seq) sched
            else (mark late seq, sched))
    row-Stepped l c seq sched s f =
        if_ind (Stepped sched seq.id) (is_live seq)
          (λ live.
            let r = mark-Runs sched.pool seq (live-Runs sched.pool seq live f) in
            Settled-Stepped sched seq.id (decode_row engine sample l c (mark late seq) sched) (
              decode_row-Settled engine sample late l c (mark late seq) sched s r.granted r.opened
                r.going))
          (λ _. marked_alone seq sched s f)

    unmoved :
        (seqs : List (Sequence V L)) (sched : Scheduler V L)
        → Books sched
        → All (Fate sched.pool) seqs
        → Swept sched seqs (seqs, sched)
    unmoved seqs sched s all = record {
      books = s;
      queue = refl;
      max_batch = refl;
      same_ids = refl;
      others = λ i _. refl;
      presence = refl;
      fates = all;
    }

    decode_rows-Swept :
        (logits : List L) (caches : List (Cache V)) (seqs : List (Sequence V L))
        (sched : Scheduler V L)
        → Books sched
        → AreDistinct seqs
        → All (Fate sched.pool) seqs
        → Swept sched seqs (decode_rows engine sample late logits caches seqs sched)
    unfolding decode_rows
    decode_rows-Swept [] caches seqs sched s once all = unmoved seqs sched s all
    decode_rows-Swept (l ∷ logits) [] seqs sched s once all = unmoved seqs sched s all
    decode_rows-Swept (l ∷ logits) (c ∷ caches) [] sched s once all = unmoved [] sched s all
    decode_rows-Swept (l ∷ logits) (c ∷ caches) (seq ∷ seqs) sched s once all =
        let done =
          (if is_live seq
            then decode_row engine sample l c (mark late seq) sched
            else (mark late seq, sched)) in
        let a = row-Stepped l c seq sched s all.0 in
        cons-Swept sched seq seqs done _ once a (
          decode_rows-Swept (if is_live seq then logits else l ∷ logits)
            (if is_live seq then caches else c ∷ caches) seqs done.1 a.books
            (tail_distinct seq seqs once)
            (later_stay Fate Fate-stays sched seq.id done seqs a (absent_after seq seqs once)
              all.1))

    decoded-Swept :
        (out : Outcome (List L × List (Cache V))) (seqs : List (Sequence V L))
        (sched : Scheduler V L)
        → Books sched
        → AreDistinct seqs
        → All (Fate sched.pool) seqs
        → Swept sched seqs (decoded engine sample late out seqs sched)
    decoded-Swept (ok (logits, caches)) seqs sched s once all =
        decode_rows-Swept logits caches seqs sched s once all
    decoded-Swept (raised e) seqs sched s once all =
        sweep-Swept Fate Fate-stays _
          (λ seq sched' s' f.
            if_ind (Stepped sched' seq.id) (is_live seq)
              (λ live. Settled-Stepped sched' seq.id (fail_one e (mark late seq) sched') (
                fail_one-Settled sched' sched' seq.id (mark late seq) e (
                  Runs-Midway sched' (mark late seq) s'
                    (mark-Runs sched'.pool seq (live-Runs sched'.pool seq live f)))))
              (λ _. left_alone sched' seq s' f))
          seqs sched s once all

    pub then-Swept :
        (sched : Scheduler V L) (seqs : List (Sequence V L))
        (mid done : List (Sequence V L) × Scheduler V L)
        → Swept sched seqs mid
        → Swept mid.1 mid.0 done
        → Swept sched seqs done
    then-Swept sched seqs mid done m d = record {
      books = d.books;
      queue = d.queue ∙ m.queue;
      max_batch = d.max_batch ∙ m.max_batch;
      same_ids = d.same_ids ∙ m.same_ids;
      others = λ i none_of. d.others i (ap (count i) m.same_ids ∙ none_of) ∙ m.others i none_of;
      presence = d.presence ∙ m.presence;
      fates = d.fates;
    }

    -- `_decode_one_step` on sequences that run and have distinct ids: the same sequences, in order, each
    -- over or running on, also where the engine raises or clients abort; the books, the queue and all
    -- other allocations are kept.
    pub decode_one_step-Swept :
        (seqs : List (Sequence V L)) (sched : Scheduler V L)
        → Books sched
        → AreDistinct seqs
        → All (Runs sched.pool) seqs
        → Swept sched seqs (decode_one_step engine sample late seqs sched)
    unfolding decode_one_step
    decode_one_step-Swept seqs sched s once all =
        let swept = sweep abort_if_wanted seqs sched in
        let first =
          sweep-Swept Runs Runs-stays abort_if_wanted abort_if_wanted-Stepped seqs sched s once
            all in
        let live = keep_if is_live swept.0 in
        let out = engine.decode_batch (last_tokens live) (caches_of live) in
        let distinct : AreDistinct swept.0 =
          λ i. subst (λ l. count i l ≤ 1) (sym first.same_ids) (once i) in
        if_ind (Swept sched seqs) (nat_beq (length live) 0) (λ _. first)
          (λ _.
            then-Swept sched seqs swept (decoded engine sample late out swept.0 swept.1) first
              (decoded-Swept out swept.0 swept.1 first.books distinct first.fates))
