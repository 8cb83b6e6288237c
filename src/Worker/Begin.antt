-- ===== src/Worker/Begin.antt =====
-- The start of an iteration of `ContinuousWorker.run` in src/flux/engine/worker.py, `_drop_aborted` and `admit`,
-- keeps the worker safe.
use flux_llm_inference_engin.Prelude.{
  ℕ, ◌+◌, ◌<◌, List, [], ◌∷◌, ◌≡◌, ◌⊎◌, refl, sym, ap, ◌∙◌, subst, Option, none, some, true, false,
  not, arith, if_ind, length, count, All, All-both, keep_if, nat_beq, nat_beq_iff, nat_eq,
  Bool-cases, inl, inr,
}
use flux_llm_inference_engin.Sequence.{Sequence, decoding, aborted}
use flux_llm_inference_engin.Sequence.Life.{SameLife}
use flux_llm_inference_engin.Pool.{BlockPool, free, alloc_at, holds, present}
use flux_llm_inference_engin.Pool.Balance.{Granted}
use flux_llm_inference_engin.Scheduler.{Scheduler, RequestQueue, admit, release_in}
use flux_llm_inference_engin.Scheduler.Books.{Unallocated}
use flux_llm_inference_engin.Scheduler.Moved.{ids, IsReady, Moves}
use flux_llm_inference_engin.Scheduler.Admission.{admit-Moves}
use flux_llm_inference_engin.Scheduler.Life.{Kept, admit-Kept}
use flux_llm_inference_engin.Worker.{
  Worker, begin, sweep, abort_if_wanted, abort_one, free_at, release_seq, wants_abort, is_aborted,
  is_over,
}
use flux_llm_inference_engin.Worker.Tokens.{IsOpen, IsOpen-SameLife}
use flux_llm_inference_engin.Worker.Batch.{Runs, IsOver, Fate, runs, is_gone, Runs-stays, Swept}
use flux_llm_inference_engin.Worker.Decode.{sweep-Swept, abort_if_wanted-Stepped}
use flux_llm_inference_engin.Worker.Iteration.{parted}
use flux_llm_inference_engin.Worker.Invariant.{
  IsSafe, LetGo, Waits, All-append, count-ids-append, over_holds, over-LetGo,
}

module _ {V L : Type 0} where
  -- What the abort of those who want it says of a sequence: aborted now, or not wanting it and not over.
  abbrev Sorted : Sequence V L → Type 0
  Sorted seq =
      (is_aborted seq.status ≡ true) ⊎ ((wants_abort seq ≡ false) × (is_over seq.status ≡ false))

  waits-IsOpen : (seq' seq : Sequence V L) → SameLife seq' seq → Waits seq → IsOpen seq'
  waits-IsOpen seq' seq life a = IsOpen-SameLife seq' seq life a.opened

  status_free_at :
      (seq : Sequence V L) (sched : Scheduler V L) (o : Option BlockPool)
      → (free_at seq sched o).0.status ≡ seq.status
  unfolding free
  status_free_at seq sched none = refl
  status_free_at seq sched (some pool) = refl

  abort_one-status :
      (seq : Sequence V L) (sched : Scheduler V L)
      → is_aborted (abort_one seq sched).0.status ≡ true
  unfolding abort_one release_seq
  abort_one-status seq sched =
      let mid = release_in seq.prefix_key sched in
      ap is_aborted (status_free_at (record seq { status = aborted }) mid mid.pool)

  abort_if_wanted-Sorted :
      (seq : Sequence V L) (sched : Scheduler V L)
      → seq.status ≡ decoding
      → Sorted (abort_if_wanted seq sched).0
  abort_if_wanted-Sorted seq sched going =
      if_ind (λ (done : Sequence V L × Scheduler V L). Sorted done.0) (wants_abort seq)
        (λ _. inl (abort_one-status seq sched)) (λ unwanted. inr (unwanted, ap is_over going))

  sweep-Sorted :
      (pool : Option BlockPool) (seqs : List (Sequence V L)) (sched : Scheduler V L)
      → All (Runs pool) seqs
      → All Sorted (sweep abort_if_wanted seqs sched).0
  unfolding sweep
  sweep-Sorted pool [] sched all = tt
  sweep-Sorted pool (seq ∷ seqs) sched (r, all) = (
    abort_if_wanted-Sorted seq sched r.going,
    sweep-Sorted pool seqs (abort_if_wanted seq sched).1 all,
  )

  kept-Runs :
      (pool : Option BlockPool) (seqs : List (Sequence V L))
      → All (Fate pool) seqs
      → All Sorted seqs
      → All (Runs pool) (keep_if (λ seq. not (wants_abort seq)) seqs)
  kept-Runs pool [] all sorted = tt
  kept-Runs pool (seq ∷ seqs) (runs r, all) (o, sorted) =
      if_ind (All (Runs pool)) (not (wants_abort seq)) (λ _. (r, kept-Runs pool seqs all sorted))
        (λ _. kept-Runs pool seqs all sorted)
  kept-Runs pool (seq ∷ seqs) (is_gone g, all) (inl was_aborted, sorted) =
      if_ind (All (Runs pool)) (not (wants_abort seq)) (λ h. absurd (ground (arith, was_aborted)))
        (λ _. kept-Runs pool seqs all sorted)
  kept-Runs pool (seq ∷ seqs) (is_gone g, all) (inr o, sorted) = cc (g.over, o.1)

  dropped-IsOver :
      (pool : Option BlockPool) (seqs : List (Sequence V L))
      → All (Fate pool) seqs
      → All Sorted seqs
      → All (IsOver pool) (keep_if wants_abort seqs)
  dropped-IsOver pool [] all sorted = tt
  dropped-IsOver pool (seq ∷ seqs) (is_gone g, all) (o, sorted) =
      if_ind (All (IsOver pool)) (wants_abort seq) (λ _. (g, dropped-IsOver pool seqs all sorted))
        (λ _. dropped-IsOver pool seqs all sorted)
  dropped-IsOver pool (seq ∷ seqs) (runs r, all) (inl was_aborted, sorted) =
      cc (was_aborted, ap is_aborted r.going)
  dropped-IsOver pool (seq ∷ seqs) (runs r, all) (inr o, sorted) =
      if_ind (All (IsOver pool)) (wants_abort seq) (λ h. cc (h, o.0))
        (λ _. dropped-IsOver pool seqs all sorted)

  -- What holds of every id of a list holds of its sequences.
  All-ids :
      (P : ℕ → Type 0) (xs : List (Sequence V L))
      → ((i : ℕ) → 0 < count i (ids xs) → P i)
      → All (λ (x : Sequence V L). P x.id) xs
  All-ids P [] h = tt
  All-ids P (x ∷ xs) h = (
    h x.id (ground (arith, nat_beq_iff x.id x.id)),
    All-ids P xs (λ i there. h i (omega (arith, there))),
  )

  kept_stay :
      (pool pool' : Option BlockPool) (xs : List (Sequence V L))
      → present (alloc_at pool') ≡ present (alloc_at pool)
      → All (λ (x : Sequence V L). holds x.id (alloc_at pool') ≡ holds x.id (alloc_at pool)) xs
      → All (Runs pool) xs
      → All (Runs pool') xs
  kept_stay pool pool' [] p h all = tt
  kept_stay pool pool' (x ∷ xs) p h all =
      (Runs-stays pool pool' x p h.0 all.0, kept_stay pool pool' xs p h.1 all.1)

  module _ (now : ℕ) (w : Worker V L) (none_admitted : w.admitted ≡ []) (s : IsSafe w) where
    abbrev pub swept : List (Sequence V L) × Scheduler V L
    swept = sweep abort_if_wanted w.running w.sched

    abbrev pub kept : List (Sequence V L)
    kept = keep_if (λ seq. not (wants_abort seq)) swept.0

    abbrev pub dropped : List (Sequence V L)
    dropped = keep_if wants_abort swept.0

    abbrev pub out : List (Sequence V L) × Scheduler V L
    out = admit now swept.1 (length kept)

    pub swept-Swept : Swept w.sched w.running swept
    swept-Swept =
        sweep-Swept Runs Runs-stays abort_if_wanted abort_if_wanted-Stepped w.running w.sched
          s.books (λ i. omega (arith, s.one_place i)) s.running

    same_queue : swept.1.queue.waiting_list ≡ w.sched.queue.waiting_list
    same_queue = ap (λ (q : RequestQueue V L). q.waiting_list) swept-Swept.queue

    whole : (i : ℕ) → count i (ids kept) + count i (ids dropped) ≡ count i (ids w.running)
    whole i = omega (arith, parted wants_abort i swept.0, ap (count i) swept-Swept.same_ids)

    none_there : (i : ℕ) → count i (ids w.admitted) ≡ 0
    none_there i = ap (λ l. count i (ids l)) none_admitted

    swept-IsReady : IsReady swept.1
    swept-IsReady = record {
      books = swept-Swept.books;
      once = λ i. omega (arith, s.one_place i, ap (λ l. count i (ids l)) same_queue);
      unallocated =
          subst (All (λ (q : Sequence V L). Unallocated swept.1.pool q.id)) (sym same_queue) (
            All-ids (Unallocated swept.1.pool) w.sched.queue.waiting_list λ i waits.
              swept-Swept.others i (omega (arith, waits, s.one_place i))
              ∙ s.only i (omega (arith, waits, s.one_place i)));
    }

    pub out-Moves : Moves swept.1 (ids out.0) out.1
    out-Moves = admit-Moves now swept.1 (length kept) swept-IsReady

    pub moved :
        (i : ℕ)
        → count i (ids out.0) + count i (ids out.1.queue.waiting_list)
          ≡ count i (ids w.sched.queue.waiting_list)
    moved i = out-Moves.moved i ∙ ap (λ l. count i (ids l)) same_queue

    opened-Kept : Kept Waits IsOpen waits-IsOpen out
    opened-Kept =
        admit-Kept Waits IsOpen waits-IsOpen now swept.1 (length kept)
          (subst (All Waits) (sym same_queue) s.waiting)

    still-Runs : All (Runs out.1.pool) kept
    still-Runs =
        kept_stay swept.1.pool out.1.pool kept out-Moves.presence
          (All-ids (λ i. holds i (alloc_at out.1.pool) ≡ holds i (alloc_at swept.1.pool)) kept
            λ i there. out-Moves.others i (omega (arith, there, whole i, moved i, s.one_place i)))
          (kept-Runs swept.1.pool swept.0 swept-Swept.fates
            (sweep-Sorted w.sched.pool w.running w.sched s.running))

    parted-IsOver : All (IsOver swept.1.pool) dropped
    parted-IsOver =
        dropped-IsOver swept.1.pool swept.0 swept-Swept.fates
          (sweep-Sorted w.sched.pool w.running w.sched s.running)

    only_new : (i : ℕ) → count i (ids out.0) + count i (ids kept) ≡ 0 → Unallocated out.1.pool i
    only_new i nowhere =
        out-Moves.others i (omega (arith, nowhere))
        ∙ elim (Bool-cases (nat_beq (count i (ids dropped)) 0)) [
          | inl not_there ↦
              let absent : count i (ids w.running) ≡ 0 =
                ground (arith, whole i, nowhere, not_there) in
              swept-Swept.others i absent ∙ s.only i (omega (arith, absent, none_there i))
          | inr there ↦ over_holds swept.1.pool i dropped parted-IsOver (ground (arith, there))
        ]

    -- From the top of the loop, where nobody is admitted yet, to the first prefill, the worker stays
    -- safe.
    pub begin-IsSafe : IsSafe (begin now w)
    unfolding begin
    begin-IsSafe = record {
      books = out-Moves.ready.books;
      one_place = λ i.
          omega (
            arith,
            s.one_place i,
            none_there i,
            whole i,
            moved i,
            count-ids-append i w.gone dropped,
          );
      waiting = opened-Kept.1;
      admitted =
          All-both (λ (x : Sequence V L). Granted out.1.pool x.id) IsOpen out.0
            (All-ids (Granted out.1.pool) out.0 out-Moves.granted) opened-Kept.0;
      running = still-Runs;
      gone = All-append LetGo w.gone dropped s.gone (over-LetGo swept.1.pool dropped parted-IsOver);
      only = only_new;
    }
