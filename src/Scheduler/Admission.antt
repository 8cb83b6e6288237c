-- ===== src/Scheduler/Admission.antt =====
-- The admission loops of src/flux/engine/scheduler.py: what one round and a whole `admit` do to the
-- books, the waiting queue and the allocations, under either policy.
use mathlib.Core.Option.{some-injective}
use flux_llm_inference_engin.Prelude.{
  ℕ, zero, suc, ◌-◌, ◌<◌, List, [], ◌∷◌, ◌++◌, ◌≡◌, refl, sym, subst, ◌∙◌, ap, Option, none, some,
  Bool, arith, All, if_ind, nat_beq, nat_beq_iff, count, count-append, nat_eq,
}
use native.Mathlib.Decide.{ℕ_discrete}
use flux_llm_inference_engin.Sequence.{Sequence}
use flux_llm_inference_engin.Pool.{BlockPool}
use flux_llm_inference_engin.Pool.Balance.{Granted-stays}
use flux_llm_inference_engin.Scheduler.{
  Scheduler, Policy, fcfs, memory_fit, remove_from, remove, pop_one, pop_from, peek_one, first,
  fits, first_fit, try_allocate, fcfs_candidate, fcfs_round, fit_candidate, memory_fit_round, round,
  admit_loop, admit_more, admit,
}
use flux_llm_inference_engin.Scheduler.Books.{Unallocated, try_allocate-Allocates}
use flux_llm_inference_engin.Scheduler.Moved.{
  ids, admitted_ids, IsReady, Moves, Taken, attempt-Moves,
}

module _ {V L : Type 0} where
  stay : (sched : Scheduler V L) → IsReady sched → Moves sched [] sched
  stay sched r = record {
    ready = r;
    moved = λ id. omega arith;
    others = λ id _. refl;
    presence = refl;
    granted = λ id out. absurd (omega arith);
  }

  pub pop-Taken :
      (sched : Scheduler V L) (seq : Sequence V L) (q : List (Sequence V L))
      → sched.queue.waiting_list ≡ q
      → first q ≡ some seq
      → IsReady sched
      → Taken sched seq (pop_from sched.queue q).1.waiting_list
  pop-Taken sched seq [] e h r = cc
  pop-Taken sched seq (x ∷ rest) e h r =
      let all : All (λ (q : Sequence V L). Unallocated sched.pool q.id) (x ∷ rest) =
        subst (All (λ (q : Sequence V L). Unallocated sched.pool q.id)) e r.unallocated in
      let here : x ≡ seq = some-injective x seq h in
      record {
        unallocated = subst (λ (q : Sequence V L). Unallocated sched.pool q.id) here all.0;
        others = all.1;
        moved = λ id.
            ap (λ (q : Sequence V L). count id (q.id ∷ ids rest)) (sym here)
            ∙ ap (λ qs. count id (ids qs)) (sym e);
      }

  fcfs_candidate-Moves :
      (now : ℕ) (sched : Scheduler V L) (o : Option (Sequence V L))
      → peek_one sched.queue ≡ o
      → IsReady sched
      → let done = fcfs_candidate now sched o in Moves sched (admitted_ids done.0) done.1
  unfolding pop_one
  fcfs_candidate-Moves now sched none e r = stay sched r
  fcfs_candidate-Moves now sched (some seq) e r =
      let taken = record sched { queue = (pop_one sched.queue).1 } in
      let t = pop-Taken sched seq sched.queue.waiting_list refl e r in
      if_ind
        (λ (done : Option (Sequence V L) × Scheduler V L). Moves sched (admitted_ids done.0) done.1)
        (fits sched seq)
        (λ _.
          attempt-Moves sched taken seq (try_allocate now taken seq) r t refl
            (try_allocate-Allocates now taken seq r.books t.unallocated))
        (λ _. stay sched r)

  first_fit_known :
      (sched : Scheduler V L) (pool : Option BlockPool) (q : List (Sequence V L))
      (seq : Sequence V L)
      → first_fit sched q ≡ some seq
      → All (λ (x : Sequence V L). Unallocated pool x.id) q
      → Unallocated pool seq.id × (0 < count seq.id (ids q))
  first_fit_known sched pool [] seq h all = cc
  first_fit_known sched pool (x ∷ q) seq h all =
      ground (arith, first_fit_known sched pool q seq, nat_beq_iff x.id seq.id)

  pub remove_from-count :
      (seq_id id : ℕ) (q : List (Sequence V L))
      → 0 < count seq_id (ids q)
      → count id (seq_id ∷ ids (remove_from seq_id q).0) ≡ count id (ids q)
  unfolding remove_from
  remove_from-count seq_id id [] h = absurd (omega arith)
  remove_from-count seq_id id (x ∷ q) h =
      ground (arith, remove_from-count seq_id id q, nat_beq_iff x.id seq_id)

  pub remove_from-All {ℓ} :
      (P : Sequence V L → Type ℓ) (seq_id : ℕ) (q : List (Sequence V L))
      → All P q
      → All P (remove_from seq_id q).0
  unfolding remove_from
  remove_from-All P seq_id [] all = tt
  remove_from-All P seq_id (x ∷ q) all =
      if_ind (λ (done : List (Sequence V L) × Bool). All P done.0) (nat_beq x.id seq_id)
        (λ _. all.1) (λ _. (all.0, remove_from-All P seq_id q all.1))

  fit_candidate-Moves :
      (now : ℕ) (sched : Scheduler V L) (o : Option (Sequence V L))
      → first_fit sched sched.queue.waiting_list ≡ o
      → IsReady sched
      → let done = fit_candidate now sched o in Moves sched (admitted_ids done.0) done.1
  unfolding remove
  fit_candidate-Moves now sched none e r = stay sched r
  fit_candidate-Moves now sched (some seq) e r =
      let taken = record sched { queue = (remove sched.queue seq).0 } in
      let known = first_fit_known sched sched.pool sched.queue.waiting_list seq e r.unallocated in
      let t : Taken sched seq (remove sched.queue seq).0.waiting_list = record {
        unallocated = known.0;
        others = remove_from-All _ seq.id sched.queue.waiting_list r.unallocated;
        moved = λ id. remove_from-count seq.id id sched.queue.waiting_list known.1;
      } in
      attempt-Moves sched taken seq (try_allocate now taken seq) r t refl
        (try_allocate-Allocates now taken seq r.books known.0)

  pub round-Moves :
      (now : ℕ) (policy : Policy) (sched : Scheduler V L)
      → IsReady sched
      → let done = round now policy sched in Moves sched (admitted_ids done.0) done.1
  unfolding fcfs_round memory_fit_round
  round-Moves now fcfs sched r = fcfs_candidate-Moves now sched (peek_one sched.queue) refl r
  round-Moves now memory_fit sched r = fit_candidate-Moves now sched _ refl r

  Moves-then :
      (sched mid sched' : Scheduler V L) (out more : List ℕ)
      → Moves sched out mid
      → Moves mid more sched'
      → Moves sched (out ++ more) sched'
  Moves-then sched mid sched' out more m n = record {
    ready = n.ready;
    moved = λ id. omega (arith, m.moved id, n.moved id, count-append id out more);
    others = λ id none_out.
        n.others id (omega (arith, count-append id out more))
        ∙ m.others id (omega (arith, count-append id out more));
    presence = n.presence ∙ m.presence;
    granted = λ id some_out. elim (ℕ_discrete (count id more) 0) [
      | yes absent ↦
          Granted-stays mid.pool sched'.pool id n.presence (n.others id absent)
            (m.granted id (omega (arith, count-append id out more)))
      | no present_there ↦ n.granted id (omega arith)
    ];
  }

  admit_more-Moves :
      (sched mid : Scheduler V L) (o : Option (Sequence V L))
      (rest : List (Sequence V L) × Scheduler V L)
      → Moves sched (admitted_ids o) mid
      → Moves mid (ids rest.0) rest.1
      → let done = admit_more o mid rest in Moves sched (ids done.0) done.1
  admit_more-Moves sched mid none rest m n = m
  admit_more-Moves sched mid (some seq) rest m n =
      Moves-then sched mid rest.1 (seq.id ∷ []) (ids rest.0) m n

  admit_loop-Moves :
      (now : ℕ) (policy : Policy) (room : ℕ) (sched : Scheduler V L)
      → IsReady sched
      → let done = admit_loop now policy room sched in Moves sched (ids done.0) done.1
  unfolding admit_loop
  admit_loop-Moves now policy zero sched r = stay sched r
  admit_loop-Moves now policy (suc room) sched r =
      let mid = (round now policy sched).1 in
      let one = round-Moves now policy sched r in
      admit_more-Moves sched mid (round now policy sched).0 (admit_loop now policy room mid) one
        (admit_loop-Moves now policy room mid one.ready)

  -- `admit`, under either policy: it keeps the books and the waiting queue's discipline, each id that
  -- waited is admitted or still waits, those admitted hold blocks, and no other allocation changes.
  pub admit-Moves :
      (now : ℕ) (sched : Scheduler V L) (running_count : ℕ)
      → IsReady sched
      → let done = admit now sched running_count in Moves sched (ids done.0) done.1
  unfolding admit
  admit-Moves now sched running_count r =
      admit_loop-Moves now sched.policy (sched.max_batch - running_count) sched r
