-- ===== src/Scheduler/Life.antt =====
-- Admission by src/flux/engine/scheduler.py leaves alone all that a client sees of a sequence, so that what
-- holds of those who wait holds of those who are admitted and of those who still wait.
use flux_llm_inference_engin.Prelude.{
  ℕ, zero, suc, ◌-◌, List, [], ◌∷◌, ◌≡◌, refl, sym, ◌∙◌, subst, Option, none, some, Bool, true,
  false, if_ind, All, nat_eq, Bool-cases, inl, inr,
}
use mathlib.Core.Option.{some-injective}
use flux_llm_inference_engin.Sequence.{Sequence}
use flux_llm_inference_engin.Sequence.Life.{SameLife, SameLife-refl, SameLife-trans}
use flux_llm_inference_engin.Pool.{BlockPool, allocate}
use flux_llm_inference_engin.Pool.Balance.{allocate-Allocated}
use flux_llm_inference_engin.Prefix.{PrefixHit}
use flux_llm_inference_engin.Scheduler.{
  Scheduler, RequestQueue, Policy, fcfs, memory_fit, lookup_at, allocated, allocate_at,
  try_allocate, apply_hit, hit_blocks, attempt, pop_one, pop_from, push_front, peek_one, first,
  remove, fits, first_fit, fcfs_candidate, fcfs_round, fit_candidate, memory_fit_round, round,
  admit_more, admit_loop, admit,
}
use flux_llm_inference_engin.Scheduler.Books.{lookup_at-queue}
use flux_llm_inference_engin.Scheduler.Admission.{remove_from-All}

module _ {V L : Type 0} where
  apply_hit-SameLife :
      (hit : Option (PrefixHit V L)) (seq : Sequence V L) → SameLife (apply_hit hit seq) seq
  unfolding apply_hit
  apply_hit-SameLife none seq = SameLife-refl seq
  apply_hit-SameLife (some hit) seq = record {
    id = refl;
    prompt_ids = refl;
    sampling = refl;
    output_ids = refl;
    status = refl;
    last_token = refl;
    finish_reason = refl;
    token_queue = refl;
    finished_event = refl;
    abort_requested = refl;
  }

  with_blocks :
      (seq q : Sequence V L) (ids : List ℕ)
      → SameLife seq q
      → SameLife (record seq { block_ids = ids }) q
  with_blocks seq q ids s = record {
    id = s.id;
    prompt_ids = s.prompt_ids;
    sampling = s.sampling;
    output_ids = s.output_ids;
    status = s.status;
    last_token = s.last_token;
    finish_reason = s.finish_reason;
    token_queue = s.token_queue;
    finished_event = s.finished_event;
    abort_requested = s.abort_requested;
  }

  with_owned :
      (seq q : Sequence V L) (ids : List ℕ)
      → SameLife seq q
      → SameLife (record seq { owned_block_ids = ids }) q
  with_owned seq q ids s = record {
    id = s.id;
    prompt_ids = s.prompt_ids;
    sampling = s.sampling;
    output_ids = s.output_ids;
    status = s.status;
    last_token = s.last_token;
    finish_reason = s.finish_reason;
    token_queue = s.token_queue;
    finished_event = s.finished_event;
    abort_requested = s.abort_requested;
  }

  allocated-SameLife :
      (sched : Scheduler V L) (seq : Sequence V L) (hit : Option (PrefixHit V L)) (pool : BlockPool)
      (n : ℕ) (o : Option (List ℕ × BlockPool × Sequence V L))
      → allocate pool seq n ≡ o
      → let done = allocated sched seq hit o in
        SameLife done.2 seq × (done.1.queue ≡ sched.queue) × (done.0 ≡ false → done.2 ≡ seq)
  allocated-SameLife sched seq hit pool n none e = (SameLife-refl seq, refl, λ _. refl)
  allocated-SameLife sched seq hit pool n (some (ids, pool', seq')) e =
      let a = allocate-Allocated pool seq n e in
      let life : SameLife seq' seq =
        subst (λ (q : Sequence V L). SameLife q seq) (sym a.sequence)
          (with_blocks seq seq ids (SameLife-refl seq)) in
      let owned = record seq' { owned_block_ids = ids } in
      (
        with_blocks (apply_hit hit owned) seq (hit_blocks hit ids) (
            SameLife-trans (apply_hit hit owned) owned seq (apply_hit-SameLife hit owned)
              (with_owned seq' seq ids life)),
        refl,
        λ h. cc,
      )

  allocate_at-SameLife :
      (sched : Scheduler V L) (seq : Sequence V L) (hit : Option (PrefixHit V L))
      (o : Option BlockPool)
      → let done = allocate_at sched seq hit o in
        SameLife done.2 seq × (done.1.queue ≡ sched.queue) × (done.0 ≡ false → done.2 ≡ seq)
  allocate_at-SameLife sched seq hit none = (apply_hit-SameLife hit seq, refl, λ h. cc)
  allocate_at-SameLife sched seq hit (some pool) = allocated-SameLife sched seq hit pool _ _ refl

  -- `_try_allocate` leaves the waiting queue alone, of the sequence all that a client sees, and where it
  -- fails the whole sequence.
  pub try_allocate-SameLife :
      (now : ℕ) (sched : Scheduler V L) (seq : Sequence V L)
      → let done = try_allocate now sched seq in
        SameLife done.2 seq × (done.1.queue ≡ sched.queue) × (done.0 ≡ false → done.2 ≡ seq)
  unfolding try_allocate
  try_allocate-SameLife now sched seq =
      let looked = lookup_at now seq.prompt_ids sched sched.prefix_cache in
      let at = allocate_at-SameLife looked.1 seq looked.0 looked.1.pool in
      (at.0, at.1 ∙ lookup_at-queue now seq.prompt_ids sched sched.prefix_cache, at.2)

  module _ (Q P : Sequence V L → Type 0)
      (granted : (seq' seq : Sequence V L) → SameLife seq' seq → Q seq → P seq') where
    -- Those admitted all have the one property, and those who still wait the other.
    abbrev pub Kept : List (Sequence V L) × Scheduler V L → Type 0
    Kept done = All P done.0 × All Q done.1.queue.waiting_list

    abbrev pub KeptOne : Option (Sequence V L) × Scheduler V L → Type 0
    KeptOne (none, sched) = All Q sched.queue.waiting_list
    KeptOne (some seq, sched) = P seq × All Q sched.queue.waiting_list

    attempt-KeptOne :
        (seq : Sequence V L) (taken : Scheduler V L) (done : Bool × Scheduler V L × Sequence V L)
        → SameLife done.2 seq × (done.1.queue ≡ taken.queue) × (done.0 ≡ false → done.2 ≡ seq)
        → Q seq
        → All Q taken.queue.waiting_list
        → KeptOne (attempt done)
    unfolding push_front
    attempt-KeptOne seq taken (true, sched', seq') s q all = (
      granted seq' seq s.0 q,
      subst (λ (queue : RequestQueue V L). All Q queue.waiting_list) (sym s.1) all,
    )
    attempt-KeptOne seq taken (false, sched', seq') s q all = (
      subst Q (sym (s.2 refl)) q,
      subst (λ (queue : RequestQueue V L). All Q queue.waiting_list) (sym s.1) all,
    )

    popped-kept :
        (queue : RequestQueue V L) (q : List (Sequence V L)) (seq : Sequence V L)
        → first q ≡ some seq
        → All Q q
        → Q seq × All Q (pop_from queue q).1.waiting_list
    popped-kept queue [] seq h all = cc
    popped-kept queue (x ∷ q) seq h all = (subst Q (some-injective x seq h) all.0, all.1)

    fcfs_candidate-KeptOne :
        (now : ℕ) (sched : Scheduler V L) (o : Option (Sequence V L))
        → first sched.queue.waiting_list ≡ o
        → All Q sched.queue.waiting_list
        → KeptOne (fcfs_candidate now sched o)
    unfolding pop_one
    fcfs_candidate-KeptOne now sched none e all = all
    fcfs_candidate-KeptOne now sched (some seq) e all =
        let taken = record sched { queue = (pop_one sched.queue).1 } in
        let p = popped-kept sched.queue sched.queue.waiting_list seq e all in
        if_ind KeptOne (fits sched seq)
          (λ _.
            attempt-KeptOne seq taken (try_allocate now taken seq)
              (try_allocate-SameLife now taken seq) p.0 p.1)
          (λ _. all)

    first_fit-kept :
        (sched : Scheduler V L) (q : List (Sequence V L)) (seq : Sequence V L)
        → first_fit sched q ≡ some seq
        → All Q q
        → Q seq
    first_fit-kept sched [] seq h all = cc
    first_fit-kept sched (x ∷ q) seq h all = elim (Bool-cases (fits sched x)) [
      | inl good ↦ subst Q (some-injective x seq (sym (rw good refl) ∙ h)) all.0
      | inr bad ↦ first_fit-kept sched q seq (sym (rw bad refl) ∙ h) all.1
    ]

    fit_candidate-KeptOne :
        (now : ℕ) (sched : Scheduler V L) (o : Option (Sequence V L))
        → first_fit sched sched.queue.waiting_list ≡ o
        → All Q sched.queue.waiting_list
        → KeptOne (fit_candidate now sched o)
    unfolding remove
    fit_candidate-KeptOne now sched none e all = all
    fit_candidate-KeptOne now sched (some seq) e all =
        let taken = record sched { queue = (remove sched.queue seq).0 } in
        attempt-KeptOne seq taken (try_allocate now taken seq) (try_allocate-SameLife now taken seq)
          (first_fit-kept sched sched.queue.waiting_list seq e all)
          (remove_from-All Q seq.id sched.queue.waiting_list all)

    round-KeptOne :
        (now : ℕ) (policy : Policy) (sched : Scheduler V L)
        → All Q sched.queue.waiting_list
        → KeptOne (round now policy sched)
    unfolding fcfs_round memory_fit_round
    round-KeptOne now fcfs sched all =
        fcfs_candidate-KeptOne now sched (peek_one sched.queue) refl all
    round-KeptOne now memory_fit sched all =
        fit_candidate-KeptOne now sched (first_fit sched sched.queue.waiting_list) refl all

    waiting-kept :
        (out : Option (Sequence V L) × Scheduler V L) → KeptOne out → All Q out.1.queue.waiting_list
    waiting-kept (none, sched) k = k
    waiting-kept (some seq, sched) k = k.1

    more-Kept :
        (out : Option (Sequence V L) × Scheduler V L) (rest : List (Sequence V L) × Scheduler V L)
        → KeptOne out
        → Kept rest
        → Kept (admit_more out.0 out.1 rest)
    more-Kept (none, sched) rest k r = (tt, k)
    more-Kept (some seq, sched) rest k r = ((k.0, r.0), r.1)

    loop-Kept :
        (now : ℕ) (policy : Policy) (room : ℕ) (sched : Scheduler V L)
        → All Q sched.queue.waiting_list
        → Kept (admit_loop now policy room sched)
    unfolding admit_loop
    loop-Kept now policy zero sched all = (tt, all)
    loop-Kept now policy (suc room) sched all =
        let out = round now policy sched in
        let k = round-KeptOne now policy sched all in
        more-Kept out (admit_loop now policy room out.1) k
          (loop-Kept now policy room out.1 (waiting-kept out k))

    -- `admit`: what holds of all who wait holds of those who still wait, and what follows from it of a
    -- sequence of which a client sees the same holds of those admitted.
    pub admit-Kept :
        (now : ℕ) (sched : Scheduler V L) (running_count : ℕ)
        → All Q sched.queue.waiting_list
        → Kept (admit now sched running_count)
    unfolding admit
    admit-Kept now sched running_count all =
        loop-Kept now sched.policy (sched.max_batch - running_count) sched all
