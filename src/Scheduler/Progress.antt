-- ===== src/Scheduler/Progress.antt =====
-- When src/flux/engine/scheduler.py admits: without a prefix cache, under either policy, an accepted
-- sequence that waits first is let in at the latest when no block is in use.
use flux_llm_inference_engin.Prelude.{
  ℕ, zero, suc, ◌-◌, ◌≤◌, ◌<◌, List, ◌∷◌, ◌≡◌, refl, sym, ap, ◌∙◌, subst, Option, none, some, true,
  arith, ltb, nat_beq, if_ind, nat_eq,
}
use flux_llm_inference_engin.Sequence.{Sequence, reservation_tokens}
use flux_llm_inference_engin.Prelude.Dict.{put}
use flux_llm_inference_engin.Pool.{
  BlockPool, blocks_needed, used_blocks, free_blocks, can_allocate, reserve, allocate,
}
use flux_llm_inference_engin.Scheduler.{
  Scheduler, Policy, fcfs, memory_fit, RequestQueue, pop_one, remove, first, fits, fits_at,
  need_tokens, lookup_at, allocate_at, apply_hit, allocated, try_allocate, too_large, attempt,
  first_fit, fcfs_candidate, fit_candidate, fcfs_round, memory_fit_round, round, admit_more,
  admit_loop, admit,
}

module _ {V L : Type 0} where
  -- A round or a call that lets in the sequence with the id, before all others.
  abbrev Lets : ℕ → Option (Sequence V L) × Scheduler V L → Type 0
  Lets id done = (seq : Sequence V L) × (done.0 ≡ some seq) × (seq.id ≡ id)

  abbrev pub LetsFirst : ℕ → List (Sequence V L) → Type 0
  LetsFirst id admitted =
      (seq : Sequence V L) × (rest : List (Sequence V L)) × (admitted ≡ seq ∷ rest) × (seq.id ≡ id)

  need_alone :
      (sched : Scheduler V L) (seq : Sequence V L)
      → sched.prefix_cache ≡ none
      → need_tokens sched seq ≡ reservation_tokens seq
  unfolding need_tokens
  need_alone sched seq no_cache = rw no_cache refl

  module _ (now : ℕ) (seq : Sequence V L) (pool : BlockPool)
      (enough : blocks_needed pool (reservation_tokens seq) ≤ free_blocks pool) where
    some_reserved : (r : List ℕ × BlockPool) × (reserve pool (reservation_tokens seq) none ≡ some r)
    unfolding reserve
    some_reserved =
        if_ind (λ (o : Option (List ℕ × BlockPool)). (r : List ℕ × BlockPool) × (o ≡ some r))
          (nat_beq (blocks_needed pool (reservation_tokens seq)) 0) (λ _. (_, refl))
          (λ _.
            if_ind (λ (o : Option (List ℕ × BlockPool)). (r : List ℕ × BlockPool) × (o ≡ some r))
              (ltb (free_blocks pool) (blocks_needed pool (reservation_tokens seq)))
              (λ few. absurd (ground arith)) (λ _. (_, refl)))

    attempt-Lets :
        (sched : Scheduler V L)
        → Lets seq.id
            (attempt (allocated sched seq none (allocate pool seq (reservation_tokens seq))))
    unfolding allocate apply_hit
    attempt-Lets sched =
        subst
          (λ (o : Option (List ℕ × BlockPool)). Lets seq.id (
            attempt (
              allocated sched seq none (elim o [
                | none ↦ none
                | some (ids, pool') ↦ some (
                  ids,
                  record pool' { alloc = put seq.id ids pool'.alloc },
                  record seq { block_ids = ids },
                )
              ]))))
          (sym some_reserved.1) (_, refl, refl)

    module _ (sched : Scheduler V L) (no_cache : sched.prefix_cache ≡ none)
        (pooled : sched.pool ≡ some pool) where
      try_allocate-Lets :
          (queue : RequestQueue V L)
          → Lets seq.id (attempt (try_allocate now (record sched { queue = queue }) seq))
      unfolding try_allocate
      try_allocate-Lets queue =
          subst
            (λ o. Lets seq.id (
              attempt (
                let (hit, sched') =
                  lookup_at now seq.prompt_ids (record sched { queue = queue }) o in
                allocate_at sched' seq hit sched'.pool)))
            (sym no_cache)
            (subst
              (λ o. Lets seq.id (attempt (allocate_at (record sched { queue = queue }) seq none o)))
              (sym pooled) (attempt-Lets (record sched { queue = queue })))

      seq_fits : fits sched seq ≡ true
      unfolding fits can_allocate
      seq_fits = ap (fits_at sched.pool) (need_alone sched seq no_cache) ∙ rw pooled (ground arith)

      round-Lets :
          (policy : Policy) (rest : List (Sequence V L))
          → sched.queue.waiting_list ≡ seq ∷ rest
          → Lets seq.id (round now policy sched)
      unfolding fcfs_round memory_fit_round
      round-Lets fcfs rest e =
          subst (λ l. Lets seq.id (fcfs_candidate now sched (first l))) (sym e)
            (if_ind (Lets seq.id) (fits sched seq) (λ _. try_allocate-Lets (pop_one sched.queue).1)
              (λ not_fit. absurd (ground (arith, seq_fits, not_fit))))
      round-Lets memory_fit rest e =
          subst (λ l. Lets seq.id (fit_candidate now sched (first_fit sched l))) (sym e)
            (rw seq_fits (try_allocate-Lets (remove sched.queue seq).0))

  more-LetsFirst :
      (id : ℕ) (done : Option (Sequence V L) × Scheduler V L)
      (rest : List (Sequence V L) × Scheduler V L)
      → Lets id done
      → LetsFirst id (admit_more done.0 done.1 rest).0
  more-LetsFirst id (none, mid) rest l = cc l.1
  more-LetsFirst id (some seq, mid) rest l =
      let same : seq ≡ l.0 = cc l.1 in
      (seq, rest.0, refl, ap (λ (s : Sequence V L). s.id) same ∙ l.2)

  -- Without a prefix cache, with room in the batch and no block in use: a sequence that `submit` does not
  -- refuse for its size and that stands first in the queue is the first that `admit` lets in, under either
  -- policy.
  pub admit-LetsFirst :
      (now : ℕ) (sched : Scheduler V L) (running_count : ℕ) (seq : Sequence V L)
      (rest : List (Sequence V L)) (pool : BlockPool)
      → sched.prefix_cache ≡ none
      → sched.pool ≡ some pool
      → too_large sched.pool (need_tokens sched seq) ≡ none
      → used_blocks pool ≡ 0
      → running_count < sched.max_batch
      → sched.queue.waiting_list ≡ seq ∷ rest
      → LetsFirst seq.id (admit now sched running_count).0
  unfolding admit admit_loop need_tokens
  admit-LetsFirst now sched running_count seq rest pool no_cache pooled fine idle room e =
      by_room (sched.max_batch - running_count) (omega arith)
    where
      sized :
          (o : Option BlockPool) (n : ℕ)
          → o ≡ some pool
          → too_large o n ≡ none
          → blocks_needed pool n ≤ pool.num_blocks
      sized none n h t = cc
      sized (some p) n h t =
          let same : p ≡ pool = cc h in
          subst (λ p. blocks_needed p n ≤ p.num_blocks) same (ground arith)

      enough : blocks_needed pool (reservation_tokens seq) ≤ free_blocks pool
      enough = omega (
        arith,
        idle,
        subst (λ n. blocks_needed pool n ≤ pool.num_blocks) (need_alone sched seq no_cache)
            (sized sched.pool (need_tokens sched seq) pooled fine),
      )

      by_room : (n : ℕ) → 0 < n → LetsFirst seq.id (admit_loop now sched.policy n sched).0
      by_room zero some_room = absurd (omega arith)
      by_room (suc n) some_room =
          more-LetsFirst seq.id (round now sched.policy sched) _
            (round-Lets now seq pool enough sched no_cache pooled sched.policy rest e)
