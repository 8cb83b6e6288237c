-- ===== src/Worker/Limits.antt =====
-- Lengths of the lists of sequences of src/flux/engine/worker.py, and what a submission and the shutdown
-- leave of the scheduler's bounds.
use flux_llm_inference_engin.Prelude.{
  ℕ, suc, ◌≤◌, ◌<◌, List, [], ◌∷◌, ◌≡◌, refl, ap, ◌∙◌, subst, Option, none, some, Bool, false,
  arith, if_ind, length, map, count, keep_if, leb, length-append, length-le_of_count, if◌then◌else◌,
}
use flux_llm_inference_engin.Sequence.{Sequence, Status, waiting, aborted}
use flux_llm_inference_engin.Pool.{BlockPool, free}
use flux_llm_inference_engin.Scheduler.{
  remove, remove_from, Scheduler, RequestQueue, Submitted, accepted, refused, queue_full, submit,
  enqueue_checked, too_large, need_tokens, try_enqueue, release_in, pop_one, pop_from,
}
use flux_llm_inference_engin.Scheduler.Limits.{bounds_of}
use flux_llm_inference_engin.Scheduler.Moved.{ids}
use flux_llm_inference_engin.Worker.Shutdown.{abort_one-queue}
use flux_llm_inference_engin.Worker.{
  admin_abort, abort_found, find_sequence, abort_id, client_abort, Worker, sweep, abort_leftovers,
  abort_waiting, abort_one, free_at, release_seq,
}

room_left : (a b : ℕ) → leb a b ≡ false → b < a
room_left a b h = ground arith

module _ {V L : Type 0} where
  pub length-ids : (seqs : List (Sequence V L)) → length (ids seqs) ≡ length seqs
  length-ids [] = refl
  length-ids (seq ∷ seqs) = ap suc (length-ids seqs)

  pub length-map :
      (f : Sequence V L → Sequence V L) (seqs : List (Sequence V L))
      → length (map f seqs) ≡ length seqs
  length-map f [] = refl
  length-map f (seq ∷ seqs) = ap suc (length-map f seqs)

  pub length-keep_if :
      (p : Sequence V L → Bool) (seqs : List (Sequence V L)) → length (keep_if p seqs) ≤ length seqs
  length-keep_if p [] = omega arith
  length-keep_if p (seq ∷ seqs) = ground (arith, length-keep_if p seqs)

  pub shorter :
      (xs ys : List (Sequence V L))
      → ((i : ℕ) → count i (ids xs) ≤ count i (ids ys))
      → length xs ≤ length ys
  shorter xs ys h =
      omega (arith, length-le_of_count (ids xs) (ids ys) h, length-ids xs, length-ids ys)

  checked-bounds :
      (sched after : Scheduler V L) (seq : Sequence V L) (o : Option ℕ)
      → enqueue_checked sched seq o ≡ accepted after
      → (bounds_of after ≡ bounds_of sched)
        × (length after.queue.waiting_list ≤ sched.queue.max_waiting)
  unfolding try_enqueue
  checked-bounds sched after seq (some needed) h = cc
  checked-bounds sched after seq none h =
      if_ind
        (λ (done : RequestQueue V L × Bool).
          (if done.1 then accepted (record sched { queue = done.0 }) else refused queue_full)
            ≡ accepted after
          → (bounds_of after ≡ bounds_of sched)
            × (length after.queue.waiting_list ≤ sched.queue.max_waiting))
        (leb sched.queue.max_waiting (length sched.queue.waiting_list)) (λ _ full. cc)
        (λ room space.
          subst
            (λ s.
              (bounds_of s ≡ bounds_of sched)
              × (length s.queue.waiting_list ≤ sched.queue.max_waiting))
            (ap (put_in sched) space)
            (
              refl,
              omega (
                arith,
                room_left sched.queue.max_waiting (length sched.queue.waiting_list) room,
                length-append sched.queue.waiting_list (record seq { status = waiting } ∷ []),
              ),
            ))
        h
    where
      put_in : Scheduler V L → Submitted V L → Scheduler V L
      put_in old (accepted s) = s
      put_in old (refused e) = old

  pub submit-bounds :
      (sched after : Scheduler V L) (seq : Sequence V L)
      → submit sched seq ≡ accepted after
      → (bounds_of after ≡ bounds_of sched)
        × (length after.queue.waiting_list ≤ sched.queue.max_waiting)
  unfolding submit
  submit-bounds sched after seq h =
      checked-bounds sched after seq (too_large sched.pool (need_tokens sched seq)) h

  bounds-free_at :
      (seq : Sequence V L) (sched : Scheduler V L) (o : Option BlockPool)
      → bounds_of (free_at seq sched o).1 ≡ bounds_of sched
  unfolding free
  bounds-free_at seq sched none = refl
  bounds-free_at seq sched (some pool) = refl

  bounds-abort_one :
      (seq : Sequence V L) (sched : Scheduler V L)
      → bounds_of (abort_one seq sched).1 ≡ bounds_of sched
  unfolding abort_one release_seq
  bounds-abort_one seq sched =
      let mid = release_in seq.prefix_key sched in
      bounds-free_at (record seq { status = aborted }) mid mid.pool

  bounds-pop_from :
      (sched : Scheduler V L) (q : List (Sequence V L))
      → bounds_of (record sched { queue = (pop_from sched.queue q).1 }) ≡ bounds_of sched
  bounds-pop_from sched [] = refl
  bounds-pop_from sched (seq ∷ rest) = refl

  bounds-abort_waiting :
      (q : List (Sequence V L)) (sched : Scheduler V L)
      → bounds_of (abort_waiting q sched).1 ≡ bounds_of sched
  unfolding abort_waiting pop_one
  bounds-abort_waiting [] sched = refl
  bounds-abort_waiting (seq ∷ rest) sched =
      let popped = record sched { queue = (pop_from sched.queue sched.queue.waiting_list).1 } in
      bounds-abort_waiting rest (abort_one seq popped).1
      ∙ bounds-abort_one seq popped
      ∙ bounds-pop_from sched sched.queue.waiting_list

  bounds-sweep :
      (act : Sequence V L → Scheduler V L → Sequence V L × Scheduler V L)
      → ((seq : Sequence V L) (sched : Scheduler V L)
          → bounds_of (act seq sched).1 ≡ bounds_of sched)
      → (seqs : List (Sequence V L)) (sched : Scheduler V L)
      → bounds_of (sweep act seqs sched).1 ≡ bounds_of sched
  unfolding sweep
  bounds-sweep act same [] sched = refl
  bounds-sweep act same (seq ∷ seqs) sched =
      bounds-sweep act same seqs (act seq sched).1 ∙ same seq sched

  pub bounds-abort_leftovers :
      (w : Worker V L) → bounds_of (abort_leftovers w).sched ≡ bounds_of w.sched
  unfolding abort_leftovers
  bounds-abort_leftovers w =
      bounds-sweep (λ seq sched. if seq.finished_event then (seq, sched) else abort_one seq sched)
        (λ seq sched.
          if_ind (λ (done : Sequence V L × Scheduler V L). bounds_of done.1 ≡ bounds_of sched)
            seq.finished_event (λ _. refl) (λ _. bounds-abort_one seq sched))
        w.running (abort_waiting w.sched.queue.waiting_list w.sched).1
      ∙ bounds-abort_waiting w.sched.queue.waiting_list w.sched

  length-remove_from : (id : ℕ) (q : List (Sequence V L)) → length (remove_from id q).0 ≤ length q
  unfolding remove_from
  length-remove_from id [] = omega arith
  length-remove_from id (x ∷ q) = ground (arith, length-remove_from id q)

  -- What the endpoint that aborts leaves of the bounds and of the lists.
  pub admin_abort-bounds :
      (id : ℕ) (w : Worker V L)
      → let after = (admin_abort id w).1 in
        (bounds_of after.sched ≡ bounds_of w.sched)
        × (length after.sched.queue.waiting_list ≤ length w.sched.queue.waiting_list)
        × (length after.admitted ≡ length w.admitted)
        × (length after.running ≡ length w.running)
  unfolding admin_abort remove client_abort
  admin_abort-bounds id w = by_found (find_sequence id w)
    where
      Kept : Option Status × Worker V L → Type 0
      Kept out =
          (bounds_of out.1.sched ≡ bounds_of w.sched)
          × (length out.1.sched.queue.waiting_list ≤ length w.sched.queue.waiting_list)
          × (length out.1.admitted ≡ length w.admitted)
          × (length out.1.running ≡ length w.running)

      by_found : (o : Option (Sequence V L)) → Kept (abort_found id o w)
      by_found none = (refl, omega arith, refl, refl)
      by_found (some seq) =
          if_ind Kept (remove_from seq.id w.sched.queue.waiting_list).1
            (λ _.
              let taken = record (w.sched) { queue = (remove w.sched.queue seq).0 } in
              (
                bounds-abort_one seq taken,
                omega (
                  arith,
                  length-remove_from seq.id w.sched.queue.waiting_list,
                  ap (λ (q : RequestQueue V L). length q.waiting_list)
                      (abort_one-queue seq taken).0,
                ),
                refl,
                refl,
              ))
            (λ _. (
              refl,
              omega (arith, length-map (abort_id id) w.sched.queue.waiting_list),
              length-map (abort_id id) w.admitted,
              length-map (abort_id id) w.running,
            ))
