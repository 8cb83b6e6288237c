-- ===== src/Worker/Admin.antt =====
-- What the endpoint `admin_abort` of src/flux/server/routes_admin.py does to the worker of src/flux/engine/worker.py.
use flux_llm_inference_engin.Prelude.{
  ℕ, ◌+◌, ◌<◌, [], ◌∷◌, ◌++◌, ◌≡◌, refl, ap, ◌∙◌, subst, Option, none, some, Bool, true, false,
  arith, if_ind, map, count, nat_beq_iff, nat_eq,
}
use flux_llm_inference_engin.Sequence.{Sequence, Status, waiting, decoding}
use flux_llm_inference_engin.Scheduler.{remove_from, remove}
use flux_llm_inference_engin.Scheduler.Books.{Unallocated}
use flux_llm_inference_engin.Scheduler.Moved.{ids}
use flux_llm_inference_engin.Worker.{
  Worker, abort_id, client_abort, find_in, find_after, find_sequence, abort_removed, abort_found,
  admin_abort,
}
use flux_llm_inference_engin.Worker.Batch.{Runs}
use flux_llm_inference_engin.Worker.Invariant.{IsSafe, LetGo, Waits}
use flux_llm_inference_engin.Worker.Clients.{client_abort-IsSafe}
use flux_llm_inference_engin.Worker.Removal.{
  removed_there, find_in-All, found_there, kept_absent, find_in-none, done, ends, over_told,
  stepped, moved, same_queue, abort_removed-IsSafe,
}

module _ {V L : Type 0} where
  -- What the endpoint may answer, and what it has done by then. Where it says "waiting", the sequence is
  -- over: it stands in the queue no more, it holds no block, and its client was told of the end. Where
  -- it says "running", the sequence is in the batch and its abort is asked for. It says 404 where the
  -- sequence is neither in the queue nor in the batch.
  pub data Answers (id : ℕ) (w : Worker V L) : Option Status × Worker V L → Type 0 where
    unknown :
        count id (ids w.sched.queue.waiting_list) + count id (ids w.running) ≡ 0
        → Answers id w (none, w)
    ended_at_once :
        (seq : Sequence V L) (after : Worker V L)
        → seq.id ≡ id
        → LetGo seq
        → after.gone ≡ w.gone ++ seq ∷ []
        → count id (ids after.sched.queue.waiting_list) ≡ 0
        → Unallocated after.sched.pool id
        → after.running ≡ w.running
        → Answers id w (some waiting, after)
    asked : 0 < count id (ids w.running) → Answers id w (some decoding, client_abort id w)

  module _ (id : ℕ) (w : Worker V L) (s : IsSafe w) where
    found-Waits :
        (seq : Sequence V L) (o : Option (Sequence V L))
        → find_in id w.sched.queue.waiting_list ≡ o
        → find_after o (find_in id w.running) ≡ some seq
        → (remove_from seq.id w.sched.queue.waiting_list).1 ≡ true
        → Waits seq × (seq.id ≡ id)
    found-Waits seq none e h removed =
        let runs_here = find_in-All (Runs w.sched.pool) id w.running seq s.running h in
        let nowhere = find_in-none id w.sched.queue.waiting_list e in
        let there = removed_there seq.id w.sched.queue.waiting_list removed in
        let moved_id = ap (λ i. count i (ids w.sched.queue.waiting_list)) runs_here.1 in
        absurd (omega (arith, nowhere, there, moved_id))
    found-Waits seq (some first) e h removed =
        find_in-All Waits id w.sched.queue.waiting_list seq s.waiting (e ∙ h)

    found_runs :
        (seq : Sequence V L) (o : Option (Sequence V L))
        → find_in id w.sched.queue.waiting_list ≡ o
        → find_after o (find_in id w.running) ≡ some seq
        → (remove_from seq.id w.sched.queue.waiting_list).1 ≡ false
        → 0 < count id (ids w.running)
    found_runs seq none e h kept_all = found_there id w.running seq h
    found_runs seq (some first) e h kept_all =
        let at = find_in-All Waits id w.sched.queue.waiting_list seq s.waiting (e ∙ h) in
        let present_there = found_there id w.sched.queue.waiting_list seq (e ∙ h) in
        let absent = kept_absent seq.id w.sched.queue.waiting_list kept_all in
        let same = ap (λ i. count i (ids w.sched.queue.waiting_list)) at.1 in
        absurd (omega (arith, present_there, absent, same))

    removed-Answers :
        (seq : Sequence V L) (event : Bool)
        → (remove_from seq.id w.sched.queue.waiting_list).1 ≡ true
        → Waits seq
        → seq.id ≡ id
        → let queue = record (w.sched.queue) {
          waiting_list = (remove_from seq.id w.sched.queue.waiting_list).0;
          event = event;
        } in
          Answers id w (some waiting, abort_removed seq queue w)
          × IsSafe (abort_removed seq queue w)
    removed-Answers seq event removed a same =
        let there = removed_there seq.id w.sched.queue.waiting_list removed in
        let safe = abort_removed-IsSafe seq w s there a event in
        let done = done seq w s there a event in
        let let_go = ends seq w s there a event in
        let left_queue = ap (λ q. count seq.id (ids q)) (same_queue seq w s there a event) in
        let gone_now = moved seq w s there a event seq.id in
        let none_left : count seq.id (ids done.1.queue.waiting_list) ≡ 0 =
          ground (arith, left_queue, gone_now, s.one_place seq.id, nat_beq_iff seq.id seq.id) in
        (
          ended_at_once done.0 (record w { sched = done.1; gone = w.gone ++ done.0 ∷ [] })
              ((stepped seq w s there a event).same_id ∙ same)
              (record {
                over = let_go.over;
                signalled = let_go.signalled;
                told = over_told seq w s there a event;
              })
              refl (subst (λ i. count i (ids done.1.queue.waiting_list) ≡ 0) same none_left)
              (subst (Unallocated done.1.pool) same let_go.frees.unallocated) refl,
          safe,
        )

    found-Answers :
        (o : Option (Sequence V L))
        → find_sequence id w ≡ o
        → Answers id w (abort_found id o w) × IsSafe (abort_found id o w).1
    unfolding find_sequence remove
    found-Answers none e = (unknown (absent_both (find_in id w.sched.queue.waiting_list) refl e), s)
      where
        absent_both :
            (o : Option (Sequence V L))
            → find_in id w.sched.queue.waiting_list ≡ o
            → find_after o (find_in id w.running) ≡ none
            → count id (ids w.sched.queue.waiting_list) + count id (ids w.running) ≡ 0
        absent_both none e h =
            omega (arith, find_in-none id w.sched.queue.waiting_list e, find_in-none id w.running h)
        absent_both (some seq) e h = cc
    found-Answers (some seq) e =
        if_ind (λ (out : Option Status × Worker V L). Answers id w out × IsSafe out.1)
          (remove_from seq.id w.sched.queue.waiting_list).1
          (λ removed.
            let a = found-Waits seq (find_in id w.sched.queue.waiting_list) refl e removed in
            removed-Answers seq _ removed a.0 a.1)
          (λ kept_all. (
            asked (found_runs seq (find_in id w.sched.queue.waiting_list) refl e kept_all),
            client_abort-IsSafe id w s,
          ))

    -- `admin_abort`, on a worker that is safe: what it answers is true, and the worker stays safe.
    pub admin_abort-Answers : Answers id w (admin_abort id w) × IsSafe (admin_abort id w).1
    unfolding admin_abort
    admin_abort-Answers = found-Answers (find_sequence id w) refl

  -- The endpoint leaves the phase of the loop, and nobody is admitted by it.
  pub admin_abort-phase :
      (id : ℕ) (w : Worker V L)
      → ((admin_abort id w).1.phase ≡ w.phase)
        × (w.admitted ≡ [] → (admin_abort id w).1.admitted ≡ [])
  unfolding admin_abort remove client_abort
  admin_abort-phase id w = by_found (find_sequence id w)
    where
      by_found :
          (o : Option (Sequence V L))
          → ((abort_found id o w).1.phase ≡ w.phase)
            × (w.admitted ≡ [] → (abort_found id o w).1.admitted ≡ [])
      by_found none = (refl, λ h. h)
      by_found (some seq) =
          if_ind
            (λ (out : Option Status × Worker V L).
              (out.1.phase ≡ w.phase) × (w.admitted ≡ [] → out.1.admitted ≡ []))
            (remove_from seq.id w.sched.queue.waiting_list).1 (λ _. (refl, λ h. h))
            (λ _. (refl, λ h. ap (map (abort_id id)) h))
