-- ===== src/Worker/Clients.antt =====
-- What the clients of src/flux/engine/worker.py may do at any time, a new request and an abort, keeps the
-- worker safe.
use flux_llm_inference_engin.Prelude.{
  ℕ, ◌<◌, List, [], ◌∷◌, ◌++◌, ◌≡◌, refl, sym, ap, ◌∙◌, subst, Option, none, some, Bool, true,
  arith, if_ind, if◌then◌else◌, length, map, count, All, nat_beq, nat_beq_iff, nat_eq, Bool-cases,
  inl, inr, leb,
}
use flux_llm_inference_engin.Sequence.{Sequence, SamplingParams, waiting, new}
use flux_llm_inference_engin.Pool.{BlockPool}
use flux_llm_inference_engin.Scheduler.{
  Scheduler, RequestQueue, Submitted, accepted, refused, queue_full, submit, enqueue_checked,
  too_large, need_tokens, try_enqueue,
}
use flux_llm_inference_engin.Scheduler.Moved.{ids}
use flux_llm_inference_engin.Worker.{Worker, abort_id, client_abort, seqs_of}
use flux_llm_inference_engin.Worker.Batch.{Runs}
use flux_llm_inference_engin.Worker.Invariant.{
  IsSafe, LetGo, Waits, Admitted, places_of, All-append, count-ids-append,
}

module _ {V L : Type 0} where
  -- The queue with a sequence more.
  abbrev pub enqueued : RequestQueue V L → Sequence V L → RequestQueue V L
  enqueued queue seq = record queue {
    waiting_list = queue.waiting_list ++ record seq { status = waiting } ∷ [];
    event = true;
  }

  abbrev with_queue : (sched : Scheduler V L) (r : Submitted V L) → Scheduler V L
  with_queue sched (accepted s) = s
  with_queue sched (refused e) = sched

  checked-accepted :
      (sched after : Scheduler V L) (seq : Sequence V L) (o : Option ℕ)
      → enqueue_checked sched seq o ≡ accepted after
      → after ≡ record sched { queue = enqueued sched.queue seq }
  unfolding try_enqueue
  checked-accepted sched after seq (some needed) h = cc
  checked-accepted sched after seq none h =
      if_ind
        (λ (out : RequestQueue V L × Bool).
          (if out.1 then accepted (record sched { queue = out.0 }) else refused queue_full)
            ≡ accepted after
          → after ≡ record sched { queue = enqueued sched.queue seq })
        (leb sched.queue.max_waiting (length sched.queue.waiting_list)) (λ _ full. cc)
        (λ _ space. ap (with_queue sched) (sym space)) h

  -- `submit`, where it does not raise, puts the sequence at the end of the queue and changes nothing
  -- else.
  pub submit-accepted :
      (sched after : Scheduler V L) (seq : Sequence V L)
      → submit sched seq ≡ accepted after
      → after ≡ record sched { queue = enqueued sched.queue seq }
  unfolding submit
  submit-accepted sched after seq h =
      checked-accepted sched after seq (too_large sched.pool (need_tokens sched seq)) h

  count-ids-map :
      (i : ℕ) (f : Sequence V L → Sequence V L) (xs : List (Sequence V L))
      → ((x : Sequence V L) → (f x).id ≡ x.id)
      → count i (ids (map f xs)) ≡ count i (ids xs)
  count-ids-map i f [] same = refl
  count-ids-map i f (x ∷ xs) same =
      ap (λ j. count i (j ∷ ids (map f xs))) (same x) ∙ omega (arith, count-ids-map i f xs same)

  All-of-map :
      (P : Sequence V L → Type 0) (f : Sequence V L → Sequence V L) (xs : List (Sequence V L))
      → ((x : Sequence V L) → P x → P (f x))
      → All P xs
      → All P (map f xs)
  All-of-map P f [] keeps all = tt
  All-of-map P f (x ∷ xs) keeps all = (keeps x all.0, All-of-map P f xs keeps all.1)

  module _ (id : ℕ) where
    same_id : (x : Sequence V L) → (abort_id id x).id ≡ x.id
    same_id x = if_ind (λ (y : Sequence V L). y.id ≡ x.id) (nat_beq x.id id) (λ _. refl) (λ _. refl)

    abort_id-Waits : (x : Sequence V L) → Waits x → Waits (abort_id id x)
    abort_id-Waits x a =
        if_ind Waits (nat_beq x.id id)
          (λ _. record {
            opened = record {
              no_reason = a.opened.no_reason;
              room = a.opened.room;
              told = a.opened.told;
              unsignalled = a.opened.unsignalled;
            };
            owns_none = a.owns_none;
            has_none = a.has_none;
          })
          (λ _. a)

    abort_id-Runs :
        (pool : Option BlockPool) (x : Sequence V L) → Runs pool x → Runs pool (abort_id id x)
    abort_id-Runs pool x r =
        if_ind (Runs pool) (nat_beq x.id id)
          (λ _. record {
            granted = r.granted;
            going = r.going;
            opened = record {
              no_reason = r.opened.no_reason;
              room = r.opened.room;
              told = r.opened.told;
              unsignalled = r.opened.unsignalled;
            };
          })
          (λ _. r)

    abort_id-Admitted :
        (pool : Option BlockPool) (x : Sequence V L)
        → Admitted pool x
        → Admitted pool (abort_id id x)
    abort_id-Admitted pool x a =
        if_ind (Admitted pool) (nat_beq x.id id)
          (λ _. (
            a.0,
            record {
              no_reason = a.1.no_reason;
              room = a.1.room;
              told = a.1.told;
              unsignalled = a.1.unsignalled;
            },
          ))
          (λ _. a)

    abort_id-LetGo : (x : Sequence V L) → LetGo x → LetGo (abort_id id x)
    abort_id-LetGo x g =
        if_ind LetGo (nat_beq x.id id)
          (λ _. record { over = g.over; signalled = g.signalled; told = g.told }) (λ _. g)

    -- An abort asked for by a client, of any sequence, keeps the worker safe.
    pub client_abort-IsSafe : (w : Worker V L) → IsSafe w → IsSafe (client_abort id w)
    unfolding client_abort
    client_abort-IsSafe w s =
        let same : (i : ℕ) (xs : List (Sequence V L))
            → count i (ids (map (abort_id id) xs)) ≡ count i (ids xs) =
          λ i xs. count-ids-map i (abort_id id) xs same_id in
        record {
          books = s.books;
          one_place = λ i. omega (
            arith,
            s.one_place i,
            same i w.sched.queue.waiting_list,
            same i w.admitted,
            same i w.running,
            same i w.gone,
          );
          waiting =
              All-of-map Waits (abort_id id) w.sched.queue.waiting_list abort_id-Waits s.waiting;
          admitted =
              All-of-map (Admitted w.sched.pool) (abort_id id) w.admitted
                (abort_id-Admitted w.sched.pool) s.admitted;
          running =
              All-of-map (Runs w.sched.pool) (abort_id id) w.running (abort_id-Runs w.sched.pool)
                s.running;
          gone = All-of-map LetGo (abort_id id) w.gone abort_id-LetGo s.gone;
          only = λ i absent. s.only i (omega (arith, absent, same i w.admitted, same i w.running));
        }

  -- A new request, with a fresh id, that is accepted keeps the worker safe.
  pub submit-IsSafe :
      (w : Worker V L) (id : ℕ) (prompt_ids : List ℕ) (sampling : SamplingParams)
      (after : Scheduler V L)
      → count id (ids (seqs_of w)) ≡ 0
      → 0 < sampling.max_tokens
      → submit w.sched (new id prompt_ids sampling) ≡ accepted after
      → IsSafe w
      → IsSafe (record w { sched = after })
  submit-IsSafe w id prompt_ids sampling after fresh some_token h s =
      let seq : Sequence V L = new id prompt_ids sampling in
      let spread : places_of id w ≡ 0 = omega (
        arith,
        fresh,
        count-ids-append id w.sched.queue.waiting_list (w.admitted ++ (w.running ++ w.gone)),
        count-ids-append id w.admitted (w.running ++ w.gone),
        count-ids-append id w.running w.gone,
      ) in
      subst (λ sched. IsSafe (record w { sched = sched }))
        (sym (submit-accepted w.sched after seq h))
        (record {
          books = s.books;
          one_place = λ i. elim (Bool-cases (nat_beq id i)) [
            | inl same ↦
                let here : id ≡ i = (nat_beq_iff id i).0 same in
                let none_of_i : places_of i w ≡ 0 = subst (λ j. places_of j w ≡ 0) here spread in
                ground (
                  arith,
                  none_of_i,
                  count-ids-append i w.sched.queue.waiting_list
                      (record seq { status = waiting } ∷ []),
                )
            | inr other ↦ ground (
              arith,
              other,
              s.one_place i,
              count-ids-append i w.sched.queue.waiting_list (record seq { status = waiting } ∷ []),
            )
          ];
          waiting =
              All-append Waits w.sched.queue.waiting_list (record seq { status = waiting } ∷ [])
                s.waiting
                (
                  record {
                    opened = record {
                      no_reason = refl;
                      room = some_token;
                      told = refl;
                      unsignalled = refl;
                    };
                    owns_none = refl;
                    has_none = refl;
                  },
                  tt,
                );
          admitted = s.admitted;
          running = s.running;
          gone = s.gone;
          only = s.only;
        })
