-- ===== src/Worker/State.antt =====
-- The state of `ContinuousWorker` of src/flux/engine/worker.py, and the parts of its loop that call no engine:
-- the start of an iteration, the shutdown, and what clients do.
use flux_llm_inference_engin.Prelude.{
  ℕ, List, [], ◌∷◌, ◌++◌, Bool, true, false, not, Option, none, some, length, map, keep_if, nat_beq,
  if◌then◌else◌,
}
use flux_llm_inference_engin.Sequence.{
  Sequence, Status, waiting, decoding, finished, aborted, error, request_abort,
}
use flux_llm_inference_engin.Worker.Sequences.{abort_one, wants_abort}
use flux_llm_inference_engin.Scheduler.{Scheduler, RequestQueue, pop_one, remove, admit}

pub data Phase : Type 0 where
  top filling stopped crashed : Phase

-- Whether `run` has returned, or has let an exception through.
abbrev pub has_ended : Phase → Bool
has_ended top = false
has_ended filling = false
has_ended _ = true

pub record Worker (V L : Type 0) : Type 0 where
  pub sched : Scheduler V L
  pub phase : Phase
  pub admitted : List (Sequence V L)
  pub running : List (Sequence V L)
  pub gone : List (Sequence V L)
  pub last_batch_size : ℕ

abbrev pub is_over : Status → Bool
is_over finished = true
is_over aborted = true
is_over error = true
is_over _ = false

abbrev pub has_token : Option ℕ → Bool
has_token none = false
has_token (some token) = true

abbrev pub is_decoding : Status → Bool
is_decoding decoding = true
is_decoding _ = false

module _ {V L : Type 0} where
  -- An action on each sequence in turn, with the scheduler handed on.
  unfoldable pub sweep :
      (Sequence V L → Scheduler V L → Sequence V L × Scheduler V L)
      → List (Sequence V L)
      → Scheduler V L
      → List (Sequence V L) × Scheduler V L
  sweep act [] sched = ([], sched)
  sweep act (seq ∷ seqs) sched =
      let (seq', sched') = act seq sched in
      let rest = sweep act seqs sched' in (seq' ∷ rest.0, rest.1)

  abbrev pub abort_if_wanted : Sequence V L → Scheduler V L → Sequence V L × Scheduler V L
  abort_if_wanted seq sched = if wants_abort seq then abort_one seq sched else (seq, sched)

  -- `_drop_aborted`, and then the call of `admit`: from the top of the loop to the first prefill.
  unfoldable pub begin : ℕ → Worker V L → Worker V L
  begin now w =
      let swept = sweep abort_if_wanted w.running w.sched in
      let kept = keep_if (λ seq. not (wants_abort seq)) swept.0 in
      let dropped = keep_if wants_abort swept.0 in
      let out = admit now swept.1 (length kept) in
      record w {
        sched = out.1;
        phase = filling;
        admitted = out.0;
        running = kept;
        gone = w.gone ++ dropped;
      }

  -- The first loop of `_abort_leftovers`: every sequence that waits.
  unfoldable pub abort_waiting :
      List (Sequence V L) → Scheduler V L → List (Sequence V L) × Scheduler V L
  abort_waiting [] sched = ([], sched)
  abort_waiting (seq ∷ rest) sched =
      let (seq', sched') = abort_one seq (record sched { queue = (pop_one sched.queue).1 }) in
      let more = abort_waiting rest sched' in (seq' ∷ more.0, more.1)

  -- `_abort_leftovers`, after which the coroutine ends.
  unfoldable pub abort_leftovers : Worker V L → Worker V L
  abort_leftovers w =
      let waiters = abort_waiting w.sched.queue.waiting_list w.sched in
      let runners =
        sweep (λ seq sched. if seq.finished_event then (seq, sched) else abort_one seq sched)
          w.running waiters.1 in
      record w {
        sched = runners.1;
        phase = stopped;
        running = [];
        gone = w.gone ++ (waiters.0 ++ runners.0);
      }

  -- `seq.request_abort()` by the client that holds the sequence `id`.
  abbrev pub abort_id : ℕ → Sequence V L → Sequence V L
  abort_id id seq = if nat_beq seq.id id then request_abort seq else seq

  unfoldable pub client_abort : ℕ → Worker V L → Worker V L
  client_abort id w = record w {
    sched = record (w.sched) {
      queue = record (w.sched.queue) {
        waiting_list = map (abort_id id) w.sched.queue.waiting_list;
      };
    };
    admitted = map (abort_id id) w.admitted;
    running = map (abort_id id) w.running;
    gone = map (abort_id id) w.gone;
  }

  -- The ids of all requests that were accepted.
  abbrev pub seqs_of : Worker V L → List (Sequence V L)
  seqs_of w = w.sched.queue.waiting_list ++ (w.admitted ++ (w.running ++ w.gone))

  -- The first sequence with an id.
  abbrev pub find_in : ℕ → List (Sequence V L) → Option (Sequence V L)
  find_in id [] = none
  find_in id (seq ∷ seqs) = if nat_beq seq.id id then some seq else find_in id seqs

  abbrev pub find_after : Option (Sequence V L) → Option (Sequence V L) → Option (Sequence V L)
  find_after none later = later
  find_after (some seq) later = some seq

  -- `_find_sequence` of src/flux/server/routes_admin.py: in the queue, and then among those running.
  unfoldable pub find_sequence : ℕ → Worker V L → Option (Sequence V L)
  find_sequence id w = find_after (find_in id w.sched.queue.waiting_list) (find_in id w.running)

  -- A waiting sequence that was taken out of the queue is aborted at once.
  abbrev pub abort_removed : Sequence V L → RequestQueue V L → Worker V L → Worker V L
  abort_removed seq queue w =
      let (seq', sched) = abort_one seq (record (w.sched) { queue = queue }) in
      record w { sched = sched; gone = w.gone ++ seq' ∷ [] }

  abbrev pub abort_found : ℕ → Option (Sequence V L) → Worker V L → Option Status × Worker V L
  abort_found id none w = (none, w)
  abort_found id (some seq) w =
      let (queue, removed) = remove w.sched.queue seq in
      if removed
      then (some waiting, abort_removed seq queue w)
      else (some decoding, client_abort id w)

  -- `admin_abort` of src/flux/server/routes_admin.py: what the sequence was doing, "waiting" or "running", and
  -- the worker after it. `none` is the status 404.
  unfoldable pub admin_abort : ℕ → Worker V L → Option Status × Worker V L
  unfolding find_sequence
  admin_abort id w = abort_found id (find_sequence id w) w
