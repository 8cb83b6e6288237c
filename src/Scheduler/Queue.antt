-- ===== src/Scheduler/Queue.antt =====
-- `RequestQueue` of src/flux/engine/scheduler.py: the deque of waiting sequences, front first, and the
-- asyncio event as a flag. `item is seq` compares references: a sequence is known by its id.
use flux_llm_inference_engin.Prelude.{
  ℕ, List, [], ◌∷◌, ◌++◌, Bool, true, false, Option, none, some, map, length, leb, nat_beq,
  if◌then◌else◌,
}
use flux_llm_inference_engin.Sequence.{Sequence, waiting}

pub record RequestQueue (V L : Type 0) : Type 0 where
  pub max_waiting : ℕ
  pub waiting_list : List (Sequence V L)
  pub event : Bool

module _ {V L : Type 0} where
  abbrev pub empty_queue : ℕ → RequestQueue V L
  empty_queue max_waiting = record { max_waiting = max_waiting; waiting_list = []; event = false }

  abbrev pub queue_len : RequestQueue V L → ℕ
  queue_len queue = length queue.waiting_list

  -- The queue, and whether the sequence went in.
  unfoldable pub try_enqueue : RequestQueue V L → Sequence V L → RequestQueue V L × Bool
  try_enqueue queue seq = if leb queue.max_waiting (queue_len queue) then (queue, false) else (
    record queue {
      waiting_list = queue.waiting_list ++ record seq { status = waiting } ∷ [];
      event = true;
    },
    true,
  )

  abbrev pub first : List (Sequence V L) → Option (Sequence V L)
  first [] = none
  first (seq ∷ rest) = some seq

  abbrev pub peek_one : RequestQueue V L → Option (Sequence V L)
  peek_one queue = first queue.waiting_list

  -- `if not self._waiting: self._event.clear()`
  abbrev pub event_for : List (Sequence V L) → Bool → Bool
  event_for [] event = false
  event_for (seq ∷ rest) event = event

  abbrev pub pop_from :
      RequestQueue V L → List (Sequence V L) → Option (Sequence V L) × RequestQueue V L
  pop_from queue [] = (none, queue)
  pop_from queue (seq ∷ rest) =
      (some seq, record queue { waiting_list = rest; event = event_for rest queue.event })

  unfoldable pub pop_one : RequestQueue V L → Option (Sequence V L) × RequestQueue V L
  pop_one queue = pop_from queue queue.waiting_list

  unfoldable pub push_front : RequestQueue V L → Sequence V L → RequestQueue V L
  push_front queue seq = record queue { waiting_list = seq ∷ queue.waiting_list; event = true }

  -- The loop of `remove`: what is kept, and whether the sequence was found.
  unfoldable pub remove_from : ℕ → List (Sequence V L) → List (Sequence V L) × Bool
  remove_from id [] = ([], false)
  remove_from id (item ∷ items) =
      let rest = remove_from id items in
      if nat_beq item.id id then (items, true) else (item ∷ rest.0, rest.1)

  unfoldable pub remove : RequestQueue V L → Sequence V L → RequestQueue V L × Bool
  unfolding remove_from
  remove queue seq =
      let (kept, found) = remove_from seq.id queue.waiting_list in
      (record queue { waiting_list = kept; event = event_for kept queue.event }, found)

  abbrev pub snapshot_ids : RequestQueue V L → List ℕ
  snapshot_ids queue = map (λ seq. seq.id) queue.waiting_list

  abbrev pub wake : RequestQueue V L → RequestQueue V L
  wake queue = record queue { event = true }
