-- ===== src/Sequence/Life.antt =====
-- What block and prefix accounting leave alone in a sequence of src/flux/engine/sequence.py.
use flux_llm_inference_engin.Prelude.{◌≡◌, refl, ◌∙◌}
use flux_llm_inference_engin.Sequence.{Sequence}

-- All that a client sees of a sequence, and all that decides how it goes on, is the same.
pub record SameLife {V L : Type 0} (after before : Sequence V L) : Type 0 where
  pub id : after.id ≡ before.id
  pub prompt_ids : after.prompt_ids ≡ before.prompt_ids
  pub sampling : after.sampling ≡ before.sampling
  pub output_ids : after.output_ids ≡ before.output_ids
  pub status : after.status ≡ before.status
  pub last_token : after.last_token ≡ before.last_token
  pub finish_reason : after.finish_reason ≡ before.finish_reason
  pub token_queue : after.token_queue ≡ before.token_queue
  pub finished_event : after.finished_event ≡ before.finished_event
  pub abort_requested : after.abort_requested ≡ before.abort_requested

module _ {V L : Type 0} where
  pub SameLife-refl : (seq : Sequence V L) → SameLife seq seq
  SameLife-refl seq = record {
    id = refl;
    prompt_ids = refl;
    sampling = refl;
    output_ids = refl;
    status = refl;
    last_token = refl;
    finish_reason = refl;
    token_queue = refl;
    finished_event = refl;
    abort_requested = refl;
  }

  pub SameLife-trans : (a b c : Sequence V L) → SameLife a b → SameLife b c → SameLife a c
  SameLife-trans a b c s t = record {
    id = s.id ∙ t.id;
    prompt_ids = s.prompt_ids ∙ t.prompt_ids;
    sampling = s.sampling ∙ t.sampling;
    output_ids = s.output_ids ∙ t.output_ids;
    status = s.status ∙ t.status;
    last_token = s.last_token ∙ t.last_token;
    finish_reason = s.finish_reason ∙ t.finish_reason;
    token_queue = s.token_queue ∙ t.token_queue;
    finished_event = s.finished_event ∙ t.finished_event;
    abort_requested = s.abort_requested ∙ t.abort_requested;
  }
