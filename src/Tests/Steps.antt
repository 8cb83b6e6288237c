-- ===== src/Tests/Steps.antt =====
-- Runs of the worker's steps, its shutdown and its replies, on the data of Tests.
use flux_llm_inference_engin.Prelude.{
  All, ℕ, [], ◌∷◌, refl, some, false, arith, nat_eq, nat_beq_iff, tokens_eq,
}
use flux_llm_inference_engin.Prelude.Dict.{get}
use flux_llm_inference_engin.Sequence.{Sequence, decoding}
use flux_llm_inference_engin.Outcome.{ok}
use flux_llm_inference_engin.Worker.{
  Worker, filling, prefill_one, decode_step, abort_leftovers, note_token, finish_sequence,
}
use flux_llm_inference_engin.Worker.Tokens.{IsOpen, Noted, note_token-Noted}
use flux_llm_inference_engin.Worker.Settling.{Settled}
use flux_llm_inference_engin.Worker.Steps.{prefill_one-Settled}
use flux_llm_inference_engin.Worker.Batch.{Runs, AreDistinct}
use flux_llm_inference_engin.Worker.Iteration.{IsRunning, Decoded, decode_step-Decoded}
use flux_llm_inference_engin.Worker.Shutdown.{IsStopped, abort_leftovers-IsStopped}
use flux_llm_inference_engin.Worker.{here, next, decodes}
use flux_llm_inference_engin.Worker.Invariant.{IsSafe, Waits}
use flux_llm_inference_engin.Worker.Safety.{Works, WorksOrEnded, Reach-WorksOrEnded}
use flux_llm_inference_engin.Worker.{admin_abort}
use flux_llm_inference_engin.Worker.Capacity.{IsWithin, Reach-IsWithin}
use flux_llm_inference_engin.Worker.Admin.{Answers, admin_abort-Answers}
use flux_llm_inference_engin.Queued.{serve}
use flux_llm_inference_engin.Queued.End.{IsEnded, serve-IsEnded}
use flux_llm_inference_engin.Requests.{wait_result}
use flux_llm_inference_engin.Requests.Replies.{IsAnswer, wait_result-finish_sequence}
use flux_llm_inference_engin.Tests.{request, toy, running_one, two_wait, half_taken-Books}

running_one-IsOpen : IsOpen running_one
running_one-IsOpen = record {
  no_reason = refl;
  room = omega arith;
  told = refl;
  unsignalled = refl;
}

prefill_one-Settled_example :
    Settled two_wait 1
      (prefill_one toy (λ params token. ok token) (λ id. false) 1 running_one two_wait)
unfolding get
prefill_one-Settled_example =
    prefill_one-Settled toy (λ params token. ok token) (λ id. false) 1 running_one two_wait
      half_taken-Books ((0 ∷ 1 ∷ 2 ∷ 3 ∷ []), refl) running_one-IsOpen

-- The first request after its first token.
abbrev decoding_one : Sequence ℕ ℕ
decoding_one = record running_one {
  status = decoding;
  output_ids = 3 ∷ [];
  last_token = some 3;
  token_queue = some 3 ∷ [];
  kv_cache = some [];
}

decoding_one-IsOpen : IsOpen decoding_one
decoding_one-IsOpen = record {
  no_reason = refl;
  room = omega arith;
  told = refl;
  unsignalled = refl;
}

note_token-Noted_example : Noted 9 (9 ∷ []) decoding_one (note_token 9 (9 ∷ []) decoding_one)
note_token-Noted_example = note_token-Noted 9 (9 ∷ []) decoding_one decoding_one-IsOpen

decoding_one-Runs : Runs two_wait.pool decoding_one
unfolding get
decoding_one-Runs = record {
  granted = ((0 ∷ 1 ∷ 2 ∷ 3 ∷ []), refl);
  going = refl;
  opened = decoding_one-IsOpen;
}

one-AreDistinct : AreDistinct (decoding_one ∷ [])
one-AreDistinct = λ i. ground arith

abbrev pub at_work : Worker ℕ ℕ
at_work = record {
  sched = two_wait;
  phase = filling;
  admitted = [];
  running = decoding_one ∷ [];
  gone = [];
  last_batch_size = 0;
}

at_work-IsRunning : IsRunning two_wait (decoding_one ∷ [])
at_work-IsRunning = record {
  books = half_taken-Books;
  once = one-AreDistinct;
  each = (decoding_one-Runs, tt);
}

decode_step-Decoded_example :
    Decoded at_work (decode_step toy (λ params token. token) (λ id. false) at_work)
decode_step-Decoded_example =
    decode_step-Decoded toy (λ params token. token) (λ id. false) at_work at_work-IsRunning

abort_leftovers-IsStopped_example : IsStopped at_work (abort_leftovers at_work)
abort_leftovers-IsStopped_example = abort_leftovers-IsStopped at_work

wait_result-finish_sequence_example :
    let ended = (finish_sequence toy "continuous" decoding_one two_wait).0 in
    IsAnswer decoding_one two_wait (λ tokens. "") ended.token_queue (wait_result ended)
unfolding get
wait_result-finish_sequence_example =
    wait_result-finish_sequence decoding_one two_wait toy "continuous" half_taken-Books
      (λ absent. cc) refl refl

serve-IsEnded_example :
    IsEnded two_wait 1 (serve toy (λ params token. token) (λ k. false) 1 running_one two_wait)
unfolding get
serve-IsEnded_example =
    serve-IsEnded toy (λ params token. token) (λ k. false) 1 running_one two_wait half_taken-Books
      ((0 ∷ 1 ∷ 2 ∷ 3 ∷ []), refl) running_one-IsOpen

request-Waits : (id : ℕ) → Waits (request id)
request-Waits id = record {
  opened = record { no_reason = refl; room = omega arith; told = refl; unsignalled = refl };
  owns_none = refl;
  has_none = refl;
}

waiters_wait : All Waits (request 2 ∷ request 3 ∷ [])
waiters_wait = (request-Waits 2, (request-Waits 3, tt))

pub at_work-IsSafe : IsSafe at_work
unfolding get
at_work-IsSafe = record {
  books = half_taken-Books;
  one_place = λ i. ground arith;
  waiting = waiters_wait;
  admitted = tt;
  running = (decoding_one-Runs, tt);
  gone = tt;
  only = λ i nowhere. ground (arith, nowhere, nat_beq_iff 1 i);
}

at_work-Works : Works at_work
at_work-Works = record { safe = at_work-IsSafe; none_at_top = λ h. cc }

Reach-WorksOrEnded_example :
    WorksOrEnded (decode_step toy (λ params token. token) (λ id. false) at_work)
Reach-WorksOrEnded_example =
    Reach-WorksOrEnded toy
      (next here (decodes at_work (λ params token. token) (λ id. false) refl refl)) at_work-Works

Reach-IsWithin_example :
    IsWithin 2 4 (decode_step toy (λ params token. token) (λ id. false) at_work)
Reach-IsWithin_example =
    Reach-IsWithin toy 2 4
      (next here (decodes at_work (λ params token. token) (λ id. false) refl refl)) at_work-Works
      (record { bounds = refl; batch = omega arith; queue = omega arith })

-- The second request is taken out of the queue; the first one, which runs, is asked to end.
admin_abort-Answers_example :
    Answers 2 at_work (admin_abort 2 at_work) × IsSafe (admin_abort 2 at_work).1
admin_abort-Answers_example = admin_abort-Answers 2 at_work at_work-IsSafe
