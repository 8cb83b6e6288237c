-- ===== src/Requests/Replies.antt =====
-- What `_wait_result` of src/flux/server/routes_openai.py makes of the ends that src/flux/engine/worker.py
-- gives a sequence.
use Prim.Native.String.{String}
use flux_llm_inference_engin.Prelude.{
  ℕ, List, [], ◌∷◌, ◌++◌, ◌≡◌, refl, ap, ◌∙◌, Option, none, some, map, length,
}
use flux_llm_inference_engin.Sequence.{
  Sequence, GenerateResult, Reason, length_limit, finished, aborted, error,
}
use flux_llm_inference_engin.Pool.{BlockPool, free}
use flux_llm_inference_engin.Scheduler.{Scheduler, release_in}
use flux_llm_inference_engin.Engine.{Engine, pack_result}
use flux_llm_inference_engin.Worker.{
  free_at, release_seq, end_as, abort_one, finish_sequence, fail_one, reason_or_length,
}
use flux_llm_inference_engin.Pool.Balance.{Freeable}
use flux_llm_inference_engin.Scheduler.Books.{Books}
use flux_llm_inference_engin.Worker.Acts.{finish_sequence-Ends}
use flux_llm_inference_engin.Worker.Tokens.{IsTold}
use flux_llm_inference_engin.Requests.{Http, done, failed, wait_result}

module _ {V L : Type 0} where
  wait_free_at :
      (seq : Sequence V L) (sched : Scheduler V L) (o : Option BlockPool)
      → wait_result (free_at seq sched o).0 ≡ wait_result seq
  unfolding wait_result free
  wait_free_at seq sched none = refl
  wait_free_at seq sched (some pool) = refl

  wait_end_as :
      (seq : Sequence V L) (sched : Scheduler V L)
      → wait_result (end_as seq sched).0 ≡ wait_result seq
  unfolding wait_result release_seq
  wait_end_as seq sched = let mid = release_in seq.prefix_key sched in wait_free_at seq mid mid.pool

  module _ (seq : Sequence V L) (sched : Scheduler V L) where
    packed :
        (engine : Engine V L) (name : String)
        → seq.error ≡ none
        → wait_result (finish_sequence engine name seq sched).0
          ≡ done (
              pack_result engine.decode_text seq.prompt_ids seq.output_ids
                (reason_or_length seq.finish_reason)
                name)
    unfolding finish_sequence wait_result
    packed engine name clean =
        wait_end_as
          (record seq {
            result = some (
                pack_result engine.decode_text seq.prompt_ids seq.output_ids
                  (reason_or_length seq.finish_reason) name);
            status = finished;
          })
          sched
        ∙ rw clean refl

    -- What the reply to a finished sequence says, beside the events that its client was sent: the same
    -- tokens, their text and their number, and why there are no more.
    pub record IsAnswer (decode : List ℕ → String) (sent : List (Option ℕ))
        (reply : Http GenerateResult) : Type 0 where
      pub result : GenerateResult
      pub replies : reply ≡ done result
      pub same_tokens : sent ≡ map some result.output_token_ids ++ none ∷ []
      pub same_text : result.text ≡ decode result.output_token_ids
      pub completion : result.completion_tokens ≡ length result.output_token_ids
      pub prompt : result.prompt_token_ids ≡ seq.prompt_ids
      pub prompt_count : result.prompt_tokens ≡ length seq.prompt_ids
      pub reason : (r : Reason) → seq.finish_reason ≡ some r → result.finish_reason ≡ r
      pub no_reason : seq.finish_reason ≡ none → result.finish_reason ≡ length_limit

    -- A sequence in which no error is noted, whose client was told of all its tokens, and whose blocks it may
    -- free: `_finish_sequence` ends it so that the reply of `_wait_result` and the token queue, which the
    -- streams read, say the same tokens; the reply has their text, both counts, and the reason.
    pub wait_result-finish_sequence :
        (engine : Engine V L) (name : String)
        → Books sched
        → Freeable sched.pool seq
        → IsTold seq
        → seq.error ≡ none
        → let ended = (finish_sequence engine name seq sched).0 in
          IsAnswer engine.decode_text ended.token_queue (wait_result ended)
    wait_result-finish_sequence engine name books free told clean = record {
      result =
          pack_result engine.decode_text seq.prompt_ids seq.output_ids
            (reason_or_length seq.finish_reason) name;
      replies = packed engine name clean;
      same_tokens =
          (finish_sequence-Ends seq sched books free engine name).told
          ∙ ap (λ q. q ++ none ∷ []) told;
      same_text = refl;
      completion = refl;
      prompt = refl;
      prompt_count = refl;
      reason = λ r h. ap reason_or_length h;
      no_reason = λ h. ap reason_or_length h;
    }

    -- The client of an aborted sequence gets the status 499, unless an error was noted.
    pub wait_result-abort_one : seq.error ≡ none → wait_result (abort_one seq sched).0 ≡ failed 499
    unfolding abort_one wait_result
    wait_result-abort_one clean =
        wait_end_as (record seq { status = aborted }) sched ∙ rw clean refl

    pub wait_result-fail_one : (e : String) → wait_result (fail_one e seq sched).0 ≡ failed 500
    unfolding fail_one wait_result
    wait_result-fail_one e = wait_end_as (record seq { error = some e; status = error }) sched
