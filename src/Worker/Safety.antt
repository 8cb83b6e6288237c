-- ===== src/Worker/Safety.antt =====
-- Every state that `ContinuousWorker` of src/flux/engine/worker.py reaches, in any order of its steps
-- and those of its clients and of the operator.
use flux_llm_inference_engin.Prelude.{
  ℕ, List, [], ◌∷◌, ◌≡◌, ◌⊎◌, refl, sym, ap, ◌∙◌, Bool, true, false, map, inl, inr,
}
use flux_llm_inference_engin.Sequence.{Sequence, SamplingParams}
use flux_llm_inference_engin.Outcome.{Outcome}
use flux_llm_inference_engin.Engine.{Engine}
use flux_llm_inference_engin.Worker.{
  Worker, top, has_ended, begin, prefill_from, prefill_next, prefill_one, settle, is_over,
  decode_step, abort_leftovers, abort_id, client_abort, Step, submits, aborts, admin_aborts, begins,
  prefills, decodes, crashes, decode_crash, stops, Reach, here, next,
}
use flux_llm_inference_engin.Worker.Invariant.{IsSafe, decode_step-IsSafe, prefill_next-IsSafe}
use flux_llm_inference_engin.Worker.Clients.{client_abort-IsSafe, submit-IsSafe}
use flux_llm_inference_engin.Worker.Admin.{admin_abort-Answers, admin_abort-phase}
use flux_llm_inference_engin.Worker.Begin.{begin-IsSafe}

module _ {V L : Type 0} where
  -- The worker works: it is safe, and nobody is admitted at the top of the loop.
  pub record Works (w : Worker V L) : Type 0 where
    pub safe : IsSafe w
    pub none_at_top : w.phase ≡ top → w.admitted ≡ []

  -- Or its task has ended: it has stopped, or an exception of the sampler went through `run`.
  abbrev pub WorksOrEnded : Worker V L → Type 0
  WorksOrEnded w = (has_ended w.phase ≡ true) ⊎ Works w

  phase-settle : (b : Bool) (seq : Sequence V L) (w : Worker V L) → (settle b seq w).phase ≡ w.phase
  phase-settle true seq w = refl
  phase-settle false seq w = refl

  module _ (engine : Engine V L) where
    phase-prefill_from :
        (sample : SamplingParams → L → Outcome ℕ) (late : ℕ → Bool) (now : ℕ)
        (q : List (Sequence V L)) (w : Worker V L)
        → (prefill_from engine sample late now q w).phase ≡ w.phase
    phase-prefill_from sample late now [] w = refl
    phase-prefill_from sample late now (seq ∷ rest) w =
        let done = prefill_one engine sample late now seq w.sched in
        phase-settle (is_over done.0.status) done.0 (record w { sched = done.1; admitted = rest })

    -- A step of the worker or of a client, from a state in which it works.
    afterwards-WorksOrEnded :
        {w w' : Worker V L} → Step engine w w' → WorksOrEnded w → WorksOrEnded w'
    unfolding begin prefill_next decode_step decode_crash client_abort abort_leftovers
    afterwards-WorksOrEnded (submits w id prompt_ids sampling sched fresh some_token h) (inl over) =
        inl over
    afterwards-WorksOrEnded (submits w id prompt_ids sampling sched fresh some_token h) (inr k) =
        inr (record {
          safe = submit-IsSafe w id prompt_ids sampling sched fresh some_token h k.safe;
          none_at_top = k.none_at_top;
        })
    afterwards-WorksOrEnded (aborts w id) (inl over) = inl over
    afterwards-WorksOrEnded (aborts w id) (inr k) = inr (record {
      safe = client_abort-IsSafe id w k.safe;
      none_at_top = λ at_top. ap (map (abort_id id)) (k.none_at_top at_top);
    })
    afterwards-WorksOrEnded (admin_aborts w id) (inl over) =
        inl (ap has_ended (admin_abort-phase id w).0 ∙ over)
    afterwards-WorksOrEnded (admin_aborts w id) (inr k) =
        let kept = admin_abort-phase id w in
        inr (record {
          safe = (admin_abort-Answers id w k.safe).1;
          none_at_top = λ at_top. kept.1 (k.none_at_top (sym kept.0 ∙ at_top));
        })
    afterwards-WorksOrEnded (begins w now at_top) (inl over) = cc (over, ap has_ended at_top)
    afterwards-WorksOrEnded (begins w now at_top) (inr k) =
        inr (record {
          safe = begin-IsSafe now w (k.none_at_top at_top) k.safe;
          none_at_top = λ h. cc;
        })
    afterwards-WorksOrEnded (prefills w sample late now fills) (inl over) =
        cc (over, ap has_ended fills)
    afterwards-WorksOrEnded (prefills w sample late now fills) (inr k) = inr (record {
      safe = prefill_next-IsSafe engine sample late now w k.safe;
      none_at_top = λ h. cc (phase-prefill_from sample late now w.admitted w, fills, h);
    })
    afterwards-WorksOrEnded (decodes w sample late fills none_left) (inl over) =
        cc (over, ap has_ended fills)
    afterwards-WorksOrEnded (decodes w sample late fills none_left) (inr k) = inr (record {
      safe = decode_step-IsSafe engine sample late w none_left k.safe;
      none_at_top = λ h. none_left;
    })
    afterwards-WorksOrEnded (crashes w sample late n logits caches fills none_left forward row)
          before =
        inl refl
    afterwards-WorksOrEnded (stops w at_top) before = inl refl

    -- In every state reached from one in which the worker works, in any order of its steps with requests,
    -- aborts by clients and the operator's aborts, each taken as one step, and whatever the engine and the
    -- sampler return or raise: the worker works, or its task has ended, as it has stopped or an exception
    -- of the sampler in a decode step went through `run`.
    pub Reach-WorksOrEnded :
        {start last : Worker V L} → Reach engine start last → Works start → WorksOrEnded last
    Reach-WorksOrEnded here k = inr k
    Reach-WorksOrEnded (next path step) k = afterwards-WorksOrEnded step (Reach-WorksOrEnded path k)
