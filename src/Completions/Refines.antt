-- ===== src/Completions/Refines.antt =====
-- What the handlers of src/flux/server/routes_openai.py do to a continuous worker, as steps of its clients.
use flux_llm_inference_engin.Prelude.{ap, ◌∙◌, ℕ, ◌<◌, List, ◌≡◌, subst, map, count, ◌⊎◌, inl, inr}
use flux_llm_inference_engin.Config.{Str}
use flux_llm_inference_engin.Sequence.{new}
use flux_llm_inference_engin.Engine.{Engine}
use flux_llm_inference_engin.Scheduler.{accepted, submit}
use flux_llm_inference_engin.Worker.{Worker, seqs_of, Step, submits}
use flux_llm_inference_engin.Serving.{Attached, continuous_worker}
use flux_llm_inference_engin.App.{App}
use flux_llm_inference_engin.Completions.{
  Host, Call, Params, Reply, create_completion, create_chat_completion,
}
use flux_llm_inference_engin.Completions.Refusals.{
  Situation, seen_at, Responds, refuses, crashes, has_result, has_sequence,
}
use flux_llm_inference_engin.Completions.{with_scheduler}
use flux_llm_inference_engin.Completions.Accepts.{create-Responds}

module _ {V L : Type 0} where
  -- The worker is as it was, or it has taken a step.
  abbrev pub IsStep : Engine V L → Worker V L → Attached V L → Type 0
  IsStep engine w after =
      (after ≡ continuous_worker w)
      ⊎ ((w' : Worker V L) × (after ≡ continuous_worker w') × Step engine w w')

module _ {V L R : Type 0} (host : Host R) (call : Call) where
  responded-IsStep :
      (engine : Engine V L) (seen : Situation V L) (params : Params) (prompt_ids : List ℕ)
      (w : Worker V L) (out : Reply × App V L R)
      → seen.attached ≡ continuous_worker w
      → Responds seen call.seq_id params prompt_ids out
      → count call.seq_id (map (λ seq. seq.id) (seqs_of w)) ≡ 0
      → 0 < params.max_tokens
      → 0 < seen.settings.max_new_tokens_cap
      → IsStep engine w out.1.attached
  responded-IsStep engine seen params prompt_ids w out at (refuses status after why same) f a c =
      inl (same ∙ at)
  responded-IsStep engine seen params prompt_ids w out at
        (crashes sampling e after fine alone raises same) f a c =
      inl (same ∙ at)
  responded-IsStep engine seen params prompt_ids w out at
        (has_result sampling result timing after fine alone generates same) f a c =
      inl (same ∙ at)
  responded-IsStep engine seen params prompt_ids w out at
        (has_sequence sched queued sampling after fine uses there h now) f a c =
      let here : sched ≡ w.sched = cc (at, there) in
      inr (
        record w { sched = queued },
        now ∙ ap (with_scheduler queued) at,
        submits w call.seq_id prompt_ids sampling queued f (fine.served.some_token a c)
            (subst (λ s. submit s (new call.seq_id prompt_ids sampling) ≡ accepted queued) here h),
      )

  -- Both handlers, where a continuous worker serves and no sequence of it has the new id, for a body that
  -- asks for a token at least under a cap that allows one: the worker is as it was, or what the handler
  -- has done is a step of the worker's step relation. So all that holds of every state that the worker
  -- reaches holds after the handler.
  pub create-IsStep :
      (engine : Engine V L) (params : Params) (prompt : Str) (messages : List (Str × Str))
      (app : App V L R) (w : Worker V L)
      → app.attached ≡ continuous_worker w
      → count call.seq_id (map (λ seq. seq.id) (seqs_of w)) ≡ 0
      → 0 < params.max_tokens
      → 0 < app.settings.max_new_tokens_cap
      → IsStep engine w (create_completion host call params prompt app).1.attached
        × IsStep engine w (create_chat_completion host call params messages app).1.attached
  create-IsStep engine params prompt messages app w at fresh some_asked some_cap =
      let responds = create-Responds host call params prompt messages app some_asked some_cap in
      (
        responded-IsStep engine (seen_at host call app) params (host.encode_text prompt) w _ at
            responds.0 fresh some_asked some_cap,
        responded-IsStep engine (seen_at host call app) params (host.encode_chat messages) w _ at
            responds.1 fresh some_asked some_cap,
      )
