-- ===== src/Completions/Accepts.antt =====
-- The handlers of src/flux/server/routes_openai.py come to what Refusals lists.
use Prim.Native.String.{String}
use flux_llm_inference_engin.Prelude.{
  ℕ, ◌<◌, List, ◌≡◌, refl, sym, ◌∙◌, subst, Option, none, some, Bool, true, false, ◌&&◌, arith,
  length, if◌then◌else◌, if_ind,
}
use flux_llm_inference_engin.Config.{Str, is_served}
use flux_llm_inference_engin.Outcome.{Outcome, ok, raised}
use flux_llm_inference_engin.Sequence.{SamplingParams, GenerateResult, new}
use flux_llm_inference_engin.Scheduler.{
  Scheduler, Submitted, accepted, refused, queue_full, request_too_large, submit,
}
use flux_llm_inference_engin.ControlPlane.{ControlPlane, Job, allow}
use flux_llm_inference_engin.Metrics.{Endpoint, completions, chat, Timing}
use flux_llm_inference_engin.Serving.{EngineKind, scheduler_of}
use flux_llm_inference_engin.App.{App}
use flux_llm_inference_engin.Requests.{
  Http, done, fit_max_seq, sampling_for, submit_request, reply_to_submit,
}
use flux_llm_inference_engin.Requests.Bounds.{Fitted, no_room, fitted, fit_max_seq-Fitted}
use flux_llm_inference_engin.Completions.{
  Host, Call, Params, Reply, streams_sequence, waits_for, limits_of, has_scheduler, uses_worker,
  limited, limit_at, enforce_rate_limit, client_ip, remember_at, remember_job, submit_at, submit_to,
  submitted, note_result, after_submit, after_generate, generate_fitted, start_fitted, engine_at,
  with_engine, within_limit, respond, create_completion, create_chat_completion,
}
use flux_llm_inference_engin.Completions.Fits.{fit_once-Served, fit_once-again}
use flux_llm_inference_engin.Completions.Refusals.{
  unknown_model, over_limit, no_engine, too_long, not_queued, Responds, Passes, seen, seen_at,
  refuses, crashes, has_result, has_sequence,
}

module _ {V L R : Type 0} (host : Host R) (call : Call) where
  attached-remember_at :
      (payload : Job) (job_id : String) (app : App V L R) (o : Option (ControlPlane R))
      → (remember_at host call payload job_id app o).attached ≡ app.attached
  attached-remember_at payload job_id app none = refl
  attached-remember_at payload job_id app (some plane) = refl

  attached-remember_job :
      (job_id status : String) (extra : Job) (app : App V L R)
      → (remember_job host call job_id status extra app).attached ≡ app.attached
  unfolding remember_job
  attached-remember_job job_id status extra app = attached-remember_at _ job_id app app.control

  attached-note_result :
      (kind : Endpoint) (result : GenerateResult) (app : App V L R)
      → (note_result host call kind result app).attached ≡ app.attached
  unfolding note_result
  attached-note_result kind result app = attached-remember_job _ _ _ _

  module _ (kind : Endpoint) (params : Params) (prompt_ids : List ℕ)
      (known : is_served params.model ≡ true) (app : App V L R) where
    abbrev Comes : Reply × App V L R → Type 0
    Comes = Responds (seen host true app) call.seq_id params prompt_ids

    abbrev Fine : SamplingParams → Type 0
    Fine = Passes (seen host true app) call.seq_id params prompt_ids

    queued-Comes :
        (sched : Scheduler V L) (sampling : SamplingParams) (stream : Bool) (r : Submitted V L)
        → params.stream ≡ stream
        → uses_worker app ≡ true
        → scheduler_of app.attached ≡ some sched
        → Fine sampling
        → submit sched (new call.seq_id prompt_ids sampling) ≡ r
        → Comes (after_submit host call kind stream (submitted host call app (reply_to_submit r)))
    queued-Comes sched sampling stream (refused queue_full) s uses at fine h =
        refuses 429 _ (not_queued sched sampling queue_full fine uses at h) refl
    queued-Comes sched sampling stream (refused (request_too_large needed)) s uses at fine h =
        refuses 400 _ (not_queued sched sampling (request_too_large needed) fine uses at h) refl
    queued-Comes sched sampling true (accepted queued) s uses at fine h =
        let noted = (submitted host call app (done queued)).1 in
        let after = (after_submit host call kind true (submitted host call app (done queued))).1 in
        subst
          (λ b. Comes ((if b then streams_sequence call.seq_id else waits_for call.seq_id), after))
          s
          (has_sequence sched queued sampling after fine uses at h
            (attached-remember_job _ _ _ noted ∙ attached-remember_job _ _ _ _))
    queued-Comes sched sampling false (accepted queued) s uses at fine h =
        let after = (submitted host call app (done queued)).1 in
        subst
          (λ b. Comes ((if b then streams_sequence call.seq_id else waits_for call.seq_id), after))
          s
          (has_sequence sched queued sampling after fine uses at h (attached-remember_job _ _ _ _))

    submit_at-Comes :
        (sampling : SamplingParams) (stream : Bool) (o : Option (Scheduler V L))
        → params.stream ≡ stream
        → uses_worker app ≡ true
        → scheduler_of app.attached ≡ o
        → has_scheduler o ≡ true
        → Fine sampling
        → Comes (after_submit host call kind stream (submit_at host call prompt_ids sampling app o))
    unfolding submit_request
    submit_at-Comes sampling stream none s uses at here fine = cc
    submit_at-Comes sampling stream (some sched) s uses at here fine =
        queued-Comes sched sampling stream (submit sched (new call.seq_id prompt_ids sampling)) s
          uses at fine refl

    submit_to-Comes :
        (sampling : SamplingParams) (stream : Bool)
        → params.stream ≡ stream
        → uses_worker app ≡ true
        → Fine sampling
        → Comes (after_submit host call kind stream (submit_to host call prompt_ids sampling app))
    unfolding submit_to
    submit_to-Comes sampling stream s uses fine =
        submit_at-Comes sampling stream (scheduler_of app.attached) s uses refl (ground arith) fine

    after_generate-Comes :
        (sampling : SamplingParams) (o : Outcome (GenerateResult × Timing))
        → Fine sampling
        → uses_worker app ≡ false
        → host.generate_ids prompt_ids sampling ≡ o
        → Comes (after_generate host call kind params.stream app o)
    after_generate-Comes sampling (raised e) fine alone h = crashes sampling e app fine alone h refl
    after_generate-Comes sampling (ok (result, timing)) fine alone h =
        has_result sampling result timing _ fine alone h (attached-note_result kind result _)

    generate_fitted-Comes :
        (sampling : SamplingParams)
        → (uses_worker app ≡ true → params.stream ≡ false)
        → Fine sampling
        → Comes (generate_fitted host call kind params.stream prompt_ids app (done sampling))
    generate_fitted-Comes sampling only fine =
        if_ind Comes (uses_worker app)
          (λ uses. submit_to-Comes sampling false (only uses) uses fine)
          (λ alone.
            after_generate-Comes sampling (host.generate_ids prompt_ids sampling) fine alone refl)

    start_fitted-Comes :
        (sampling : SamplingParams) (loaded : EngineKind)
        → app.engine ≡ some loaded
        → 0 < params.max_tokens
        → 0 < app.settings.max_new_tokens_cap
        → fit_max_seq (limits_of app.settings) prompt_ids (
            sampling_for (limits_of app.settings) params.temperature params.top_p params.max_tokens)
          ≡ done sampling
        → Comes (start_fitted host call kind params.stream prompt_ids app (done sampling))
    start_fitted-Comes sampling loaded there some_asked some_cap h =
        let limits = limits_of app.settings in
        let served =
          fit_once-Served limits prompt_ids params.temperature params.top_p params.max_tokens
            sampling h in
        let again =
          fit_once-again limits prompt_ids params.temperature params.top_p params.max_tokens
            sampling some_asked some_cap h in
        let fine : Fine sampling = record {
          known = known;
          within_rate = refl;
          kind = loaded;
          loaded = there;
          served = served;
        } in
        if_ind Comes (params.stream && uses_worker app)
          (λ both. submit_to-Comes sampling true (both_true both).0 (both_true both).1 fine)
          (λ not_both.
            subst (λ o. Comes (generate_fitted host call kind params.stream prompt_ids app o))
              (sym again) (generate_fitted-Comes sampling (λ uses. not_first not_both uses) fine))
      where
        both_true : {a b : Bool} → a && b ≡ true → (a ≡ true) × (b ≡ true)
        both_true h = ground arith

        not_first : {a b : Bool} → a && b ≡ false → b ≡ true → a ≡ false
        not_first h g = ground arith

    with_engine-Comes :
        0 < params.max_tokens
        → 0 < app.settings.max_new_tokens_cap
        → Comes (with_engine host call kind params prompt_ids app)
    with_engine-Comes some_asked some_cap = by_engine app.engine refl
      where
        by_fit :
            (loaded : EngineKind) (o : Http SamplingParams)
            → app.engine ≡ some loaded
            → Fitted
                (limits_of app.settings)
                (length prompt_ids)
                (sampling_for
                  (limits_of app.settings)
                  params.temperature
                  params.top_p
                  params.max_tokens)
                o
            → fit_max_seq (limits_of app.settings) prompt_ids (
                sampling_for
                  (limits_of app.settings)
                  params.temperature
                  params.top_p
                  params.max_tokens)
              ≡ o
            → Comes (start_fitted host call kind params.stream prompt_ids app o)
        by_fit loaded o there (no_room long) e = refuses 400 app (too_long known refl long) refl
        by_fit loaded o there (fitted n few le cut some_token) e =
            start_fitted-Comes _ loaded there some_asked some_cap e

        by_engine :
            (o : Option EngineKind)
            → app.engine ≡ o
            → Comes (engine_at host call kind params prompt_ids app o)
        by_engine none missing = refuses 503 app (no_engine known refl missing) refl
        by_engine (some engine) there =
            let limits = limits_of app.settings in
            let asked = sampling_for limits params.temperature params.top_p params.max_tokens in
            by_fit engine (fit_max_seq limits prompt_ids asked) there
              (fit_max_seq-Fitted limits prompt_ids asked) refl

  module _ (kind : Endpoint) (params : Params) (prompt_ids : List ℕ) (app : App V L R)
      (some_asked : 0 < params.max_tokens) (some_cap : 0 < app.settings.max_new_tokens_cap) where
    abbrev Came : Bool × App V L R → Reply × App V L R → Type 0
    Came goes = Responds (seen host goes.0 app) call.seq_id params prompt_ids

    limited-Comes :
        (known : is_served params.model ≡ true) (done : Bool × ControlPlane R)
        → let goes = limited host call app done in
          Came goes (within_limit host call kind params prompt_ids goes)
    limited-Comes known (true, plane) =
        with_engine-Comes kind params prompt_ids known (record app { control = some plane })
          some_asked some_cap
    limited-Comes known (false, plane) = refuses 429 _ (over_limit known refl) refl

    limit_at-Comes :
        (known : is_served params.model ≡ true) (o : Option (ControlPlane R))
        → let goes = limit_at host call app o in
          Came goes (within_limit host call kind params prompt_ids goes)
    limit_at-Comes known none =
        with_engine-Comes kind params prompt_ids known app some_asked some_cap
    limit_at-Comes known (some plane) =
        if_ind
          (λ (goes : Bool × App V L R).
            Came goes (within_limit host call kind params prompt_ids goes))
          plane.enabled
          (λ _.
            limited-Comes known
              (allow host.redis (client_ip call.client) app.settings.rate_limit_per_min 60 plane))
          (λ _. with_engine-Comes kind params prompt_ids known app some_asked some_cap)

    respond-Comes :
        Came (enforce_rate_limit host call app) (respond host call kind params prompt_ids app)
    unfolding enforce_rate_limit
    respond-Comes =
        if_ind (Came (enforce_rate_limit host call app)) (is_served params.model)
          (λ known. limit_at-Comes known app.control)
          (λ unknown. refuses 404 app (unknown_model unknown) refl)

  -- The two handlers, for a body that asks for a token at least under a cap that allows one. An HTTP error
  -- has one of the causes listed and changes no scheduler. Else the model is known, the rate limit allows
  -- the request, there is an engine and the parameters are within the bounds: and if no worker is to
  -- serve, the engine is called, and its exception or its result is what comes of it, with no scheduler
  -- changed; if one is, its scheduler has accepted the sequence, and the handler streams it or waits.
  pub create-Responds :
      (params : Params) (prompt : Str) (messages : List (Str × Str)) (app : App V L R)
      → 0 < params.max_tokens
      → 0 < app.settings.max_new_tokens_cap
      → Responds
          (seen_at host call app)
          call.seq_id
          params
          (host.encode_text prompt)
          (create_completion host call params prompt app)
        × Responds
            (seen_at host call app)
            call.seq_id
            params
            (host.encode_chat messages)
            (create_chat_completion host call params messages app)
  unfolding create_completion create_chat_completion
  create-Responds params prompt messages app some_asked some_cap = (
    respond-Comes completions params (host.encode_text prompt) app some_asked some_cap,
    respond-Comes chat params (host.encode_chat messages) app some_asked some_cap,
  )
