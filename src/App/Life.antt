-- ===== src/App/Life.antt =====
-- The server from its start: the lifespan of src/flux/server/app.py, with the worker that src/flux/engine/serving.py
-- attaches, and all steps that the worker takes from there.
use flux_llm_inference_engin.Prelude.{ℕ, [], ◌≡◌, sym, ap, ◌∙◌, subst, Option, some, arith, length}
use Prim.Native.String.{String}
use flux_llm_inference_engin.Config.{Settings}
use flux_llm_inference_engin.Outcome.{Outcome, ok, raised}
use flux_llm_inference_engin.Engine.{Engine}
use flux_llm_inference_engin.ControlPlane.{Redis, ControlPlane, attach_control_plane}
use flux_llm_inference_engin.Worker.{Worker, Reach}
use flux_llm_inference_engin.Worker.Capacity.{IsWithin, Reach-IsWithin}
use flux_llm_inference_engin.Worker.Safety.{Works, WorksOrEnded, Reach-WorksOrEnded}
use flux_llm_inference_engin.Serving.{EngineKind, Attached, continuous_worker, num_blocks_for}
use flux_llm_inference_engin.Serving.Start.{
  Attachment, unattached, unsized, attached_queued, attached_continuous, IsFresh,
  attach_worker-Attachment,
}
use flux_llm_inference_engin.App.{App, engine_at_start, started, start_up}

module _ {V L : Type 0} where
  -- A worker as it was attached: it works, and keeps to the bounds of the settings.
  abbrev pub Starts : Settings → Worker V L → Type 0
  Starts settings w = Works w × IsWithin settings.max_batch_size settings.max_waiting w

  fresh-IsWithin :
      (settings : Settings) (w : Worker V L)
      → IsFresh settings w.sched
      → w.admitted ≡ []
      → w.running ≡ []
      → IsWithin settings.max_batch_size settings.max_waiting w
  fresh-IsWithin settings w fresh none_admitted none_running = record {
    bounds = cc (fresh.max_batch, fresh.max_waiting);
    batch = omega (arith, ap length none_admitted, ap length none_running);
    queue = omega (arith, ap length fresh.nobody);
  }

  attached-Starts :
      (settings : Settings) (engine : Option EngineKind) (blocks : Option ℕ)
      (o : Outcome (Attached V L)) (w : Worker V L)
      → Attachment settings engine blocks o
      → o ≡ ok (continuous_worker w)
      → Starts settings w
  attached-Starts settings engine blocks o w (unattached why) e = cc
  attached-Starts settings engine blocks o w (unsized text why) e = cc
  attached-Starts settings engine blocks o w (attached_queued q m fresh none_running) e = cc
  attached-Starts settings engine blocks o w
        (attached_continuous first m fresh at_top none_running works) e =
      subst (Starts settings) (cc e)
        (works, fresh-IsWithin settings first fresh (works.none_at_top at_top) none_running)

module _ {V L R : Type 0} where
  started-Starts :
      (app : App V L R) (engine : Option EngineKind) (control : ControlPlane R) (blocks : Option ℕ)
      (o : Outcome (Attached V L)) (after : App V L R) (w : Worker V L)
      → Attachment app.settings engine blocks o
      → started app engine control o ≡ ok after
      → after.attached ≡ continuous_worker w
      → Starts app.settings w × (after.settings ≡ app.settings)
  started-Starts app engine control blocks (raised e) after w a h at = cc
  started-Starts app engine control blocks (ok attached) after w a h at =
      let same : record app { engine = engine; attached = attached; control = some control }
          ≡ after =
        cc h in
      let here : attached ≡ after.attached = ap (λ (s : App V L R). s.attached) same in
      (
        attached-Starts app.settings engine blocks (ok attached) w a (ap ok (here ∙ at)),
        ap (λ (s : App V L R). s.settings) (sym same),
      )

  -- From the start of the server, with any settings: if the lifespan starts a continuous worker, then in
  -- every state that this worker reaches, in any order of its steps with requests, aborts and the operator's
  -- aborts, each taken as one step, it works or its task has ended, by a stop or by an exception of the
  -- sampler in a decode step, and the batch and the queue keep to the bounds of the settings.
  pub start_up-Reach :
      (client : Redis R) (redis_url : String) (bytes_per_token ram : ℕ) (app after : App V L R)
      (engine : Engine V L) (w last : Worker V L)
      → start_up client redis_url bytes_per_token ram app ≡ ok after
      → after.attached ≡ continuous_worker w
      → Reach engine w last
      → WorksOrEnded last × IsWithin app.settings.max_batch_size app.settings.max_waiting last
  unfolding start_up
  start_up-Reach client redis_url bytes_per_token ram app after engine w last h at path =
      let loaded = engine_at_start app.settings app.engine in
      let starts =
        started-Starts app loaded (attach_control_plane client app.settings.enable_redis redis_url)
          (num_blocks_for app.settings bytes_per_token ram) _ after w
          (attach_worker-Attachment app.settings bytes_per_token ram loaded) h at in
      (
        Reach-WorksOrEnded engine path starts.0.0,
        Reach-IsWithin engine app.settings.max_batch_size app.settings.max_waiting path starts.0.0
            starts.0.1,
      )
