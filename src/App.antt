-- ===== src/App.antt =====
-- The state of src/flux/server/app.py, `app.state`, how it starts and how it ends. `app.state.engine` is the
-- class of the engine; the lock of the engine, the waiting for the worker's task and the middleware are
-- left out. The lifespan raises what attach_worker raises.
pub mod Life
use flux_llm_inference_engin.Prelude.{ℕ, [], Option, none, some, if◌then◌else◌}
use flux_llm_inference_engin.Config.{Settings}
use flux_llm_inference_engin.Outcome.{Outcome, ok, raised}
use flux_llm_inference_engin.Control.{TokenRate}
use flux_llm_inference_engin.ControlPlane.{Redis, ControlPlane, attach_control_plane, close}
use flux_llm_inference_engin.Metrics.{Metrics}
use flux_llm_inference_engin.Worker.{abort_leftovers}
use flux_llm_inference_engin.Serving.{
  EngineKind, Attached, detached, queued_worker, continuous_worker, build_engine, attach_worker,
}
use Prim.Native.String.{String}

pub record App (V L R : Type 0) : Type 0 where
  pub settings : Settings
  pub engine : Option EngineKind
  pub attached : Attached V L
  pub control : Option (ControlPlane R)
  pub metrics : Metrics
  pub token_rate : TokenRate

-- The engine that the lifespan ends up with: the one it was given, or the one that it loads.
abbrev pub engine_at_start : Settings → Option EngineKind → Option EngineKind
engine_at_start settings (some engine) = some engine
engine_at_start settings none = if settings.load_model then some (build_engine settings) else none

abbrev pub close_control : {R : Type 0} → Option (ControlPlane R) → Option (ControlPlane R)
close_control none = none
close_control (some plane) = some (close plane)

abbrev pub stop_worker : {V L : Type 0} → Attached V L → Attached V L
stop_worker detached = detached
stop_worker (queued_worker w) = queued_worker (abort_leftovers w)
stop_worker (continuous_worker w) = continuous_worker (abort_leftovers w)

module _ {V L R : Type 0} where
  -- `create_app`, before the lifespan, with the metrics of the process.
  abbrev pub create_app : Settings → Option EngineKind → Metrics → App V L R
  create_app settings engine metrics = record {
    settings = settings;
    engine = engine;
    attached = detached;
    control = none;
    metrics = metrics;
    token_rate = record { window_s = 5; marks = [] };
  }

  abbrev pub started :
      App V L R → Option EngineKind → ControlPlane R → Outcome (Attached V L) → Outcome (App V L R)
  started app engine control (raised e) = raised e
  started app engine control (ok attached) =
      ok (record app { engine = engine; attached = attached; control = some control })

  -- The lifespan up to its `yield`. A model that is loaded may raise, which is left out.
  unfoldable pub start_up :
      Redis R → String → (bytes_per_token ram : ℕ) → App V L R → Outcome (App V L R)
  start_up client redis_url bytes_per_token ram app =
      let engine = engine_at_start app.settings app.engine in
      started app engine (attach_control_plane client app.settings.enable_redis redis_url)
        (attach_worker app.settings engine bytes_per_token ram)

  -- The lifespan after its `yield`: Redis is closed, and the worker, which has been asked to stop and is at
  -- the top of its loop, ends in time.
  unfoldable pub shut_down : App V L R → App V L R
  shut_down app = record app {
    control = close_control app.control;
    attached = stop_worker app.attached;
  }
