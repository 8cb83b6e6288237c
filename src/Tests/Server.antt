-- ===== src/Tests/Server.antt =====
-- Runs of the server: the start with its default settings, a request, and the operator's page.
use flux_llm_inference_engin.Prelude.{
  ℕ, [], ◌∷◌, ◌≡◌, refl, none, some, true, false, arith, codes, nat_eq, tokens_eq, strip, lower,
  read_int, read_digits, range,
}
use flux_llm_inference_engin.Config.{Settings, default_settings}
use flux_llm_inference_engin.Outcome.{ok, raised}
use flux_llm_inference_engin.Pool.{BlockPool, new as new_pool, resolve_num_kv_blocks}
use flux_llm_inference_engin.Worker.{Worker, here, next, begins, begin}
use flux_llm_inference_engin.Worker.Capacity.{IsWithin}
use flux_llm_inference_engin.Worker.Safety.{WorksOrEnded}
use flux_llm_inference_engin.Serving.{
  cached_engine, continuous_worker, attach_worker, num_blocks_for, scheduler_of, worker_of,
  scheduler_with, new_worker, blocks_setting, normalize_serve_engine,
}
use flux_llm_inference_engin.Serving.Start.{Attachment, attach_worker-Attachment}
use flux_llm_inference_engin.ControlPlane.{Redis, new, attach_control_plane}
use flux_llm_inference_engin.Metrics.{Metrics, update_gauges}
use flux_llm_inference_engin.App.{App, create_app, start_up}
use flux_llm_inference_engin.App.Life.{start_up-Reach}
use flux_llm_inference_engin.Admin.{admin_stats}
use flux_llm_inference_engin.Admin.Numbers.{Agree, update_gauges-admin_stats}
use flux_llm_inference_engin.Completions.{
  Host, Call, Params, create_completion, create_chat_completion,
}
use flux_llm_inference_engin.Completions.Refusals.{Responds, seen_at}
use flux_llm_inference_engin.Completions.Accepts.{create-Responds}
use flux_llm_inference_engin.Completions.Refines.{IsStep, create-IsStep}
use flux_llm_inference_engin.Schemas.{Body, natural, post_completion, post_chat}
use flux_llm_inference_engin.Schemas.Texts.{IsBlank, IsConversation}
use flux_llm_inference_engin.Schemas.Valid.{Posts, post-Posts}
use flux_llm_inference_engin.Tests.{toy}
use flux_llm_inference_engin.Tests.Steps.{at_work}

-- Twelve blocks of two tokens, two sequences at once.
abbrev settings : Settings
settings = record default_settings {
  max_batch_size = 2;
  max_waiting = 4;
  block_size = 2;
  num_kv_blocks = codes "12";
  max_seq_len = 16;
  max_new_tokens_cap = 4;
}

attach_worker-Attachment_example :
    Attachment {V = ℕ} {L = ℕ} settings
      (some cached_engine)
      (num_blocks_for settings 8 1000)
      (attach_worker settings (some cached_engine) 8 1000)
attach_worker-Attachment_example = attach_worker-Attachment settings 8 1000 (some cached_engine)

-- A Redis that never answers.
abbrev down : Redis Unit
down = record {
  connect = λ url. raised "refused";
  incr = λ key r. (raised "refused", r);
  expire = λ key s r. (raised "refused", r);
  setex = λ key ttl job r. (raised "refused", r);
  fetch = λ key r. (raised "refused", r);
}

abbrev no_metrics : Metrics
no_metrics = record {
  ttft = [];
  e2e = [];
  prefill = [];
  decode = [];
  tokens = 0;
  requests = [];
  recent_ttft = record { window_s = 60; samples = [] };
}

abbrev made : App ℕ ℕ Unit
made = create_app settings (some cached_engine) no_metrics

abbrev twelve_blocks : BlockPool
twelve_blocks = record {
  num_blocks = 12;
  block_size = 2;
  free_list = range 12;
  alloc = [];
  anon = [];
}

abbrev first_worker : Worker ℕ ℕ
first_worker = new_worker (scheduler_with settings twelve_blocks)

abbrev running : App ℕ ℕ Unit
running = record made { attached = continuous_worker first_worker; control = some new }

start_up_now : start_up down "redis://localhost:6379/0" 8 1000 made ≡ ok running
unfolding start_up attach_control_plane attach_worker num_blocks_for blocks_setting
    normalize_serve_engine default_settings resolve_num_kv_blocks new_pool lower strip read_int
    read_digits
start_up_now = refl

start_up-Reach_example : WorksOrEnded (begin 5 first_worker) × IsWithin 2 4 (begin 5 first_worker)
unfolding default_settings
start_up-Reach_example =
    start_up-Reach down "redis://localhost:6379/0" 8 1000 made running toy first_worker
      (begin 5 first_worker) start_up_now refl (next here (begins first_worker 5 refl))

-- The application with the worker of Tests.Steps, which has two waiters and a sequence that runs.
abbrev serving : App ℕ ℕ Unit
serving = record made { attached = continuous_worker at_work }

update_gauges-admin_stats_example :
    Agree
      (update_gauges (scheduler_of serving.attached) (worker_of serving.attached) 9)
      (admin_stats 12 100 serving).0
update_gauges-admin_stats_example = update_gauges-admin_stats 12 100 9 serving

abbrev host : Host Unit
host = record {
  redis = down;
  generate_ids = λ ids sampling. raised "no worker";
  encode_text = λ text. 1 ∷ text;
  encode_chat = λ messages. 1 ∷ 2 ∷ [];
  hex = λ id. "0f";
}

abbrev call : Call
call = record {
  now = 12;
  seq_id = 7;
  request_id = 8;
  client = record { forwarded = none; host = some "127.0.0.1" };
}

abbrev asks : Params
asks = record {
  model = codes "flux-qwen-0.5b";
  max_tokens = 3;
  temperature = 0;
  top_p = 1000000;
  stream = true;
}

create-Responds_example :
    Responds
      (seen_at host call serving)
      7
      asks
      (1 ∷ 5 ∷ [])
      (create_completion host call asks (5 ∷ []) serving)
    × Responds
        (seen_at host call serving)
        7
        asks
        (1 ∷ 2 ∷ [])
        (create_chat_completion host call asks [] serving)
unfolding default_settings
create-Responds_example =
    create-Responds host call asks (5 ∷ []) [] serving (omega arith) (omega arith)

create-IsStep_example :
    IsStep toy at_work (create_completion host call asks (5 ∷ []) serving).1.attached
    × IsStep toy at_work (create_chat_completion host call asks [] serving).1.attached
unfolding default_settings
create-IsStep_example =
    create-IsStep host call toy asks (5 ∷ []) [] serving at_work refl refl (omega arith)
      (omega arith)

abbrev body : Body
body = record {
  model = codes "flux-qwen-0.5b";
  max_tokens = natural 3;
  temperature = natural 0;
  top_p = natural 1000000;
  stream = false;
}

post-Posts_example :
    Posts host call serving body
      (1 ∷ 5 ∷ [])
      (¬ IsBlank (5 ∷ []))
      (post_completion host call body (5 ∷ []) serving)
    × Posts host call serving body
        (1 ∷ 2 ∷ [])
        (IsConversation [])
        (post_chat host call body [] serving)
unfolding default_settings
post-Posts_example = post-Posts host call body (5 ∷ []) [] serving (omega arith)
