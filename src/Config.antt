-- ===== src/Config.antt =====
-- src/flux/config.py: the settings that the server and the engine read, and the names of the model. The
-- environment and the .env file only fill the fields. A string setting is the list of its code
-- points, and a number is not negative.
use Prim.Native.String.{String}
use flux_llm_inference_engin.Prelude.{
  ℕ, List, [], ◌∷◌, Bool, true, false, not, map, keep_if, codes, strip, split, is_empty, is_among,
}

abbrev pub Str : Type 0
Str = List ℕ

abbrev pub served_model_id : String
served_model_id = "flux-qwen-0.5b"

abbrev pub hf_model_id : String
hf_model_id = "Qwen/Qwen2.5-0.5B-Instruct"

-- `name in SERVED_MODEL_ALIASES`
unfoldable pub is_served : Str → Bool
is_served name = is_among name (served_model_id ∷ hf_model_id ∷ [])

pub record Settings : Type 0 where
  pub model : Str
  pub dtype : Str
  pub device : Str
  pub max_batch_size : ℕ
  pub max_waiting : ℕ
  pub block_size : ℕ
  pub num_kv_blocks : Str
  pub max_seq_len : ℕ
  pub scheduler : Str
  pub intra_threads : Str
  pub enable_redis : Bool
  pub rate_limit_per_min : ℕ
  pub cors_origins : Str
  pub load_model : Bool
  pub max_new_tokens_cap : ℕ
  pub serve_engine : Str
  pub enable_prefix_cache : Bool
  pub prefix_cache_max_entries : ℕ

-- The defaults of the fields.
unfoldable pub default_settings : Settings
default_settings = record {
  model = codes hf_model_id;
  dtype = codes "fp32";
  device = codes "cpu";
  max_batch_size = 8;
  max_waiting = 256;
  block_size = 16;
  num_kv_blocks = codes "auto";
  max_seq_len = 1024;
  scheduler = codes "fcfs";
  intra_threads = codes "auto";
  enable_redis = false;
  rate_limit_per_min = 120;
  cors_origins = codes "http://localhost:3000,http://127.0.0.1:3000";
  load_model = true;
  max_new_tokens_cap = 64;
  serve_engine = codes "continuous";
  enable_prefix_cache = true;
  prefix_cache_max_entries = 64;
}

-- The pieces between the commas, stripped, without the blank ones.
unfoldable pub cors_origin_list : Settings → List Str
cors_origin_list settings =
    map strip (keep_if (λ item. not (is_empty (strip item))) (split 44 settings.cors_origins))
