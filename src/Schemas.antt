-- ===== src/Schemas.antt =====
-- src/flux/server/schemas.py: which bodies the endpoints accept. A body has its fields, with the types that
-- JSON gave them; a number may be below zero, and `temperature` and `top_p` are in millionths. `none` is
-- the RequestValidationError, which src/flux/server/app.py answers with the status 400. `stop` is read by no
-- handler.
pub mod Texts
pub mod Valid
use flux_llm_inference_engin.Prelude.{
  ℕ, List, [], ◌∷◌, Bool, true, false, not, ◌&&◌, Option, none, some, leb, strip, is_empty,
  is_among, if◌then◌else◌,
}
use flux_llm_inference_engin.Config.{Str}
use flux_llm_inference_engin.Completions.{
  Host, Call, Params, Reply, http_error, create_completion, create_chat_completion,
}
use flux_llm_inference_engin.App.{App}

pub data Number : Type 0 where
  below_zero : Number
  natural : ℕ → Number

-- The fields that both bodies share. A missing field has its default here already.
pub record Body : Type 0 where
  pub model : Str
  pub max_tokens : Number
  pub temperature : Number
  pub top_p : Number
  pub stream : Bool

-- `not value.strip()`
abbrev pub is_blank : Str → Bool
is_blank value = is_empty (strip value)

-- The number, where it is at least the bound.
abbrev pub at_least : ℕ → Number → Option ℕ
at_least bound below_zero = none
at_least bound (natural n) = if leb bound n then some n else none

abbrev pub at_most : ℕ → Option ℕ → Option ℕ
at_most bound none = none
at_most bound (some n) = if leb n bound then some n else none

abbrev pub params_from : Body → Option ℕ → Option ℕ → Option ℕ → Option Params
params_from body (some max_tokens) (some temperature) (some top_p) = some (record {
  model = body.model;
  max_tokens = max_tokens;
  temperature = temperature;
  top_p = top_p;
  stream = body.stream;
})
params_from body _ _ _ = none

-- max_tokens >= 1, temperature >= 0, 0 < top_p <= 1
unfoldable pub params_of : Body → Option Params
params_of body =
    params_from body (at_least 1 body.max_tokens) (at_least 0 body.temperature)
      (at_most 1000000 (at_least 1 body.top_p))

-- CompletionRequest
unfoldable pub validate_completion : Body → Str → Option Params
validate_completion body prompt = if is_blank prompt then none else params_of body

-- `role_ok`
abbrev pub role_ok : Str → Bool
role_ok role = is_among role ("system" ∷ "user" ∷ "assistant" ∷ [])

abbrev pub message_ok : Str × Str → Bool
message_ok (role, content) = role_ok role && not (is_blank content)

abbrev pub all_ok : List (Str × Str) → Bool
all_ok [] = true
all_ok (m ∷ messages) = message_ok m && all_ok messages

abbrev pub is_none_sent : List (Str × Str) → Bool
is_none_sent [] = true
is_none_sent (m ∷ messages) = false

-- ChatCompletionRequest
unfoldable pub validate_chat : Body → List (Str × Str) → Option Params
validate_chat body messages =
    if not (is_none_sent messages) && all_ok messages then params_of body else none

module _ {V L R : Type 0} (host : Host R) (call : Call) where
  abbrev pub post_valid_completion : Str → App V L R → Option Params → Reply × App V L R
  post_valid_completion prompt app none = (http_error 400, app)
  post_valid_completion prompt app (some params) = create_completion host call params prompt app

  -- POST /v1/completions
  unfoldable pub post_completion : Body → Str → App V L R → Reply × App V L R
  post_completion body prompt app =
      post_valid_completion prompt app (validate_completion body prompt)

  abbrev pub post_valid_chat : List (Str × Str) → App V L R → Option Params → Reply × App V L R
  post_valid_chat messages app none = (http_error 400, app)
  post_valid_chat messages app (some params) = create_chat_completion host call params messages app

  -- POST /v1/chat/completions
  unfoldable pub post_chat : Body → List (Str × Str) → App V L R → Reply × App V L R
  post_chat body messages app = post_valid_chat messages app (validate_chat body messages)
