-- ===== src/Schemas/Valid.antt =====
-- The bodies that src/flux/server/schemas.py lets through to the handlers of src/flux/server/routes_openai.py.
use flux_llm_inference_engin.Prelude.{
  sym, ◌∙◌, ◌≢◌, ◌↔◌, ℕ, ◌≤◌, ◌<◌, List, [], ◌≡◌, refl, ap, subst, Bool, true, false, not, Option,
  none, some, arith, leb, if◌then◌else◌,
}
use flux_llm_inference_engin.Config.{Str}
use flux_llm_inference_engin.App.{App}
use flux_llm_inference_engin.Completions.{Host, Call, Params, Reply, http_error}
use flux_llm_inference_engin.Completions.Refusals.{Responds, seen_at}
use flux_llm_inference_engin.Completions.Accepts.{create-Responds}
use flux_llm_inference_engin.Schemas.Texts.{
  IsBlank, not-is_blank-IsBlank, IsConversation, all_ok-IsConversation,
}
use flux_llm_inference_engin.Schemas.{
  Number, below_zero, natural, Body, is_blank, at_least, at_most, params_from, params_of,
  validate_completion, validate_chat, post_completion, post_chat, post_valid_completion,
  post_valid_chat,
}

-- The numbers of a body, as the parameters hold them, within their bounds.
pub record IsWell (body : Body) (params : Params) : Type 0 where
  pub model : params.model ≡ body.model
  pub stream : params.stream ≡ body.stream
  pub max_tokens : (body.max_tokens ≡ natural params.max_tokens) × (0 < params.max_tokens)
  pub temperature : body.temperature ≡ natural params.temperature
  pub top_p : (body.top_p ≡ natural params.top_p) × (0 < params.top_p) × (params.top_p ≤ 1000000)

at_least-some :
    (bound : ℕ) (number : Number) (n : ℕ)
    → at_least bound number ≡ some n
    → (number ≡ natural n) × (bound ≤ n)
at_least-some bound below_zero n h = cc
at_least-some bound (natural m) n h =
    let enough : leb bound m ≡ true = ground arith in
    let same : m ≡ n = cc (rw enough at h) in (ap natural same, ground (arith, enough, same))

at_most-some :
    (bound : ℕ) (o : Option ℕ) (n : ℕ) → at_most bound o ≡ some n → (o ≡ some n) × (n ≤ bound)
at_most-some bound none n h = cc
at_most-some bound (some m) n h =
    let few : leb m bound ≡ true = ground arith in
    let same : m ≡ n = cc (rw few at h) in (ap some same, ground (arith, few, same))

params_of-IsWell :
    (body : Body) (params : Params) → params_of body ≡ some params → IsWell body params
unfolding params_of
params_of-IsWell body params =
    by_parts (at_least 1 body.max_tokens) (at_least 0 body.temperature)
      (at_most 1000000 (at_least 1 body.top_p)) refl refl refl
  where
    by_parts :
        (a b c : Option ℕ)
        → at_least 1 body.max_tokens ≡ a
        → at_least 0 body.temperature ≡ b
        → at_most 1000000 (at_least 1 body.top_p) ≡ c
        → params_from body a b c ≡ some params
        → IsWell body params
    by_parts none b c ea eb ec h = cc
    by_parts (some a) none c ea eb ec h = cc
    by_parts (some a) (some b) none ea eb ec h = cc
    by_parts (some a) (some b) (some c) ea eb ec h =
        let top = at_most-some 1000000 (at_least 1 body.top_p) c ec in
        let same : record {
          model = body.model;
          max_tokens = a;
          temperature = b;
          top_p = c;
          stream = body.stream;
        }
            ≡ params =
          cc h in
        subst (IsWell body) same (record {
          model = refl;
          stream = refl;
          max_tokens = at_least-some 1 body.max_tokens a ea;
          temperature = (at_least-some 0 body.temperature b eb).0;
          top_p = let low = at_least-some 1 body.top_p c top.0 in (low.0, low.1, top.1);
        })

at_least-natural : (bound n : ℕ) → bound ≤ n → at_least bound (natural n) ≡ some n
at_least-natural bound n h = let enough : leb bound n ≡ true = ground arith in rw enough refl

at_most-natural : (bound n : ℕ) → n ≤ bound → at_most bound (some n) ≡ some n
at_most-natural bound n h = let few : leb n bound ≡ true = ground arith in rw few refl

-- A body whose numbers are within their bounds is one of which the parameters are made.
IsWell-params_of : (body : Body) (params : Params) → IsWell body params → params_of body ≢ none
unfolding params_of
IsWell-params_of body params well h =
    let asked : at_least 1 body.max_tokens ≡ some params.max_tokens =
      ap (at_least 1) well.max_tokens.0
      ∙ at_least-natural 1 params.max_tokens (omega (arith, well.max_tokens.1)) in
    let heat : at_least 0 body.temperature ≡ some params.temperature =
      ap (at_least 0) well.temperature ∙ at_least-natural 0 params.temperature (omega arith) in
    let top : at_most 1000000 (at_least 1 body.top_p) ≡ some params.top_p =
      ap (λ n. at_most 1000000 (at_least 1 n)) well.top_p.0
      ∙ ap (at_most 1000000) (at_least-natural 1 params.top_p (omega (arith, well.top_p.1)))
      ∙ at_most-natural 1000000 params.top_p well.top_p.2 in
    made (at_least 1 body.max_tokens) (at_least 0 body.temperature)
      (at_most 1000000 (at_least 1 body.top_p)) asked heat top h
  where
    made :
        (a b c : Option ℕ)
        → a ≡ some params.max_tokens
        → b ≡ some params.temperature
        → c ≡ some params.top_p
        → params_from body a b c ≢ none
    made none b c ea eb ec e = cc
    made (some a) none c ea eb ec e = cc
    made (some a) (some b) none ea eb ec e = cc
    made (some a) (some b) (some c) ea eb ec e = cc

-- A body that is valid: its texts are fine, and its numbers are some parameters' within their bounds.
abbrev pub IsValid : Type 0 → Body → Type 0
IsValid Texts body = Texts × (params : Params) × IsWell body params

refused_if :
    (Texts : Type 0) (body : Body) (b : Bool)
    → (b ≡ true) ↔ Texts
    → (if b then params_of body else none) ≡ none
    → ¬ IsValid Texts body
refused_if Texts body true iff e (texts, params, well) = IsWell-params_of body params well e
refused_if Texts body false iff e (texts, params, well) = cc (iff.1 texts)

passed_if :
    (Texts : Type 0) (body : Body) (b : Bool) (params : Params)
    → (b ≡ true) ↔ Texts
    → (if b then params_of body else none) ≡ some params
    → Texts × IsWell body params
passed_if Texts body true params iff e = (iff.0 refl, params_of-IsWell body params e)
passed_if Texts body false params iff e = cc

not_if :
    {A : Type 0} (b : Bool) (o : Option A) → (if b then none else o) ≡ (if not b then o else none)
not_if true o = refl
not_if false o = refl

module _ {V L R : Type 0} (host : Host R) (call : Call) where
  -- What an endpoint may answer to a body: the status 400 to one that is not valid, with nothing done, and
  -- else what its handler comes to.
  pub data Posts (app : App V L R) (body : Body) (prompt_ids : List ℕ) (Texts : Type 0)
      : Reply × App V L R → Type 0 where
    invalid : ¬ IsValid Texts body → Posts app body prompt_ids Texts (http_error 400, app)
    handled :
        (params : Params) (out : Reply × App V L R)
        → Texts
        → IsWell body params
        → Responds (seen_at host call app) call.seq_id params prompt_ids out
        → Posts app body prompt_ids Texts out

  -- Any body whatever, under a cap that allows a token. At either endpoint, one that is not valid is answered
  -- 400 and changes nothing, and a valid one is handled. Valid means that max_tokens is at least 1, temperature at least 0,
  -- top_p above 0 and at most 1, the prompt is not blank, or there is a message and each has a known role
  -- and is not blank. The handler then comes to what is listed for it.
  pub post-Posts :
      (body : Body) (prompt : Str) (messages : List (Str × Str)) (app : App V L R)
      → 0 < app.settings.max_new_tokens_cap
      → Posts app body
          (host.encode_text prompt)
          (¬ IsBlank prompt)
          (post_completion host call body prompt app)
        × Posts app body
            (host.encode_chat messages)
            (IsConversation messages)
            (post_chat host call body messages app)
  unfolding post_completion post_chat validate_completion validate_chat
  post-Posts body prompt messages app some_cap =
      (completion (validate_completion body prompt) refl, a_chat (validate_chat body messages) refl)
    where
      completion :
          (o : Option Params)
          → validate_completion body prompt ≡ o
          → Posts app body
              (host.encode_text prompt)
              (¬ IsBlank prompt)
              (post_valid_completion host call prompt app o)
      completion none e = invalid (
          refused_if _ body (not (is_blank prompt)) (not-is_blank-IsBlank prompt)
            (sym (not_if (is_blank prompt) (params_of body)) ∙ e))
      completion (some params) e =
          let v =
            passed_if (¬ IsBlank prompt) body (not (is_blank prompt)) params
              (not-is_blank-IsBlank prompt) (sym (not_if (is_blank prompt) (params_of body)) ∙ e) in
          handled params _ v.0 v.1
            (create-Responds host call params prompt messages app v.1.max_tokens.1 some_cap).0

      a_chat :
          (o : Option Params)
          → validate_chat body messages ≡ o
          → Posts app body
              (host.encode_chat messages)
              (IsConversation messages)
              (post_valid_chat host call messages app o)
      a_chat none e = invalid (refused_if _ body _ (all_ok-IsConversation messages) e)
      a_chat (some params) e =
          let v =
            passed_if (IsConversation messages) body _ params (all_ok-IsConversation messages) e in
          handled params _ v.0 v.1
            (create-Responds host call params [] messages app v.1.max_tokens.1 some_cap).1
