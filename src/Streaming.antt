-- ===== src/Streaming.antt =====
-- The event streams of src/flux/server/sse.py and src/flux/server/routes_openai.py. An event is the chunk that its
-- JSON says, or the end mark. A generator is the list of what it yields, with what it has done by its
-- end. `gone k` says that the client is disconnected when the generator looks for the k-th time; a
-- generator that is cancelled ends as one whose client is gone. `decode` is the tokenizer's decode
-- without special tokens. Timings are left out of the chunks and headers.
pub mod Words
use Prim.Native.String.{String}
use flux_llm_inference_engin.Prelude.{
  ℕ, suc, ◌+◌, List, [], ◌∷◌, ◌++◌, Bool, true, false, not, Option, none, some, map, if◌then◌else◌,
  string_eq,
}
use flux_llm_inference_engin.Sequence.{
  Sequence, GenerateResult, Reason, length_limit, Status, aborted,
}
use flux_llm_inference_engin.Tokenizer.{Text, decode_delta, yield_text, iter_text_deltas}
use flux_llm_inference_engin.Metrics.{Endpoint, completions, chat}

pub record Usage : Type 0 where
  pub prompt_tokens : ℕ
  pub completion_tokens : ℕ
  pub total_tokens : ℕ

-- `_usage`
unfoldable pub usage_of : GenerateResult → Usage
usage_of result = record {
  prompt_tokens = result.prompt_tokens;
  completion_tokens = result.completion_tokens;
  total_tokens = result.prompt_tokens + result.completion_tokens;
}

pub record Extra : Type 0 where
  pub usage : Usage
  pub engine : String

-- `_flux_extra`
abbrev pub flux_extra : Option GenerateResult → Option Extra
flux_extra none = none
flux_extra (some result) = some (record { usage = usage_of result; engine = result.engine })

-- `_result_headers`
pub record Headers : Type 0 where
  pub x_flux_prompt_tokens : ℕ
  pub x_flux_completion_tokens : ℕ
  pub x_flux_engine : String

unfoldable pub result_headers : GenerateResult → Headers
result_headers result = record {
  x_flux_prompt_tokens = result.prompt_tokens;
  x_flux_completion_tokens = result.completion_tokens;
  x_flux_engine = result.engine;
}

-- finish_reason of a chunk
pub data EndReason : Type 0 where
  because : Reason → EndReason
  by_abort : EndReason

pub data Delta : Type 0 where
  role : Delta
  content : Text → Delta
  nothing : Delta

pub record Chunk : Type 0 where
  pub object : Endpoint
  pub id : String
  pub created : ℕ
  pub delta : Delta
  pub finish_reason : Option EndReason
  pub extra : Option Extra

pub data Event : Type 0 where
  chunk : Chunk → Event
  done_mark : Event

module _ (request_id : String) (created : ℕ) where
  abbrev pub completion_chunk : Text → Option EndReason → Option Extra → Chunk
  completion_chunk text finish_reason extra = record {
    object = completions;
    id = request_id;
    created = created;
    delta = content text;
    finish_reason = finish_reason;
    extra = extra;
  }

  abbrev pub chat_chunk : Delta → Option EndReason → Option Extra → Chunk
  chat_chunk delta finish_reason extra = record {
    object = chat;
    id = request_id;
    created = created;
    delta = delta;
    finish_reason = finish_reason;
    extra = extra;
  }

-- The events of the deltas up to the first look at which the client is gone, and whether it stayed.
unfoldable pub send_deltas : (Text → Event) → (ℕ → Bool) → ℕ → List Text → List Event × Bool
send_deltas wrap gone k [] = ([], true)
send_deltas wrap gone k (delta ∷ deltas) =
    let rest = send_deltas wrap gone (suc k) deltas in
    if gone k then ([], false) else (wrap delta ∷ rest.0, rest.1)

-- What a generator over a sequence has yielded, whether it has asked for the sequence's abort, and the
-- reason that it leaves with the job, if it came to its end.
pub record Streamed : Type 0 where
  pub events : List Event
  pub aborts : Bool
  pub finished_with : Option EndReason

abbrev pub unless_aborted : Status → Event → List Event
unless_aborted aborted event = []
unless_aborted _ event = event ∷ []

module _ {V L : Type 0} where
  abbrev pub end_reason : Sequence V L → EndReason
  end_reason seq = elim seq.finish_reason [
    | some reason ↦ because reason
    | none ↦ if seq.abort_requested then by_abort else because length_limit
  ]

  -- The end of both generators: after the deltas, with the closing chunk.
  abbrev pub close_stream : Sequence V L → List Event → Event → List Event × Bool → Streamed
  close_stream seq opening closing (sent, true) = record {
    events = opening ++ (sent ++ (unless_aborted seq.status closing ++ done_mark ∷ []));
    aborts = not seq.finished_event;
    finished_with = some (end_reason seq);
  }
  close_stream seq opening closing (sent, false) = record {
    events = opening ++ sent;
    aborts = true;
    finished_with = none;
  }

  module _ (decode : List ℕ → Text) (gone : ℕ → Bool) (request_id : String) (created : ℕ) where
    -- `_stream_completion`, where `seen` are the sequence's tokens as they were at each token that was
    -- taken from the queue, and `seq` is the sequence at its end.
    unfoldable pub stream_completion : List (List ℕ) → Sequence V L → Streamed
    stream_completion seen seq =
        close_stream seq []
          (chunk (
            completion_chunk request_id created [] (some (end_reason seq)) (flux_extra seq.result)))
          (send_deltas (λ text. chunk (completion_chunk request_id created text none none)) gone 0
            (iter_text_deltas decode seen seq.output_ids []))

    -- `_stream_chat`
    unfoldable pub stream_chat : List (List ℕ) → Sequence V L → Streamed
    stream_chat seen seq =
        close_stream seq (chunk (chat_chunk request_id created role none none) ∷ [])
          (chunk
            (chat_chunk request_id created nothing (some (end_reason seq)) (flux_extra seq.result)))
          (send_deltas (λ text. chunk (chat_chunk request_id created (content text) none none)) gone
            0 (iter_text_deltas decode seen seq.output_ids []))

-- The loop of `_stream_from_result`: the deltas of a result's tokens, after the ones before.
unfoldable pub result_deltas : (List ℕ → Text) → List ℕ → Text → List ℕ → List Text
result_deltas decode ids prev [] = []
result_deltas decode ids prev (token ∷ tokens) =
    let (prev', delta) = decode_delta decode (ids ++ token ∷ []) prev in
    yield_text delta (result_deltas decode (ids ++ token ∷ []) prev' tokens)

-- `_stream_from_result`
unfoldable pub stream_from_result :
    (List ℕ → Text) → Endpoint → String → ℕ → GenerateResult → List Event
stream_from_result decode chat request_id created result =
    chunk (chat_chunk request_id created role none none)
      ∷ map (λ text. chunk (chat_chunk request_id created (content text) none none))
          (result_deltas decode [] [] result.output_token_ids)
    ++ chunk (
        chat_chunk request_id created nothing (some (because result.finish_reason))
          (flux_extra (some result)))
      ∷ done_mark
      ∷ []
stream_from_result decode _ request_id created result =
    map (λ text. chunk (completion_chunk request_id created text none none))
      (result_deltas decode [] [] result.output_token_ids)
    ++ chunk (
        completion_chunk request_id created [] (some (because result.finish_reason))
          (flux_extra (some result)))
      ∷ done_mark
      ∷ []
