-- ===== src/Sequence.antt =====
-- src/flux/engine/sequence.py and src/flux/engine/types.py: a request and its life. The dataclass is
-- a record. An id is 16 hexadecimal digits of a UUID: the number that they write. Timestamps are
-- left out, since no branch of the engine reads them; `prompt_ids` is the list that
-- `prompt_token_ids` returns. An exception that the engine stored is its text. The asyncio queue is
-- the list of the items put into it, oldest first, and the event is a flag.
pub mod Life
use Prim.Native.String.{String}
use flux_llm_inference_engin.Prelude.{
  ℕ, ◌+◌, List, [], Bool, true, false, Option, none, some, length, leb,
}
use flux_llm_inference_engin.Kv.{Cache}

pub data Status : Type 0 where
  waiting prefill decoding finished aborted error : Status

pub data Reason : Type 0 where
  stop length_limit : Reason

-- Temperature and top_p in millionths.
pub record SamplingParams : Type 0 where
  pub temperature : ℕ
  pub top_p : ℕ
  pub max_tokens : ℕ
  pub stop_token_ids : List ℕ
  pub ignore_eos : Bool

pub record GenerateResult : Type 0 where
  pub text : String
  pub prompt_token_ids : List ℕ
  pub output_token_ids : List ℕ
  pub prompt_tokens : ℕ
  pub completion_tokens : ℕ
  pub finish_reason : Reason
  pub engine : String

pub record Sequence (V L : Type 0) : Type 0 where
  pub id : ℕ
  pub prompt_ids : List ℕ
  pub sampling : SamplingParams
  pub output_ids : List ℕ
  pub status : Status
  pub kv_cache : Option (Cache V)
  pub last_token : Option ℕ
  pub finish_reason : Option Reason
  pub result : Option GenerateResult
  pub error : Option String
  pub token_queue : List (Option ℕ)
  pub finished_event : Bool
  pub block_ids : List ℕ
  pub owned_block_ids : List ℕ
  pub prefix_key : Option (List ℕ)
  pub prefix_tokens : ℕ
  pub prefix_kv : Option (Cache V)
  pub prefix_logits : Option L
  pub abort_requested : Bool

module _ {V L : Type 0} where
  -- Sequence(prompt_ids=…, sampling=…), with the field defaults.
  abbrev pub new : ℕ → List ℕ → SamplingParams → Sequence V L
  new id prompt_ids sampling = record {
    id = id;
    prompt_ids = prompt_ids;
    sampling = sampling;
    output_ids = [];
    status = waiting;
    kv_cache = none;
    last_token = none;
    finish_reason = none;
    result = none;
    error = none;
    token_queue = [];
    finished_event = false;
    block_ids = [];
    owned_block_ids = [];
    prefix_key = none;
    prefix_tokens = 0;
    prefix_kv = none;
    prefix_logits = none;
    abort_requested = false;
  }

  abbrev pub reservation_tokens : Sequence V L → ℕ
  reservation_tokens seq = length seq.prompt_ids + seq.sampling.max_tokens

  abbrev pub request_abort : Sequence V L → Sequence V L
  request_abort seq = record seq { abort_requested = true }

  unfoldable pub is_done : Sequence V L → Bool
  is_done seq = elim seq.finish_reason [
    | some reason ↦ true
    | none ↦ leb seq.sampling.max_tokens (length seq.output_ids)
  ]
