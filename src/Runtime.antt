-- ===== src/Runtime.antt =====
-- src/flux/runtime.py, src/flux/device.py and src/flux/engine/model_loader.py: the number of threads, the device and
-- the type of the weights. What torch and the host report are arguments. A setting that is a number or
-- None is given as its text, None as the empty one. Reading /proc and the loading itself are left out.
pub mod Device
use flux_llm_inference_engin.Prelude.{
  ℕ, min, max, [], ◌∷◌, Bool, true, false, not, ◌||◌, Option, none, some, ltb, codes, strip, lower,
  is_empty, is_among, read_int, if◌then◌else◌,
}
use flux_llm_inference_engin.Config.{Str, Settings}
use flux_llm_inference_engin.Outcome.{Outcome, ok, raised}

abbrev threads_given : Option ℕ → Outcome ℕ
threads_given none = raised "invalid literal for int()"
threads_given (some n) = if ltb n 1 then raised "intra_threads must be >= 1" else ok n

unfoldable pub parse_intra_threads : Str → (cpu_count : ℕ) → Outcome ℕ
parse_intra_threads value cpu_count =
    if is_empty value || is_among value ("auto" ∷ [])
    then ok (max 1 (min 8 cpu_count))
    else threads_given (read_int value)

pub data DeviceName : Type 0 where
  cpu cuda mps : DeviceName

-- What torch reports of the host.
pub record Host : Type 0 where
  pub has_cuda : Bool
  pub has_mps : Bool

-- The name that the setting gives, cleaned.
pub data Asked : Type 0 where
  auto unknown : Asked
  named : DeviceName → Asked

unfoldable pub asked_for : Str → Asked
asked_for requested =
    let name = lower (strip (if is_empty requested then codes "cpu" else requested)) in
    if is_among name ("auto" ∷ [])
    then auto
    else if is_among name ("cpu" ∷ [])
    then named cpu
    else if is_among name ("cuda" ∷ [])
    then named cuda
    else if is_among name ("mps" ∷ [])
    then named mps
    else unknown

abbrev pub granted : Host → Asked → Outcome DeviceName
granted host auto = if host.has_cuda then ok cuda else if host.has_mps then ok mps else ok cpu
granted host (named cpu) = ok cpu
granted host (named cuda) =
    if host.has_cuda then ok cuda else raised "torch.cuda.is_available() is False"
granted host (named mps) = if host.has_mps then ok mps else raised "MPS is not available"
granted host unknown = raised "Unknown device"

unfoldable pub resolve_device : Host → Str → Outcome DeviceName
resolve_device host requested = granted host (asked_for requested)

pub data Dtype : Type 0 where
  float32 float16 bfloat16 : Dtype

unfoldable pub torch_dtype : Str → Outcome Dtype
torch_dtype name =
    let key = lower name in
    if is_among key ("fp32" ∷ "float32" ∷ [])
    then ok float32
    else if is_among key ("fp16" ∷ "float16" ∷ [])
    then ok float16
    else if is_among key ("bf16" ∷ "bfloat16" ∷ [])
    then ok bfloat16
    else raised "unsupported dtype"

-- How load_causal_lm loads the weights: where, as what, and with eager attention or not.
pub record Loading : Type 0 where
  pub device : DeviceName
  pub dtype : Dtype
  pub eager : Bool

abbrev pub is_cpu : DeviceName → Bool
is_cpu cpu = true
is_cpu _ = false

abbrev pub loading_as : DeviceName → Outcome Dtype → Outcome Loading
loading_as device (raised e) = raised e
loading_as device (ok dtype) = ok (record {
  device = device;
  dtype = if is_cpu device then float32 else dtype;
  eager = is_cpu device;
})

abbrev pub loading_on : Settings → Outcome DeviceName → Outcome Loading
loading_on settings (raised e) = raised e
loading_on settings (ok device) = loading_as device (torch_dtype settings.dtype)

-- load_causal_lm, up to the calls of transformers.
unfoldable pub loading_of : Host → Settings → Outcome Loading
loading_of host settings = loading_on settings (resolve_device host settings.device)
