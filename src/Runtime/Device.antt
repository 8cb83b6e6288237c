-- ===== src/Runtime/Device.antt =====
-- What src/flux/engine/model_loader.py asks of the host.
use flux_llm_inference_engin.Prelude.{if◌then◌else◌, ◌≡◌, refl, true, if_ind}
use flux_llm_inference_engin.Config.{Str, Settings}
use flux_llm_inference_engin.Outcome.{Outcome, ok, raised}
use flux_llm_inference_engin.Runtime.{
  Asked, auto, unknown, named, asked_for, granted, Host, DeviceName, cpu, cuda, mps, resolve_device,
  Dtype, float32, torch_dtype, Loading, loading_as, loading_on, loading_of,
}

-- A device that the host has.
abbrev pub IsThere : Host → DeviceName → Type 0
IsThere host cpu = Unit
IsThere host cuda = host.has_cuda ≡ true
IsThere host mps = host.has_mps ≡ true

-- A device is there, or the call raises.
abbrev IsThereOr : Host → Outcome DeviceName → Type 0
IsThereOr host (raised e) = Unit
IsThereOr host (ok device) = IsThere host device

granted-IsThere : (host : Host) (asked : Asked) → IsThereOr host (granted host asked)
granted-IsThere host auto =
    if_ind (IsThereOr host) host.has_cuda {x = ok cuda}
      {y = if host.has_mps then ok mps else ok cpu} (λ h. h)
      (λ _. if_ind (IsThereOr host) host.has_mps {x = ok mps} {y = ok cpu} (λ h. h) (λ _. tt))
granted-IsThere host (named cpu) = tt
granted-IsThere host (named cuda) =
    if_ind (IsThereOr host) host.has_cuda {x = ok cuda}
      {y = raised "torch.cuda.is_available() is False"} (λ h. h) (λ _. tt)
granted-IsThere host (named mps) =
    if_ind (IsThereOr host) host.has_mps {x = ok mps} {y = raised "MPS is not available"} (λ h. h)
      (λ _. tt)
granted-IsThere host unknown = tt

resolve_device-IsThere :
    (host : Host) (requested : Str) → IsThereOr host (resolve_device host requested)
unfolding resolve_device
resolve_device-IsThere host requested = granted-IsThere host (asked_for requested)

-- What may be loaded: on a device that is there, and on the CPU with 32 bits and eager attention.
abbrev pub IsLoadable : Host → Outcome Loading → Type 0
IsLoadable host (raised e) = Unit
IsLoadable host (ok loading) =
    IsThere host loading.device
    × (loading.device ≡ cpu → (loading.dtype ≡ float32) × (loading.eager ≡ true))

loading_as-IsLoadable :
    (host : Host) (device : DeviceName) (dtype : Outcome Dtype)
    → IsThere host device
    → IsLoadable host (loading_as device dtype)
loading_as-IsLoadable host device (raised e) here = tt
loading_as-IsLoadable host cpu (ok dtype) here = (here, λ _. (refl, refl))
loading_as-IsLoadable host cuda (ok dtype) here = (here, λ h. cc)
loading_as-IsLoadable host mps (ok dtype) here = (here, λ h. cc)

-- load_causal_lm never asks for a device that the host does not have, and on the CPU it loads 32-bit
-- weights with eager attention, whatever the settings ask for.
pub loading_of-IsLoadable :
    (host : Host) (settings : Settings) → IsLoadable host (loading_of host settings)
unfolding loading_of
loading_of-IsLoadable host settings =
    from (resolve_device host settings.device) (resolve_device-IsThere host settings.device)
  where
    from : (o : Outcome DeviceName) → IsThereOr host o → IsLoadable host (loading_on settings o)
    from (raised e) here = tt
    from (ok device) here = loading_as-IsLoadable host device (torch_dtype settings.dtype) here
