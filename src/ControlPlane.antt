-- ===== src/ControlPlane.antt =====
-- src/flux/redis_client.py: rate limits and the status of jobs. The Redis client is third-party code: an
-- interface, whose state `R` is that of the client and of the server behind it. A job is what the dict
-- holds under its keys; `updated_at` is the time. `json.dumps` and `json.loads` are each other's inverse
-- on such a dict, so that Redis keeps the job itself. An empty answer of Redis is `none`. A call that
-- raises is `raised`, with the state that it leaves. The lock excludes other threads from one access to
-- the dict; each access is one step here.
pub mod Limit
pub mod Jobs
use Prim.Native.String.{String, ◌++◌ as concat}
use flux_llm_inference_engin.Prelude.{
  ℕ, [], ◌∷◌, Bool, true, false, not, Option, none, some, leb, nat_beq, if◌then◌else◌, string_eq,
}
use flux_llm_inference_engin.Prelude.Dict.{Dict, get, put}
use flux_llm_inference_engin.Outcome.{Outcome, ok, raised}

pub data Field : Type 0 where
  text : String → Field
  number : ℕ → Field

abbrev pub Job : Type 0
Job = Dict String Field

-- What the control plane calls.
pub record Redis (R : Type 0) : Type 0 where
  pub connect : String → Outcome R
  pub incr : String → R → Outcome ℕ × R
  pub expire : String → ℕ → R → Outcome Unit × R
  pub setex : String → ℕ → Job → R → Outcome Unit × R
  pub fetch : String → R → Outcome (Option Job) × R

pub record ControlPlane (R : Type 0) : Type 0 where
  pub enabled : Bool
  pub redis : Option R
  pub jobs : Dict String Job

-- `dict(found) if found else None`
abbrev pub or_nothing : Option Job → Option Job
or_nothing none = none
or_nothing (some []) = none
or_nothing (some (entry ∷ entries)) = some (entry ∷ entries)

module _ {R : Type 0} where
  -- ControlPlane()
  abbrev pub new : ControlPlane R
  new = record { enabled = false; redis = none; jobs = [] }

  abbrev pub close : ControlPlane R → ControlPlane R
  close plane = record plane { redis = none; enabled = false }

  -- The state of the client, where `self.enabled and self._redis is not None`.
  abbrev pub live : ControlPlane R → Option R
  live plane = if plane.enabled then plane.redis else none

  abbrev pub with_redis : R → ControlPlane R → ControlPlane R
  with_redis r plane = record plane { redis = some r }

  module _ (client : Redis R) where
    abbrev connected : ControlPlane R → Outcome R → ControlPlane R
    connected plane (raised e) = plane
    connected plane (ok r) = record plane { redis = some r; enabled = true }

    -- `attach_control_plane`: the plane stays in memory where Redis is off or does not answer.
    unfoldable pub attach_control_plane : Bool → String → ControlPlane R
    attach_control_plane enable_redis redis_url =
        if enable_redis then connected new (client.connect redis_url) else new

    -- After `incr`: the key of a new window is given its end, and the count decides. An exception of
    -- either call allows the request.
    abbrev pub counted :
        String → (limit window_s : ℕ) → ControlPlane R → Outcome ℕ × R → Bool × ControlPlane R
    counted key limit window_s plane (raised e, r) = (true, with_redis r plane)
    counted key limit window_s plane (ok n, r) =
        if nat_beq n 1
        then (
          expired_or (leb n limit) (client.expire key window_s r).0,
          with_redis (client.expire key window_s r).1 plane,
        )
        else (leb n limit, with_redis r plane)
      where
        expired_or : Bool → Outcome Unit → Bool
        expired_or within (ok u) = within
        expired_or within (raised e) = true

    abbrev pub allow_at :
        String → (limit window_s : ℕ) → ControlPlane R → Option R → Bool × ControlPlane R
    allow_at key limit window_s plane none = (true, plane)
    allow_at key limit window_s plane (some r) =
        if leb limit 0
        then (true, plane)
        else counted (concat "flux:rl:" key) limit window_s plane
            (client.incr (concat "flux:rl:" key) r)

    unfoldable pub allow : String → (limit window_s : ℕ) → ControlPlane R → Bool × ControlPlane R
    allow key limit window_s plane = allow_at key limit window_s plane (live plane)

    abbrev pub put_at : String → ℕ → Job → ControlPlane R → Option R → ControlPlane R
    put_at job_id ttl_s body plane none = plane
    put_at job_id ttl_s body plane (some r) =
        with_redis (client.setex (concat "flux:job:" job_id) ttl_s body r).1 plane

    -- `put_job`, at the time `now`.
    unfoldable pub put_job : ℕ → String → Job → ℕ → ControlPlane R → ControlPlane R
    put_job now job_id payload ttl_s plane =
        let body = put "updated_at" (number now) payload in
        put_at job_id ttl_s body (record plane { jobs = put job_id body plane.jobs }) (live plane)

    -- What Redis answers, or else what the dict in memory has.
    abbrev pub fetched :
        String → ControlPlane R → Outcome (Option Job) × R → Option Job × ControlPlane R
    fetched job_id plane (ok (some job), r) = (some job, with_redis r plane)
    fetched job_id plane (ok none, r) = (or_nothing (get job_id plane.jobs), with_redis r plane)
    fetched job_id plane (raised e, r) = (or_nothing (get job_id plane.jobs), with_redis r plane)

    abbrev pub get_at : String → ControlPlane R → Option R → Option Job × ControlPlane R
    get_at job_id plane none = (or_nothing (get job_id plane.jobs), plane)
    get_at job_id plane (some r) = fetched job_id plane (client.fetch (concat "flux:job:" job_id) r)

    unfoldable pub get_job : String → ControlPlane R → Option Job × ControlPlane R
    get_job job_id plane = get_at job_id plane (live plane)
