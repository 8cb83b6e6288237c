-- ===== src/ControlPlane/Jobs.antt =====
-- The job store of src/flux/redis_client.py: what get_job tells of a job that put_job has written.
use Prim.Native.String.{String, ◌++◌ as concat}
use flux_llm_inference_engin.Prelude.{
  ℕ, [], ◌∷◌, ◌≡◌, inl, inr, refl, sym, ap, ◌∙◌, subst, true, Option, none, some, arith, string_eq,
  Option-cases,
}
use flux_llm_inference_engin.Prelude.Dict.{get, put, get-put}
use flux_llm_inference_engin.Outcome.{Outcome, ok, raised}
use flux_llm_inference_engin.ControlPlane.{
  Redis, ControlPlane, Job, Field, number, live, with_redis, or_nothing, put_at, put_job, fetched,
  get_at, get_job,
}

or_nothing-put :
    (k : String) (v : Field) (job : Job) → or_nothing (some (put k v job)) ≡ some (put k v job)
unfolding put
or_nothing-put k v [] = refl
or_nothing-put k v ((j, w) ∷ job) = ground arith

module _ {R : Type 0} (client : Redis R) where
  -- What Redis documents of SETEX and GET: a value that was written is read, until its end.
  pub record Stores : Type 0 where
    pub reads :
        (key : String) (ttl : ℕ) (job : Job) (r : R)
        → (client.setex key ttl job r).0 ≡ ok tt
        → (client.fetch key (client.setex key ttl job r).1).0 ≡ ok (some job)

  fetched-ok :
      (job_id : String) (plane : ControlPlane R) (job : Job) (o : Outcome (Option Job)) (r : R)
      → o ≡ ok (some job)
      → (fetched client job_id plane (o, r)).0 ≡ some job
  fetched-ok job_id plane job (ok (some j)) r h = cc h
  fetched-ok job_id plane job (ok none) r h = cc
  fetched-ok job_id plane job (raised e) r h = cc

  module _ (now : ℕ) (job_id : String) (payload : Job) (ttl_s : ℕ) (plane : ControlPlane R) where
    abbrev body : Job
    body = put "updated_at" (number now) payload

    abbrev noted : ControlPlane R
    noted = record plane { jobs = put job_id body plane.jobs }

    in_memory : or_nothing (get job_id (put job_id body plane.jobs)) ≡ some body
    in_memory =
        let found : get job_id (put job_id body plane.jobs) ≡ some body =
          get-put job_id job_id body plane.jobs
          ∙ rw ((string_eq.same_iff job_id job_id).1 refl) refl in
        ap or_nothing found ∙ or_nothing-put "updated_at" (number now) payload

    abbrev key : String
    key = concat "flux:job:" job_id

    -- What get_job may tell after put_job: what was written, or, where the write to Redis failed, the job
    -- that Redis has kept from before.
    pub data Tells : Option Job → Type 0 where
      current : Tells (some body)
      stale :
          (r : R) (e : String) (job : Job)
          → live plane ≡ some r
          → (client.setex key ttl_s body r).0 ≡ raised e
          → (client.fetch key (client.setex key ttl_s body r).1).0 ≡ ok (some job)
          → Tells (some job)

    current_if : (o : Option Job) → o ≡ some body → Tells o
    current_if o h = subst Tells (sym h) current

    abbrev written : R → ControlPlane R
    written r = with_redis (client.setex key ttl_s body r).1 noted

    module _ (stores : Stores) (r : R) (on : live plane ≡ some r) where
      failed-Tells :
          (e : String) (o : Outcome (Option Job)) (after : R)
          → (client.setex key ttl_s body r).0 ≡ raised e
          → (client.fetch key (client.setex key ttl_s body r).1).0 ≡ o
          → Tells (fetched client job_id (written r) (o, after)).0
      failed-Tells e (ok (some job)) after down answered = stale r e job on down answered
      failed-Tells e (ok none) after down answered = current_if _ in_memory
      failed-Tells e (raised d) after down answered = current_if _ in_memory

      written-Tells :
          (o : Outcome Unit)
          → (client.setex key ttl_s body r).0 ≡ o
          → Tells
              (fetched client job_id
                (written r)
                (client.fetch key (client.setex key ttl_s body r).1)).0
      written-Tells (ok u) h =
          let answer = client.fetch key (client.setex key ttl_s body r).1 in
          current_if _
            (fetched-ok job_id (written r) body answer.0 answer.1 (stores.reads key ttl_s body r h))
      written-Tells (raised e) h =
          let answer = client.fetch key (client.setex key ttl_s body r).1 in
          failed-Tells e answer.0 answer.1 h refl

      live-written : live (written r) ≡ some (client.setex key ttl_s body r).1
      live-written = let enabled : plane.enabled ≡ true = ground arith in rw enabled

    -- With a Redis that reads back what it was written: after put_job, get_job tells of that job what was
    -- written, with the time, from Redis, or from memory where Redis is off or does not answer. The one
    -- exception is a write that failed where Redis answers afterwards with a job that it has still.
    pub get_job-put_job :
        Stores → Tells (get_job client job_id (put_job client now job_id payload ttl_s plane)).0
    unfolding put_job get_job
    get_job-put_job stores = elim (Option-cases (live plane)) [
      | inl off ↦ rw (off, off) (current_if _ in_memory)
      | inr (r, on) ↦
          let outcome = (client.setex key ttl_s body r).0 in
          subst (λ l. Tells (get_job client job_id (put_at client job_id ttl_s body noted l)).0)
            (sym on)
            (subst (λ l. Tells (get_at client job_id (written r) l).0)
              (sym (live-written stores r on)) (written-Tells stores r on outcome refl))
    ]
