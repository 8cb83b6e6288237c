-- ===== src/ControlPlane/Limit.antt =====
-- The rate limit of src/flux/redis_client.py: which requests of a window are let through.
use Prim.Native.String.{String, ◌++◌ as concat}
use text.Mathlib.TextLemmas.{append_cancel_left}
use flux_llm_inference_engin.Prelude.{
  ℕ, ◌+◌, ◌-◌, ◌<◌, min, List, [], ◌∷◌, ◌≡◌, ◌≢◌, inl, inr, refl, sym, ap, ◌∙◌, subst, Bool, true,
  false, ◌&&◌, some, arith, leb, nat_beq, if◌then◌else◌, if_ind, string_eq, ◌==◌, Bool-cases,
}
use flux_llm_inference_engin.Outcome.{Outcome, ok, raised}
use flux_llm_inference_engin.ControlPlane.{
  Redis, ControlPlane, live, counted, allow_at, allow, with_redis,
}

module _ {R : Type 0} (client : Redis R) where
  -- What Redis documents of INCR and EXPIRE while no key ends: a key counts up by one, which the call
  -- returns, and no other key changes.
  pub record Counts (value : String → R → ℕ) : Type 0 where
    pub answers : (key : String) (r : R) → (client.incr key r).0 ≡ ok (value key r + 1)
    pub counts : (key : String) (r : R) → value key (client.incr key r).1 ≡ value key r + 1
    pub others :
        (key other : String) (r : R)
        → key ≢ other
        → value other (client.incr key r).1 ≡ value other r
    pub expires : (key : String) (s : ℕ) (r : R) → (client.expire key s r).0 ≡ ok tt
    pub untouched :
        (key other : String) (s : ℕ) (r : R) → value other (client.expire key s r).1 ≡ value other r

  module _ (limit window_s : ℕ) where
    -- How many requests of the client `key` are allowed, where the clients come in the given order.
    abbrev pub allowed_of : String → List String → ControlPlane R → ℕ
    allowed_of key [] plane = 0
    allowed_of key (k ∷ keys) plane =
        let (answer, plane') = allow client k limit window_s plane in
        (if k == key && answer then 1 else 0) + allowed_of key keys plane'

    -- How many of the requests come from the client `key`.
    abbrev pub asked_by : String → List String → ℕ
    asked_by key [] = 0
    asked_by key (k ∷ keys) = (if k == key then 1 else 0) + asked_by key keys

    module _ (value : String → R → ℕ) (counts : Counts value) (some_limit : 0 < limit) where
      abbrev rate_key : String → String
      rate_key key = concat "flux:rl:" key

      -- One call, of which Redis keeps the count.
      record Called (k : String) (r : R) (done : Bool × ControlPlane R) : Type 0 where
        after : R
        alive : live done.1 ≡ some after
        grown : value (rate_key k) after ≡ value (rate_key k) r + 1
        same :
            (other : String) → k ≢ other → value (rate_key other) after ≡ value (rate_key other) r
        answer : done.0 ≡ leb (value (rate_key k) r + 1) limit

      rate_key_other : (k other : String) → k ≢ other → rate_key k ≢ rate_key other
      rate_key_other k other differ h = differ (append_cancel_left "flux:rl:" k other h)

      enabled_if : (plane : ControlPlane R) (r : R) → live plane ≡ some r → plane.enabled ≡ true
      enabled_if plane r h = ground arith

      live-with_redis :
          (s : R) (plane : ControlPlane R)
          → plane.enabled ≡ true
          → live (with_redis s plane) ≡ some s
      live-with_redis s plane on = rw on

      counted-Called :
          (k : String) (r : R) (plane : ControlPlane R) (o : Outcome ℕ) (after : R)
          → live plane ≡ some r
          → (client.incr (rate_key k) r) ≡ (o, after)
          → Called k r (counted client (rate_key k) limit window_s plane (o, after))
      counted-Called k r plane (raised e) after h call = cc (counts.answers (rate_key k) r, call)
      counted-Called k r plane (ok n) after h call =
          let key = rate_key k in
          let on = enabled_if plane r h in
          let is_next : n ≡ value key r + 1 =
            number (sym (counts.answers key r) ∙ ap answer_of call) in
          let state : (client.incr key r).1 ≡ after = ap state_of call in
          let up : value key after ≡ value key r + 1 =
            ap (value key) (sym state) ∙ counts.counts key r in
          let rest : (other : String)
              → k ≢ other
              → value (rate_key other) after ≡ value (rate_key other) r =
            λ other differ.
              ap (value (rate_key other)) (sym state)
              ∙ counts.others key (rate_key other) r (rate_key_other k other differ) in
          let kept = (client.expire key window_s after).1 in
          if_ind (Called k r) (nat_beq n 1)
            (λ _. record {
              after = kept;
              alive = live-with_redis kept plane on;
              grown = counts.untouched key key window_s after ∙ up;
              same = λ other differ.
                  counts.untouched key (rate_key other) window_s after ∙ rest other differ;
              answer = rw (counts.expires key window_s after) (ap (λ m. leb m limit) is_next);
            })
            (λ _. record {
              after = after;
              alive = live-with_redis after plane on;
              grown = up;
              same = rest;
              answer = ap (λ m. leb m limit) is_next;
            })
        where
          answer_of : Outcome ℕ × R → Outcome ℕ
          answer_of pair = pair.0

          state_of : Outcome ℕ × R → R
          state_of pair = pair.1

          number : {a b : ℕ} → ok a ≡ ok b → b ≡ a
          number h = cc h

      allow-Called :
          (k : String) (r : R) (plane : ControlPlane R)
          → live plane ≡ some r
          → Called k r (allow client k limit window_s plane)
      unfolding allow
      allow-Called k r plane h =
          subst (λ o. Called k r (allow_at client k limit window_s plane o)) (sym h)
            (if_ind (Called k r) (leb limit 0) (λ none_allowed. absurd (ground arith))
              (λ _.
                let call = client.incr (rate_key k) r in
                counted-Called k r plane call.0 call.1 h refl))

      -- With a Redis that counts and a limit that is not 0: within one window, whatever the order of the
      -- clients, each client has as many requests allowed as the limit has left for it, and all others of
      -- it refused.
      pub allowed_of-limit :
          (key : String) (keys : List String) (r : R) (plane : ControlPlane R)
          → live plane ≡ some r
          → allowed_of key keys plane
            ≡ min (asked_by key keys) (limit - value (concat "flux:rl:" key) r)
      allowed_of-limit key [] r plane h = omega arith
      allowed_of-limit key (k ∷ keys) r plane h =
          let c = allow-Called k r plane h in
          let rest =
            allowed_of-limit key keys c.after (allow client k limit window_s plane).1 c.alive in
          elim (Bool-cases (k == key)) [
            | inl same ↦
                let here : k ≡ key = (string_eq.same_iff k key).0 same in
                let up : value (rate_key key) c.after ≡ value (rate_key key) r + 1 =
                  subst (λ j. value (rate_key j) c.after ≡ value (rate_key j) r + 1) here c.grown in
                let answer : (allow client k limit window_s plane).0
                    ≡ leb (value (rate_key key) r + 1) limit =
                  c.answer ∙ ap (λ j. leb (value (rate_key j) r + 1) limit) here in
                rw (same, answer) (counted_here _ _ _ _ rest up)
            | inr differ ↦
                let stays : value (rate_key key) c.after ≡ value (rate_key key) r =
                  c.same key (λ e. differs differ ((string_eq.same_iff k key).1 e)) in
                rw differ (omega (arith, rest, stays))
          ]
        where
          differs : {b : Bool} → b ≡ false → b ≢ true
          differs h e = cc

          counted_here :
              (n v v' asked : ℕ)
              → n ≡ min asked (limit - v')
              → v' ≡ v + 1
              → (if leb (v + 1) limit then 1 else 0) + n ≡ min (1 + asked) (limit - v)
          counted_here n v v' asked h up = ground arith
