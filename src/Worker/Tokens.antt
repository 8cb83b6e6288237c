-- ===== src/Worker/Tokens.antt =====
-- `_note_token` of src/flux/engine/worker.py: the tokens that a client reads are those put out, and there
-- are never more than were asked for.
use flux_llm_inference_engin.Prelude.{
  ℕ, ◌≤◌, ◌<◌, List, [], ◌∷◌, ◌++◌, ◌≡◌, refl, subst, sym, ap, ◌∙◌, none, some, true, false, arith,
  length, length-append, map,
}
use flux_llm_inference_engin.Sequence.Life.{SameLife}
use flux_llm_inference_engin.Sequence.{Sequence, SamplingParams, stop, length_limit}
use flux_llm_inference_engin.Engine.{is_stop}
use flux_llm_inference_engin.Worker.{note_token}

map-some-append : (xs : List ℕ) (x : ℕ) → map some (xs ++ x ∷ []) ≡ map some xs ++ some x ∷ []
map-some-append [] x = refl
map-some-append (y ∷ xs) x = ap (λ l. some y ∷ l) (map-some-append xs x)

module _ {V L : Type 0} where
  -- The client was told of each token put out, in order, and of nothing else.
  abbrev pub IsTold : Sequence V L → Type 0
  IsTold seq = seq.token_queue ≡ map some seq.output_ids

  -- A sequence that goes on: there is room for another token, and the client was told of all so far.
  pub record IsOpen (seq : Sequence V L) : Type 0 where
    pub no_reason : seq.finish_reason ≡ none
    pub room : length seq.output_ids < seq.sampling.max_tokens
    pub told : IsTold seq
    pub unsignalled : seq.finished_event ≡ false

  -- What a token makes of a sequence that goes on: why it ends, if it does.
  pub record Noted (token : ℕ) (stop_ids : List ℕ) (seq after : Sequence V L) : Type 0 where
    pub put_out : after.output_ids ≡ seq.output_ids ++ token ∷ []
    pub sent : after.token_queue ≡ seq.token_queue ++ some token ∷ []
    pub last : after.last_token ≡ some token
    pub told : IsTold after
    pub bounded : length after.output_ids ≤ after.sampling.max_tokens
    pub stops : is_stop token stop_ids ≡ true → after.finish_reason ≡ some stop
    pub fills :
        is_stop token stop_ids ≡ false
        → length after.output_ids ≡ after.sampling.max_tokens
        → after.finish_reason ≡ some length_limit
    pub goes_on :
        is_stop token stop_ids ≡ false
        → length after.output_ids < after.sampling.max_tokens
        → IsOpen after

  -- `_note_token` on a sequence that goes on puts exactly this token out, after those before, and sends it
  -- to the client, who is told of all of them; there are never more than were asked for. The reason is
  -- "stop" for a stop token, "length" for another one that is the last, and none else.
  pub note_token-Noted :
      (token : ℕ) (stop_ids : List ℕ) (seq : Sequence V L)
      → IsOpen seq
      → Noted token stop_ids seq (note_token token stop_ids seq)
  unfolding note_token
  note_token-Noted token stop_ids seq o =
      let one_more = length-append seq.output_ids (token ∷ []) in
      let told : IsTold (note_token token stop_ids seq) =
        ap (λ q. q ++ some token ∷ []) o.told ∙ sym (map-some-append seq.output_ids token) in
      record {
        put_out = refl;
        sent = refl;
        last = refl;
        told = told;
        bounded = omega (arith, one_more, o.room);
        stops = λ yes. rw yes refl;
        fills = λ no full. ground (arith, no, one_more, full);
        goes_on = λ no short. record {
          no_reason = ground (arith, no, one_more, short, o.no_reason);
          room = short;
          told = told;
          unsignalled = o.unsignalled;
        };
      }

  -- Whether a sequence goes on does not depend on its blocks and its prefix.
  pub IsOpen-SameLife : (seq' seq : Sequence V L) → SameLife seq' seq → IsOpen seq → IsOpen seq'
  IsOpen-SameLife seq' seq life o = record {
    no_reason = life.finish_reason ∙ o.no_reason;
    room =
        subst (λ (p : SamplingParams). length seq'.output_ids < p.max_tokens) (sym life.sampling)
          (subst (λ out. length out < seq.sampling.max_tokens) (sym life.output_ids) o.room);
    told = life.token_queue ∙ o.told ∙ ap (map some) (sym life.output_ids);
    unsignalled = life.finished_event ∙ o.unsignalled;
  }
