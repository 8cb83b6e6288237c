-- ===== src/Streaming/Words.antt =====
-- The words of the streams of src/flux/server/routes_openai.py: what a client that joins them reads.
use Prim.Native.String.{String}
use flux_llm_inference_engin.Prelude.{
  ℕ, suc, List, [], ◌∷◌, ◌++◌, ◌≡◌, refl, sym, ap, ◌∙◌, Bool, true, false, map, append_assoc,
  append-nil,
}
use flux_llm_inference_engin.Sequence.{
  Sequence, GenerateResult, Status, waiting, prefill, decoding, finished, aborted, error,
}
use flux_llm_inference_engin.Tokenizer.{Text, starts_with, decode_delta, iter_text_deltas}
use flux_llm_inference_engin.Tokenizer.Stream.{
  join, text_after, join-iter_text_deltas, decode_delta-append, join-yield_text,
}
use flux_llm_inference_engin.Metrics.{Endpoint, generate, completions, chat}
use flux_llm_inference_engin.Streaming.{
  Event, chunk, done_mark, Chunk, Delta, content, send_deltas, close_stream, unless_aborted,
  stream_completion, stream_chat, result_deltas, stream_from_result,
}

abbrev pub words_of : Delta → Text
words_of (content text) = text
words_of _ = []

-- What a client reads that joins the contents of all chunks.
abbrev pub words : List Event → Text
words [] = []
words (chunk c ∷ events) = words_of c.delta ++ words events
words (done_mark ∷ events) = words events

words-append : (xs ys : List Event) → words (xs ++ ys) ≡ words xs ++ words ys
words-append [] ys = refl
words-append (chunk c ∷ xs) ys =
    ap (λ t. words_of c.delta ++ t) (words-append xs ys)
    ∙ sym (append_assoc (words_of c.delta) (words xs) (words ys))
words-append (done_mark ∷ xs) ys = words-append xs ys

words-map :
    (wrap : Text → Chunk) (texts : List Text)
    → ((text : Text) → words_of (wrap text).delta ≡ text)
    → words (map (λ text. chunk (wrap text)) texts) ≡ join texts
words-map wrap [] same = refl
words-map wrap (t ∷ texts) same =
    ap (λ u. u ++ words (map (λ text. chunk (wrap text)) texts)) (same t)
    ∙ ap (λ u. t ++ u) (words-map wrap texts same)

silent_end :
    (status : Status) (last : Chunk)
    → words_of last.delta ≡ []
    → words (unless_aborted status (chunk last) ++ done_mark ∷ []) ≡ []
silent_end aborted last silent = refl
silent_end waiting last silent = rw silent refl
silent_end prefill last silent = rw silent refl
silent_end decoding last silent = rw silent refl
silent_end finished last silent = rw silent refl
silent_end error last silent = rw silent refl

-- A client that stays is sent all deltas.
send_deltas-all :
    (wrap : Text → Event) (k : ℕ) (texts : List Text)
    → send_deltas wrap (λ n. false) k texts ≡ (map wrap texts, true)
unfolding send_deltas
send_deltas-all wrap k [] = refl
send_deltas-all wrap k (t ∷ texts) =
    ap (λ (r : List Event × Bool). (wrap t ∷ r.0, r.1)) (send_deltas-all wrap (suc k) texts)

-- Tokens that come later leave the text of the earlier ones as it is, and no tokens have no text.
pub record Extends (decode : List ℕ → Text) : Type 0 where
  pub empty : decode [] ≡ []
  pub grows : (ids more : List ℕ) → starts_with (decode ids) (decode (ids ++ more)) ≡ true

-- Each list of tokens begins with the one before it.
abbrev pub Begins : List ℕ → List ℕ → Type 0
Begins ids later = (more : List ℕ) × (later ≡ ids ++ more)

abbrev pub IsGrowing : List ℕ → List (List ℕ) → List ℕ → Type 0
IsGrowing base [] final = Begins base final
IsGrowing base (ids ∷ seen) final = Begins base ids × IsGrowing ids seen final

module _ (decode : List ℕ → Text) (extends : Extends decode) where
  delta_text :
      (ids later : List ℕ)
      → Begins ids later
      → (decode_delta decode later (decode ids)).0 ≡ decode later
  unfolding decode_delta
  delta_text ids later (more, e) =
      let begins : starts_with (decode ids) (decode later) ≡ true =
        ap (λ l. starts_with (decode ids) (decode l)) e ∙ extends.grows ids more in
      rw begins refl

  result_deltas-decode :
      (ids tokens : List ℕ)
      → decode ids ++ join (result_deltas decode ids (decode ids) tokens) ≡ decode (ids ++ tokens)
  unfolding result_deltas
  result_deltas-decode ids [] = append-nil (decode ids) ∙ ap decode (sym (append-nil ids))
  result_deltas-decode ids (token ∷ tokens) =
      let now = ids ++ token ∷ [] in
      let out = decode_delta decode now (decode ids) in
      let full = delta_text ids now (token ∷ [], refl) in
      ap (λ t. decode ids ++ t)
        (join-yield_text decode out.1 (result_deltas decode now out.0 tokens))
      ∙ sym (append_assoc (decode ids) out.1 (join (result_deltas decode now out.0 tokens)))
      ∙ ap (λ t. t ++ join (result_deltas decode now out.0 tokens))
          (sym (decode_delta-append decode now (decode ids)))
      ∙ ap (λ t. t ++ join (result_deltas decode now t tokens)) full
      ∙ result_deltas-decode now tokens
      ∙ ap decode (append_assoc ids (token ∷ []) tokens)

  text_after-decode :
      (base : List ℕ) (seen : List (List ℕ)) (final : List ℕ)
      → IsGrowing base seen final
      → text_after decode seen final (decode base) ≡ decode final
  text_after-decode base [] final g = delta_text base final g
  text_after-decode base (ids ∷ seen) final g =
      ap (text_after decode seen final) (delta_text base ids g.0)
      ∙ text_after-decode ids seen final g.1

  result_words : (tokens : List ℕ) → join (result_deltas decode [] [] tokens) ≡ decode tokens
  result_words tokens =
      sym (ap (λ t. t ++ join (result_deltas decode [] t tokens)) extends.empty)
      ∙ result_deltas-decode [] tokens

  -- The closing part of a stream has no words.
  closed :
      (texts : List Text) (wrap : Text → Chunk) (last : Chunk)
      → ((text : Text) → words_of (wrap text).delta ≡ text)
      → words_of last.delta ≡ []
      → words (map (λ text. chunk (wrap text)) texts ++ chunk last ∷ done_mark ∷ []) ≡ join texts
  closed texts wrap last same silent =
      words-append (map (λ text. chunk (wrap text)) texts) (chunk last ∷ done_mark ∷ [])
      ∙ ap (λ t. words (map (λ text. chunk (wrap text)) texts) ++ (t ++ [])) silent
      ∙ append-nil (words (map (λ text. chunk (wrap text)) texts))
      ∙ words-map wrap texts same

  -- Where the text only grows with the tokens, the stream of a finished result says the text of all its
  -- tokens, for either endpoint.
  pub stream_from_result-decode :
      (kind : Endpoint) (request_id : String) (created : ℕ) (result : GenerateResult)
      → words (stream_from_result decode kind request_id created result)
        ≡ decode result.output_token_ids
  unfolding stream_from_result
  stream_from_result-decode chat request_id created result =
      closed (result_deltas decode [] [] result.output_token_ids) _ _ (λ t. refl) refl
      ∙ result_words result.output_token_ids
  stream_from_result-decode completions request_id created result =
      closed (result_deltas decode [] [] result.output_token_ids) _ _ (λ t. refl) refl
      ∙ result_words result.output_token_ids
  stream_from_result-decode generate request_id created result =
      closed (result_deltas decode [] [] result.output_token_ids) _ _ (λ t. refl) refl
      ∙ result_words result.output_token_ids

  module _ {V L : Type 0} (request_id : String) (created : ℕ) (seen : List (List ℕ))
      (seq : Sequence V L) (growing : IsGrowing [] seen seq.output_ids) where
    all_deltas : join (iter_text_deltas decode seen seq.output_ids []) ≡ decode seq.output_ids
    all_deltas =
        join-iter_text_deltas decode seen seq.output_ids []
        ∙ ap (text_after decode seen seq.output_ids) (sym extends.empty)
        ∙ text_after-decode [] seen seq.output_ids growing

    closing_words :
        (opening : List Event) (last : Chunk) (wrap : Text → Chunk)
        → words opening ≡ []
        → words_of last.delta ≡ []
        → ((text : Text) → words_of (wrap text).delta ≡ text)
        → let sent =
            send_deltas
              (λ text. chunk (wrap text))
              (λ n. false)
              0
              (iter_text_deltas decode seen seq.output_ids []) in
          words (close_stream seq opening (chunk last) sent).events ≡ decode seq.output_ids
    closing_words opening last wrap quiet silent same =
        let texts = iter_text_deltas decode seen seq.output_ids [] in
        let sent = map (λ text. chunk (wrap text)) texts in
        let end = unless_aborted seq.status (chunk last) ++ done_mark ∷ [] in
        ap (λ o. words (close_stream seq opening (chunk last) o).events)
          (send_deltas-all (λ text. chunk (wrap text)) 0 texts)
        ∙ words-append opening (sent ++ end)
        ∙ ap (λ w. w ++ words (sent ++ end)) quiet
        ∙ words-append sent end
        ∙ ap (λ w. words sent ++ w) (silent_end seq.status last silent)
        ∙ append-nil (words sent)
        ∙ words-map wrap texts same
        ∙ all_deltas

    -- Where the text only grows with the tokens, and each list of tokens seen begins with the one before:
    -- the stream of a sequence that a worker serves, to a client that stays, says the text of all the
    -- sequence's tokens, for either endpoint, however the tokens came in.
    pub stream_completion-decode :
        (words (stream_completion decode (λ n. false) request_id created seen seq).events
          ≡ decode seq.output_ids)
        × (words (stream_chat decode (λ n. false) request_id created seen seq).events
            ≡ decode seq.output_ids)
    unfolding stream_completion stream_chat
    stream_completion-decode = (
      closing_words [] _ _ refl refl (λ t. refl),
      closing_words (chunk _ ∷ []) _ _ refl refl (λ t. refl),
    )
