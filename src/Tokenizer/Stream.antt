-- ===== src/Tokenizer/Stream.antt =====
-- The text stream of src/flux/server/sse.py: what a client that joins the pieces reads.
use flux_llm_inference_engin.Prelude.{
  ℕ, List, [], ◌∷◌, ◌++◌, ◌≡◌, refl, sym, ap, ◌∙◌, true, arith, length, drop, nat_beq_iff, if_ind,
}
use mathlib.Core.List.{append-nil, append_assoc}
use flux_llm_inference_engin.Tokenizer.{
  Text, starts_with, delta_apart, decode_delta, yield_text, iter_text_deltas,
}

abbrev pub join : List Text → Text
join [] = []
join (t ∷ ts) = t ++ join ts

starts_with-drop :
    (prefix text : Text)
    → starts_with prefix text ≡ true
    → prefix ++ drop (length prefix) text ≡ text
starts_with-drop [] text h = refl
starts_with-drop (c ∷ prefix) [] h = cc
starts_with-drop (c ∷ prefix) (d ∷ text) h =
    ground (arith, nat_beq_iff c d, starts_with-drop prefix text)

module _ (decode : List ℕ → Text) where
  delta_apart-append :
      (all_ids : List ℕ) (prev : Text)
      → let (full, piece) = delta_apart decode all_ids prev in full ≡ prev ++ piece
  delta_apart-append [] prev = sym (append-nil prev)
  delta_apart-append (x ∷ ids) prev = refl

  -- `decode_delta` returns the text so far with the new piece at its end, also where the text that is
  -- decoded anew does not start with the text so far.
  pub decode_delta-append :
      (all_ids : List ℕ) (prev : Text)
      → (decode_delta decode all_ids prev).0 ≡ prev ++ (decode_delta decode all_ids prev).1
  unfolding decode_delta
  decode_delta-append all_ids prev =
      if_ind (λ (out : Text × Text). out.0 ≡ prev ++ out.1) (starts_with prev (decode all_ids))
        (λ h. sym (starts_with-drop prev (decode all_ids) h)) (λ _. delta_apart-append all_ids prev)

  pub join-yield_text :
      (delta : Text) (rest : List Text) → join (yield_text delta rest) ≡ delta ++ join rest
  join-yield_text [] rest = refl
  join-yield_text (c ∷ delta) rest = refl

  -- The text that stands at the end of the stream.
  abbrev pub text_after : List (List ℕ) → List ℕ → Text → Text
  text_after [] final prev = (decode_delta decode final prev).0
  text_after (ids ∷ seen) final prev = text_after seen final (decode_delta decode ids prev).0

  -- A client that joins what `iter_text_deltas` yields has, after the text before it, the full text
  -- of the last `decode_delta`: nothing is lost and nothing comes twice.
  pub join-iter_text_deltas :
      (seen : List (List ℕ)) (final : List ℕ) (prev : Text)
      → prev ++ join (iter_text_deltas decode seen final prev) ≡ text_after seen final prev
  unfolding iter_text_deltas
  join-iter_text_deltas [] final prev =
      ap (λ t. prev ++ t) (join-yield_text (decode_delta decode final prev).1 [] ∙ append-nil _)
      ∙ sym (decode_delta-append final prev)
  join-iter_text_deltas (ids ∷ seen) final prev =
      let out = decode_delta decode ids prev in
      let rest = iter_text_deltas decode seen final out.0 in
      ap (λ t. prev ++ t) (join-yield_text out.1 rest)
      ∙ sym (append_assoc prev out.1 (join rest))
      ∙ ap (λ t. t ++ join rest) (sym (decode_delta-append ids prev))
      ∙ join-iter_text_deltas seen final out.0
