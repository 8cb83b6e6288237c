-- ===== src/Tokenizer.antt =====
-- src/flux/engine/tokenizer.py and the text stream of src/flux/server/sse.py. A text is the list of its
-- code points. `decode` is the tokenizer's `decode` without special tokens.
pub mod Stops
pub mod Stream
use flux_llm_inference_engin.Prelude.{
  ℕ, zero, List, [], ◌∷◌, ◌++◌, Bool, true, false, ◌&&◌, ◌||◌, Option, some, length, drop, nat_beq,
  if◌then◌else◌, none,
}

abbrev pub Text : Type 0
Text = List ℕ

-- What `_push` may be given: None, a number below zero, a token id, or a list or tuple of such values.
mutual
  pub data Value : Type 0 where
    absent : Value
    below_zero : Value
    token : ℕ → Value
    several : Values → Value

  pub data Values : Type 0 where
    nil : Values
    cons : Value → Values → Values

abbrev pub is_found : ℕ → List ℕ → Bool
is_found t [] = false
is_found t (x ∷ found) = nat_beq x t || is_found t found

abbrev pub push_token : ℕ → List ℕ → List ℕ
push_token t found = if is_found t found then found else found ++ t ∷ []

-- `_push`
unfoldable mutual
  pub push : Value → List ℕ → List ℕ
  push absent found = found
  push below_zero found = found
  push (token t) found = push_token t found
  push (several vs) found = push_values vs found

  pub push_values : Values → List ℕ → List ℕ
  push_values nil found = found
  push_values (cons v vs) found = push_values vs (push v found)

-- What `convert_tokens_to_ids` makes of a piece, which is one token's text: a number, or None, as which
-- an exception counts too. It returns a list only where it is given one.
pub data Piece : Type 0 where
  no_id : Piece
  negative : Piece
  id_of : ℕ → Piece

-- `_push`, of an id that is not the unknown token's.
abbrev pub push_piece : Option ℕ → Piece → List ℕ → List ℕ
push_piece unk no_id found = found
push_piece unk negative found = push below_zero found
push_piece none (id_of t) found = push (token t) found
push_piece (some unk) (id_of t) found = if nat_beq t unk then found else push (token t) found

-- `stop_token_ids`, from the eos token, the unknown token and the ids of the two end pieces.
unfoldable pub stop_token_ids : (eos : Value) (unk : Option ℕ) (im_end endoftext : Piece) → List ℕ
stop_token_ids eos unk im_end endoftext =
    push_piece unk endoftext (push_piece unk im_end (push eos []))

-- str.startswith
abbrev pub starts_with : Text → Text → Bool
starts_with [] text = true
starts_with (c ∷ prefix) [] = false
starts_with (c ∷ prefix) (d ∷ text) = nat_beq c d && starts_with prefix text

-- `all_ids[-1:]`
abbrev pub last_id : List ℕ → List ℕ
last_id [] = []
last_id (x ∷ []) = x ∷ []
last_id (x ∷ y ∷ ids) = last_id (y ∷ ids)

-- `if delta: yield delta`
abbrev pub yield_text : Text → List Text → List Text
yield_text [] rest = rest
yield_text (c ∷ delta) rest = (c ∷ delta) ∷ rest

module _ (decode : List ℕ → Text) where
  abbrev pub delta_apart : List ℕ → Text → Text × Text
  delta_apart [] prev_text = (prev_text, [])
  delta_apart (x ∷ ids) prev_text =
      let piece = decode (last_id (x ∷ ids)) in (prev_text ++ piece, piece)

  -- The full text and the new suffix.
  unfoldable pub decode_delta : List ℕ → Text → Text × Text
  decode_delta all_ids prev_text =
      let text = decode all_ids in
      if starts_with prev_text text
      then (text, drop (length prev_text) text)
      else delta_apart all_ids prev_text

  -- `iter_text_deltas`, where the list holds `seq.output_ids` as it is at each token taken from the queue,
  -- and `final` is what it is after the end mark: the texts yielded.
  unfoldable pub iter_text_deltas : List (List ℕ) → List ℕ → Text → List Text
  iter_text_deltas [] final prev = yield_text (decode_delta final prev).1 []
  iter_text_deltas (ids ∷ seen) final prev =
      let (prev', delta) = decode_delta ids prev in
      yield_text delta (iter_text_deltas seen final prev')
