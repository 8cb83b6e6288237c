-- ===== src/Tokenizer/Stops.antt =====
-- The stop tokens of src/flux/engine/tokenizer.py: which they are, and that each stands there once.
use flux_llm_inference_engin.Prelude.{
  ℕ, ◌≤◌, ◌<◌, List, [], ◌∷◌, ◌++◌, ◌≡◌, ◌↔◌, Bool, true, false, ◌&&◌, ◌||◌, not, Option, none,
  some, arith, count, count-append, nat_beq, nat_beq_iff, Bool-cases, inl, inr,
}
use flux_llm_inference_engin.Tokenizer.{
  Value, absent, below_zero, token, several, Values, nil, cons, is_found, push_token, push,
  push_values, Piece, no_id, negative, id_of, push_piece, stop_token_ids,
}

-- The token ids that a value names.
unfoldable mutual
  pub names : ℕ → Value → Bool
  names t absent = false
  names t below_zero = false
  names t (token x) = nat_beq x t
  names t (several vs) = some_names t vs

  pub some_names : ℕ → Values → Bool
  some_names t nil = false
  some_names t (cons v vs) = names t v || some_names t vs

-- A list with no token twice, before and after a value is pushed: it has the tokens that it had and
-- those that the value names.
pub record Pushes (t : ℕ) (new : Bool) (found after : List ℕ) : Type 0 where
  pub once : count t found ≤ 1 → count t after ≤ 1
  pub members : is_found t after ≡ (is_found t found || new)

is_found-count : (t : ℕ) (xs : List ℕ) → (is_found t xs ≡ true) ↔ (0 < count t xs)
is_found-count t [] = ground arith
is_found-count t (x ∷ xs) = ground (arith, is_found-count t xs)

is_found-append :
    (t x : ℕ) (xs : List ℕ) → is_found t (xs ++ x ∷ []) ≡ (is_found t xs || nat_beq x t)
is_found-append t x [] = ground arith
is_found-append t x (y ∷ xs) = ground (arith, is_found-append t x xs)

push_token-Pushes : (t x : ℕ) (found : List ℕ) → Pushes t (nat_beq x t) found (push_token x found)
push_token-Pushes t x found = elim (Bool-cases (is_found x found)) [
  | inl old ↦ record { once = λ h. ground arith; members = ground (arith, nat_beq_iff x t) }
  | inr new ↦ record {
    once =
        λ h. ground (arith, nat_beq_iff x t, is_found-count x found, count-append t found (x ∷ []));
    members = ground (arith, is_found-append t x found);
  }
]

Pushes-then :
    (t : ℕ) (new more : Bool) (found mid after : List ℕ)
    → Pushes t new found mid
    → Pushes t more mid after
    → Pushes t (new || more) found after
Pushes-then t new more found mid after p q = record {
  once = λ h. q.once (p.once h);
  members = ground (arith, p.members, q.members);
}

mutual
  unfolding push push_values names some_names

  push-Pushes : (t : ℕ) (v : Value) (found : List ℕ) → Pushes t (names t v) found (push v found)
  push-Pushes t absent found = record { once = λ h. h; members = ground arith }
  push-Pushes t below_zero found = record { once = λ h. h; members = ground arith }
  push-Pushes t (token x) found = push_token-Pushes t x found
  push-Pushes t (several vs) found = push_values-Pushes t vs found

  push_values-Pushes :
      (t : ℕ) (vs : Values) (found : List ℕ)
      → Pushes t (some_names t vs) found (push_values vs found)
  push_values-Pushes t nil found = record { once = λ h. h; members = ground arith }
  push_values-Pushes t (cons v vs) found =
      Pushes-then t (names t v) (some_names t vs) found (push v found) _ (push-Pushes t v found)
        (push_values-Pushes t vs (push v found))

-- What an end piece names, unless it is the unknown token.
abbrev pub piece_names : ℕ → Option ℕ → Piece → Bool
piece_names t none (id_of x) = nat_beq x t
piece_names t (some unk) (id_of x) = not (nat_beq x unk) && nat_beq x t
piece_names t unk _ = false

push_piece-Pushes :
    (t : ℕ) (unk : Option ℕ) (piece : Piece) (found : List ℕ)
    → Pushes t (piece_names t unk piece) found (push_piece unk piece found)
unfolding push
push_piece-Pushes t none no_id found = record { once = λ h. h; members = ground arith }
push_piece-Pushes t (some unk) no_id found = record { once = λ h. h; members = ground arith }
push_piece-Pushes t none negative found = record { once = λ h. h; members = ground arith }
push_piece-Pushes t (some unk) negative found = record { once = λ h. h; members = ground arith }
push_piece-Pushes t none (id_of x) found = push_token-Pushes t x found
push_piece-Pushes t (some unk) (id_of x) found = elim (Bool-cases (nat_beq x unk)) [
  | inl same ↦ rw same (record { once = λ h. h; members = ground arith })
  | inr other ↦ rw other (push_token-Pushes t x found)
]

-- `stop_token_ids` has each token once: those that the eos value names, however nested it is, and the
-- two end pieces where they are not the unknown token.
pub stop_token_ids-Pushes :
    (t : ℕ) (eos : Value) (unk : Option ℕ) (im_end endoftext : Piece)
    → let stops = stop_token_ids eos unk im_end endoftext in
      (count t stops ≤ 1)
      × (is_found t stops
          ≡ (names t eos || (piece_names t unk im_end || piece_names t unk endoftext)))
unfolding stop_token_ids
stop_token_ids-Pushes t eos unk im_end endoftext =
    let first = push eos [] in
    let second = push_piece unk im_end first in
    let all =
      Pushes-then t (names t eos) (piece_names t unk im_end || piece_names t unk endoftext) [] first
        _ (push-Pushes t eos [])
        (Pushes-then t (piece_names t unk im_end) (piece_names t unk endoftext) first second _
          (push_piece-Pushes t unk im_end first) (push_piece-Pushes t unk endoftext second)) in
    (all.once (omega arith), all.members)
