-- ===== src/Schemas/Texts.antt =====
-- What src/flux/server/schemas.py asks of the texts of a body, said without its functions.
use flux_llm_inference_engin.Prelude.{
  ℕ, List, [], ◌∷◌, ◌≡◌, ◌≢◌, ◌⊎◌, ◌↔◌, inl, inr, refl, sym, ap, ◌∙◌, Bool, true, false, not, ◌&&◌,
  ◌||◌, arith, All, is_space, lstrip, rstrip, cons_rstrip, strip, is_empty, codes, tokens_beq,
  tokens_beq_iff, Bool-cases,
}
use flux_llm_inference_engin.Config.{Str}
use flux_llm_inference_engin.Schemas.{is_blank, role_ok, message_ok, all_ok, is_none_sent}

-- Nothing but white space.
abbrev pub IsBlank : Str → Type 0
IsBlank text = All (λ c. is_space c ≡ true) text

abbrev pub IsRole : Str → Type 0
IsRole role = (role ≡ codes "system") ⊎ ((role ≡ codes "user") ⊎ (role ≡ codes "assistant"))

abbrev pub IsMessage : Str × Str → Type 0
IsMessage message = IsRole message.0 × (¬ IsBlank message.1)

-- A message at least, each with a known role and some text.
abbrev pub IsConversation : List (Str × Str) → Type 0
IsConversation messages = (messages ≢ []) × All IsMessage messages

cons_rstrip-some : (c : ℕ) (text : Str) → is_space c ≡ false → is_empty (cons_rstrip c text) ≡ false
cons_rstrip-some c [] h = rw h refl
cons_rstrip-some c (d ∷ text) h = refl

pub is_blank-IsBlank : (text : Str) → (is_blank text ≡ true) ↔ IsBlank text
unfolding strip
is_blank-IsBlank [] = (λ h. tt, λ h. refl)
is_blank-IsBlank (c ∷ text) = elim (Bool-cases (is_space c)) [
  | inl space ↦
      let skip : lstrip (c ∷ text) ≡ lstrip text = rw space refl in
      let same : is_blank (c ∷ text) ≡ is_blank text = ap (λ l. is_empty (rstrip l)) skip in
      let rest = is_blank-IsBlank text in
      (λ h. (space, rest.0 (sym same ∙ h)), λ all. same ∙ rest.1 all.1)
  | inr other ↦
      let stay : lstrip (c ∷ text) ≡ c ∷ text = rw other refl in
      let some_text : is_blank (c ∷ text) ≡ false =
        ap (λ l. is_empty (rstrip l)) stay ∙ cons_rstrip-some c (rstrip text) other in
      (λ h. absurd (ground (arith, some_text, h)), λ all. absurd (ground (arith, other, all.0)))
]

pub not-is_blank-IsBlank : (text : Str) → (not (is_blank text) ≡ true) ↔ (¬ IsBlank text)
not-is_blank-IsBlank text = elim (Bool-cases (is_blank text)) [
  | inl blank ↦ (
    λ h. absurd (ground (arith, blank, h)),
    λ some_text. absurd (some_text ((is_blank-IsBlank text).0 blank)),
  )
  | inr other ↦
      (λ h all. ground (arith, other, (is_blank-IsBlank text).1 all), λ some_text. ap not other)
]

role_ok-IsRole : (role : Str) → (role_ok role ≡ true) ↔ IsRole role
role_ok-IsRole role =
    let system = tokens_beq_iff (codes "system") role in
    let user = tokens_beq_iff (codes "user") role in
    let assistant = tokens_beq_iff (codes "assistant") role in
    (
      λ h.
          named (tokens_beq (codes "system") role) (tokens_beq (codes "user") role)
            (tokens_beq (codes "assistant") role) h (λ e. sym (system.0 e)) (λ e. sym (user.0 e))
            (λ e. sym (assistant.0 e)),
      λ h. elim h [
        | inl e ↦ or_first _ _ (system.1 (sym e))
        | inr (inl e) ↦ or_second _ _ _ (user.1 (sym e))
        | inr (inr e) ↦ or_third _ _ _ (assistant.1 (sym e))
      ],
    )
  where
    named :
        (a b c : Bool)
        → (a || (b || (c || false))) ≡ true
        → (a ≡ true → role ≡ codes "system")
        → (b ≡ true → role ≡ codes "user")
        → (c ≡ true → role ≡ codes "assistant")
        → IsRole role
    named true b c h f g k = inl (f refl)
    named false true c h f g k = inr (inl (g refl))
    named false false true h f g k = inr (inr (k refl))
    named false false false h f g k = cc

    or_first : (a b : Bool) → a ≡ true → (a || b) ≡ true
    or_first a b h = ground arith

    or_second : (a b c : Bool) → b ≡ true → (a || (b || c)) ≡ true
    or_second a b c h = ground arith

    or_third : (a b c : Bool) → c ≡ true → (a || (b || (c || false))) ≡ true
    or_third a b c h = ground arith

both : (a b : Bool) → (a && b ≡ true) ↔ ((a ≡ true) × (b ≡ true))
both a b = (λ h. ground arith, λ h. ground (arith, h.0, h.1))

all_ok-All : (messages : List (Str × Str)) → (all_ok messages ≡ true) ↔ All IsMessage messages
all_ok-All [] = (λ h. tt, λ h. refl)
all_ok-All (m ∷ messages) =
    let rest = all_ok-All messages in
    let pair = both (message_ok m) (all_ok messages) in
    let one = both (role_ok m.0) (not (is_blank m.1)) in
    (
      λ h.
          let p = pair.0 h in
          let q = one.0 p.0 in
          (((role_ok-IsRole m.0).0 q.0, (not-is_blank-IsBlank m.1).0 q.1), rest.0 p.1),
      λ all. pair.1 (
        one.1 ((role_ok-IsRole m.0).1 all.0.0, (not-is_blank-IsBlank m.1).1 all.0.1),
        rest.1 all.1,
      ),
    )

pub all_ok-IsConversation :
    (messages : List (Str × Str))
    → (not (is_none_sent messages) && all_ok messages ≡ true) ↔ IsConversation messages
all_ok-IsConversation [] = (λ h. cc, λ c. absurd (c.0 refl))
all_ok-IsConversation (m ∷ messages) =
    let all = all_ok-All (m ∷ messages) in ((λ h. ((λ e. cc), all.0 h)), λ c. all.1 c.1)
