-- ===== src/Prefix/Longest.antt =====
-- `peek` of src/flux/engine/prefix_cache.py finds the longest stored prefix.
use flux_llm_inference_engin.Prelude.{
  ℕ, zero, suc, ◌≤◌, ◌<◌, List, ◌≡◌, refl, subst, Option, none, some, arith, if_ind, leb, length,
  take, tokens_eq, Bool-cases, inl, inr,
}
use flux_llm_inference_engin.Prelude.Dict.{get}
use flux_llm_inference_engin.Prefix.{PrefixCache, PrefixEntry, PrefixHit, hit_of, peek_from, peek}

module _ {V L : Type 0} (cache : PrefixCache V L) (token_ids : List ℕ) where
  -- The n first tokens are a stored prefix that is long enough.
  abbrev pub Stored : ℕ → Type 0
  Stored n =
      (cache.min_tokens ≤ n)
      × (entry : PrefixEntry V L) × (get (take n token_ids) cache.entries ≡ some entry)

  -- What a search from n downwards finds: the longest stored prefix of at most n tokens, or none.
  pub data Longest (n : ℕ) : Option (PrefixHit V L) → Type 0 where
    hit :
        (m : ℕ) (entry : PrefixEntry V L)
        → m ≤ n
        → cache.min_tokens ≤ m
        → get (take m token_ids) cache.entries ≡ some entry
        → ((k : ℕ) → m < k → k ≤ n → get (take k token_ids) cache.entries ≡ none)
        → Longest n (some (hit_of cache token_ids m entry))
    miss :
        ((k : ℕ) → cache.min_tokens ≤ k → k ≤ n → get (take k token_ids) cache.entries ≡ none)
        → Longest n none

  Longest_up :
      (n : ℕ) (o : Option (PrefixHit V L))
      → get (take (suc n) token_ids) cache.entries ≡ none
      → Longest n o
      → Longest (suc n) o
  Longest_up n o absent (hit m entry le long found above) =
      hit m entry (omega arith) long found λ k lt up. elim (Bool-cases (leb k n)) [
        | inl low ↦ above k lt (ground arith)
        | inr top ↦
            let same : suc n ≡ k = ground arith in
            subst (λ j. get (take j token_ids) cache.entries ≡ none) same absent
      ]
  Longest_up n o absent (miss below) = miss λ k long up. elim (Bool-cases (leb k n)) [
    | inl low ↦ below k long (ground arith)
    | inr top ↦
        let same : suc n ≡ k = ground arith in
        subst (λ j. get (take j token_ids) cache.entries ≡ none) same absent
  ]

  peek_from-Longest : 0 < cache.min_tokens → (n : ℕ) → Longest n (peek_from cache token_ids n)
  unfolding peek_from
  peek_from-Longest pos zero = miss (λ k long up. absurd (omega arith))
  peek_from-Longest pos (suc n) =
      if_ind (Longest (suc n)) (leb cache.min_tokens (suc n))
        (λ long.
          found (get (take (suc n) token_ids) cache.entries) refl (ground arith)
            (peek_from-Longest pos n))
        (λ short. miss (λ k long up. absurd (ground arith)))
    where
      found :
          (o : Option (PrefixEntry V L))
          → get (take (suc n) token_ids) cache.entries ≡ o
          → cache.min_tokens ≤ suc n
          → Longest n (peek_from cache token_ids n)
          → Longest (suc n) (elim o [
            | some entry ↦ some (hit_of cache token_ids (suc n) entry)
            | none ↦ peek_from cache token_ids n
          ])
      found none e long rest = Longest_up n _ e rest
      found (some entry) e long rest =
          hit (suc n) entry (omega arith) long e (λ k lt up. absurd (omega arith))

  -- `peek` returns the longest prefix of the tokens that is stored and has at least `min_tokens`
  -- tokens, and nothing if there is none.
  pub peek-Longest : 0 < cache.min_tokens → Longest (length token_ids) (peek cache token_ids)
  unfolding peek
  peek-Longest pos = peek_from-Longest pos (length token_ids)
