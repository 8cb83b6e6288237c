-- ===== src/Prefix/Candidates.antt =====
-- `candidate_lengths` of src/flux/engine/prefix_cache.py: which prefixes of a prompt are stored.
use native.Mathlib.Nat.{div-mul-le_self, le-div_iff_mul-le}
use flux_llm_inference_engin.Prelude.{
  ℕ, zero, suc, ◌-◌, ◌*◌, ◌/◌, ◌≤◌, ◌<◌, List, [], ◌∷◌, ◌++◌, ◌≡◌, ◌⊎◌, inl, inr, refl, subst, ◌||◌,
  true, arith, if_ind, if◌then◌else◌, leb, length, All, Bool-cases,
}
use flux_llm_inference_engin.Prefix.{PrefixCache, contains, aligned_lengths, candidate_lengths}

-- A length that `candidate_lengths` may list for a prompt of n tokens.
abbrev pub IsCandidate : ℕ → ℕ → ℕ → ℕ → Type 0
IsCandidate min_tokens block_size n m =
    (min_tokens ≤ m) × (m ≤ n) × ((m ≡ n) ⊎ ((k : ℕ) × (m ≡ k * block_size)))

All-snoc :
    {A : Type 0} (P : A → Type 0) (xs : List A) (x : A) → All P xs → P x → All P (xs ++ x ∷ [])
All-snoc P [] x a p = (p, tt)
All-snoc P (y ∷ xs) x a p = (a.0, All-snoc P xs x a.1 p)

pred-times : (k b : ℕ) → (k - 1) * b ≡ k * b - b
pred-times zero b = omega arith
pred-times (suc k) b = let e : suc k - 1 ≡ k = omega arith in rw e (omega arith)

factors_pos : (j b : ℕ) → 0 < j * b → (0 < j) × (0 < b)
factors_pos zero b h = absurd (omega arith)
factors_pos (suc j) zero h = absurd (omega arith)
factors_pos (suc j) (suc b) h = omega arith

-- The list that a round of the loop leaves.
abbrev noted : ℕ → List ℕ → List ℕ
noted aligned lengths = if contains aligned lengths then lengths else lengths ++ aligned ∷ []

module _ (min_tokens block_size : ℕ) where
  aligned_lengths-All :
      (fuel n k : ℕ) (lengths : List ℕ)
      → k * block_size ≤ n
      → All (IsCandidate min_tokens block_size n) lengths
      → All
          (IsCandidate min_tokens block_size n)
          (aligned_lengths fuel min_tokens block_size (k * block_size) lengths)
  unfolding aligned_lengths
  aligned_lengths-All zero n k lengths h a = a
  aligned_lengths-All (suc fuel) n k lengths h a =
      if_ind (All (IsCandidate min_tokens block_size n)) (leb min_tokens (k * block_size))
        (λ long.
          subst
            (λ next.
              All (IsCandidate min_tokens block_size n)
                (aligned_lengths fuel min_tokens block_size next (noted (k * block_size) lengths)))
            (pred-times k block_size)
            (aligned_lengths-All fuel n (k - 1) (noted (k * block_size) lengths)
              (omega (arith, pred-times k block_size))
              (if_ind (All (IsCandidate min_tokens block_size n))
                (contains (k * block_size) lengths) (λ _. a)
                (λ _. All-snoc _ lengths (k * block_size) a (ground arith, h, inr (k, refl))))))
        (λ _. a)

  contains-append :
      (m : ℕ) (xs ys : List ℕ) → contains m (xs ++ ys) ≡ (contains m xs || contains m ys)
  contains-append m [] ys = refl
  contains-append m (x ∷ xs) ys = ground (arith, contains-append m xs ys)

  contains-noted : (m a : ℕ) (xs : List ℕ) → contains m xs ≡ true → contains m (noted a xs) ≡ true
  contains-noted m a xs h =
      if_ind (λ l. contains m l ≡ true) (contains a xs) (λ _. h)
        (λ _. ground (arith, contains-append m xs (a ∷ [])))

  contains-noted_self : (a : ℕ) (xs : List ℕ) → contains a (noted a xs) ≡ true
  contains-noted_self a xs =
      if_ind (λ l. contains a l ≡ true) (contains a xs) (λ h. h)
        (λ _. ground (arith, contains-append a xs (a ∷ [])))

  aligned_lengths-keeps :
      (m fuel aligned : ℕ) (xs : List ℕ)
      → contains m xs ≡ true
      → contains m (aligned_lengths fuel min_tokens block_size aligned xs) ≡ true
  unfolding aligned_lengths
  aligned_lengths-keeps m zero aligned xs h = h
  aligned_lengths-keeps m (suc fuel) aligned xs h =
      if_ind (λ l. contains m l ≡ true) (leb min_tokens aligned)
        (λ _.
          aligned_lengths-keeps m fuel (aligned - block_size) (noted aligned xs)
            (contains-noted m aligned xs h))
        (λ _. h)

  -- The fuel is enough for every multiple of the block size down to `min_tokens`.
  aligned_lengths_complete :
      (fuel j k : ℕ) (xs : List ℕ)
      → k ≤ fuel
      → j ≤ k
      → 0 < j
      → min_tokens ≤ j * block_size
      → contains (j * block_size) (aligned_lengths fuel min_tokens block_size (k * block_size) xs)
        ≡ true
  unfolding aligned_lengths
  aligned_lengths_complete zero j k xs h le pos long = absurd (omega arith)
  aligned_lengths_complete (suc fuel) j k xs h le pos long =
      if_ind (λ l. contains (j * block_size) l ≡ true) (leb min_tokens (k * block_size))
        (λ _.
          subst
            (λ next.
              contains (j * block_size)
                (aligned_lengths fuel min_tokens block_size next (noted (k * block_size) xs))
              ≡ true)
            (pred-times k block_size)
            (elim (Bool-cases (leb k j)) [
              | inl top ↦
                  let same : k ≡ j = ground arith in
                  aligned_lengths-keeps (j * block_size) fuel ((k - 1) * block_size)
                    (noted (k * block_size) xs)
                    (subst (λ i. contains (i * block_size) (noted (k * block_size) xs) ≡ true) same
                      (contains-noted_self (k * block_size) xs))
              | inr below ↦
                  aligned_lengths_complete fuel j (k - 1) (noted (k * block_size) xs) (omega arith)
                    (ground arith) pos long
            ]))
        (λ short. absurd (grind arith))

module _ {V L : Type 0} (cache : PrefixCache V L) (token_ids : List ℕ) where
  -- `candidate_lengths` lists the length of the prompt and the multiples of the block size up to it,
  -- those of at least `min_tokens` tokens and no other.
  pub candidate_lengths-exact :
      0 < cache.min_tokens
      → All
          (IsCandidate cache.min_tokens cache.block_size (length token_ids))
          (candidate_lengths cache token_ids)
        × ((m : ℕ)
            → IsCandidate cache.min_tokens cache.block_size (length token_ids) m
            → contains m (candidate_lengths cache token_ids) ≡ true)
  unfolding candidate_lengths
  candidate_lengths-exact pos = (
    aligned_lengths-All cache.min_tokens cache.block_size (n / cache.block_size) n
        (n / cache.block_size) whole (div-mul-le_self n cache.block_size)
        (if_ind (All (IsCandidate cache.min_tokens cache.block_size n)) (leb cache.min_tokens n)
          (λ long. ((ground arith, omega arith, inl refl), tt)) (λ _. tt)),
    λ m c. elim c.2 [
      | inl same ↦
          aligned_lengths-keeps cache.min_tokens cache.block_size m (n / cache.block_size) _ whole (
            if_ind (λ l. contains m l ≡ true) (leb cache.min_tokens n) (λ _. ground arith)
              (λ short. absurd (ground arith)))
      | inr (j, e) ↦
          let both = factors_pos j cache.block_size (omega (arith, e)) in
          rw e (
            aligned_lengths_complete cache.min_tokens cache.block_size (n / cache.block_size) j
              (n / cache.block_size) whole (omega arith)
              ((le-div_iff_mul-le both.1).1 (omega (arith, e))) both.0 (omega (arith, e)))
    ],
  )
    where
      n : ℕ
      n = length token_ids

      whole : List ℕ
      whole = if leb cache.min_tokens n then n ∷ [] else []
