-- ===== src/Control/Rate.antt =====
-- `TokenRate` of src/flux/control.py: the rate over the marks that are kept.
use flux_llm_inference_engin.Prelude.{
  ℕ, ◌-◌, ◌≤◌, ◌<◌, List, [], ◌∷◌, ◌++◌, ◌≡◌, refl, sym, ap, ◌∙◌, subst, Option, none, some, false,
  arith, All, leb, ltb, if_ind,
}
use flux_llm_inference_engin.Control.{Sample, TokenRate, drop_old, last_of, rate_of, observe}
use flux_llm_inference_engin.Control.Window.{IsChronological}

-- The marks after the first one are recent, and so is the first one unless it is alone.
abbrev pub IsTrimmed : ℕ → List Sample → Type 0
IsTrimmed cutoff [] = Unit
IsTrimmed cutoff (m ∷ []) = Unit
IsTrimmed cutoff (m ∷ n ∷ marks) = All (λ (s : Sample). cutoff ≤ s.0) (m ∷ n ∷ marks)

later_recent :
    (cutoff t : ℕ) (marks : List Sample)
    → cutoff ≤ t
    → All (λ (s : Sample). t ≤ s.0) marks
    → All (λ (s : Sample). cutoff ≤ s.0) marks
later_recent cutoff t [] h all = tt
later_recent cutoff t (m ∷ marks) h all =
    (omega (arith, h, all.0), later_recent cutoff t marks h all.1)

drop_old-IsTrimmed :
    (cutoff : ℕ) (marks : List Sample)
    → IsChronological marks
    → IsTrimmed cutoff (drop_old cutoff marks)
unfolding drop_old
drop_old-IsTrimmed cutoff [] order = tt
drop_old-IsTrimmed cutoff (m ∷ []) order = tt
drop_old-IsTrimmed cutoff ((t, total) ∷ n ∷ marks) order =
    if_ind (IsTrimmed cutoff) (ltb t cutoff) (λ _. drop_old-IsTrimmed cutoff (n ∷ marks) order.1)
      (λ recent.
        let here : cutoff ≤ t = ground arith in
        (here, later_recent cutoff t (n ∷ marks) here order.0))

-- The newest mark is never dropped.
drop_old-last :
    (cutoff : ℕ) (m : Sample) (marks : List Sample)
    → (first : Sample) × (rest : List Sample) × (drop_old cutoff (m ∷ marks) ≡ first ∷ rest)
      × (last_of first rest ≡ last_of m marks)
unfolding drop_old
drop_old-last cutoff m [] = (m, [], refl, refl)
drop_old-last cutoff (t, total) (n ∷ marks) =
    if_ind
      (λ (l : List Sample).
        (first : Sample) × (rest : List Sample) × (l ≡ first ∷ rest)
        × (last_of first rest ≡ last_of n marks))
      (ltb t cutoff) (λ _. drop_old-last cutoff n marks) (λ _. ((t, total), n ∷ marks, refl, refl))

last_of-append : (m x : Sample) (marks : List Sample) → last_of m (marks ++ x ∷ []) ≡ x
last_of-append m x [] = refl
last_of-append m x (n ∷ marks) = last_of-append n x marks

newest :
    (cutoff : ℕ) (x : Sample) (marks : List Sample)
    → (first : Sample) × (rest : List Sample) × (drop_old cutoff (marks ++ x ∷ []) ≡ first ∷ rest)
      × (last_of first rest ≡ x)
newest cutoff x [] = drop_old-last cutoff x []
newest cutoff x (m ∷ marks) =
    let found = drop_old-last cutoff m (marks ++ x ∷ []) in
    (found.0, found.1, found.2, found.3 ∙ last_of-append m x marks)

-- A rate is a fraction of a positive time, no longer than the window, which ends now, and of no more
-- tokens than there are.
abbrev pub Measures : (now window_s total : ℕ) → Option (ℕ × ℕ) → Type 0
Measures now window_s total none = Unit
Measures now window_s total (some (tokens, time)) =
    (0 < time) × (time ≤ window_s) × (time ≤ now) × (tokens ≤ total)

rate_of-Measures :
    (now window_s total : ℕ) (first : Sample) (rest : List Sample)
    → last_of first rest ≡ (now, total)
    → IsTrimmed (now - window_s) (first ∷ rest)
    → Measures now window_s total (rate_of (first ∷ rest))
rate_of-Measures now window_s total first [] h trimmed = tt
rate_of-Measures now window_s total first (n ∷ rest) h trimmed =
    let time = ap (λ (s : Sample). s.0) h in
    let tokens = ap (λ (s : Sample). s.1) h in
    if_ind (Measures now window_s total) (leb ((last_of n rest).0 - first.0) 0) (λ _. tt)
      (λ apart.
        let some_time : 0 < (last_of n rest).0 - first.0 = positive apart in
        (some_time, omega (arith, time, trimmed.0), omega (arith, time), omega (arith, tokens)))
  where
    positive : {a : ℕ} → leb a 0 ≡ false → 0 < a
    positive h = ground arith

-- `observe`, on marks in the order of their times that are not later than now: the marks
-- kept are of the window unless one is alone, and the rate, where it is not
-- 0.0, is measured over a positive time of at most the window.
pub observe-Measures :
    (now total : ℕ) (rate : TokenRate)
    → IsChronological (rate.marks ++ (now, total) ∷ [])
    → let done = observe now total rate in
      IsTrimmed (now - rate.window_s) done.1.marks × Measures now rate.window_s total done.0
unfolding observe
observe-Measures now total rate order =
    let cutoff = now - rate.window_s in
    let found = newest cutoff (now, total) rate.marks in
    let trimmed = drop_old-IsTrimmed cutoff (rate.marks ++ (now, total) ∷ []) order in
    (
      trimmed,
      subst (λ l. Measures now rate.window_s total (rate_of l)) (sym found.2)
          (rate_of-Measures now rate.window_s total found.0 found.1 found.3
            (subst (IsTrimmed cutoff) found.2 trimmed)),
    )
