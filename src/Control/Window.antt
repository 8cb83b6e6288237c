-- ===== src/Control/Window.antt =====
-- The window of src/flux/control.py: what is dropped from its front, and what is kept.
use flux_llm_inference_engin.Prelude.{
  ℕ, ◌≤◌, List, [], ◌∷◌, ◌≡◌, refl, not, arith, All, keep_if, ltb,
}
use flux_llm_inference_engin.Control.{Sample, trim_loop}

-- The samples stand in the order of their times.
abbrev pub IsChronological : List Sample → Type 0
IsChronological [] = Unit
IsChronological (s ∷ samples) =
    All (λ (later : Sample). s.0 ≤ later.0) samples × IsChronological samples

-- A sample is recent if it is not before the cutoff.
abbrev pub recent_from : ℕ → List Sample → List Sample
recent_from cutoff samples = keep_if (λ (s : Sample). not (ltb s.0 cutoff)) samples

all_recent :
    (cutoff : ℕ) (t : ℕ) (samples : List Sample)
    → cutoff ≤ t
    → All (λ (later : Sample). t ≤ later.0) samples
    → recent_from cutoff samples ≡ samples
all_recent cutoff t [] h all = refl
all_recent cutoff t (s ∷ samples) h all = ground (arith, all_recent cutoff t samples h all.1, all.0)

-- On samples in order, dropping from the front until one is recent keeps all the recent ones, and none
-- else.
pub trim_loop-recent :
    (cutoff : ℕ) (samples : List Sample)
    → IsChronological samples
    → trim_loop cutoff samples ≡ recent_from cutoff samples
unfolding trim_loop
trim_loop-recent cutoff [] order = refl
trim_loop-recent cutoff ((t, value) ∷ samples) order =
    ground (arith, trim_loop-recent cutoff samples order.1, all_recent cutoff t samples, order.0)
