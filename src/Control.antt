-- ===== src/Control.antt =====
-- src/flux/control.py: the times to first token of the last minute, and the rate of tokens. Times and
-- durations are whole numbers of one small unit, floats in the code; `time.time()` is an argument. A
-- cutoff before time 0 is 0, before which nothing stands either way. A rate is the fraction itself.
pub mod Window
pub mod Median
pub mod Rate
use flux_llm_inference_engin.Prelude.{
  ℕ, zero, suc, ◌-◌, ◌*◌, ◌/◌, List, [], ◌∷◌, ◌++◌, Option, none, some, map, length, ltb, leb,
  if◌then◌else◌,
}

-- (time, value)
abbrev pub Sample : Type 0
Sample = ℕ × ℕ

pub record RecentTtft : Type 0 where
  pub window_s : ℕ
  pub samples : List Sample

-- The loop of `_trim`: samples are dropped from the front until one is recent enough.
unfoldable pub trim_loop : ℕ → List Sample → List Sample
trim_loop cutoff [] = []
trim_loop cutoff ((t, value) ∷ samples) =
    let rest = trim_loop cutoff samples in if ltb t cutoff then rest else (t, value) ∷ samples

unfoldable pub trim : ℕ → RecentTtft → RecentTtft
unfolding trim_loop
trim now recent = record recent { samples = trim_loop (now - recent.window_s) recent.samples }

unfoldable pub add : ℕ → ℕ → RecentTtft → RecentTtft
unfolding trim
add now ttft_s recent =
    if leb ttft_s 0
    then recent
    else trim now (record recent { samples = recent.samples ++ (now, ttft_s) ∷ [] })

-- Python's sorted, on numbers.
unfoldable pub insert_sorted : ℕ → List ℕ → List ℕ
insert_sorted x [] = x ∷ []
insert_sorted x (y ∷ ys) = let rest = insert_sorted x ys in if leb x y then x ∷ y ∷ ys else y ∷ rest

unfoldable pub sorted : List ℕ → List ℕ
unfolding insert_sorted
sorted [] = []
sorted (x ∷ xs) = insert_sorted x (sorted xs)

-- values[k]
abbrev pub get_elem? : List ℕ → ℕ → Option ℕ
get_elem? [] k = none
get_elem? (x ∷ xs) zero = some x
get_elem? (x ∷ xs) (suc k) = get_elem? xs k

-- In thousandths of the unit in which the values are stored.
abbrev pub in_ms : List Sample → List ℕ
in_ms samples = map (λ (item : Sample). item.1 * 1000) samples

abbrev pub middle : List ℕ → Option ℕ
middle values = get_elem? values ((length values - 1) / 2)

-- The median, or None without samples, and the window as it is then.
unfoldable pub p50_ms : ℕ → RecentTtft → Option ℕ × RecentTtft
unfolding trim sorted
p50_ms now recent =
    let recent' = trim now recent in (middle (sorted (in_ms recent'.samples)), recent')

pub record TokenRate : Type 0 where
  pub window_s : ℕ
  pub marks : List Sample

-- The loop of `observe`: old marks are dropped, but not the last one.
unfoldable pub drop_old : ℕ → List Sample → List Sample
drop_old cutoff [] = []
drop_old cutoff (m ∷ []) = m ∷ []
drop_old cutoff ((t, total) ∷ m ∷ marks) =
    let rest = drop_old cutoff (m ∷ marks) in if ltb t cutoff then rest else (t, total) ∷ m ∷ marks

abbrev pub last_of : Sample → List Sample → Sample
last_of m [] = m
last_of m (n ∷ marks) = last_of n marks

-- Tokens and the time in which they were made; `none` is 0.0.
abbrev pub rate_of : List Sample → Option (ℕ × ℕ)
rate_of [] = none
rate_of (m ∷ []) = none
rate_of (m ∷ n ∷ marks) =
    let newest = last_of n marks in
    if leb (newest.0 - m.0) 0 then none else some (newest.1 - m.1, newest.0 - m.0)

unfoldable pub observe : ℕ → ℕ → TokenRate → Option (ℕ × ℕ) × TokenRate
unfolding drop_old
observe now total_tokens rate =
    let marks = drop_old (now - rate.window_s) (rate.marks ++ (now, total_tokens) ∷ []) in
    (rate_of marks, record rate { marks = marks })
