-- ===== src/Control/Median.antt =====
-- `p50_ms` of src/flux/control.py: the median of the samples of the window.
use flux_llm_inference_engin.Prelude.{
  ℕ, zero, suc, ◌+◌, ◌-◌, ◌*◌, ◌/◌, ◌≤◌, ◌<◌, List, [], ◌∷◌, ◌≡◌, refl, ap, ◌∙◌, subst, Option,
  none, some, arith, All, All-map, length, leb, ltb, if◌then◌else◌, if_ind,
}
use flux_llm_inference_engin.Control.{
  RecentTtft, trim, insert_sorted, sorted, get_elem?, middle, in_ms, p50_ms,
}
use flux_llm_inference_engin.Control.Window.{IsChronological, recent_from, trim_loop-recent}

-- How many values are below a bound, and how many are not above it.
abbrev pub below : ℕ → List ℕ → ℕ
below m [] = 0
below m (x ∷ xs) = (if ltb x m then 1 else 0) + below m xs

abbrev pub up_to : ℕ → List ℕ → ℕ
up_to m [] = 0
up_to m (x ∷ xs) = (if leb x m then 1 else 0) + up_to m xs

-- Less than half of the values are below the median, and at least half of them are not above it. Without
-- values there is none.
abbrev pub IsMedian : List ℕ → Option ℕ → Type 0
IsMedian xs none = xs ≡ []
IsMedian xs (some m) = (2 * below m xs < length xs) × (length xs ≤ 2 * up_to m xs)

abbrev IsSorted : List ℕ → Type 0
IsSorted [] = Unit
IsSorted (x ∷ xs) = All (λ y. x ≤ y) xs × IsSorted xs

insert_sorted-All :
    (P : ℕ → Type 0) (x : ℕ) (ys : List ℕ) → P x → All P ys → All P (insert_sorted x ys)
unfolding insert_sorted
insert_sorted-All P x [] h all = (h, tt)
insert_sorted-All P x (y ∷ ys) h all =
    if_ind (All P) (leb x y) (λ _. (h, all)) (λ _. (all.0, insert_sorted-All P x ys h all.1))

insert_sorted-IsSorted : (x : ℕ) (ys : List ℕ) → IsSorted ys → IsSorted (insert_sorted x ys)
unfolding insert_sorted
insert_sorted-IsSorted x [] s = (tt, tt)
insert_sorted-IsSorted x (y ∷ ys) s =
    if_ind IsSorted (leb x y)
      (λ small. ((ground arith, All-map (λ z. y ≤ z) (λ z. x ≤ z) ys (λ z h. ground arith) s.0), s))
      (λ large.
        (insert_sorted-All (λ z. y ≤ z) x ys (ground arith) s.0, insert_sorted-IsSorted x ys s.1))

sorted-IsSorted : (xs : List ℕ) → IsSorted (sorted xs)
unfolding sorted
sorted-IsSorted [] = tt
sorted-IsSorted (x ∷ xs) = insert_sorted-IsSorted x (sorted xs) (sorted-IsSorted xs)

-- A sum over the values is the same in any order.
below-insert_sorted : (m x : ℕ) (ys : List ℕ) → below m (insert_sorted x ys) ≡ below m (x ∷ ys)
unfolding insert_sorted
below-insert_sorted m x [] = refl
below-insert_sorted m x (y ∷ ys) =
    if_ind (λ l. below m l ≡ below m (x ∷ y ∷ ys)) (leb x y) (λ _. refl)
      (λ _. omega (arith, below-insert_sorted m x ys))

up_to-insert_sorted : (m x : ℕ) (ys : List ℕ) → up_to m (insert_sorted x ys) ≡ up_to m (x ∷ ys)
unfolding insert_sorted
up_to-insert_sorted m x [] = refl
up_to-insert_sorted m x (y ∷ ys) =
    if_ind (λ l. up_to m l ≡ up_to m (x ∷ y ∷ ys)) (leb x y) (λ _. refl)
      (λ _. omega (arith, up_to-insert_sorted m x ys))

length-insert_sorted : (x : ℕ) (ys : List ℕ) → length (insert_sorted x ys) ≡ suc (length ys)
unfolding insert_sorted
length-insert_sorted x [] = refl
length-insert_sorted x (y ∷ ys) = ground (arith, length-insert_sorted x ys)

same_counts :
    (m : ℕ) (xs : List ℕ)
    → (below m (sorted xs) ≡ below m xs)
      × (up_to m (sorted xs) ≡ up_to m xs)
      × (length (sorted xs) ≡ length xs)
unfolding sorted
same_counts m [] = (refl, refl, refl)
same_counts m (x ∷ xs) =
    let rest = same_counts m xs in
    (
      omega (arith, below-insert_sorted m x (sorted xs), rest.0),
      omega (arith, up_to-insert_sorted m x (sorted xs), rest.1),
      length-insert_sorted x (sorted xs) ∙ ap suc rest.2,
    )

none_below : (m y : ℕ) (ys : List ℕ) → m ≤ y → All (λ z. y ≤ z) ys → below m ys ≡ 0
none_below m y [] h all = refl
none_below m y (z ∷ ys) h all = ground (arith, none_below m y ys, all.0)

get_elem?-All : (P : ℕ → Type 0) (ys : List ℕ) (k m : ℕ) → All P ys → get_elem? ys k ≡ some m → P m
get_elem?-All P [] k m all h = cc
get_elem?-All P (y ∷ ys) zero m all h = subst P (cc h) all.0
get_elem?-All P (y ∷ ys) (suc k) m all h = get_elem?-All P ys k m all.1 h

-- The value at a place of a sorted list: no more values are below it than stand before the place.
ranked :
    (ys : List ℕ) (k m : ℕ)
    → IsSorted ys
    → get_elem? ys k ≡ some m
    → (below m ys ≤ k) × (k < up_to m ys)
ranked [] k m s h = cc
ranked (y ∷ ys) zero m s h =
    let here : y ≡ m = cc h in
    (ground (arith, none_below m y ys (omega (arith, here)) s.0), ground (arith, here))
ranked (y ∷ ys) (suc k) m s h =
    let rest = ranked ys k m s.1 h in
    let after : y ≤ m = get_elem?-All (λ z. y ≤ z) ys k m s.0 h in
    (ground (arith, rest.0), ground (arith, rest.1, after))

get_elem?-none : (ys : List ℕ) (k : ℕ) → get_elem? ys k ≡ none → length ys ≤ k
get_elem?-none [] k h = omega arith
get_elem?-none (y ∷ ys) zero h = cc
get_elem?-none (y ∷ ys) (suc k) h = omega (arith, get_elem?-none ys k h)

get_elem?-some : (ys : List ℕ) (k m : ℕ) → get_elem? ys k ≡ some m → k < length ys
get_elem?-some [] k m h = cc
get_elem?-some (y ∷ ys) zero m h = omega arith
get_elem?-some (y ∷ ys) (suc k) m h = omega (arith, get_elem?-some ys k m h)

length_zero : (xs : List ℕ) → length xs ≤ 0 → xs ≡ []
length_zero [] h = refl
length_zero (x ∷ xs) h = absurd (omega arith)

middle-IsMedian : (xs : List ℕ) (o : Option ℕ) → middle (sorted xs) ≡ o → IsMedian xs o
middle-IsMedian xs none h =
    let len = (same_counts 0 xs).2 in
    length_zero xs (omega (arith, len, get_elem?-none (sorted xs) ((length (sorted xs) - 1) / 2) h))
middle-IsMedian xs (some m) h =
    let c = same_counts m xs in
    let at = ranked (sorted xs) ((length (sorted xs) - 1) / 2) m (sorted-IsSorted xs) h in
    let long = c.2 in
    let some_value = get_elem?-some (sorted xs) ((length (sorted xs) - 1) / 2) m h in
    (omega (arith, c.0, at.0, long, some_value), omega (arith, c.1, at.1, long))

-- `p50_ms`, on samples in the order of their times, is the lower median of exactly the samples of the
-- window, and None exactly if the window has none.
pub p50_ms-IsMedian :
    (now : ℕ) (recent : RecentTtft)
    → IsChronological recent.samples
    → IsMedian (in_ms (recent_from (now - recent.window_s) recent.samples)) (p50_ms now recent).0
unfolding p50_ms trim
p50_ms-IsMedian now recent order =
    subst (λ l. IsMedian (in_ms l) (p50_ms now recent).0)
      (trim_loop-recent (now - recent.window_s) recent.samples order)
      (middle-IsMedian (in_ms (trim now recent).samples) _ refl)
