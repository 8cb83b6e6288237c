-- ===== src/Prelude/Lists.antt =====
-- Lists measured, cut and counted by native numbers, under the library's names.
use Prim.Native.Nat.{ℕ, zero, suc, ◌+◌, ◌-◌, ◌≤◌, ◌<◌, min}
use mathlib.Core.Path.{◌≡◌, refl, ap}
use mathlib.Core.Bool.{Bool, true, false}
use mathlib.Core.List.{List, [], ◌∷◌, ◌++◌}
use native.Mathlib.Omega.{arith}
use flux_llm_inference_engin.Prelude.Tests.{nat_beq, nat_beq_iff, ltb, if◌then◌else◌}

module _ {ℓ} {A : Type ℓ} where
  abbrev pub length : List A → ℕ
  length [] = 0
  length (x ∷ xs) = suc (length xs)

  abbrev pub take : ℕ → List A → List A
  take zero xs = []
  take (suc n) [] = []
  take (suc n) (x ∷ xs) = x ∷ take n xs

  abbrev pub drop : ℕ → List A → List A
  drop zero xs = xs
  drop (suc n) [] = []
  drop (suc n) (x ∷ xs) = drop n xs

  -- The members that pass a Boolean test.
  abbrev pub keep_if : (A → Bool) → List A → List A
  keep_if p [] = []
  keep_if p (x ∷ xs) = if p x then x ∷ keep_if p xs else keep_if p xs

  abbrev pub All {κ} : (A → Type κ) → List A → Type κ
  All P [] = Unit
  All P (x ∷ xs) = P x × All P xs

  pub keep_if-All {κ} :
      (P : A → Type κ) (p : A → Bool) (xs : List A)
      → All P xs
      → All (λ (x : A). P x × (p x ≡ true)) (keep_if p xs)
  keep_if-All P p [] a = tt
  keep_if-All P p (x ∷ xs) a = branch (p x) refl (keep_if-All P p xs a.1)
    where
      branch :
          (b : Bool)
          → p x ≡ b
          → All (λ (y : A). P y × (p y ≡ true)) (keep_if p xs)
          → All (λ (y : A). P y × (p y ≡ true)) (if b then x ∷ keep_if p xs else keep_if p xs)
      branch true e rest = ((a.0, e), rest)
      branch false e rest = rest

  pub All-map {κ μ} :
      (P : A → Type κ) (Q : A → Type μ) (xs : List A) → ((x : A) → P x → Q x) → All P xs → All Q xs
  All-map P Q [] f a = tt
  All-map P Q (x ∷ xs) f a = (f x a.0, All-map P Q xs f a.1)

  pub All-both {κ μ} :
      (P : A → Type κ) (Q : A → Type μ) (xs : List A)
      → All P xs
      → All Q xs
      → All (λ (x : A). P x × Q x) xs
  All-both P Q [] a b = tt
  All-both P Q (x ∷ xs) a b = ((a.0, b.0), All-both P Q xs a.1 b.1)

  pub length-append : (xs ys : List A) → length (xs ++ ys) ≡ length xs + length ys
  length-append [] ys = omega arith
  length-append (x ∷ xs) ys = omega (arith, length-append xs ys)

  pub length-take : (n : ℕ) (xs : List A) → length (take n xs) ≡ min n (length xs)
  length-take zero xs = omega arith
  length-take (suc n) [] = omega arith
  length-take (suc n) (x ∷ xs) = omega (arith, length-take n xs)

  pub length-drop : (n : ℕ) (xs : List A) → length (drop n xs) ≡ length xs - n
  length-drop zero xs = omega arith
  length-drop (suc n) [] = omega arith
  length-drop (suc n) (x ∷ xs) = omega (arith, length-drop n xs)

  pub take-append-drop : (n : ℕ) (xs : List A) → take n xs ++ drop n xs ≡ xs
  take-append-drop zero xs = refl
  take-append-drop (suc n) [] = refl
  take-append-drop (suc n) (x ∷ xs) = rw (take-append-drop n xs)

  pub take_all : (n : ℕ) (xs : List A) → length xs ≤ n → take n xs ≡ xs
  take_all zero [] h = refl
  take_all zero (x ∷ xs) h = absurd (omega arith)
  take_all (suc n) [] h = refl
  take_all (suc n) (x ∷ xs) h = rw (take_all n xs (omega arith))

  pub take-take : (m n : ℕ) (xs : List A) → m ≤ n → take m (take n xs) ≡ take m xs
  take-take zero n xs h = refl
  take-take (suc m) zero xs h = absurd (omega arith)
  take-take (suc m) (suc n) [] h = refl
  take-take (suc m) (suc n) (x ∷ xs) h = rw (take-take m n xs (omega arith))

-- How often a number stands in a list.
abbrev pub count : ℕ → List ℕ → ℕ
count a [] = 0
count a (x ∷ xs) = (if nat_beq x a then 1 else 0) + count a xs

pub count-append :
    (b : ℕ) (left right : List ℕ) → count b (left ++ right) ≡ count b left + count b right
count-append b [] right = omega arith
count-append b (_ ∷ left) right = omega (arith, count-append b left right)

pub count-take-drop :
    (a n : ℕ) (xs : List ℕ) → count a (take n xs) + count a (drop n xs) ≡ count a xs
count-take-drop a zero xs = omega arith
count-take-drop a (suc n) [] = omega arith
count-take-drop a (suc n) (x ∷ xs) = omega (arith, count-take-drop a n xs)

-- Python's range(n), and range(k, k + n).
abbrev pub range_from : ℕ → ℕ → List ℕ
range_from k zero = []
range_from k (suc n) = k ∷ range_from (suc k) n

abbrev pub range : ℕ → List ℕ
range n = range_from 0 n

pub length-range_from : (k n : ℕ) → length (range_from k n) ≡ n
length-range_from k zero = refl
length-range_from k (suc n) = ap suc (length-range_from (suc k) n)

count-range_from_low : (a k n : ℕ) → a < k → count a (range_from k n) ≡ 0
count-range_from_low a k zero h = refl
count-range_from_low a k (suc n) h = ground (arith, count-range_from_low a (suc k) n)

count-range_from : (a k n : ℕ) → k ≤ a → count a (range_from k n) ≡ (if ltb a (k + n) then 1 else 0)
count-range_from a k zero h = ground arith
count-range_from a k (suc n) h =
    ground (arith, count-range_from a (suc k) n, count-range_from_low a (suc k) n)

-- Each number below n stands in range(n) once, and no other stands there.
pub count-range : (a n : ℕ) → count a (range n) ≡ (if ltb a n then 1 else 0)
count-range a n = ground (arith, count-range_from a 0 n)

-- A list without the first occurrence of a number.
abbrev drop_one : ℕ → List ℕ → List ℕ
drop_one a [] = []
drop_one a (x ∷ xs) = let rest = drop_one a xs in if nat_beq x a then xs else x ∷ rest

count-drop_one :
    (a b : ℕ) (xs : List ℕ)
    → 0 < count a xs
    → count b (drop_one a xs) + (if nat_beq a b then 1 else 0) ≡ count b xs
count-drop_one a b [] h = absurd (omega arith)
count-drop_one a b (x ∷ xs) h =
    ground (arith, nat_beq_iff x a, nat_beq_iff x b, nat_beq_iff a b, count-drop_one a b xs)

length-drop_one : (a : ℕ) (xs : List ℕ) → 0 < count a xs → suc (length (drop_one a xs)) ≡ length xs
length-drop_one a [] h = absurd (omega arith)
length-drop_one a (x ∷ xs) h = ground (arith, length-drop_one a xs)

-- A list in which nothing stands more often than in another is not longer.
pub length-le_of_count :
    (xs ys : List ℕ) → ((i : ℕ) → count i xs ≤ count i ys) → length xs ≤ length ys
length-le_of_count [] ys h = omega arith
length-le_of_count (x ∷ xs) ys h =
    let there : 0 < count x ys = ground (arith, h x, nat_beq_iff x x) in
    let rest =
      length-le_of_count xs (drop_one x ys)
        (λ i. omega (arith, h i, count-drop_one x i ys there)) in
    omega (arith, rest, length-drop_one x ys there)
