-- ===== src/Prelude/Dict.antt =====
-- Python's dict: pairs in the order of insertion, where an assignment to a key that is there keeps
-- its place. Keys are compared by an instance of `Key`.
use Prim.Native.Nat.{ℕ, suc, ◌+◌, ◌≤◌}
use mathlib.Core.Path.{◌≡◌, refl, subst}
use mathlib.Core.Logic.{inl, inr}
use mathlib.Core.Option.{Option, none, some}
use mathlib.Core.List.{List, [], ◌∷◌}
use native.Mathlib.Omega.{arith}
use flux_llm_inference_engin.Prelude.Tests.{Key, ◌==◌, if◌then◌else◌, Bool-cases}
use flux_llm_inference_engin.Prelude.Lists.{length, All}

abbrev pub Dict : Type 0 → Type 0 → Type 0
Dict K V = List (K × V)

abbrev pub values : {K V : Type 0} → Dict K V → List V
values [] = []
values ((j, v) ∷ m) = v ∷ values m

-- The sum of a weight over the entries.
abbrev pub total : {K V : Type 0} → (V → ℕ) → Dict K V → ℕ
total f [] = 0
total f ((j, v) ∷ m) = f v + total f m

module _ {K V : Type 0} ⦃e : Key K⦄ where
  -- d.get(k)
  unfoldable pub get : K → Dict K V → Option V
  get k [] = none
  get k ((j, v) ∷ m) = if j == k then some v else get k m

  -- d[k] = v
  unfoldable pub put : K → V → Dict K V → Dict K V
  put k v [] = (k, v) ∷ []
  put k v ((j, w) ∷ m) = if j == k then (j, v) ∷ m else (j, w) ∷ put k v m

  -- d.pop(k, None), without its result
  unfoldable pub del : K → Dict K V → Dict K V
  del k [] = []
  del k ((j, w) ∷ m) = if j == k then m else (j, w) ∷ del k m

  pub get-put :
      (k j : K) (v : V) (m : Dict K V) → get j (put k v m) ≡ (if k == j then some v else get j m)
  unfolding get put
  get-put k j v [] = refl
  get-put k j v ((i, w) ∷ m) =
      ground (arith, e.same_iff k j, e.same_iff i k, e.same_iff i j, get-put k j v m)

  pub put-All {ℓ} :
      (P : K × V → Type ℓ) (k : K) (v : V) (m : Dict K V) → P (k, v) → All P m → All P (put k v m)
  unfolding put
  put-All P k v [] h a = (h, tt)
  put-All P k v ((j, w) ∷ m) h a = ground (arith, e.same_iff j k, put-All P k v m)

  pub del-All {ℓ} : (P : K × V → Type ℓ) (k : K) (m : Dict K V) → All P m → All P (del k m)
  unfolding del
  del-All P k [] a = tt
  del-All P k ((j, w) ∷ m) a = ground (arith, del-All P k m)

  pub get-All {ℓ} :
      (P : K × V → Type ℓ) (k : K) (m : Dict K V) {v : V} → All P m → get k m ≡ some v → P (k, v)
  unfolding get
  get-All P k [] a h = cc
  get-All P k ((j, w) ∷ m) {v} a h = elim (Bool-cases (j == k)) [
    | inl same ↦
        let found : some w ≡ some v = rw (same, get) at h in
        let here : P (j, w) = a.0 in
        subst (λ (p : K × V). P p) (cc ((e.same_iff j k).0 same, found)) here
    | inr other ↦ get-All P k m a.1 (rw (other, get) at h)
  ]

  pub total-put_new :
      (f : V → ℕ) (k : K) (v : V) (m : Dict K V)
      → get k m ≡ none
      → total f (put k v m) ≡ total f m + f v
  unfolding get put
  total-put_new f k v [] h = omega arith
  total-put_new f k v ((j, w) ∷ m) h = ground (arith, total-put_new f k v m)

  pub total-put_old :
      (f : V → ℕ) (k : K) (v w : V) (m : Dict K V)
      → get k m ≡ some w
      → total f (put k v m) + f w ≡ total f m + f v
  unfolding get put
  total-put_old f k v w [] h = cc
  total-put_old f k v w ((j, u) ∷ m) h = ground (arith, total-put_old f k v w m)

  pub total-del :
      (f : V → ℕ) (k : K) (w : V) (m : Dict K V)
      → get k m ≡ some w
      → total f (del k m) + f w ≡ total f m
  unfolding get del
  total-del f k w [] h = cc
  total-del f k w ((j, u) ∷ m) h = ground (arith, total-del f k w m)

  pub del_missing : (k : K) (m : Dict K V) → get k m ≡ none → del k m ≡ m
  unfolding get del
  del_missing k [] h = refl
  del_missing k ((j, u) ∷ m) h = ground (arith, del_missing k m)

  pub total-get : (f : V → ℕ) (k : K) (w : V) (m : Dict K V) → get k m ≡ some w → f w ≤ total f m
  unfolding get
  total-get f k w [] h = cc
  total-get f k w ((j, u) ∷ m) h = ground (arith, total-get f k w m)

  pub length-put : (k : K) (v : V) (m : Dict K V) → length (put k v m) ≤ suc (length m)
  unfolding put
  length-put k v [] = omega arith
  length-put k v ((j, w) ∷ m) = ground (arith, length-put k v m)

  pub length-put_old :
      (k : K) (v w : V) (m : Dict K V) → get k m ≡ some w → length (put k v m) ≡ length m
  unfolding get put
  length-put_old k v w [] h = cc
  length-put_old k v w ((j, u) ∷ m) h = ground (arith, length-put_old k v w m)

  pub length-del :
      (k : K) (w : V) (m : Dict K V) → get k m ≡ some w → suc (length (del k m)) ≡ length m
  unfolding get del
  length-del k w [] h = cc
  length-del k w ((j, u) ∷ m) h = ground (arith, length-del k w m)

  -- Each key stands once, as in every dict.
  abbrev pub Distinct : Dict K V → Type 0
  Distinct [] = Unit
  Distinct ((j, v) ∷ m) = (get j m ≡ none) × Distinct m

  pub put-Distinct : (k : K) (v : V) (m : Dict K V) → Distinct m → Distinct (put k v m)
  unfolding get put
  put-Distinct k v [] d = (refl, tt)
  put-Distinct k v ((j, w) ∷ m) d =
      ground (arith, e.same_iff j k, e.same_iff k j, get-put k j v m, put-Distinct k v m)

  pub get-del-none : (k j : K) (m : Dict K V) → get j m ≡ none → get j (del k m) ≡ none
  unfolding get del
  get-del-none k j [] h = refl
  get-del-none k j ((i, w) ∷ m) h = ground (arith, get-del-none k j m)

  pub del-Distinct : (k : K) (m : Dict K V) → Distinct m → Distinct (del k m)
  unfolding get del
  del-Distinct k [] d = tt
  del-Distinct k ((j, w) ∷ m) d = ground (arith, get-del-none k j m, del-Distinct k m)

  pub get-del :
      (k j : K) (m : Dict K V) → Distinct m → get j (del k m) ≡ (if k == j then none else get j m)
  unfolding get del
  get-del k j [] d = ground arith
  get-del k j ((i, w) ∷ m) d =
      ground (arith, e.same_iff k j, e.same_iff i k, e.same_iff i j, get-del k j m d.1)

  get-cons_other :
      (k j : K) (v w : V) (m : Dict K V)
      → get k m ≡ none
      → get j m ≡ some w
      → get j ((k, v) ∷ m) ≡ some w
  unfolding get
  get-cons_other k j v w m absent found = ground (arith, e.same_iff k j)

  -- Each pair of a dict is what its key finds.
  pub get_each :
      (all m : Dict K V)
      → Distinct m
      → ((k : K) (v : V) → get k m ≡ some v → get k all ≡ some v)
      → All (λ (p : K × V). get p.0 all ≡ some p.1) m
  unfolding get
  get_each all [] d into = tt
  get_each all ((k, v) ∷ m) d into = (
    into k v (rw ((e.same_iff k k).1 refl)),
    get_each all m d.1 (λ j w found. into j w (get-cons_other k j v w m d.0 found)),
  )

pub values-All {ℓ κ} :
    {K V : Type 0} (P : K × V → Type ℓ) (Q : V → Type κ) (m : Dict K V)
    → ((p : K × V) → P p → Q p.1)
    → All P m
    → All Q (values m)
values-All P Q [] f a = tt
values-All P Q ((k, v) ∷ m) f a = (f (k, v) a.0, values-All P Q m f a.1)
