-- ===== src/Batching/RoundTrip.antt =====
-- Stacking the caches of src/flux/engine/batching.py and taking a row out again, with the decode step
-- between: every sequence gets back its own cache with its own new token, without padding.
use flux_llm_inference_engin.Prelude.{
  ℕ, zero, suc, ◌-◌, ◌≤◌, List, [], ◌∷◌, ◌++◌, ◌≡◌, refl, sym, ap, ◌∙◌, subst, Option, none, some,
  arith, length, take, drop, length-append, length-take, take_all, All,
}
use mathlib.Core.Option.{some-injective}
use mathlib.Core.List.{append_assoc}
use flux_llm_inference_engin.Kv.{Cache, Layer, cache_seq_len}
use flux_llm_inference_engin.Batching.{
  Stacked, times, layer_at, row_at, width, pad, add_row, stack_layer, row_pieces,
}

module _ {V : Type 0} where
  -- The forward pass appends a position to each row of a tensor.
  abbrev pub grow : List V → List (List V) → List (List V)
  grow [] rows = []
  grow (v ∷ vs) [] = []
  grow (v ∷ vs) (row ∷ rows) = (row ++ v ∷ []) ∷ grow vs rows

  length-times : (n : ℕ) (x : V) → length (times n x) ≡ n
  length-times zero x = refl
  length-times (suc n) x = omega (arith, length-times n x)

  take-pad : (blank : V) (n : ℕ) (xs rest : List V) → length xs ≡ n → take n (xs ++ rest) ≡ xs
  take-pad blank zero [] rest h = refl
  take-pad blank zero (x ∷ xs) rest h = absurd (omega arith)
  take-pad blank (suc n) [] rest h = absurd (omega arith)
  take-pad blank (suc n) (x ∷ xs) rest h = ap (λ l. x ∷ l) (take-pad blank n xs rest (omega arith))

  last_position :
      (n : ℕ) (xs : List V) (v : V) → length xs ≡ n → take 1 (drop n (xs ++ v ∷ [])) ≡ v ∷ []
  last_position zero [] v h = refl
  last_position zero (x ∷ xs) v h = absurd (omega arith)
  last_position (suc n) [] v h = absurd (omega arith)
  last_position (suc n) (x ∷ xs) v h = last_position n xs v (omega arith)

  abbrev pub cache_at : ℕ → List (Cache V) → Option (Cache V)
  cache_at row [] = none
  cache_at zero (cache ∷ caches) = some cache
  cache_at (suc row) (cache ∷ caches) = cache_at row caches

  abbrev pub new_at : ℕ → List V → Option V
  new_at row [] = none
  new_at zero (v ∷ news) = some v
  new_at (suc row) (v ∷ news) = new_at row news

  -- In the layer `idx`, the cache has as many positions as it says, at most `max_len`.
  abbrev pub Fits : ℕ → ℕ → Cache V → Type 0
  Fits idx max_len cache =
      (cache_seq_len cache ≤ max_len)
      × ((layer : Layer V)
          → layer_at idx cache ≡ some layer
          → (length layer.0 ≡ cache_seq_len cache) × (length layer.1 ≡ cache_seq_len cache))

  -- The stacked layer `idx` of some caches, row by row.
  data Padded (blank : V) (idx max_len : ℕ)
      : List (Cache V) → List (List V) → List (List V) → Type 0 where
    no_rows : Padded blank idx max_len [] [] []
    row :
        (cache : Cache V) (key value : List V) (caches : List (Cache V))
        (keys values : List (List V))
        → layer_at idx cache ≡ some (key, value)
        → Fits idx max_len cache
        → Padded blank idx max_len caches keys values
        → Padded blank idx max_len
            (cache ∷ caches)
            (pad blank max_len (cache_seq_len cache) key ∷ keys)
            (pad blank max_len (cache_seq_len cache) value ∷ values)

  module _ (blank : V) (idx max_len : ℕ) where
    added-Padded :
        (cache : Cache V) (caches : List (Cache V)) (o : Option (Layer V)) (p : Option (Stacked V))
        (keys values : List (List V))
        → layer_at idx cache ≡ o
        → Fits idx max_len cache
        → ((ks vs : List (List V)) → p ≡ some (ks, vs) → Padded blank idx max_len caches ks vs)
        → add_row blank max_len (cache_seq_len cache) o p ≡ some (keys, values)
        → Padded blank idx max_len (cache ∷ caches) keys values
    added-Padded cache caches none p keys values eo fits rest h = cc
    added-Padded cache caches (some layer) none keys values eo fits rest h = cc
    added-Padded cache caches (some (key, value)) (some (ks, vs)) keys values eo fits rest h =
        subst (λ (s : Stacked V). Padded blank idx max_len (cache ∷ caches) s.0 s.1)
          (some-injective _ _ h) (row cache key value caches ks vs eo fits (rest ks vs refl))

    stack_layer-Padded :
        (caches : List (Cache V)) (keys values : List (List V))
        → All (Fits idx max_len) caches
        → stack_layer blank idx max_len caches ≡ some (keys, values)
        → Padded blank idx max_len caches keys values
    unfolding stack_layer
    stack_layer-Padded [] keys values all e =
        subst (λ (s : Stacked V). Padded blank idx max_len [] s.0 s.1) (some-injective _ _ e)
          no_rows
    stack_layer-Padded (cache ∷ caches) keys values all e =
        added-Padded cache caches (layer_at idx cache) (stack_layer blank idx max_len caches) keys
          values refl all.0 (λ ks vs p. stack_layer-Padded caches ks vs all.1 p) e

    length-pad :
        (n : ℕ) (xs : List V)
        → length xs ≡ n
        → n ≤ max_len
        → length (pad blank max_len n xs) ≡ max_len
    length-pad n xs h le = omega (
      arith,
      length-append (take n xs) (times (max_len - n) blank),
      length-take n xs,
      length-times (max_len - n) blank,
    )

    -- A row of one stacked tensor after the forward pass: the tokens that the sequence had, and the new one.
    pieces :
        (rows : List (List V)) (n r : ℕ) (xs : List V) (v : V)
        → length xs ≡ n
        → n ≤ max_len
        → width rows ≡ suc max_len
        → row_at r rows ≡ pad blank max_len n xs ++ v ∷ []
        → row_pieces rows r n ≡ xs ++ v ∷ []
    pieces rows zero r [] v h le w e =
        ap (λ l. take 1 (drop (width rows - 1) l)) e
        ∙ ap (λ k. take 1 (drop k (pad blank max_len 0 [] ++ v ∷ []))) (omega (arith, w))
        ∙ last_position max_len (pad blank max_len 0 []) v (length-pad 0 [] refl le)
    pieces rows zero r (x ∷ xs) v h le w e = absurd (omega arith)
    pieces rows (suc n) r xs v h le w e =
        ap (λ l. take (suc n) l ++ take 1 (drop (width rows - 1) l)) e
        ∙ ap
            (λ k.
              take (suc n) (pad blank max_len (suc n) xs ++ v ∷ [])
              ++ take 1 (drop k (pad blank max_len (suc n) xs ++ v ∷ [])))
            (omega (arith, w))
        ∙ ap (λ l. take (suc n) (pad blank max_len (suc n) xs ++ v ∷ []) ++ l)
            (last_position max_len (pad blank max_len (suc n) xs) v (length-pad (suc n) xs h le))
        ∙ ap (λ l. l ++ v ∷ [])
            (ap (take (suc n))
                (append_assoc (take (suc n) xs) (times (max_len - suc n) blank) (v ∷ []))
              ∙ take-pad blank (suc n) (take (suc n) xs) _ (omega (arith, length-take (suc n) xs))
              ∙ take_all (suc n) xs (omega arith))

    -- The row `r` of both tensors after the forward pass, and their width.
    grown :
        {caches : List (Cache V)} {keys values : List (List V)}
        → Padded blank idx max_len caches keys values
        → (r : ℕ) (cache : Cache V) (key value new_keys new_values : List V) (k v : V)
        → cache_at r caches ≡ some cache
        → layer_at idx cache ≡ some (key, value)
        → new_at r new_keys ≡ some k
        → new_at r new_values ≡ some v
        → (row_at r (grow new_keys keys) ≡ pad blank max_len (cache_seq_len cache) key ++ k ∷ [])
          × (row_at r (grow new_values values)
              ≡ pad blank max_len (cache_seq_len cache) value ++ v ∷ [])
    grown no_rows r cache key value nk nv k v c e hk hv = cc
    grown (row c0 key0 value0 caches keys values e0 fits rest) r cache key value [] nv k v c e hk
          hv =
        cc
    grown (row c0 key0 value0 caches keys values e0 fits rest) r cache key value (x ∷ nk) [] k v c e
          hk hv =
        cc
    grown (row c0 key0 value0 caches keys values e0 fits rest) zero cache key value (x ∷ nk)
          (y ∷ nv) k v c e hk hv =
        (
          cc (
            some-injective _ _ hk,
            some-injective _ _ c,
            some-injective _ _ (sym e0 ∙ ap (layer_at idx) (some-injective _ _ c) ∙ e),
          ),
          cc (
            some-injective _ _ hv,
            some-injective _ _ c,
            some-injective _ _ (sym e0 ∙ ap (layer_at idx) (some-injective _ _ c) ∙ e),
          ),
        )
    grown (row c0 key0 value0 caches keys values e0 fits rest) (suc r) cache key value (x ∷ nk)
          (y ∷ nv) k v c e hk hv =
        grown rest r cache key value nk nv k v c e hk hv

    width-grown :
        {caches : List (Cache V)} {keys values : List (List V)}
        → Padded blank idx max_len caches keys values
        → (r : ℕ) (cache : Cache V) (new_keys new_values : List V) (k v : V)
        → cache_at r caches ≡ some cache
        → new_at r new_keys ≡ some k
        → new_at r new_values ≡ some v
        → (width (grow new_keys keys) ≡ suc max_len)
          × (width (grow new_values values) ≡ suc max_len)
    width-grown no_rows r cache nk nv k v c hk hv = cc
    width-grown (row c0 key0 value0 caches keys values e0 fits rest) r cache [] nv k v c hk hv = cc
    width-grown (row c0 key0 value0 caches keys values e0 fits rest) r cache (x ∷ nk) [] k v c hk
          hv =
        cc
    width-grown (row c0 key0 value0 caches keys values e0 fits rest) r cache (x ∷ nk) (y ∷ nv) k v c
          hk hv =
        let n = cache_seq_len c0 in
        let sizes = fits.1 (key0, value0) e0 in
        (
          omega (
            arith,
            length-append (pad blank max_len n key0) (x ∷ []),
            length-pad n key0 sizes.0 fits.0,
          ),
          omega (
            arith,
            length-append (pad blank max_len n value0) (y ∷ []),
            length-pad n value0 sizes.1 fits.0,
          ),
        )

    fits_at :
        (caches : List (Cache V)) (r : ℕ) (cache : Cache V)
        → All (Fits idx max_len) caches
        → cache_at r caches ≡ some cache
        → Fits idx max_len cache
    fits_at [] r cache all c = cc
    fits_at (c0 ∷ caches) zero cache all c = subst (Fits idx max_len) (some-injective _ _ c) all.0
    fits_at (c0 ∷ caches) (suc r) cache all c = fits_at caches r cache all.1 c

    -- For caches of at most `max_len` positions whose layers all have as many positions as the cache
    -- says: a layer is padded and stacked, the forward pass appends a position to each row, and what is
    -- taken out of a row is that sequence's own layer with its own new position, without padding.
    pub row_pieces-stack_layer :
        (caches : List (Cache V)) (keys values : List (List V)) (r : ℕ) (cache : Cache V)
        (key value new_keys new_values : List V) (k v : V)
        → All (Fits idx max_len) caches
        → stack_layer blank idx max_len caches ≡ some (keys, values)
        → cache_at r caches ≡ some cache
        → layer_at idx cache ≡ some (key, value)
        → new_at r new_keys ≡ some k
        → new_at r new_values ≡ some v
        → (row_pieces (grow new_keys keys) r (cache_seq_len cache) ≡ key ++ k ∷ [])
          × (row_pieces (grow new_values values) r (cache_seq_len cache) ≡ value ++ v ∷ [])
    row_pieces-stack_layer caches keys values r cache key value nk nv k v all e c l hk hv =
        let padded = stack_layer-Padded caches keys values all e in
        let rows = grown padded r cache key value nk nv k v c l hk hv in
        let wide = width-grown padded r cache nk nv k v c hk hv in
        let fits = fits_at caches r cache all c in
        let sizes = fits.1 (key, value) l in
        (
          pieces (grow nk keys) (cache_seq_len cache) r key k sizes.0 fits.0 wide.0 rows.0,
          pieces (grow nv values) (cache_seq_len cache) r value v sizes.1 fits.0 wide.1 rows.1,
        )
