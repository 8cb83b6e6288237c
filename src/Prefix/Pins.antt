-- ===== src/Prefix/Pins.antt =====
-- The reference counts on blocks of src/flux/engine/prefix_cache.py: what `_pin` adds, what `_unpin`
-- takes away, and which blocks it hands back to the pool.
use flux_llm_inference_engin.Prelude.{
  ℕ, ◌+◌, ◌-◌, ◌≤◌, List, [], ◌∷◌, ◌++◌, ◌≡◌, inl, inr, refl, true, false, arith, count,
  count-append, leb, ltb, nat_beq, if◌then◌else◌, nat_eq, nat_beq_iff, Bool-cases,
}
use flux_llm_inference_engin.Prelude.Dict.{
  Dict, put, del, get-put, get-del, Distinct, put-Distinct, del-Distinct,
}
use flux_llm_inference_engin.Prefix.{pin_count, pin, unpin_loop}

pub pin_count-put :
    (b j n : ℕ) (pins : Dict ℕ ℕ)
    → pin_count b (put j n pins) ≡ (if nat_beq j b then n else pin_count b pins)
pin_count-put b j n pins = rw (pin_count, get-put j b n pins) (ground arith)

pin_count-del :
    (b j : ℕ) (pins : Dict ℕ ℕ)
    → Distinct pins
    → pin_count b (del j pins) ≡ (if nat_beq j b then 0 else pin_count b pins)
pin_count-del b j pins d = rw (pin_count, get-del j b pins d) (ground arith)

pub pin-Distinct : (ids : List ℕ) (pins : Dict ℕ ℕ) → Distinct pins → Distinct (pin ids pins)
unfolding pin
pin-Distinct [] pins d = d
pin-Distinct (j ∷ ids) pins d =
    pin-Distinct ids (put j (pin_count j pins + 1) pins)
      (put-Distinct j (pin_count j pins + 1) pins d)

-- `_pin` counts each block once for each time that it stands in the list.
pub pin_count-pin :
    (b : ℕ) (ids : List ℕ) (pins : Dict ℕ ℕ)
    → pin_count b (pin ids pins) ≡ pin_count b pins + count b ids
unfolding pin
pin_count-pin b [] pins = omega arith
pin_count-pin b (j ∷ ids) pins = ground (
  arith,
  pin_count-pin b ids (put j (pin_count j pins + 1) pins),
  pin_count-put b j (pin_count j pins + 1) pins,
  nat_beq_iff j b,
)

-- The pins as `_unpin` leaves them: one less for each time that the block stands in the list. The
-- blocks whose count fell to nothing stand in `to_free`, each once.
pub record Unpins (b : ℕ) (ids : List ℕ) (pins : Dict ℕ ℕ) (to_free : List ℕ)
    (done : List ℕ × Dict ℕ ℕ) : Type 0 where
  pub left : pin_count b done.1 + count b ids ≡ pin_count b pins
  pub freed :
      count b done.0 + (if ltb 0 (pin_count b done.1) then 1 else 0)
      ≡ count b to_free + (if ltb 0 (pin_count b pins) then 1 else 0)

-- `_unpin` takes one reference for each occurrence of a block that is pinned at least that often, and
-- frees it, once, exactly if its count falls to nothing.
pub unpin_loop-Unpins :
    (b : ℕ) (ids : List ℕ) (pins : Dict ℕ ℕ) (to_free : List ℕ)
    → Distinct pins
    → count b ids ≤ pin_count b pins
    → Unpins b ids pins to_free (unpin_loop ids pins to_free)
unfolding unpin_loop
unpin_loop-Unpins b [] pins to_free d h = record { left = omega arith; freed = refl }
unpin_loop-Unpins b (j ∷ ids) pins to_free d h = elim (Bool-cases (leb (pin_count j pins) 1)) [
  | inl last ↦
      let ih = unpin_loop-Unpins b ids (del j pins) (to_free ++ j ∷ []) (del-Distinct j pins d) in
      ground (
        arith,
        last,
        ih,
        pin_count-del b j pins d,
        count-append b to_free (j ∷ []),
        nat_beq_iff j b,
      )
  | inr more ↦
      let ih =
        unpin_loop-Unpins b ids (put j (pin_count j pins - 1) pins) to_free
          (put-Distinct j (pin_count j pins - 1) pins d) in
      ground (arith, more, ih, pin_count-put b j (pin_count j pins - 1) pins, nat_beq_iff j b)
]

pub unpin_loop-Distinct :
    (ids : List ℕ) (pins : Dict ℕ ℕ) (to_free : List ℕ)
    → Distinct pins
    → Distinct (unpin_loop ids pins to_free).1
unfolding unpin_loop
unpin_loop-Distinct [] pins to_free d = d
unpin_loop-Distinct (j ∷ ids) pins to_free d =
    elim (leb (pin_count j pins) 1)
      as (λ last.
        Distinct
          (unpin_loop ids (if last then del j pins else put j (pin_count j pins - 1) pins)
            (if last then to_free ++ j ∷ [] else to_free)).1) [
              | true ↦ unpin_loop-Distinct ids _ _ (del-Distinct j pins d)
              | false ↦ unpin_loop-Distinct ids _ _ (put-Distinct j (pin_count j pins - 1) pins d)
            ]
