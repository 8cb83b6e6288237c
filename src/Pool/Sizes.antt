-- ===== src/Pool/Sizes.antt =====
-- The sizes of src/flux/engine/block_pool.py: how many blocks some tokens need, and how many blocks the
-- pool gets.
use native.Mathlib.Nat.{div-lt_iff_lt-mul, lt-div-mul-add}
use flux_llm_inference_engin.Prelude.{ℕ, ◌+◌, ◌-◌, ◌*◌, ◌/◌, ◌≤◌, ◌<◌, arith, leb, if_ind}
use flux_llm_inference_engin.Pool.{BlockPool, blocks_needed, ceil_div}

-- The least number of blocks of a size that hold some tokens.
pub record IsLeastCover (block_size num_tokens n : ℕ) : Type 0 where
  pub covers : num_tokens ≤ n * block_size
  pub least : (m : ℕ) → num_tokens ≤ m * block_size → n ≤ m

ceil_div-IsLeastCover : (a b : ℕ) → 0 < b → 0 < a → IsLeastCover b a (ceil_div a b)
ceil_div-IsLeastCover a b pos some_tokens = record {
  covers =
      let upper : a + b - 1 < (a + b - 1) / b * b + b = lt-div-mul-add pos in omega (arith, upper);
  least = λ m enough.
      let below : (a + b - 1) / b < m + 1 = (div-lt_iff_lt-mul pos).1 (grind (arith, enough)) in
      omega (arith, below);
}

-- `blocks_needed`, in a pool whose blocks have a size, is the least number of blocks that hold the tokens.
pub blocks_needed-IsLeastCover :
    (pool : BlockPool) (num_tokens : ℕ)
    → 0 < pool.block_size
    → IsLeastCover pool.block_size num_tokens (blocks_needed pool num_tokens)
unfolding blocks_needed
blocks_needed-IsLeastCover pool num_tokens pos =
    if_ind (IsLeastCover pool.block_size num_tokens) (leb num_tokens 0)
      (λ nothing. record { covers = ground arith; least = λ m enough. omega arith })
      (λ something. ceil_div-IsLeastCover num_tokens pool.block_size pos (ground arith))
