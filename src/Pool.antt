-- ===== src/Pool.antt =====
-- src/flux/engine/block_pool.py: the accounting pool of KV blocks. A block is its number. `_free` is
-- the list of the free blocks, front first; `_alloc` and `_anon` are dictionaries. A method returns
-- the new pool, and the new sequence where it writes to one. `math.ceil(a / b)` divides in floating
-- point, and agrees with the integer quotient below 2 ^ 53.
pub mod Balance
pub mod Sizes
use Prim.Native.String.{String}
use flux_llm_inference_engin.Prelude.{
  ℕ, ◌+◌, ◌-◌, ◌*◌, ◌/◌, min, max, List, [], ◌∷◌, ◌++◌, Option, none, some, Bool, true, false,
  length, take, drop, range, leb, ltb, nat_beq, if◌then◌else◌, nat_eq, string_eq,
}
use flux_llm_inference_engin.Prelude.Dict.{Dict, get, put, del}
use flux_llm_inference_engin.Sequence.{Sequence}

pub record BlockPool : Type 0 where
  pub num_blocks : ℕ
  pub block_size : ℕ
  pub free_list : List ℕ
  pub alloc : Dict ℕ (List ℕ)
  pub anon : Dict String (List ℕ)

-- BlockPool(num_blocks, block_size); `none` is the ValueError.
unfoldable pub new : ℕ → ℕ → Option BlockPool
new num_blocks block_size =
    if ltb num_blocks 1
    then none
    else if ltb block_size 1
    then none
    else some (record {
      num_blocks = num_blocks;
      block_size = block_size;
      free_list = range num_blocks;
      alloc = [];
      anon = [];
    })

abbrev pub free_blocks : BlockPool → ℕ
free_blocks pool = length pool.free_list

abbrev pub used_blocks : BlockPool → ℕ
used_blocks pool = pool.num_blocks - free_blocks pool

abbrev pub ceil_div : ℕ → ℕ → ℕ
ceil_div a b = (a + b - 1) / b

unfoldable pub blocks_needed : BlockPool → ℕ → ℕ
blocks_needed pool num_tokens = if leb num_tokens 0 then 0 else ceil_div num_tokens pool.block_size

unfoldable pub can_allocate : BlockPool → ℕ → Bool
can_allocate pool num_tokens = leb (blocks_needed pool num_tokens) (free_blocks pool)

-- `self._anon[key] = list(ids)`, where a key is given.
abbrev note_anon : Option String → List ℕ → BlockPool → BlockPool
note_anon none ids pool = pool
note_anon (some key) ids pool = record pool { anon = put key ids pool.anon }

unfoldable pub reserve : BlockPool → ℕ → Option String → Option (List ℕ × BlockPool)
reserve pool num_tokens key =
    let needed = blocks_needed pool num_tokens in
    if nat_beq needed 0
    then some ([], note_anon key [] pool)
    else if ltb (free_blocks pool) needed
    then none
    else some (
      take needed pool.free_list,
      note_anon key (take needed pool.free_list)
          (record pool { free_list = drop needed pool.free_list }),
    )

-- `for block_id in ids: self._free.append(block_id)`
abbrev give_back : List ℕ → BlockPool → BlockPool
give_back ids pool = record pool { free_list = pool.free_list ++ ids }

unfoldable pub release : BlockPool → List ℕ → Option String → BlockPool
release pool ids none = give_back ids pool
release pool ids (some key) = elim (get key pool.anon) [
  | none ↦ pool
  | some stored ↦ give_back stored (record pool { anon = del key pool.anon })
]

-- Python's `xs or ys`.
abbrev or_else : List ℕ → List ℕ → List ℕ
or_else [] ys = ys
or_else (x ∷ xs) ys = x ∷ xs

-- What `_alloc` holds for a sequence, or what the sequence itself says that it holds.
abbrev holding : Option (List ℕ) → List ℕ → List ℕ → List ℕ
holding none owned blocks = or_else owned blocks
holding (some ids) owned blocks = ids

-- `pool._alloc.get(seq.id, [])`
abbrev pub alloc_of : ℕ → BlockPool → List ℕ
alloc_of id pool = elim (get id pool.alloc) [ none ↦ [] | some ids ↦ ids ]

-- The allocations of the pool, if there is one.
abbrev pub alloc_at : Option BlockPool → Option (Dict ℕ (List ℕ))
alloc_at none = none
alloc_at (some pool) = some pool.alloc

abbrev pub holds : ℕ → Option (Dict ℕ (List ℕ)) → Option (List ℕ)
holds id none = none
holds id (some alloc) = get id alloc

abbrev pub present : Option (Dict ℕ (List ℕ)) → Bool
present none = false
present (some alloc) = true

module _ {V L : Type 0} where
  unfoldable pub allocate :
      BlockPool → Sequence V L → ℕ → Option (List ℕ × BlockPool × Sequence V L)
  allocate pool seq num_tokens = elim (reserve pool num_tokens none) [
    | none ↦ none
    | some (ids, pool') ↦
        some
          (ids, record pool' { alloc = put seq.id ids pool'.alloc }, record seq { block_ids = ids })
  ]

  -- The blocks taken, the pool and the sequence.
  unfoldable pub detach : BlockPool → Sequence V L → ℕ → List ℕ × BlockPool × Sequence V L
  detach pool seq n_blocks =
      let ids = holding (get seq.id pool.alloc) seq.owned_block_ids seq.block_ids in
      let n = max 0 (min n_blocks (length ids)) in
      (
        take n ids,
        record pool { alloc = put seq.id (drop n ids) pool.alloc },
        record seq { owned_block_ids = drop n ids },
      )

  unfoldable pub free : BlockPool → Sequence V L → BlockPool × Sequence V L
  free pool seq =
      let ids = holding (get seq.id pool.alloc) seq.owned_block_ids seq.block_ids in
      (
        give_back ids (record pool { alloc = del seq.id pool.alloc }),
        record seq { block_ids = []; owned_block_ids = [] },
      )

pub record PoolSnapshot : Type 0 where
  pub kv_blocks_used : ℕ
  pub kv_blocks_free : ℕ
  pub kv_blocks_total : ℕ
  pub kv_block_size : ℕ

unfoldable pub snapshot : BlockPool → PoolSnapshot
snapshot pool = record {
  kv_blocks_used = used_blocks pool;
  kv_blocks_free = free_blocks pool;
  kv_blocks_total = pool.num_blocks;
  kv_block_size = pool.block_size;
}

-- `resolve_num_kv_blocks`, from the parsed setting: `some n` is a number, `none` is "auto". The RAM
-- in bytes and the bytes per token are what the host and the model report. A fifth of the RAM is
-- the budget; it is a float in the code, and exact here. The outer `none` is an exception: the
-- ValueError, or the division of the cap by a block size of zero.
unfoldable pub resolve_num_kv_blocks :
    Option ℕ → (bytes_per_token ram block_size max_batch_size max_seq_len : ℕ) → Option ℕ
resolve_num_kv_blocks (some n) bpt ram block_size max_batch_size max_seq_len =
    if ltb n 1 then none else some n
resolve_num_kv_blocks none bpt ram block_size max_batch_size max_seq_len =
    let block_bytes = block_size * bpt in
    let from_ram = if nat_beq block_bytes 0 then 1 else ram / (5 * block_bytes) in
    let cap = ceil_div (max_batch_size * max_seq_len) block_size in
    if nat_beq block_size 0 then none else some (max 1 (min from_ram cap))
