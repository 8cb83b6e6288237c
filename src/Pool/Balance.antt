-- ===== src/Pool/Balance.antt =====
-- Where each block of src/flux/engine/block_pool.py is: a block counts once for each place that
-- holds it, and each method moves blocks without making or losing any.
use Prim.Native.String.{String}
use mathlib.Core.Option.{some-injective}
use flux_llm_inference_engin.Prelude.{
  ◌≢◌, nat_beq_iff, sym, ◌∙◌, ap, Option, nat_beq, if◌then◌else◌, ℕ, ◌+◌, min, max, List, [], ◌≡◌,
  inl, inr, refl, none, some, arith, length, take, drop, range, count, count-append,
  count-take-drop, Option-cases, nat_eq, string_eq,
}
use flux_llm_inference_engin.Prelude.Dict.{
  get-put, Distinct, put-Distinct, get, total, total-put_new, total-put_old, total-del, del_missing,
}
use flux_llm_inference_engin.Sequence.{Sequence}
use flux_llm_inference_engin.Pool.{
  holds, present, alloc_at, holding, BlockPool, new, reserve, release, allocate, detach, free,
  or_else, blocks_needed,
}

-- The places of block b in the pool: the free list, the allocations and the keyed reservations.
abbrev pub places : ℕ → BlockPool → ℕ
places b pool = count b pool.free_list + total (count b) pool.alloc + total (count b) pool.anon

-- Each block of the pool is in one place, where `outside b` counts the places that the pool does not
-- know of.
abbrev pub IsBalanced : BlockPool → (ℕ → ℕ) → Type 0
IsBalanced pool outside = (b : ℕ) → places b pool + outside b ≡ count b (range pool.num_blocks)

pub new-IsBalanced :
    (num_blocks block_size : ℕ) (pool : BlockPool)
    → new num_blocks block_size ≡ some pool
    → IsBalanced pool (λ b. 0)
unfolding new
new-IsBalanced num_blocks block_size pool h b = ground arith

module _ (b : ℕ) (pool : BlockPool) where
  pub places-reserve :
      (num_tokens : ℕ) {ids : List ℕ} {pool' : BlockPool}
      → reserve pool num_tokens none ≡ some (ids, pool')
      → places b pool' + count b ids ≡ places b pool
  unfolding reserve
  places-reserve num_tokens h =
      ground (arith, count-take-drop b (blocks_needed pool num_tokens) pool.free_list)

  pub places-release :
      (ids : List ℕ) → places b (release pool ids none) ≡ places b pool + count b ids
  unfolding release
  places-release ids = omega (arith, count-append b pool.free_list ids)

  -- A keyed release gives back what was kept under the key, and nothing a second time.
  pub places-release_keyed :
      (ids : List ℕ) (key : String) → places b (release pool ids (some key)) ≡ places b pool
  unfolding release
  places-release_keyed ids key = elim (Option-cases (get key pool.anon)) [
    | inl e ↦ rw (e, release)
    | inr (stored, e) ↦
        rw (e, release)
          (omega (
            arith,
            count-append b pool.free_list stored,
            total-del (count b) key stored pool.anon e,
          ))
  ]

  module _ {V L : Type 0} (seq : Sequence V L) where
    pub places-allocate :
        (num_tokens : ℕ) {ids : List ℕ} {pool' : BlockPool} {seq' : Sequence V L}
        → get seq.id pool.alloc ≡ none
        → allocate pool seq num_tokens ≡ some (ids, pool', seq')
        → places b pool' ≡ places b pool
    unfolding allocate reserve
    places-allocate num_tokens {ids} {pool'} {seq'} fresh h = ground (
      arith,
      total-put_new (count b) seq.id (take (blocks_needed pool num_tokens) pool.free_list)
          pool.alloc,
      total-put_new (count b) seq.id [] pool.alloc,
      count-take-drop b (blocks_needed pool num_tokens) pool.free_list,
    )

    -- `detach`, for a sequence that has an allocation, makes and loses no block.
    pub places-detach :
        (n_blocks : ℕ) {ids : List ℕ}
        → get seq.id pool.alloc ≡ some ids
        → places b (detach pool seq n_blocks).1 + count b (detach pool seq n_blocks).0
          ≡ places b pool
    unfolding detach
    places-detach n_blocks {ids} e = rw (e) (
        omega (
          arith,
          total-put_old (count b) seq.id (drop (max 0 (min n_blocks (length ids))) ids) ids
              pool.alloc e,
          count-take-drop b (max 0 (min n_blocks (length ids))) ids,
        ))

    pub places-free :
        (get seq.id pool.alloc ≡ none → or_else seq.owned_block_ids seq.block_ids ≡ [])
        → places b (free pool seq).0 ≡ places b pool
    unfolding free
    places-free known = elim (Option-cases (get seq.id pool.alloc)) [
      | inl e ↦
          rw (e, known e, del_missing seq.id pool.alloc e)
            (omega (arith, count-append b pool.free_list []))
      | inr (ids, e) ↦ rw e (
          omega
            (arith, count-append b pool.free_list ids, total-del (count b) seq.id ids pool.alloc e))
    ]

pub num_blocks-reserve :
    (pool : BlockPool) (num_tokens : ℕ) {ids : List ℕ} {pool' : BlockPool}
    → reserve pool num_tokens none ≡ some (ids, pool')
    → pool'.num_blocks ≡ pool.num_blocks
unfolding reserve
num_blocks-reserve pool num_tokens h = ground arith

pub num_blocks-detach :
    {V L : Type 0} (pool : BlockPool) (seq : Sequence V L) (n : ℕ)
    → (detach pool seq n).1.num_blocks ≡ pool.num_blocks
unfolding detach
num_blocks-detach pool seq n = refl

pub alloc-detach :
    {V L : Type 0} (pool : BlockPool) (seq : Sequence V L) (n : ℕ)
    → Distinct pool.alloc
    → Distinct (detach pool seq n).1.alloc
unfolding detach
alloc-detach pool seq n d =
    put-Distinct seq.id
      (drop
        (max 0 (min n (length (holding (get seq.id pool.alloc) seq.owned_block_ids seq.block_ids))))
        (holding (get seq.id pool.alloc) seq.owned_block_ids seq.block_ids))
      pool.alloc d

-- `reserve` does not touch the allocations.
pub alloc-reserve :
    (pool : BlockPool) (n : ℕ) {ids : List ℕ} {pool' : BlockPool}
    → reserve pool n none ≡ some (ids, pool')
    → pool'.alloc ≡ pool.alloc
unfolding reserve
alloc-reserve pool n h = ground arith

pub alloc-release : (pool : BlockPool) (ids : List ℕ) → (release pool ids none).alloc ≡ pool.alloc
unfolding release
alloc-release pool ids = refl

-- The pool, if there is one, holds an allocation for the sequence.
abbrev pub Granted : Option BlockPool → ℕ → Type 0
Granted none id = Unit
Granted (some pool) id = (ids : List ℕ) × (get id pool.alloc ≡ some ids)

-- What a successful `allocate` leaves: the ids under the sequence's id, and all else as it was.
pub record Allocated {V L : Type 0} (pool : BlockPool) (seq : Sequence V L) (ids : List ℕ)
    (pool' : BlockPool) (seq' : Sequence V L) : Type 0 where
  pub size : pool'.num_blocks ≡ pool.num_blocks
  pub distinct : Distinct pool.alloc → Distinct pool'.alloc
  pub found :
      (id : ℕ) → get id pool'.alloc ≡ (if nat_beq seq.id id then some ids else get id pool.alloc)
  pub sequence : seq' ≡ record seq { block_ids = ids }

pub allocate-Allocated :
    {V L : Type 0} (pool : BlockPool) (seq : Sequence V L) (n : ℕ) {ids : List ℕ}
    {pool' : BlockPool} {seq' : Sequence V L}
    → allocate pool seq n ≡ some (ids, pool', seq')
    → Allocated pool seq ids pool' seq'
unfolding allocate reserve
allocate-Allocated pool seq n {ids} h = record {
  size = ground arith;
  distinct = λ d. ground (arith, put-Distinct seq.id ids pool.alloc);
  found = λ id. ground (arith, get-put seq.id id ids pool.alloc);
  sequence = ground arith;
}

-- A sequence that the pool holds nothing for does not say that it holds blocks, so that `free` returns
-- none of them a second time.
abbrev pub Freeable : {V L : Type 0} → Option BlockPool → Sequence V L → Type 0
Freeable none seq = Unit
Freeable (some pool) seq =
    get seq.id pool.alloc ≡ none → or_else seq.owned_block_ids seq.block_ids ≡ []

pub Granted-Freeable :
    {V L : Type 0} (pool : Option BlockPool) (seq : Sequence V L)
    → Granted pool seq.id
    → Freeable pool seq
Granted-Freeable none seq g = tt
Granted-Freeable (some pool) seq g = λ absent. cc (g.1)

pub Freeable-stays :
    {V L : Type 0} (pool pool' : Option BlockPool) (seq : Sequence V L)
    → alloc_at pool' ≡ alloc_at pool
    → Freeable pool seq
    → Freeable pool' seq
Freeable-stays pool none seq e f = tt
Freeable-stays none (some pool') seq e f = cc
Freeable-stays (some pool) (some pool') seq e f =
    λ absent. f (ap (get seq.id) (some-injective _ _ (sym e)) ∙ absent)

pub Freeable-fields :
    {V L : Type 0} (pool : Option BlockPool) (seq seq' : Sequence V L)
    → seq'.id ≡ seq.id
    → seq'.owned_block_ids ≡ seq.owned_block_ids
    → seq'.block_ids ≡ seq.block_ids
    → Freeable pool seq
    → Freeable pool seq'
Freeable-fields none seq seq' i o b f = tt
Freeable-fields (some pool) seq seq' i o b f =
    λ absent. rw (o, b) (f (ap (λ id. get id pool.alloc) (sym i) ∙ absent))

-- What a call on behalf of the sequence `id` leaves of the allocations: those of the others are as they
-- were, and it still has one itself.
pub record KeepsAllocs (pool : Option BlockPool) (id : ℕ) (pool' : Option BlockPool) : Type 0 where
  pub others : (i : ℕ) → id ≢ i → holds i (alloc_at pool') ≡ holds i (alloc_at pool)
  pub presence : present (alloc_at pool') ≡ present (alloc_at pool)
  pub granted : Granted pool' id

-- A pool that has the same allocation for a sequence grants it the same.
pub Granted-stays :
    (pool pool' : Option BlockPool) (id : ℕ)
    → present (alloc_at pool') ≡ present (alloc_at pool)
    → holds id (alloc_at pool') ≡ holds id (alloc_at pool)
    → Granted pool id
    → Granted pool' id
Granted-stays pool none id p h g = tt
Granted-stays none (some pool') id p h g = cc
Granted-stays (some pool) (some pool') id p h g = (g.0, h ∙ g.1)

pub same-KeepsAllocs :
    (pool pool' : Option BlockPool) (id : ℕ)
    → alloc_at pool' ≡ alloc_at pool
    → Granted pool id
    → KeepsAllocs pool id pool'
same-KeepsAllocs pool pool' id e g = record {
  others = λ i other. ap (holds i) e;
  presence = ap present e;
  granted = Granted-stays pool pool' id (ap present e) (ap (holds id) e) g;
}

pub then-KeepsAllocs :
    (pool mid pool' : Option BlockPool) (id : ℕ)
    → KeepsAllocs pool id mid
    → KeepsAllocs mid id pool'
    → KeepsAllocs pool id pool'
then-KeepsAllocs pool mid pool' id k l = record {
  others = λ i other. l.others i other ∙ k.others i other;
  presence = l.presence ∙ k.presence;
  granted = l.granted;
}

pub detach-KeepsAllocs :
    {V L : Type 0} (pool : BlockPool) (seq : Sequence V L) (n : ℕ)
    → KeepsAllocs (some pool) seq.id (some (detach pool seq n).1)
unfolding detach
detach-KeepsAllocs pool seq n =
    let ids = holding (get seq.id pool.alloc) seq.owned_block_ids seq.block_ids in
    let left = drop (max 0 (min n (length ids))) ids in
    record {
      others = λ i other. ground (arith, get-put seq.id i left pool.alloc, nat_beq_iff seq.id i);
      presence = refl;
      granted =
          (left, ground (arith, get-put seq.id seq.id left pool.alloc, nat_beq_iff seq.id seq.id));
    }
