-- ===== src/Cache/Pool.antt =====
-- kv_cache.py, `KvCacheManager`: the generic pool of physical blocks with its prefix-cache index.
-- A block is named by its id. The fields `ref_cnt` and `block_hash` of all blocks are two maps, and
-- `queue` holds their links. Dictionaries are functions into `Option`, since the code never walks
-- them. Python's hash of a block is a number here.
pub mod Validity
pub mod Allocation
pub mod Release
pub mod Prefix
use pypto_serving.Prelude.{
  range_from, ℕ, zero, suc, ◌+◌, ◌-◌, ◌/◌, Bool, not, ◌||◌, Option, none, some, List, [], ◌∷◌, ◌++◌,
  ◌==◌, ltb, leb, if◌then◌else◌, length, get_elem?,
}
use pypto_serving.Cache.Queue
use pypto_serving.Cache.Queue.{Queue, update}
use pypto_serving.Cache.Hashes.{iter_token_block_hashes}

pub record Pool : Type 0 where
  pub block_size : ℕ
  pub enable_prefix_cache : Bool
  pub num_blocks : ℕ
  pub ref_cnt : ℕ → ℕ
  pub block_hash : ℕ → Option ℕ
  pub queue : Queue
  pub hash_to_block : ℕ → Option ℕ
  pub request_blocks : ℕ → List ℕ

-- `KvCacheManager.__init__` with `num_blocks=None`.
unfoldable pub init : ℕ → Bool → Pool
unfolding Queue.empty
init block_size enable_prefix_cache = record {
  block_size = block_size;
  enable_prefix_cache = enable_prefix_cache;
  num_blocks = 0;
  ref_cnt = λ b. 0;
  block_hash = λ b. none;
  queue = Queue.empty;
  hash_to_block = λ h. none;
  request_blocks = λ r. [];
}

-- The blocks of an empty pool are created, and queued in the order of their ids.
unfoldable pub fill_blocks : Pool → ℕ → ℕ → Pool
fill_blocks p num_blocks block_size = record p {
  block_size = block_size;
  num_blocks = num_blocks;
  ref_cnt = λ b. 0;
  block_hash = λ b. none;
  queue = Queue.append_n p.queue (range_from 0 num_blocks);
}

-- `none` is the `ValueError` of a pool that has other dimensions already.
unfoldable pub init_blocks : Pool → ℕ → ℕ → Option Pool
init_blocks p num_blocks block_size =
    if not (p.num_blocks == 0)
    then if not (p.num_blocks == num_blocks) || not (p.block_size == block_size)
      then none
      else some p
    else some (fill_blocks p num_blocks block_size)

abbrev pub num_free_blocks : Pool → ℕ
num_free_blocks p = p.queue.count

unfoldable pub release : Pool → ℕ → Pool
release p block =
    if p.ref_cnt block == 0
    then p
    else let ref = p.ref_cnt block - 1 in
      let p' = record p { ref_cnt = update p.ref_cnt block ref } in
      if ref == 0 then record p' { queue = Queue.append p'.queue block } else p'

-- `release_cached_blocks`, and the loops of the other callers.
unfoldable pub release_all : Pool → List ℕ → Pool
release_all p [] = p
release_all p (block ∷ blocks) = release_all (release p block) blocks

-- `hash_to_block.pop(h, None)` for a block that has the hash `h`.
abbrev pub forget : (ℕ → Option ℕ) → Option ℕ → ℕ → Option ℕ
forget index none = index
forget index (some h) = update index h none

-- A block from the free queue loses its old contents and gets its first reference.
unfoldable pub take_block : Pool → ℕ → Queue → Pool
take_block p block queue = record p {
  queue = queue;
  hash_to_block = forget p.hash_to_block (p.block_hash block);
  block_hash = update p.block_hash block none;
  ref_cnt = update p.ref_cnt block 1;
}

-- The loop of `allocate_blocks`: `n` blocks are missing, `blocks` are taken.
unfoldable pub allocate_loop : ℕ → Pool → List ℕ → Option (List ℕ) × Pool
allocate_loop zero p blocks = (some blocks, p)
allocate_loop (suc n) p blocks = elim (Queue.popleft p.queue) [
  | none ↦ (none, release_all p blocks)
  | some (block, queue) ↦ allocate_loop n (take_block p block queue) (blocks ++ block ∷ [])
]

unfoldable pub allocate_blocks : Pool → ℕ → Option (List ℕ) × Pool
allocate_blocks p num_blocks =
    if num_blocks == 0
    then (some [], p)
    else if ltb (num_free_blocks p) num_blocks
    then (none, p)
    else allocate_loop num_blocks p []

-- `none` is the `IndexError` of an id that is no block; the ids before it are released.
unfoldable pub release_ids : Pool → List ℕ → Option Pool
release_ids p [] = some p
release_ids p (block_id ∷ block_ids) =
    let rest = release_ids (release p block_id) block_ids in
    if ltb block_id p.num_blocks then rest else none

unfoldable pub release_blocks_by_ids : Pool → List (List ℕ) → Option Pool
release_blocks_by_ids p [] = some p
release_blocks_by_ids p (block_ids ∷ groups) = elim (release_ids p block_ids) [
  | none ↦ none
  | some p' ↦ release_blocks_by_ids p' groups
]

unfoldable pub release_request : Pool → ℕ → Pool
release_request p request_id =
    release_all (record p { request_blocks = update p.request_blocks request_id [] })
      (p.request_blocks request_id)

-- A block that is found in the index leaves the free queue, and has one more reference.
unfoldable pub share : Pool → ℕ → Pool
share p block = record p {
  queue = if p.ref_cnt block == 0 then Queue.remove p.queue block else p.queue;
  ref_cnt = update p.ref_cnt block (p.ref_cnt block + 1);
}

-- A miss changes nothing.
unfoldable pub get_cached_block : Pool → ℕ → Option (ℕ × Pool)
get_cached_block p block_hash =
    if not p.enable_prefix_cache then none else elim (p.hash_to_block block_hash) [
      | none ↦ none
      | some block ↦ some (block, share p block)
    ]

-- The index without the entry of the block's old hash.
abbrev pub unpublish : Pool → ℕ → ℕ → Option ℕ
unpublish p block = elim (p.block_hash block) [
  | none ↦ p.hash_to_block
  | some old ↦ update p.hash_to_block old none
]

unfoldable pub cache_block : Pool → ℕ → ℕ → Pool
cache_block p block block_hash = if not p.enable_prefix_cache then p else record p {
  block_hash = update p.block_hash block (some block_hash);
  hash_to_block = update (unpublish p block) block_hash (some block);
}

-- The loop of `cache_block_ids` from `idx`, with `n` rounds left.
unfoldable pub cache_loop : ℕ → Pool → List ℕ → List ℕ → ℕ → Option Pool
cache_loop zero p block_ids block_hashes idx = some p
cache_loop (suc n) p block_ids block_hashes idx = elim (get_elem? block_hashes idx) [
  | none ↦ some p
  | some block_hash ↦ elim (get_elem? block_ids idx) [
    | none ↦ some p
    | some block ↦
        let rest = cache_loop n (cache_block p block block_hash) block_ids block_hashes (idx + 1) in
        if ltb block p.num_blocks then rest else none
  ]
]

-- `none` is the `IndexError` of an id that is no block.
unfoldable pub cache_block_ids : Pool → List ℕ → List ℕ → ℕ → ℕ → Option Pool
cache_block_ids p block_ids block_hashes start end =
    if not p.enable_prefix_cache
    then some p
    else cache_loop (end - start) p block_ids block_hashes start

-- The loop of `get_computed_blocks` over the hashes.
unfoldable pub match_prefix : Pool → List ℕ → ℕ → List ℕ → List ℕ × Pool
match_prefix p [] max_hit_blocks hit_blocks = (hit_blocks, p)
match_prefix p (block_hash ∷ hashes) max_hit_blocks hit_blocks =
    if leb max_hit_blocks (length hit_blocks)
    then (hit_blocks, p)
    else elim (get_cached_block p block_hash) [
      | none ↦ (hit_blocks, p)
      | some (block, p') ↦ match_prefix p' hashes max_hit_blocks (hit_blocks ++ block ∷ [])
    ]

module _ (hash : ℕ → List ℕ → ℕ) (none_hash : ℕ) where
  unfoldable pub compute_block_hashes : Pool → List ℕ → List ℕ
  compute_block_hashes p token_ids = iter_token_block_hashes hash none_hash token_ids p.block_size

  -- With `max_cache_hit_tokens=None`, as the scheduler calls it.
  unfoldable pub get_computed_blocks : Pool → List ℕ → List ℕ × Pool
  get_computed_blocks p token_ids =
      if not p.enable_prefix_cache
      then ([], p)
      else match_prefix p (compute_block_hashes p token_ids) ((length token_ids - 1) / p.block_size)
          []
