-- ===== src/Cache/Groups/Growth.antt =====
-- kv_cache.py, the growth of one group's table: `_additional_group_blocks` and the body of the loop
-- over the groups in `ensure_group_blocks`.
pub mod Counts
pub mod Steps
pub mod Ring
mod Filling
pub mod Suffices
use pypto_serving.Prelude.{
  ℕ, zero, suc, ◌+◌, ◌-◌, ◌%◌, Bool, true, false, not, ◌&&◌, Option, none, some, List, [], ◌∷◌,
  ◌++◌, ltb, ◌==◌, if◌then◌else◌, Outcome, returned, raised, ◌>>=◌, runtime_error, lookup, insert,
  or_else, length, take, set, get_elem?, replicate, elem, min, max,
}
use pypto_serving.Cache.Queue
use pypto_serving.Cache.Queue.{update}
use pypto_serving.Cache.Groups.{GroupPool, is_sliding, logical_group_blocks}
use pypto_serving.Cache.Groups.Blocks.{take_group_block, set_queue}

-- `sum(block is None for block in blocks)`
abbrev pub count_none : List (Option ℕ) → ℕ
count_none [] = 0
count_none (none ∷ xs) = suc (count_none xs)
count_none (some b ∷ xs) = count_none xs

abbrev pub ring_slot : ℕ → ℕ → ℕ
ring_slot size logical_block =
    if ltb logical_block size then logical_block else logical_block % size

-- `slot < len(owned) and owned[slot] is not None and owned[slot].ref_cnt > 1`
abbrev pub is_shared : GroupPool → List (Option ℕ) → ℕ → Bool
is_shared pool owned slot = elim (get_elem? owned slot) [
  | none ↦ false
  | some none ↦ false
  | some (some block) ↦ ltb 1 (pool.ref_cnt block)
]

-- The distinct slots that pass the test, for the `n` logical blocks from `logical_block`.
unfoldable pub slots_where : (ℕ → Bool) → ℕ → ℕ → ℕ → List ℕ
slots_where test size zero logical_block = []
slots_where test size (suc n) logical_block =
    let slot = ring_slot size logical_block in
    let rest = slots_where test size n (logical_block + 1) in
    if test slot && not (elem slot rest) then slot ∷ rest else rest

-- The set `shared_slots`.
abbrev pub shared_slots : GroupPool → List (Option ℕ) → ℕ → ℕ → List ℕ
shared_slots pool owned = slots_where (is_shared pool owned) pool.max_blocks_per_seq

abbrev pub owned_blocks : GroupPool → ℕ → List (Option ℕ)
owned_blocks pool request_id = or_else [] (lookup request_id pool.request_blocks)

abbrev pub logical_count : GroupPool → ℕ → ℕ
logical_count pool request_id = or_else 0 (lookup request_id pool.request_logical_blocks)

unfoldable pub additional_group_blocks : GroupPool → ℕ → ℕ → ℕ
additional_group_blocks pool request_id token_count =
    let target = logical_group_blocks pool token_count in
    let owned = owned_blocks pool request_id in
    let previous = logical_count pool request_id in
    let table_size = min target pool.max_blocks_per_seq in
    if not (is_sliding pool)
    then if ltb pool.max_blocks_per_seq target
      then pool.blocks_per_partition + 1
      else target - length owned
    else (table_size - length owned)
      + count_none (take table_size owned)
      + length (shared_slots pool owned (target - previous) previous)

-- The empty slots among the first `n` get new blocks.
unfoldable pub fill_slots :
    ℕ → ℕ → GroupPool → ℕ → List (Option ℕ) → Outcome (List (Option ℕ) × GroupPool)
fill_slots zero slot pool partition owned = returned (owned, pool)
fill_slots (suc n) slot pool partition owned = elim (get_elem? owned slot) [
  | none ↦ fill_slots n (slot + 1) pool partition owned
  | some (some block) ↦ fill_slots n (slot + 1) pool partition owned
  | some none ↦ take_group_block pool partition >>= λ taken.
      fill_slots n (slot + 1) taken.1 partition (set owned slot (some taken.0))
]

-- A slot of the ring that is written again: a shared block is left to its other owners, and a block
-- of this request alone goes through the eviction queue.
unfoldable pub leave_block : GroupPool → ℕ → ℕ → GroupPool
leave_block pool partition block =
    if ltb 1 (pool.ref_cnt block)
    then record pool { ref_cnt = update pool.ref_cnt block (pool.ref_cnt block - 1) }
    else set_queue (record pool { ref_cnt = update pool.ref_cnt block 0 }) partition
        (Queue.append (pool.free_queues partition) block)

unfoldable pub rotate_slot :
    GroupPool → ℕ → List (Option ℕ) → ℕ → Outcome (List (Option ℕ) × GroupPool)
rotate_slot pool partition owned slot = elim (get_elem? owned slot) [
  | none ↦ raised runtime_error
  | some none ↦ raised runtime_error
  | some (some block) ↦ take_group_block (leave_block pool partition block) partition >>= λ taken.
      returned (set owned slot (some taken.0), taken.1)
]

-- The `n` logical blocks from `logical_block` on, in a ring of `size` slots.
unfoldable pub rotate_ring :
    ℕ → ℕ → ℕ → GroupPool → ℕ → List (Option ℕ) → Outcome (List (Option ℕ) × GroupPool)
rotate_ring size zero logical_block pool partition owned = returned (owned, pool)
rotate_ring size (suc n) logical_block pool partition owned = elim (ltb logical_block size) [
  | true ↦ rotate_ring size n (logical_block + 1) pool partition owned
  | false ↦ rotate_slot pool partition owned (logical_block % size) >>= λ r.
      rotate_ring size n (logical_block + 1) r.1 partition r.0
]

-- `setdefault(request_id, partition)`
abbrev pub set_default {ℓ} : {V : Type ℓ} → ℕ → V → List (ℕ × V) → List (ℕ × V)
set_default k v d = elim (lookup k d) [ none ↦ insert k v d | some w ↦ d ]

-- The tables of the request after its growth.
unfoldable pub store_table : GroupPool → ℕ → ℕ → ℕ → List (Option ℕ) → GroupPool
store_table pool request_id partition logical table = record pool {
  request_blocks = insert request_id table pool.request_blocks;
  request_partitions = set_default request_id partition pool.request_partitions;
  request_logical_blocks = insert request_id logical pool.request_logical_blocks;
}

-- The table size of a group for `target` logical blocks.
abbrev pub table_size : GroupPool → ℕ → ℕ
table_size pool target = if is_sliding pool then min target pool.max_blocks_per_seq else target

-- The growth of one group, for a request in `partition`.
unfoldable pub grow_pool : GroupPool → ℕ → ℕ → ℕ → Outcome GroupPool
unfolding store_table
grow_pool pool request_id partition target =
    let owned = owned_blocks pool request_id in
    let previous = logical_count pool request_id in
    let size = table_size pool target in
    let table = owned ++ replicate (size - length owned) none in
    fill_slots size 0 pool partition table >>= λ filled.
    (if is_sliding pool
      then rotate_ring pool.max_blocks_per_seq (target - previous) previous filled.1 partition
          filled.0
      else returned filled)
    >>= λ grown. returned (store_table grown.1 request_id partition (max previous target) grown.0)
