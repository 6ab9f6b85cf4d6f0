-- ===== src/Cache/Groups/Blocks.antt =====
-- kv_cache.py, the steps on one block of a group: `_invalidate_group_block`, `_take_group_block`,
-- `_cache_group_block`, and the reference counts of releases and snapshots.
pub mod Index
use pypto_serving.Prelude.{
  ℕ, ◌+◌, ◌-◌, ◌&&◌, Option, none, some, ◌==◌, if◌then◌else◌, Outcome, returned, raised,
  runtime_error,
}
use pypto_serving.Cache.Queue
use pypto_serving.Cache.Queue.{update, is_block}
use pypto_serving.Cache.Groups.{GroupPool}

abbrev pub set_queue : GroupPool → ℕ → Queue.Queue → GroupPool
set_queue pool partition queue = record pool {
  free_queues = λ p. if partition == p then queue else pool.free_queues p;
}

-- `hash_to_block[(partition, h)] = v`
abbrev pub set_index : (ℕ → ℕ → Option ℕ) → ℕ → ℕ → Option ℕ → ℕ → ℕ → Option ℕ
set_index index partition h v p k = if partition == p && h == k then v else index p k

-- The index without the entry of the block's hash, if that entry leads to the block.
abbrev pub unindexed : GroupPool → ℕ → ℕ → ℕ → ℕ → Option ℕ
unindexed pool partition block = elim (pool.block_hash block) [
  | none ↦ pool.hash_to_block
  | some old ↦
      if is_block (pool.hash_to_block partition old) block
      then set_index pool.hash_to_block partition old none
      else pool.hash_to_block
]

unfoldable pub invalidate_group_block : GroupPool → ℕ → ℕ → GroupPool
invalidate_group_block pool partition block = record pool {
  hash_to_block = unindexed pool partition block;
  block_hash = update pool.block_hash block none;
}

-- A free block that was popped: contents dropped, one reference.
unfoldable pub claim : GroupPool → ℕ → ℕ → Queue.Queue → GroupPool
unfolding invalidate_group_block
claim pool partition block queue =
    let pool' = invalidate_group_block (set_queue pool partition queue) partition block in
    record pool' { ref_cnt = update pool'.ref_cnt block 1 }

unfoldable pub take_group_block : GroupPool → ℕ → Outcome (ℕ × GroupPool)
take_group_block pool partition = elim (Queue.popleft (pool.free_queues partition)) [
  | none ↦ raised runtime_error
  | some (block, queue) ↦
      if pool.ref_cnt block == 0
      then returned (block, claim pool partition block queue)
      else raised runtime_error
]

-- A hash that another block has published stays with that block.
unfoldable pub cache_group_block : GroupPool → ℕ → ℕ → ℕ → GroupPool
unfolding invalidate_group_block
cache_group_block pool partition block block_hash = elim (pool.hash_to_block partition block_hash) [
  | none ↦ record pool {
    block_hash = update pool.block_hash block (some block_hash);
    hash_to_block = set_index (unindexed pool partition block) partition block_hash (some block);
  }
  | some existing ↦ if existing == block then pool else invalidate_group_block pool partition block
]

-- `block.ref_cnt += 1`
abbrev pub retain_block : GroupPool → ℕ → GroupPool
retain_block pool block = record pool {
  ref_cnt = update pool.ref_cnt block (pool.ref_cnt block + 1);
}

-- `block.ref_cnt -= 1`, and back to the queue with the last reference.
unfoldable pub drop_reference : GroupPool → ℕ → ℕ → Outcome GroupPool
drop_reference pool partition block =
    if pool.ref_cnt block == 0
    then raised runtime_error
    else let pool' = record pool { ref_cnt = update pool.ref_cnt block (pool.ref_cnt block - 1) } in
      returned (
        if pool'.ref_cnt block == 0
        then set_queue pool' partition (Queue.append (pool'.free_queues partition) block)
        else pool')

-- A block of a prefix hit: out of the free queue, with one more reference.
unfoldable pub attach_block : GroupPool → ℕ → ℕ → GroupPool
attach_block pool partition block =
    retain_block
      (if pool.ref_cnt block == 0
        then set_queue pool partition (Queue.remove (pool.free_queues partition) block)
        else pool)
      block
