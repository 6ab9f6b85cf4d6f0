-- ===== src/Cache/Groups/Publish.antt =====
-- kv_cache.py, the publication of full pages of the groups: the page counts,
-- `cache_group_blocks` and `cache_group_blocks_from_snapshot`. A dictionary by group is the list of
-- its values in the order of the pools; one without some keys is not modelled, since the scheduler
-- builds them from the pools' names.
pub mod Exact
use pypto_serving.Prelude.{
  ℕ, zero, suc, ◌+◌, ◌-◌, ◌/◌, ◌%◌, List, [], ◌∷◌, Option, none, some, Outcome, returned, raised,
  raise_if, ◌>>=◌, runtime_error, value_error, length, get_elem?, min, max, if◌then◌else◌, ◌==◌,
  leb, not, ◌&&◌, map, lookup,
}
use pypto_serving.Cache.Groups.{
  GroupPool, Groups, is_sliding, block_from_local_id, logical_group_blocks,
}
use pypto_serving.Cache.Groups.Blocks.{cache_group_block}
use pypto_serving.Cache.Groups.Growth.{owned_blocks, logical_count}

unfoldable pub required_group_block_count : ℕ → GroupPool → ℕ
required_group_block_count token_count pool =
    let logical_blocks = logical_group_blocks pool token_count in
    if is_sliding pool then min logical_blocks pool.max_blocks_per_seq else logical_blocks

unfoldable pub completed_group_block_count : ℕ → GroupPool → ℕ
completed_group_block_count token_count pool = token_count / pool.token_capacity

-- The last row of a shifted page waits for the token after it.
unfoldable pub published_group_block_count : ℕ → GroupPool → ℕ
published_group_block_count token_count pool =
    (if pool.is_eagle_group then token_count - 1 else token_count) / pool.token_capacity

-- The full pages whose hashes are known.
unfoldable pub publishable : GroupPool → List ℕ → ℕ → ℕ
publishable pool hashes num_computed_tokens =
    min (published_group_block_count num_computed_tokens pool) (length hashes)

-- The `n` pages from `index` on, where `block_at` finds the block of a page.
unfoldable pub publish_range : ℕ → (ℕ → Outcome ℕ) → List ℕ → ℕ → ℕ → GroupPool → Outcome GroupPool
publish_range partition block_at hashes zero index pool = returned pool
publish_range partition block_at hashes (suc n) index pool = block_at index >>= λ block.
    elim (get_elem? hashes index) [
      | none ↦ raised runtime_error
      | some block_hash ↦
          publish_range partition block_at hashes n (index + 1)
            (cache_group_block pool partition block block_hash)
    ]

-- The block of a page in the request's table.
unfoldable pub owned_page : GroupPool → List (Option ℕ) → ℕ → Outcome ℕ
owned_page pool owned index =
    elim (get_elem? owned (if is_sliding pool then index % length owned else index)) [
      | none ↦ raised runtime_error
      | some none ↦ raised runtime_error
      | some (some block) ↦ returned block
    ]

-- One group in `cache_group_blocks`; pages that the ring has overwritten are left out.
unfoldable pub cache_pool : ℕ → ℕ → List ℕ → ℕ → ℕ → GroupPool → Outcome (ℕ × GroupPool)
cache_pool request_id partition hashes num_computed_tokens already pool =
    let owned = owned_blocks pool request_id in
    let completed = publishable pool hashes num_computed_tokens in
    let fresh = min already completed in
    let start =
      if is_sliding pool then max fresh (logical_count pool request_id - length owned) else fresh in
    publish_range partition (owned_page pool owned) hashes (completed - start) start pool
    >>= λ pool'. returned (completed, pool')

-- The block of a page in the table of a step.
unfoldable pub snapshot_page : GroupPool → ℕ → List ℕ → ℕ → Outcome ℕ
snapshot_page pool partition block_ids index =
    elim (get_elem? block_ids (if is_sliding pool then index % length block_ids else index)) [
      | none ↦ raised runtime_error
      | some block_id ↦ block_from_local_id pool partition block_id
    ]

-- One group in `cache_group_blocks_from_snapshot`.
unfoldable pub cache_pool_from_snapshot :
    ℕ → List ℕ → List ℕ → ℕ → ℕ → GroupPool → Outcome (ℕ × GroupPool)
cache_pool_from_snapshot partition block_ids hashes num_computed_tokens already pool =
    let completed = publishable pool hashes num_computed_tokens in
    let fresh = min already completed in
    let start = if is_sliding pool then max fresh (completed - length block_ids) else fresh in
    raise_if (is_sliding pool && (not (completed == 0) && length block_ids == 0)) runtime_error (
      publish_range partition (snapshot_page pool partition block_ids) hashes (completed - start)
        start pool
      >>= λ pool'. returned (completed, pool'))
