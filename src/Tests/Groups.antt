-- ===== src/Tests/Groups.antt =====
-- The grouped block pools: one partition of four blocks, with a full-history and a rolling group.
use pypto_serving.Cache.Groups.Setup.Fresh.{init_pool-Part}
use pypto_serving.Cache.Groups.Setup.{
  init_pools, init_pool, capacity_slots, is_conflicting, requested_size,
}
use pypto_serving.Cache.Groups.Publish.Exact.{cache_pool-Indexed}
use pypto_serving.Cache.Groups.Publish.{cache_pool, publishable}
use pypto_serving.Cache.Groups.Blocks.Index.{Indexed, Published, cache_group_block-Published}
use pypto_serving.Cache.Groups.Blocks.{cache_group_block}
use pypto_serving.Cache.Groups.Snapshots.Pins.{
  Pinnable, SameBlocks, release_snapshots-retain_snapshots,
}
use pypto_serving.Cache.Groups.Snapshots.{retain_group_block_snapshot, release_group_block_snapshot}
use pypto_serving.Cache.Groups.Requests.Select.{Selected, select_group_partition-Selected}
use pypto_serving.Cache.Groups.Requests.Release.{
  Held, GivenBack, release_all_group_requests-GivenBack,
}
use pypto_serving.Cache.Groups.Requests.Ensure.{
  in_partition, Ready, Ensured, ensure_group_blocks-can_ensure,
}
use pypto_serving.Cache.Groups.Requests.{
  group_partition_count, has_room, can_ensure_group_blocks, candidate_group_partitions,
  ensure_group_blocks, release_all_group_requests, select_group_partition,
}
use pypto_serving.Cache.Groups.Growth.Suffices.{
  Grows, grow_pool-Grows_full, grow_pool-Grows_rolling,
}
use pypto_serving.Cache.Groups.Growth.Steps.{Part, Owned}
use pypto_serving.Cache.Groups.Growth.{
  owned_blocks, slots_where, additional_group_blocks, grow_pool,
}
use pypto_serving.Prelude.{
  [], value_error, ◌∷◌, ltb, raised, ◌==◌, returned, Bool, if◌then◌else◌, false, ◌≡◌, none, Option,
  some, ℕ, refl, zero, suc, true, arith, min, lookup, Pairwise, ◌⊎◌, ◌/◌, get_elem?, range_from,
  ◌*◌,
}
use pypto_serving.Cache.Queue
use pypto_serving.Cache.Queue.Refinement.{empty-Holds, append_n-Holds}
use pypto_serving.Cache.Groups.Acquire.{Acquired, alignment_from, acquire_group_prefix_blocks}
use pypto_serving.Cache.Groups.Acquire.Hits.{IsBest, hit_limit, acquire_group_prefix_blocks-IsBest}
use pypto_serving.Cache.Groups.{
  GroupSpec, GroupPool, logical_group_blocks, check_spec, block_from_local_id, Groups,
}

-- A page of two tokens, with at most three blocks in a table.
abbrev spec_of : Option ℕ → GroupSpec
spec_of window = record {
  name = 0;
  token_capacity = 2;
  max_blocks_per_seq = 3;
  num_blocks = some 4;
  num_partitions = 1;
  sliding_window = window;
  is_eagle_group = false;
}

-- Blocks 1, 2 and 3 are free. Request 9 has block 0, which a snapshot retains too.
abbrev pool_of : Option ℕ → GroupPool
pool_of window = record {
  spec = spec_of window;
  blocks_per_partition = 4;
  ref_cnt = λ b. if b == 0 then 2 else 0;
  block_hash = λ b. none;
  free_queues = λ p. Queue.append_n Queue.empty (1 ∷ 2 ∷ 3 ∷ []);
  request_blocks = (9, some 0 ∷ []) ∷ [];
  request_partitions = (9, 0) ∷ [];
  request_logical_blocks = (9, 1) ∷ [];
  hash_to_block = λ p h. none;
}

check_spec_run : check_spec (spec_of (some 4)) ≡ returned tt
unfolding check_spec
check_spec_run = refl

block_from_local_id_run : block_from_local_id (pool_of none) 0 4 ≡ raised value_error
unfolding block_from_local_id
block_from_local_id_run = refl

abbrev home : ℕ → Bool
home b = ltb b 4

pool-Part : (window : Option ℕ) → Part home 0 (pool_of window) (1 ∷ 2 ∷ 3 ∷ [])
pool-Part window = record {
  queue = append_n-Holds Queue.empty [] (1 ∷ 2 ∷ 3 ∷ []) empty-Holds (refl, (refl, (refl, tt)));
  unreferenced = λ b. ground arith;
}

pool-Owned : (window : Option ℕ) → Owned home (pool_of window) (owned_blocks (pool_of window) 9)
pool-Owned window = record { counted = λ b. ground arith; inside = λ b h. ground arith }

grow_pool-Grows_full_example :
    Grows home 0 9
      (logical_group_blocks (pool_of none) 6)
      3
      (grow_pool (pool_of none) 9 0 (logical_group_blocks (pool_of none) 6))
unfolding logical_group_blocks additional_group_blocks
grow_pool-Grows_full_example =
    grow_pool-Grows_full home 0 (pool_of none) 9 6 (1 ∷ 2 ∷ 3 ∷ []) refl (pool-Part none)
      (pool-Owned none) refl (omega arith) (omega arith)

-- Four logical blocks in a ring of three slots: the slot of block 0 is written again.
grow_pool-Grows_rolling_example :
    Grows home 0 9
      (min (logical_group_blocks (pool_of (some 4)) 8) 3)
      3
      (grow_pool (pool_of (some 4)) 9 0 (logical_group_blocks (pool_of (some 4)) 8))
unfolding logical_group_blocks additional_group_blocks slots_where
grow_pool-Grows_rolling_example =
    grow_pool-Grows_rolling home 0 (pool_of (some 4)) 9 8 (1 ∷ 2 ∷ 3 ∷ []) refl (omega arith)
      (pool-Part (some 4)) (pool-Owned (some 4)) (omega arith)

-- A full-history and a rolling group; request 9 has two pages in the only partition.
abbrev two_groups : Groups
two_groups = record {
  enable_prefix_cache = true;
  pools = pool_of none ∷ pool_of (some 4) ∷ [];
  group_request_partitions = (9, 0) ∷ [];
  next_group_partition = 0;
}

pool-in_partition :
    (window : Option ℕ) → Part (in_partition (pool_of window) 0) 0 (pool_of window) (1 ∷ 2 ∷ 3 ∷ [])
pool-in_partition window = record {
  queue = (pool-Part window).queue;
  unreferenced = λ b. ground arith;
}

pool-Owned_in :
    (window : Option ℕ)
    → Owned (in_partition (pool_of window) 0) (pool_of window) (owned_blocks (pool_of window) 9)
pool-Owned_in window = record { counted = λ b. ground arith; inside = λ b h. ground arith }

full-Ready : Ready 9 6 0 (pool_of none)
unfolding logical_group_blocks
full-Ready = record {
  free = 1 ∷ 2 ∷ 3 ∷ [];
  positive = omega arith;
  part = pool-in_partition none;
  owned = pool-Owned_in none;
  gapless = λ e. elim [ zero ↦ refl | suc zero ↦ refl | suc (suc n) ↦ refl ];
  short = omega arith;
}

rolling-Ready : Ready 9 6 0 (pool_of (some 4))
unfolding logical_group_blocks
rolling-Ready = record {
  free = 1 ∷ 2 ∷ 3 ∷ [];
  positive = omega arith;
  part = pool-in_partition (some 4);
  owned = pool-Owned_in (some 4);
  gapless = λ e. absurd cc;
  short = omega arith;
}

ensure_group_blocks-can_ensure_example :
    Ensured two_groups 9 6 0 (ensure_group_blocks two_groups 9 6 (some 0))
unfolding can_ensure_group_blocks candidate_group_partitions has_room additional_group_blocks
    logical_group_blocks slots_where group_partition_count Queue.append_n Queue.empty
ensure_group_blocks-can_ensure_example =
    ensure_group_blocks-can_ensure two_groups 9 6 0 (omega arith) (full-Ready, (rolling-Ready, tt))
      refl refl

pool-Held : (window : Option ℕ) → Held 9 0 (pool_of window)
pool-Held window = record {
  free = 1 ∷ 2 ∷ 3 ∷ [];
  part = pool-in_partition window;
  owned = pool-Owned_in window;
  assigned = refl;
}

release_all_group_requests-GivenBack_example :
    (g' : Groups) × (release_all_group_requests two_groups 9 ≡ returned g')
    × Pairwise (GivenBack 9 0) two_groups.pools g'.pools
    × (lookup 9 g'.group_request_partitions ≡ none)
release_all_group_requests-GivenBack_example =
    release_all_group_requests-GivenBack two_groups 9 0 (pool-Held none, (pool-Held (some 4), tt))

select_group_partition-Selected_example :
    ((candidate_group_partitions two_groups 8 6 ≡ [])
      × (select_group_partition two_groups 8 6 ≡ returned (none, two_groups)))
    ⊎ Selected two_groups
        (pool_of none)
        (candidate_group_partitions two_groups 8 6)
        (select_group_partition two_groups 8 6)
unfolding group_partition_count
select_group_partition-Selected_example =
    select_group_partition-Selected two_groups 8 6 (pool_of none) (pool_of (some 4) ∷ []) refl refl
      (omega arith)

full-Pinnable : (window : Option ℕ) → Pinnable 0 (pool_of window) (0 ∷ [])
full-Pinnable window = record {
  fits = refl;
  distinct = refl;
  inside = λ i h. ground arith;
  held = λ i h. ground arith;
}

release_snapshots-retain_snapshots_example :
    (pinned : Groups) × (unpinned : Groups) × (retain_group_block_snapshot two_groups
        ((0 ∷ []) ∷ (0 ∷ []) ∷ [])
        0
      ≡ returned pinned)
    × (release_group_block_snapshot pinned ((0 ∷ []) ∷ (0 ∷ []) ∷ []) 0 ≡ returned unpinned)
    × Pairwise SameBlocks two_groups.pools unpinned.pools
release_snapshots-retain_snapshots_example =
    release_snapshots-retain_snapshots two_groups ((0 ∷ []) ∷ (0 ∷ []) ∷ []) 0
      (full-Pinnable none, (full-Pinnable (some 4), tt))

abbrev part_of : ℕ → ℕ
part_of b = b / 4

unpublished-Indexed : Indexed part_of (pool_of none)
unpublished-Indexed = record { sound = λ p h b e. absurd cc; complete = λ b h e. absurd cc }

cache_group_block-Published_example :
    Published part_of (pool_of none) 1 77 (cache_group_block (pool_of none) (part_of 1) 1 77)
cache_group_block-Published_example =
    cache_group_block-Published part_of (pool_of none) 1 77 unpublished-Indexed

first_part : (s b : ℕ) → get_elem? (some 0 ∷ []) s ≡ some (some b) → part_of b ≡ 0
first_part zero b e = ground (arith, e)
first_part (suc s) b e = absurd cc

cache_pool-Indexed_example :
    (pool' : GroupPool) × (cache_pool 9 0 (70 ∷ 71 ∷ []) 3 0 (pool_of (some 4))
      ≡ returned (publishable (pool_of (some 4)) (70 ∷ 71 ∷ []) 3, pool'))
    × Indexed part_of pool'
cache_pool-Indexed_example =
    cache_pool-Indexed part_of (pool_of (some 4)) 9 0 3 0 (70 ∷ 71 ∷ [])
      (record { sound = λ p h b e. absurd cc; complete = λ b h e. absurd cc })
      (elim [ zero ↦ λ h. (0, refl) | suc s ↦ λ h. absurd (omega arith) ])
      (λ s b e. first_part s b e) (λ e. absurd cc) (λ e. omega arith)

init_pools_conflict : init_pools (spec_of none ∷ []) 2 (some 6) ≡ raised value_error
unfolding init_pools capacity_slots is_conflicting requested_size
init_pools_conflict = refl

init_pool-Part_example :
    Part
      (in_partition (init_pool (spec_of none) 4) 0)
      0
      (init_pool (spec_of none) 4)
      (range_from (0 * 4) 4)
    × Indexed part_of (init_pool (spec_of none) 4)
init_pool-Part_example = init_pool-Part (spec_of none) 4 0 part_of (omega arith) (omega arith)

-- A full-history group whose index knows the page of hash 77.
abbrev indexed_groups : Groups
indexed_groups = record two_groups {
  pools = record (pool_of none) { hash_to_block = λ p h. if h == 77 then some 0 else none } ∷ [];
}

acquire_group_prefix_blocks-IsBest_example :
    (a : Acquired) × (acquire_group_prefix_blocks indexed_groups 5 ((77 ∷ 78 ∷ []) ∷ []) 10
      ≡ returned a)
    × IsBest indexed_groups.pools
        ((77 ∷ 78 ∷ []) ∷ [])
        (alignment_from 1 indexed_groups.pools)
        (hit_limit indexed_groups 10)
        (range_from 0 (group_partition_count indexed_groups))
        a.partition
        a.hit_tokens
acquire_group_prefix_blocks-IsBest_example =
    acquire_group_prefix_blocks-IsBest indexed_groups 5 ((77 ∷ 78 ∷ []) ∷ []) 10 refl refl refl refl
