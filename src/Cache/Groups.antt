-- ===== src/Cache/Groups.antt =====
-- config/types.py, `KVCacheGroupSpec`, and kv_cache.py, `_GroupBlockPool` and the grouped state of
-- `KvCacheManager`: one pool of blocks for each cache group, cut into partitions. A block is named by
-- its global id; the fields of all blocks of a pool are maps. The links of the blocks are part of
-- their partition's queue. The keys of the hash index are the partition and the hash.
pub mod Acquire
pub mod Blocks
pub mod Growth
pub mod Publish
pub mod Requests
pub mod Setup
pub mod Snapshots
use pypto_serving.Prelude.{
  is_zero?, ℕ, ◌+◌, ◌-◌, ◌*◌, ◌/◌, ◌%◌, Bool, true, false, not, ◌&&◌, ◌||◌, Option, none, some,
  List, [], ◌∷◌, ltb, leb, ◌==◌, if◌then◌else◌, Outcome, returned, raised, Fault, value_error,
  length,
}
use pypto_serving.Cache.Queue.{Queue}

pub record GroupSpec : Type 0 where
  pub name : ℕ
  pub token_capacity : ℕ
  pub max_blocks_per_seq : ℕ
  pub num_blocks : Option ℕ
  pub num_partitions : ℕ
  pub sliding_window : Option ℕ
  pub is_eagle_group : Bool

-- A table slot that prefix lookup left empty holds `none`.
pub record GroupPool : Type 0 where
  pub spec : GroupSpec
  pub open spec use *
  pub blocks_per_partition : ℕ
  pub ref_cnt : ℕ → ℕ
  pub block_hash : ℕ → Option ℕ
  pub free_queues : ℕ → Queue
  pub request_blocks : List (ℕ × List (Option ℕ))
  pub request_partitions : List (ℕ × ℕ)
  pub request_logical_blocks : List (ℕ × ℕ)
  pub hash_to_block : ℕ → ℕ → Option ℕ

pub record Groups : Type 0 where
  pub enable_prefix_cache : Bool
  pub pools : List GroupPool
  pub group_request_partitions : List (ℕ × ℕ)
  pub next_group_partition : ℕ

-- The guards of `KVCacheGroupSpec.__post_init__` on numbers that are not negative.
unfoldable pub check_spec : GroupSpec → Outcome (Unit {0})
check_spec s =
    if s.max_blocks_per_seq == 0 || is_zero? s.num_blocks || s.num_partitions == 0
    then raised value_error
    else elim s.sliding_window [
      | none ↦ returned tt
      | some window ↦
          if window == 0
            || not (window % s.token_capacity == 0)
            || ltb s.max_blocks_per_seq (window / s.token_capacity)
          then raised value_error
          else returned tt
    ]

abbrev pub is_sliding : GroupPool → Bool
is_sliding pool = elim pool.sliding_window [ none ↦ false | some w ↦ true ]

abbrev pub num_free_blocks_in : GroupPool → ℕ → ℕ
num_free_blocks_in pool partition = (pool.free_queues partition).count

abbrev pub local_block_id : GroupPool → ℕ → ℕ
local_block_id pool block = block % pool.blocks_per_partition

unfoldable pub block_from_local_id : GroupPool → ℕ → ℕ → Outcome ℕ
block_from_local_id pool partition block_id =
    if ltb partition pool.num_partitions && ltb block_id pool.blocks_per_partition
    then returned (partition * pool.blocks_per_partition + block_id)
    else raised value_error

-- `math.ceil(a / b)`
abbrev pub ceil_div : ℕ → ℕ → ℕ
ceil_div a b = (a + b - 1) / b

unfoldable pub logical_group_blocks : GroupPool → ℕ → ℕ
logical_group_blocks pool token_count = ceil_div token_count pool.token_capacity
