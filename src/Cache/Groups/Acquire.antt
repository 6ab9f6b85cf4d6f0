-- ===== src/Cache/Groups/Acquire.antt =====
-- kv_cache.py, `acquire_group_prefix_blocks`, with `group_prefix_cache_alignment`,
-- `compute_group_block_hashes` and the publication loop `cache_group_blocks`. A dictionary by group is
-- the list of its values in the order of the pools. Capacities of pages are positive.
pub mod Alignment
pub mod Resuming
pub mod Candidates
pub mod Hits
use pypto_serving.Prelude.{
  ℕ, zero, suc, ◌+◌, ◌-◌, ◌*◌, ◌/◌, ◌%◌, Bool, true, false, not, ◌||◌, Option, none, some, List, [],
  ◌∷◌, ltb, ◌==◌, if◌then◌else◌, Outcome, returned, raise_if, ◌>>=◌, value_error, length, take, set,
  get_elem?, replicate, min, range_from, lookup, insert, or_else, drop,
}
use pypto_serving.Cache.Hashes.{iter_token_block_hashes, iter_eagle_token_block_hashes}
use pypto_serving.Cache.Groups.{GroupPool, Groups, is_sliding, local_block_id}
use pypto_serving.Cache.Groups.Blocks.{attach_block}
use pypto_serving.Cache.Groups.Publish.{cache_pool, cache_pool_from_snapshot}
use pypto_serving.Cache.Groups.Requests.{group_partition_count}

-- Euclid's algorithm; `a` rounds suffice, since the first number falls in each.
unfoldable pub gcd_loop : ℕ → ℕ → ℕ → ℕ
gcd_loop zero a b = b
gcd_loop (suc n) a b = elim (a == 0) [ true ↦ b | false ↦ gcd_loop n (b % a) a ]

-- `math.lcm`
unfoldable pub lcm : ℕ → ℕ → ℕ
unfolding gcd_loop
lcm a b = a * b / gcd_loop a a b

-- `group_prefix_cache_alignment`, from the alignment of the pools before.
unfoldable pub alignment_from : ℕ → List GroupPool → ℕ
unfolding lcm
alignment_from alignment [] = alignment
alignment_from alignment (pool ∷ rest) = alignment_from (lcm alignment pool.token_capacity) rest

-- The leading hashes that the partition's index knows.
unfoldable pub count_hits : GroupPool → ℕ → List ℕ → ℕ
count_hits pool partition [] = 0
count_hits pool partition (block_hash ∷ hashes) =
    let more = count_hits pool partition hashes in
    elim (pool.hash_to_block partition block_hash) [ none ↦ 0 | some block ↦ suc more ]

-- The candidate after one full-history group; a rolling group leaves it.
unfoldable pub narrow : ℕ → GroupPool → List ℕ → ℕ → ℕ
narrow partition pool hashes candidate =
    let max_blocks =
      min (min (candidate / pool.token_capacity) pool.max_blocks_per_seq) (length hashes) in
    if is_sliding pool
    then candidate
    else min candidate (count_hits pool partition (take max_blocks hashes) * pool.token_capacity)

unfoldable pub narrow_all : ℕ → List GroupPool → List (List ℕ) → ℕ → ℕ
narrow_all partition (pool ∷ pools) (hashes ∷ rest) candidate =
    narrow_all partition pools rest (narrow partition pool hashes candidate)
narrow_all partition _ _ candidate = candidate

-- The block of page `index`, if the partition's index knows its hash.
unfoldable pub find_page : GroupPool → ℕ → List ℕ → ℕ → Option ℕ
find_page pool partition hashes index = elim (get_elem? hashes index) [
  | none ↦ none
  | some block_hash ↦ pool.hash_to_block partition block_hash
]

-- The `n` pages from `index` on, each in its slot of a table of `size` slots.
unfoldable pub select_pages :
    GroupPool → ℕ → List ℕ → ℕ → ℕ → ℕ → List (Option ℕ) → Option (List (Option ℕ))
select_pages pool partition hashes size zero index selected = some selected
select_pages pool partition hashes size (suc n) index selected =
    elim (find_page pool partition hashes index) [
      | none ↦ none
      | some block ↦
          select_pages pool partition hashes size n (index + 1)
            (set selected (index % size) (some block))
    ]

-- The table of one group for a candidate of `end_block` pages: all pages of a full history, the
-- window's tail of a rolling one. A full history has a slot for each page.
unfoldable pub select_table : GroupPool → ℕ → List ℕ → ℕ → Option (List (Option ℕ))
select_table pool partition hashes end_block = elim (ltb (length hashes) end_block) [
  | true ↦ none
  | false ↦ elim pool.sliding_window [
    | none ↦ elim (ltb pool.max_blocks_per_seq end_block) [
      | true ↦ none
      | false ↦ select_pages pool partition hashes end_block end_block 0 (replicate end_block none)
    ]
    | some window ↦
        let table_size = min end_block pool.max_blocks_per_seq in
        let tail_blocks = min end_block (window / pool.token_capacity) in
        select_pages pool partition hashes table_size tail_blocks (end_block - tail_blocks)
          (replicate table_size none)
  ]
]

-- The tables of all groups, if each has one.
unfoldable pub select_tables :
    ℕ → ℕ → List GroupPool → List (List ℕ) → Option (List (List (Option ℕ)))
select_tables partition candidate (pool ∷ pools) (hashes ∷ rest) =
    elim (select_table pool partition hashes (candidate / pool.token_capacity)) [
      | none ↦ none
      | some table ↦ elim (select_tables partition candidate pools rest) [
        | none ↦ none
        | some tables ↦ some (table ∷ tables)
      ]
    ]
select_tables partition candidate _ _ = some []

-- The longest candidate of at most `n` alignments that all groups can resume from.
unfoldable pub longest_candidate :
    ℕ → List GroupPool → List (List ℕ) → ℕ → ℕ → ℕ × List (List (Option ℕ))
longest_candidate partition pools hashes alignment zero = (0, [])
longest_candidate partition pools hashes alignment (suc n) =
    elim (select_tables partition (suc n * alignment) pools hashes) [
      | none ↦ longest_candidate partition pools hashes alignment n
      | some tables ↦ (suc n * alignment, tables)
    ]

-- The hit of one partition.
unfoldable pub partition_hit :
    List GroupPool → List (List ℕ) → ℕ → ℕ → ℕ → ℕ × List (List (Option ℕ))
partition_hit pools hashes alignment max_candidate partition =
    longest_candidate partition pools hashes alignment
      (narrow_all partition pools hashes max_candidate / alignment)

pub record GroupHit : Type 0 where
  pub partition : Option ℕ
  pub hit_tokens : ℕ
  pub tables : List (List (Option ℕ))

-- A longer hit replaces the best one so far.
unfoldable pub best_hit : List GroupPool → List (List ℕ) → ℕ → ℕ → List ℕ → GroupHit → GroupHit
best_hit pools hashes alignment max_candidate [] best = best
best_hit pools hashes alignment max_candidate (partition ∷ partitions) best =
    let found = partition_hit pools hashes alignment max_candidate partition in
    best_hit pools hashes alignment max_candidate partitions (
      if ltb best.hit_tokens found.0
      then record { partition = some partition; hit_tokens = found.0; tables = found.1 }
      else best)

-- The blocks of a table gain the request's references.
unfoldable pub attach_table : ℕ → GroupPool → List (Option ℕ) → GroupPool
attach_table partition pool [] = pool
attach_table partition pool (none ∷ table) = attach_table partition pool table
attach_table partition pool (some block ∷ table) =
    attach_table partition (attach_block pool partition block) table

-- One group of a request that takes a hit.
unfoldable pub attach_hit : ℕ → ℕ → ℕ → GroupPool → List (Option ℕ) → GroupPool
attach_hit request_id partition hit_tokens pool table =
    attach_table partition
      (record pool {
        request_blocks = insert request_id table pool.request_blocks;
        request_partitions = insert request_id partition pool.request_partitions;
        request_logical_blocks =
            insert request_id (hit_tokens / pool.token_capacity) pool.request_logical_blocks;
      })
      table

abbrev pub attach_all : ℕ → ℕ → ℕ → List GroupPool → List (List (Option ℕ)) → List GroupPool
attach_all request_id partition hit_tokens (pool ∷ pools) (table ∷ tables) =
    attach_hit request_id partition hit_tokens pool table
    ∷ attach_all request_id partition hit_tokens pools tables
attach_all request_id partition hit_tokens pools _ = pools

-- The ids of the blocks of a table, by partition; empty slots are left out.
abbrev pub local_ids : GroupPool → List (Option ℕ) → List ℕ
local_ids pool [] = []
local_ids pool (none ∷ table) = local_ids pool table
local_ids pool (some block ∷ table) = local_block_id pool block ∷ local_ids pool table

abbrev pub all_local_ids : List GroupPool → List (List (Option ℕ)) → List (List ℕ)
all_local_ids (pool ∷ pools) (table ∷ tables) = local_ids pool table ∷ all_local_ids pools tables
all_local_ids _ _ = []

-- What a lookup returns: the tables' ids, the tokens of the hit, and its partition.
pub record Acquired : Type 0 where
  pub block_ids : List (List ℕ)
  pub hit_tokens : ℕ
  pub partition : Option ℕ
  pub groups : Groups

abbrev pub miss : Groups → Acquired
miss g = record { block_ids = []; hit_tokens = 0; partition = none; groups = g }

unfoldable pub take_hit : Groups → ℕ → GroupHit → Acquired
take_hit g request_id hit = elim hit.partition [
  | none ↦ miss g
  | some partition ↦ record {
    block_ids = all_local_ids g.pools hit.tables;
    hit_tokens = hit.hit_tokens;
    partition = some partition;
    groups = record g {
      pools = attach_all request_id partition hit.hit_tokens g.pools hit.tables;
      group_request_partitions = insert request_id partition g.group_request_partitions;
    };
  }
]

abbrev pub is_assigned : Groups → ℕ → Bool
is_assigned g request_id = elim (lookup request_id g.group_request_partitions) [
  | none ↦ false
  | some partition ↦ true
]

abbrev pub no_hit : GroupHit
no_hit = record { partition = none; hit_tokens = 0; tables = [] }

unfoldable pub acquire_group_prefix_blocks : Groups → ℕ → List (List ℕ) → ℕ → Outcome Acquired
acquire_group_prefix_blocks g request_id block_hashes max_cache_hit_tokens =
    if not g.enable_prefix_cache || length g.pools == 0
    then returned (miss g)
    else raise_if (is_assigned g request_id) value_error (
        raise_if (not (length block_hashes == length g.pools)) value_error (
          let alignment = alignment_from 1 g.pools in
          let max_candidate = max_cache_hit_tokens - max_cache_hit_tokens % alignment in
          if max_candidate == 0
          then returned (miss g)
          else returned (
              take_hit g request_id (
                best_hit g.pools block_hashes alignment max_candidate
                  (range_from 0 (group_partition_count g)) no_hit))))

-- `cache_group_blocks`, for the groups that are left; `.get` gives nothing where a list has ended.
unfoldable pub cache_pools :
    ℕ → ℕ → List GroupPool → List (List ℕ) → ℕ → List ℕ → Outcome (List ℕ × List GroupPool)
cache_pools request_id partition [] hashes num_computed_tokens already = returned ([], [])
cache_pools request_id partition (pool ∷ pools) hashes num_computed_tokens already =
    cache_pool request_id partition (or_else [] (get_elem? hashes 0)) num_computed_tokens
      (or_else 0 (get_elem? already 0)) pool
    >>= λ cached.
        cache_pools request_id partition pools (drop 1 hashes) num_computed_tokens (drop 1 already)
        >>= λ rest. returned (cached.0 ∷ rest.0, cached.1 ∷ rest.1)

unfoldable pub cache_group_blocks :
    Groups → ℕ → List (List ℕ) → ℕ → List ℕ → Outcome (List ℕ × Groups)
cache_group_blocks g request_id block_hashes num_computed_tokens already_cached =
    if not g.enable_prefix_cache
    then returned (already_cached, g)
    else elim (lookup request_id g.group_request_partitions) [
      | none ↦ returned (already_cached, g)
      | some partition ↦
          cache_pools request_id partition g.pools block_hashes num_computed_tokens already_cached
          >>= λ cached. returned (cached.0, record g { pools = cached.1 })
    ]

-- `cache_group_blocks_from_snapshot`, for the groups that are left, with a table for each.
unfoldable pub cache_pools_from_snapshot :
    ℕ
    → List GroupPool
    → List (List ℕ)
    → ℕ
    → List ℕ
    → List (List ℕ)
    → Outcome (List ℕ × List GroupPool)
cache_pools_from_snapshot partition (pool ∷ pools) (hashes ∷ rest) num_computed_tokens already
      (table ∷ tables) =
    cache_pool_from_snapshot partition table hashes num_computed_tokens
      (or_else 0 (get_elem? already 0)) pool
    >>= λ cached.
        cache_pools_from_snapshot partition pools rest num_computed_tokens (drop 1 already) tables
        >>= λ more. returned (cached.0 ∷ more.0, cached.1 ∷ more.1)
cache_pools_from_snapshot partition pools hashes num_computed_tokens already tables =
    returned ([], pools)

unfoldable pub cache_group_blocks_from_snapshot :
    Groups → List (List ℕ) → ℕ → List ℕ → List (List ℕ) → ℕ → Outcome (List ℕ × Groups)
cache_group_blocks_from_snapshot g block_hashes num_computed_tokens already_cached tables
      partition =
    if not g.enable_prefix_cache
    then returned (already_cached, g)
    else raise_if (not (length block_hashes == length g.pools)) value_error (
        raise_if (not (length tables == length g.pools)) value_error (
          cache_pools_from_snapshot partition g.pools block_hashes num_computed_tokens
            already_cached tables
          >>= λ cached. returned (cached.0, record g { pools = cached.1 })))

module _ (hash : ℕ → List ℕ → ℕ) (none_hash : ℕ) where
  unfoldable pub compute_group_block_hashes : List ℕ → GroupPool → List ℕ
  compute_group_block_hashes token_ids pool =
      if pool.is_eagle_group
      then iter_eagle_token_block_hashes hash none_hash token_ids pool.token_capacity
      else iter_token_block_hashes hash none_hash token_ids pool.token_capacity
