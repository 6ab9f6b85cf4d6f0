-- ===== src/Cache/Groups/Requests.antt =====
-- kv_cache.py, the growth and the release of a request in all groups at once: the choice of a
-- partition (`_candidate_group_partitions`, `_select_group_partition`), `can_ensure_group_blocks`,
-- `ensure_group_blocks` and `release_all_group_requests`. Token counts are not negative, so the test
-- for a negative one is left out; the dictionary of the pools is the list of its values.
pub mod Ensure
pub mod Release
pub mod Select
use pypto_serving.Prelude.{
  ◌==◌, any, ltb, leb, runtime_error, ◌&&◌, length, capacity_error, raise_if, ◌>>=◌, range_from,
  map_outcome, false, not, none, all, select, Bool, without, lookup, List, ℕ, Option, Outcome,
  returned, raised, value_error, fold_outcome, refl, some, [], ◌∷◌, ◌++◌, ◌||◌, if◌then◌else◌, zero,
  suc, ◌+◌, ◌-◌, ◌%◌, true, arith, ◌≡◌, min, elem, insert, or_else,
}
use pypto_serving.Cache.Groups.{
  raised, returned, Outcome, GroupPool, Groups, is_sliding, num_free_blocks_in, local_block_id,
  logical_group_blocks,
}
use pypto_serving.Cache.Groups.Blocks.{drop_reference}
use pypto_serving.Cache.Groups.Growth.{
  set_default, additional_group_blocks, owned_blocks, grow_pool,
}

unfoldable pub group_partition_count : Groups → ℕ
group_partition_count g = elim g.pools [ [] ↦ 1 | pool ∷ rest ↦ pool.num_partitions ]

abbrev pub assigned_partition : Groups → ℕ → Option ℕ
assigned_partition g request_id = lookup request_id g.group_request_partitions

-- Every group has enough free blocks in the partition.
unfoldable pub has_room : List GroupPool → ℕ → ℕ → ℕ → Bool
has_room pools request_id token_count partition =
    all
      (λ pool.
        leb (additional_group_blocks pool request_id token_count)
          (num_free_blocks_in pool partition))
      pools

unfoldable pub candidate_group_partitions : Groups → ℕ → ℕ → List ℕ
candidate_group_partitions g request_id token_count =
    select (has_room g.pools request_id token_count) (elim (assigned_partition g request_id) [
      | none ↦ range_from 0 (group_partition_count g)
      | some assigned ↦ assigned ∷ []
    ])

-- The number of requests in a partition: `owned_counts[partition]`.
unfoldable pub owned_count : List (ℕ × ℕ) → ℕ → ℕ
owned_count [] partition = 0
owned_count ((request_id, p) ∷ rest) partition =
    let n = owned_count rest partition in if p == partition then suc n else n

abbrev pub minimum : (ℕ → ℕ) → ℕ → List ℕ → ℕ
minimum f m [] = m
minimum f m (x ∷ xs) = minimum f (min m (f x)) xs

-- The first partition that passes the test, for the `n` offsets from `offset` on.
unfoldable pub find_partition : (ℕ → Bool) → ℕ → ℕ → ℕ → ℕ → Option ℕ
find_partition test count next zero offset = none
find_partition test count next (suc n) offset =
    let partition = (next + offset) % count in
    let later = find_partition test count next n (offset + 1) in
    if test partition then some partition else later

unfoldable pub least_loaded : List (ℕ × ℕ) → List ℕ → ℕ → Bool
least_loaded partitions [] p = false
least_loaded partitions (c ∷ cs) p =
    elem p (c ∷ cs)
    && owned_count partitions p == minimum (owned_count partitions) (owned_count partitions c) cs

-- The search from the next partition on, for a request without one. It is called with a pool and
-- a candidate.
unfoldable pub select_least_loaded : Groups → List ℕ → Outcome (Option ℕ × Groups)
select_least_loaded g candidates = elim g.pools [
  | [] ↦ raised runtime_error
  | first_pool ∷ rest ↦
      elim (find_partition (least_loaded first_pool.request_partitions candidates)
        (group_partition_count g) g.next_group_partition (group_partition_count g) 0) [
          | none ↦ raised runtime_error
          | some partition ↦ returned (
            some partition,
            record g { next_group_partition = (partition + 1) % group_partition_count g },
          )
        ]
]

unfoldable pub select_group_partition : Groups → ℕ → ℕ → Outcome (Option ℕ × Groups)
select_group_partition g request_id token_count =
    elim (candidate_group_partitions g request_id token_count) [
      | [] ↦ returned (none, g)
      | c ∷ cs ↦ elim (assigned_partition g request_id) [
        | some assigned ↦ returned (some assigned, g)
        | none ↦ select_least_loaded g (c ∷ cs)
      ]
    ]

-- The request is in another partition.
abbrev pub is_elsewhere : Groups → ℕ → ℕ → Bool
is_elsewhere g request_id partition = elim (assigned_partition g request_id) [
  | none ↦ false
  | some assigned ↦ not (assigned == partition)
]

unfoldable pub can_ensure_group_blocks : Groups → ℕ → ℕ → Option ℕ → Bool
can_ensure_group_blocks g request_id token_count none =
    not (length (candidate_group_partitions g request_id token_count) == 0)
can_ensure_group_blocks g request_id token_count (some partition) =
    not (is_elsewhere g request_id partition)
    && ltb partition (group_partition_count g)
    && elem partition (candidate_group_partitions g request_id token_count)

abbrev pub is_oversized : ℕ → GroupPool → Bool
is_oversized token_count pool =
    not (is_sliding pool) && ltb pool.max_blocks_per_seq (logical_group_blocks pool token_count)

abbrev pub table_entry : GroupPool → Option ℕ → Outcome ℕ
table_entry pool none = raised runtime_error
table_entry pool (some block) = returned (local_block_id pool block)

-- The table of a request, by ids inside its partition.
unfoldable pub block_ids : ℕ → GroupPool → Outcome (List ℕ)
block_ids request_id pool = map_outcome (table_entry pool) (owned_blocks pool request_id)

-- The growth of every group in the chosen partition.
unfoldable pub grow_all : Groups → ℕ → ℕ → ℕ → Outcome (List (List ℕ) × Groups)
grow_all g request_id token_count partition =
    map_outcome
      (λ pool. grow_pool pool request_id partition (logical_group_blocks pool token_count)) g.pools
    >>= λ pools'. map_outcome (block_ids request_id) pools' >>= λ ids. returned (
      ids,
      record g {
        pools = pools';
        group_request_partitions = set_default request_id partition g.group_request_partitions;
      },
    )

-- The partition to grow in: the caller's, or a selected one.
abbrev pub chosen_partition : Groups → ℕ → ℕ → Option ℕ → Outcome (Option ℕ × Groups)
chosen_partition g request_id token_count none = select_group_partition g request_id token_count
chosen_partition g request_id token_count (some partition) = returned (some partition, g)

abbrev pub grow_in : ℕ → ℕ → Option ℕ × Groups → Outcome (List (List ℕ) × Groups)
grow_in request_id token_count (none, g) = raised capacity_error
grow_in request_id token_count (some selected, g) =
    if can_ensure_group_blocks g request_id token_count (some selected)
    then grow_all g request_id token_count selected
    else raised capacity_error

abbrev pub mismatched : Groups → ℕ → Option ℕ → Bool
mismatched g request_id none = false
mismatched g request_id (some partition) = is_elsewhere g request_id partition

unfoldable pub ensure_group_blocks : Groups → ℕ → ℕ → Option ℕ → Outcome (List (List ℕ) × Groups)
ensure_group_blocks g request_id token_count partition = elim g.pools [
  | [] ↦ returned ([], g)
  | pool ∷ rest ↦ raise_if (any (is_oversized token_count) g.pools) capacity_error (
      raise_if (mismatched g request_id partition) value_error
        (chosen_partition g request_id token_count partition >>= grow_in request_id token_count))
]

abbrev pub has_block : Option ℕ → Bool
has_block none = false
has_block (some block) = true

unfoldable pub release_cell : ℕ → GroupPool → Option ℕ → Outcome GroupPool
release_cell partition pool none = returned pool
release_cell partition pool (some block) = drop_reference pool partition block

abbrev pub forget_request : ℕ → GroupPool → GroupPool
forget_request request_id pool = record pool {
  request_partitions = without request_id pool.request_partitions;
  request_logical_blocks = without request_id pool.request_logical_blocks;
  request_blocks = without request_id pool.request_blocks;
}

-- The release of a request in one group.
unfoldable pub release_pool : ℕ → GroupPool → Outcome GroupPool
release_pool request_id pool = elim (lookup request_id pool.request_partitions) [
  | none ↦
      raise_if (any has_block (owned_blocks pool request_id)) runtime_error
        (returned (forget_request request_id pool))
  | some partition ↦
      fold_outcome (release_cell partition) (forget_request request_id pool)
        (owned_blocks pool request_id)
]

unfoldable pub release_all_group_requests : Groups → ℕ → Outcome Groups
release_all_group_requests g request_id =
    map_outcome (release_pool request_id) g.pools >>= λ pools'. returned (record g {
      pools = pools';
      group_request_partitions = without request_id g.group_request_partitions;
    })
