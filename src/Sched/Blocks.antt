-- ===== src/Sched/Blocks.antt =====
-- scheduler.py, the scheduler's calls into the cache manager for one request: `_blocks_needed`,
-- `_try_allocate_blocks`, `_try_allocate_request_blocks`, `_free_request_blocks`,
-- `_release_waiting_prefix_blocks`, `_cache_completed_blocks` and `_release_scheduled_group_blocks`.
-- A request object is passed in and out. A raised error drops the state.
pub mod Accounted
pub mod Counts
use pypto_serving.Prelude.{
  ℕ, ◌+◌, ◌-◌, ◌/◌, Bool, true, false, not, Option, none, some, List, [], ◌∷◌, ◌++◌, ltb, leb, ◌==◌,
  if◌then◌else◌, Outcome, returned, raised, raise_if, ◌>>=◌, capacity_error, value_error,
  runtime_error, index_error, length, min, or_else,
}
use pypto_serving.Cache.Pool.{
  Pool, num_free_blocks, allocate_blocks, release_blocks_by_ids, cache_block_ids,
}
use pypto_serving.Cache.Groups.{Groups}
use pypto_serving.Cache.Groups.Requests.{
  ensure_group_blocks, release_all_group_requests, assigned_partition,
}
use pypto_serving.Cache.Groups.Acquire.{cache_group_blocks, cache_group_blocks_from_snapshot}
use pypto_serving.Cache.Groups.Snapshots.{release_group_block_snapshot}
use pypto_serving.Cache.Manager.{Manager, has_groups, with_pool, with_groups}
use pypto_serving.Sched.Config.{SchedulerConfig, is_empty}
use pypto_serving.Sched.Request.{Request, ScheduledRequest}

-- The manager and a request object.
pub record Lease : Type 0 where
  pub manager : Manager
  pub request : Request

-- `request.cached_block_ids + request.allocated_block_ids`
abbrev pub all_block_ids : Request → List ℕ
all_block_ids r = r.cached_block_ids ++ r.allocated_block_ids

unfoldable pub blocks_needed : Pool → Request → ℕ → ℕ
blocks_needed p r num_new_tokens =
    let current_total_tokens = r.num_computed_tokens + num_new_tokens in
    let current_blocks = length r.cached_block_ids + length r.allocated_block_ids in
    let needed_blocks = (current_total_tokens + p.block_size - 1) / p.block_size in
    needed_blocks - current_blocks

abbrev pub add_blocks : Request → List ℕ → Request
add_blocks r blocks = record r { allocated_block_ids = r.allocated_block_ids ++ blocks }

abbrev pub lease_blocks : Lease → Option (List ℕ) × Pool → Bool × Lease
lease_blocks h (none, p') = (false, record h { manager = with_pool h.manager p' })
lease_blocks h (some blocks, p') =
    (true, record { manager = with_pool h.manager p'; request = add_blocks h.request blocks })

-- Whether the blocks were there, and what is left of the manager.
unfoldable pub try_allocate_blocks : Lease → ℕ → Bool × Lease
try_allocate_blocks h num_blocks =
    if num_blocks == 0
    then (true, h)
    else if ltb (num_free_blocks h.manager.pool) num_blocks
    then (false, h)
    else lease_blocks h (allocate_blocks h.manager.pool num_blocks)

abbrev pub with_tables : Request → List (List ℕ) → Option ℕ → Request
with_tables r tables partition = record r {
  allocated_group_block_ids = tables;
  cache_partition = partition;
}

-- A lack of blocks is no error here; any other error is.
abbrev pub grown_or_refused : Lease → Outcome (List (List ℕ) × Groups) → Outcome (Bool × Lease)
grown_or_refused h (returned (tables, g')) = returned (
  true,
  record {
    manager = with_groups h.manager g';
    request = with_tables h.request tables (assigned_partition g' h.request.request_id);
  },
)
grown_or_refused h (raised capacity_error) = returned (false, h)
grown_or_refused h (raised value_error) = raised value_error
grown_or_refused h (raised runtime_error) = raised runtime_error
grown_or_refused h (raised index_error) = raised index_error

unfoldable pub try_allocate_request_blocks : Lease → ℕ → Outcome (Bool × Lease)
try_allocate_request_blocks h num_new_tokens =
    if has_groups h.manager
    then grown_or_refused h (
        ensure_group_blocks h.manager.groups h.request.request_id
          (h.request.num_computed_tokens + num_new_tokens) h.request.cache_partition)
    else returned (try_allocate_blocks h (blocks_needed h.manager.pool h.request num_new_tokens))

-- The request without its blocks.
abbrev pub without_blocks : Request → Request
without_blocks r = record r {
  cached_block_ids = [];
  allocated_block_ids = [];
  allocated_group_block_ids = [];
  cache_partition = none;
  num_group_blocks_cached = [];
}

-- The tables of a request that has some are given back.
abbrev pub release_tables : Manager → Request → Outcome Manager
release_tables m r =
    if is_empty r.allocated_group_block_ids
    then returned m
    else release_all_group_requests m.groups r.request_id >>= λ g'. returned (with_groups m g')

-- An id out of range is an `IndexError`.
unfoldable pub free_request_blocks : Lease → Outcome Lease
free_request_blocks h =
    elim (release_blocks_by_ids h.manager.pool
      (h.request.cached_block_ids ∷ h.request.allocated_block_ids ∷ [])) [
        | none ↦ raised runtime_error
        | some p' ↦ release_tables (with_pool h.manager p') h.request >>= λ m'.
            returned (record { manager = m'; request = without_blocks h.request })
      ]

unfoldable pub release_waiting_prefix_blocks : Lease → Outcome Lease
release_waiting_prefix_blocks h = free_request_blocks h >>= λ freed. returned (record freed {
  request = record freed.request { num_computed_tokens = 0; num_blocks_cached = 0 };
})

abbrev pub with_group_counts : Request → List ℕ → Request
with_group_counts r counts = record r { num_group_blocks_cached = counts }

-- The new full blocks of the generic pool.
unfoldable pub publish_blocks : Lease → ℕ → Outcome Lease
publish_blocks h confirmed_tokens =
    let p = h.manager.pool in
    let total = min (confirmed_tokens / p.block_size) (length h.request.block_hashes) in
    let already_cached = h.request.num_blocks_cached in
    if leb total already_cached
    then returned h
    else elim (cache_block_ids p (all_block_ids h.request) h.request.block_hashes already_cached
        total) [
          | none ↦ raised runtime_error
          | some p' ↦ returned (record {
            manager = with_pool h.manager p';
            request = record h.request { num_blocks_cached = total };
          })
        ]

abbrev pub publish_tables : Lease → Outcome (List ℕ × Groups) → Outcome Lease
publish_tables h cached = cached >>= λ r.
    returned
      (record { manager = with_groups h.manager r.1; request = with_group_counts h.request r.0 })

unfoldable pub cache_completed_blocks : SchedulerConfig → Lease → ℕ → Outcome Lease
cache_completed_blocks c h confirmed_tokens =
    if not c.enable_prefix_cache
    then returned h
    else if has_groups h.manager
    then publish_tables h (
        cache_group_blocks h.manager.groups h.request.request_id h.request.group_block_hashes
          confirmed_tokens h.request.num_group_blocks_cached)
    else publish_blocks h confirmed_tokens

-- The pins of a step are released once.
unfoldable pub release_scheduled_group_blocks : Manager → ScheduledRequest → Outcome Manager
release_scheduled_group_blocks m s =
    if not s.group_blocks_retained then returned m else elim s.cache_partition [
      | none ↦ raised runtime_error
      | some partition ↦
          release_group_block_snapshot m.groups s.block_ids_by_group partition >>= λ g'.
          returned (with_groups m g')
    ]

-- The publication of a confirmed step, through the tables that the step used.
unfoldable pub publish_confirmed : SchedulerConfig → ScheduledRequest → Lease → Outcome Lease
publish_confirmed c s h =
    let confirmed_tokens = s.num_computed_tokens + s.num_new_tokens in
    if has_groups h.manager
    then elim s.cache_partition [
      | none ↦ raised runtime_error
      | some partition ↦ publish_tables h (
          cache_group_blocks_from_snapshot h.manager.groups h.request.group_block_hashes
            confirmed_tokens h.request.num_group_blocks_cached s.block_ids_by_group partition)
    ]
    else cache_completed_blocks c h confirmed_tokens
