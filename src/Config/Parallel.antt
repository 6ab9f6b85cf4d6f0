-- ===== src/Config/Parallel.antt =====
-- config/parallel.py, `ParallelConfig`. The strings that the source compares with a set of supported
-- ones are data types with a last case for all others; those that it passes on are numbers, and so
-- are the device ids.
pub mod Replicas
use pypto_serving.Prelude.{
  ℕ, zero, suc, max, ◌+◌, ◌*◌, ◌<◌, Bool, true, false, not, ◌&&◌, ◌||◌, List, [], ◌∷◌, ltb, ◌==◌,
  elem, take, drop, length, if◌then◌else◌, Outcome, returned, raise_if, value_error, ◌>>=◌,
}

pub data PlacementMode : Type 0 where
  replica overlapped unsupported_mode : PlacementMode

pub data RoutingPolicy : Type 0 where
  least_pending_tokens unsupported_policy : RoutingPolicy

pub record ParallelConfig : Type 0 where
  pub data_parallel_size : ℕ
  pub tensor_parallel_size : ℕ
  pub pipeline_parallel_size : ℕ
  pub enable_expert_parallel : Bool
  pub expert_placement_strategy : ℕ
  pub all2all_backend : ℕ
  pub devices : List ℕ
  pub data_parallel_routing : RoutingPolicy
  pub expert_parallel_size : ℕ
  pub placement_mode : PlacementMode

abbrev pub is_overlapped : PlacementMode → Bool
is_overlapped overlapped = true
is_overlapped _ = false

abbrev pub is_replica : PlacementMode → Bool
is_replica replica = true
is_replica _ = false

abbrev pub is_supported_policy : RoutingPolicy → Bool
is_supported_policy least_pending_tokens = true
is_supported_policy unsupported_policy = false

unfoldable pub num_replicas : ParallelConfig → ℕ
num_replicas c = if is_overlapped c.placement_mode then 1 else c.data_parallel_size

unfoldable pub worker_group_size : ParallelConfig → ℕ
worker_group_size c =
    if is_overlapped c.placement_mode
    then max (max c.data_parallel_size c.tensor_parallel_size) c.expert_parallel_size
    else c.tensor_parallel_size

-- `len(set(devices)) != len(devices)`
unfoldable pub has_duplicates : List ℕ → Bool
has_duplicates [] = false
has_duplicates (x ∷ xs) = elem x xs || has_duplicates xs

abbrev pub is_axis : ℕ → ℕ → Bool
is_axis world_size size = size == 1 || size == world_size

-- The checks of the overlapped placement.
unfoldable pub is_misplaced : ParallelConfig → Bool
is_misplaced c =
    let spans = is_axis (worker_group_size c) in
    not (
      if c.enable_expert_parallel
      then ltb 1 c.expert_parallel_size
      else not (ltb 1 c.expert_parallel_size))
    || not (
        spans c.data_parallel_size
        && (spans c.tensor_parallel_size && spans c.expert_parallel_size))

-- `__post_init__`: each guard raises a `ValueError`.
unfoldable pub post_init : ParallelConfig → Outcome ParallelConfig
post_init c = raise_if (ltb c.data_parallel_size 1) value_error (
    raise_if (ltb c.tensor_parallel_size 1) value_error (
      raise_if (ltb c.expert_parallel_size 1) value_error (
        raise_if (not (c.pipeline_parallel_size == 1)) value_error (
          raise_if (not (is_replica c.placement_mode || is_overlapped c.placement_mode)) value_error
            (raise_if
              (is_replica c.placement_mode
                && (c.enable_expert_parallel || not (c.expert_parallel_size == 1)))
              value_error
              (raise_if (is_overlapped c.placement_mode && is_misplaced c) value_error (
                raise_if (not (is_supported_policy c.data_parallel_routing)) value_error (
                  raise_if (length c.devices == 0) value_error (
                    raise_if (has_duplicates c.devices) value_error (
                      raise_if (not (length c.devices == num_replicas c * worker_group_size c))
                        value_error (returned c)))))))))))

-- The devices of one replica.
unfoldable pub device_group : ParallelConfig → ℕ → List ℕ
device_group c replica_rank =
    take (worker_group_size c) (drop (replica_rank * worker_group_size c) c.devices)

unfoldable pub groups_from : ParallelConfig → ℕ → ℕ → List (List ℕ)
groups_from c replica_rank zero = []
groups_from c replica_rank (suc n) =
    device_group c replica_rank ∷ groups_from c (replica_rank + 1) n

unfoldable pub replica_device_groups : ParallelConfig → List (List ℕ)
replica_device_groups c = groups_from c 0 (num_replicas c)

abbrev pub one_replica : ParallelConfig → List ℕ → ParallelConfig
one_replica c group =
    if is_overlapped c.placement_mode then record c { devices = group } else record c {
      data_parallel_size = 1;
      tensor_parallel_size = length group;
      expert_parallel_size = 1;
      devices = group;
    }

-- The constructor checks the new configuration.
unfoldable pub for_replica : ParallelConfig → List ℕ → Outcome ParallelConfig
for_replica c group = post_init (one_replica c group)
