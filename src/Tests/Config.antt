-- ===== src/Tests/Config.antt =====
-- Placements: two replicas of two devices, and four ranks that all axes share.
use pypto_serving.Prelude.{◌≡◌, refl, true, false, [], ◌∷◌, arith, returned}
use pypto_serving.Config.Parallel.{
  ParallelConfig, replica, overlapped, least_pending_tokens, num_replicas, worker_group_size,
  has_duplicates, is_misplaced, post_init, device_group, groups_from, replica_device_groups,
}
use pypto_serving.Config.Parallel.Replicas.{
  concat, Seen, replica_device_groups-concat, for_replica-Seen,
}

abbrev two_by_two : ParallelConfig
two_by_two = record {
  data_parallel_size = 2;
  tensor_parallel_size = 2;
  pipeline_parallel_size = 1;
  enable_expert_parallel = false;
  expert_placement_strategy = 0;
  all2all_backend = 0;
  devices = 4 ∷ 5 ∷ 6 ∷ 7 ∷ [];
  data_parallel_routing = least_pending_tokens;
  expert_parallel_size = 1;
  placement_mode = replica;
}

abbrev shared_ranks : ParallelConfig
shared_ranks = record two_by_two {
  data_parallel_size = 4;
  tensor_parallel_size = 1;
  expert_parallel_size = 4;
  enable_expert_parallel = true;
  placement_mode = overlapped;
}

two_by_two-valid : post_init two_by_two ≡ returned two_by_two
unfolding post_init has_duplicates num_replicas worker_group_size
two_by_two-valid = refl

shared_ranks-valid : post_init shared_ranks ≡ returned shared_ranks
unfolding post_init has_duplicates num_replicas worker_group_size is_misplaced
shared_ranks-valid = refl

groups_run : replica_device_groups two_by_two ≡ (4 ∷ 5 ∷ []) ∷ (6 ∷ 7 ∷ []) ∷ []
unfolding replica_device_groups groups_from device_group num_replicas worker_group_size
groups_run = refl

replica_device_groups-concat_example :
    concat (replica_device_groups two_by_two) ≡ 4 ∷ 5 ∷ 6 ∷ 7 ∷ []
replica_device_groups-concat_example = replica_device_groups-concat two_by_two two_by_two-valid

for_replica-Seen_example : Seen two_by_two (device_group two_by_two 1)
unfolding num_replicas
for_replica-Seen_example = for_replica-Seen two_by_two 1 two_by_two-valid (omega arith)
