-- ===== src/Cache/Groups/Setup.antt =====
-- kv_cache.py, `init_groups`: the pools of the cache groups at the start. The names of the groups
-- are the keys of the dictionaries.
pub mod Fresh
use pypto_serving.Prelude.{
  ℕ, ◌*◌, ◌/◌, ◌%◌, List, [], ◌∷◌, Option, none, some, Outcome, returned, raised, raise_if,
  value_error, ◌>>=◌, Bool, true, false, not, ◌&&◌, ◌||◌, ◌==◌, ltb, any, elem, map, range_from,
  or_else, if◌then◌else◌,
}
use pypto_serving.Cache.Queue
use pypto_serving.Cache.Groups.{GroupSpec, GroupPool, Groups}

-- `len(names) != len(set(names))`
abbrev pub repeats : List ℕ → Bool
repeats [] = false
repeats (x ∷ xs) = elem x xs || repeats xs

-- `primary_num_blocks` in units of the first group's tables.
unfoldable pub capacity_slots : Option ℕ → GroupSpec → Outcome (Option ℕ)
capacity_slots none first = returned none
capacity_slots (some blocks) first =
    raise_if (blocks == 0 || not (blocks % first.max_blocks_per_seq == 0)) value_error
      (returned (some (blocks / first.max_blocks_per_seq)))

-- `requested_sizes`
unfoldable pub requested_size : Option ℕ → ℕ → GroupSpec → ℕ
requested_size (some slots) max_batch_size group = slots * group.max_blocks_per_seq
requested_size none max_batch_size group =
    or_else (max_batch_size * group.max_blocks_per_seq) group.num_blocks

-- A configured size that is not the device's.
unfoldable pub is_conflicting : Option ℕ → ℕ → GroupSpec → Bool
is_conflicting none max_batch_size group = false
is_conflicting (some slots) max_batch_size group = elim group.num_blocks [
  | none ↦ false
  | some configured ↦ not (configured == requested_size (some slots) max_batch_size group)
]

unfoldable pub init_pool : GroupSpec → ℕ → GroupPool
init_pool group blocks_per_partition = record {
  spec = group;
  blocks_per_partition = blocks_per_partition;
  ref_cnt = λ b. 0;
  block_hash = λ b. none;
  free_queues = λ partition.
      if ltb partition group.num_partitions
      then Queue.append_n Queue.empty
          (range_from (partition * blocks_per_partition) blocks_per_partition)
      else Queue.empty;
  request_blocks = [];
  request_partitions = [];
  request_logical_blocks = [];
  hash_to_block = λ p h. none;
}

-- The validation and the pools, on the first call.
unfoldable pub init_pools : List GroupSpec → ℕ → Option ℕ → Outcome (List GroupPool)
init_pools [] max_batch_size primary = raise_if (max_batch_size == 0) value_error (returned [])
init_pools (first ∷ rest) max_batch_size primary = raise_if (max_batch_size == 0) value_error (
    raise_if (repeats (map (λ (g : GroupSpec). g.name) (first ∷ rest))) value_error (
      raise_if (any (λ (g : GroupSpec). not (g.num_partitions == first.num_partitions)) rest)
        value_error
        (capacity_slots primary first >>= λ slots.
          raise_if (any (is_conflicting slots max_batch_size) (first ∷ rest)) value_error (
            raise_if
              (any
                (λ (g : GroupSpec).
                  ltb (requested_size slots max_batch_size g) g.max_blocks_per_seq)
                (first ∷ rest))
              value_error
              (returned (
                map (λ (g : GroupSpec). init_pool g (requested_size slots max_batch_size g))
                  (first ∷ rest)))))))
