-- ===== src/Cache/Groups/Snapshots.antt =====
-- kv_cache.py, the pins on the block tables of a step in flight: `retain_group_block_snapshot` and
-- `release_group_block_snapshot`. A dictionary by group is the list of its values in the order of
-- the pools, and one with other keys is a list of another length.
pub mod Pins
use pypto_serving.Prelude.{
  ◌>>=◌, ◌||◌, List, ℕ, ◌==◌, [], ◌∷◌, Bool, false, elem, Outcome, returned, raised, raise_if,
  value_error, runtime_error, map_outcome, fold_outcome,
}
use pypto_serving.Cache.Groups.{GroupPool, Groups, block_from_local_id}
use pypto_serving.Cache.Groups.Blocks.{retain_block, drop_reference}

-- `len(xs) != len(set(xs))`
abbrev pub has_duplicates : List ℕ → Bool
has_duplicates [] = false
has_duplicates (x ∷ xs) = elem x xs || has_duplicates xs

-- A block to pin has an owner.
unfoldable pub pinned_block : GroupPool → ℕ → ℕ → Outcome ℕ
pinned_block pool partition block_id = block_from_local_id pool partition block_id >>= λ block.
    raise_if (pool.ref_cnt block == 0) runtime_error (returned block)

-- `block.ref_cnt += 1` for each block.
unfoldable pub retain_blocks : GroupPool → List ℕ → GroupPool
retain_blocks pool [] = pool
retain_blocks pool (block ∷ blocks) = retain_blocks (retain_block pool block) blocks

unfoldable pub retain_snapshot : ℕ → GroupPool → List ℕ → Outcome GroupPool
retain_snapshot partition pool block_ids = raise_if (has_duplicates block_ids) value_error (
    map_outcome (pinned_block pool partition) block_ids >>= λ blocks.
    returned (retain_blocks pool blocks))

-- Every group with its table.
unfoldable pub retain_snapshots : ℕ → List GroupPool → List (List ℕ) → Outcome (List GroupPool)
retain_snapshots partition [] [] = returned []
retain_snapshots partition [] (table ∷ tables) = raised value_error
retain_snapshots partition (pool ∷ pools) [] = raised value_error
retain_snapshots partition (pool ∷ pools) (table ∷ tables) =
    retain_snapshot partition pool table >>= λ pool'.
    retain_snapshots partition pools tables >>= λ pools'. returned (pool' ∷ pools')

-- All blocks are looked up before the first is pinned, so that an error changes nothing.
unfoldable pub retain_group_block_snapshot : Groups → List (List ℕ) → ℕ → Outcome Groups
retain_group_block_snapshot g [] partition = returned g
retain_group_block_snapshot g (table ∷ tables) partition =
    retain_snapshots partition g.pools (table ∷ tables) >>= λ pools'.
    returned (record g { pools = pools' })

unfoldable pub release_pin : ℕ → GroupPool → ℕ → Outcome GroupPool
release_pin partition pool block_id =
    block_from_local_id pool partition block_id >>= drop_reference pool partition

unfoldable pub release_snapshots : ℕ → List GroupPool → List (List ℕ) → Outcome (List GroupPool)
release_snapshots partition pools [] = returned pools
release_snapshots partition [] (table ∷ tables) = raised runtime_error
release_snapshots partition (pool ∷ pools) (table ∷ tables) =
    fold_outcome (release_pin partition) pool table >>= λ pool'.
    release_snapshots partition pools tables >>= λ pools'. returned (pool' ∷ pools')

unfoldable pub release_group_block_snapshot : Groups → List (List ℕ) → ℕ → Outcome Groups
release_group_block_snapshot g tables partition =
    release_snapshots partition g.pools tables >>= λ pools'. returned (record g { pools = pools' })
