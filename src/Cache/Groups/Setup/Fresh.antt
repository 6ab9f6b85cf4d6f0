-- ===== src/Cache/Groups/Setup/Fresh.antt =====
-- A new pool is in order: all blocks of a partition are free, and none is published.
use native.Mathlib.Nat.{le-div_iff_mul-le, div-lt_iff_lt-mul}
use pypto_serving.Prelude.{
  ℕ, ◌*◌, ◌/◌, ◌+◌, ◌<◌, ◌≡◌, true, leb, ltb, ◌==◌, ◌&&◌, arith, range_from, elem-range_from,
  range_from-Distinct, suc, [],
}
use pypto_serving.Cache.Queue
use pypto_serving.Cache.Queue.Refinement.{append_n-Holds, empty-Holds}
use pypto_serving.Cache.Groups.{GroupSpec}
use pypto_serving.Cache.Groups.Growth.Steps.{Part}
use pypto_serving.Cache.Groups.Blocks.Index.{Indexed}
use pypto_serving.Cache.Groups.Requests.Ensure.{in_partition}
use pypto_serving.Cache.Groups.Setup.{init_pool}

-- The ids of partition `q` are those whose quotient is `q`.
div-range :
    (b n m q : ℕ)
    → 0 < n
    → q < m
    → (leb (q * n) b && ltb b (q * n + n)) ≡ (ltb b (m * n) && b / n == q)
div-range b n m q pos h =
    let (low, low') = le-div_iff_mul-le {k = n} {x = q} {y = b} pos in
    let (high, high') = div-lt_iff_lt-mul {k = n} {x = b} {y = suc q} pos in
    let (top, top') = div-lt_iff_lt-mul {k = n} {x = b} {y = m} pos in
    ground (arith, low, low', high, high', top, top')

-- A new pool is in order in each of its partitions: the free blocks are those of the partition, in
-- the order of their ids, and the prefix index is exact. Partitions are not empty.
pub init_pool-Part :
    (group : GroupSpec) (n q : ℕ) (part_of : ℕ → ℕ)
    → 0 < n
    → q < group.num_partitions
    → Part (in_partition (init_pool group n) q) q (init_pool group n) (range_from (q * n) n)
      × Indexed part_of (init_pool group n)
unfolding init_pool
init_pool-Part group n q part_of pos h = (
  record {
    queue =
        let there : ltb q group.num_partitions ≡ true = ground arith in
        rw there (
          append_n-Holds Queue.empty [] (range_from (q * n) n) empty-Holds
            (range_from-Distinct (q * n) n));
    unreferenced = λ b.
        ground (arith, elem-range_from (q * n) n b, div-range b n group.num_partitions q pos h);
  },
  record { sound = λ p k b e. absurd cc; complete = λ b k e. absurd cc },
)
