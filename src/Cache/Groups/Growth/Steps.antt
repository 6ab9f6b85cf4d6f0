-- ===== src/Cache/Groups/Growth/Steps.antt =====
-- One partition of a group while a table grows: its free blocks, the blocks of the table, and what
-- taking and leaving a block does to them.
use pypto_serving.Prelude.{
  ℕ, ◌-◌, ◌≤◌, ◌<◌, ◌≡◌, refl, Bool, true, ◌&&◌, Option, List, [], ◌∷◌, ◌++◌, arith, ltb, ◌==◌,
  if◌then◌else◌, elem, Outcome, returned, elem-append,
}
use pypto_serving.Cache.Queue.Refinement.{Holds, append-Holds, popleft-Pops}
use pypto_serving.Cache.Groups.{GroupPool}
use pypto_serving.Cache.Groups.Blocks.{take_group_block, claim}
use pypto_serving.Cache.Groups.Growth.{leave_block}
use pypto_serving.Cache.Groups.Growth.Counts.{count_block}

-- The queue of partition `q` holds `free`, which are the blocks of the partition without references.
-- `home` tells the blocks of the partition.
pub record Part (home : ℕ → Bool) (q : ℕ) (pool : GroupPool) (free : List ℕ) : Type 0 where
  pub queue : Holds (pool.free_queues q) free
  pub unreferenced : (b : ℕ) → elem b free ≡ (home b && (pool.ref_cnt b == 0))

-- The table holds blocks of the partition, with a reference for each slot.
pub record Owned (home : ℕ → Bool) (pool : GroupPool) (table : List (Option ℕ)) : Type 0 where
  pub counted : (b : ℕ) → count_block b table ≤ pool.ref_cnt b
  pub inside : (b : ℕ) → 0 < count_block b table → home b ≡ true

module _ (home : ℕ → Bool) (q : ℕ) where
  -- Taking from a partition that has a free block succeeds with the oldest one.
  pub record Takes (pool : GroupPool) (b : ℕ) (free : List ℕ) (r : Outcome (ℕ × GroupPool))
      : Type 0 where
    pub pool' : GroupPool
    pub result : r ≡ returned (b, pool')
    pub part : Part home q pool' free
    pub refs : (c : ℕ) → pool'.ref_cnt c ≡ (if b == c then 1 else pool.ref_cnt c)
    pub was_free : pool.ref_cnt b ≡ 0
    pub at_home : home b ≡ true

  pub take_group_block-Takes :
      (pool : GroupPool) (b : ℕ) (free : List ℕ)
      → Part home q pool (b ∷ free)
      → Takes pool b free (take_group_block pool q)
  unfolding take_group_block claim
  take_group_block-Takes pool b free v =
      let (queue, popped, holds) = popleft-Pops (pool.free_queues q) (b ∷ free) v.queue in
      let unused : pool.ref_cnt b ≡ 0 = ground (arith, v.unreferenced b) in
      record {
        pool' = claim pool q b queue;
        result = rw (popped, take_group_block) (ground arith);
        part = record {
          queue = ground (arith, holds);
          unreferenced = λ c. ground (arith, v.unreferenced c, v.unreferenced b, v.queue.distinct);
        };
        refs = λ c. refl;
        was_free = unused;
        at_home = ground (arith, v.unreferenced b);
      }

  -- The free blocks after a block of the table is left.
  abbrev pub left : GroupPool → ℕ → List ℕ → List ℕ
  left pool b free = if ltb 1 (pool.ref_cnt b) then free else free ++ b ∷ []

  pub leave_block-Part :
      (pool : GroupPool) (b : ℕ) (free : List ℕ)
      → Part home q pool free
      → home b ≡ true
      → 0 < pool.ref_cnt b
      → Part home q (leave_block pool q b) (left pool b free)
  unfolding leave_block
  leave_block-Part pool b free v h r = record {
    queue =
        ground (arith, append-Holds (pool.free_queues q) free b v.queue, v.queue, v.unreferenced b);
    unreferenced =
        λ c. ground (arith, v.unreferenced b, v.unreferenced c, elem-append c free (b ∷ []));
  }

  pub ref_cnt-leave_block :
      (pool : GroupPool) (b c : ℕ)
      → (leave_block pool q b).ref_cnt c ≡ (if b == c then pool.ref_cnt c - 1 else pool.ref_cnt c)
  unfolding leave_block
  ref_cnt-leave_block pool b c = ground arith
