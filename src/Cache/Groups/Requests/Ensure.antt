-- ===== src/Cache/Groups/Requests/Ensure.antt =====
-- `ensure_group_blocks` against `can_ensure_group_blocks`: a request that is told it can grow does
-- grow, in every group.
use pypto_serving.Prelude.{
  All, Pairwise, Outcome, returned, map_outcome, refl, some, none, Option, List, [], ◌∷◌, ◌==◌, ltb,
  leb, ◌&&◌, ℕ, suc, ◌*◌, ◌/◌, ◌≤◌, ◌<◌, Bool, true, false, arith, ◌≡◌, length, elem, any, select,
  max, inl, inr, ap, List-cases, Bool-cases, take, map_outcome-Pairwise,
}
use pypto_serving.Cache.Groups.{
  GroupPool, Groups, is_sliding, num_free_blocks_in, local_block_id, logical_group_blocks,
}
use pypto_serving.Cache.Groups.Growth.{
  additional_group_blocks, owned_blocks, grow_pool, table_size, count_none, set_default,
}
use pypto_serving.Cache.Groups.Growth.Steps.{Part, Owned}
use pypto_serving.Cache.Groups.Growth.Ring.{Filled}
use pypto_serving.Cache.Groups.Growth.Suffices.{
  Grows, grow_pool-Grows_full, grow_pool-Grows_rolling,
}
use pypto_serving.Cache.Groups.Requests.{
  can_ensure_group_blocks, candidate_group_partitions, has_room, is_oversized, is_elsewhere,
  ensure_group_blocks, grow_all, block_ids, table_entry,
}

-- The blocks of a partition, by their global ids.
abbrev pub in_partition : GroupPool → ℕ → ℕ → Bool
in_partition pool q b =
    ltb b (pool.num_partitions * pool.blocks_per_partition) && b / pool.blocks_per_partition == q

-- A group before the growth: its partition is in order, the request's table holds blocks of it and
-- is no longer than the table to come, and only a rolling table has empty slots.
pub record Ready (request_id token_count q : ℕ) (pool : GroupPool) : Type 0 where
  pub free : List ℕ
  pub positive : 0 < pool.max_blocks_per_seq
  pub part : Part (in_partition pool q) q pool free
  pub owned : Owned (in_partition pool q) pool (owned_blocks pool request_id)
  pub gapless :
      is_sliding pool ≡ false → (n : ℕ) → count_none (take n (owned_blocks pool request_id)) ≡ 0
  pub short :
      length (owned_blocks pool request_id)
      ≤ table_size pool (logical_group_blocks pool token_count)

-- The group after it: every slot of a table of the right size has a block of the partition.
pub record GrownTo (request_id token_count q : ℕ) (pool pool' : GroupPool) : Type 0 where
  pub free : List ℕ
  pub part : Part (in_partition pool q) q pool' free
  pub owned : Owned (in_partition pool q) pool' (owned_blocks pool' request_id)
  pub long :
      length (owned_blocks pool' request_id)
      ≡ table_size pool (logical_group_blocks pool token_count)
  pub filled : Filled (length (owned_blocks pool' request_id)) (owned_blocks pool' request_id)

elem-select : (P : ℕ → Bool) (q : ℕ) (xs : List ℕ) → elem q (select P xs) ≡ true → P q ≡ true
elem-select P q [] h = ground arith
elem-select P q (x ∷ xs) h = ground (arith, elem-select P q xs)

GrownTo-Grows :
    (request_id token_count q size : ℕ) (pool : GroupPool) (r : Outcome GroupPool)
    → table_size pool (logical_group_blocks pool token_count) ≡ size
    → Ready request_id token_count q pool
    → Grows
        (in_partition pool q)
        q
        request_id
        size
        (max (length (owned_blocks pool request_id)) size)
        r
    → (pool' : GroupPool) × (r ≡ returned pool') × GrownTo request_id token_count q pool pool'
GrownTo-Grows request_id token_count q size pool r e ready g = (
  g.pool',
  g.result,
  record {
    free = g.free';
    part = g.part;
    owned = g.owned;
    long = omega (arith, g.long, ready.short, e);
    filled = λ s h. g.filled s (omega (arith, g.long, ready.short, e));
  },
)

grow_pool-GrownTo :
    (request_id token_count q : ℕ) (pool : GroupPool)
    → Ready request_id token_count q pool
    → is_oversized token_count pool ≡ false
    → leb (additional_group_blocks pool request_id token_count) (num_free_blocks_in pool q) ≡ true
    → (pool' : GroupPool) × (grow_pool pool request_id q (logical_group_blocks pool token_count)
        ≡ returned pool')
      × GrownTo request_id token_count q pool pool'
grow_pool-GrownTo request_id token_count q pool ready fits room =
    let enough : additional_group_blocks pool request_id token_count ≤ length ready.free =
      ground (arith, room, ready.part.queue.count) in
    elim (Bool-cases (is_sliding pool)) [
      | inl rolling ↦ GrownTo-Grows request_id token_count q _ pool _ (simp rolling refl) ready (
          grow_pool-Grows_rolling (in_partition pool q) q pool request_id token_count ready.free
            rolling ready.positive ready.part ready.owned enough)
      | inr full ↦ GrownTo-Grows request_id token_count q _ pool _ (simp full refl) ready (
          grow_pool-Grows_full (in_partition pool q) q pool request_id token_count ready.free full
            ready.part ready.owned (ready.gapless full _) (ground (arith, fits, full)) enough)
    ]

grow_pools-GrownTo :
    (request_id token_count q : ℕ) (pools : List GroupPool)
    → All (Ready request_id token_count q) pools
    → any (is_oversized token_count) pools ≡ false
    → has_room pools request_id token_count q ≡ true
    → All
        (λ pool.
          (pool' : GroupPool) × (grow_pool pool request_id q (logical_group_blocks pool token_count)
            ≡ returned pool')
          × GrownTo request_id token_count q pool pool')
        pools
unfolding has_room
grow_pools-GrownTo request_id token_count q [] ready fits room = tt
grow_pools-GrownTo request_id token_count q (pool ∷ pools) (ready, rest) fits room = (
  grow_pool-GrownTo request_id token_count q pool ready (ground (arith, fits))
      (ground (arith, room)),
  grow_pools-GrownTo request_id token_count q pools rest (ground (arith, fits))
      (ground (arith, room)),
)

-- A table without empty slots is given out whole.
table_entry-Filled :
    (pool : GroupPool) (xs : List (Option ℕ))
    → Filled (length xs) xs
    → (ids : List ℕ) × (map_outcome (table_entry pool) xs ≡ returned ids) × (length ids ≡ length xs)
table_entry-Filled pool [] f = ([], refl, refl)
table_entry-Filled pool (none ∷ xs) f = let (b, e) = f 0 (omega arith) in absurd cc
table_entry-Filled pool (some b ∷ xs) f =
    let (ids, e, l) = table_entry-Filled pool xs (λ s h. f (suc s) (omega arith)) in
    (local_block_id pool b ∷ ids, simp e refl, omega (arith, l))

block_ids-GrownTo :
    (request_id token_count q : ℕ) (pools pools' : List GroupPool)
    → Pairwise (GrownTo request_id token_count q) pools pools'
    → All
        (λ pool'.
          (ids : List ℕ) × (block_ids request_id pool' ≡ returned ids)
          × (length ids ≡ length (owned_blocks pool' request_id)))
        pools'
unfolding block_ids
block_ids-GrownTo request_id token_count q [] [] h = tt
block_ids-GrownTo request_id token_count q [] (pool' ∷ pools') h = absurd h
block_ids-GrownTo request_id token_count q (pool ∷ pools) [] h = absurd h
block_ids-GrownTo request_id token_count q (pool ∷ pools) (pool' ∷ pools') (g, h) = (
  table_entry-Filled pool' (owned_blocks pool' request_id) g.filled,
  block_ids-GrownTo request_id token_count q pools pools' h,
)

-- A growth that returned: every group has grown, the tables are given out whole, and the request is
-- assigned to a partition.
pub record Ensured (g : Groups) (request_id token_count q : ℕ)
    (r : Outcome (List (List ℕ) × Groups)) : Type 0 where
  pub ids : List (List ℕ)
  pub g' : Groups
  pub result : r ≡ returned (ids, g')
  pub grown : Pairwise (GrownTo request_id token_count q) g.pools g'.pools
  pub tables :
      Pairwise (λ pool' table. length table ≡ length (owned_blocks pool' request_id)) g'.pools ids

grow_all-Ensured :
    (g : Groups) (request_id token_count q : ℕ)
    → All (Ready request_id token_count q) g.pools
    → any (is_oversized token_count) g.pools ≡ false
    → has_room g.pools request_id token_count q ≡ true
    → Ensured g request_id token_count q (grow_all g request_id token_count q)
unfolding grow_all
grow_all-Ensured g request_id token_count q ready fits room =
    let (pools', grown, h) =
      map_outcome-Pairwise _ (GrownTo request_id token_count q) g.pools
        (grow_pools-GrownTo request_id token_count q g.pools ready fits room) in
    let (ids, given, t) =
      map_outcome-Pairwise (block_ids request_id)
        (λ pool' table. length table ≡ length (owned_blocks pool' request_id)) pools'
        (block_ids-GrownTo request_id token_count q g.pools pools' h) in
    record {
      ids = ids;
      g' = record g {
        pools = pools';
        group_request_partitions = set_default request_id q g.group_request_partitions;
      };
      result = simp (grown, given) refl;
      grown = h;
      tables = t;
    }

candidate-has_room :
    (g : Groups) (request_id token_count q : ℕ)
    → elem q (candidate_group_partitions g request_id token_count) ≡ true
    → has_room g.pools request_id token_count q ≡ true
unfolding candidate_group_partitions
candidate-has_room g request_id token_count q h =
    elem-select (has_room g.pools request_id token_count) q _ h

-- The guards that `can_ensure_group_blocks` and the size of the tables settle.
ensure-grow_all :
    (g : Groups) (request_id token_count q : ℕ)
    → 0 < length g.pools
    → any (is_oversized token_count) g.pools ≡ false
    → is_elsewhere g request_id q ≡ false
    → can_ensure_group_blocks g request_id token_count (some q) ≡ true
    → ensure_group_blocks g request_id token_count (some q) ≡ grow_all g request_id token_count q
unfolding ensure_group_blocks
ensure-grow_all g request_id token_count q some_pool fits here can = elim (List-cases g.pools) [
  | inl e ↦ absurd (omega (arith, ap length e))
  | inr (pool, rest, e) ↦ ground (arith, e, fits, here, can)
]

-- A request that can grow in a partition, by `can_ensure_group_blocks`, grows there: no error is
-- raised, every group's table has the size that the token count asks for with a referenced block of
-- the partition in each slot, and the tables are given out whole. The groups are in order before, and
-- no full-history table is asked for more than it may hold.
pub ensure_group_blocks-can_ensure :
    (g : Groups) (request_id token_count q : ℕ)
    → 0 < length g.pools
    → All (Ready request_id token_count q) g.pools
    → any (is_oversized token_count) g.pools ≡ false
    → can_ensure_group_blocks g request_id token_count (some q) ≡ true
    → Ensured g request_id token_count q (ensure_group_blocks g request_id token_count (some q))
unfolding can_ensure_group_blocks
ensure_group_blocks-can_ensure g request_id token_count q some_pool ready fits can =
    let here : is_elsewhere g request_id q ≡ false = ground (arith, can) in
    let room = candidate-has_room g request_id token_count q (ground (arith, can)) in
    rw (ensure-grow_all g request_id token_count q some_pool fits here can)
      (grow_all-Ensured g request_id token_count q ready fits room)
