-- ===== src/Cache/Groups/Growth/Suffices.antt =====
-- The admission test is enough: a table grows without a fault when its partition has as many free
-- blocks as `_additional_group_blocks` asks for.
use pypto_serving.Prelude.{
  ◌∙◌, sym, dec_lt, max, ℕ, ◌+◌, ◌-◌, ◌≤◌, ◌<◌, ◌≡◌, refl, Bool, true, false, Option, none, List,
  ◌++◌, arith, length, Outcome, returned, ◌>>=◌, take, replicate, min, lookup-insert_self,
}
use pypto_serving.Cache.Groups.{GroupPool, is_sliding, logical_group_blocks}
use pypto_serving.Cache.Groups.Growth.{
  store_table, is_shared, count_none, owned_blocks, logical_count, shared_slots, fill_slots,
  rotate_ring, additional_group_blocks, grow_pool,
}
use pypto_serving.Cache.Groups.Growth.Counts.{
  count_block-pad, count_none-pad, length-pad, is_shared-pad, slots_where_mono,
}
use pypto_serving.Cache.Groups.Growth.Steps.{Part, Owned}
use pypto_serving.Cache.Groups.Growth.Ring.{rotate_ring_low, Filled, rotate_ring-Grown}
use pypto_serving.Cache.Groups.Growth.Filling.{FilledUp, fill_slots-FilledUp}

module _ (home : ℕ → Bool) (q : ℕ) where
  -- What a growth returns: the partition in order, and the request's table with `size` slots, each
  -- with a block of the partition that has a reference for it.
  pub record Grows (request_id size len : ℕ) (r : Outcome GroupPool) : Type 0 where
    pub pool' : GroupPool
    pub free' : List ℕ
    pub result : r ≡ returned pool'
    pub part : Part home q pool' free'
    pub owned : Owned home pool' (owned_blocks pool' request_id)
    pub filled : Filled size (owned_blocks pool' request_id)
    pub long : length (owned_blocks pool' request_id) ≡ len

  Owned-pad :
      (pool : GroupPool) (k : ℕ) (table : List (Option ℕ))
      → Owned home pool table
      → Owned home pool (table ++ replicate k none)
  Owned-pad pool k table o = record {
    counted = λ b. omega (arith, o.counted b, count_block-pad b k table);
    inside = λ b h. o.inside b (omega (arith, h, count_block-pad b k table));
  }

  -- A request's own table, padded to `size` and filled.
  filled_table :
      (pool : GroupPool) (table : List (Option ℕ)) (size : ℕ) (free : List ℕ)
      → Part home q pool free
      → Owned home pool table
      → count_none (take size table) + (size - length table) ≤ length free
      → FilledUp home q pool
          (table ++ replicate (size - length table) none)
          size
          free
          (fill_slots size 0 pool q (table ++ replicate (size - length table) none))
  filled_table pool table size free v o enough =
      fill_slots-FilledUp home q size 0 size pool _ free (omega arith)
        (omega (arith, length-pad (size - length table) table)) v
        (Owned-pad pool (size - length table) table o) (λ s h. absurd (omega arith))
        (omega (arith, count_none-pad size (size - length table) table))

  finish :
      (pool : GroupPool) (request_id logical size len : ℕ) (table : List (Option ℕ)) (free : List ℕ)
      → Part home q pool free
      → Owned home pool table
      → Filled size table
      → length table ≡ len
      → Grows request_id size len (returned (store_table pool request_id q logical table))
  unfolding store_table
  finish pool request_id logical size len table free v o f l =
      let stored = lookup-insert_self request_id table pool.request_blocks in
      record {
        pool' = store_table pool request_id q logical table;
        free' = free;
        result = refl;
        part = record { queue = v.queue; unreferenced = v.unreferenced };
        owned = rw stored (record { counted = o.counted; inside = o.inside });
        filled = rw stored f;
        long = rw stored l;
      }

  -- A full-history table without gaps, and within its bound, grows without a fault when as many blocks
  -- of its partition are free as the admission test asks for: each slot then holds a block of the
  -- partition, with a reference for it.
  pub grow_pool-Grows_full :
      (pool : GroupPool) (request_id token_count : ℕ) (free : List ℕ)
      → is_sliding pool ≡ false
      → Part home q pool free
      → Owned home pool (owned_blocks pool request_id)
      → count_none (take (logical_group_blocks pool token_count) (owned_blocks pool request_id)) ≡ 0
      → logical_group_blocks pool token_count ≤ pool.max_blocks_per_seq
      → additional_group_blocks pool request_id token_count ≤ length free
      → Grows request_id
          (logical_group_blocks pool token_count)
          (max (length (owned_blocks pool request_id)) (logical_group_blocks pool token_count))
          (grow_pool pool request_id q (logical_group_blocks pool token_count))
  unfolding grow_pool additional_group_blocks
  grow_pool-Grows_full pool request_id token_count free full v o gapless fits enough =
      let target = logical_group_blocks pool token_count in
      let m = filled_table pool (owned_blocks pool request_id) target free v o (ground arith) in
      simp (full, m.result)
        (finish m.pool' request_id _ target _ m.table' m.free' m.part m.owned m.filled (
          omega (
            arith,
            m.long,
            length-pad (target - length (owned_blocks pool request_id))
                (owned_blocks pool request_id),
          )))

  rolled_table :
      (pool : GroupPool) (request_id previous target : ℕ) (owned : List (Option ℕ)) (free : List ℕ)
      → 0 < pool.max_blocks_per_seq
      → Part home q pool free
      → Owned home pool owned
      → (min target pool.max_blocks_per_seq - length owned)
          + count_none (take (min target pool.max_blocks_per_seq) owned)
          + length (shared_slots pool owned (target - previous) previous)
        ≤ length free
      → Grows request_id
          (min target pool.max_blocks_per_seq)
          (max (length owned) (min target pool.max_blocks_per_seq))
          (fill_slots
              (min target pool.max_blocks_per_seq)
              0
              pool
              q
              (owned ++ replicate (min target pool.max_blocks_per_seq - length owned) none)
            >>= λ filled.
                rotate_ring pool.max_blocks_per_seq (target - previous) previous filled.1 q filled.0
                >>= λ grown.
                    returned (store_table grown.1 request_id q (max previous target) grown.0))
  rolled_table pool request_id previous target owned free pos v o enough =
      let size = min target pool.max_blocks_per_seq in
      let m = filled_table pool owned size free v o (omega arith) in
      let padded : length m.table' ≡ max (length owned) size =
        omega (arith, m.long, length-pad (size - length owned) owned) in
      elim (dec_lt pool.max_blocks_per_seq target) [
        | no short ↦
            simp
              (
                m.result,
                rotate_ring_low pool.max_blocks_per_seq (target - previous) previous m.pool' q
                    m.table' (omega arith),
              )
              (finish m.pool' request_id _ size _ m.table' m.free' m.part m.owned m.filled padded)
        | yes long ↦
            let fewer =
              slots_where_mono (is_shared pool owned) (is_shared m.pool' m.table')
                pool.max_blocks_per_seq (target - previous) previous
                (λ s h. sym (is_shared-pad pool (size - length owned) owned s) ∙ m.calmer s h) in
            let g =
              rotate_ring-Grown home q pool.max_blocks_per_seq (max (length owned) size)
                (target - previous) previous m.pool' m.table' m.free' m.part m.owned
                (λ s h. m.filled s (omega arith)) padded pos
                (omega (arith, fewer, m.room, count_none-pad size (size - length owned) owned)) in
            simp (m.result, g.result)
              (finish g.pool' request_id _ size _ g.table' g.free' g.part g.owned
                (λ s h. g.filled s (omega arith)) g.long)
      ]

  -- A rolling table grows without a fault whenever as many blocks of its partition are free as the
  -- admission test asks for, however far the ring turns: each slot then holds a block of the
  -- partition, with a reference for it.
  pub grow_pool-Grows_rolling :
      (pool : GroupPool) (request_id token_count : ℕ) (free : List ℕ)
      → is_sliding pool ≡ true
      → 0 < pool.max_blocks_per_seq
      → Part home q pool free
      → Owned home pool (owned_blocks pool request_id)
      → additional_group_blocks pool request_id token_count ≤ length free
      → Grows request_id
          (min (logical_group_blocks pool token_count) pool.max_blocks_per_seq)
          (max
            (length (owned_blocks pool request_id))
            (min (logical_group_blocks pool token_count) pool.max_blocks_per_seq))
          (grow_pool pool request_id q (logical_group_blocks pool token_count))
  unfolding grow_pool additional_group_blocks
  grow_pool-Grows_rolling pool request_id token_count free rolling pos v o enough = simp rolling (
      rolled_table pool request_id (logical_count pool request_id)
        (logical_group_blocks pool token_count) (owned_blocks pool request_id) free pos v o
        (simp rolling at enough))
