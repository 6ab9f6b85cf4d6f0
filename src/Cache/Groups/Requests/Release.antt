-- ===== src/Cache/Groups/Requests/Release.antt =====
-- `release_all_group_requests`: a request gives back one reference for each slot of its tables.
use pypto_serving.Cache.Queue.{update}
use pypto_serving.Prelude.{
  All, Pairwise, Outcome, returned, fold_outcome, refl, some, none, Option, List, [], ◌∷◌, ◌++◌,
  ◌==◌, if◌then◌else◌, ℕ, ◌+◌, ◌-◌, ◌<◌, Bool, true, arith, ◌≡◌, ◌∙◌, elem-append, lookup, without,
  inl, inr, Bool-cases, map_outcome-Pairwise, lookup-without_self,
}
use pypto_serving.Cache.Queue
use pypto_serving.Cache.Queue.Refinement.{append-Holds}
use pypto_serving.Cache.Groups.{GroupPool, Groups}
use pypto_serving.Cache.Groups.Blocks.{drop_reference, set_queue}
use pypto_serving.Cache.Groups.Growth.{owned_blocks}
use pypto_serving.Cache.Groups.Growth.Counts.{count_block}
use pypto_serving.Cache.Groups.Growth.Steps.{Part, Owned}
use pypto_serving.Cache.Groups.Requests.{
  release_cell, release_pool, release_all_group_requests, forget_request,
}
use pypto_serving.Cache.Groups.Requests.Ensure.{in_partition}

-- The three dictionaries by request are the same.
pub record SameDictionaries (pool pool' : GroupPool) : Type 0 where
  pub blocks : pool'.request_blocks ≡ pool.request_blocks
  pub partitions : pool'.request_partitions ≡ pool.request_partitions
  pub counts : pool'.request_logical_blocks ≡ pool.request_logical_blocks

SameDictionaries-trans :
    (p q r : GroupPool) → SameDictionaries p q → SameDictionaries q r → SameDictionaries p r
SameDictionaries-trans p q r s t = record {
  blocks = t.blocks ∙ s.blocks;
  partitions = t.partitions ∙ s.partitions;
  counts = t.counts ∙ s.counts;
}

module _ (home : ℕ → Bool) (q : ℕ) where
  -- One reference less, and the partition is in order again.
  record Dropped (pool : GroupPool) (b : ℕ) (r : Outcome GroupPool) : Type 0 where
    pool' : GroupPool
    free' : List ℕ
    result : r ≡ returned pool'
    part : Part home q pool' free'
    refs : (c : ℕ) → pool'.ref_cnt c ≡ (if b == c then pool.ref_cnt c - 1 else pool.ref_cnt c)
    dictionaries : SameDictionaries pool pool'

  drop_reference-Dropped :
      (pool : GroupPool) (b : ℕ) (free : List ℕ)
      → Part home q pool free
      → home b ≡ true
      → 0 < pool.ref_cnt b
      → Dropped pool b (drop_reference pool q b)
  unfolding drop_reference
  drop_reference-Dropped pool b free v at_home held = elim (Bool-cases (pool.ref_cnt b == 1)) [
    | inl last ↦ record {
      pool' =
          set_queue (record pool { ref_cnt = update pool.ref_cnt b (pool.ref_cnt b - 1) }) q
            (Queue.append (pool.free_queues q) b);
      free' = free ++ b ∷ [];
      result = ground arith;
      part = record {
        queue =
            ground
              (arith, append-Holds (pool.free_queues q) free b v.queue, v.queue, v.unreferenced b);
        unreferenced =
            λ c. ground (arith, v.unreferenced b, v.unreferenced c, elem-append c free (b ∷ []));
      };
      refs = λ c. ground arith;
      dictionaries = record { blocks = refl; partitions = refl; counts = refl };
    }
    | inr more ↦ record {
      pool' = record pool { ref_cnt = update pool.ref_cnt b (pool.ref_cnt b - 1) };
      free' = free;
      result = ground arith;
      part = record {
        queue = v.queue;
        unreferenced = λ c. ground (arith, v.unreferenced b, v.unreferenced c);
      };
      refs = λ c. ground arith;
      dictionaries = record { blocks = refl; partitions = refl; counts = refl };
    }
  ]

  -- What the loop over a table gives back.
  pub record Released (pool : GroupPool) (cells : List (Option ℕ)) (r : Outcome GroupPool)
      : Type 0 where
    pub pool' : GroupPool
    pub free' : List ℕ
    pub result : r ≡ returned pool'
    pub part : Part home q pool' free'
    pub refs : (b : ℕ) → pool'.ref_cnt b + count_block b cells ≡ pool.ref_cnt b
    pub dictionaries : SameDictionaries pool pool'

  release_cells-Released :
      (cells : List (Option ℕ)) (pool : GroupPool) (free : List ℕ)
      → Part home q pool free
      → Owned home pool cells
      → Released pool cells (fold_outcome (release_cell q) pool cells)
  unfolding release_cell
  release_cells-Released [] pool free v o = record {
    pool' = pool;
    free' = free;
    result = refl;
    part = v;
    refs = λ b. omega arith;
    dictionaries = record { blocks = refl; partitions = refl; counts = refl };
  }
  release_cells-Released (none ∷ cells) pool free v o =
      let m =
        release_cells-Released cells pool free v
          (record { counted = o.counted; inside = o.inside }) in
      record {
        pool' = m.pool';
        free' = m.free';
        result = m.result;
        part = m.part;
        refs = m.refs;
        dictionaries = m.dictionaries;
      }
  release_cells-Released (some b ∷ cells) pool free v o =
      let d =
        drop_reference-Dropped pool b free v (o.inside b (ground arith))
          (ground (arith, o.counted b)) in
      let m = release_cells-Released cells d.pool' d.free' d.part (record {
        counted = λ c. ground (arith, o.counted c, d.refs c);
        inside = λ c h. o.inside c (ground arith);
      }) in
      record {
        pool' = m.pool';
        free' = m.free';
        result = simp d.result m.result;
        part = m.part;
        refs = λ c. ground (arith, m.refs c, d.refs c, o.counted c);
        dictionaries = SameDictionaries-trans pool d.pool' m.pool' d.dictionaries m.dictionaries;
      }

-- A group in which the request has a table in partition `q`.
pub record Held (request_id q : ℕ) (pool : GroupPool) : Type 0 where
  pub free : List ℕ
  pub part : Part (in_partition pool q) q pool free
  pub owned : Owned (in_partition pool q) pool (owned_blocks pool request_id)
  pub assigned : lookup request_id pool.request_partitions ≡ some q

-- The group after the request is gone: each block has lost a reference for each of its slots, the
-- blocks without references are free, and none of the three dictionaries by request has it.
pub record GivenBack (request_id q : ℕ) (pool pool' : GroupPool) : Type 0 where
  pub free : List ℕ
  pub part : Part (in_partition pool q) q pool' free
  pub refs :
      (b : ℕ) → pool'.ref_cnt b + count_block b (owned_blocks pool request_id) ≡ pool.ref_cnt b
  pub no_blocks : lookup request_id pool'.request_blocks ≡ none
  pub no_partition : lookup request_id pool'.request_partitions ≡ none
  pub no_count : lookup request_id pool'.request_logical_blocks ≡ none

release_pool-GivenBack :
    (request_id q : ℕ) (pool : GroupPool)
    → Held request_id q pool
    → (pool' : GroupPool) × (release_pool request_id pool ≡ returned pool')
      × GivenBack request_id q pool pool'
unfolding release_pool
release_pool-GivenBack request_id q pool held =
    let m =
      release_cells-Released (in_partition pool q) q (owned_blocks pool request_id)
        (forget_request request_id pool) held.free
        (record { queue = held.part.queue; unreferenced = held.part.unreferenced })
        (record { counted = held.owned.counted; inside = held.owned.inside }) in
    let given : release_pool request_id pool ≡ returned m.pool' =
      rw (held.assigned, release_pool) m.result in
    (
      m.pool',
      given,
      record {
        free = m.free';
        part = m.part;
        refs = m.refs;
        no_blocks = rw m.dictionaries.blocks (lookup-without_self request_id pool.request_blocks);
        no_partition =
            rw m.dictionaries.partitions (lookup-without_self request_id pool.request_partitions);
        no_count =
            rw m.dictionaries.counts (lookup-without_self request_id pool.request_logical_blocks);
      },
    )

release_pools-GivenBack :
    (request_id q : ℕ) (pools : List GroupPool)
    → All (Held request_id q) pools
    → All
        (λ pool.
          (pool' : GroupPool) × (release_pool request_id pool ≡ returned pool')
          × GivenBack request_id q pool pool')
        pools
release_pools-GivenBack request_id q [] h = tt
release_pools-GivenBack request_id q (pool ∷ pools) (held, h) =
    (release_pool-GivenBack request_id q pool held, release_pools-GivenBack request_id q pools h)

-- Releasing a request whose tables are in order raises no error in any group: every block loses
-- exactly one reference for each table slot that holds it, the blocks left without a reference
-- are the free ones of the partition, and no dictionary by request, in a group or of the manager,
-- has the request any more.
pub release_all_group_requests-GivenBack :
    (g : Groups) (request_id q : ℕ)
    → All (Held request_id q) g.pools
    → (g' : Groups) × (release_all_group_requests g request_id ≡ returned g')
      × Pairwise (GivenBack request_id q) g.pools g'.pools
      × (lookup request_id g'.group_request_partitions ≡ none)
unfolding release_all_group_requests
release_all_group_requests-GivenBack g request_id q h =
    let (pools', e, r) =
      map_outcome-Pairwise (release_pool request_id) (GivenBack request_id q) g.pools
        (release_pools-GivenBack request_id q g.pools h) in
    (
      record g {
        pools = pools';
        group_request_partitions = without request_id g.group_request_partitions;
      },
      simp e refl,
      r,
      lookup-without_self request_id g.group_request_partitions,
    )
