-- ===== src/Cache/Groups/Acquire/Hits.antt =====
-- The best hit of a grouped lookup over the partitions, and what the request takes of it.
use pypto_serving.Prelude.{
  Option, ◌<◌, subst, Option-cases, ℕ, ◌*◌, ◌-◌, ◌%◌, ◌≤◌, ◌≡◌, refl, true, false, none, some, List,
  [], ◌∷◌, ltb, ◌==◌, elem, arith, length, range_from, Bool-cases, inl, inr, returned,
}
use pypto_serving.Cache.Groups.{GroupPool, Groups}
use pypto_serving.Cache.Groups.Requests.{group_partition_count}
use pypto_serving.Cache.Groups.Acquire.Alignment.{AllDivide, AllDivide-alignment_from}
use pypto_serving.Cache.Groups.Acquire.Resuming.{AllResume}
use pypto_serving.Cache.Groups.Acquire.{
  alignment_from, partition_hit, GroupHit, best_hit, Acquired, miss, take_hit, is_assigned, no_hit,
  acquire_group_prefix_blocks,
}
use pypto_serving.Cache.Groups.Acquire.Candidates.{
  IsAligned, partition_hit-IsAligned, partition_hit-IsLongest,
}

module _ (pools : List GroupPool) (hashes : List (List ℕ)) (alignment : ℕ) where
  -- A hit with its partition: nothing, or a partition of the list where all groups can resume.
  abbrev pub Found : List ℕ → Option ℕ → ℕ → Type 0
  Found partitions none hit = hit ≡ 0
  Found partitions (some p) hit =
      (elem p partitions ≡ true) × (0 < hit) × AllResume p hit pools hashes

  -- The best hit: no partition of the list can be resumed behind more whole alignments.
  pub record IsBest (limit : ℕ) (partitions : List ℕ) (partition : Option ℕ) (hit : ℕ)
      : Type 0 where
    pub aligned : IsAligned alignment limit hit
    pub found : Found partitions partition hit
    pub longest :
        (p m : ℕ)
        → elem p partitions ≡ true
        → m * alignment ≤ limit
        → AllResume p (m * alignment) pools hashes
        → m * alignment ≤ hit

  module _ (limit : ℕ) (all : List ℕ) (d : AllDivide alignment pools) where
    replaced-Found :
        (partition n : ℕ)
        → elem partition all ≡ true
        → n < (partition_hit pools hashes alignment limit partition).0
        → Found all (some partition) (partition_hit pools hashes alignment limit partition).0
    replaced-Found partition n there longer =
        let v = partition_hit-IsLongest pools hashes alignment limit partition d in
        elim v.found [
          | inl nothing ↦ absurd (omega (arith, longer, nothing))
          | inr resumes ↦ (there, omega (arith, longer), resumes)
        ]

    -- What the loop over the partitions keeps.
    record Improves (partitions : List ℕ) (best r : GroupHit) : Type 0 where
      grown : best.hit_tokens ≤ r.hit_tokens
      aligned : IsAligned alignment limit r.hit_tokens
      found : Found all r.partition r.hit_tokens
      longest :
          (p m : ℕ)
          → elem p partitions ≡ true
          → m * alignment ≤ limit
          → AllResume p (m * alignment) pools hashes
          → m * alignment ≤ r.hit_tokens

    best_hit-Improves :
        (partitions : List ℕ) (best : GroupHit)
        → ((p : ℕ) → elem p partitions ≡ true → elem p all ≡ true)
        → IsAligned alignment limit best.hit_tokens
        → Found all best.partition best.hit_tokens
        → Improves partitions best (best_hit pools hashes alignment limit partitions best)
    unfolding best_hit
    best_hit-Improves [] best within a f = record {
      grown = omega arith;
      aligned = a;
      found = f;
      longest = λ p m h. absurd (ground (arith, h));
    }
    best_hit-Improves (partition ∷ partitions) best within a f =
        let found = partition_hit pools hashes alignment limit partition in
        let here = within partition (ground arith) in
        let rest = λ (p : ℕ) (h : elem p partitions ≡ true). within p (ground (arith, h)) in
        let own = partition_hit-IsLongest pools hashes alignment limit partition d in
        elim (Bool-cases (ltb best.hit_tokens found.0)) [
          | inl longer ↦
              let more : best.hit_tokens < found.0 = ground (arith, longer) in
              let v =
                best_hit-Improves partitions
                  (record { partition = some partition; hit_tokens = found.0; tables = found.1 })
                  rest (partition_hit-IsAligned pools hashes alignment limit partition)
                  (replaced-Found partition best.hit_tokens here more) in
              rw (longer, best_hit)
                (record {
                  grown = omega (arith, v.grown, more);
                  aligned = v.aligned;
                  found = v.found;
                  longest = λ p m h l r. elim (Bool-cases (partition == p)) [
                    | inl same ↦
                        let e : p ≡ partition = ground (arith, same) in
                        let r' = subst (λ (q : ℕ). AllResume q (m * alignment) pools hashes) e r in
                        omega (arith, own.longest m l r', v.grown)
                    | inr other ↦ v.longest p m (ground (arith, h, other)) l r
                  ];
                })
          | inr shorter ↦
              let less : found.0 ≤ best.hit_tokens = ground (arith, shorter) in
              let v = best_hit-Improves partitions best rest a f in
              rw (shorter, best_hit)
                (record {
                  grown = v.grown;
                  aligned = v.aligned;
                  found = v.found;
                  longest = λ p m h l r. elim (Bool-cases (partition == p)) [
                    | inl same ↦
                        let e : p ≡ partition = ground (arith, same) in
                        let r' = subst (λ (q : ℕ). AllResume q (m * alignment) pools hashes) e r in
                        omega (arith, own.longest m l r', v.grown, less)
                    | inr other ↦ v.longest p m (ground (arith, h, other)) l r
                  ];
                })
        ]

-- The limit of a grouped lookup: whole alignments only.
abbrev pub hit_limit : Groups → ℕ → ℕ
hit_limit g max_cache_hit_tokens =
    max_cache_hit_tokens - max_cache_hit_tokens % alignment_from 1 g.pools

-- What the request takes is the best hit.
take_hit-IsBest :
    (g : Groups) (request_id : ℕ) (hashes : List (List ℕ)) (alignment limit : ℕ)
    (partitions : List ℕ) (hit : GroupHit)
    → IsBest g.pools hashes alignment limit partitions hit.partition hit.hit_tokens
    → IsBest g.pools hashes alignment limit partitions
        (take_hit g request_id hit).partition
        (take_hit g request_id hit).hit_tokens
unfolding take_hit
take_hit-IsBest g request_id hashes alignment limit partitions hit v =
    elim (Option-cases hit.partition) [
      | inl nowhere ↦
          let nothing : hit.hit_tokens ≡ 0 = simp nowhere at v.found in
          rw (nowhere, take_hit)
            (record {
              aligned = record { rounds = 0; whole = omega arith; within = omega arith };
              found = refl;
              longest = λ p m h l r. omega (arith, v.longest p m h l r, nothing);
            })
      | inr (partition, there) ↦
          rw (there, take_hit)
            (record { aligned = v.aligned; found = simp there at v.found; longest = v.longest })
    ]

-- With the prefix cache on, at least one group and a list of hashes for each, a request that holds no
-- grouped blocks is looked up without an error. The hit is a whole number of alignments within the
-- limit, which is the largest whole number of alignments up to `max_cache_hit_tokens`. Where it is not 0, all groups can
-- resume behind it in its partition: a full history has a hash and a block in the partition's index
-- for every page of the hit, and no more pages than a table holds; a rolling group has a hash for
-- every page and a block in the index for the pages of its window. In no partition can all groups
-- resume behind a longer whole number of alignments within the limit.
pub acquire_group_prefix_blocks-IsBest :
    (g : Groups) (request_id : ℕ) (block_hashes : List (List ℕ)) (max_cache_hit_tokens : ℕ)
    → g.enable_prefix_cache ≡ true
    → (length g.pools == 0) ≡ false
    → is_assigned g request_id ≡ false
    → (length block_hashes == length g.pools) ≡ true
    → (a : Acquired) × (acquire_group_prefix_blocks g request_id block_hashes max_cache_hit_tokens
        ≡ returned a)
      × IsBest g.pools block_hashes
          (alignment_from 1 g.pools)
          (hit_limit g max_cache_hit_tokens)
          (range_from 0 (group_partition_count g))
          a.partition
          a.hit_tokens
unfolding acquire_group_prefix_blocks
acquire_group_prefix_blocks-IsBest g request_id block_hashes max_tokens on grouped free match =
    let alignment = alignment_from 1 g.pools in
    let limit = hit_limit g max_tokens in
    let partitions = range_from 0 (group_partition_count g) in
    elim (Bool-cases (limit == 0)) [
      | inl nothing ↦
          let none_left : limit ≡ 0 = ground (arith, nothing) in
          (
            miss g,
            simp (on, grouped, free, match, nothing) refl,
            record {
              aligned = record { rounds = 0; whole = omega arith; within = omega arith };
              found = refl;
              longest = λ p m h l r. omega (arith, l, none_left);
            },
          )
      | inr something ↦
          let best = best_hit g.pools block_hashes alignment limit partitions no_hit in
          let v =
            best_hit-Improves g.pools block_hashes alignment limit partitions
              (AllDivide-alignment_from g.pools) partitions no_hit (λ p h. h)
              (record { rounds = 0; whole = omega arith; within = omega arith }) refl in
          (
            take_hit g request_id best,
            simp (on, grouped, free, match, something) refl,
            take_hit-IsBest g request_id block_hashes alignment limit partitions best
                (record { aligned = v.aligned; found = v.found; longest = v.longest }),
          )
    ]
