-- ===== src/Cache/Groups/Blocks/Index.antt =====
-- The prefix index of a group: exactly the published blocks, each under its hash in its partition.
use pypto_serving.Prelude.{
  ℕ, ◌≡◌, Option, none, some, false, ◌==◌, arith, refl, ◌⊎◌, inl, inr, Bool-cases, ◌∙◌,
}
use pypto_serving.Cache.Groups.{GroupPool}
use pypto_serving.Cache.Groups.Blocks.{unindexed, invalidate_group_block, cache_group_block}

-- `part_of` tells the partition of a block.
pub record Indexed (part_of : ℕ → ℕ) (pool : GroupPool) : Type 0 where
  pub sound :
      (p h b : ℕ) → pool.hash_to_block p h ≡ some b → (pool.block_hash b ≡ some h) × (part_of b ≡ p)
  pub complete : (b h : ℕ) → pool.block_hash b ≡ some h → pool.hash_to_block (part_of b) h ≡ some b

Option-cases : (o : Option ℕ) → (o ≡ none) ⊎ ((x : ℕ) × (o ≡ some x))
Option-cases none = inl refl
Option-cases (some x) = inr (x, refl)

module _ (part_of : ℕ → ℕ) where
  pub invalidate-Indexed :
      (pool : GroupPool) (b : ℕ)
      → Indexed part_of pool
      → Indexed part_of (invalidate_group_block pool (part_of b) b)
  unfolding invalidate_group_block
  invalidate-Indexed pool b v = elim (Option-cases (pool.block_hash b)) [
    | inl unhashed ↦ record {
      sound = λ p h c e. ground (arith, unhashed, v.sound p h c, e);
      complete = λ c h e. ground (arith, unhashed, v.complete c h, e);
    }
    | inr (old, e) ↦
        let at = v.complete b old e in
        record {
          sound = λ p h c k. ground (arith, e, at, v.sound p h c, k);
          complete = λ c h k. ground (arith, e, at, v.complete c h, k);
        }
  ]

  -- The publication of a block under a hash.
  pub record Published (pool : GroupPool) (b h : ℕ) (pool' : GroupPool) : Type 0 where
    pub indexed : Indexed part_of pool'
    pub owner :
        pool'.hash_to_block (part_of b) h
        ≡ elim (pool.hash_to_block (part_of b) h) [ none ↦ some b | some existing ↦ some existing ]
    pub others : (c : ℕ) → (b == c) ≡ false → pool'.block_hash c ≡ pool.block_hash c

  publish_new :
      (pool : GroupPool) (b h : ℕ)
      → Indexed part_of pool
      → pool.hash_to_block (part_of b) h ≡ none
      → Published pool b h (cache_group_block pool (part_of b) b h)
  unfolding cache_group_block
  publish_new pool b h v new = elim (Option-cases (pool.block_hash b)) [
    | inl unhashed ↦ record {
      indexed = record {
        sound = λ p k c e. ground (arith, unhashed, new, v.sound p k c, e);
        complete = λ c k e. ground (arith, unhashed, new, v.complete c k, e);
      };
      owner = ground (arith, new);
      others = λ c e. ground (arith, new, e);
    }
    | inr (old, was) ↦
        let at = v.complete b old was in
        record {
          indexed = record {
            sound = λ p k c e. ground (arith, was, at, new, v.sound p k c, e);
            complete = λ c k e. ground (arith, was, at, new, v.complete c k, e);
          };
          owner = ground (arith, new);
          others = λ c e. ground (arith, new, e);
        }
  ]

  -- The entry of a hash that another block carries stays.
  known_stays :
      (pool : GroupPool) (b h existing : ℕ)
      → Indexed part_of pool
      → pool.hash_to_block (part_of b) h ≡ some existing
      → (existing == b) ≡ false
      → unindexed pool (part_of b) b (part_of b) h ≡ some existing
  known_stays pool b h existing v known other = elim (Option-cases (pool.block_hash b)) [
    | inl unhashed ↦ ground (arith, unhashed, known)
    | inr (old, was) ↦ ground (arith, was, v.complete b old was, known, other)
  ]

  publish_known :
      (pool : GroupPool) (b h existing : ℕ)
      → Indexed part_of pool
      → pool.hash_to_block (part_of b) h ≡ some existing
      → Published pool b h (cache_group_block pool (part_of b) b h)
  unfolding cache_group_block invalidate_group_block
  publish_known pool b h existing v known = elim (Bool-cases (existing == b)) [
    | inl same ↦
        rw (known, cache_group_block)
          (simp same (record { indexed = v; owner = simp known refl; others = λ c e. refl }))
    | inr other ↦
        let w = invalidate-Indexed pool b v in
        rw (known, cache_group_block)
          (simp other (record {
            indexed = w;
            owner = known_stays pool b h existing v known other ∙ simp known refl;
            others = λ c e. ground (arith, e);
          }))
  ]

  -- Publishing a block under a hash keeps the index exact: it leads from each hash of a partition to
  -- the one block of the partition that carries the hash. The block becomes the owner of the hash,
  -- unless the hash has one, which stays; no other block's hash changes. The index is exact before.
  pub cache_group_block-Published :
      (pool : GroupPool) (b h : ℕ)
      → Indexed part_of pool
      → Published pool b h (cache_group_block pool (part_of b) b h)
  cache_group_block-Published pool b h v = elim (Option-cases (pool.hash_to_block (part_of b) h)) [
    | inl new ↦ publish_new pool b h v new
    | inr (existing, known) ↦ publish_known pool b h existing v known
  ]
