-- ===== src/Cache/Pool/Validity.antt =====
-- The well-formed pools, and the single steps on blocks, which keep them.
use pypto_serving.Prelude.{
  elem-range_from, range_from-Distinct, ℕ, ◌<◌, ◌≡◌, ◌&&◌, some, List, [], ◌∷◌, ◌++◌, arith, ◌==◌,
  ltb, if◌then◌else◌, elem, elem-append, elem-erase, erase, range_from, refl, Bool,
}
use pypto_serving.Cache.Queue
use pypto_serving.Cache.Queue.Refinement.{
  empty-Holds, append_n-Holds, Holds, append-Holds, remove-Holds,
}
use pypto_serving.Cache.Pool.{
  fill_blocks, init, init_blocks, Pool, release, take_block, share, get_cached_block, cache_block,
}

-- The free queue holds `free`, which are exactly the blocks without references, and each entry of
-- the prefix index leads to a block that carries that hash.
pub record IsValid (p : Pool) (free : List ℕ) : Type 0 where
  pub queue : Holds p.queue free
  pub unreferenced : (b : ℕ) → elem b free ≡ (ltb b p.num_blocks && (p.ref_cnt b == 0))
  pub indexed : (h b : ℕ) → p.hash_to_block h ≡ some b → p.block_hash b ≡ some h
  pub in_range : (h b : ℕ) → p.hash_to_block h ≡ some b → b < p.num_blocks

-- The free blocks after a release: the last reference puts the block at the end.
abbrev pub released : Pool → ℕ → List ℕ → List ℕ
released p b free = if p.ref_cnt b == 1 then free ++ b ∷ [] else free

-- Releasing a block of a well-formed pool takes one reference if it has any; the last one makes it the
-- newest free block, and the pool stays well formed.
pub release-IsValid :
    (p : Pool) (free : List ℕ) (b : ℕ)
    → IsValid p free
    → b < p.num_blocks
    → IsValid (release p b) (released p b free)
unfolding release
release-IsValid p free b v h = record {
  queue = ground (arith, append-Holds p.queue free b v.queue, v.queue, v.unreferenced b);
  unreferenced =
      λ c. ground (arith, v.unreferenced b, v.unreferenced c, elem-append c free (b ∷ []));
  indexed = λ k c e. ground (arith, v.indexed k c);
  in_range = λ k c e. ground (arith, v.in_range k c);
}

-- The free blocks after a hit: the block is no longer evictable.
abbrev pub shared : Pool → ℕ → List ℕ → List ℕ
shared p b free = if p.ref_cnt b == 0 then erase b free else free

-- Taking a reference to a block of a well-formed pool leaves the pool well formed, with the block out of
-- the free queue.
pub share-IsValid :
    (p : Pool) (free : List ℕ) (b : ℕ)
    → IsValid p free
    → b < p.num_blocks
    → IsValid (share p b) (shared p b free)
unfolding share
share-IsValid p free b v h = record {
  queue = ground (arith, remove-Holds p.queue free b v.queue, v.queue);
  unreferenced =
      λ c. ground (arith, v.unreferenced b, v.unreferenced c, elem-erase b c free v.queue.distinct);
  indexed = λ k c e. ground (arith, v.indexed k c);
  in_range = λ k c e. ground (arith, v.in_range k c);
}

-- A hit is a block of the pool that carries the hash.
pub record Hit (p : Pool) (h b : ℕ) (p' : Pool) : Type 0 where
  pub carries : p.block_hash b ≡ some h
  pub within : b < p.num_blocks
  pub state : p' ≡ share p b

pub get_cached_block-Hit :
    (p : Pool) (free : List ℕ) (h b : ℕ) (p' : Pool)
    → IsValid p free
    → get_cached_block p h ≡ some (b, p')
    → Hit p h b p'
unfolding get_cached_block
get_cached_block-Hit p free h b p' v e = record {
  carries = ground (arith, v.indexed h b);
  within = ground (arith, v.in_range h b);
  state = ground arith;
}

-- Publishing a block of a well-formed pool under a hash, whatever hash it or another block had before,
-- leaves the pool well formed with the same free blocks.
pub cache_block-IsValid :
    (p : Pool) (free : List ℕ) (b h : ℕ)
    → IsValid p free
    → b < p.num_blocks
    → IsValid (cache_block p b h) free
unfolding cache_block
cache_block-IsValid p free b h v r = record {
  queue = ground (arith, v.queue);
  unreferenced = λ c. ground (arith, v.unreferenced c);
  indexed = λ k c. ground (arith, v.indexed k c, v.indexed k b);
  in_range = λ k c. ground (arith, v.in_range k c);
}

pub take_block-IsValid :
    (p : Pool) (b : ℕ) (free : List ℕ) (q : Queue.Queue)
    → IsValid p (b ∷ free)
    → Holds q free
    → IsValid (take_block p b q) free
unfolding take_block
take_block-IsValid p b free q v h = record {
  queue = h;
  unreferenced = λ c. ground (arith, v.unreferenced c, v.unreferenced b, v.queue.distinct);
  indexed = λ k c. ground (arith, v.indexed k c, v.indexed k b);
  in_range = λ k c. ground (arith, v.in_range k c);
}

-- A new manager accepts any dimensions once, and its pool is then well formed with every block free,
-- in the order of the ids.
pub init_blocks-IsValid :
    (block_size num_blocks size : ℕ) (on : Bool)
    → (init_blocks (init block_size on) num_blocks size
        ≡ some (fill_blocks (init block_size on) num_blocks size))
      × IsValid (fill_blocks (init block_size on) num_blocks size) (range_from 0 num_blocks)
unfolding init_blocks fill_blocks init
init_blocks-IsValid block_size num_blocks size on = (
  refl,
  record {
    queue =
        append_n-Holds Queue.empty [] (range_from 0 num_blocks) empty-Holds
          (range_from-Distinct 0 num_blocks);
    unreferenced = λ c. ground (arith, elem-range_from 0 num_blocks c);
    indexed = λ h b e. cc;
    in_range = λ h b e. cc;
  },
)
