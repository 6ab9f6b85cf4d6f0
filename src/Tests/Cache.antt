-- ===== src/Tests/Cache.antt =====
-- The block cache: a pool of four blocks, and a hash for runs.
use pypto_serving.Prelude.{
  ◌⊎◌, ◌-◌, ◌*◌, ℕ, ◌+◌, ◌/◌, ◌<◌, ◌≡◌, refl, true, some, List, [], ◌∷◌, arith, length, get_elem?,
}
use pypto_serving.Cache.Queue
use pypto_serving.Cache.Queue.{Queue}
use pypto_serving.Cache.Queue.Refinement.{
  Holds, Pops, empty-Holds, append_n-Holds, remove-Holds, popleft-Pops,
}
use pypto_serving.Cache.Hashes.{iter_token_block_hashes, iter_eagle_token_block_hashes}
use pypto_serving.Cache.Hashes.Collisions.{
  SamePrefix, Clash, iter_token_block_hashes-prefix, iter_eagle_token_block_hashes-prefix,
}
use pypto_serving.Cache.Pool.{
  get_cached_block, match_prefix, compute_block_hashes, fill_blocks, Pool, init, init_blocks,
  allocate_blocks, release_all, share, cache_block, get_computed_blocks,
}
use pypto_serving.Cache.Pool.Validity.{IsValid, init_blocks-IsValid, cache_block-IsValid}
use pypto_serving.Cache.Pool.Allocation.{Allocates, allocate_blocks-Allocates}
use pypto_serving.Cache.Pool.Release.{release_all-allocate_blocks}
use pypto_serving.Cache.Pool.Prefix.{
  MatchedUpTo, get_computed_blocks-MatchedUpTo, get_computed_blocks-lt,
}

-- The blocks 5, 6 and 7, in this order.
abbrev three_free : Queue
three_free = Queue.append_n Queue.empty (5 ∷ 6 ∷ 7 ∷ [])

three_free-Holds : Holds three_free (5 ∷ 6 ∷ 7 ∷ [])
three_free-Holds =
    append_n-Holds Queue.empty [] (5 ∷ 6 ∷ 7 ∷ []) empty-Holds (refl, (refl, (refl, tt)))

append_n-Holds_example : Holds (Queue.append_n three_free (1 ∷ 2 ∷ [])) (5 ∷ 6 ∷ 7 ∷ 1 ∷ 2 ∷ [])
append_n-Holds_example =
    append_n-Holds three_free (5 ∷ 6 ∷ 7 ∷ []) (1 ∷ 2 ∷ []) three_free-Holds
      (refl, (refl, (refl, (refl, (refl, tt)))))

remove-Holds_example : Holds (Queue.remove three_free 6) (5 ∷ 7 ∷ [])
remove-Holds_example = remove-Holds three_free (5 ∷ 6 ∷ 7 ∷ []) 6 three_free-Holds

popleft-Pops_example : Pops (5 ∷ 6 ∷ 7 ∷ []) (Queue.popleft three_free)
popleft-Pops_example = popleft-Pops three_free (5 ∷ 6 ∷ 7 ∷ []) three_free-Holds

-- A hash for runs on numbers, with collisions.
abbrev toy_hash : ℕ → List ℕ → ℕ
toy_hash parent tokens = parent * 1000 + length tokens

abbrev prompt : List ℕ
prompt = 11 ∷ 12 ∷ 13 ∷ 14 ∷ 15 ∷ []

abbrev longer : List ℕ
longer = 11 ∷ 12 ∷ 13 ∷ 14 ∷ 99 ∷ 98 ∷ []

iter_token_block_hashes-prefix_example :
    (get_elem? (iter_token_block_hashes toy_hash 0 prompt 2) 1
        ≡ get_elem? (iter_token_block_hashes toy_hash 0 longer 2) 1
      → SamePrefix toy_hash 0 prompt longer 2 2 1 1 ⊎ Clash toy_hash 0 prompt longer 2 2 1 1)
    × (SamePrefix toy_hash 0 prompt longer 2 2 1 1
        → get_elem? (iter_token_block_hashes toy_hash 0 prompt 2) 1
          ≡ get_elem? (iter_token_block_hashes toy_hash 0 longer 2) 1)
iter_token_block_hashes-prefix_example =
    iter_token_block_hashes-prefix toy_hash 0 prompt longer 2 1 1 (omega arith) (omega arith)

iter_eagle_token_block_hashes-prefix_example :
    (get_elem? (iter_eagle_token_block_hashes toy_hash 0 prompt 2) 1
        ≡ get_elem? (iter_eagle_token_block_hashes toy_hash 0 longer 2) 1
      → SamePrefix toy_hash 0 prompt longer 2 3 1 1 ⊎ Clash toy_hash 0 prompt longer 2 3 1 1)
    × (SamePrefix toy_hash 0 prompt longer 2 3 1 1
        → get_elem? (iter_eagle_token_block_hashes toy_hash 0 prompt 2) 1
          ≡ get_elem? (iter_eagle_token_block_hashes toy_hash 0 longer 2) 1)
iter_eagle_token_block_hashes-prefix_example =
    iter_eagle_token_block_hashes-prefix toy_hash 0 prompt longer 2 1 1 (omega arith) (omega arith)

-- Four blocks of two tokens.
abbrev four : Pool
four = fill_blocks (init 64 true) 4 2

four-IsValid : IsValid four (0 ∷ 1 ∷ 2 ∷ 3 ∷ [])
four-IsValid = (init_blocks-IsValid 64 4 2 true).1

allocate_blocks-Allocates_example :
    Allocates four (0 ∷ 1 ∷ 2 ∷ 3 ∷ []) [] 3 (allocate_blocks four 3)
allocate_blocks-Allocates_example =
    allocate_blocks-Allocates four (0 ∷ 1 ∷ 2 ∷ 3 ∷ []) 3 four-IsValid (omega arith)

release_all-allocate_blocks_example :
    (p' : Pool) × (allocate_blocks four 3 ≡ (some (0 ∷ 1 ∷ 2 ∷ []), p'))
    × IsValid (release_all p' (0 ∷ 1 ∷ 2 ∷ [])) (3 ∷ 0 ∷ 1 ∷ 2 ∷ [])
release_all-allocate_blocks_example =
    release_all-allocate_blocks four (0 ∷ 1 ∷ 2 ∷ 3 ∷ []) 3 four-IsValid (omega arith)

init_blocks-IsValid_example :
    (init_blocks (init 64 true) 4 2 ≡ some four) × IsValid four (0 ∷ 1 ∷ 2 ∷ 3 ∷ [])
init_blocks-IsValid_example = init_blocks-IsValid 64 4 2 true

-- The first block of `prompt` in the index, with no user left.
abbrev one_cached : Pool
one_cached = cache_block four 2 (toy_hash 0 (11 ∷ 12 ∷ []))

one_cached-IsValid : IsValid one_cached (0 ∷ 1 ∷ 2 ∷ 3 ∷ [])
unfolding fill_blocks init
one_cached-IsValid = cache_block-IsValid four (0 ∷ 1 ∷ 2 ∷ 3 ∷ []) 2 _ four-IsValid (omega arith)

hit_run : (get_computed_blocks toy_hash 0 one_cached prompt).0 ≡ 2 ∷ []
unfolding get_computed_blocks compute_block_hashes iter_token_block_hashes match_prefix
    get_cached_block cache_block fill_blocks init share Queue.remove
hit_run = refl

flag-one_cached : one_cached.enable_prefix_cache ≡ true
unfolding fill_blocks init cache_block
flag-one_cached = refl

get_computed_blocks-MatchedUpTo_example :
    MatchedUpTo one_cached
      (iter_token_block_hashes toy_hash 0 prompt one_cached.block_size)
      ((length prompt - 1) / one_cached.block_size)
      []
      (get_computed_blocks toy_hash 0 one_cached prompt)
get_computed_blocks-MatchedUpTo_example =
    get_computed_blocks-MatchedUpTo toy_hash 0 one_cached (0 ∷ 1 ∷ 2 ∷ 3 ∷ []) prompt
      one_cached-IsValid flag-one_cached

get_computed_blocks-lt_example :
    length (get_computed_blocks toy_hash 0 one_cached prompt).0 * one_cached.block_size
    < length prompt
get_computed_blocks-lt_example =
    get_computed_blocks-lt toy_hash 0 one_cached (0 ∷ 1 ∷ 2 ∷ 3 ∷ []) prompt one_cached-IsValid
      (omega arith)

cache_block-IsValid_example : IsValid (cache_block four 2 77) (0 ∷ 1 ∷ 2 ∷ 3 ∷ [])
unfolding fill_blocks init
cache_block-IsValid_example =
    cache_block-IsValid four (0 ∷ 1 ∷ 2 ∷ 3 ∷ []) 2 77 four-IsValid (omega arith)
