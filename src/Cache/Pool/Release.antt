-- ===== src/Cache/Pool/Release.antt =====
-- Blocks that are released come back to the end of the free queue.
use mathlib.Core.List.{append-nil, append_assoc}
use pypto_serving.Prelude.{
  ◌-◌, ℕ, ◌≤◌, ◌<◌, ◌≡◌, true, some, List, [], ◌∷◌, ◌++◌, arith, ◌==◌, if◌then◌else◌, elem,
  Distinct, length, take, drop, Distinct-take, elem-take,
}
use pypto_serving.Cache.Pool.{Pool, release, release_all, allocate_blocks}
use pypto_serving.Cache.Pool.Validity.{IsValid, released, release-IsValid}
use pypto_serving.Cache.Pool.Allocation.{allocate_blocks-Allocates}

-- The blocks `bs` are blocks of the pool with one reference each.
abbrev pub OwnedOnce : Pool → List ℕ → Type 0
OwnedOnce p bs = (b : ℕ) → elem b bs ≡ true → (b < p.num_blocks) × (p.ref_cnt b ≡ 1)

ref_cnt-release :
    (p : Pool) (b c : ℕ)
    → (release p b).ref_cnt c ≡ (if b == c then p.ref_cnt c - 1 else p.ref_cnt c)
unfolding release
ref_cnt-release p b c = ground arith

num_blocks-release : (p : Pool) (b : ℕ) → (release p b).num_blocks ≡ p.num_blocks
unfolding release
num_blocks-release p b = ground arith

-- Distinct blocks with one reference each become free, in that order.
pub release_all-IsValid :
    (p : Pool) (free bs : List ℕ)
    → IsValid p free
    → Distinct bs
    → OwnedOnce p bs
    → IsValid (release_all p bs) (free ++ bs)
unfolding release_all
release_all-IsValid p free [] v d o = rw append-nil v
release_all-IsValid p free (b ∷ bs) v d o =
    let own : (b < p.num_blocks) × (p.ref_cnt b ≡ 1) = o b (ground arith) in
    let last : released p b free ≡ free ++ b ∷ [] = ground arith in
    rw (← append_assoc free (b ∷ []) bs) (
      release_all-IsValid (release p b) (free ++ b ∷ []) bs
        (rw (← last) (release-IsValid p free b v own.0)) d.1
        λ c m. ground (arith, o c, ref_cnt-release p b c, num_blocks-release p b))

-- What an allocation takes and a release gives back: the pool is well formed with the same free
-- blocks, rotated by the allocation.
pub release_all-allocate_blocks :
    (p : Pool) (free : List ℕ) (n : ℕ)
    → IsValid p free
    → n ≤ length free
    → (p' : Pool) × (allocate_blocks p n ≡ (some (take n free), p'))
      × IsValid (release_all p' (take n free)) (drop n free ++ take n free)
release_all-allocate_blocks p free n v h =
    let (p', result, valid, taken) = allocate_blocks-Allocates p free n v h in
    (
      p',
      result,
      release_all-IsValid p' (drop n free) (take n free) valid
          (Distinct-take n free v.queue.distinct)
          λ b m. (
            ground (arith, v.unreferenced b, elem-take n free b m, taken.size),
            ground (arith, taken.refs b),
          ),
    )
