-- ===== src/Sched/Blocks/Counts.antt =====
-- The generic pool under the scheduler's calls: what they do to the reference counts.
use pypto_serving.Prelude.{
  ℕ, zero, suc, ◌+◌, ◌-◌, ◌≤◌, ◌<◌, ◌≡◌, refl, ◌∙◌, ap, true, Option, some, List, [], ◌∷◌, ◌++◌,
  arith, ◌==◌, ltb, if◌then◌else◌, count, elem, Distinct, get_elem?, Option-cases, Bool-cases, inl,
  inr,
}
use pypto_serving.Cache.Pool.{
  Pool, release, release_ids, release_blocks_by_ids, cache_block, cache_loop, cache_block_ids,
}
use pypto_serving.Cache.Pool.Validity.{IsValid, released, release-IsValid, cache_block-IsValid}

pub count-append : (b : ℕ) (xs ys : List ℕ) → count b (xs ++ ys) ≡ count b xs + count b ys
count-append b [] ys = omega arith
count-append b (x ∷ xs) ys = omega (arith, count-append b xs ys)

pub count-Distinct : (b : ℕ) (xs : List ℕ) → Distinct xs → count b xs ≡ (if elem b xs then 1 else 0)
count-Distinct b [] d = refl
count-Distinct b (x ∷ xs) d = ground (arith, count-Distinct b xs d.1, d.0)

-- The pool after blocks were released: each has lost a reference for each time it is listed.
pub record Unreferenced (p : Pool) (blocks : List ℕ) (r : Option Pool) : Type 0 where
  pub p' : Pool
  pub free : List ℕ
  pub result : r ≡ some p'
  pub valid : IsValid p' free
  pub refs : (b : ℕ) → p'.ref_cnt b + count b blocks ≡ p.ref_cnt b
  pub size : p'.num_blocks ≡ p.num_blocks
  pub flag : p'.enable_prefix_cache ≡ p.enable_prefix_cache
  pub granule : p'.block_size ≡ p.block_size

refs-release :
    (p : Pool) (b c : ℕ)
    → (release p b).ref_cnt c ≡ (if b == c then p.ref_cnt c - 1 else p.ref_cnt c)
unfolding release
refs-release p b c = ground arith

rest-release :
    (p : Pool) (b : ℕ)
    → ((release p b).num_blocks ≡ p.num_blocks)
      × ((release p b).enable_prefix_cache ≡ p.enable_prefix_cache)
      × ((release p b).block_size ≡ p.block_size)
unfolding release
rest-release p b = (ground arith, ground arith, ground arith)

-- Blocks that are listed at most as often as they have references.
pub release_ids-Unreferenced :
    (p : Pool) (free blocks : List ℕ)
    → IsValid p free
    → ((b : ℕ) → count b blocks ≤ p.ref_cnt b)
    → ((b : ℕ) → 0 < count b blocks → b < p.num_blocks)
    → Unreferenced p blocks (release_ids p blocks)
unfolding release_ids
release_ids-Unreferenced p free [] v enough inside = record {
  p' = p;
  free = free;
  result = refl;
  valid = v;
  refs = λ b. omega arith;
  size = refl;
  flag = refl;
  granule = refl;
}
release_ids-Unreferenced p free (x ∷ blocks) v enough inside =
    let w : x < p.num_blocks = inside x (ground arith) in
    let (size, flag, granule) = rest-release p x in
    let m =
      release_ids-Unreferenced (release p x) (released p x free) blocks
        (release-IsValid p free x v w) (λ b. ground (arith, enough b, refs-release p x b))
        (λ b h. ground (arith, inside b, size)) in
    let there : ltb x p.num_blocks ≡ true = ground arith in
    record {
      p' = m.p';
      free = m.free;
      result = simp there m.result;
      valid = m.valid;
      refs = λ b. ground (arith, m.refs b, refs-release p x b, enough b);
      size = m.size ∙ size;
      flag = m.flag ∙ flag;
      granule = m.granule ∙ granule;
    }

-- The release of two lists, one after the other.
pub release_blocks-Unreferenced :
    (p : Pool) (free xs ys : List ℕ)
    → IsValid p free
    → ((b : ℕ) → count b (xs ++ ys) ≤ p.ref_cnt b)
    → ((b : ℕ) → 0 < count b (xs ++ ys) → b < p.num_blocks)
    → Unreferenced p (xs ++ ys) (release_blocks_by_ids p (xs ∷ ys ∷ []))
unfolding release_blocks_by_ids
release_blocks-Unreferenced p free xs ys v enough inside =
    let first =
      release_ids-Unreferenced p free xs v (λ b. omega (arith, enough b, count-append b xs ys))
        (λ b h. inside b (omega (arith, h, count-append b xs ys))) in
    let second =
      release_ids-Unreferenced first.p' first.free ys first.valid
        (λ b. omega (arith, enough b, count-append b xs ys, first.refs b))
        (λ b h. omega (arith, inside b (omega (arith, h, count-append b xs ys)), first.size)) in
    record {
      p' = second.p';
      free = second.free;
      result =
          rw (first.result, release_blocks_by_ids) (rw (second.result, release_blocks_by_ids) refl);
      valid = second.valid;
      refs = λ b. omega (arith, second.refs b, first.refs b, count-append b xs ys);
      size = second.size ∙ first.size;
      flag = second.flag ∙ first.flag;
      granule = second.granule ∙ first.granule;
    }

get_elem?-count : (xs : List ℕ) (i b : ℕ) → get_elem? xs i ≡ some b → 0 < count b xs
get_elem?-count [] i b e = absurd cc
get_elem?-count (x ∷ xs) zero b e = ground (arith, e)
get_elem?-count (x ∷ xs) (suc i) b e = omega (arith, get_elem?-count xs i b e)

unchanged : (p : Pool) (free : List ℕ) → IsValid p free → Unreferenced p [] (some p)
unchanged p free v = record {
  p' = p;
  free = free;
  result = refl;
  valid = v;
  refs = λ b. omega arith;
  size = refl;
  flag = refl;
  granule = refl;
}

rest-cache_block :
    (p : Pool) (b h : ℕ)
    → ((cache_block p b h).num_blocks ≡ p.num_blocks)
      × ((cache_block p b h).enable_prefix_cache ≡ p.enable_prefix_cache)
      × ((cache_block p b h).block_size ≡ p.block_size)
      × ((cache_block p b h).ref_cnt ≡ p.ref_cnt)
unfolding cache_block
rest-cache_block p b h = elim (Bool-cases p.enable_prefix_cache) [
  | inl on ↦ (ground (arith, on), ground (arith, on), ground (arith, on), ground (arith, on))
  | inr off ↦ (ground (arith, off), ground (arith, off), ground (arith, off), ground (arith, off))
]

-- Publishing blocks of the pool touches no reference.
cache_loop-Unreferenced :
    (n idx : ℕ) (p : Pool) (free block_ids block_hashes : List ℕ)
    → IsValid p free
    → ((b : ℕ) → 0 < count b block_ids → b < p.num_blocks)
    → Unreferenced p [] (cache_loop n p block_ids block_hashes idx)
unfolding cache_loop
cache_loop-Unreferenced zero idx p free ids hashes v inside = unchanged p free v
cache_loop-Unreferenced (suc n) idx p free ids hashes v inside =
    elim (Option-cases (get_elem? hashes idx)) [
      | inl over ↦ rw (over, cache_loop) (unchanged p free v)
      | inr (h, at) ↦ elim (Option-cases (get_elem? ids idx)) [
        | inl out ↦ rw (at, cache_loop) (rw (out, cache_loop) (unchanged p free v))
        | inr (b, e) ↦
            let w : b < p.num_blocks = inside b (get_elem?-count ids idx b e) in
            let there : ltb b p.num_blocks ≡ true = ground arith in
            let (size, flag, granule, refs) = rest-cache_block p b h in
            let m =
              cache_loop-Unreferenced n (idx + 1) (cache_block p b h) free ids hashes
                (cache_block-IsValid p free b h v w) (λ c k. omega (arith, inside c k, size)) in
            rw (at, cache_loop)
              (rw (e, cache_loop)
                (record {
                  p' = m.p';
                  free = m.free;
                  result = simp there m.result;
                  valid = m.valid;
                  refs = λ c. omega (arith, m.refs c, ap (λ (f : ℕ → ℕ). f c) refs);
                  size = m.size ∙ size;
                  flag = m.flag ∙ flag;
                  granule = m.granule ∙ granule;
                }))
      ]
    ]

pub cache_block_ids-Unreferenced :
    (p : Pool) (free block_ids block_hashes : List ℕ) (start end : ℕ)
    → IsValid p free
    → ((b : ℕ) → 0 < count b block_ids → b < p.num_blocks)
    → Unreferenced p [] (cache_block_ids p block_ids block_hashes start end)
unfolding cache_block_ids
cache_block_ids-Unreferenced p free ids hashes start end v inside =
    elim (Bool-cases p.enable_prefix_cache) [
      | inl on ↦ simp on (cache_loop-Unreferenced (end - start) start p free ids hashes v inside)
      | inr off ↦ simp off (unchanged p free v)
    ]
