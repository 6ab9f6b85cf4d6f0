-- ===== src/Cache/Hashes/Chain.antt =====
-- A chained hash stands for the whole prefix of the tokens.
use pypto_serving.Prelude.{
  ℕ, zero, suc, ◌+◌, ◌-◌, ◌*◌, ◌/◌, ◌≤◌, ◌<◌, ◌≡◌, sym, ◌∙◌, ap, ap₂, subst, some, List, ◌++◌,
  arith, length, take, drop, get_elem?, take-add, take-eq_of_le, take-drop,
}
use pypto_serving.Cache.Hashes.{
  slice, hash_loop, iter_token_block_hashes, iter_eagle_token_block_hashes,
}

module _ {H : Type 0} (hash : H → List ℕ → H) (none_hash : H) where
  -- The hash of the first `n` blocks, by recursion on `n`.
  unfoldable pub chain_hash : List ℕ → ℕ → ℕ → ℕ → H
  chain_hash token_ids block_size width zero = none_hash
  chain_hash token_ids block_size width (suc n) =
      hash (chain_hash token_ids block_size width n)
        (slice token_ids (n * block_size) (n * block_size + width))

  get_elem?-hash_loop :
      (ts : List ℕ) (bs w n i k : ℕ)
      → k < n
      → get_elem? (hash_loop hash ts bs w n i (chain_hash ts bs w i)) k
        ≡ some (chain_hash ts bs w (suc (i + k)))
  unfolding hash_loop chain_hash
  get_elem?-hash_loop ts bs w zero i k h = elim h [ ]
  get_elem?-hash_loop ts bs w (suc n) i zero h = let e : i + 0 ≡ i = omega arith in rw e
  get_elem?-hash_loop ts bs w (suc n) i (suc k) h =
      let e : i + suc k ≡ (i + 1) + k = omega arith in
      let e' : i + 1 ≡ suc i = omega arith in
      rw e (rw e' (get_elem?-hash_loop ts bs w n (suc i) k (omega arith)))

  -- The block hash at index `i` is the chained hash of the first `i + 1` blocks.
  pub get_elem?-iter :
      (ts : List ℕ) (bs i : ℕ)
      → i < length ts / bs
      → get_elem? (iter_token_block_hashes hash none_hash ts bs) i
        ≡ some (chain_hash ts bs bs (suc i))
  unfolding iter_token_block_hashes chain_hash
  get_elem?-iter ts bs i h =
      let e : 0 + i ≡ i = omega arith in
      subst
        (λ (k : ℕ).
          get_elem? (iter_token_block_hashes hash none_hash ts bs) i
          ≡ some (chain_hash ts bs bs (suc k)))
        e (get_elem?-hash_loop ts bs bs (length ts / bs) 0 i h)

  pub get_elem?-iter_eagle :
      (ts : List ℕ) (bs i : ℕ)
      → i < (length ts - 1) / bs
      → get_elem? (iter_eagle_token_block_hashes hash none_hash ts bs) i
        ≡ some (chain_hash ts bs (bs + 1) (suc i))
  unfolding iter_eagle_token_block_hashes chain_hash
  get_elem?-iter_eagle ts bs i h =
      let e : 0 + i ≡ i = omega arith in
      subst
        (λ (k : ℕ).
          get_elem? (iter_eagle_token_block_hashes hash none_hash ts bs) i
          ≡ some (chain_hash ts bs (bs + 1) (suc k)))
        e (get_elem?-hash_loop ts bs (bs + 1) ((length ts - 1) / bs) 0 i h)

  -- A slice depends on the tokens before its end only.
  slice-prefix :
      (ts us : List ℕ) (s w : ℕ)
      → take (s + w) ts ≡ take (s + w) us
      → slice ts s (s + w) ≡ slice us s (s + w)
  slice-prefix ts us s w e =
      let d : s + w - s ≡ w = omega arith in
      rw d (take-drop s w ts ∙ ap (λ (r : List ℕ). drop s r) e ∙ sym (take-drop s w us))

  pub chain_hash-prefix :
      (ts us : List ℕ) (bs w n : ℕ)
      → bs ≤ w
      → take (n * bs + w) ts ≡ take (n * bs + w) us
      → chain_hash ts bs w (suc n) ≡ chain_hash us bs w (suc n)
  unfolding chain_hash
  chain_hash-prefix ts us bs w zero h e = ap (hash none_hash) (slice-prefix ts us (zero * bs) w e)
  chain_hash-prefix ts us bs w (suc n) h e =
      ap₂ hash
        (chain_hash-prefix ts us bs w n h
          (take-eq_of_le (suc n * bs + w) (n * bs + w) ts us (grind arith) e))
        (slice-prefix ts us (suc n * bs) w e)

  pub take-slice : (ts : List ℕ) (s w : ℕ) → take (s + w) ts ≡ take s ts ++ slice ts s (s + w)
  take-slice ts s w = let d : s + w - s ≡ w = omega arith in rw d (take-add s w ts)
