-- ===== src/Cache/Hashes.antt =====
-- kv_cache.py, `hash_block_tokens`, `_iter_token_block_hashes`, `_iter_eagle_token_block_hashes`:
-- chained prefix hashes of full token blocks. Python's `hash` on the pair of the parent and the
-- block's tokens is the parameter `hash`, over a type `H` of hash values, with `NONE_HASH` as
-- `none_hash`. The generators also yield the block's index, which every caller drops. A block size
-- of 0, a `ZeroDivisionError` in the source, gives no block here.
pub mod Chain
pub mod Collisions
use pypto_serving.Prelude.{ℕ, zero, suc, ◌+◌, ◌-◌, ◌*◌, ◌/◌, List, [], ◌∷◌, length, take, drop}

-- `xs[start : end]`
abbrev pub slice {ℓ} : {A : Type ℓ} → List A → ℕ → ℕ → List A
slice xs start end = take (end - start) (drop start xs)

module _ {H : Type 0} (hash : H → List ℕ → H) where
  -- The loop from block `i`, with `n` blocks left; a block's hash covers `width` tokens.
  unfoldable pub hash_loop : List ℕ → ℕ → ℕ → ℕ → ℕ → H → List H
  hash_loop token_ids block_size width zero i parent_hash = []
  hash_loop token_ids block_size width (suc n) i parent_hash =
      let start = i * block_size in
      let block_hash = hash parent_hash (slice token_ids start (start + width)) in
      block_hash ∷ hash_loop token_ids block_size width n (i + 1) block_hash

module _ {H : Type 0} (hash : H → List ℕ → H) (none_hash : H) where
  unfoldable pub iter_token_block_hashes : List ℕ → ℕ → List H
  unfolding hash_loop
  iter_token_block_hashes token_ids block_size =
      let num_full_blocks = length token_ids / block_size in
      hash_loop hash token_ids block_size block_size num_full_blocks 0 none_hash

  unfoldable pub iter_eagle_token_block_hashes : List ℕ → ℕ → List H
  unfolding hash_loop
  iter_eagle_token_block_hashes token_ids block_size =
      let num_full_blocks = (length token_ids - 1) / block_size in
      hash_loop hash token_ids block_size (block_size + 1) num_full_blocks 0 none_hash
