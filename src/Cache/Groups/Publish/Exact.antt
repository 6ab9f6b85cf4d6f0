-- ===== src/Cache/Groups/Publish/Exact.antt =====
-- Publication keeps the prefix index exact.
use pypto_serving.Cache.Groups.Growth.Ring.{Filled}
use pypto_serving.Prelude.{
  ℕ, zero, suc, ◌+◌, ◌-◌, ◌<◌, ◌≤◌, ◌≡◌, refl, List, [], ◌∷◌, Option, some, Outcome, returned,
  arith, length, get_elem?, min, max, if◌then◌else◌, ◌%◌, Bool-cases, inl, inr, true, false,
}
use pypto_serving.Cache.Groups.{GroupPool, is_sliding}
use pypto_serving.Cache.Groups.Blocks.{cache_group_block}
use pypto_serving.Cache.Groups.Blocks.Index.{Indexed, cache_group_block-Published}
use pypto_serving.Cache.Groups.Growth.{owned_blocks, logical_count}
use pypto_serving.Cache.Groups.Publish.{publish_range, publishable, cache_pool, owned_page}

module _ (part_of : ℕ → ℕ) where
  -- The loop over pages that have a block of the partition, and a hash.
  publish_range-Indexed :
      (q : ℕ) (block_at : ℕ → Outcome ℕ) (hashes : List ℕ) (n index : ℕ) (pool : GroupPool)
      → Indexed part_of pool
      → ((i : ℕ)
          → index ≤ i
          → i < index + n
          → ((b : ℕ) × (block_at i ≡ returned b) × (part_of b ≡ q))
            × ((h : ℕ) × (get_elem? hashes i ≡ some h)))
      → (pool' : GroupPool) × (publish_range q block_at hashes n index pool ≡ returned pool')
        × Indexed part_of pool'
  unfolding publish_range
  publish_range-Indexed q block_at hashes zero index pool v pages = (pool, refl, v)
  publish_range-Indexed q block_at hashes (suc n) index pool v pages =
      let ((b, at, home), (h, e)) = pages index (omega arith) (omega arith) in
      let published = cache_group_block-Published part_of pool b h v in
      let (pool', r, w) =
        publish_range-Indexed q block_at hashes n (index + 1) (cache_group_block pool q b h)
          (rw home at published.indexed) (λ i low high. pages i (omega arith) (omega arith)) in
      (pool', simp (at, e) r, w)

get_elem?-lt {ℓ} :
    {A : Type ℓ} (xs : List A) (i : ℕ) → i < length xs → (x : A) × (get_elem? xs i ≡ some x)
get_elem?-lt [] i h = absurd (omega arith)
get_elem?-lt (x ∷ xs) zero h = (x, refl)
get_elem?-lt (x ∷ xs) (suc i) h = get_elem?-lt xs i (omega arith)

mod_lt : (c n : ℕ) → 0 < n → c % n < n
mod_lt c n h = grind arith

owned_page-returned :
    (pool : GroupPool) (owned : List (Option ℕ)) (i : ℕ)
    → Filled (length owned) owned
    → (if is_sliding pool then i % length owned else i) < length owned
    → (b : ℕ) × (owned_page pool owned i ≡ returned b)
      × (get_elem? owned (if is_sliding pool then i % length owned else i) ≡ some (some b))
unfolding owned_page
owned_page-returned pool owned i filled low =
    let (b, e) = filled (if is_sliding pool then i % length owned else i) low in
    (b, rw (e, owned_page) refl, e)

-- Publishing a request's full pages in one group raises no error, returns the number of full pages
-- whose hashes are known, and keeps the index exact. The index is exact before, the table has
-- no gaps and holds blocks of the partition, and it covers the published pages: all of them in a
-- full-history group, at least one slot in a rolling one.
pub cache_pool-Indexed :
    (part_of : ℕ → ℕ) (pool : GroupPool) (request_id q num_computed_tokens already : ℕ)
    (hashes : List ℕ)
    → Indexed part_of pool
    → Filled (length (owned_blocks pool request_id)) (owned_blocks pool request_id)
    → ((s b : ℕ) → get_elem? (owned_blocks pool request_id) s ≡ some (some b) → part_of b ≡ q)
    → (is_sliding pool ≡ false
        → publishable pool hashes num_computed_tokens ≤ length (owned_blocks pool request_id))
    → (is_sliding pool ≡ true → 0 < length (owned_blocks pool request_id))
    → (pool' : GroupPool) × (cache_pool request_id q hashes num_computed_tokens already pool
        ≡ returned (publishable pool hashes num_computed_tokens, pool'))
      × Indexed part_of pool'
unfolding cache_pool publishable
cache_pool-Indexed part_of pool request_id q num_computed_tokens already hashes v filled inside full
      rolling =
    let owned = owned_blocks pool request_id in
    let completed = publishable pool hashes num_computed_tokens in
    let fresh = min already completed in
    let start =
      if is_sliding pool then max fresh (logical_count pool request_id - length owned) else fresh in
    let slot_lt : (i : ℕ)
        → i < completed
        → (if is_sliding pool then i % length owned else i) < length owned =
      λ i h. elim (Bool-cases (is_sliding pool)) [
        | inl yes_rolling ↦ simp yes_rolling (mod_lt i (length owned) (rolling yes_rolling))
        | inr no_rolling ↦ simp no_rolling (omega (arith, h, full no_rolling))
      ] in
    let (pool', r, w) =
      publish_range-Indexed part_of q (owned_page pool owned) hashes (completed - start) start pool
        v
        λ i low high. (
          let (b, at, e) = owned_page-returned pool owned i filled (slot_lt i (omega arith)) in
              (b, at, inside _ b e),
          get_elem?-lt hashes i (omega arith),
        ) in
    (pool', simp r refl, w)
