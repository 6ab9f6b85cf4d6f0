-- ===== src/Cache/Queue.antt =====
-- kv_cache.py, `FreeKVCacheBlockQueue`: the doubly-linked queue of free blocks, in eviction order.
-- A block is named by its `block_id`, which is its index in `KvCacheManager.blocks`; comparing two
-- blocks compares the ids first, and these are unique. The fields `prev_free` and `next_free` of
-- all blocks are the two maps of the record.
mod Links
pub mod Refinement
pub use Links.{is_block, is_none}
use pypto_serving.Prelude.{
  ℕ, ◌+◌, ◌-◌, Bool, true, false, not, ◌&&◌, Option, none, some, List, [], ◌∷◌, ◌==◌, if◌then◌else◌,
}

-- `f[k] = v`
abbrev pub update {ℓ} : {V : Type ℓ} → (ℕ → V) → ℕ → V → ℕ → V
update f k v j = if k == j then v else f j

pub record Queue : Type 0 where
  pub head : Option ℕ
  pub tail : Option ℕ
  pub count : ℕ
  pub prev_free : ℕ → Option ℕ
  pub next_free : ℕ → Option ℕ

unfoldable pub empty : Queue
empty = record { head = none; tail = none; count = 0; prev_free = λ b. none; next_free = λ b. none }

-- `if o is not None: f[o] = v`
abbrev pub set_at : (ℕ → Option ℕ) → Option ℕ → Option ℕ → ℕ → Option ℕ
set_at f none v = f
set_at f (some k) v = update f k v

unfoldable pub append : Queue → ℕ → Queue
append q block = record {
  head = elim q.tail [ none ↦ some block | some t ↦ q.head ];
  tail = some block;
  count = q.count + 1;
  prev_free = update q.prev_free block q.tail;
  next_free = set_at (update q.next_free block none) q.tail (some block);
}

unfoldable pub append_n : Queue → List ℕ → Queue
unfolding append
append_n q [] = q
append_n q (block ∷ blocks) = append_n (append q block) blocks

-- The early return of `remove`.
abbrev pub unlinked : Queue → ℕ → Bool
unlinked q block =
    not (is_block q.head block)
    && not (is_block q.tail block)
    && is_none (q.prev_free block)
    && is_none (q.next_free block)

unlink : Queue → ℕ → Option ℕ → Option ℕ → Queue
unlink q block prev_b next_b = record {
  head = elim prev_b [ none ↦ next_b | some p ↦ q.head ];
  tail = elim next_b [ none ↦ prev_b | some n ↦ q.tail ];
  count = q.count - 1;
  prev_free = update (set_at q.prev_free next_b prev_b) block none;
  next_free = update (set_at q.next_free prev_b next_b) block none;
}

unfoldable pub remove : Queue → ℕ → Queue
unfolding unlink
remove q block =
    if unlinked q block then q else unlink q block (q.prev_free block) (q.next_free block)

unfoldable pub popleft : Queue → Option (ℕ × Queue)
popleft q = elim q.head [ none ↦ none | some block ↦ some (block, remove q block) ]
