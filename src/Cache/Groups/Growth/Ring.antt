-- ===== src/Cache/Groups/Growth/Ring.antt =====
-- The rotation of a ring of slots: each shared slot costs one free block, once.
use pypto_serving.Prelude.{
  max, ap, ℕ, zero, suc, ◌+◌, ◌-◌, ◌%◌, ◌≤◌, ◌<◌, ◌≡◌, ◌≢◌, refl, Bool, true, ◌⊎◌, inl, inr, Option,
  none, some, List, [], ◌∷◌, arith, ltb, ◌==◌, if◌then◌else◌, get_elem?, set, length, Outcome,
  returned, length-append, List-cases, Bool-cases,
}
use pypto_serving.Cache.Groups.{GroupPool}
use pypto_serving.Cache.Groups.Blocks.{take_group_block}
use pypto_serving.Cache.Groups.Growth.{
  is_shared, leave_block, rotate_slot, rotate_ring, slots_where,
}
use pypto_serving.Cache.Groups.Growth.Counts.{
  slots_step, slots_pos, slots_tail, count_block, count_block-pos, count_block-set, get_elem?-set,
  length-set,
}
use pypto_serving.Cache.Groups.Growth.Steps.{
  Part, Owned, Takes, take_group_block-Takes, left, leave_block-Part, ref_cnt-leave_block,
}

-- All slots below `size` hold a block.
abbrev pub Filled : ℕ → List (Option ℕ) → Type 0
Filled size table = (s : ℕ) → s < size → (b : ℕ) × (get_elem? table s ≡ some (some b))

pub cell-cases :
    (cell : Option (Option ℕ))
    → (cell ≡ none) ⊎ (cell ≡ some none) ⊎ ((c : ℕ) × (cell ≡ some (some c)))
cell-cases none = inl refl
cell-cases (some none) = inr (inl refl)
cell-cases (some (some c)) = inr (inr (c, refl))

-- The rewritten slot is no longer shared, and no other slot becomes so.
calmer_after :
    (pool pool' : GroupPool) (table : List (Option ℕ)) (slot b x : ℕ)
    → get_elem? table slot ≡ some (some b)
    → ((c : ℕ)
        → pool'.ref_cnt c
          ≡ (if x == c then 1 else if b == c then pool.ref_cnt c - 1 else pool.ref_cnt c))
    → (s : ℕ) → is_shared pool' (set table slot (some x)) s ≡ true
    → (is_shared pool table s ≡ true) × (slot ≢ s)
calmer_after pool pool' table slot b x at refs s h =
    let moved = get_elem?-set table slot s (some x) (some b) at in
    elim (cell-cases (get_elem? table s)) [
      | inl e ↦ ground (arith, moved, refs x)
      | inr (inl e) ↦ ground (arith, moved, refs x)
      | inr (inr (c, e)) ↦ ground (arith, moved, refs x, refs c)
    ]

module _ (home : ℕ → Bool) (q : ℕ) where
  record Rotated (pool : GroupPool) (table : List (Option ℕ)) (slot : ℕ) (free : List ℕ)
      (r : Outcome (List (Option ℕ) × GroupPool)) : Type 0 where
    table' : List (Option ℕ)
    pool' : GroupPool
    free' : List ℕ
    new : ℕ
    result : r ≡ returned (table', pool')
    part : Part home q pool' free'
    owned : Owned home pool' table'
    shape : table' ≡ set table slot (some new)
    room : length free' + (if is_shared pool table slot then 1 else 0) ≡ length free
    calmer :
        (s : ℕ) → is_shared pool' table' s ≡ true → (is_shared pool table s ≡ true) × (slot ≢ s)

  rotate_taken :
      (pool : GroupPool) (table : List (Option ℕ)) (slot b x : ℕ) (free rest : List ℕ)
      → Owned home pool table
      → get_elem? table slot ≡ some (some b)
      → left home q pool b free ≡ x ∷ rest
      → Takes home q (leave_block pool q b) x rest (take_group_block (leave_block pool q b) q)
      → Rotated pool table slot free (rotate_slot pool q table slot)
  unfolding rotate_slot
  rotate_taken pool table slot b x free rest o at e t = record {
    table' = set table slot (some x);
    pool' = t.pool';
    free' = rest;
    new = x;
    result = rw (at, rotate_slot) (rw t.result);
    part = t.part;
    owned = record {
      counted = λ c. ground (
        arith,
        o.counted c,
        o.counted b,
        count_block-pos table slot b at,
        count_block-set table slot b x c at,
        t.refs c,
        t.was_free,
        ref_cnt-leave_block home q pool b c,
        ref_cnt-leave_block home q pool b x,
      );
      inside = λ c. ground (arith, o.inside c, count_block-set table slot b x c at, t.at_home);
    };
    shape = refl;
    room = ground (arith, length-append free (b ∷ []));
    calmer =
        calmer_after pool t.pool' table slot b x at
          λ c. ground (arith, t.refs c, ref_cnt-leave_block home q pool b c);
  }

  rotate_slot-Rotated :
      (pool : GroupPool) (table : List (Option ℕ)) (slot b : ℕ) (free : List ℕ)
      → Part home q pool free
      → Owned home pool table
      → get_elem? table slot ≡ some (some b)
      → (is_shared pool table slot ≡ true → 0 < length free)
      → Rotated pool table slot free (rotate_slot pool q table slot)
  rotate_slot-Rotated pool table slot b free v o at enough =
      let held : 0 < count_block b table = count_block-pos table slot b at in
      let rest_part =
        leave_block-Part home q pool b free v (o.inside b held) (omega (arith, o.counted b)) in
      elim (List-cases (left home q pool b free)) [
        | inl e ↦ absurd (ground (arith, ap length e, length-append free (b ∷ []), enough))
        | inr (x, rest, e) ↦
            rotate_taken pool table slot b x free rest o at e
              (take_group_block-Takes home q (leave_block pool q b) x rest (rw e at rest_part))
      ]

  -- What the loop leaves: a partition in order, and a full table of owned blocks.
  pub record Grown (size len : ℕ) (r : Outcome (List (Option ℕ) × GroupPool)) : Type 0 where
    pub table' : List (Option ℕ)
    pub pool' : GroupPool
    pub free' : List ℕ
    pub result : r ≡ returned (table', pool')
    pub part : Part home q pool' free'
    pub owned : Owned home pool' table'
    pub filled : Filled size table'
    pub long : length table' ≡ len

  Filled-set :
      (size : ℕ) (table : List (Option ℕ)) (slot new b : ℕ)
      → Filled size table
      → get_elem? table slot ≡ some (some b)
      → Filled size (set table slot (some new))
  Filled-set size table slot new b f at s h = elim (Bool-cases (slot == s)) [
    | inl here ↦ (new, ground (arith, get_elem?-set table slot s (some new) (some b) at))
    | inr there ↦
        let (c, e) = f s h in
        (c, ground (arith, e, get_elem?-set table slot s (some new) (some b) at))
  ]

  -- The distinct shared slots ahead bound the free blocks that the loop needs.
  pub rotate_ring-Grown :
      (size len n i : ℕ) (pool : GroupPool) (table : List (Option ℕ)) (free : List ℕ)
      → Part home q pool free
      → Owned home pool table
      → Filled size table
      → length table ≡ len
      → 0 < size
      → length (slots_where (is_shared pool table) size n i) ≤ length free
      → Grown size len (rotate_ring size n i pool q table)
  unfolding rotate_ring
  rotate_ring-Grown size len zero i pool table free v o f l pos enough = record {
    table' = table;
    pool' = pool;
    free' = free;
    result = refl;
    part = v;
    owned = o;
    filled = f;
    long = l;
  }
  rotate_ring-Grown size len (suc n) i pool table free v o f l pos enough =
      elim (Bool-cases (ltb i size)) [
        | inl low ↦
            rw (low, rotate_ring)
              (rotate_ring-Grown size len n (i + 1) pool table free v o f l pos
                (slots_tail size n i (is_shared pool table) (length free) enough))
        | inr high ↦
            let slot = i % size in
            let (b, at) = f slot (grind arith) in
            let r =
              rotate_slot-Rotated pool table slot b free v o at
                (slots_pos size n i (is_shared pool table) (length free) high enough) in
            rw (high, r.result, rotate_ring)
              (rotate_ring-Grown size len n (i + 1) r.pool' r.table' r.free' r.part r.owned
                (rw r.shape (Filled-set size table slot r.new b f at))
                (omega (arith, ap length r.shape, length-set table slot (some r.new), l)) pos
                (slots_step size n i (is_shared pool table) (length free)
                  (is_shared r.pool' r.table') (length r.free') high enough r.calmer r.room))
      ]

-- Logical blocks below the ring's size rotate nothing.
pub rotate_ring_low :
    (size n i : ℕ) (pool : GroupPool) (q : ℕ) (table : List (Option ℕ))
    → i + n ≤ max size i
    → rotate_ring size n i pool q table ≡ returned (table, pool)
unfolding rotate_ring
rotate_ring_low size zero i pool q table h = refl
rotate_ring_low size (suc n) i pool q table h =
    let low : ltb i size ≡ true = ground arith in
    rw (low, rotate_ring) (rotate_ring_low size n (i + 1) pool q table (omega arith))
