-- ===== src/Cache/Groups/Growth/Filling.antt =====
-- The empty slots of a table get new blocks: each costs one free block.
use pypto_serving.Prelude.{
  ℕ, zero, suc, ◌+◌, ◌≤◌, ◌<◌, ◌≡◌, refl, Bool, true, inl, inr, Option, none, some, List, [], ◌∷◌,
  arith, ◌==◌, if◌then◌else◌, get_elem?, set, length, Outcome, returned, List-cases, Bool-cases,
  take, ap,
}
use pypto_serving.Cache.Groups.{GroupPool}
use pypto_serving.Cache.Groups.Growth.{is_shared, fill_slots, count_none}
use pypto_serving.Cache.Groups.Growth.Counts.{
  get_elem?-set, get_elem?-none, length-set, count_none-set, count_block-set-none,
}
use pypto_serving.Cache.Groups.Growth.Steps.{Part, Owned, Takes, take_group_block-Takes}
use pypto_serving.Cache.Groups.Growth.Ring.{Filled, cell-cases}

Filled-count_none :
    (n : ℕ) (table : List (Option ℕ)) → Filled n table → count_none (take n table) ≡ 0
Filled-count_none zero table f = refl
Filled-count_none (suc n) [] f = refl
Filled-count_none (suc n) (none ∷ table) f = let (b, e) = f 0 (omega arith) in cc
Filled-count_none (suc n) (some a ∷ table) f =
    Filled-count_none n table (λ s h. f (suc s) (omega arith))

module _ (home : ℕ → Bool) (q : ℕ) where
  -- What the loop leaves: a full table of owned blocks, in which no further slot is shared.
  pub record FilledUp (pool : GroupPool) (table : List (Option ℕ)) (size : ℕ) (free : List ℕ)
      (r : Outcome (List (Option ℕ) × GroupPool)) : Type 0 where
    pub table' : List (Option ℕ)
    pub pool' : GroupPool
    pub free' : List ℕ
    pub result : r ≡ returned (table', pool')
    pub part : Part home q pool' free'
    pub owned : Owned home pool' table'
    pub filled : Filled size table'
    pub long : length table' ≡ length table
    pub room : length free' + count_none (take size table) ≡ length free
    pub calmer : (s : ℕ) → is_shared pool' table' s ≡ true → is_shared pool table s ≡ true

  -- A new block in an empty slot is not shared.
  calmer_fill :
      (pool pool' : GroupPool) (table : List (Option ℕ)) (slot x : ℕ)
      → get_elem? table slot ≡ some none
      → pool.ref_cnt x ≡ 0
      → ((c : ℕ) → pool'.ref_cnt c ≡ (if x == c then 1 else pool.ref_cnt c))
      → (s : ℕ) → is_shared pool' (set table slot (some x)) s ≡ true
      → is_shared pool table s ≡ true
  calmer_fill pool pool' table slot x at unused refs s h =
      let moved = get_elem?-set table slot s (some x) none at in
      elim (cell-cases (get_elem? table s)) [
        | inl e ↦ ground (arith, moved, refs x)
        | inr (inl e) ↦ ground (arith, moved, refs x)
        | inr (inr (c, e)) ↦ ground (arith, moved, refs x, refs c)
      ]

  Filled-suc :
      (slot b : ℕ) (table : List (Option ℕ))
      → Filled slot table
      → get_elem? table slot ≡ some (some b)
      → Filled (slot + 1) table
  Filled-suc slot b table f at s h = elim (Bool-cases (slot == s)) [
    | inl here ↦ (b, ground arith)
    | inr there ↦ f s (ground arith)
  ]

  Filled-fill :
      (slot x : ℕ) (table : List (Option ℕ))
      → Filled slot table
      → get_elem? table slot ≡ some none
      → Filled (slot + 1) (set table slot (some x))
  Filled-fill slot x table f at s h = elim (Bool-cases (slot == s)) [
    | inl here ↦ (x, ground (arith, get_elem?-set table slot s (some x) none at))
    | inr there ↦
        let (c, e) = f s (ground arith) in
        (c, ground (arith, e, get_elem?-set table slot s (some x) none at))
  ]

  Owned-fill :
      (pool pool' : GroupPool) (table : List (Option ℕ)) (slot x : ℕ)
      → Owned home pool table
      → get_elem? table slot ≡ some none
      → pool.ref_cnt x ≡ 0
      → home x ≡ true
      → ((c : ℕ) → pool'.ref_cnt c ≡ (if x == c then 1 else pool.ref_cnt c))
      → Owned home pool' (set table slot (some x))
  Owned-fill pool pool' table slot x o at unused at_home refs = record {
    counted = λ c. ground (arith, o.counted c, count_block-set-none table slot x c at, refs c);
    inside = λ c. ground (arith, o.inside c, count_block-set-none table slot x c at);
  }

  FilledUp-fill :
      (pool : GroupPool) (table : List (Option ℕ)) (slot size x : ℕ) (rest : List ℕ)
      (taken : Outcome (ℕ × GroupPool)) (r : Outcome (List (Option ℕ) × GroupPool))
      (t : Takes home q pool x rest taken)
      → slot < size
      → get_elem? table slot ≡ some none
      → FilledUp t.pool' (set table slot (some x)) size rest r
      → FilledUp pool table size (x ∷ rest) r
  FilledUp-fill pool table slot size x rest taken r t low gap m = record {
    table' = m.table';
    pool' = m.pool';
    free' = m.free';
    result = m.result;
    part = m.part;
    owned = m.owned;
    filled = m.filled;
    long = omega (arith, m.long, length-set table slot (some x));
    room = omega (arith, m.room, count_none-set size table slot x low gap);
    calmer = λ s h. calmer_fill pool t.pool' table slot x gap t.was_free t.refs s (m.calmer s h);
  }

  -- One round on an empty slot, where `next` is the rest of the loop.
  fill_gap :
      (n slot size : ℕ) (pool : GroupPool) (table : List (Option ℕ)) (free : List ℕ)
      → slot + suc n ≡ size
      → get_elem? table slot ≡ some none
      → count_none (take size table) ≤ length free
      → Part home q pool free
      → Owned home pool table
      → Filled slot table
      → ((pool' : GroupPool) (x : ℕ) (rest : List ℕ)
          → Part home q pool' rest
          → Owned home pool' (set table slot (some x))
          → count_none (take size (set table slot (some x))) ≤ length rest
          → FilledUp pool'
              (set table slot (some x))
              size
              rest
              (fill_slots n (slot + 1) pool' q (set table slot (some x))))
      → FilledUp pool table size free (fill_slots (suc n) slot pool q table)
  unfolding fill_slots
  fill_gap n slot size pool table free e gap enough v o f next = elim (List-cases free) [
    | inl none_left ↦
        absurd
          (omega (arith, ap length none_left, count_none-set size table slot 0 (omega arith) gap))
    | inr (x, rest, some_left) ↦
        let t = take_group_block-Takes home q pool x rest (rw some_left at v) in
        let step = count_none-set size table slot x (omega arith) gap in
        rw (gap, t.result, fill_slots)
          (rw some_left (
            FilledUp-fill pool table slot size x rest _ _ t (omega arith) gap (
              next t.pool' x rest t.part
                (Owned-fill pool t.pool' table slot x o gap t.was_free t.at_home t.refs)
                (omega (arith, step, ap length some_left)))))
  ]

  -- One free block for each empty slot suffices.
  pub fill_slots-FilledUp :
      (n slot size : ℕ) (pool : GroupPool) (table : List (Option ℕ)) (free : List ℕ)
      → slot + n ≡ size
      → size ≤ length table
      → Part home q pool free
      → Owned home pool table
      → Filled slot table
      → count_none (take size table) ≤ length free
      → FilledUp pool table size free (fill_slots n slot pool q table)
  unfolding fill_slots
  fill_slots-FilledUp zero slot size pool table free e long v o f enough = record {
    table' = table;
    pool' = pool;
    free' = free;
    result = refl;
    part = v;
    owned = o;
    filled = λ s h. f s (omega arith);
    long = refl;
    room = omega (arith, Filled-count_none size table (λ s h. f s (omega arith)));
    calmer = λ s h. h;
  }
  fill_slots-FilledUp (suc n) slot size pool table free e long v o f enough =
      elim (cell-cases (get_elem? table slot)) [
        | inl out ↦ absurd (omega (arith, get_elem?-none table slot out))
        | inr (inl gap) ↦
            fill_gap n slot size pool table free e gap enough v o f λ pool' x rest v' o' fewer.
              fill_slots-FilledUp n (slot + 1) size pool' (set table slot (some x)) rest
                (omega arith) (omega (arith, length-set table slot (some x))) v' o'
                (Filled-fill slot x table f gap) fewer
        | inr (inr (b, at)) ↦
            rw (at, fill_slots)
              (fill_slots-FilledUp n (slot + 1) size pool table free (omega arith) long v o
                (Filled-suc slot b table f at) enough)
      ]
