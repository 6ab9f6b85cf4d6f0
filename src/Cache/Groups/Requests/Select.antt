-- ===== src/Cache/Groups/Requests/Select.antt =====
-- The choice of a partition for a new request, `_select_group_partition`.
use pypto_serving.Prelude.{
  Outcome, returned, refl, some, none, Option, List, [], ◌∷◌, ◌==◌, ℕ, zero, suc, ◌+◌, ◌-◌, ◌%◌,
  ◌<◌, ◌≤◌, Bool, true, arith, ◌≡◌, elem, min, inl, inr, ◌⊎◌, Bool-cases, List-cases, dec_lt,
  select, range_from, elem-range_from,
}
use pypto_serving.Cache.Groups.{GroupPool, Groups}
use pypto_serving.Cache.Groups.Requests.{
  group_partition_count, assigned_partition, candidate_group_partitions, has_room, owned_count,
  minimum, find_partition, least_loaded, select_least_loaded, select_group_partition,
}

low_mod : (c n : ℕ) → c < n → c % n ≡ c
low_mod c n h = grind arith

wrapped_mod : (c n : ℕ) → c < n → (c + n) % n ≡ c
wrapped_mod c n h = grind arith

mod_lt : (c n : ℕ) → 0 < n → c % n < n
mod_lt c n h = grind arith

-- The search finds a partition if one of its rounds meets one.
find_partition-some :
    (test : ℕ → Bool) (size next n offset k : ℕ)
    → k < n
    → test ((next + (offset + k)) % size) ≡ true
    → (p : ℕ) × (find_partition test size next n offset ≡ some p) × (test p ≡ true)
unfolding find_partition
find_partition-some test size next zero offset k h t = absurd (omega arith)
find_partition-some test size next (suc n) offset k h t =
    elim (Bool-cases (test ((next + offset) % size))) [
      | inl here ↦ ((next + offset) % size, ground (arith, here), here)
      | inr there ↦ elim (Bool-cases (k == 0)) [
        | inl first ↦
            let e : next + (offset + k) ≡ next + offset = ground (arith, first) in
            absurd (ground (arith, rw e at t, there))
        | inr later ↦
            let e : next + (offset + k) ≡ next + ((offset + 1) + (k - 1)) = ground (arith, later) in
            let (p, found, ok_p) =
              find_partition-some test size next n (offset + 1) (k - 1) (ground (arith, later))
                (rw e at t) in
            (p, ground (arith, there, found), ok_p)
      ]
    ]

-- The search over all partitions finds one that passes, from any start among them.
find_partition_all :
    (test : ℕ → Bool) (size next c : ℕ)
    → next < size
    → c < size
    → test c ≡ true
    → (p : ℕ) × (find_partition test size next size 0 ≡ some p) × (test p ≡ true)
find_partition_all test size next c h l t = elim (dec_lt c next) [
  | no ahead ↦
      let e : next + (0 + (c - next)) ≡ c = omega arith in
      find_partition-some test size next size 0 (c - next) (omega arith)
        (rw (e, low_mod c size l) t)
  | yes behind ↦
      let e : next + (0 + (c + size - next)) ≡ c + size = omega arith in
      find_partition-some test size next size 0 (c + size - next) (omega arith)
        (rw (e, wrapped_mod c size l) t)
]

minimum_le :
    (f : ℕ → ℕ) (m : ℕ) (xs : List ℕ)
    → (minimum f m xs ≤ m) × ((x : ℕ) → elem x xs ≡ true → minimum f m xs ≤ f x)
minimum_le f m [] = (omega arith, λ x h. ground arith)
minimum_le f m (y ∷ ys) =
    let (low, lower) = minimum_le f (min m (f y)) ys in
    (omega (arith, low), λ x h. ground (arith, low, lower x))

minimum-attained :
    (f : ℕ → ℕ) (m : ℕ) (xs : List ℕ)
    → (minimum f m xs ≡ m) ⊎ ((x : ℕ) × (elem x xs ≡ true) × (f x ≡ minimum f m xs))
minimum-attained f m [] = inl refl
minimum-attained f m (y ∷ ys) = elim (minimum-attained f (min m (f y)) ys) [
  | inr (x, h, e) ↦ inr (x, ground arith, e)
  | inl e ↦ elim (dec_lt (f y) m) [
    | yes less ↦ inr (y, ground arith, omega (arith, e))
    | no more ↦ inl (omega (arith, e))
  ]
]

least_loaded_some :
    (partitions : List (ℕ × ℕ)) (c : ℕ) (cs : List ℕ)
    → (x : ℕ) × (elem x (c ∷ cs) ≡ true) × (least_loaded partitions (c ∷ cs) x ≡ true)
unfolding least_loaded
least_loaded_some partitions c cs =
    elim (minimum-attained (owned_count partitions) (owned_count partitions c) cs) [
      | inl e ↦ (c, ground arith, ground (arith, e))
      | inr (x, h, e) ↦ (x, ground arith, ground (arith, h, e))
    ]

least_loaded_le :
    (partitions : List (ℕ × ℕ)) (cs : List ℕ) (p x : ℕ)
    → least_loaded partitions cs p ≡ true
    → elem x cs ≡ true
    → (elem p cs ≡ true) × (owned_count partitions p ≤ owned_count partitions x)
unfolding least_loaded
least_loaded_le partitions [] p x h e = absurd cc
least_loaded_le partitions (c ∷ cs) p x h e =
    let (low, lower) = minimum_le (owned_count partitions) (owned_count partitions c) cs in
    (ground (arith, h), ground (arith, h, low, lower x))

elem-select_sub :
    (P : ℕ → Bool) (x : ℕ) (xs : List ℕ) → elem x (select P xs) ≡ true → elem x xs ≡ true
elem-select_sub P x [] h = ground arith
elem-select_sub P x (y ∷ ys) h = ground (arith, elem-select_sub P x ys)

candidate-lt :
    (g : Groups) (request_id token_count x : ℕ)
    → assigned_partition g request_id ≡ none
    → elem x (candidate_group_partitions g request_id token_count) ≡ true
    → x < group_partition_count g
unfolding candidate_group_partitions
candidate-lt g request_id token_count x new h =
    let inside =
      elem-select_sub (has_room g.pools request_id token_count) x
        (range_from 0 (group_partition_count g)) (simp new at h) in
    ground (arith, inside, elem-range_from 0 (group_partition_count g) x)

-- The partition for a new request: one that has room in every group, with no more requests than
-- any other such partition; the next search starts at a partition again.
pub record Selected (g : Groups) (pool : GroupPool) (candidates : List ℕ)
    (r : Outcome (Option ℕ × Groups)) : Type 0 where
  pub q : ℕ
  pub g' : Groups
  pub result : r ≡ returned (some q, g')
  pub candidate : elem q candidates ≡ true
  pub lightest :
      (x : ℕ)
      → elem x candidates ≡ true
      → owned_count pool.request_partitions q ≤ owned_count pool.request_partitions x
  pub next : g'.next_group_partition < group_partition_count g

select_least_loaded-Selected :
    (g : Groups) (pool : GroupPool) (rest : List GroupPool) (c : ℕ) (cs : List ℕ)
    → g.pools ≡ pool ∷ rest
    → g.next_group_partition < group_partition_count g
    → ((x : ℕ) → elem x (c ∷ cs) ≡ true → x < group_partition_count g)
    → Selected g pool (c ∷ cs) (select_least_loaded g (c ∷ cs))
unfolding select_least_loaded
select_least_loaded-Selected g pool rest c cs e start inside =
    let (x, h, light) = least_loaded_some pool.request_partitions c cs in
    let (q, found, passes) =
      find_partition_all (least_loaded pool.request_partitions (c ∷ cs)) (group_partition_count g)
        g.next_group_partition x start (inside x h) light in
    let chosen : select_least_loaded g (c ∷ cs)
        ≡ returned (some q, record g { next_group_partition = (q + 1) % group_partition_count g }) =
      ground (arith, e, found) in
    record {
      q = q;
      g' = record g { next_group_partition = (q + 1) % group_partition_count g };
      result = chosen;
      candidate = (least_loaded_le pool.request_partitions (c ∷ cs) q x passes h).0;
      lightest = λ y k. (least_loaded_le pool.request_partitions (c ∷ cs) q y passes k).1;
      next = mod_lt (q + 1) (group_partition_count g) (omega arith);
    }

-- For a request without a partition the selection is total: it is `None` exactly when no
-- partition has room in every group, and otherwise a partition with room that has the fewest
-- requests. The error for an inconsistent selection cannot occur.
pub select_group_partition-Selected :
    (g : Groups) (request_id token_count : ℕ) (pool : GroupPool) (rest : List GroupPool)
    → g.pools ≡ pool ∷ rest
    → assigned_partition g request_id ≡ none
    → g.next_group_partition < group_partition_count g
    → ((candidate_group_partitions g request_id token_count ≡ [])
        × (select_group_partition g request_id token_count ≡ returned (none, g)))
      ⊎ Selected g pool
          (candidate_group_partitions g request_id token_count)
          (select_group_partition g request_id token_count)
unfolding select_group_partition
select_group_partition-Selected g request_id token_count pool rest e new start =
    elim (List-cases (candidate_group_partitions g request_id token_count)) [
      | inl empty ↦ inl (empty, rw (empty, select_group_partition) refl)
      | inr (c, cs, some_left) ↦ inr (
          rw (some_left, select_group_partition)
            (simp new (
              select_least_loaded-Selected g pool rest c cs e start
                λ x h. candidate-lt g request_id token_count x new (rw some_left h))))
    ]
