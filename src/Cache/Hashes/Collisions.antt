-- ===== src/Cache/Hashes/Collisions.antt =====
-- Equal block hashes: equal prefixes, or a collision among the hashes of the two lists.
use pypto_serving.Prelude.{
  ◌==◌, Bool-cases, ◌⊎◌, inl, [], ◌∷◌, inl, inr, Bool-cases, ◌==◌, some_eq, ℕ, zero, suc, ◌+◌, ◌-◌,
  ◌*◌, ◌/◌, ◌≤◌, ◌<◌, ◌≡◌, refl, sym, ◌∙◌, ap, ap₂, some, List, ◌++◌, arith, length, take,
  get_elem?, take-eq_of_le,
}
use pypto_serving.Cache.Hashes.{slice, iter_token_block_hashes, iter_eagle_token_block_hashes}
use pypto_serving.Cache.Hashes.Chain.{
  chain_hash, get_elem?-iter, get_elem?-iter_eagle, chain_hash-prefix, take-slice,
}

list_cases : (xs ys : List ℕ) → (xs ≡ ys) ⊎ (¬ (xs ≡ ys))
list_cases [] [] = inl refl
list_cases [] (y ∷ ys) = inr (λ e. cc)
list_cases (x ∷ xs) [] = inr (λ e. cc)
list_cases (x ∷ xs) (y ∷ ys) = elim (Bool-cases (x == y)) [
  | inr differ ↦ inr (λ e. let head : x ≡ y = cc in absurd (ground (arith, differ, head)))
  | inl same ↦ elim (list_cases xs ys) [
    | inl rest ↦
        let head : x ≡ y = ground (arith, same) in
        inl (ap₂ (λ (a : ℕ) (l : List ℕ). a ∷ l) head rest)
    | inr differ ↦ inr (λ e. let rest : xs ≡ ys = cc in differ rest)
  ]
]

number_cases : (x y : ℕ) → (x ≡ y) ⊎ (¬ (x ≡ y))
number_cases x y = elim (Bool-cases (x == y)) [
  | inl same ↦ inl (ground (arith, same))
  | inr differ ↦ inr (λ e. absurd (ground (arith, differ, e)))
]

module _ (hash : ℕ → List ℕ → ℕ) (none_hash : ℕ) where
  -- The tokens that the block at index `k` hashes.
  abbrev pub block_tokens : List ℕ → ℕ → ℕ → ℕ → List ℕ
  block_tokens token_ids block_size width k =
      slice token_ids (k * block_size) (k * block_size + width)

  -- Two blocks of the lists, at or before `i` and `j`, whose arguments to `hash` differ while their
  -- hashes do not.
  pub record Collides (ts us : List ℕ) (bs w i j : ℕ) : Type 0 where
    pub k : ℕ
    pub l : ℕ
    pub before_i : k ≤ i
    pub before_j : l ≤ j
    pub same : chain_hash hash none_hash ts bs w (suc k) ≡ chain_hash hash none_hash us bs w (suc l)
    pub apart : ¬ (
        (chain_hash hash none_hash ts bs w k ≡ chain_hash hash none_hash us bs w l)
        × (block_tokens ts bs w k ≡ block_tokens us bs w l))

  -- A block of the list, at or before `i`, whose hash is `NONE_HASH`.
  pub record HitsRoot (ts : List ℕ) (bs w i : ℕ) : Type 0 where
    pub k : ℕ
    pub before : k ≤ i
    pub root : chain_hash hash none_hash ts bs w (suc k) ≡ none_hash

  -- A collision among the hashes of the two lists.
  abbrev pub Clash : List ℕ → List ℕ → ℕ → ℕ → ℕ → ℕ → Type 0
  Clash ts us bs w i j = Collides ts us bs w i j ⊎ (HitsRoot ts bs w i ⊎ HitsRoot us bs w j)

  -- The blocks at one index have the same tokens up to their ends.
  abbrev pub SamePrefix : List ℕ → List ℕ → ℕ → ℕ → ℕ → ℕ → Type 0
  SamePrefix ts us bs w i j = (i ≡ j) × (take (i * bs + w) ts ≡ take (i * bs + w) us)

  later : (ts us : List ℕ) (bs w i j : ℕ) → Clash ts us bs w i j → Clash ts us bs w (suc i) (suc j)
  later ts us bs w i j (inl c) = inl (record {
    k = c.k;
    l = c.l;
    before_i = omega (arith, c.before_i);
    before_j = omega (arith, c.before_j);
    same = c.same;
    apart = c.apart;
  })
  later ts us bs w i j (inr (inl c)) =
      inr (inl (record { k = c.k; before = omega (arith, c.before); root = c.root }))
  later ts us bs w i j (inr (inr c)) =
      inr (inr (record { k = c.k; before = omega (arith, c.before); root = c.root }))

  prefix_step :
      (ts us : List ℕ) (s w : ℕ)
      → take s ts ≡ take s us
      → slice ts s (s + w) ≡ slice us s (s + w)
      → take (s + w) ts ≡ take (s + w) us
  prefix_step ts us s w e d =
      take-slice hash none_hash ts s w
      ∙ ap₂ (λ (a b : List ℕ). a ++ b) e d
      ∙ sym (take-slice hash none_hash us s w)

  collision_at :
      (ts us : List ℕ) (bs w i j : ℕ)
      → chain_hash hash none_hash ts bs w (suc i) ≡ chain_hash hash none_hash us bs w (suc j)
      → ¬ (
          (chain_hash hash none_hash ts bs w i ≡ chain_hash hash none_hash us bs w j)
          × (block_tokens ts bs w i ≡ block_tokens us bs w j))
      → Clash ts us bs w i j
  collision_at ts us bs w i j e differ = inl (record {
    k = i;
    l = j;
    before_i = omega arith;
    before_j = omega arith;
    same = e;
    apart = differ;
  })

  chain_hash-cases :
      (ts us : List ℕ) (bs w m n : ℕ)
      → bs ≤ w
      → chain_hash hash none_hash ts bs w (suc m) ≡ chain_hash hash none_hash us bs w (suc n)
      → SamePrefix ts us bs w m n ⊎ Clash ts us bs w m n
  unfolding chain_hash
  chain_hash-cases ts us bs w zero zero h e =
      elim (list_cases (block_tokens ts bs w 0) (block_tokens us bs w 0)) [
        | inr differ ↦ inr (collision_at ts us bs w 0 0 e (λ p. differ p.1))
        | inl same ↦
            inl (
              refl,
              prefix_step ts us (zero * bs) w (let z : 0 * bs ≡ 0 = omega arith in rw z) same,
            )
      ]
  chain_hash-cases ts us bs w zero (suc n) h e =
      elim (number_cases none_hash (chain_hash hash none_hash us bs w (suc n))) [
        | inr differ ↦ inr (collision_at ts us bs w 0 (suc n) e (λ p. differ p.0))
        | inl same ↦ inr (inr (inr (record { k = n; before = omega arith; root = sym same })))
      ]
  chain_hash-cases ts us bs w (suc m) zero h e =
      elim (number_cases (chain_hash hash none_hash ts bs w (suc m)) none_hash) [
        | inr differ ↦ inr (collision_at ts us bs w (suc m) 0 e (λ p. differ p.0))
        | inl same ↦ inr (inr (inl (record { k = m; before = omega arith; root = same })))
      ]
  chain_hash-cases ts us bs w (suc m) (suc n) h e =
      elim (number_cases (chain_hash hash none_hash ts bs w (suc m))
        (chain_hash hash none_hash us bs w (suc n))) [
          | inr differ ↦ inr (collision_at ts us bs w (suc m) (suc n) e (λ p. differ p.0))
          | inl parents ↦ elim (chain_hash-cases ts us bs w m n h parents) [
            | inr clash ↦ inr (later ts us bs w m n clash)
            | inl (same, prefix) ↦
                elim (list_cases (block_tokens ts bs w (suc m)) (block_tokens us bs w (suc n))) [
                  | inr differ ↦ inr (collision_at ts us bs w (suc m) (suc n) e (λ p. differ p.1))
                  | inl tokens ↦ inl (
                    ap suc same,
                    prefix_step ts us (suc m * bs) w
                        (take-eq_of_le (m * bs + w) (suc m * bs) ts us (grind arith) prefix)
                        (rw (ap (λ (k : ℕ). slice us (suc k * bs) (suc k * bs + w)) same) tokens),
                  )
                ]
          ]
        ]

  -- Full blocks of two token lists with the same block hash stand at one index, and the lists agree up to
  -- the end of the block, or two different arguments that were hashed on the way have one hash, or
  -- one of these hashes is `NONE_HASH`. Blocks at one index of lists that agree so far have the same
  -- block hash.
  pub iter_token_block_hashes-prefix :
      (ts us : List ℕ) (bs i j : ℕ)
      → i < length ts / bs
      → j < length us / bs
      → (get_elem? (iter_token_block_hashes hash none_hash ts bs) i
            ≡ get_elem? (iter_token_block_hashes hash none_hash us bs) j
          → SamePrefix ts us bs bs i j ⊎ Clash ts us bs bs i j)
        × (SamePrefix ts us bs bs i j
            → get_elem? (iter_token_block_hashes hash none_hash ts bs) i
              ≡ get_elem? (iter_token_block_hashes hash none_hash us bs) j)
  iter_token_block_hashes-prefix ts us bs i j hi hj = (
    λ e. chain_hash-cases ts us bs bs i j (omega arith) (
        some_eq (
          sym (get_elem?-iter hash none_hash ts bs i hi)
          ∙ e
          ∙ get_elem?-iter hash none_hash us bs j hj)),
    λ p.
        get_elem?-iter hash none_hash ts bs i hi
        ∙ ap some (
            chain_hash-prefix hash none_hash ts us bs bs i (omega arith) p.1
            ∙ ap (λ (k : ℕ). chain_hash hash none_hash us bs bs (suc k)) p.0)
        ∙ sym (get_elem?-iter hash none_hash us bs j hj),
  )

  -- Shifted blocks of two token lists with the same block hash stand at one index, and the lists agree up
  -- to one token behind the end of the block, or two different arguments that were hashed on the way
  -- have one hash, or one of these hashes is `NONE_HASH`. Blocks at one index of lists that agree so
  -- far have the same block hash.
  pub iter_eagle_token_block_hashes-prefix :
      (ts us : List ℕ) (bs i j : ℕ)
      → i < (length ts - 1) / bs
      → j < (length us - 1) / bs
      → (get_elem? (iter_eagle_token_block_hashes hash none_hash ts bs) i
            ≡ get_elem? (iter_eagle_token_block_hashes hash none_hash us bs) j
          → SamePrefix ts us bs (bs + 1) i j ⊎ Clash ts us bs (bs + 1) i j)
        × (SamePrefix ts us bs (bs + 1) i j
            → get_elem? (iter_eagle_token_block_hashes hash none_hash ts bs) i
              ≡ get_elem? (iter_eagle_token_block_hashes hash none_hash us bs) j)
  iter_eagle_token_block_hashes-prefix ts us bs i j hi hj = (
    λ e. chain_hash-cases ts us bs (bs + 1) i j (omega arith) (
        some_eq (
          sym (get_elem?-iter_eagle hash none_hash ts bs i hi)
          ∙ e
          ∙ get_elem?-iter_eagle hash none_hash us bs j hj)),
    λ p.
        get_elem?-iter_eagle hash none_hash ts bs i hi
        ∙ ap some (
            chain_hash-prefix hash none_hash ts us bs (bs + 1) i (omega arith) p.1
            ∙ ap (λ (k : ℕ). chain_hash hash none_hash us bs (bs + 1) (suc k)) p.0)
        ∙ sym (get_elem?-iter_eagle hash none_hash us bs j hj),
  )
