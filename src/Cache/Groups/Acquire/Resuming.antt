-- ===== src/Cache/Groups/Acquire/Resuming.antt =====
-- When a request can resume in a partition behind a number of cached tokens, and what the search for
-- the pages of one candidate finds.
use pypto_serving.Prelude.{
  subst, ◌%◌, ℕ, zero, suc, ◌+◌, ◌-◌, ◌/◌, ◌≤◌, ◌<◌, ◌≡◌, refl, ◌∙◌, sym, ap, Option, none, some,
  List, [], ◌∷◌, ltb, ◌==◌, arith, length, min, replicate, set, get_elem?, Bool-cases, Option-cases,
  inl, inr, ◌⊎◌,
}
use pypto_serving.Cache.Groups.{GroupPool}
use pypto_serving.Cache.Groups.Acquire.{find_page, select_pages, select_table, select_tables}

-- The partition's index has a block for page `index`.
pub record Known (pool : GroupPool) (partition : ℕ) (hashes : List ℕ) (index : ℕ) : Type 0 where
  pub hash : ℕ
  pub block : ℕ
  pub at : get_elem? hashes index ≡ some hash
  pub indexed : pool.hash_to_block partition hash ≡ some block

-- A full history needs all its pages, a rolling group those of its window.
unfoldable pub first_page : GroupPool → ℕ → ℕ
first_page pool end_block = elim pool.sliding_window [
  | none ↦ 0
  | some window ↦ end_block - min end_block (window / pool.token_capacity)
]

pub first_page-full :
    (pool : GroupPool) (end_block : ℕ) → pool.sliding_window ≡ none → first_page pool end_block ≡ 0
unfolding first_page
first_page-full pool end_block full = rw (full, first_page) refl

first_page-rolling :
    (pool : GroupPool) (end_block window : ℕ)
    → pool.sliding_window ≡ some window
    → first_page pool end_block ≡ end_block - min end_block (window / pool.token_capacity)
unfolding first_page
first_page-rolling pool end_block window rolling = rw (rolling, first_page) refl

abbrev pub Bounded : Option ℕ → ℕ → ℕ → Type 0
Bounded none max_blocks end_block = end_block ≤ max_blocks
Bounded (some window) max_blocks end_block = Unit

-- The pages of `end_block` pages that the group needs are in the index.
pub record Resumes (pool : GroupPool) (partition : ℕ) (hashes : List ℕ) (end_block : ℕ)
    : Type 0 where
  pub hashed : end_block ≤ length hashes
  pub bounded : Bounded pool.sliding_window pool.max_blocks_per_seq end_block
  pub pages :
      (k : ℕ) → first_page pool end_block ≤ k → k < end_block → Known pool partition hashes k

-- All groups can resume behind the tokens.
abbrev pub AllResume : ℕ → ℕ → List GroupPool → List (List ℕ) → Type 0
AllResume partition tokens [] hashes = Unit
AllResume partition tokens (pool ∷ pools) [] = Unit
AllResume partition tokens (pool ∷ pools) (hs ∷ rest) =
    Resumes pool partition hs (tokens / pool.token_capacity) × AllResume partition tokens pools rest

find_page-cases :
    (pool : GroupPool) (partition : ℕ) (hs : List ℕ) (k : ℕ)
    → ((b : ℕ) × (find_page pool partition hs k ≡ some b) × Known pool partition hs k)
      ⊎ ((find_page pool partition hs k ≡ none) × (¬ (Known pool partition hs k)))
unfolding find_page
find_page-cases pool partition hs k = elim (Option-cases (get_elem? hs k)) [
  | inl missing ↦ inr (
    rw (missing, find_page) refl,
    λ v. let clash : none ≡ some v.hash = sym missing ∙ v.at in absurd cc,
  )
  | inr (h, there) ↦ elim (Option-cases (pool.hash_to_block partition h)) [
    | inr (b, found) ↦ inl (
      b,
      rw (there, find_page) (rw (found, find_page) refl),
      record { hash = h; block = b; at = there; indexed = found },
    )
    | inl unknown ↦ inr (
      rw (there, find_page) (rw (unknown, find_page) refl),
      λ v.
          let same : some h ≡ some v.hash = sym there ∙ v.at in
          let e : h ≡ v.hash = cc in
          let clash : none ≡ some v.block =
            sym unknown ∙ ap (pool.hash_to_block partition) e ∙ v.indexed in
          absurd cc,
    )
  ]
]

select_pages-cases :
    (pool : GroupPool) (partition : ℕ) (hs : List ℕ) (size n index : ℕ) (selected : List (Option ℕ))
    → ((t : List (Option ℕ)) × (select_pages pool partition hs size n index selected ≡ some t)
        × ((k : ℕ) → index ≤ k → k < index + n → Known pool partition hs k))
      ⊎ ((select_pages pool partition hs size n index selected ≡ none)
          × ((k : ℕ) × (index ≤ k) × (k < index + n) × (¬ (Known pool partition hs k))))
unfolding select_pages
select_pages-cases pool partition hs size zero index selected =
    inl (selected, refl, λ k low high. absurd (omega (arith, low, high)))
select_pages-cases pool partition hs size (suc n) index selected =
    elim (find_page-cases pool partition hs index) [
      | inr (missing, unknown) ↦
          inr (rw (missing, select_pages) refl, (index, omega arith, omega arith, unknown))
      | inl (b, found, known) ↦
          elim (select_pages-cases pool partition hs size n (index + 1)
            (set selected (index % size) (some b))) [
              | inr (missing, (k, low, high, unknown)) ↦ inr (
                rw (found, select_pages) missing,
                (k, omega (arith, low), omega (arith, high), unknown),
              )
              | inl (t, later, pages) ↦ inl (
                t,
                rw (found, select_pages) later,
                λ k low high. elim (Bool-cases (index == k)) [
                  | inl here ↦
                      let e : index ≡ k = ground (arith, here) in
                      subst (Known pool partition hs) e known
                  | inr other ↦ pages k (ground (arith, other, low)) (omega (arith, high))
                ],
              )
            ]
    ]

select_table-cases :
    (pool : GroupPool) (partition : ℕ) (hs : List ℕ) (end_block : ℕ)
    → ((t : List (Option ℕ)) × (select_table pool partition hs end_block ≡ some t)
        × Resumes pool partition hs end_block)
      ⊎ ((select_table pool partition hs end_block ≡ none)
          × (¬ (Resumes pool partition hs end_block)))
unfolding select_table
select_table-cases pool partition hs end_block = elim (Bool-cases (ltb (length hs) end_block)) [
  | inl short ↦ inr (rw (short, select_table) refl, λ v. absurd (ground (arith, short, v.hashed)))
  | inr long ↦ elim (Option-cases pool.sliding_window) [
    | inl full ↦ elim (Bool-cases (ltb pool.max_blocks_per_seq end_block)) [
      | inl large ↦ inr (
        rw (long, select_table) (rw (full, select_table) (rw (large, select_table) refl)),
        λ v.
            let fits : end_block ≤ pool.max_blocks_per_seq = simp full at v.bounded in
            absurd (ground (arith, large, fits)),
      )
      | inr small ↦
          elim (select_pages-cases pool partition hs end_block end_block 0
            (replicate end_block none)) [
              | inl (t, found, pages) ↦ inl (
                t,
                rw (long, select_table) (rw (full, select_table) (rw (small, select_table) found)),
                record {
                  hashed = ground (arith, long);
                  bounded = simp full (ground (arith, small));
                  pages = λ k low high. pages k (omega arith) (omega (arith, high));
                },
              )
              | inr (missing, (k, low, high, unknown)) ↦ inr (
                rw (long, select_table)
                    (rw (full, select_table) (rw (small, select_table) missing)),
                λ v.
                    let start = first_page-full pool end_block full in
                    let from : first_page pool end_block ≤ k = omega (arith, start) in
                    unknown (v.pages k from (omega (arith, high))),
              )
            ]
    ]
    | inr (window, rolling) ↦
        let tail = min end_block (window / pool.token_capacity) in
        let start = first_page-rolling pool end_block window rolling in
        elim (select_pages-cases pool partition hs (min end_block pool.max_blocks_per_seq) tail
          (end_block - tail) (replicate (min end_block pool.max_blocks_per_seq) none)) [
            | inl (t, found, pages) ↦ inl (
              t,
              rw (long, select_table) (rw (rolling, select_table) found),
              record {
                hashed = ground (arith, long);
                bounded = simp rolling tt;
                pages = λ k low high. pages k (omega (arith, low, start)) (omega (arith, high));
              },
            )
            | inr (missing, (k, low, high, unknown)) ↦ inr (
              rw (long, select_table) (rw (rolling, select_table) missing),
              λ v. unknown (v.pages k (omega (arith, low, start)) (omega (arith, high))),
            )
          ]
  ]
]

-- The search finds tables for a candidate exactly where all groups can resume behind it.
pub select_tables-cases :
    (partition tokens : ℕ) (pools : List GroupPool) (hashes : List (List ℕ))
    → ((t : List (List (Option ℕ))) × (select_tables partition tokens pools hashes ≡ some t)
        × AllResume partition tokens pools hashes)
      ⊎ ((select_tables partition tokens pools hashes ≡ none)
          × (¬ (AllResume partition tokens pools hashes)))
unfolding select_tables
select_tables-cases partition tokens [] [] = inl ([], refl, tt)
select_tables-cases partition tokens [] (hs ∷ rest) = inl ([], refl, tt)
select_tables-cases partition tokens (pool ∷ pools) [] = inl ([], refl, tt)
select_tables-cases partition tokens (pool ∷ pools) (hs ∷ rest) =
    elim (select_table-cases pool partition hs (tokens / pool.token_capacity)) [
      | inr (missing, stuck) ↦ inr (rw (missing, select_tables) refl, λ v. stuck v.0)
      | inl (table, found, resumes) ↦ elim (select_tables-cases partition tokens pools rest) [
        | inr (missing, stuck) ↦
            inr (rw (found, select_tables) (rw (missing, select_tables) refl), λ v. stuck v.1)
        | inl (tables, all, others) ↦ inl (
          table ∷ tables,
          rw (found, select_tables) (rw (all, select_tables) refl),
          (resumes, others),
        )
      ]
    ]
