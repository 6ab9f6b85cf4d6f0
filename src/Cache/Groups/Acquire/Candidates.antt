-- ===== src/Cache/Groups/Acquire/Candidates.antt =====
-- The hit of one partition: the longest candidate behind which all groups can resume.
use Prim.Native.Nat.{◌∣◌}
use native.Mathlib.Nat.{div-mul_cancel, le-div_iff_mul-le, mul-le-mul_right, dvd-mul_left}
use pypto_serving.Prelude.{
  min, take, ◌∙◌, ap, ◌<◌, ◌⊎◌, subst, Option-cases, zero, suc, ℕ, ◌+◌, ◌*◌, ◌/◌, ◌≤◌, ◌≡◌, refl,
  sym, true, false, none, some, List, [], ◌∷◌, ◌==◌, arith, length, Bool-cases, inl, inr,
}
use pypto_serving.Cache.Groups.{GroupPool, is_sliding}
use pypto_serving.Cache.Groups.Acquire.Alignment.{AllDivide, AllDivide-dvd}
use pypto_serving.Cache.Groups.Acquire.Resuming.{
  Known, first_page-full, Resumes, AllResume, select_tables-cases,
}
use pypto_serving.Cache.Groups.Acquire.{
  count_hits, narrow, narrow_all, select_tables, longest_candidate, partition_hit,
}

-- A hit of whole alignments, within a limit.
pub record IsAligned (alignment limit hit : ℕ) : Type 0 where
  pub rounds : ℕ
  pub whole : hit ≡ rounds * alignment
  pub within : hit ≤ limit

narrow-le :
    (partition : ℕ) (pool : GroupPool) (hashes : List ℕ) (candidate : ℕ)
    → narrow partition pool hashes candidate ≤ candidate
unfolding narrow
narrow-le partition pool hashes candidate = elim (Bool-cases (is_sliding pool)) [
  | inl sliding ↦ rw (sliding, narrow) (omega arith)
  | inr full ↦ rw (full, narrow) (omega arith)
]

narrow_all-le :
    (partition : ℕ) (pools : List GroupPool) (hashes : List (List ℕ)) (candidate : ℕ)
    → narrow_all partition pools hashes candidate ≤ candidate
unfolding narrow_all
narrow_all-le partition [] [] candidate = omega arith
narrow_all-le partition [] (hs ∷ rest) candidate = omega arith
narrow_all-le partition (pool ∷ pools) [] candidate = omega arith
narrow_all-le partition (pool ∷ pools) (hs ∷ rest) candidate = omega (
  arith,
  narrow-le partition pool hs candidate,
  narrow_all-le partition pools rest (narrow partition pool hs candidate),
)

longest_candidate-IsAligned :
    (partition : ℕ) (pools : List GroupPool) (hashes : List (List ℕ)) (alignment n : ℕ)
    → IsAligned alignment (n * alignment) (longest_candidate partition pools hashes alignment n).0
unfolding longest_candidate
longest_candidate-IsAligned partition pools hashes alignment zero = record {
  rounds = 0;
  whole = omega arith;
  within = omega arith;
}
longest_candidate-IsAligned partition pools hashes alignment (suc n) =
    let next : suc n * alignment ≡ n * alignment + alignment = ground arith in
    elim (Option-cases (select_tables partition (suc n * alignment) pools hashes)) [
      | inl none_there ↦
          let v = longest_candidate-IsAligned partition pools hashes alignment n in
          rw (none_there, longest_candidate)
            (record { rounds = v.rounds; whole = v.whole; within = omega (arith, v.within, next) })
      | inr (tables, found) ↦
          rw (found, longest_candidate)
            (record { rounds = suc n; whole = refl; within = omega arith })
    ]

pub partition_hit-IsAligned :
    (pools : List GroupPool) (hashes : List (List ℕ)) (alignment limit partition : ℕ)
    → IsAligned alignment limit (partition_hit pools hashes alignment limit partition).0
unfolding partition_hit
partition_hit-IsAligned pools hashes alignment limit partition =
    let narrowed = narrow_all partition pools hashes limit in
    let v = longest_candidate-IsAligned partition pools hashes alignment (narrowed / alignment) in
    let whole_rounds : narrowed / alignment * alignment ≤ narrowed = ground arith in
    record {
      rounds = v.rounds;
      whole = v.whole;
      within = omega (arith, v.within, whole_rounds, narrow_all-le partition pools hashes limit);
    }

count_hits-Known :
    (pool : GroupPool) (partition : ℕ) (hs : List ℕ) (n limit : ℕ)
    → n ≤ limit
    → n ≤ length hs
    → ((k : ℕ) → k < n → Known pool partition hs k)
    → n ≤ count_hits pool partition (take limit hs)
unfolding count_hits
count_hits-Known pool partition hs zero limit h l known = omega arith
count_hits-Known pool partition [] (suc n) limit h l known = absurd (omega (arith, l))
count_hits-Known pool partition (x ∷ hs) (suc n) zero h l known = absurd (omega (arith, h))
count_hits-Known pool partition (x ∷ hs) (suc n) (suc limit) h l known =
    let first = known 0 (omega arith) in
    let same : some x ≡ some first.hash = first.at in
    let e : x ≡ first.hash = cc in
    let there = ap (pool.hash_to_block partition) e ∙ first.indexed in
    let later =
      count_hits-Known pool partition hs n limit (omega (arith, h)) (omega (arith, l)) (λ k b.
        let v = known (suc k) (omega (arith, b)) in
        record { hash = v.hash; block = v.block; at = v.at; indexed = v.indexed }) in
    rw (there, count_hits) (omega (arith, later))

is_sliding-full : (pool : GroupPool) → pool.sliding_window ≡ none → is_sliding pool ≡ false
is_sliding-full pool full = rw full refl

is_sliding-rolling :
    (pool : GroupPool) (window : ℕ) → pool.sliding_window ≡ some window → is_sliding pool ≡ true
is_sliding-rolling pool window rolling = rw rolling refl

-- A candidate of whole pages that the group can resume behind is not cut off.
narrow-Resumes :
    (partition : ℕ) (pool : GroupPool) (hs : List ℕ) (c candidate : ℕ)
    → pool.token_capacity ∣ c
    → Resumes pool partition hs (c / pool.token_capacity)
    → c ≤ candidate
    → c ≤ narrow partition pool hs candidate
unfolding narrow
narrow-Resumes partition pool hs c candidate d v h =
    let cap = pool.token_capacity in
    let whole : c / cap * cap ≡ c = div-mul_cancel cap d in
    elim (Option-cases pool.sliding_window) [
      | inr (window, rolling) ↦
          let sliding = is_sliding-rolling pool window rolling in
          rw (sliding, narrow) (omega (arith, h))
      | inl full ↦ elim (Bool-cases (cap == 0)) [
        | inl no_room ↦
            let e : cap ≡ 0 = ground (arith, no_room) in
            let empty : c / cap * cap ≡ 0 =
              ap (λ (n : ℕ). c / cap * n) e ∙ (let z : c / cap * 0 ≡ 0 = ground arith in z) in
            let nothing : c ≡ 0 = sym whole ∙ empty in omega (arith, nothing)
        | inr room ↦
            let positive : 0 < cap = ground (arith, room) in
            let max_blocks = min (min (candidate / cap) pool.max_blocks_per_seq) (length hs) in
            let in_time : c / cap ≤ candidate / cap =
              (le-div_iff_mul-le positive).1 (omega (arith, whole, h)) in
            let fits : c / cap ≤ pool.max_blocks_per_seq = simp full at v.bounded in
            let start = first_page-full pool (c / cap) full in
            let hits =
              count_hits-Known pool partition hs (c / cap) max_blocks
                (omega (arith, in_time, fits, v.hashed)) v.hashed
                (λ k b. v.pages k (omega (arith, start)) b) in
            let covered : c / cap * cap ≤ count_hits pool partition (take max_blocks hs) * cap =
              mul-le-mul_right cap hits in
            let still = is_sliding-full pool full in
            rw (still, narrow) (omega (arith, covered, whole, h))
      ]
    ]

narrow_all-AllResume :
    (partition : ℕ) (pools : List GroupPool) (hashes : List (List ℕ)) (c candidate : ℕ)
    → AllDivide c pools
    → AllResume partition c pools hashes
    → c ≤ candidate
    → c ≤ narrow_all partition pools hashes candidate
unfolding narrow_all
narrow_all-AllResume partition [] [] c candidate d v h = h
narrow_all-AllResume partition [] (hs ∷ rest) c candidate d v h = h
narrow_all-AllResume partition (pool ∷ pools) [] c candidate d v h = h
narrow_all-AllResume partition (pool ∷ pools) (hs ∷ rest) c candidate d v h =
    narrow_all-AllResume partition pools rest c (narrow partition pool hs candidate) d.1 v.1
      (narrow-Resumes partition pool hs c candidate d.0 v.0 h)

module _ (pools : List GroupPool) (hashes : List (List ℕ)) (alignment : ℕ) where
  -- The hit of a partition: the longest whole number of alignments within the limit behind which all
  -- groups can resume.
  pub record IsLongest (partition limit hit : ℕ) : Type 0 where
    pub found : (hit ≡ 0) ⊎ AllResume partition hit pools hashes
    pub longest :
        (m : ℕ)
        → m * alignment ≤ limit
        → AllResume partition (m * alignment) pools hashes
        → m * alignment ≤ hit

  longest_candidate-IsLongest :
      (partition n : ℕ)
      → (((longest_candidate partition pools hashes alignment n).0 ≡ 0)
          ⊎ AllResume partition
              (longest_candidate partition pools hashes alignment n).0
              pools
              hashes)
        × ((m : ℕ)
            → m ≤ n
            → AllResume partition (m * alignment) pools hashes
            → m * alignment ≤ (longest_candidate partition pools hashes alignment n).0)
  unfolding longest_candidate
  longest_candidate-IsLongest partition zero =
      (inl refl, λ m h v. let e : m ≡ 0 = omega (arith, h) in ground (arith, e))
  longest_candidate-IsLongest partition (suc n) =
      elim (select_tables-cases partition (suc n * alignment) pools hashes) [
        | inr (missing, stuck) ↦
            let later = longest_candidate-IsLongest partition n in
            rw (missing, longest_candidate)
              (
                later.0,
                λ m h v. elim (Bool-cases (m == suc n)) [
                  | inl here ↦
                      let e : m ≡ suc n = ground (arith, here) in
                      absurd (
                        stuck
                          (subst (λ (k : ℕ). AllResume partition (k * alignment) pools hashes) e v))
                  | inr other ↦ later.1 m (ground (arith, other, h)) v
                ],
              )
        | inl (tables, found, resumes) ↦
            rw (found, longest_candidate) (inr resumes, λ m h v. mul-le-mul_right alignment h)
      ]

  pub partition_hit-IsLongest :
      (limit partition : ℕ)
      → AllDivide alignment pools
      → IsLongest partition limit (partition_hit pools hashes alignment limit partition).0
  unfolding partition_hit
  partition_hit-IsLongest limit partition d =
      let narrowed = narrow_all partition pools hashes limit in
      let v = longest_candidate-IsLongest partition (narrowed / alignment) in
      record {
        found = v.0;
        longest = λ m h r.
            let whole =
              AllDivide-dvd alignment (m * alignment) pools (dvd-mul_left alignment m) d in
            let kept =
              narrow_all-AllResume partition pools hashes (m * alignment) limit whole r h in
            elim (Bool-cases (alignment == 0)) [
              | inl none_there ↦
                  let e : alignment ≡ 0 = ground (arith, none_there) in
                  let z : m * 0 ≡ 0 = ground arith in
                  let nothing = ap (λ (n : ℕ). m * n) e ∙ z in omega (arith, nothing)
              | inr some_there ↦
                  let positive : 0 < alignment = ground (arith, some_there) in
                  v.1 m ((le-div_iff_mul-le positive).1 kept) r
            ];
      }
