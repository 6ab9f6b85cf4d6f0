-- ===== src/Cache/Groups/Growth/Counts.antt =====
-- Counting the slots of a table: those that are empty, those that hold a given block, and those that
-- pass a test.
use pypto_serving.Prelude.{
  ◌%◌, ℕ, zero, suc, ◌+◌, ◌≤◌, ◌<◌, ◌≡◌, ◌≢◌, refl, Bool, true, false, ◌&&◌, ◌||◌, Option, none,
  some, List, [], ◌∷◌, ◌++◌, arith, ltb, ◌==◌, if◌then◌else◌, elem, get_elem?, set, length, take,
  replicate,
}
use pypto_serving.Cache.Groups.{GroupPool}
use pypto_serving.Cache.Groups.Growth.{is_shared, count_none, ring_slot, slots_where}

-- How many slots hold the block `b`.
abbrev pub count_block : ℕ → List (Option ℕ) → ℕ
count_block b [] = 0
count_block b (none ∷ xs) = count_block b xs
count_block b (some a ∷ xs) = (if a == b then 1 else 0) + count_block b xs

pub count_block-pos :
    (xs : List (Option ℕ)) (slot b : ℕ) → get_elem? xs slot ≡ some (some b) → 0 < count_block b xs
count_block-pos [] slot b h = ground arith
count_block-pos (none ∷ xs) zero b h = ground arith
count_block-pos (some a ∷ xs) zero b h = ground arith
count_block-pos (none ∷ xs) (suc slot) b h = count_block-pos xs slot b h
count_block-pos (some a ∷ xs) (suc slot) b h = ground (arith, count_block-pos xs slot b h)

-- A write moves one slot from the old block to the new one.
pub count_block-set :
    (xs : List (Option ℕ)) (slot b b' c : ℕ)
    → get_elem? xs slot ≡ some (some b)
    → count_block c (set xs slot (some b')) + (if b == c then 1 else 0)
      ≡ count_block c xs + (if b' == c then 1 else 0)
count_block-set [] slot b b' c h = ground arith
count_block-set (none ∷ xs) zero b b' c h = ground arith
count_block-set (some a ∷ xs) zero b b' c h = ground arith
count_block-set (none ∷ xs) (suc slot) b b' c h = count_block-set xs slot b b' c h
count_block-set (some a ∷ xs) (suc slot) b b' c h = omega (arith, count_block-set xs slot b b' c h)

pub count_block-set-none :
    (xs : List (Option ℕ)) (slot b' c : ℕ)
    → get_elem? xs slot ≡ some none
    → count_block c (set xs slot (some b')) ≡ count_block c xs + (if b' == c then 1 else 0)
count_block-set-none [] slot b' c h = ground arith
count_block-set-none (none ∷ xs) zero b' c h = omega arith
count_block-set-none (some a ∷ xs) zero b' c h = ground arith
count_block-set-none (none ∷ xs) (suc slot) b' c h = count_block-set-none xs slot b' c h
count_block-set-none (some a ∷ xs) (suc slot) b' c h =
    omega (arith, count_block-set-none xs slot b' c h)

pub get_elem?-set :
    (xs : List (Option ℕ)) (slot s : ℕ) (v w : Option ℕ)
    → get_elem? xs slot ≡ some w
    → get_elem? (set xs slot v) s ≡ (if slot == s then some v else get_elem? xs s)
get_elem?-set [] slot s v w h = ground arith
get_elem?-set (x ∷ xs) zero zero v w h = refl
get_elem?-set (x ∷ xs) zero (suc s) v w h = ground arith
get_elem?-set (x ∷ xs) (suc slot) zero v w h = ground arith
get_elem?-set (x ∷ xs) (suc slot) (suc s) v w h = ground (arith, get_elem?-set xs slot s v w h)

-- Whether one of the logical blocks falls on the slot.
visited : ℕ → ℕ → ℕ → ℕ → Bool
visited size zero i slot = false
visited size (suc n) i slot = ring_slot size i == slot || visited size n (i + 1) slot

elem-slots_where :
    (test : ℕ → Bool) (size n i s : ℕ)
    → elem s (slots_where test size n i) ≡ (test s && visited size n i s)
unfolding slots_where visited
elem-slots_where test size zero i s = ground arith
elem-slots_where test size (suc n) i s = ground (
  arith,
  elem-slots_where test size n (i + 1) s,
  elem-slots_where test size n (i + 1) (ring_slot size i),
)

-- A stricter test that leaves `x` out selects fewer slots, by one if `x` was selected.
pub slots_where-lt :
    (test test' : ℕ → Bool) (x size n i : ℕ)
    → ((s : ℕ) → test' s ≡ true → (test s ≡ true) × (x ≢ s))
    → length (slots_where test' size n i) + (if elem x (slots_where test size n i) then 1 else 0)
      ≤ length (slots_where test size n i)
unfolding slots_where
slots_where-lt test test' x size zero i h = omega arith
slots_where-lt test test' x size (suc n) i h =
    let s = ring_slot size i in
    ground (
      arith,
      h s,
      slots_where-lt test test' x size n (i + 1) h,
      elem-slots_where test size n (i + 1) s,
      elem-slots_where test' size n (i + 1) s,
    )

pub slots_where_mono :
    (test test' : ℕ → Bool) (size n i : ℕ)
    → ((s : ℕ) → test' s ≡ true → test s ≡ true)
    → length (slots_where test' size n i) ≤ length (slots_where test size n i)
unfolding slots_where
slots_where_mono test test' size zero i h = omega arith
slots_where_mono test test' size (suc n) i h =
    let s = ring_slot size i in
    ground (
      arith,
      h s,
      slots_where_mono test test' size n (i + 1) h,
      elem-slots_where test size n (i + 1) s,
      elem-slots_where test' size n (i + 1) s,
    )

-- The bound on the slots ahead, over one round of the loop.
module _ (size n i : ℕ) (test : ℕ → Bool) (free : ℕ) where
  pub slots_tail :
      length (slots_where test size (suc n) i) ≤ free
      → length (slots_where test size n (i + 1)) ≤ free
  unfolding slots_where
  slots_tail h = ground arith

  pub slots_pos :
      ltb i size ≡ false
      → length (slots_where test size (suc n) i) ≤ free
      → test (i % size) ≡ true
      → 0 < free
  unfolding slots_where
  slots_pos high h t =
      ground (arith, slots_where-lt test (λ s. false) (i % size) size n (i + 1) (λ s e. cc))

  pub slots_step :
      (test' : ℕ → Bool) (free' : ℕ)
      → ltb i size ≡ false
      → length (slots_where test size (suc n) i) ≤ free
      → ((s : ℕ) → test' s ≡ true → (test s ≡ true) × (i % size ≢ s))
      → free' + (if test (i % size) then 1 else 0) ≡ free
      → length (slots_where test' size n (i + 1)) ≤ free'
  unfolding slots_where
  slots_step test' free' high h calmer room =
      ground (arith, slots_where-lt test test' (i % size) size n (i + 1) calmer)

pub get_elem?-none : (xs : List (Option ℕ)) (s : ℕ) → get_elem? xs s ≡ none → length xs ≤ s
get_elem?-none [] s h = omega arith
get_elem?-none (x ∷ xs) zero h = ground arith
get_elem?-none (x ∷ xs) (suc s) h = omega (arith, get_elem?-none xs s h)

pub length-set : (xs : List (Option ℕ)) (s : ℕ) (v : Option ℕ) → length (set xs s v) ≡ length xs
length-set [] s v = refl
length-set (x ∷ xs) zero v = refl
length-set (x ∷ xs) (suc s) v = omega (arith, length-set xs s v)

-- Filling an empty slot within the first `n` leaves one empty slot less there.
pub count_none-set :
    (n : ℕ) (xs : List (Option ℕ)) (s b : ℕ)
    → s < n
    → get_elem? xs s ≡ some none
    → count_none (take n (set xs s (some b))) + 1 ≡ count_none (take n xs)
count_none-set zero xs s b h at = absurd (omega arith)
count_none-set (suc n) [] s b h at = ground arith
count_none-set (suc n) (none ∷ xs) zero b h at = omega arith
count_none-set (suc n) (some a ∷ xs) zero b h at = ground arith
count_none-set (suc n) (none ∷ xs) (suc s) b h at =
    omega (arith, count_none-set n xs s b (omega arith) at)
count_none-set (suc n) (some a ∷ xs) (suc s) b h at = count_none-set n xs s b (omega arith) at

-- A table that is padded with empty slots.
pub count_block-pad :
    (b k : ℕ) (xs : List (Option ℕ)) → count_block b (xs ++ replicate k none) ≡ count_block b xs
count_block-pad b zero [] = refl
count_block-pad b (suc k) [] = count_block-pad b k []
count_block-pad b k (none ∷ xs) = count_block-pad b k xs
count_block-pad b k (some a ∷ xs) = omega (arith, count_block-pad b k xs)

count_none-replicate : (n k : ℕ) → count_none (take n (replicate k none)) ≤ k
count_none-replicate zero k = omega arith
count_none-replicate (suc n) zero = omega arith
count_none-replicate (suc n) (suc k) = omega (arith, count_none-replicate n k)

pub count_none-pad :
    (n k : ℕ) (xs : List (Option ℕ))
    → count_none (take n (xs ++ replicate k none)) ≤ count_none (take n xs) + k
count_none-pad n k [] = omega (arith, count_none-replicate n k)
count_none-pad zero k (x ∷ xs) = omega arith
count_none-pad (suc n) k (none ∷ xs) = omega (arith, count_none-pad n k xs)
count_none-pad (suc n) k (some a ∷ xs) = omega (arith, count_none-pad n k xs)

pub length-pad : (k : ℕ) (xs : List (Option ℕ)) → length (xs ++ replicate k none) ≡ length xs + k
length-pad zero [] = omega arith
length-pad (suc k) [] = omega (arith, length-pad k [])
length-pad k (x ∷ xs) = omega (arith, length-pad k xs)

pub is_shared-pad :
    (pool : GroupPool) (k : ℕ) (xs : List (Option ℕ)) (s : ℕ)
    → is_shared pool (xs ++ replicate k none) s ≡ is_shared pool xs s
is_shared-pad pool zero [] s = refl
is_shared-pad pool (suc k) [] zero = refl
is_shared-pad pool (suc k) [] (suc s) = is_shared-pad pool k [] s
is_shared-pad pool k (x ∷ xs) zero = refl
is_shared-pad pool k (x ∷ xs) (suc s) = is_shared-pad pool k xs s
