-- ===== src/Cache/Queue/Links.antt =====
-- The neighbours of a block in a list of distinct blocks: what `prev_free` and `next_free` hold when
-- the queue holds that list. A block outside the list has no neighbours.
use pypto_serving.Prelude.{
  ℕ, ◌≡◌, refl, Bool, false, true, Option, none, some, List, [], ◌∷◌, ◌++◌, arith, ◌==◌,
  if◌then◌else◌, elem, Distinct, erase, head?, last_from, length, ◌+◌,
}

-- `o is not None and o == b`
abbrev pub is_block : Option ℕ → ℕ → Bool
is_block none b = false
is_block (some a) b = a == b

abbrev pub is_none {ℓ} : {A : Type ℓ} → Option A → Bool
is_none none = true
is_none (some a) = false

abbrev pub successor : List ℕ → ℕ → Option ℕ
successor [] b = none
successor (x ∷ xs) b = if x == b then head? xs else successor xs b

-- The block before `b`, where `p` stands before the list.
abbrev pub predecessor : Option ℕ → List ℕ → ℕ → Option ℕ
predecessor p [] b = none
predecessor p (x ∷ xs) b = if x == b then p else predecessor (some x) xs b

pub successor-outside : (xs : List ℕ) (b : ℕ) → elem b xs ≡ false → successor xs b ≡ none
successor-outside [] b h = refl
successor-outside (x ∷ xs) b h = ground (arith, successor-outside xs b)

pub predecessor-outside :
    (p : Option ℕ) (xs : List ℕ) (b : ℕ) → elem b xs ≡ false → predecessor p xs b ≡ none
predecessor-outside p [] b h = refl
predecessor-outside p (x ∷ xs) b h = ground (arith, predecessor-outside (some x) xs b)

pub predecessor-inside :
    (x : ℕ) (xs : List ℕ) (b : ℕ) → elem b xs ≡ true → is_none (predecessor (some x) xs b) ≡ false
predecessor-inside x [] b h = ground arith
predecessor-inside x (y ∷ ys) b h = ground (arith, predecessor-inside y ys b)

-- A neighbour, and the last block, stand in the list.
pub successor-is_block :
    (xs : List ℕ) (b c : ℕ) → elem c xs ≡ false → is_block (successor xs b) c ≡ false
successor-is_block [] b c h = refl
successor-is_block (x ∷ []) b c h = ground arith
successor-is_block (x ∷ y ∷ ys) b c h = ground (arith, successor-is_block (y ∷ ys) b c)

pub predecessor-is_block :
    (p : Option ℕ) (xs : List ℕ) (b c : ℕ)
    → elem c xs ≡ false
    → is_block p c ≡ false
    → is_block (predecessor p xs b) c ≡ false
predecessor-is_block p [] b c h k = refl
predecessor-is_block p (x ∷ xs) b c h k = ground (arith, predecessor-is_block (some x) xs b c)

pub last_from-is_block :
    (p : Option ℕ) (xs : List ℕ) (c : ℕ)
    → elem c xs ≡ false
    → is_block p c ≡ false
    → is_block (last_from p xs) c ≡ false
last_from-is_block p [] c h k = k
last_from-is_block p (x ∷ xs) c h k = ground (arith, last_from-is_block (some x) xs c)

pub last_from-some : (x : ℕ) (xs : List ℕ) → is_none (last_from (some x) xs) ≡ false
last_from-some x [] = refl
last_from-some x (y ∷ ys) = last_from-some y ys

-- A new block at the end.
pub last_from-append : (p : Option ℕ) (xs : List ℕ) (b : ℕ) → last_from p (xs ++ b ∷ []) ≡ some b
last_from-append p [] b = refl
last_from-append p (x ∷ xs) b = last_from-append (some x) xs b

pub head-append :
    (xs : List ℕ) (b : ℕ)
    → head? (xs ++ b ∷ []) ≡ elim (last_from none xs) [ none ↦ some b | some t ↦ head? xs ]
head-append [] b = refl
head-append (x ∷ xs) b = ground (arith, last_from-some x xs)

pub predecessor-append :
    (p : Option ℕ) (xs : List ℕ) (b c : ℕ)
    → elem b xs ≡ false
    → predecessor p (xs ++ b ∷ []) c ≡ (if b == c then last_from p xs else predecessor p xs c)
predecessor-append p [] b c h = ground arith
predecessor-append p (x ∷ xs) b c h = ground (arith, predecessor-append (some x) xs b c)

pub successor-append :
    (xs : List ℕ) (b c : ℕ)
    → elem b xs ≡ false
    → Distinct xs
    → successor (xs ++ b ∷ []) c
      ≡ (if is_block (last_from none xs) c then some b else successor xs c)
successor-append [] b c h d = ground arith
successor-append (x ∷ []) b c h d = ground arith
successor-append (x ∷ y ∷ ys) b c h d =
    ground (arith, successor-append (y ∷ ys) b c, last_from-is_block (some y) ys c)

-- A block taken out: its neighbours become neighbours.
pub length-erase : (b : ℕ) (xs : List ℕ) → elem b xs ≡ true → length (erase b xs) + 1 ≡ length xs
length-erase b [] h = ground arith
length-erase b (x ∷ xs) h = ground (arith, length-erase b xs)

pub head-erase :
    (xs : List ℕ) (b : ℕ)
    → elem b xs ≡ true
    → head? (erase b xs)
      ≡ elim (predecessor none xs b) [ none ↦ successor xs b | some t ↦ head? xs ]
head-erase [] b h = ground arith
head-erase (x ∷ xs) b h = ground (arith, predecessor-inside x xs b)

pub last_from-erase :
    (p : Option ℕ) (xs : List ℕ) (b : ℕ)
    → elem b xs ≡ true
    → last_from p (erase b xs)
      ≡ elim (successor xs b) [ none ↦ predecessor p xs b | some t ↦ last_from p xs ]
last_from-erase p [] b h = ground arith
last_from-erase p (x ∷ []) b h = ground arith
last_from-erase p (x ∷ y ∷ ys) b h = ground (arith, last_from-erase (some x) (y ∷ ys) b)

head-erase_next :
    (x : ℕ) (xs : List ℕ) (b : ℕ)
    → elem x xs ≡ false
    → head? (erase b xs)
      ≡ (if is_block (predecessor (some x) xs b) x then successor xs b else head? xs)
head-erase_next x [] b h = refl
head-erase_next x (y ∷ ys) b h = ground (arith, predecessor-is_block (some y) ys b x)

pub successor-erase :
    (p : Option ℕ) (xs : List ℕ) (b c : ℕ)
    → Distinct xs
    → is_block p c ≡ false
    → successor (erase b xs) c ≡ (
        if b == c
        then none
        else if is_block (predecessor p xs b) c
        then successor xs b
        else successor xs c)
successor-erase p [] b c d h = ground arith
successor-erase p (x ∷ xs) b c d h =
    ground
      (arith, successor-erase (some x) xs b c d.1, head-erase_next x xs b, successor-outside xs c)

predecessor-next :
    (p q : Option ℕ) (xs : List ℕ) (c : ℕ)
    → predecessor p xs c ≡ (if is_block (head? xs) c then p else predecessor q xs c)
predecessor-next p q [] c = refl
predecessor-next p q (x ∷ xs) c = ground arith

pub predecessor-erase :
    (p : Option ℕ) (xs : List ℕ) (b c : ℕ)
    → Distinct xs
    → predecessor p (erase b xs) c ≡ (
        if b == c
        then none
        else if is_block (successor xs b) c
        then predecessor p xs b
        else predecessor p xs c)
predecessor-erase p [] b c d = ground arith
predecessor-erase p (x ∷ xs) b c d = ground (
  arith,
  predecessor-erase (some x) xs b c d.1,
  predecessor-next p (some x) xs c,
  predecessor-outside p xs c,
  successor-is_block xs b c,
)
