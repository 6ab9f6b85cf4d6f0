-- ===== src/Prelude/Lists.antt =====
-- Lists measured and indexed by native numbers, under the library's names.
use Prim.Native.Nat.{ℕ, zero, suc, ◌+◌, ◌-◌, ◌≤◌, min}
use mathlib.Core.Path.{◌≡◌, refl, sym, ◌∙◌, ap}
use mathlib.Core.List.{List, [], ◌∷◌, ◌++◌}
use mathlib.Core.Bool.{Bool, true, false, ◌&&◌, ◌||◌}
use mathlib.Core.Option.{Option, none, some}
use mathlib.Core.Logic.{◌⊎◌, inl, inr}
use native.Mathlib.Omega.{arith}
use pypto_serving.Prelude.Tests.{◌==◌, if◌then◌else◌}

module _ {ℓ} {A : Type ℓ} where
  abbrev pub length : List A → ℕ
  length [] = 0
  length (x ∷ xs) = suc (length xs)

  abbrev pub get_elem? : List A → ℕ → Option A
  get_elem? [] i = none
  get_elem? (x ∷ xs) zero = some x
  get_elem? (x ∷ xs) (suc i) = get_elem? xs i

  abbrev pub head? : List A → Option A
  head? [] = none
  head? (x ∷ xs) = some x

  -- The last element, by a walk that remembers the one before: `xs[-1]`.
  abbrev pub last_from : Option A → List A → Option A
  last_from p [] = p
  last_from p (x ∷ xs) = last_from (some x) xs

  abbrev pub get_last? : List A → Option A
  get_last? xs = last_from none xs

  abbrev pub take : ℕ → List A → List A
  take zero xs = []
  take (suc n) [] = []
  take (suc n) (x ∷ xs) = x ∷ take n xs

  abbrev pub drop : ℕ → List A → List A
  drop zero xs = xs
  drop (suc n) [] = []
  drop (suc n) (x ∷ xs) = drop n xs

  pub take-nil : (n : ℕ) → take n [] ≡ []
  take-nil zero = refl
  take-nil (suc n) = refl

  pub length-append : (xs ys : List A) → length (xs ++ ys) ≡ length xs + length ys
  length-append [] ys = omega arith
  length-append (x ∷ xs) ys = omega (arith, length-append xs ys)

  pub length-take : (n : ℕ) (xs : List A) → length (take n xs) ≡ min n (length xs)
  length-take zero xs = omega arith
  length-take (suc n) [] = omega arith
  length-take (suc n) (x ∷ xs) = omega (arith, length-take n xs)

  pub length-drop : (n : ℕ) (xs : List A) → length (drop n xs) ≡ length xs - n
  length-drop zero xs = omega arith
  length-drop (suc n) [] = omega arith
  length-drop (suc n) (x ∷ xs) = omega (arith, length-drop n xs)

  pub take-append-drop : (n : ℕ) (xs : List A) → take n xs ++ drop n xs ≡ xs
  take-append-drop zero xs = refl
  take-append-drop (suc n) [] = refl
  take-append-drop (suc n) (x ∷ xs) = ap (λ r. x ∷ r) (take-append-drop n xs)

  pub take-add : (a b : ℕ) (xs : List A) → take (a + b) xs ≡ take a xs ++ take b (drop a xs)
  take-add zero b xs = let e : 0 + b ≡ b = omega arith in ap (λ (n : ℕ). take n xs) e
  take-add (suc a) b [] = let e : suc a + b ≡ suc (a + b) = omega arith in rw e (sym (take-nil b))
  take-add (suc a) b (x ∷ xs) =
      let e : suc a + b ≡ suc (a + b) = omega arith in rw e (ap (λ r. x ∷ r) (take-add a b xs))

  pub take-take : (a b : ℕ) (xs : List A) → b ≤ a → take b (take a xs) ≡ take b xs
  take-take a zero xs h = refl
  take-take zero (suc b) xs h = absurd (omega arith)
  take-take (suc a) (suc b) [] h = refl
  take-take (suc a) (suc b) (x ∷ xs) h = ap (λ r. x ∷ r) (take-take a b xs (omega arith))

  -- Lists that agree on a prefix agree on a shorter one.
  pub take-eq_of_le :
      (a b : ℕ) (xs ys : List A) → b ≤ a → take a xs ≡ take a ys → take b xs ≡ take b ys
  take-eq_of_le a b xs ys h e =
      sym (take-take a b xs h) ∙ ap (λ (r : List A). take b r) e ∙ take-take a b ys h

  pub take-drop : (a b : ℕ) (xs : List A) → take b (drop a xs) ≡ drop a (take (a + b) xs)
  take-drop zero b xs = let e : 0 + b ≡ b = omega arith in rw e
  take-drop (suc a) b [] = let e : suc a + b ≡ suc (a + b) = omega arith in rw e (take-nil b)
  take-drop (suc a) b (x ∷ xs) =
      let e : suc a + b ≡ suc (a + b) = omega arith in rw e (take-drop a b xs)

-- `range(start, start + n)`
abbrev pub range_from : ℕ → ℕ → List ℕ
range_from start zero = []
range_from start (suc n) = start ∷ range_from (start + 1) n

-- `any(p(x) for x in xs)`
abbrev pub any {ℓ} : {A : Type ℓ} → (A → Bool) → List A → Bool
any p [] = false
any p (x ∷ xs) = p x || any p xs

-- `all(p(x) for x in xs)`
abbrev pub all {ℓ} : {A : Type ℓ} → (A → Bool) → List A → Bool
all p [] = true
all p (x ∷ xs) = p x && all p xs

-- The elements that pass the test, in their order.
abbrev pub select {ℓ} : {A : Type ℓ} → (A → Bool) → List A → List A
select p [] = []
select p (x ∷ xs) = let rest = select p xs in if p x then x ∷ rest else rest

-- `[x] * n`
abbrev pub replicate {ℓ} : {A : Type ℓ} → ℕ → A → List A
replicate zero x = []
replicate (suc n) x = x ∷ replicate n x

-- `xs[i] = v`; a write out of bounds changes nothing.
abbrev pub set {ℓ} : {A : Type ℓ} → List A → ℕ → A → List A
set [] i v = []
set (x ∷ xs) zero v = v ∷ xs
set (x ∷ xs) (suc i) v = x ∷ set xs i v

-- A dictionary as a list of entries: `d.get(k)`.
abbrev pub lookup {ℓ} : {V : Type ℓ} → ℕ → List (ℕ × V) → Option V
lookup k [] = none
lookup k (entry ∷ later) =
    let found = lookup k later in if entry.0 == k then some entry.1 else found

-- `d[k] = v`
abbrev pub insert {ℓ} : {V : Type ℓ} → ℕ → V → List (ℕ × V) → List (ℕ × V)
insert k v [] = (k, v) ∷ []
insert k v (entry ∷ later) =
    let changed = insert k v later in if entry.0 == k then (k, v) ∷ later else entry ∷ changed

-- `d.pop(k, None)`
abbrev pub without {ℓ} : {V : Type ℓ} → ℕ → List (ℕ × V) → List (ℕ × V)
without k [] = []
without k ((j, w) ∷ d) = let rest = without k d in if j == k then rest else (j, w) ∷ rest

pub lookup-insert_self {ℓ} :
    {V : Type ℓ} (k : ℕ) (v : V) (d : List (ℕ × V)) → lookup k (insert k v d) ≡ some v
lookup-insert_self k v [] = ground arith
lookup-insert_self k v (entry ∷ later) = ground (arith, lookup-insert_self k v later)

pub lookup-without_self {ℓ} :
    {V : Type ℓ} (k : ℕ) (d : List (ℕ × V)) → lookup k (without k d) ≡ none
lookup-without_self k [] = refl
lookup-without_self k ((j, w) ∷ d) = ground (arith, lookup-without_self k d)

-- `d.get(k, v)`
abbrev pub or_else {ℓ} : {V : Type ℓ} → V → Option V → V
or_else v none = v
or_else v (some w) = w

-- `o == 0` for an optional number.
abbrev pub is_zero? : Option ℕ → Bool
is_zero? none = false
is_zero? (some n) = n == 0

pub List-cases {ℓ} :
    {A : Type ℓ} (xs : List A) → (xs ≡ []) ⊎ ((x : A) × (rest : List A) × (xs ≡ x ∷ rest))
List-cases [] = inl refl
List-cases (x ∷ rest) = inr (x, rest, refl)

-- The property holds of every element.
abbrev pub All {ℓ} : {A : Type ℓ} → (A → Type 0) → List A → Type 0
All P [] = Unit {0}
All P (x ∷ xs) = P x × All P xs

-- The lists are as long as each other, and related element by element.
abbrev pub Pairwise {ℓ κ} : {A : Type ℓ} {B : Type κ} → (A → B → Type 0) → List A → List B → Type 0
Pairwise R [] [] = Unit {0}
Pairwise R [] (y ∷ ys) = ⊥
Pairwise R (x ∷ xs) [] = ⊥
Pairwise R (x ∷ xs) (y ∷ ys) = R x y × Pairwise R xs ys
