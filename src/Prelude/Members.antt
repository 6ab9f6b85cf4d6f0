-- ===== src/Prelude/Members.antt =====
-- Membership of numbers in lists as a Boolean, and lists without repetition.
use Prim.Native.Nat.{ℕ, zero, suc, ◌+◌}
use mathlib.Core.Path.{◌≡◌, refl}
use mathlib.Core.Bool.{Bool, true, false, ◌&&◌, ◌||◌}
use mathlib.Core.List.{List, [], ◌∷◌, ◌++◌}
use native.Mathlib.Omega.{arith}
use pypto_serving.Prelude.Lists.{take, range_from}
use pypto_serving.Prelude.Tests.{ltb, leb, ◌==◌, if◌then◌else◌}

-- `x in xs`
abbrev pub elem : ℕ → List ℕ → Bool
elem x [] = false
elem x (y ∷ ys) = y == x || elem x ys

abbrev pub Distinct : List ℕ → Type 0
Distinct [] = Unit
Distinct (x ∷ xs) = (elem x xs ≡ false) × Distinct xs

-- Without the first occurrence of `x`.
abbrev pub erase : ℕ → List ℕ → List ℕ
erase x [] = []
erase x (y ∷ ys) = if y == x then ys else y ∷ erase x ys

pub elem-append : (x : ℕ) (xs ys : List ℕ) → elem x (xs ++ ys) ≡ (elem x xs || elem x ys)
elem-append x [] ys = refl
elem-append x (y ∷ xs) ys = ground (arith, elem-append x xs ys)

pub elem-erase :
    (x y : ℕ) (xs : List ℕ)
    → Distinct xs
    → elem y (erase x xs) ≡ (if x == y then false else elem y xs)
elem-erase x y [] d = ground arith
elem-erase x y (z ∷ zs) d = ground (arith, elem-erase x y zs d.1)

pub erase-Distinct : (x : ℕ) (xs : List ℕ) → Distinct xs → Distinct (erase x xs)
erase-Distinct x [] d = d
erase-Distinct x (z ∷ zs) d = ground (arith, erase-Distinct x zs d.1, elem-erase x z zs d.1)

pub Distinct-append_one :
    (xs : List ℕ) (x : ℕ) → Distinct xs → elem x xs ≡ false → Distinct (xs ++ x ∷ [])
Distinct-append_one [] x d h = (refl, tt)
Distinct-append_one (y ∷ ys) x d h =
    ground (arith, Distinct-append_one ys x d.1, elem-append y ys (x ∷ []))

pub erase-outside : (x : ℕ) (xs : List ℕ) → elem x xs ≡ false → erase x xs ≡ xs
erase-outside x [] h = refl
erase-outside x (y ∷ ys) h = ground (arith, erase-outside x ys)

pub Distinct-middle :
    (xs : List ℕ) (x : ℕ) (ys : List ℕ) → Distinct (xs ++ x ∷ ys) → elem x xs ≡ false
Distinct-middle [] x ys d = refl
Distinct-middle (z ∷ zs) x ys d =
    ground (arith, Distinct-middle zs x ys d.1, elem-append z zs (x ∷ ys))

pub erase_self : (x : ℕ) (xs : List ℕ) → erase x (x ∷ xs) ≡ xs
erase_self x xs = ground arith

-- How often `x` stands in the list.
abbrev pub count : ℕ → List ℕ → ℕ
count x [] = 0
count x (y ∷ ys) = (if y == x then 1 else 0) + count x ys

pub elem-take : (n : ℕ) (xs : List ℕ) (x : ℕ) → elem x (take n xs) ≡ true → elem x xs ≡ true
elem-take zero xs x h = ground arith
elem-take (suc n) [] x h = h
elem-take (suc n) (y ∷ ys) x h = ground (arith, elem-take n ys x)

pub Distinct-take : (n : ℕ) (xs : List ℕ) → Distinct xs → Distinct (take n xs)
Distinct-take zero xs d = tt
Distinct-take (suc n) [] d = tt
Distinct-take (suc n) (y ∷ ys) d = ground (arith, Distinct-take n ys d.1, elem-take n ys y)

pub elem-range_from :
    (start n c : ℕ) → elem c (range_from start n) ≡ (leb start c && ltb c (start + n))
elem-range_from start zero c = ground arith
elem-range_from start (suc n) c = ground (arith, elem-range_from (start + 1) n c)

pub range_from-Distinct : (start n : ℕ) → Distinct (range_from start n)
range_from-Distinct start zero = tt
range_from-Distinct start (suc n) =
    (ground (arith, elem-range_from (start + 1) n start), range_from-Distinct (start + 1) n)
