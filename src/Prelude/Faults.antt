-- ===== src/Prelude/Faults.antt =====
-- Calls that may raise. The three kinds of exception that the modelled code tells apart; a raise
-- drops the state, since nothing that catches one goes on from a half-made change.
use mathlib.Core.Bool.{Bool, true, false}
use mathlib.Core.Path.{◌≡◌, refl}
use pypto_serving.Prelude.Lists.{All, Pairwise}
use mathlib.Core.List.{List, [], ◌∷◌}

pub data Fault : Type 0 where
  value_error capacity_error runtime_error index_error : Fault

-- What a call comes to: an exception, or its value.
pub data Outcome {ℓ} (A : Type ℓ) : Type ℓ where
  raised : Fault → Outcome A
  returned : A → Outcome A

-- The rest of the code runs on the value of a call that returns.
infixl 5 ◌>>=◌
abbrev pub ◌>>=◌ {ℓ ℓ'} :
    {Before : Type ℓ} {After : Type ℓ'} → Outcome Before → (Before → Outcome After) → Outcome After
call >>= rest = elim call [ raised fault ↦ raised fault | returned value ↦ rest value ]

-- `if test: raise fault`, before the rest of the code.
abbrev pub raise_if {ℓ} : {A : Type ℓ} → Bool → Fault → Outcome A → Outcome A
raise_if test fault rest = elim test [ true ↦ raised fault | false ↦ rest ]

-- A loop whose body may raise.
abbrev pub fold_outcome {ℓ κ} :
    {A : Type ℓ} {S : Type κ} → (S → A → Outcome S) → S → List A → Outcome S
fold_outcome f s [] = returned s
fold_outcome f s (x ∷ xs) = f s x >>= λ s'. fold_outcome f s' xs

abbrev pub map_outcome {ℓ κ} :
    {A : Type ℓ} {B : Type κ} → (A → Outcome B) → List A → Outcome (List B)
map_outcome f [] = returned []
map_outcome f (x ∷ xs) = f x >>= λ y. map_outcome f xs >>= λ ys. returned (y ∷ ys)

-- A loop whose rounds succeed with related values succeeds with a list of them.
pub map_outcome-Pairwise {ℓ} :
    {A : Type ℓ} {B : Type 0} (f : A → Outcome B) (R : A → B → Type 0) (xs : List A)
    → All (λ x. (y : B) × (f x ≡ returned y) × R x y) xs
    → (ys : List B) × (map_outcome f xs ≡ returned ys) × Pairwise R xs ys
map_outcome-Pairwise f R [] h = ([], refl, tt)
map_outcome-Pairwise f R (x ∷ xs) ((y, e, r), h) =
    let (ys, es, rs) = map_outcome-Pairwise f R xs h in (y ∷ ys, simp (e, es) refl, (r, rs))
