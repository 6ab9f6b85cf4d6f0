-- ===== src/Cache/Groups/Acquire/Alignment.antt =====
-- The alignment of grouped hits is a multiple of the page size of every group.
use Prim.Native.Nat.{◌∣◌}
use native.Mathlib.Nat.{
  dvd_refl, dvd-zero, dvd_trans, dvd-mod_iff, mul-div_assoc, dvd-mul_right, mul_comm,
}
use pypto_serving.Prelude.{
  ℕ, zero, suc, ◌*◌, ◌/◌, ◌%◌, ◌≤◌, ◌≡◌, ◌∙◌, sym, ap, List, [], ◌∷◌, arith, ◌==◌, Bool-cases, inl,
  inr, subst,
}
use pypto_serving.Cache.Groups.{GroupPool}
use pypto_serving.Cache.Groups.Acquire.{gcd_loop, lcm, alignment_from}

-- With as many rounds as the first number, what the loop returns divides both numbers.
gcd_loop-dvd : (n a b : ℕ) → a ≤ n → (gcd_loop n a b ∣ a) × (gcd_loop n a b ∣ b)
unfolding gcd_loop
gcd_loop-dvd zero a b h =
    let e : 0 ≡ a = omega (arith, h) in (subst (λ (k : ℕ). b ∣ k) e (dvd-zero b), dvd_refl b)
gcd_loop-dvd (suc n) a b h = elim (Bool-cases (a == 0)) [
  | inl none_left ↦
      let e : 0 ≡ a = ground (arith, none_left) in
      rw (none_left, gcd_loop) (subst (λ (k : ℕ). b ∣ k) e (dvd-zero b), dvd_refl b)
  | inr more ↦
      let smaller : b % a ≤ n = ground (arith, more, h) in
      let later = gcd_loop-dvd n (b % a) a smaller in
      rw (more, gcd_loop) (later.1, (dvd-mod_iff (gcd_loop n (b % a) a) later.1).0 later.0)
]

lcm-dvd : (a b : ℕ) → (a ∣ lcm a b) × (b ∣ lcm a b)
unfolding lcm
lcm-dvd a b =
    let g = gcd_loop a a b in
    let d = gcd_loop-dvd a a b (omega arith) in
    let left : a * b / g ≡ a * (b / g) = mul-div_assoc g a d.1 in
    let right : a * b / g ≡ b * (a / g) =
      ap (λ (n : ℕ). n / g) (mul_comm a b) ∙ mul-div_assoc g b d.0 in
    (
      subst (λ (n : ℕ). a ∣ n) (sym left) (dvd-mul_right a (b / g)),
      subst (λ (n : ℕ). b ∣ n) (sym right) (dvd-mul_right b (a / g)),
    )

-- Each group's page size divides the number.
abbrev pub AllDivide : ℕ → List GroupPool → Type 0
AllDivide n [] = Unit
AllDivide n (pool ∷ pools) = (pool.token_capacity ∣ n) × AllDivide n pools

pub AllDivide-dvd :
    (m n : ℕ) (pools : List GroupPool) → m ∣ n → AllDivide m pools → AllDivide n pools
AllDivide-dvd m n [] h d = tt
AllDivide-dvd m n (pool ∷ pools) h d =
    (dvd_trans pool.token_capacity d.0 h, AllDivide-dvd m n pools h d.1)

alignment_from-dvd :
    (alignment : ℕ) (pools : List GroupPool)
    → (alignment ∣ alignment_from alignment pools)
      × AllDivide (alignment_from alignment pools) pools
unfolding alignment_from
alignment_from-dvd alignment [] = (dvd_refl alignment, tt)
alignment_from-dvd alignment (pool ∷ pools) =
    let both = lcm-dvd alignment pool.token_capacity in
    let later = alignment_from-dvd (lcm alignment pool.token_capacity) pools in
    (dvd_trans alignment both.0 later.0, (dvd_trans pool.token_capacity both.1 later.0, later.1))

pub AllDivide-alignment_from : (pools : List GroupPool) → AllDivide (alignment_from 1 pools) pools
AllDivide-alignment_from pools = (alignment_from-dvd 1 pools).1
