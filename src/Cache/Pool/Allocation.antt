-- ===== src/Cache/Pool/Allocation.antt =====
-- `allocate_blocks` takes the oldest free blocks, all or none.
use mathlib.Core.List.{append-nil, append_assoc}
use pypto_serving.Prelude.{
  ℕ, zero, suc, ◌≤◌, ◌≡◌, refl, ap, ◌∙◌, false, Option, none, some, List, [], ◌∷◌, ◌++◌, arith,
  ◌==◌, ltb, if◌then◌else◌, elem, length, take, drop,
}
use pypto_serving.Cache.Queue
use pypto_serving.Cache.Queue.Refinement.{popleft-Pops}
use pypto_serving.Cache.Pool.{Pool, take_block, allocate_loop, allocate_blocks}
use pypto_serving.Cache.Pool.Validity.{IsValid, take_block-IsValid}

-- `p'` is `p` with the blocks `bs` taken: they have one reference and no hash, and all other blocks
-- keep theirs.
pub record Taken (p : Pool) (bs : List ℕ) (p' : Pool) : Type 0 where
  pub refs : (c : ℕ) → p'.ref_cnt c ≡ (if elem c bs then 1 else p.ref_cnt c)
  pub hashes : (c : ℕ) → p'.block_hash c ≡ (if elem c bs then none else p.block_hash c)
  pub size : p'.num_blocks ≡ p.num_blocks

Taken-cons :
    (p p' : Pool) (b : ℕ) (q : Queue.Queue) (bs : List ℕ)
    → Taken (take_block p b q) bs p'
    → Taken p (b ∷ bs) p'
unfolding take_block
Taken-cons p p' b q bs t = record {
  refs = λ c. ground (arith, t.refs c);
  hashes = λ c. ground (arith, t.hashes c);
  size = t.size;
}

-- The loop ends with the first `n` free blocks behind those that it has.
abbrev pub Allocates : Pool → List ℕ → List ℕ → ℕ → Option (List ℕ) × Pool → Type 0
Allocates p free bs n r =
    (p' : Pool) × (r ≡ (some (bs ++ take n free), p'))
    × IsValid p' (drop n free)
    × Taken p (take n free) p'

pub allocate_loop-Allocates :
    (n : ℕ) (p : Pool) (free bs : List ℕ)
    → IsValid p free
    → n ≤ length free
    → Allocates p free bs n (allocate_loop n p bs)
unfolding allocate_loop
allocate_loop-Allocates zero p free bs v h =
    (p, rw append-nil, v, record { refs = λ c. refl; hashes = λ c. refl; size = refl })
allocate_loop-Allocates (suc n) p [] bs v h = absurd (omega arith)
allocate_loop-Allocates (suc n) p (b ∷ free) bs v h =
    let (q', popped, holds) = popleft-Pops p.queue (b ∷ free) v.queue in
    let v' = take_block-IsValid p b free q' v holds in
    let (p', result, valid, taken) =
      allocate_loop-Allocates n (take_block p b q') free (bs ++ b ∷ []) v' (omega arith) in
    (
      p',
      rw (popped, allocate_loop)
          (result ∙ ap (λ r. (some r, p')) (append_assoc bs (b ∷ []) (take n free))),
      valid,
      Taken-cons p p' b q' (take n free) taken,
    )

-- With enough free blocks an allocation takes the oldest `n` of them: each gets one reference and
-- loses its hash, all other blocks keep their references and hashes, and the pool stays well formed.
pub allocate_blocks-Allocates :
    (p : Pool) (free : List ℕ) (n : ℕ)
    → IsValid p free
    → n ≤ length free
    → Allocates p free [] n (allocate_blocks p n)
unfolding allocate_blocks
allocate_blocks-Allocates p free zero v h =
    (p, refl, v, record { refs = λ c. refl; hashes = λ c. refl; size = refl })
allocate_blocks-Allocates p free (suc n) v h =
    let enough : ltb p.queue.count (suc n) ≡ false = ground (arith, v.queue.count) in
    let nonzero : (suc n == 0) ≡ false = ground arith in
    rw (nonzero, enough, allocate_blocks) (allocate_loop-Allocates (suc n) p free [] v h)
