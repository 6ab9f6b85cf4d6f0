-- ===== src/Cache/Queue/Refinement.antt =====
-- The linked queue implements a list of distinct blocks, oldest first.
use mathlib.Core.List.{append-nil, append_assoc}
use pypto_serving.Prelude.{
  ℕ, ◌≡◌, refl, false, true, not, Option, none, some, List, [], ◌∷◌, ◌++◌, arith, elem, Distinct,
  erase, erase-Distinct, Distinct-append_one, head?, get_last?, length, length-append, Bool-cases,
  inl, inr, erase-outside, erase_self, Distinct-middle,
}
use pypto_serving.Cache.Queue.{Queue, empty, append, append_n, unlinked, remove, popleft}
use pypto_serving.Cache.Queue.Links.{
  successor, predecessor, successor-outside, predecessor-outside, predecessor-inside,
  last_from-is_block, last_from-append, head-append, predecessor-append, successor-append,
  length-erase, head-erase, last_from-erase, successor-erase, predecessor-erase,
}

-- The queue `q` holds the blocks `l`; every other block is unlinked.
pub record Holds (q : Queue) (l : List ℕ) : Type 0 where
  pub distinct : Distinct l
  pub head : q.head ≡ head? l
  pub tail : q.tail ≡ get_last? l
  pub count : q.count ≡ length l
  pub prev_free : (b : ℕ) → q.prev_free b ≡ predecessor none l b
  pub next_free : (b : ℕ) → q.next_free b ≡ successor l b

pub empty-Holds : Holds empty []
unfolding empty
empty-Holds = record {
  distinct = tt;
  head = refl;
  tail = refl;
  count = refl;
  prev_free = λ b. refl;
  next_free = λ b. refl;
}

-- `append` adds a block that the queue does not hold at its end.
pub append-Holds :
    (q : Queue) (l : List ℕ) (b : ℕ)
    → Holds q l
    → elem b l ≡ false
    → Holds (append q b) (l ++ b ∷ [])
unfolding append
append-Holds q l b h out = record {
  distinct = Distinct-append_one l b h.distinct out;
  head = ground (arith, head-append l b);
  tail = ground (arith, last_from-append none l b);
  count = omega (arith, length-append l (b ∷ []));
  prev_free = λ c. ground (arith, predecessor-append none l b c, h.prev_free c);
  next_free = λ c. ground (
    arith,
    successor-append l b c,
    successor-outside l b,
    h.next_free c,
    last_from-is_block none l b,
  );
}

-- The guard of `remove` is passed by the blocks that the queue holds, and by no others.
pub unlinked-eq-not-elem :
    (q : Queue) (l : List ℕ) (b : ℕ) → Holds q l → unlinked q b ≡ not (elem b l)
unlinked-eq-not-elem q [] b h = ground (arith, h.prev_free b, h.next_free b)
unlinked-eq-not-elem q (x ∷ l) b h = ground (
  arith,
  h.prev_free b,
  h.next_free b,
  predecessor-inside x l b,
  predecessor-outside none (x ∷ l) b,
  successor-outside (x ∷ l) b,
  last_from-is_block none (x ∷ l) b,
)

remove_outside : (q : Queue) (l : List ℕ) (b : ℕ) → Holds q l → elem b l ≡ false → remove q b ≡ q
unfolding remove
remove_outside q l b h out = ground (arith, unlinked-eq-not-elem q l b h)

remove_inside-Holds :
    (q : Queue) (l : List ℕ) (b : ℕ) → Holds q l → elem b l ≡ true → Holds (remove q b) (erase b l)
unfolding remove
remove_inside-Holds q l b h m = record {
  distinct = erase-Distinct b l h.distinct;
  head = ground (arith, unlinked-eq-not-elem q l b h, head-erase l b, h.prev_free b, h.next_free b);
  tail =
      ground (
        arith,
        unlinked-eq-not-elem q l b h,
        last_from-erase none l b,
        h.prev_free b,
        h.next_free b,
      );
  count = ground (arith, unlinked-eq-not-elem q l b h, length-erase b l);
  prev_free = λ c. ground (
    arith,
    unlinked-eq-not-elem q l b h,
    predecessor-erase none l b c h.distinct,
    h.prev_free b,
    h.next_free b,
    h.prev_free c,
  );
  next_free = λ c. ground (
    arith,
    unlinked-eq-not-elem q l b h,
    successor-erase none l b c h.distinct,
    h.prev_free b,
    h.next_free b,
    h.next_free c,
  );
}

-- `remove` takes out a block that the queue holds, and ignores any other.
pub remove-Holds : (q : Queue) (l : List ℕ) (b : ℕ) → Holds q l → Holds (remove q b) (erase b l)
remove-Holds q l b h = elim (Bool-cases (elem b l)) [
  | inl inside ↦ remove_inside-Holds q l b h inside
  | inr outside ↦ rw (remove_outside q l b h outside, erase-outside b l outside) h
]

-- What `popleft` returns from a queue that holds `l`: the oldest block, and a queue of the others.
abbrev pub Pops : List ℕ → Option (ℕ × Queue) → Type 0
Pops [] r = r ≡ none
Pops (b ∷ l) r = (q' : Queue) × (r ≡ some (b, q')) × Holds q' l

-- `popleft` takes the oldest block from a queue that holds any, and returns none from an empty one.
pub popleft-Pops : (q : Queue) (l : List ℕ) → Holds q l → Pops l (popleft q)
unfolding popleft
popleft-Pops q [] h = ground arith
popleft-Pops q (b ∷ l) h =
    (remove q b, ground arith, rw (← erase_self b l) (remove-Holds q (b ∷ l) b h))

-- Blocks that are distinct and not yet in the queue are added at its end, in their order.
pub append_n-Holds :
    (q : Queue) (l bs : List ℕ) → Holds q l → Distinct (l ++ bs) → Holds (append_n q bs) (l ++ bs)
unfolding append_n
append_n-Holds q l [] h d = rw append-nil h
append_n-Holds q l (b ∷ bs) h d = rw (← append_assoc l (b ∷ []) bs) (
    append_n-Holds (append q b) (l ++ b ∷ []) bs (append-Holds q l b h (Distinct-middle l b bs d))
      (rw (append_assoc l (b ∷ []) bs) d))
