-- ===== src/Sched/Schedule/Leaving.antt =====
-- A request leaves the waiting queue: it runs, or it is rejected.
use pypto_serving.Prelude.{
  Distinct-append_one, ℕ, ◌≡◌, ◌∙◌, true, false, List, [], ◌∷◌, ◌++◌, arith, ◌==◌, elem, Distinct,
  Bool-cases, inl, inr, elem-append,
}
use pypto_serving.Sched.Request.{Request, running}
use pypto_serving.Sched.State.{store, others}
use pypto_serving.Sched.State.Queueing.{not_running}
use pypto_serving.Sched.State.Sound.{Queues, elem-others}

-- A list without one of its places.
record Without (i : ℕ) (xs ys : List ℕ) : Type 0 where
  pub distinct : Distinct (xs ++ ys)
  pub gone : elem i (xs ++ ys) ≡ false
  pub kept : (j : ℕ) → elem j (xs ++ ys) ≡ true → elem j (xs ++ i ∷ ys) ≡ true

Distinct-Without : (i : ℕ) (xs ys : List ℕ) → Distinct (xs ++ i ∷ ys) → Without i xs ys
Distinct-Without i [] ys d = record { distinct = d.1; gone = d.0; kept = λ j h. ground (arith, h) }
Distinct-Without i (x ∷ xs) ys d =
    let w = Distinct-Without i xs ys d.1 in
    let out = d.0 in
    let apart : (i == x) ≡ false = ground (arith, out, elem-append x xs (i ∷ ys)) in
    record {
      distinct = (ground (arith, out, elem-append x xs (i ∷ ys), elem-append x xs ys), w.distinct);
      gone = ground (arith, w.gone, apart);
      kept = λ j h. elim (Bool-cases (x == j)) [
        | inl here ↦ ground (arith, here)
        | inr there ↦ ground (arith, there, w.kept j (ground (arith, h, there)))
      ];
    }

pub head-waits : (i : ℕ) (xs ys : List ℕ) → elem i (xs ++ i ∷ ys) ≡ true
head-waits i xs ys = ground (arith, elem-append i xs (i ∷ ys))

-- The request runs; it was waiting.
pub Queues-run :
    (objects : ℕ → Request) (known ids xs ys : List ℕ) (i : ℕ) (r : Request)
    → r.status ≡ running
    → r.request_id ≡ (objects i).request_id
    → Queues objects known ids (xs ++ i ∷ ys)
    → Queues (store objects i r) known (ids ++ i ∷ []) (xs ++ ys)
Queues-run objects known ids xs ys i r e k v =
    let w = Distinct-Without i xs ys v.waiting_distinct in
    let out = not_running objects known ids (xs ++ i ∷ ys) i v (head-waits i xs ys) in
    record {
      running_distinct = Distinct-append_one ids i v.running_distinct out;
      waiting_distinct = w.distinct;
      is_running = λ j h. elim (Bool-cases (i == j)) [
        | inl here ↦ simp here e
        | inr other ↦
            simp other (v.is_running j (ground (arith, h, other, elem-append j ids (i ∷ []))))
      ];
      is_waiting = λ j h. elim (Bool-cases (i == j)) [
        | inl here ↦ absurd (ground (arith, h, here, w.gone))
        | inr other ↦ simp other (v.is_waiting j (w.kept j h))
      ];
      ids = λ j. elim (Bool-cases (i == j)) [
        | inl here ↦ simp here (k ∙ ground (arith, here, v.ids i))
        | inr other ↦ simp other (v.ids j)
      ];
      known_running = λ j h. elim (Bool-cases (i == j)) [
        | inl here ↦ ground (arith, here, v.known_waiting i (head-waits i xs ys))
        | inr other ↦ v.known_running j (ground (arith, h, other, elem-append j ids (i ∷ [])))
      ];
      known_waiting = λ j h. v.known_waiting j (w.kept j h);
    }

-- The request leaves the scheduler; it was waiting.
pub Queues-reject :
    (objects : ℕ → Request) (known ids xs ys : List ℕ) (i : ℕ) (r : Request)
    → r.request_id ≡ (objects i).request_id
    → Queues objects known ids (xs ++ i ∷ ys)
    → Queues (store objects i r) (others i known) ids (xs ++ ys)
Queues-reject objects known ids xs ys i r k v =
    let w = Distinct-Without i xs ys v.waiting_distinct in
    let out = not_running objects known ids (xs ++ i ∷ ys) i v (head-waits i xs ys) in
    record {
      running_distinct = v.running_distinct;
      waiting_distinct = w.distinct;
      is_running = λ j h. elim (Bool-cases (i == j)) [
        | inl here ↦ absurd (ground (arith, h, here, out))
        | inr other ↦ simp other (v.is_running j h)
      ];
      is_waiting = λ j h. elim (Bool-cases (i == j)) [
        | inl here ↦ absurd (ground (arith, h, here, w.gone))
        | inr other ↦ simp other (v.is_waiting j (w.kept j h))
      ];
      ids = λ j. elim (Bool-cases (i == j)) [
        | inl here ↦ simp here (k ∙ ground (arith, here, v.ids i))
        | inr other ↦ simp other (v.ids j)
      ];
      known_running = λ j h. elim (Bool-cases (i == j)) [
        | inl here ↦ absurd (ground (arith, h, here, out))
        | inr other ↦ ground (arith, other, elem-others i j known, v.known_running j h)
      ];
      known_waiting = λ j h. elim (Bool-cases (i == j)) [
        | inl here ↦ absurd (ground (arith, h, here, w.gone))
        | inr other ↦ ground (arith, other, elem-others i j known, v.known_waiting j (w.kept j h))
      ];
    }
