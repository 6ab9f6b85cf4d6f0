-- ===== src/Sched/Schedule/Passes.antt =====
-- What each step of the pass over the running requests keeps of the state.
use mathlib.Core.List.{append_assoc}
use pypto_serving.Prelude.{
  ℕ, ◌≡◌, refl, ◌∙◌, ap, Bool, true, false, not, ◌&&◌, List, [], ◌∷◌, ◌++◌, arith, ◌==◌, elem,
  select, Bool-cases, inl, inr, Outcome, returned, elem-append,
}
use pypto_serving.Sched.Request.{Request, preempted, is_preempted}
use pypto_serving.Sched.Blocks.{Lease}
use pypto_serving.Sched.Blocks.Accounted.{Step, try_allocate_request_blocks-Tried}
use pypto_serving.Sched.State.{store, others, lease, put_back}
use pypto_serving.Sched.State.Queueing.{not_waiting}
use pypto_serving.Sched.State.Sound.{
  Blocks, Queues, Blocks-focus, Blocks-keep, elem-others, others-Distinct, is_queued, rest_of,
}
use pypto_serving.Sched.Schedule.{Pass, keep, schedule_request, allocated_or, allocate_in}

-- The request was not preempted.
abbrev pub runs : (ℕ → Request) → ℕ → Bool
runs objects i = not (is_preempted (objects i).status)

select-append : (f : ℕ → Bool) (xs ys : List ℕ) → select f (xs ++ ys) ≡ select f xs ++ select f ys
select-append f [] ys = refl
select-append f (x ∷ xs) ys = ground (arith, select-append f xs ys)

select-runs_same :
    (objects : ℕ → Request) (i : ℕ) (r : Request) (xs : List ℕ)
    → r.status ≡ (objects i).status
    → select (runs (store objects i r)) xs ≡ select (runs objects) xs
select-runs_same objects i r [] e = refl
select-runs_same objects i r (x ∷ xs) e = elim (Bool-cases (i == x)) [
  | inl here ↦ ground (arith, here, e, select-runs_same objects i r xs e)
  | inr there ↦ ground (arith, there, select-runs_same objects i r xs e)
]

pub select-runs_victim :
    (objects : ℕ → Request) (i : ℕ) (r : Request) (xs : List ℕ)
    → r.status ≡ preempted
    → select (runs (store objects i r)) xs ≡ others i (select (runs objects) xs)
select-runs_victim objects i r [] e = refl
select-runs_victim objects i r (x ∷ xs) e = elim (Bool-cases (i == x)) [
  | inl here ↦ ground (arith, here, e, select-runs_victim objects i r xs e)
  | inr there ↦ ground (arith, there, select-runs_victim objects i r xs e)
]

pub Queues-same :
    (objects : ℕ → Request) (known ids waiting_ids : List ℕ) (i : ℕ) (r : Request)
    → r.status ≡ (objects i).status
    → r.request_id ≡ (objects i).request_id
    → Queues objects known ids waiting_ids
    → Queues (store objects i r) known ids waiting_ids
Queues-same objects known ids waiting_ids i r e k v = record {
  running_distinct = v.running_distinct;
  waiting_distinct = v.waiting_distinct;
  is_running = λ j h. elim (Bool-cases (i == j)) [
    | inl here ↦ simp here (e ∙ v.is_running i (ground (arith, here, h)))
    | inr there ↦ simp there (v.is_running j h)
  ];
  is_waiting = λ j h. elim (Bool-cases (i == j)) [
    | inl here ↦ simp here (ap is_queued e ∙ v.is_waiting i (ground (arith, here, h)))
    | inr there ↦ simp there (v.is_waiting j h)
  ];
  ids = λ j. elim (Bool-cases (i == j)) [
    | inl here ↦ simp here (k ∙ ground (arith, here, v.ids i))
    | inr there ↦ simp there (v.ids j)
  ];
  known_running = v.known_running;
  known_waiting = v.known_waiting;
}

-- The victim is in the other queue, at its head.
pub Queues-victim :
    (objects : ℕ → Request) (known ids waiting_ids : List ℕ) (i : ℕ) (r : Request)
    → elem i ids ≡ true
    → r.status ≡ preempted
    → r.request_id ≡ (objects i).request_id
    → Queues objects known ids waiting_ids
    → Queues (store objects i r) known (others i ids) (i ∷ waiting_ids)
Queues-victim objects known ids waiting_ids i r there e k v = record {
  running_distinct = others-Distinct i ids v.running_distinct;
  waiting_distinct = (not_waiting objects known ids waiting_ids i v there, v.waiting_distinct);
  is_running = λ j h. elim (Bool-cases (i == j)) [
    | inl here ↦ absurd (ground (arith, here, h, elem-others i j ids))
    | inr other ↦ simp other (v.is_running j (ground (arith, h, elem-others i j ids)))
  ];
  is_waiting = λ j h. elim (Bool-cases (i == j)) [
    | inl here ↦ simp here (ap is_queued e)
    | inr other ↦ simp other (v.is_waiting j (ground (arith, h, other)))
  ];
  ids = λ j. elim (Bool-cases (i == j)) [
    | inl here ↦ simp here (k ∙ ground (arith, here, v.ids i))
    | inr other ↦ simp other (v.ids j)
  ];
  known_running = λ j h. v.known_running j (ground (arith, h, elem-others i j ids));
  known_waiting = λ j h. elim (Bool-cases (i == j)) [
    | inl here ↦ v.known_running j (ground (arith, here, there))
    | inr other ↦ v.known_waiting j (ground (arith, h, other))
  ];
}

-- The state of the pass, where `todo` is what is left of the list that it walks: the running list is
-- that of the requests kept and left, less the victims.
pub record PassOk (p : Pass) (todo : List ℕ) : Type 0 where
  pub blocks : Blocks p.scheduler.manager p.scheduler.objects p.scheduler.running_ids
  pub queues :
      Queues p.scheduler.objects p.scheduler.known p.scheduler.running_ids p.scheduler.waiting_ids
  pub order : select (runs p.scheduler.objects) (p.kept ++ todo) ≡ p.scheduler.running_ids

-- The pass goes on, from a request that it has looked at.
pub record Goes (todo : List ℕ) (r : Outcome Pass) : Type 0 where
  pub p' : Pass
  pub result : r ≡ returned p'
  pub passes : PassOk p' todo

pub keep-PassOk : (p : Pass) (i : ℕ) (todo : List ℕ) → PassOk p (i ∷ todo) → PassOk (keep p i) todo
keep-PassOk p i todo v = record {
  blocks = v.blocks;
  queues = v.queues;
  order =
      ap (λ (l : List ℕ). select (runs p.scheduler.objects) l) (append_assoc p.kept (i ∷ []) todo)
      ∙ v.order;
}

pub skip-PassOk :
    (p : Pass) (i : ℕ) (todo : List ℕ)
    → is_preempted (p.scheduler.objects i).status ≡ true
    → PassOk p (i ∷ todo)
    → PassOk p todo
skip-PassOk p i todo e v = record {
  blocks = v.blocks;
  queues = v.queues;
  order = ground (
    arith,
    e,
    v.order,
    select-append (runs p.scheduler.objects) p.kept (i ∷ todo),
    select-append (runs p.scheduler.objects) p.kept todo,
  );
}

elem-select : (f : ℕ → Bool) (x : ℕ) (xs : List ℕ) → elem x (select f xs) ≡ (f x && elem x xs)
elem-select f x [] = ground arith
elem-select f x (y ∷ ys) = elim (Bool-cases (y == x)) [
  | inl here ↦ ground (arith, here, elem-select f x ys)
  | inr there ↦ ground (arith, there, elem-select f x ys)
]

pub schedule_request-PassOk :
    (p : Pass) (i n tokens : ℕ) (as_prefill : Bool) (todo : List ℕ)
    → PassOk p (i ∷ todo)
    → PassOk (schedule_request p i n tokens as_prefill) todo
unfolding schedule_request
schedule_request-PassOk p i n tokens as_prefill todo v = record {
  blocks = v.blocks;
  queues = v.queues;
  order = (keep-PassOk p i todo v).order;
}

-- The request at hand runs.
pub head-runs :
    (p : Pass) (i : ℕ) (todo : List ℕ)
    → is_preempted (p.scheduler.objects i).status ≡ false
    → PassOk p (i ∷ todo)
    → elem i p.scheduler.running_ids ≡ true
head-runs p i todo e v = ground (
  arith,
  e,
  ap (λ (l : List ℕ). elem i l) v.order,
  elem-select (runs p.scheduler.objects) i (p.kept ++ i ∷ todo),
  elem-append i p.kept (i ∷ todo),
)

-- A call for a running request that keeps the account.
put_back-PassOk :
    (p : Pass) (i : ℕ) (todo : List ℕ) (h' : Lease)
    → elem i p.scheduler.running_ids ≡ true
    → PassOk p todo
    → Step (rest_of p.scheduler.objects p.scheduler.running_ids i) (lease p.scheduler i) h'
    → PassOk (record p { scheduler = put_back p.scheduler i h' }) todo
put_back-PassOk p i todo h' there v step =
    let s = p.scheduler in
    record {
      blocks =
          Blocks-keep s.manager s.objects s.running_ids i h' v.queues.running_distinct v.blocks
            step.accounted step.size (λ k. absurd (ground (arith, k, there)));
      queues =
          Queues-same s.objects s.known s.running_ids s.waiting_ids i h'.request step.status step.id
            v.queues;
      order = select-runs_same s.objects i h'.request (p.kept ++ todo) step.status ∙ v.order;
    }

-- What follows an attempt to allocate.
allocated_or-Goes :
    (p : Pass) (i : ℕ) (todo rest : List ℕ) (enough short : Pass → Outcome Pass) (x : Bool × Lease)
    → elem i p.scheduler.running_ids ≡ true
    → PassOk (record p { scheduler = put_back p.scheduler i x.1 }) todo
    → ((q : Pass) → elem i q.scheduler.running_ids ≡ true → PassOk q todo → Goes rest (enough q))
    → ((q : Pass) → elem i q.scheduler.running_ids ≡ true → PassOk q todo → Goes rest (short q))
    → Goes rest (allocated_or p i enough short x)
allocated_or-Goes p i todo rest enough short (true, h') there v yes_enough no_short =
    yes_enough (record p { scheduler = put_back p.scheduler i h' }) there v
allocated_or-Goes p i todo rest enough short (false, h') there v yes_enough no_short =
    no_short (record p { scheduler = put_back p.scheduler i h' }) there v

-- An attempt to allocate, and what follows in either case.
pub allocate_in-Goes :
    (p : Pass) (i n : ℕ) (todo rest : List ℕ) (enough short : Pass → Outcome Pass)
    → elem i p.scheduler.running_ids ≡ true
    → PassOk p todo
    → ((q : Pass) → elem i q.scheduler.running_ids ≡ true → PassOk q todo → Goes rest (enough q))
    → ((q : Pass) → elem i q.scheduler.running_ids ≡ true → PassOk q todo → Goes rest (short q))
    → Goes rest (allocate_in p i n enough short)
unfolding allocate_in
allocate_in-Goes p i n todo rest enough short there v yes_enough no_short =
    let s = p.scheduler in
    let t =
      try_allocate_request_blocks-Tried (rest_of s.objects s.running_ids i) (lease s i) n
        (Blocks-focus s.manager s.objects s.running_ids i v.queues.running_distinct v.blocks) in
    let w = put_back-PassOk p i todo t.0.1 there v t.2.step in
    simp t.1 (allocated_or-Goes p i todo rest enough short t.0 there w yes_enough no_short)
