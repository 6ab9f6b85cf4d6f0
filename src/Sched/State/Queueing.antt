-- ===== src/Sched/State/Queueing.antt =====
-- Adding, aborting and finishing a request keep the state sound.
use pypto_serving.Prelude.{
  ℕ, ◌≡◌, refl, ◌∙◌, sym, ap, true, false, List, arith, ◌==◌, elem, Distinct, Bool-cases, inl, inr,
  returned,
}
use pypto_serving.Sched.Request.{Request, RequestStatus, finished_aborted}
use pypto_serving.Sched.Blocks.{Lease, without_blocks}
use pypto_serving.Sched.Blocks.Accounted.{Accounted, free_request_blocks-Step}
use pypto_serving.Sched.State.{
  Scheduler, store, others, lease, put_back, with_status, free_with_status, abort_request,
  finish_request,
}
use pypto_serving.Sched.State.Sound.{
  Sound, Blocks, Queues, Blocks-focus, Blocks-drop, elem-others, others-Distinct, is_queued,
  rest_of,
}

pub with_status-Accounted :
    (rest : ℕ → ℕ) (h : Lease) (status : RequestStatus)
    → Accounted rest h
    → Accounted rest (record h { request = with_status h.request status })
with_status-Accounted rest h status a = record {
  no_groups = a.no_groups;
  free = a.free;
  valid = a.valid;
  refs = a.refs;
  in_range = a.in_range;
  tables = a.tables;
}

-- A running request does not wait.
pub not_waiting :
    (objects : ℕ → Request) (known ids waiting_ids : List ℕ) (i : ℕ)
    → Queues objects known ids waiting_ids
    → elem i ids ≡ true
    → elem i waiting_ids ≡ false
not_waiting objects known ids waiting_ids i v there = elim (Bool-cases (elem i waiting_ids)) [
  | inr out ↦ out
  | inl both ↦
      let clash : true ≡ false = sym (v.is_waiting i both) ∙ ap is_queued (v.is_running i there) in
      absurd cc
]

-- A waiting request does not run.
pub not_running :
    (objects : ℕ → Request) (known ids waiting_ids : List ℕ) (i : ℕ)
    → Queues objects known ids waiting_ids
    → elem i waiting_ids ≡ true
    → elem i ids ≡ false
not_running objects known ids waiting_ids i v there = elim (Bool-cases (elem i ids)) [
  | inr out ↦ out
  | inl both ↦
      let clash : true ≡ false = sym (v.is_waiting i there) ∙ ap is_queued (v.is_running i both) in
      absurd cc
]

-- A request leaves the running list, with a queue and a dictionary that still hold the other ones.
pub Queues-leave :
    (objects : ℕ → Request) (known known' ids ws ws' : List ℕ) (i : ℕ) (r : Request)
    → r.request_id ≡ (objects i).request_id
    → Distinct ws'
    → ((j : ℕ) → elem j ws' ≡ true → (elem j ws ≡ true) × ((i == j) ≡ false))
    → ((j : ℕ) → (i == j) ≡ false → elem j known ≡ true → elem j known' ≡ true)
    → Queues objects known ids ws
    → Queues (store objects i r) known' (others i ids) ws'
Queues-leave objects known known' ids ws ws' i r k d within keeps v =
    let out : (j : ℕ) → elem j (others i ids) ≡ true → (elem j ids ≡ true) × ((i == j) ≡ false) =
      λ j h. (ground (arith, h, elem-others i j ids), ground (arith, h, elem-others i j ids)) in
    record {
      running_distinct = others-Distinct i ids v.running_distinct;
      waiting_distinct = d;
      is_running = λ j h. simp ((out j h).1) (v.is_running j (out j h).0);
      is_waiting = λ j h. simp ((within j h).1) (v.is_waiting j (within j h).0);
      ids = λ j. elim (Bool-cases (i == j)) [
        | inl here ↦ simp here (k ∙ ground (arith, here, v.ids i))
        | inr other ↦ simp other (v.ids j)
      ];
      known_running = λ j h. keeps j (out j h).1 (v.known_running j (out j h).0);
      known_waiting = λ j h. keeps j (within j h).1 (v.known_waiting j (within j h).0);
    }

-- The blocks of a request are freed, and it leaves the running list.
pub record Freed (s : Scheduler) (i : ℕ) (status : RequestStatus) : Type 0 where
  pub s' : Scheduler
  pub result : free_with_status s i status ≡ returned s'
  pub h' : Lease
  pub is_put_back : s' ≡ put_back s i h'
  pub request : h'.request ≡ without_blocks (with_status (s.objects i) status)
  pub blocks : Blocks h'.manager (store s.objects i h'.request) (others i s.running_ids)

pub free_with_status-Freed :
    (s : Scheduler) (i : ℕ) (status : RequestStatus) → Sound s → Freed s i status
unfolding free_with_status
free_with_status-Freed s i status v =
    let rest = rest_of s.objects s.running_ids i in
    let t =
      free_request_blocks-Step rest
        (record { manager = s.manager; request = with_status (s.objects i) status })
        (with_status-Accounted rest (lease s i) status
          (Blocks-focus s.manager s.objects s.running_ids i v.queues.running_distinct v.blocks)) in
    record {
      s' = put_back s i t.0;
      result = simp t.1 refl;
      h' = t.0;
      is_put_back = refl;
      request = t.3;
      blocks = Blocks-drop s.manager s.objects s.running_ids i t.0 v.blocks t.2.accounted t.2.size (
        ap (λ (x : Request). x.cached_block_ids) t.3,
        ap (λ (x : Request). x.allocated_block_ids) t.3,
      );
    }

not_elem-others : (i : ℕ) (ids : List ℕ) → elem i (others i ids) ≡ false
not_elem-others i ids = ground (arith, elem-others i i ids)

-- In a model without cache groups, aborting a request of a sound state raises no error, and leaves a sound state where the request is
-- in no queue and in no dictionary.
pub abort_request-Sound :
    (s : Scheduler) (i : ℕ)
    → Sound s
    → (s' : Scheduler) × (abort_request s i ≡ returned s')
      × Sound s'
      × (elem i s'.known ≡ false)
      × (elem i s'.running_ids ≡ false)
      × (elem i s'.waiting_ids ≡ false)
unfolding abort_request
abort_request-Sound s i v = elim (Bool-cases (elem i s.known)) [
  | inr unknown ↦ (
    s,
    simp unknown refl,
    v,
    unknown,
    elim (Bool-cases (elem i s.running_ids)) [
      | inl there ↦ absurd (ground (arith, unknown, v.queues.known_running i there))
      | inr out ↦ out
    ],
    elim (Bool-cases (elem i s.waiting_ids)) [
      | inl there ↦ absurd (ground (arith, unknown, v.queues.known_waiting i there))
      | inr out ↦ out
    ],
  )
  | inl known ↦
      let f = free_with_status-Freed s i finished_aborted v in
      let e = f.is_put_back in
      (
        record (put_back s i f.h') {
          running_ids = others i s.running_ids;
          waiting_ids = others i s.waiting_ids;
          known = others i s.known;
        },
        simp (known, f.result, e) refl,
        record {
          blocks = f.blocks;
          queues =
              Queues-leave s.objects s.known (others i s.known) s.running_ids s.waiting_ids
                (others i s.waiting_ids) i f.h'.request
                (ap (λ (x : Request). x.request_id) f.request)
                (others-Distinct i s.waiting_ids v.queues.waiting_distinct)
                (λ j h. (
                  ground (arith, h, elem-others i j s.waiting_ids),
                  ground (arith, h, elem-others i j s.waiting_ids),
                ))
                (λ j other h. ground (arith, other, h, elem-others i j s.known)) v.queues;
        },
        not_elem-others i s.known,
        not_elem-others i s.running_ids,
        not_elem-others i s.waiting_ids,
      )
]

-- Finishing a running request.
pub finish_request-Sound :
    (s : Scheduler) (i : ℕ) (status : RequestStatus)
    → Sound s
    → elem i s.running_ids ≡ true
    → (s' : Scheduler) × (finish_request s i status ≡ returned s') × Sound s'
unfolding finish_request
finish_request-Sound s i status v there =
    let f = free_with_status-Freed s i status v in
    let known = v.queues.known_running i there in
    (
      record (put_back s i f.h') { running_ids = others i s.running_ids },
      simp (known, f.result, f.is_put_back) refl,
      record {
        blocks = f.blocks;
        queues =
            Queues-leave s.objects s.known s.known s.running_ids s.waiting_ids s.waiting_ids i
              f.h'.request (ap (λ (x : Request). x.request_id) f.request) v.queues.waiting_distinct
              (λ j h. (
                h,
                elim (Bool-cases (i == j)) [
                  | inr other ↦ other
                  | inl here ↦ absurd (
                      ground (
                        arith,
                        here,
                        h,
                        not_waiting s.objects s.known s.running_ids s.waiting_ids i v.queues there,
                      ))
                ],
              ))
              (λ j _ h. h) v.queues;
      },
    )
