-- ===== src/Sched/Update/Retired.antt =====
-- The sweep over the running requests and the retirement of those that finished: with the results of
-- a step applied, the state is sound again.
use pypto_serving.Prelude.{
  ℕ, ◌≡◌, refl, ◌∙◌, ap, true, false, List, [], ◌∷◌, arith, ◌==◌, elem, Distinct, Bool-cases,
  Option-cases, inl, inr, Outcome, returned, fold_outcome, elem-append,
}
use pypto_serving.Sched.Request.{
  Request, RequestStatus, RequestOutput, ScheduledRequest, check_finish, running, is_finished,
}
use pypto_serving.Sched.Blocks.Accounted.{free_request_blocks-Step}
use pypto_serving.Sched.State.{Scheduler, lease, put_back, store, others, with_status}
use pypto_serving.Sched.State.Sound.{
  Sound, Blocks, Blocks-focus, Blocks-drop, Blocks-restate, elem-others, others-Distinct,
  others-outside, is_queued, rest_of,
}
use pypto_serving.Sched.State.Queueing.{not_waiting}
use pypto_serving.Sched.Update.{Sweep, sweep_request, sweep, retire, update_from_output}
use pypto_serving.Sched.Update.Results.{Reported, stale_in, updates-Sound}

-- What the sweep leaves of the objects: only the requests that it lists have another status.
record Swept (objects : ℕ → Request) (ids : List ℕ) (w : Sweep) : Type 0 where
  pub id : (i : ℕ) → (w.objects i).request_id ≡ (objects i).request_id
  pub cached : (i : ℕ) → (w.objects i).cached_block_ids ≡ (objects i).cached_block_ids
  pub owned : (i : ℕ) → (w.objects i).allocated_block_ids ≡ (objects i).allocated_block_ids
  pub tables :
      (i : ℕ) → (w.objects i).allocated_group_block_ids ≡ (objects i).allocated_group_block_ids
  pub status : (i : ℕ) → elem i w.finished_ids ≡ false → (w.objects i).status ≡ (objects i).status
  pub listed : (i : ℕ) → elem i w.finished_ids ≡ true → elem i ids ≡ true

-- An object that is stored with another status has the same blocks.
restatus {ℓ} :
    {A : Type ℓ} (field : Request → A) (objects : ℕ → Request) (i : ℕ) (status : RequestStatus)
    → field (with_status (objects i) status) ≡ field (objects i)
    → (j : ℕ) → field (store objects i (with_status (objects i) status) j) ≡ field (objects j)
restatus field objects i status e j = elim (Bool-cases (i == j)) [
  | inl here ↦ simp here (e ∙ ap (λ (k : ℕ). field (objects k)) (ground (arith, here)))
  | inr other ↦ simp other refl
]

sweep_request-Swept :
    (objects : ℕ → Request) (ids : List ℕ) (w : Sweep) (i : ℕ)
    → elem i ids ≡ true
    → Swept objects ids w
    → Swept objects ids (sweep_request w i)
unfolding sweep_request
sweep_request-Swept objects ids w i there v = elim (Bool-cases (is_finished (w.objects i).status)) [
  | inl done ↦ rw (done, sweep_request) v
  | inr live ↦ elim (Option-cases (check_finish (w.objects i))) [
    | inl goes_on ↦ rw (live, sweep_request) (rw (goes_on, sweep_request) v)
    | inr (status, ends) ↦
        rw (live, sweep_request)
          (rw (ends, sweep_request)
            (record {
              id = λ j. restatus (λ (r : Request). r.request_id) w.objects i status refl j ∙ v.id j;
              cached = λ j.
                  restatus (λ (r : Request). r.cached_block_ids) w.objects i status refl j
                  ∙ v.cached j;
              owned = λ j.
                  restatus (λ (r : Request). r.allocated_block_ids) w.objects i status refl j
                  ∙ v.owned j;
              tables = λ j.
                  restatus (λ (r : Request). r.allocated_group_block_ids) w.objects i status refl j
                  ∙ v.tables j;
              status = λ j h. elim (Bool-cases (i == j)) [
                | inl here ↦ absurd (ground (arith, h, here, elem-append j w.finished_ids (i ∷ [])))
                | inr other ↦
                    simp other
                      (v.status j (ground (arith, h, elem-append j w.finished_ids (i ∷ []))))
              ];
              listed = λ j h. elim (Bool-cases (i == j)) [
                | inl here ↦ ground (arith, here, there)
                | inr other ↦
                    v.listed j (ground (arith, h, other, elem-append j w.finished_ids (i ∷ [])))
              ];
            }))
  ]
]

sweep-Swept :
    (objects : ℕ → Request) (ids : List ℕ) (w : Sweep) (todo : List ℕ)
    → ((i : ℕ) → elem i todo ≡ true → elem i ids ≡ true)
    → Swept objects ids w
    → Swept objects ids (sweep w todo)
unfolding sweep
sweep-Swept objects ids w [] within v = v
sweep-Swept objects ids w (i ∷ todo) within v =
    sweep-Swept objects ids (sweep_request w i) todo (λ j h. within j (ground (arith, h)))
      (sweep_request-Swept objects ids w i (within i (ground arith)) v)

-- The state of the retirement, where `todo` are the finished requests that are left.
record Retiring (s : Scheduler) (todo : List ℕ) : Type 0 where
  pub blocks : Blocks s.manager s.objects s.running_ids
  pub running_distinct : Distinct s.running_ids
  pub waiting_distinct : Distinct s.waiting_ids
  pub is_running :
      (i : ℕ) → elem i s.running_ids ≡ true → elem i todo ≡ false → (s.objects i).status ≡ running
  pub is_waiting : (i : ℕ) → elem i s.waiting_ids ≡ true → is_queued (s.objects i).status ≡ true
  pub ids : (i : ℕ) → (s.objects i).request_id ≡ i
  pub known_running : (i : ℕ) → elem i s.running_ids ≡ true → elem i s.known ≡ true
  pub known_waiting : (i : ℕ) → elem i s.waiting_ids ≡ true → elem i s.known ≡ true

retired-Sound : (s : Scheduler) → Retiring s [] → Sound s
retired-Sound s v = record {
  blocks = v.blocks;
  queues = record {
    running_distinct = v.running_distinct;
    waiting_distinct = v.waiting_distinct;
    is_running = λ i h. v.is_running i h (ground arith);
    is_waiting = v.is_waiting;
    ids = v.ids;
    known_running = v.known_running;
    known_waiting = v.known_waiting;
  };
}

-- One retirement.
record Retires (todo : List ℕ) (r : Outcome Scheduler) : Type 0 where
  pub s' : Scheduler
  pub result : r ≡ returned s'
  pub retiring : Retiring s' todo

retire_known :
    (s : Scheduler) (i : ℕ) (todo : List ℕ)
    → elem i s.known ≡ true
    → Retiring s (i ∷ todo)
    → Retires todo (retire s i)
unfolding retire
retire_known s i todo known v =
    let rest = rest_of s.objects s.running_ids i in
    let t =
      free_request_blocks-Step rest (lease s i)
        (Blocks-focus s.manager s.objects s.running_ids i v.running_distinct v.blocks) in
    let out : (j : ℕ)
        → elem j (others i s.running_ids) ≡ true
        → (elem j s.running_ids ≡ true) × ((i == j) ≡ false) =
      λ j h. (
        ground (arith, h, elem-others i j s.running_ids),
        ground (arith, h, elem-others i j s.running_ids),
      ) in
    record {
      s' = record (put_back s i t.0) { running_ids = others i s.running_ids };
      result = simp (known, t.1) refl;
      retiring = record {
        blocks =
            Blocks-drop s.manager s.objects s.running_ids i t.0 v.blocks t.2.accounted t.2.size (
              ap (λ (x : Request). x.cached_block_ids) t.3,
              ap (λ (x : Request). x.allocated_block_ids) t.3,
            );
        running_distinct = others-Distinct i s.running_ids v.running_distinct;
        waiting_distinct = v.waiting_distinct;
        is_running = λ j h gone.
            simp ((out j h).1) (v.is_running j (out j h).0 (ground (arith, gone, (out j h).1)));
        is_waiting = λ j h. elim (Bool-cases (i == j)) [
          | inl here ↦
              simp here (ap is_queued t.2.status ∙ v.is_waiting i (ground (arith, here, h)))
          | inr other ↦ simp other (v.is_waiting j h)
        ];
        ids = λ j. elim (Bool-cases (i == j)) [
          | inl here ↦ simp here (t.2.id ∙ ground (arith, here, v.ids i))
          | inr other ↦ simp other (v.ids j)
        ];
        known_running = λ j h. v.known_running j (out j h).0;
        known_waiting = v.known_waiting;
      };
    }

retire_unknown :
    (s : Scheduler) (i : ℕ) (todo : List ℕ)
    → elem i s.known ≡ false
    → Retiring s (i ∷ todo)
    → Retires todo (retire s i)
unfolding retire
retire_unknown s i todo unknown v =
    let gone : elem i s.running_ids ≡ false = elim (Bool-cases (elem i s.running_ids)) [
      | inl there ↦ absurd (ground (arith, unknown, v.known_running i there))
      | inr out ↦ out
    ] in
    record {
      s' = s;
      result = simp unknown (
          ap (λ (l : List ℕ). returned (record s { running_ids = l }))
            (others-outside i s.running_ids gone));
      retiring = record {
        blocks = v.blocks;
        running_distinct = v.running_distinct;
        waiting_distinct = v.waiting_distinct;
        is_running = λ j h out. v.is_running j h (elim (Bool-cases (i == j)) [
          | inl here ↦ absurd (ground (arith, here, h, gone))
          | inr other ↦ ground (arith, other, out)
        ]);
        is_waiting = v.is_waiting;
        ids = v.ids;
        known_running = v.known_running;
        known_waiting = v.known_waiting;
      };
    }

retire_all :
    (s : Scheduler) (todo : List ℕ)
    → Retiring s todo
    → (s' : Scheduler) × (fold_outcome retire s todo ≡ returned s') × Sound s'
retire_all s [] v = (s, refl, retired-Sound s v)
retire_all s (i ∷ todo) v =
    let r : Retires todo (retire s i) = elim (Bool-cases (elem i s.known)) [
      | inl known ↦ retire_known s i todo known v
      | inr unknown ↦ retire_unknown s i todo unknown v
    ] in
    let later = retire_all r.s' todo r.retiring in (later.0, simp r.result later.1, later.2)

-- The sweep of a sound state.
swept-Retiring :
    (s : Scheduler) (outputs : List RequestOutput)
    → Sound s
    → (w : Sweep) × (sweep
          (record { outputs = outputs; objects = s.objects; finished_ids = [] })
          s.running_ids
        ≡ w)
      × Retiring (record s { objects = w.objects }) w.finished_ids
swept-Retiring s outputs v =
    let start : Sweep = record { outputs = outputs; objects = s.objects; finished_ids = [] } in
    let k =
      sweep-Swept s.objects s.running_ids start s.running_ids (λ i h. h)
        (record {
          id = λ i. refl;
          cached = λ i. refl;
          owned = λ i. refl;
          tables = λ i. refl;
          status = λ i h. refl;
          listed = λ i h. absurd (ground (arith, h));
        }) in
    let w = sweep start s.running_ids in
    (
      w,
      refl,
      record {
        blocks =
            Blocks-restate s.manager s.objects w.objects s.running_ids k.cached k.owned k.tables
              v.blocks;
        running_distinct = v.queues.running_distinct;
        waiting_distinct = v.queues.waiting_distinct;
        is_running = λ i h out. k.status i out ∙ v.queues.is_running i h;
        is_waiting = λ i h.
            let free : elem i w.finished_ids ≡ false = elim (Bool-cases (elem i w.finished_ids)) [
              | inr out ↦ out
              | inl both ↦ absurd (
                  ground (
                    arith,
                    h,
                    not_waiting s.objects s.known s.running_ids s.waiting_ids i v.queues
                        (k.listed i both),
                  ))
            ] in
            ap is_queued (k.status i free) ∙ v.queues.is_waiting i h;
        ids = λ i. k.id i ∙ v.queues.ids i;
        known_running = v.queues.known_running;
        known_waiting = v.queues.known_waiting;
      },
    )

-- In a model without cache groups, the result of a step whose requests run, or are stale, is applied
-- without an error, and the state that it leaves is sound: no finished request is left in a queue.
pub update_from_output-Sound :
    (s : Scheduler) (scheduled : List ScheduledRequest) (tokens_of : ℕ → List ℕ)
    → Sound s
    → Reported (stale_in s.objects) s.running_ids scheduled
    → (outputs : List RequestOutput) × (s' : Scheduler) × (update_from_output s scheduled tokens_of
        ≡ returned (outputs, s'))
      × Sound s'
unfolding update_from_output
update_from_output-Sound s scheduled tokens_of v reported =
    let t = updates-Sound tokens_of [] s scheduled v reported in
    let k = swept-Retiring t.0.1 t.0.0 t.2 in
    let r = retire_all (record t.0.1 { objects = k.0.objects }) k.0.finished_ids k.2 in
    (k.0.outputs, r.0, simp (t.1, k.1, r.1) refl, r.2)
