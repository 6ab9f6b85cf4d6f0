-- ===== src/Sched/Schedule/Preempts.antt =====
-- The pass over the running requests with its preemptions keeps the state sound, and raises no error.
use mathlib.Core.List.{append-nil}
use pypto_serving.Prelude.{
  ◌⊎◌, count, ℕ, ◌+◌, ◌≡◌, refl, ◌∙◌, sym, ap, Bool, true, false, not, ◌||◌, Option, none, some,
  List, [], ◌∷◌, ◌++◌, arith, ◌==◌, ltb, elem, select, Bool-cases, inl, inr, Outcome, returned,
  fold_outcome, List-cases,
}
use pypto_serving.Sched.Request.{Request, is_preempted, is_prefill}
use pypto_serving.Sched.Limits.{limit_scheduled_tokens}
use pypto_serving.Sched.Phase.{Phase}
use pypto_serving.Sched.Blocks.{all_block_ids, Lease, without_blocks}
use pypto_serving.Sched.Blocks.Accounted.{Accounted, free_request_blocks-Step}
use pypto_serving.Sched.State.{
  preempt_last, preemption_of, Scheduler, others, lease, Preemption, reset_request, preempt,
  preempt_lowest_priority, preemption_candidates, last_arrived, SchedulerOutput,
}
use pypto_serving.Sched.State.Sound.{Sound, Blocks-focus, Blocks-drop, elem-others, rest_of}
use pypto_serving.Sched.Schedule.{
  Pass, keep, schedule_request, after_preemption, preempt_and_retry, out_of_phase,
  speculative_tokens, schedule_running, close_pass, schedule_all_running,
}
use pypto_serving.Sched.Schedule.Passes.{
  PassOk, Goes, runs, allocate_in-Goes, keep-PassOk, skip-PassOk, schedule_request-PassOk,
  head-runs, select-runs_victim, Queues-victim,
}

-- The last arrived is one of the candidates.
pub elem-last_arrived :
    (objects : ℕ → Request) (best : ℕ) (ids : List ℕ)
    → elem (last_arrived objects best ids) (best ∷ ids) ≡ true
unfolding last_arrived
elem-last_arrived objects best [] = ground arith
elem-last_arrived objects best (i ∷ ids) =
    elim (Bool-cases (ltb (objects best).arrival_time (objects i).arrival_time)) [
      | inl later ↦ ground (arith, later, elem-last_arrived objects i ids)
      | inr sooner ↦ ground (arith, sooner, elem-last_arrived objects best ids)
    ]

-- The pass after a preemption for a request that runs.
record Preempted (p : Pass) (i : ℕ) (todo : List ℕ) (x : Preemption) : Type 0 where
  pub running : elem i x.scheduler.running_ids ≡ true
  pub passes : PassOk (after_preemption p x) todo

reset-Accounted :
    (rest : ℕ → ℕ) (h : Lease) (r : Request)
    → Accounted rest h
    → h.request ≡ without_blocks r
    → Accounted rest (record h { request = reset_request h.request })
reset-Accounted rest h r a empty =
    let cleared = λ (b : ℕ). ap (λ (x : Request). count b (all_block_ids x)) empty in
    record {
      no_groups = a.no_groups;
      free = a.free;
      valid = a.valid;
      refs = λ b k. omega (arith, a.refs b k, cleared b);
      in_range = λ b k. absurd (omega (arith, k));
      tables = refl;
    }

preempt-Preempted :
    (p : Pass) (i victim : ℕ) (todo : List ℕ) (output : SchedulerOutput)
    (scheduled_tokens : List (ℕ × ℕ))
    → elem i p.scheduler.running_ids ≡ true
    → elem victim (others i p.scheduler.running_ids) ≡ true
    → PassOk p todo
    → (x : Preemption) × (preempt p.scheduler output scheduled_tokens victim ≡ returned x)
      × Preempted p i todo x
unfolding preempt
preempt-Preempted p i victim todo output scheduled_tokens there candidate v =
    let s = p.scheduler in
    let t =
      free_request_blocks-Step (rest_of s.objects s.running_ids victim) (lease s victim) (
        Blocks-focus s.manager s.objects s.running_ids victim v.queues.running_distinct v.blocks) in
    let h' = t.0 in
    let step = t.2 in
    let found = elem-others i victim s.running_ids in
    let apart : (i == victim) ≡ false = ground (arith, candidate, found) in
    let runs_too : elem victim s.running_ids ≡ true = ground (arith, candidate, found) in
    let reset = record h' { request = reset_request h'.request } in
    (
      preemption_of s output scheduled_tokens victim h',
      simp t.1 refl,
      record {
        running = ground (arith, there, apart, elem-others victim i s.running_ids);
        passes = record {
          blocks =
              Blocks-drop s.manager s.objects s.running_ids victim reset v.blocks
                (reset-Accounted (rest_of s.objects s.running_ids victim) h' (s.objects victim)
                  step.accounted t.3)
                step.size (refl, refl);
          queues =
              Queues-victim s.objects s.known s.running_ids s.waiting_ids victim reset.request
                runs_too refl step.id v.queues;
          order =
              select-runs_victim s.objects victim reset.request (p.kept ++ todo) refl
              ∙ ap (λ (l : List ℕ). others victim l) v.order;
        };
      },
    )

-- In a model without groups every other running request may be preempted.
candidates-others :
    (s : Scheduler) (i : ℕ)
    → s.manager.groups.pools ≡ []
    → preemption_candidates s i ≡ others i s.running_ids
unfolding preemption_candidates
candidates-others s i no_groups = simp no_groups refl

-- One request at most is preempted for another one.
preempt_lowest_priority-Preempted :
    (p : Pass) (i : ℕ) (todo : List ℕ)
    → elem i p.scheduler.running_ids ≡ true
    → PassOk p todo
    → (preempt_lowest_priority p.scheduler i p.scheduled_tokens p.output ≡ returned none)
      ⊎ ((x : Preemption) × (preempt_lowest_priority p.scheduler i p.scheduled_tokens p.output
            ≡ returned (some x))
          × Preempted p i todo x)
unfolding preempt_lowest_priority preempt_last
preempt_lowest_priority-Preempted p i todo there v =
    let s = p.scheduler in
    let e =
      ap (preempt_last s p.scheduled_tokens p.output) (candidates-others s i v.blocks.no_groups) in
    elim (List-cases (others i s.running_ids)) [
      | inl alone ↦ inl (e ∙ ap (preempt_last s p.scheduled_tokens p.output) alone)
      | inr (first, rest, cons) ↦
          let candidate =
            ap (λ (l : List ℕ). elem (last_arrived s.objects first rest) l) cons
            ∙ elem-last_arrived s.objects first rest in
          let (x, result, after) =
            preempt-Preempted p i (last_arrived s.objects first rest) todo p.output
              p.scheduled_tokens there candidate v in
          inr
            (x, e ∙ ap (preempt_last s p.scheduled_tokens p.output) cons ∙ simp result refl, after)
    ]

keep-Goes :
    (p : Pass) (i : ℕ) (todo : List ℕ) → PassOk p (i ∷ todo) → Goes todo (returned (keep p i))
keep-Goes p i todo v = record { p' = keep p i; result = refl; passes = keep-PassOk p i todo v }

preempt_and_retry-Goes :
    (p : Pass) (i n : ℕ) (todo : List ℕ) (enough : Pass → Outcome Pass)
    → elem i p.scheduler.running_ids ≡ true
    → PassOk p (i ∷ todo)
    → ((q : Pass) → PassOk q (i ∷ todo) → Goes todo (enough q))
    → Goes todo (preempt_and_retry i n enough p)
unfolding preempt_and_retry
preempt_and_retry-Goes p i n todo enough there v go =
    elim (preempt_lowest_priority-Preempted p i (i ∷ todo) there v) [
      | inl alone ↦ simp alone (keep-Goes p i todo v)
      | inr (x, result, after) ↦ simp result (
          allocate_in-Goes (after_preemption p x) i n (i ∷ todo) todo enough
            (λ q. returned (keep q i)) after.running after.passes (λ q _ u. go q u)
            (λ q _ u. keep-Goes q i todo u))
    ]

schedule_running-Goes :
    (phase : Option Phase) (p : Pass) (i : ℕ) (todo : List ℕ)
    → PassOk p (i ∷ todo)
    → Goes todo (schedule_running phase p i)
unfolding schedule_running
schedule_running-Goes phase p i todo v =
    let r = p.scheduler.objects i in
    let num_new = limit_scheduled_tokens p.scheduler.config r p.token_budget in
    let scheduled_tokens = num_new + speculative_tokens p.scheduler.config r in
    let enough =
      λ (q : Pass). returned (schedule_request q i num_new scheduled_tokens (is_prefill r)) in
    let go : (q : Pass) → PassOk q (i ∷ todo) → Goes todo (enough q) = λ q u. record {
      p' = schedule_request q i num_new scheduled_tokens (is_prefill r);
      result = refl;
      passes = schedule_request-PassOk q i num_new scheduled_tokens (is_prefill r) todo u;
    } in
    elim (Bool-cases (is_preempted r.status)) [
      | inl victim ↦
          simp victim (record { p' = p; result = refl; passes = skip-PassOk p i todo victim v })
      | inr runs_on ↦
          let there = head-runs p i todo runs_on v in
          elim (Bool-cases (
            r.terminal_prefill_in_flight
            || (out_of_phase phase r || num_new == 0)
            || ltb p.token_budget scheduled_tokens)) [
              | inl put_off ↦ simp (runs_on, put_off) (keep-Goes p i todo v)
              | inr due ↦
                  simp (runs_on, due)
                    (allocate_in-Goes p i scheduled_tokens (i ∷ todo) todo enough
                      (preempt_and_retry i scheduled_tokens enough) there v (λ q _ u. go q u)
                      (λ q t u. preempt_and_retry-Goes q i scheduled_tokens todo enough t u go))
            ]
    ]

-- The pass over a list of requests.
pub fold-Goes :
    (phase : Option Phase) (p : Pass) (ids : List ℕ)
    → PassOk p ids
    → Goes [] (fold_outcome (schedule_running phase) p ids)
fold-Goes phase p [] v = record { p' = p; result = refl; passes = v }
fold-Goes phase p (i ∷ ids) v =
    let g = schedule_running-Goes phase p i ids v in
    simp g.result (fold-Goes phase g.p' ids g.passes)

select-all :
    (f : ℕ → Bool) (xs : List ℕ) → ((x : ℕ) → elem x xs ≡ true → f x ≡ true) → select f xs ≡ xs
select-all f [] all = refl
select-all f (x ∷ xs) all =
    let here = all x (ground arith) in
    let later = select-all f xs (λ y h. all y (ground (arith, h))) in simp (here, later) refl

-- The pass over the running list of a sound state.
pub schedule_all_running-Sound :
    (phase : Option Phase) (p : Pass)
    → p.kept ≡ []
    → Sound p.scheduler
    → (q : Pass) × (schedule_all_running phase p ≡ returned q) × Sound q.scheduler
unfolding schedule_all_running close_pass
schedule_all_running-Sound phase p fresh v =
    let s = p.scheduler in
    let all =
      select-all (runs s.objects) s.running_ids
        (λ i h. ap (λ x. not (is_preempted x)) (v.queues.is_running i h)) in
    let g = fold-Goes phase p s.running_ids (record {
      blocks = v.blocks;
      queues = v.queues;
      order = ap (λ (l : List ℕ). select (runs s.objects) (l ++ s.running_ids)) fresh ∙ all;
    }) in
    let q = g.p' in
    let same : (close_pass q).scheduler.running_ids ≡ q.scheduler.running_ids =
      ap (λ (l : List ℕ). select (runs q.scheduler.objects) l) (sym (append-nil q.kept))
      ∙ g.passes.order in
    (
      close_pass q,
      simp g.result refl,
      record { blocks = rw same g.passes.blocks; queues = rw same g.passes.queues },
    )
