-- ===== src/Sched/Update/Dispatch.antt =====
-- The dispatch of a step keeps the state sound.
use pypto_serving.Prelude.{
  ℕ, ◌≡◌, refl, ◌∙◌, ap, List, [], ◌∷◌, arith, ◌==◌, Bool-cases, inl, inr, returned,
}
use pypto_serving.Sched.Config.{SchedulerConfig}
use pypto_serving.Sched.Request.{Request, ScheduledRequest}
use pypto_serving.Sched.Accounting.{advance_request}
use pypto_serving.Sched.State.{Scheduler, store}
use pypto_serving.Sched.State.Sound.{Sound, Blocks-restate}
use pypto_serving.Sched.Schedule.Passes.{Queues-same}
use pypto_serving.Sched.Update.{pin_tables, advance_scheduled, advance_all, advance_after_schedule}
use pypto_serving.Sched.Update.Results.{Counted}

-- The entries have no tables of groups.
abbrev pub Ungrouped : List ScheduledRequest → Type 0
Ungrouped [] = Unit
Ungrouped (x ∷ xs) = (x.block_ids_by_group ≡ []) × Ungrouped xs

advance_request-Counted :
    (c : SchedulerConfig) (x : ScheduledRequest) (r : Request) → Counted r (advance_request c x r)
unfolding advance_request
advance_request-Counted c x r = record {
  id = refl;
  status = refl;
  cached = refl;
  owned = refl;
  tables = refl;
}

stored {ℓ} :
    {A : Type ℓ} (field : Request → A) (objects : ℕ → Request) (i : ℕ) (r : Request)
    → field r ≡ field (objects i)
    → (j : ℕ) → field (store objects i r j) ≡ field (objects j)
stored field objects i r e j = elim (Bool-cases (i == j)) [
  | inl here ↦ simp here (e ∙ ap (λ (k : ℕ). field (objects k)) (ground (arith, here)))
  | inr other ↦ simp other refl
]

-- Counts and tokens of any request may change.
Counted-Sound :
    (s : Scheduler) (i : ℕ) (r : Request)
    → Counted (s.objects i) r
    → Sound s
    → Sound (record s { objects = store s.objects i r })
Counted-Sound s i r e v = record {
  blocks =
      Blocks-restate s.manager s.objects (store s.objects i r) s.running_ids
        (stored (λ (r : Request). r.cached_block_ids) s.objects i r e.cached)
        (stored (λ (r : Request). r.allocated_block_ids) s.objects i r e.owned)
        (stored (λ (r : Request). r.allocated_group_block_ids) s.objects i r e.tables) v.blocks;
  queues = Queues-same s.objects s.known s.running_ids s.waiting_ids i r e.status e.id v.queues;
}

advance_all-Sound :
    (s : Scheduler) (xs : List ScheduledRequest)
    → Ungrouped xs
    → Sound s
    → (s' : Scheduler) × (advance_all s xs ≡ returned (xs, s'))
      × Sound s'
      × (s'.running_ids ≡ s.running_ids)
unfolding advance_all advance_scheduled pin_tables
advance_all-Sound s [] u v = (s, refl, v, refl)
advance_all-Sound s (x ∷ xs) u v =
    let r = advance_request s.config x (s.objects x.request_id) in
    let s1 = record s { objects = store s.objects x.request_id r } in
    let later = advance_all-Sound s1 xs u.1 (
      Counted-Sound s x.request_id r (advance_request-Counted s.config x (s.objects x.request_id))
        v) in
    (later.0, simp (u.0, later.1) refl, later.2, later.3)

-- A step without tables of groups is dispatched without an error, and the state stays sound.
pub advance_after_schedule-Sound :
    (s : Scheduler) (xs : List ScheduledRequest)
    → Ungrouped xs
    → Sound s
    → (s' : Scheduler) × (advance_after_schedule s xs ≡ returned (xs, s'))
      × Sound s'
      × (s'.running_ids ≡ s.running_ids)
unfolding advance_after_schedule
advance_after_schedule-Sound s xs u v = elim (Bool-cases s.config.async_scheduling) [
  | inr synchronous ↦ (s, simp synchronous refl, v, refl)
  | inl pipelined ↦
      let t = advance_all-Sound s xs u v in (t.0, simp (pipelined, t.1) refl, t.2, t.3)
]
