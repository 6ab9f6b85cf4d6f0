-- ===== src/Sched/Reach.antt =====
-- The states that a scheduler reaches through its calls, in any order.
use pypto_serving.Prelude.{
  ℕ, ◌≡◌, ap, true, false, List, elem, inl, inr, Outcome, returned, raised, value_error,
}
use pypto_serving.Sched.Request.{Request, RequestStatus, RequestOutput, ScheduledRequest}
use pypto_serving.Sched.State.{
  Scheduler, SchedulerOutput, add_request, abort_request, finish_request,
}
use pypto_serving.Sched.State.Sound.{Sound}
use pypto_serving.Sched.State.Arrival.{Fresh, add_request-Sound}
use pypto_serving.Sched.State.Queueing.{abort_request-Sound, finish_request-Sound}
use pypto_serving.Sched.Schedule.{schedule}
use pypto_serving.Sched.Schedule.Admissions.{schedule-Sound}
use pypto_serving.Sched.Update.{advance_after_schedule, update_from_output}
use pypto_serving.Sched.Update.Results.{Reported, stale_in}
use pypto_serving.Sched.Update.Retired.{update_from_output-Sound}
use pypto_serving.Sched.Update.Dispatch.{Ungrouped, advance_after_schedule-Sound}

pub returned-same : {A : Type 0} (r : Outcome A) (x y : A) → r ≡ returned x → r ≡ returned y → x ≡ y
returned-same r x y e f = cc

raised-returned :
    {A : Type 0} {C : Type 0} (r : Outcome A) (x : A) → r ≡ raised value_error → r ≡ returned x → C
raised-returned r x e f = absurd cc

module _ (hash : ℕ → List ℕ → ℕ) (none_hash : ℕ) where
  -- One call that returned, under the conditions that its constructor names.
  pub data Calls : Scheduler → Scheduler → Type 0 where
    adds :
        {s s' : Scheduler} (r : Request)
        → Fresh r
        → elem r.request_id s.known ≡ false
        → add_request hash none_hash s r ≡ returned s'
        → Calls s s'
    aborts : {s s' : Scheduler} (i : ℕ) → abort_request s i ≡ returned s' → Calls s s'
    finishes :
        {s s' : Scheduler} (i : ℕ) (status : RequestStatus)
        → elem i s.running_ids ≡ true
        → finish_request s i status ≡ returned s'
        → Calls s s'
    schedules :
        {s s' : Scheduler} (out : SchedulerOutput)
        → schedule hash none_hash s ≡ returned (out, s')
        → Calls s s'
    dispatches :
        {s s' : Scheduler} (xs xs' : List ScheduledRequest)
        → Ungrouped xs
        → advance_after_schedule s xs ≡ returned (xs', s')
        → Calls s s'
    updates :
        {s s' : Scheduler} (xs : List ScheduledRequest) (tokens_of : ℕ → List ℕ)
        (outputs : List RequestOutput)
        → Reported (stale_in s.objects) s.running_ids xs
        → update_from_output s xs tokens_of ≡ returned (outputs, s')
        → Calls s s'

  pub data Reaches (start : Scheduler) : Scheduler → Type 0 where
    begins : Reaches start start
    then_calls : {s s' : Scheduler} → Reaches start s → Calls s s' → Reaches start s'

  Calls-Sound : {s s' : Scheduler} → Calls s s' → Sound s → Sound s'
  Calls-Sound (adds r f unknown e) v = elim (add_request-Sound hash none_hash _ r v f unknown) [
    | inl a ↦ rw (returned-same _ _ _ e a.1.result) a.1.sound
    | inr refused ↦ raised-returned _ _ refused.1 e
  ]
  Calls-Sound (aborts i e) v =
      let t = abort_request-Sound _ i v in rw (returned-same _ _ _ e t.1) t.2
  Calls-Sound (finishes i status there e) v =
      let t = finish_request-Sound _ i status v there in rw (returned-same _ _ _ e t.1) t.2
  Calls-Sound (schedules out e) v =
      let t = schedule-Sound hash none_hash _ v in
      rw (ap (λ (p : SchedulerOutput × Scheduler). p.1) (returned-same _ _ _ e t.2)) t.3
  Calls-Sound (dispatches xs xs' u e) v =
      let t = advance_after_schedule-Sound _ xs u v in
      rw (ap (λ (p : List ScheduledRequest × Scheduler). p.1) (returned-same _ _ _ e t.1)) t.2
  Calls-Sound (updates xs tokens_of outputs reported e) v =
      let t = update_from_output-Sound _ xs tokens_of v reported in
      rw (ap (λ (p : List RequestOutput × Scheduler). p.1) (returned-same _ _ _ e t.2)) t.3

  Reaches-Sound : {start s : Scheduler} → Reaches start s → Sound start → Sound s
  Reaches-Sound begins v = v
  Reaches-Sound (then_calls reached call) v = Calls-Sound call (Reaches-Sound reached v)

  -- From a sound state of a model without cache groups, every state that calls reach in any order is
  -- sound, and a step is scheduled in it without an error. The calls are such that requests are added
  -- without blocks and under ids that are not in use, only running requests are finished, a step is
  -- dispatched without tables of groups, and results are for steps without pinned tables whose requests
  -- run or are stale.
  pub reached-schedules :
      {start s : Scheduler}
      → Sound start
      → Reaches start s
      → Sound s
        × ((out : SchedulerOutput) × (s' : Scheduler) × (schedule hash none_hash s
              ≡ returned (out, s')))
  reached-schedules v reached =
      let sound = Reaches-Sound reached v in
      let t = schedule-Sound hash none_hash _ sound in (sound, (t.0, t.1, t.2))
