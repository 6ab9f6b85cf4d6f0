-- ===== src/Sched/Update.antt =====
-- scheduler.py, `advance_after_schedule`, `update_from_output` and `discard_scheduled_request` over the
-- whole state: dispatch, result, finish. The sampled tokens of a step are a function from the
-- request to its tokens, where a missing entry is the empty list.
pub mod Results
pub mod Retired
pub mod Dispatch
use pypto_serving.Prelude.{
  ℕ, ◌+◌, ◌-◌, Bool, true, false, not, ◌&&◌, ◌||◌, Option, none, some, List, [], ◌∷◌, ◌++◌, ltb,
  leb, ◌==◌, if◌then◌else◌, Outcome, returned, raised, raise_if, ◌>>=◌, runtime_error, length, elem,
  select, any, fold_outcome,
}
use pypto_serving.Cache.Groups.Snapshots.{retain_group_block_snapshot}
use pypto_serving.Cache.Manager.{Manager, has_groups, with_groups}
use pypto_serving.Sched.Config.{SchedulerConfig, is_empty}
use pypto_serving.Sched.Request.{
  Request, RequestStatus, RequestOutput, ScheduledRequest, is_finished, is_preempted, check_finish,
  num_prompt_tokens,
}
use pypto_serving.Sched.Accounting.{
  advance_request, clear_barrier, reconcile_counts, emit_tokens, add_computed, Emitted,
}
use pypto_serving.Sched.Blocks.{
  Lease, cache_completed_blocks, publish_confirmed, release_scheduled_group_blocks,
  free_request_blocks,
}
use pypto_serving.Sched.State.{
  Scheduler, SchedulerOutput, lease, put_back, store, others, with_status,
}

-- The tables of a step are pinned while it is in flight.
unfoldable pub pin_tables : Manager → ScheduledRequest → Outcome (ScheduledRequest × Manager)
pin_tables m x = if is_empty x.block_ids_by_group then returned (x, m) else elim x.cache_partition [
  | none ↦ raised runtime_error
  | some partition ↦ retain_group_block_snapshot m.groups x.block_ids_by_group partition >>= λ g'.
      returned (record x { group_blocks_retained = true }, with_groups m g')
]

-- One scheduled request at dispatch.
unfoldable pub advance_scheduled :
    Scheduler → ScheduledRequest → Outcome (ScheduledRequest × Scheduler)
advance_scheduled s x = pin_tables s.manager x >>= λ pinned. returned (
  pinned.0,
  record s {
    manager = pinned.1;
    objects = store s.objects x.request_id (advance_request s.config x (s.objects x.request_id));
  },
)

unfoldable pub advance_all :
    Scheduler → List ScheduledRequest → Outcome (List ScheduledRequest × Scheduler)
advance_all s [] = returned ([], s)
advance_all s (x ∷ xs) = advance_scheduled s x >>= λ first.
    advance_all first.1 xs >>= λ rest. returned (first.0 ∷ rest.0, rest.1)

unfoldable pub advance_after_schedule :
    Scheduler → List ScheduledRequest → Outcome (List ScheduledRequest × Scheduler)
advance_after_schedule s xs =
    if not s.config.async_scheduling then returned (xs, s) else advance_all s xs

-- The result of a pipelined step: its blocks are published and unpinned, its tokens applied.
unfoldable pub reconcile :
    SchedulerConfig → ScheduledRequest → Lease → List ℕ → Outcome (Lease × List RequestOutput)
reconcile c x h tokens = publish_confirmed c x h >>= λ h'.
    release_scheduled_group_blocks h'.manager x >>= λ m'.
    let (r, outputs) = reconcile_counts c x h'.request tokens in
    returned (record { manager = m'; request = r }, outputs)

-- A synchronous prefill chunk: only the one that ends the prompt emits.
unfoldable pub apply_prefill :
    SchedulerConfig → ScheduledRequest → Lease → List ℕ → Outcome (Lease × List RequestOutput)
apply_prefill c x h tokens =
    let r = add_computed h.request x.num_new_tokens in
    cache_completed_blocks c (record h { request = r }) r.num_computed_tokens >>= λ h'.
    let e = emit_tokens h'.request tokens in
    returned (
      if ltb h'.request.num_computed_tokens (num_prompt_tokens h'.request)
      then (h', [])
      else (record h' { request = e.request }, e.outputs))

-- A synchronous decode step.
unfoldable pub apply_decode :
    SchedulerConfig → Lease → List ℕ → Outcome (Lease × List RequestOutput)
apply_decode c h tokens =
    let e = emit_tokens h.request tokens in
    let r = add_computed e.request e.retained in
    cache_completed_blocks c (record h { request = r }) r.num_computed_tokens >>= λ h'.
    returned (h', e.outputs)

unfoldable pub apply_result :
    SchedulerConfig → ScheduledRequest → Lease → List ℕ → Outcome (Lease × List RequestOutput)
apply_result c x h tokens =
    if c.async_scheduling
    then reconcile c x h tokens
    else if x.prefill
    then apply_prefill c x h tokens
    else apply_decode c h tokens

-- The result for a request that finished, or was preempted, meanwhile is dropped.
unfoldable pub is_stale : Request → Bool
is_stale r = is_finished r.status || is_preempted r.status

-- The outputs so far, and the scheduler.
abbrev pub Progress : Type 0
Progress = List RequestOutput × Scheduler

unfoldable pub update_scheduled : (ℕ → List ℕ) → Progress → ScheduledRequest → Outcome Progress
update_scheduled tokens_of (outputs, s) x =
    let r = s.objects x.request_id in
    if is_stale r
    then release_scheduled_group_blocks s.manager x
      >>= (λ m'. returned (outputs, record s { manager = m' }))
    else apply_result s.config x (record { manager = s.manager; request = clear_barrier x r })
        (tokens_of x.request_id)
      >>= (λ done. returned (outputs ++ done.1, put_back s x.request_id done.0))

abbrev pub finished_output : ℕ → RequestStatus → RequestOutput
finished_output request_id status = record {
  request_id = request_id;
  new_token_id = none;
  finish_reason = some status;
}

abbrev pub is_output_of : ℕ → RequestOutput → Bool
is_output_of request_id o = o.request_id == request_id

-- The last output of the request tells that it finished; without one there is a new one.
unfoldable pub mark_last : ℕ → RequestStatus → List RequestOutput → List RequestOutput
mark_last request_id status [] = finished_output request_id status ∷ []
mark_last request_id status (o ∷ outputs) =
    let later = o ∷ mark_last request_id status outputs in
    if is_output_of request_id o && not (any (is_output_of request_id) outputs)
    then record o { finish_reason = some status } ∷ outputs
    else later

-- The sweep over the running requests: the outputs, the scheduler, and the requests that finished.
pub record Sweep : Type 0 where
  pub outputs : List RequestOutput
  pub objects : ℕ → Request
  pub finished_ids : List ℕ

unfoldable pub sweep_request : Sweep → ℕ → Sweep
sweep_request w request_id =
    let r = w.objects request_id in
    if is_finished r.status then w else elim (check_finish r) [
      | none ↦ w
      | some status ↦ record {
        outputs = mark_last request_id status w.outputs;
        objects = store w.objects request_id (with_status r status);
        finished_ids = w.finished_ids ++ request_id ∷ [];
      }
    ]

unfoldable pub sweep : Sweep → List ℕ → Sweep
sweep w [] = w
sweep w (request_id ∷ ids) = sweep (sweep_request w request_id) ids

-- A finished request gives its blocks back and leaves the running list.
unfoldable pub retire : Scheduler → ℕ → Outcome Scheduler
retire s request_id =
    (if elem request_id s.known
      then free_request_blocks (lease s request_id) >>= (λ h. returned (put_back s request_id h))
      else returned s)
    >>= λ s'. returned (record s' { running_ids = others request_id s'.running_ids })

unfoldable pub update_from_output :
    Scheduler → List ScheduledRequest → (ℕ → List ℕ) → Outcome Progress
update_from_output s scheduled tokens_of =
    fold_outcome (update_scheduled tokens_of) ([], s) scheduled >>= λ applied.
    let w =
      sweep (record { outputs = applied.0; objects = applied.1.objects; finished_ids = [] })
        applied.1.running_ids in
    fold_outcome retire (record applied.1 { objects = w.objects }) w.finished_ids >>= λ s'.
    returned (w.outputs, s')

unfoldable pub discard_scheduled_request : Scheduler → ScheduledRequest → Outcome Scheduler
discard_scheduled_request s x =
    release_scheduled_group_blocks s.manager x >>= λ m'. returned (record s { manager = m' })
