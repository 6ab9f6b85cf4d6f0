-- ===== src/Sched/Schedule.antt =====
-- scheduler.py, `Scheduler.schedule`: the loop over the running requests with preemption, and the
-- loop that admits waiting requests.
pub mod Leases
pub mod Passes
pub mod Preempts
pub mod Leaving
pub mod Admissions
use pypto_serving.Prelude.{
  ℕ, ◌+◌, ◌-◌, ◌*◌, Bool, true, false, not, ◌&&◌, ◌||◌, Option, none, some, List, [], ◌∷◌, ◌++◌,
  ltb, leb, ◌==◌, if◌then◌else◌, Outcome, returned, raised, raise_if, ◌>>=◌, length, elem, select,
  insert, fold_outcome, map,
}
use pypto_serving.Cache.Pool.{Pool, get_computed_blocks}
use pypto_serving.Cache.Groups.{GroupPool, Groups}
use pypto_serving.Cache.Groups.Acquire.{Acquired, acquire_group_prefix_blocks}
use pypto_serving.Cache.Groups.Publish.{published_group_block_count}
use pypto_serving.Cache.Manager.{Manager, has_groups, with_pool, with_groups}
use pypto_serving.Sched.Config.{SchedulerConfig, is_empty}
use pypto_serving.Sched.Request.{
  Request, RequestStatus, running, finished_aborted, ScheduledRequest, num_prompt_tokens,
  num_new_tokens_needed, is_prefill, is_preempted,
}
use pypto_serving.Sched.Limits.{Rejection, limit_scheduled_tokens, single_prefill_rejection}
use pypto_serving.Sched.Phase.{Phase, prefill, decode, grouped_cache_phase}
use pypto_serving.Sched.Blocks.{
  Lease, all_block_ids, try_allocate_request_blocks, release_waiting_prefix_blocks,
}
use pypto_serving.Sched.State.{
  Scheduler, SchedulerOutput, empty_output, Preemption, lease, put_back, preempt_lowest_priority,
  with_status, others,
}

-- The pass over the running requests: the scheduler, the budget that is left, the output so far, the
-- tokens scheduled by request, and the requests to keep.
pub record Pass : Type 0 where
  pub scheduler : Scheduler
  pub token_budget : ℕ
  pub output : SchedulerOutput
  pub scheduled_tokens : List (ℕ × ℕ)
  pub kept : List ℕ

abbrev pub keep : Pass → ℕ → Pass
keep p request_id = record p { kept = p.kept ++ request_id ∷ [] }

-- The record of a request in a step.
abbrev pub scheduled_request : Request → ℕ → Bool → ScheduledRequest
scheduled_request r num_new as_prefill = record {
  request_id = r.request_id;
  num_new_tokens = num_new;
  prefill = as_prefill;
  num_computed_tokens = r.num_computed_tokens;
  block_ids = all_block_ids r;
  block_ids_by_group = r.allocated_group_block_ids;
  cache_partition = r.cache_partition;
  group_blocks_retained = false;
}

-- A decode step counts its speculative tokens too.
abbrev pub add_scheduled : SchedulerOutput → ScheduledRequest → ℕ → SchedulerOutput
add_scheduled o x scheduled_tokens = record o {
  scheduled_requests = o.scheduled_requests ++ x ∷ [];
  num_prefill_tokens =
      if x.prefill then o.num_prefill_tokens + x.num_new_tokens else o.num_prefill_tokens;
  num_decode_tokens =
      if x.prefill then o.num_decode_tokens else o.num_decode_tokens + scheduled_tokens;
}

-- A running request that has its blocks joins the step.
unfoldable pub schedule_request : Pass → ℕ → ℕ → ℕ → Bool → Pass
schedule_request p request_id num_new scheduled_tokens as_prefill = record p {
  token_budget = p.token_budget - scheduled_tokens;
  output =
      add_scheduled p.output (scheduled_request (p.scheduler.objects request_id) num_new as_prefill)
        scheduled_tokens;
  scheduled_tokens = insert request_id scheduled_tokens p.scheduled_tokens;
  kept = p.kept ++ request_id ∷ [];
}

-- The pass after an attempt to allocate, where `short` goes on without the blocks.
abbrev pub allocated_or :
    Pass → ℕ → (Pass → Outcome Pass) → (Pass → Outcome Pass) → Bool × Lease → Outcome Pass
allocated_or p request_id enough short (true, h) =
    enough (record p { scheduler = put_back p.scheduler request_id h })
allocated_or p request_id enough short (false, h) =
    short (record p { scheduler = put_back p.scheduler request_id h })

unfoldable pub allocate_in :
    Pass → ℕ → ℕ → (Pass → Outcome Pass) → (Pass → Outcome Pass) → Outcome Pass
allocate_in p request_id scheduled_tokens enough short =
    try_allocate_request_blocks (lease p.scheduler request_id) scheduled_tokens
    >>= allocated_or p request_id enough short

-- The pass after a preemption.
abbrev pub after_preemption : Pass → Preemption → Pass
after_preemption p x = record p {
  scheduler = x.scheduler;
  token_budget = p.token_budget + x.returned_tokens;
  output = record x.output { preempted_requests = x.output.preempted_requests ++ x.victim ∷ [] };
  scheduled_tokens = x.scheduled_tokens;
}

-- Without blocks one request is preempted, and the allocation tried once more.
unfoldable pub preempt_and_retry : ℕ → ℕ → (Pass → Outcome Pass) → Pass → Outcome Pass
preempt_and_retry request_id scheduled_tokens enough p =
    preempt_lowest_priority p.scheduler request_id p.scheduled_tokens p.output >>= λ preempted.
    elim preempted [
      | none ↦ returned (keep p request_id)
      | some x ↦
          allocate_in (after_preemption p x) request_id scheduled_tokens enough
            (λ q. returned (keep q request_id))
    ]

-- The request is not for this phase.
abbrev pub out_of_phase : Option Phase → Request → Bool
out_of_phase none r = false
out_of_phase (some prefill) r = not (is_prefill r)
out_of_phase (some decode) r = is_prefill r

unfoldable pub speculative_tokens : SchedulerConfig → Request → ℕ
speculative_tokens c r = if not (is_prefill r) && r.greedy then c.num_speculative_tokens else 0

-- One running request; a victim of this pass is left out.
unfoldable pub schedule_running : Option Phase → Pass → ℕ → Outcome Pass
schedule_running phase p request_id =
    let r = p.scheduler.objects request_id in
    let num_new = limit_scheduled_tokens p.scheduler.config r p.token_budget in
    let scheduled_tokens = num_new + speculative_tokens p.scheduler.config r in
    if is_preempted r.status
    then returned p
    else if r.terminal_prefill_in_flight
        || (out_of_phase phase r || num_new == 0)
        || ltb p.token_budget scheduled_tokens
    then returned (keep p request_id)
    else let enough = λ (q : Pass).
      returned (schedule_request q request_id num_new scheduled_tokens (is_prefill r)) in
      allocate_in p request_id scheduled_tokens enough
        (preempt_and_retry request_id scheduled_tokens enough)

-- `running_to_keep` without the victims becomes the running list.
unfoldable pub close_pass : Pass → Pass
close_pass p = record p {
  scheduler = record p.scheduler {
    running_ids = select (λ i. not (is_preempted (p.scheduler.objects i).status)) p.kept;
  };
}

unfoldable pub schedule_all_running : Option Phase → Pass → Outcome Pass
schedule_all_running phase p =
    fold_outcome (schedule_running phase) p p.scheduler.running_ids >>= λ q. returned (close_pass q)

-- What becomes of a waiting request.
pub data Verdict : Type 0 where
  admitted : ℕ → Verdict
  deferred : Verdict
  blocked : Verdict
  rejected : Rejection → Verdict

abbrev pub with_hit : Request → Acquired → List ℕ → Request
with_hit r a counts = record r {
  allocated_group_block_ids = a.block_ids;
  num_computed_tokens = a.hit_tokens;
  cache_partition = a.partition;
  num_group_blocks_cached = counts;
}

abbrev pub published_counts : ℕ → List GroupPool → List ℕ
published_counts token_count [] = []
published_counts token_count (pool ∷ pools) =
    published_group_block_count token_count pool ∷ published_counts token_count pools

abbrev pub grouped_hit : Lease → Acquired → Lease
grouped_hit h a = record {
  manager = with_groups h.manager a.groups;
  request =
      with_hit h.request a
        (if a.hit_tokens == 0 then [] else published_counts a.hit_tokens a.groups.pools);
}

abbrev pub generic_hit : Lease → List ℕ × Pool → Lease
generic_hit h ([], p') = record h { manager = with_pool h.manager p' }
generic_hit h (block ∷ blocks, p') = record {
  manager = with_pool h.manager p';
  request = record h.request {
    cached_block_ids = block ∷ blocks;
    num_computed_tokens = length (block ∷ blocks) * p'.block_size;
    num_blocks_cached = length (block ∷ blocks);
  };
}

module _ (hash : ℕ → List ℕ → ℕ) (none_hash : ℕ) where
  -- The blocks of the longest cached prefix of the prompt.
  unfoldable pub lookup_prefix : SchedulerConfig → Lease → Outcome Lease
  lookup_prefix c h =
      if not c.enable_prefix_cache
      then returned h
      else if has_groups h.manager
      then acquire_group_prefix_blocks h.manager.groups h.request.request_id
          h.request.group_block_hashes (num_prompt_tokens h.request - 1)
        >>= (λ a. returned (grouped_hit h a))
      else returned (
          generic_hit h
            (get_computed_blocks hash none_hash h.manager.pool h.request.prompt_token_ids))

-- A waiting request goes back without its prefix blocks.
unfoldable pub give_up : Verdict → Lease → Outcome (Verdict × Lease)
give_up verdict h = release_waiting_prefix_blocks h >>= λ h'. returned (verdict, h')

abbrev pub admitted_or_blocked : ℕ → Bool × Lease → Outcome (Verdict × Lease)
admitted_or_blocked num_new (true, h) = returned (admitted num_new, h)
admitted_or_blocked num_new (false, h) = give_up blocked h

-- Without room next to a grouped hit the request is tried again without the hit.
unfoldable pub retry_cold : SchedulerConfig → ℕ → Lease → Outcome (Verdict × Lease)
retry_cold c token_budget h = release_waiting_prefix_blocks h >>= λ cold.
    let cold_num_new = limit_scheduled_tokens c cold.request token_budget in
    if cold_num_new == 0
    then give_up blocked cold
    else try_allocate_request_blocks cold cold_num_new >>= admitted_or_blocked cold_num_new

abbrev pub admitted_or_cold :
    SchedulerConfig → ℕ → Bool → ℕ → Bool × Lease → Outcome (Verdict × Lease)
admitted_or_cold c token_budget grouped_prefix_hit num_new (true, h) =
    returned (admitted num_new, h)
admitted_or_cold c token_budget grouped_prefix_hit num_new (false, h) =
    if grouped_prefix_hit then retry_cold c token_budget h else give_up blocked h

unfoldable pub admit_tokens : SchedulerConfig → ℕ → Bool → Lease → ℕ → Outcome (Verdict × Lease)
admit_tokens c token_budget grouped_prefix_hit h num_new =
    try_allocate_request_blocks h num_new
    >>= admitted_or_cold c token_budget grouped_prefix_hit num_new

-- One token of a prompt that the cache holds whole is computed again.
abbrev pub leave_one : Lease → Lease
leave_one h = record h {
  request = record h.request { num_computed_tokens = num_prompt_tokens h.request - 1 };
}

-- A waiting request whose prefix has been looked up.
unfoldable pub admit_leased : SchedulerConfig → ℕ → Lease → Outcome (Verdict × Lease)
admit_leased c token_budget h =
    let grouped_prefix_hit = has_groups h.manager && ltb 0 h.request.num_computed_tokens in
    let num_new = limit_scheduled_tokens c h.request token_budget in
    elim (single_prefill_rejection c h.request) [
      | some rejection ↦ give_up (rejected rejection) h
      | none ↦
          if not (num_new == 0)
          then admit_tokens c token_budget grouped_prefix_hit h num_new
          else if leb (num_prompt_tokens h.request) h.request.num_computed_tokens
          then admit_tokens c token_budget grouped_prefix_hit (leave_one h) 1
          else give_up deferred h
    ]

-- The pass over the waiting requests: those that were put back are behind one another.
pub record Admission : Type 0 where
  pub scheduler : Scheduler
  pub token_budget : ℕ
  pub output : SchedulerOutput
  pub remaining : List ℕ

abbrev pub put_off : Admission → ℕ → Admission
put_off a request_id = record a { remaining = a.remaining ++ request_id ∷ [] }

-- The request runs, and its prefill joins the step.
unfoldable pub run_request : Admission → ℕ → ℕ → Lease → Admission
run_request a request_id num_new h =
    let r = with_status h.request running in
    let s = put_back a.scheduler request_id (record h { request = r }) in
    record a {
      scheduler = record s { running_ids = s.running_ids ++ request_id ∷ [] };
      token_budget = a.token_budget - num_new;
      output = add_scheduled a.output (scheduled_request r num_new true) num_new;
    }

-- The request leaves the scheduler.
unfoldable pub reject_request : Admission → ℕ → Rejection → Lease → Admission
reject_request a request_id rejection h =
    let s =
      put_back a.scheduler request_id
        (record h { request = with_status h.request finished_aborted }) in
    record a {
      scheduler = record s { known = others request_id s.known };
      output = record a.output {
        rejected_requests = insert request_id rejection a.output.rejected_requests;
      };
    }

-- Whether the loop goes on, and its state.
abbrev pub apply_verdict : Admission → ℕ → Verdict × Lease → Bool × Admission
apply_verdict a request_id (admitted num_new, h) = (true, run_request a request_id num_new h)
apply_verdict a request_id (rejected rejection, h) = (true, reject_request a request_id rejection h)
apply_verdict a request_id (deferred, h) =
    (true, put_off (record a { scheduler = put_back a.scheduler request_id h }) request_id)
apply_verdict a request_id (blocked, h) =
    (false, put_off (record a { scheduler = put_back a.scheduler request_id h }) request_id)

-- The waiting queue is what was put back, and what the loop did not reach.
abbrev pub close_admission : Admission → List ℕ → Admission
close_admission a rest = record a {
  scheduler = record a.scheduler { waiting_ids = a.remaining ++ rest };
  remaining = [];
}

-- No budget, or no place to run in.
unfoldable pub is_full : Admission → Bool
is_full a =
    a.token_budget == 0
    || leb a.scheduler.config.max_num_running_reqs (length a.scheduler.running_ids)

abbrev pub is_decode : Option Phase → Bool
is_decode none = false
is_decode (some prefill) = false
is_decode (some decode) = true

abbrev pub first_admission : Pass → Admission
first_admission p = record {
  scheduler = p.scheduler;
  token_budget = p.token_budget;
  output = p.output;
  remaining = [];
}

-- The pass that a step starts with.
abbrev pub first_pass : Scheduler → Phase → Pass
first_pass s next_phase = record {
  scheduler = record s { next_phase = next_phase };
  token_budget = s.config.max_num_scheduled_tokens;
  output = empty_output;
  scheduled_tokens = [];
  kept = [];
}

module _ (hash : ℕ → List ℕ → ℕ) (none_hash : ℕ) where
  unfoldable pub admit : Admission → ℕ → Outcome (Bool × Admission)
  admit a request_id =
      lookup_prefix hash none_hash a.scheduler.config (lease a.scheduler request_id) >>= λ h.
      admit_leased a.scheduler.config a.token_budget h >>= λ v.
      returned (apply_verdict a request_id v)

  -- The loop over the waiting requests; the victims of this pass stay in the queue.
  unfoldable pub admit_waiting : List ℕ → List ℕ → Admission → Outcome Admission
  admit_waiting preempted_this_step [] a = returned (close_admission a [])
  admit_waiting preempted_this_step (request_id ∷ rest) a = elim (is_full a) [
    | true ↦ returned (close_admission a (request_id ∷ rest))
    | false ↦ elim (elem request_id preempted_this_step) [
      | true ↦ admit_waiting preempted_this_step rest (put_off a request_id)
      | false ↦ admit a request_id >>= λ r. elim r.0 [
        | true ↦ admit_waiting preempted_this_step rest r.1
        | false ↦ returned (close_admission r.1 rest)
      ]
    ]
  ]

  -- The second loop, unless the step is for decode.
  unfoldable pub schedule_waiting : Option Phase → Pass → Outcome (SchedulerOutput × Scheduler)
  schedule_waiting phase p =
      if is_decode phase
      then returned (p.output, p.scheduler)
      else admit_waiting p.output.preempted_requests p.scheduler.waiting_ids (first_admission p)
        >>= (λ a. returned (a.output, a.scheduler))

  unfoldable pub schedule : Scheduler → Outcome (SchedulerOutput × Scheduler)
  schedule s =
      let (phase, next_phase) =
        grouped_cache_phase s.config (map s.objects s.running_ids) (length s.waiting_ids)
          s.next_phase in
      schedule_all_running phase (first_pass s next_phase) >>= schedule_waiting phase
