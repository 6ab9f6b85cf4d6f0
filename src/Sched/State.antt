-- ===== src/Sched/State.antt =====
-- scheduler.py, the state of `Scheduler`, `__init__` and the operations on the queues: `add_request`,
-- `abort_request`, `finish_request`, `has_work` and `_preempt_lowest_priority`. The queues and the
-- dictionary of the requests share objects, so the objects stand in a store by their ids, and the
-- queues hold ids. A request is added once under its id.
pub mod Sound
pub mod Queueing
pub mod Arrival
use pypto_serving.Prelude.{
  any, ℕ, ◌+◌, ◌-◌, Bool, true, false, not, ◌&&◌, ◌||◌, Option, none, some, List, [], ◌∷◌, ◌++◌,
  ltb, leb, ◌==◌, if◌then◌else◌, Outcome, returned, raised, raise_if, ◌>>=◌, value_error, length,
  elem, select, lookup, without, or_else, map, min,
}
use pypto_serving.Cache.Pool.{compute_block_hashes}
use pypto_serving.Cache.Groups.{GroupPool, Groups}
use pypto_serving.Cache.Groups.Acquire.{compute_group_block_hashes}
use pypto_serving.Cache.Manager.{Manager, has_groups}
use pypto_serving.Sched.Config.{SchedulerConfig, is_empty}
use pypto_serving.Sched.Request.{
  Request, RequestStatus, waiting, preempted, finished_aborted, ScheduledRequest, num_prompt_tokens,
  is_prefill,
}
use pypto_serving.Sched.Limits.{Rejection, single_prefill_rejection}
use pypto_serving.Sched.Phase.{Phase, decode}
use pypto_serving.Sched.Blocks.{Lease, free_request_blocks}

pub record Scheduler : Type 0 where
  pub config : SchedulerConfig
  pub manager : Manager
  pub objects : ℕ → Request
  pub known : List ℕ
  pub waiting_ids : List ℕ
  pub running_ids : List ℕ
  pub next_phase : Phase

pub record SchedulerOutput : Type 0 where
  pub scheduled_requests : List ScheduledRequest
  pub preempted_requests : List ℕ
  pub rejected_requests : List (ℕ × Rejection)
  pub num_prefill_tokens : ℕ
  pub num_decode_tokens : ℕ

abbrev pub empty_output : SchedulerOutput
empty_output = record {
  scheduled_requests = [];
  preempted_requests = [];
  rejected_requests = [];
  num_prefill_tokens = 0;
  num_decode_tokens = 0;
}

-- The object of a request is changed in place.
abbrev pub store : (ℕ → Request) → ℕ → Request → ℕ → Request
store objects request_id r i = if request_id == i then r else objects i

abbrev pub lease : Scheduler → ℕ → Lease
lease s request_id = record { manager = s.manager; request = s.objects request_id }

abbrev pub put_back : Scheduler → ℕ → Lease → Scheduler
put_back s request_id h = record s {
  manager = h.manager;
  objects = store s.objects request_id h.request;
}

abbrev pub with_status : Request → RequestStatus → Request
with_status r status = record r { status = status }

-- `[r for r in rs if r.request_id != request_id]`
abbrev pub others : ℕ → List ℕ → List ℕ
others request_id ids = select (λ i. not (i == request_id)) ids

abbrev pub has_eagle_groups : Groups → Bool
has_eagle_groups g = any (λ (p : GroupPool). p.spec.is_eagle_group) g.pools

-- `Scheduler.__init__`. The store has a request under each id, also under those not in use.
unfoldable pub new_scheduler : SchedulerConfig → Manager → (ℕ → Request) → Outcome Scheduler
new_scheduler c m objects =
    raise_if
      (has_groups m
        && (c.enable_prefix_cache
            && (ltb 0 c.num_speculative_tokens && not (has_eagle_groups m.groups))))
      value_error
      (returned (record {
        config = c;
        manager = m;
        objects = objects;
        known = [];
        waiting_ids = [];
        running_ids = [];
        next_phase = decode;
      }))

-- The hashes of the full blocks of the prompt, for the cache that the model uses.
unfoldable pub with_hashes : (ℕ → List ℕ → ℕ) → ℕ → SchedulerConfig → Manager → Request → Request
with_hashes hash none_hash c m r =
    if not c.enable_prefix_cache
    then r
    else if has_groups m
    then record r {
      group_block_hashes =
          map (compute_group_block_hashes hash none_hash r.prompt_token_ids) m.groups.pools;
    }
    else record r { block_hashes = compute_block_hashes hash none_hash m.pool r.prompt_token_ids }

abbrev pub is_rejected : Option Rejection → Bool
is_rejected none = false
is_rejected (some rejection) = true

-- A prompt must leave room for a token, and the generation is capped to the room.
unfoldable pub add_request : (ℕ → List ℕ → ℕ) → ℕ → Scheduler → Request → Outcome Scheduler
unfolding with_hashes
add_request hash none_hash s r =
    let prompt_len = length r.prompt_token_ids in
    let remaining = s.config.max_seq_len - prompt_len in
    let capped = record r { max_new_tokens = min r.max_new_tokens remaining } in
    raise_if (ltb s.config.max_seq_len prompt_len) value_error (
      raise_if (remaining == 0) value_error (
        raise_if
          (not s.config.enable_prefix_cache
            && is_rejected (single_prefill_rejection s.config capped))
          value_error
          (returned (record s {
            objects =
                store s.objects r.request_id
                  (with_status (with_hashes hash none_hash s.config s.manager capped) waiting);
            waiting_ids = s.waiting_ids ++ r.request_id ∷ [];
            known = if elem r.request_id s.known then s.known else s.known ++ r.request_id ∷ [];
          }))))

-- The blocks of a request are freed after its status is set.
unfoldable pub free_with_status : Scheduler → ℕ → RequestStatus → Outcome Scheduler
free_with_status s request_id status =
    free_request_blocks
      (record { manager = s.manager; request = with_status (s.objects request_id) status })
    >>= λ h. returned (put_back s request_id h)

unfoldable pub abort_request : Scheduler → ℕ → Outcome Scheduler
unfolding free_with_status
abort_request s request_id =
    if not (elem request_id s.known)
    then returned s
    else free_with_status s request_id finished_aborted >>= λ s'. returned (record s' {
      running_ids = others request_id s'.running_ids;
      waiting_ids = others request_id s'.waiting_ids;
      known = others request_id s'.known;
    })

unfoldable pub finish_request : Scheduler → ℕ → RequestStatus → Outcome Scheduler
unfolding free_with_status
finish_request s request_id status =
    if not (elem request_id s.known)
    then returned s
    else free_with_status s request_id status >>= λ s'.
        returned (record s' { running_ids = others request_id s'.running_ids })

unfoldable pub has_work : Scheduler → Bool
has_work s = ltb 0 (length s.running_ids) || ltb 0 (length s.waiting_ids)

abbrev pub same_partition : Option ℕ → Option ℕ → Bool
same_partition none none = true
same_partition (some p) (some q) = p == q
same_partition _ _ = false

-- The requests that may be preempted for `exclude`: those of its partition, if there are any.
unfoldable pub preemption_candidates : Scheduler → ℕ → List ℕ
preemption_candidates s exclude =
    let candidates = others exclude s.running_ids in
    let partition = (s.objects exclude).cache_partition in
    let same = select (λ i. same_partition (s.objects i).cache_partition partition) candidates in
    if has_groups s.manager && (not (same_partition partition none) && not (is_empty same))
    then same
    else candidates

-- `max(candidates, key=arrival_time)`, the first one of those that arrived last.
unfoldable pub last_arrived : (ℕ → Request) → ℕ → List ℕ → ℕ
last_arrived objects best [] = best
last_arrived objects best (i ∷ ids) =
    last_arrived objects
      (if ltb (objects best).arrival_time (objects i).arrival_time then i else best) ids

-- The victim starts again from its prompt.
abbrev pub reset_request : Request → Request
reset_request r = record r {
  status = preempted;
  num_computed_tokens = 0;
  cached_block_ids = [];
  allocated_block_ids = [];
  allocated_group_block_ids = [];
  cache_partition = none;
  num_blocks_cached = 0;
  num_group_blocks_cached = [];
  num_output_placeholders = 0;
  terminal_prefill_in_flight = false;
}

-- The output without the victim, and the tokens that it returns.
abbrev pub withdraw : SchedulerOutput → Request → ℕ → SchedulerOutput
withdraw o victim returned_tokens = record o {
  scheduled_requests =
      select (λ (x : ScheduledRequest). not (x.request_id == victim.request_id))
        o.scheduled_requests;
  num_prefill_tokens =
      if is_prefill victim then o.num_prefill_tokens - returned_tokens else o.num_prefill_tokens;
  num_decode_tokens =
      if is_prefill victim then o.num_decode_tokens else o.num_decode_tokens - returned_tokens;
}

-- A preemption: the victim, the tokens of its step, and what it leaves. `scheduled_tokens` is the
-- dictionary of the requests scheduled in this pass; its keys are the set `scheduled_req_ids`.
pub record Preemption : Type 0 where
  pub victim : ℕ
  pub returned_tokens : ℕ
  pub scheduler : Scheduler
  pub output : SchedulerOutput
  pub scheduled_tokens : List (ℕ × ℕ)

abbrev pub withdrawn : SchedulerOutput → Request → Option ℕ → SchedulerOutput
withdrawn o victim none = o
withdrawn o victim (some tokens) = withdraw o victim tokens

-- What the preemption leaves, once the blocks of the victim are free.
abbrev pub preemption_of : Scheduler → SchedulerOutput → List (ℕ × ℕ) → ℕ → Lease → Preemption
preemption_of s output scheduled_tokens victim h =
    let tokens = lookup victim scheduled_tokens in
    record {
      victim = victim;
      returned_tokens = or_else 0 tokens;
      scheduler = record s {
        manager = h.manager;
        objects = store s.objects victim (reset_request h.request);
        running_ids = others victim s.running_ids;
        waiting_ids = victim ∷ s.waiting_ids;
      };
      output = withdrawn output (s.objects victim) tokens;
      scheduled_tokens = without victim scheduled_tokens;
    }

unfoldable pub preempt : Scheduler → SchedulerOutput → List (ℕ × ℕ) → ℕ → Outcome Preemption
preempt s output scheduled_tokens victim = free_request_blocks (lease s victim) >>= λ h.
    returned (preemption_of s output scheduled_tokens victim h)

-- The candidate that arrived last is preempted.
unfoldable pub preempt_last :
    Scheduler → List (ℕ × ℕ) → SchedulerOutput → List ℕ → Outcome (Option Preemption)
preempt_last s scheduled_tokens output [] = returned none
preempt_last s scheduled_tokens output (first ∷ rest) =
    preempt s output scheduled_tokens (last_arrived s.objects first rest) >>= λ p. returned (some p)

unfoldable pub preempt_lowest_priority :
    Scheduler → ℕ → List (ℕ × ℕ) → SchedulerOutput → Outcome (Option Preemption)
preempt_lowest_priority s exclude scheduled_tokens output =
    preempt_last s scheduled_tokens output (preemption_candidates s exclude)
