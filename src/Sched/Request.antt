-- ===== src/Sched/Request.antt =====
-- scheduler.py, `RequestStatus`, `Request`, `ScheduledRequest`, `RequestOutput` and `_check_finish`.
-- Identifiers are numbers, since the code only compares them. `greedy` stands for the only test that
-- the scheduler makes on the temperature, `temperature <= 0.0`, of a temperature that is no NaN. The
-- fields that it never reads (stop strings, top_p, top_k, seed) are left out. A dictionary over cache
-- groups is the list of its values in the order of the pools.
use pypto_serving.Prelude.{
  ℕ, ◌+◌, ◌-◌, Bool, true, false, Option, none, some, List, ◌==◌, ltb, leb, if◌then◌else◌, length,
  get_last?,
}

pub data RequestStatus : Type 0 where
  waiting running preempted : RequestStatus
  finished_eos finished_length finished_stop finished_aborted : RequestStatus

abbrev pub is_finished : RequestStatus → Bool
is_finished waiting = false
is_finished running = false
is_finished preempted = false
is_finished finished_eos = true
is_finished finished_length = true
is_finished finished_stop = true
is_finished finished_aborted = true

-- `status is RequestStatus.PREEMPTED`
abbrev pub is_preempted : RequestStatus → Bool
is_preempted preempted = true
is_preempted _ = false

pub record Request : Type 0 where
  pub request_id : ℕ
  pub prompt_token_ids : List ℕ
  pub max_new_tokens : ℕ
  pub arrival_time : ℕ
  pub status : RequestStatus
  pub num_computed_tokens : ℕ
  pub output_token_ids : List ℕ
  pub eos_token_id : Option ℕ
  pub greedy : Bool
  pub cached_block_ids : List ℕ
  pub allocated_block_ids : List ℕ
  pub allocated_group_block_ids : List (List ℕ)
  pub cache_partition : Option ℕ
  pub block_hashes : List ℕ
  pub group_block_hashes : List (List ℕ)
  pub num_blocks_cached : ℕ
  pub num_group_blocks_cached : List ℕ
  pub num_output_placeholders : ℕ
  pub terminal_prefill_in_flight : Bool

abbrev pub num_prompt_tokens : Request → ℕ
num_prompt_tokens r = length r.prompt_token_ids

abbrev pub num_tokens : Request → ℕ
num_tokens r = num_prompt_tokens r + length r.output_token_ids + r.num_output_placeholders

-- The source's difference may be negative, where this one is 0; the code treats the two alike.
abbrev pub num_new_tokens_needed : Request → ℕ
num_new_tokens_needed r = num_tokens r - r.num_computed_tokens

abbrev pub is_prefill : Request → Bool
is_prefill r = ltb r.num_computed_tokens (num_prompt_tokens r)

-- The request is named by its id; the fields are the snapshot taken at scheduling.
pub record ScheduledRequest : Type 0 where
  pub request_id : ℕ
  pub num_new_tokens : ℕ
  pub prefill : Bool
  pub num_computed_tokens : ℕ
  pub block_ids : List ℕ
  pub block_ids_by_group : List (List ℕ)
  pub cache_partition : Option ℕ
  pub group_blocks_retained : Bool

pub record RequestOutput : Type 0 where
  pub request_id : ℕ
  pub new_token_id : Option ℕ
  pub finish_reason : Option RequestStatus

-- `request.eos_token_id is not None and last_token == request.eos_token_id`
abbrev pub is_eos : Option ℕ → ℕ → Bool
is_eos none token = false
is_eos (some eos) token = token == eos

unfoldable pub check_finish : Request → Option RequestStatus
check_finish r = elim (get_last? r.output_token_ids) [
  | none ↦ none
  | some last_token ↦
      if is_eos r.eos_token_id last_token
      then some finished_eos
      else if leb r.max_new_tokens (length r.output_token_ids)
      then some finished_length
      else none
]
