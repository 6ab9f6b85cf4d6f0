-- ===== src/Tests/Engine.antt =====
-- Commands of a step: a new request, one that is known, and one that was preempted.
use pypto_serving.Prelude.{
  ℕ, ◌+◌, ◌≡◌, refl, true, false, none, List, [], ◌∷◌, arith, length, returned,
}
use pypto_serving.Sched.Request.{Request, ScheduledRequest, running}
use pypto_serving.Sched.Config.{SchedulerConfig}
use pypto_serving.Sched.Limits.{limit_scheduled_tokens, prefill_chunk_limit}
use pypto_serving.Sched.State.{reset_request}
use pypto_serving.Sched.Schedule.{scheduled_request}
use pypto_serving.Engine.Command.{Building, build_step_command, chunk_of}
use pypto_serving.Engine.Command.Chunks.{chunk_of-reset_request}
use pypto_serving.Engine.Command.Registered.{
  Introduces, scheduled_ids, build_step_command-Introduces,
}
use pypto_serving.Engine.Command.{still_known}

-- Three tokens of prompt, two generated.
abbrev talking : ℕ → Request
talking i = record {
  request_id = i;
  prompt_token_ids = 1 ∷ 2 ∷ 3 ∷ [];
  max_new_tokens = 10;
  arrival_time = 0;
  status = running;
  num_computed_tokens = 4;
  output_token_ids = 8 ∷ 9 ∷ [];
  eos_token_id = none;
  greedy = true;
  cached_block_ids = [];
  allocated_block_ids = [];
  allocated_group_block_ids = [];
  cache_partition = none;
  block_hashes = [];
  group_block_hashes = [];
  num_blocks_cached = 0;
  num_group_blocks_cached = [];
  num_output_placeholders = 0;
  terminal_prefill_in_flight = false;
}

abbrev unlimited : SchedulerConfig
unlimited = record {
  max_num_running_reqs = 4;
  max_num_scheduled_tokens = 8;
  long_prefill_token_threshold = 0;
  max_prefill_tokens_per_request = none;
  prefill_chunk_size_choices = [];
  max_seq_len = 32;
  enable_prefix_cache = true;
  enable_chunk_prefill = true;
  num_speculative_tokens = 0;
  supports_chunked_prefill_with_speculation = true;
  requires_homogeneous_prefill_decode = false;
  async_scheduling = true;
}

chunk_of-reset_request_example :
    limit_scheduled_tokens unlimited (reset_request (talking 1)) 8
    ≡ length (
        chunk_of (reset_request (talking 1)) (
          scheduled_request
            (reset_request (talking 1))
            (limit_scheduled_tokens unlimited (reset_request (talking 1)) 8)
            true))
      + 2
unfolding prefill_chunk_limit
chunk_of-reset_request_example =
    chunk_of-reset_request unlimited (talking 1) 8 refl (omega arith) (omega arith)

-- The first request is new, the second one known, and the third one was released.
abbrev entries : List ScheduledRequest
entries =
    scheduled_request (talking 1) 1 false
    ∷ scheduled_request (talking 2) 1 false
    ∷ scheduled_request (reset_request (talking 3)) 3 true
    ∷ []

build_step_command-Introduces_example :
    (b : Building) × (build_step_command talking (2 ∷ 3 ∷ []) entries (3 ∷ []) 7 ≡ returned b)
    × Introduces talking (still_known (2 ∷ 3 ∷ []) (3 ∷ [])) (scheduled_ids entries) b
build_step_command-Introduces_example =
    build_step_command-Introduces talking (2 ∷ 3 ∷ []) entries (3 ∷ []) 7 (λ i. omega arith)
