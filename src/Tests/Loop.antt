-- ===== src/Tests/Loop.antt =====
-- The scheduler's loop: a small pool, a request that waits, and one that runs.
use pypto_serving.Prelude.{
  ℕ, ◌+◌, ◌≡◌, ◌⊎◌, refl, true, false, none, List, [], ◌∷◌, arith, elem, returned, raised,
  value_error, inl, inr, Bool-cases, ◌==◌,
}
use pypto_serving.Sched.Blocks.{without_blocks, release_tables, free_request_blocks}
use pypto_serving.Cache.Pool.{release_ids, release_blocks_by_ids, init, fill_blocks}
use pypto_serving.Cache.Pool.Validity.{init_blocks-IsValid}
use pypto_serving.Cache.Manager.{Manager}
use pypto_serving.Sched.Config.{SchedulerConfig}
use pypto_serving.Sched.Request.{
  Request, ScheduledRequest, RequestOutput, waiting, running, finished_aborted,
}
use pypto_serving.Sched.Phase.{decode}
use pypto_serving.Sched.State.{
  free_with_status, free_with_status, new_scheduler, Scheduler, SchedulerOutput, store, with_status,
  add_request, abort_request,
}
use pypto_serving.Sched.State.Sound.{Sound, Blocks-join}
use pypto_serving.Sched.State.Arrival.{
  IsAcceptable, new_scheduler-Sound, Fresh, Arrives, add_request-Sound, arrived-Sound,
}
use pypto_serving.Sched.State.Queueing.{abort_request-Sound}
use pypto_serving.Sched.Schedule.{schedule}
use pypto_serving.Sched.Schedule.Admissions.{schedule-Sound}
use pypto_serving.Sched.Reach.{returned-same, begins, then_calls, aborts, reached-schedules}
use pypto_serving.Sched.Update.{update_from_output}
use pypto_serving.Sched.Update.Retired.{update_from_output-Sound}

abbrev loop_config : SchedulerConfig
loop_config = record {
  max_num_running_reqs = 4;
  max_num_scheduled_tokens = 8;
  long_prefill_token_threshold = 4;
  max_prefill_tokens_per_request = none;
  prefill_chunk_size_choices = [];
  max_seq_len = 32;
  enable_prefix_cache = true;
  enable_chunk_prefill = true;
  num_speculative_tokens = 0;
  supports_chunked_prefill_with_speculation = true;
  requires_homogeneous_prefill_decode = false;
  async_scheduling = true;
}

-- A request under an id that is not in use: it is finished, and holds nothing.
abbrev unused : ℕ → Request
unused i = record {
  request_id = i;
  prompt_token_ids = [];
  max_new_tokens = 0;
  arrival_time = 0;
  status = finished_aborted;
  num_computed_tokens = 0;
  output_token_ids = [];
  eos_token_id = none;
  greedy = true;
  cached_block_ids = [];
  allocated_block_ids = [];
  allocated_group_block_ids = [];
  cache_partition = none;
  block_hashes = [];
  group_block_hashes = [];
  num_blocks_cached = 0;
  num_group_blocks_cached = [];
  num_output_placeholders = 0;
  terminal_prefill_in_flight = false;
}

-- Six tokens of prompt.
abbrev prompt : Request
prompt = record (unused 1) { prompt_token_ids = 1 ∷ 2 ∷ 3 ∷ 4 ∷ 5 ∷ 6 ∷ []; max_new_tokens = 1 }

-- Four blocks of four tokens, and no cache groups.
abbrev small : Manager
small = record {
  pool = fill_blocks (init 4 true) 4 4;
  groups = record {
    enable_prefix_cache = true;
    pools = [];
    group_request_partitions = [];
    next_group_partition = 0;
  };
}

-- A scheduler without requests.
abbrev start : Scheduler
start = record {
  config = loop_config;
  manager = small;
  objects = unused;
  known = [];
  waiting_ids = [];
  running_ids = [];
  next_phase = decode;
}

start_run : new_scheduler loop_config small unused ≡ returned start
unfolding new_scheduler
start_run = refl

start-Sound : Sound start
unfolding fill_blocks init
start-Sound =
    let t =
      new_scheduler-Sound loop_config small unused (0 ∷ 1 ∷ 2 ∷ 3 ∷ []) refl
        (init_blocks-IsValid 4 4 4 true).1 (λ b. refl)
        (λ i. record { cached = refl; owned = refl; tables = refl }) (λ i. refl) in
    rw (returned-same _ _ _ start_run t.1) t.2

abbrev weak_hash : ℕ → List ℕ → ℕ
weak_hash parent tokens = parent + 1

prompt-Fresh : Fresh prompt
prompt-Fresh = record { cached = refl; owned = refl; tables = refl }

-- The prompt waits.
abbrev queued : Scheduler
queued = record start {
  objects = store unused 1 (with_status prompt waiting);
  waiting_ids = 1 ∷ [];
  known = 1 ∷ [];
}

queued-Sound : Sound queued
queued-Sound = arrived-Sound weak_hash 0 start 1 prompt prompt-Fresh refl start-Sound refl

schedule-Sound_example :
    (out : SchedulerOutput) × (s' : Scheduler) × (schedule weak_hash 0 queued ≡ returned (out, s'))
    × Sound s'
schedule-Sound_example = schedule-Sound weak_hash 0 queued queued-Sound

abort_request-Sound_example :
    (s' : Scheduler) × (abort_request queued 1 ≡ returned s')
    × Sound s'
    × (elem 1 s'.known ≡ false)
    × (elem 1 s'.running_ids ≡ false)
    × (elem 1 s'.waiting_ids ≡ false)
abort_request-Sound_example = abort_request-Sound queued 1 queued-Sound

add_request-Sound_example :
    (IsAcceptable start prompt × Arrives weak_hash 0 start prompt)
    ⊎ ((¬ (IsAcceptable start prompt))
        × (add_request weak_hash 0 start prompt ≡ raised value_error))
add_request-Sound_example = add_request-Sound weak_hash 0 start prompt start-Sound prompt-Fresh refl

-- The prompt has been computed, and its one token is due.
abbrev started : Request
started = record prompt { status = running; num_computed_tokens = 6 }

abbrev busy : Scheduler
busy = record start { objects = store unused 1 started; running_ids = 1 ∷ []; known = 1 ∷ [] }

busy-Sound : Sound busy
unfolding fill_blocks init
busy-Sound = record {
  blocks =
      Blocks-join small unused [] 1 (record { manager = small; request = started }) refl
        start-Sound.blocks
        (record {
          no_groups = refl;
          free = 0 ∷ 1 ∷ 2 ∷ 3 ∷ [];
          valid = (init_blocks-IsValid 4 4 4 true).1;
          refs = λ b i. refl;
          in_range = λ b k. absurd (omega (arith, k));
          tables = refl;
        })
        refl;
  queues = record {
    running_distinct = (refl, tt);
    waiting_distinct = tt;
    is_running = λ i h. elim (Bool-cases (1 == i)) [
      | inl here ↦ simp here refl
      | inr other ↦ absurd (ground (arith, h, other))
    ];
    is_waiting = λ i h. absurd (ground (arith, h));
    ids = λ i. elim (Bool-cases (1 == i)) [
      | inl here ↦ simp here (ground (arith, here))
      | inr other ↦ simp other refl
    ];
    known_running = λ i h. h;
    known_waiting = λ i h. absurd (ground (arith, h));
  };
}

-- The step of its prompt.
abbrev last_chunk : ScheduledRequest
last_chunk = record {
  request_id = 1;
  num_new_tokens = 6;
  prefill = true;
  num_computed_tokens = 0;
  block_ids = [];
  block_ids_by_group = [];
  cache_partition = none;
  group_blocks_retained = false;
}

update_from_output-Sound_example :
    (outputs : List RequestOutput) × (s' : Scheduler) × (update_from_output busy
        (last_chunk ∷ [])
        (λ i. 9 ∷ [])
      ≡ returned (outputs, s'))
    × Sound s'
update_from_output-Sound_example =
    update_from_output-Sound busy (last_chunk ∷ []) (λ i. 9 ∷ []) busy-Sound (refl, inr refl, tt)

-- The prompt is aborted before it runs.
abbrev aborted : Scheduler
aborted = record start {
  objects = store queued.objects 1 (without_blocks (with_status prompt finished_aborted));
}

abort_run : abort_request queued 1 ≡ returned aborted
unfolding abort_request free_with_status free_request_blocks release_blocks_by_ids release_tables
    release_ids
abort_run = refl

reached-schedules_example :
    Sound aborted
    × ((out : SchedulerOutput) × (s' : Scheduler) × (schedule weak_hash 0 aborted
          ≡ returned (out, s')))
reached-schedules_example =
    reached-schedules weak_hash 0 queued-Sound (then_calls begins (aborts 1 abort_run))
