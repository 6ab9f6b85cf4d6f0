-- ===== src/Tests/Sched.antt =====
-- The scheduler's rules: a prefill request, a decoding one, and a small configuration.
use pypto_serving.Prelude.{ℕ, ◌+◌, ◌≡◌, refl, true, false, none, some, [], ◌∷◌, arith}
use pypto_serving.Sched.Config.{SchedulerConfig}
use pypto_serving.Sched.Request.{
  Request, ScheduledRequest, running, num_new_tokens_needed, is_prefill,
}
use pypto_serving.Sched.Limits.{
  single_prefill_dispatch_limit, single_prefill_rejection, limit_scheduled_tokens,
  single_prefill_rejection-limit, requires_single_prefill_dispatch, prefill_chunk_limit,
}
use pypto_serving.Sched.Phase.{
  Phase, decode, other, grouped_cache_phase, grouped_cache_phase_fair, has_prefill, has_decode,
}
use pypto_serving.Sched.Phase.Justified.{Justified, Work, grouped_cache_phase-Justified}
use pypto_serving.Sched.Accounting.{
  speculative_tokens_for, advance_request, apply_output, reconcile_counts, sync_counts,
}
use pypto_serving.Sched.Accounting.Agreement.{Sampled, apply_output-advance_request}
use pypto_serving.Sched.Accounting.Pipeline.{
  placeholders-reconcile_early, reconcile_counts-prefill_pair, reconcile_counts-decode_pair,
}

abbrev config : SchedulerConfig
config = record {
  max_num_running_reqs = 4;
  max_num_scheduled_tokens = 8;
  long_prefill_token_threshold = 4;
  max_prefill_tokens_per_request = none;
  prefill_chunk_size_choices = [];
  max_seq_len = 32;
  enable_prefix_cache = true;
  enable_chunk_prefill = true;
  num_speculative_tokens = 0;
  supports_chunked_prefill_with_speculation = true;
  requires_homogeneous_prefill_decode = true;
  async_scheduling = true;
}

-- One speculative token, and prefill in one piece.
abbrev speculative : SchedulerConfig
speculative = record config {
  num_speculative_tokens = 1;
  supports_chunked_prefill_with_speculation = false;
}

-- Six tokens of prompt, none computed.
abbrev fresh : Request
fresh = record {
  request_id = 1;
  prompt_token_ids = 1 ∷ 2 ∷ 3 ∷ 4 ∷ 5 ∷ 6 ∷ [];
  max_new_tokens = 10;
  arrival_time = 0;
  status = running;
  num_computed_tokens = 0;
  output_token_ids = [];
  eos_token_id = some 0;
  greedy = true;
  cached_block_ids = [];
  allocated_block_ids = [];
  allocated_group_block_ids = [];
  cache_partition = none;
  block_hashes = [];
  group_block_hashes = [];
  num_blocks_cached = 0;
  num_group_blocks_cached = [];
  num_output_placeholders = 0;
  terminal_prefill_in_flight = false;
}

-- The same after its first token.
abbrev decoding : Request
decoding = record fresh { request_id = 2; num_computed_tokens = 6; output_token_ids = 40 ∷ [] }

-- A step of `n` tokens from the counts of a request.
abbrev step_of : Request → ℕ → ScheduledRequest
step_of r n = record {
  request_id = r.request_id;
  num_new_tokens = n;
  prefill = is_prefill r;
  num_computed_tokens = r.num_computed_tokens;
  block_ids = [];
  block_ids_by_group = [];
  cache_partition = none;
  group_blocks_retained = false;
}

chunk_run : limit_scheduled_tokens config fresh 8 ≡ 4
unfolding limit_scheduled_tokens prefill_chunk_limit requires_single_prefill_dispatch
chunk_run = refl

phase_run : (grouped_cache_phase config (fresh ∷ decoding ∷ []) 0 decode).0 ≡ some decode
unfolding grouped_cache_phase has_prefill has_decode
phase_run = refl

grouped_cache_phase_fair_example :
    (phase : Phase) × ((grouped_cache_phase config (fresh ∷ decoding ∷ []) 0 decode).0 ≡ some phase)
    × ((grouped_cache_phase config
          (fresh ∷ decoding ∷ [])
          1
          (grouped_cache_phase config (fresh ∷ decoding ∷ []) 0 decode).1).0
        ≡ some (other phase))
unfolding has_prefill has_decode
grouped_cache_phase_fair_example =
    grouped_cache_phase_fair config (fresh ∷ decoding ∷ []) (fresh ∷ decoding ∷ []) 0 1 decode refl
      (refl, refl) (refl, refl)

grouped_cache_phase-Justified_example :
    Justified
      (Work config (fresh ∷ decoding ∷ []) 0)
      decode
      (grouped_cache_phase config (fresh ∷ decoding ∷ []) 0 decode).0
grouped_cache_phase-Justified_example =
    grouped_cache_phase-Justified config (fresh ∷ decoding ∷ []) 0 decode refl

apply_output-advance_request_example :
    apply_output speculative
      (step_of decoding 1)
      (advance_request speculative (step_of decoding 1) decoding)
      (41 ∷ 42 ∷ [])
    ≡ apply_output
        (record speculative { async_scheduling = false })
        (step_of decoding 1)
        decoding
        (41 ∷ 42 ∷ [])
unfolding speculative_tokens_for
apply_output-advance_request_example =
    apply_output-advance_request speculative (step_of decoding 1) decoding refl refl
      (Sampled.decode (41 ∷ 42 ∷ []) refl refl (omega arith) (omega arith))

reconcile_counts-decode_pair_example :
    reconcile_counts speculative
      (step_of decoding 1)
      (reconcile_counts speculative
        (step_of decoding 1)
        (advance_request speculative
          (step_of decoding 1)
          (advance_request speculative (step_of decoding 1) decoding))
        (41 ∷ [])).0
      (42 ∷ 43 ∷ [])
    ≡ sync_counts
        (step_of decoding 1)
        (sync_counts (step_of decoding 1) decoding (41 ∷ [])).0
        (42 ∷ 43 ∷ [])
unfolding speculative_tokens_for
reconcile_counts-decode_pair_example =
    reconcile_counts-decode_pair speculative (step_of decoding 1) (step_of decoding 1) decoding
      (41 ∷ []) (42 ∷ 43 ∷ []) refl refl refl refl (omega arith) (omega arith) (omega arith)
      (omega arith)

-- The second chunk of `fresh`, behind one of four tokens.
abbrev second_chunk : ScheduledRequest
second_chunk = step_of (record fresh { num_computed_tokens = 4 }) 2

placeholders-reconcile_early_example :
    (reconcile_counts config
        (step_of fresh 4)
        (advance_request config second_chunk (advance_request config (step_of fresh 4) fresh))
        []).0.num_output_placeholders
      + 1
    ≡ (advance_request config second_chunk
        (reconcile_counts config
          (step_of fresh 4)
          (advance_request config (step_of fresh 4) fresh)
          []).0).num_output_placeholders
unfolding advance_request
placeholders-reconcile_early_example =
    placeholders-reconcile_early config (step_of fresh 4) second_chunk fresh refl refl refl refl

reconcile_counts-prefill_pair_example :
    reconcile_counts config second_chunk
      (reconcile_counts config
        (step_of fresh 4)
        (advance_request config second_chunk (advance_request config (step_of fresh 4) fresh))
        []).0
      (40 ∷ [])
    ≡ sync_counts second_chunk (sync_counts (step_of fresh 4) fresh []).0 (40 ∷ [])
unfolding advance_request
reconcile_counts-prefill_pair_example =
    reconcile_counts-prefill_pair config (step_of fresh 4) second_chunk fresh (40 ∷ []) refl refl
      refl refl refl refl

-- A prompt of three tokens fits one dispatch of four.
abbrev short : Request
short = record fresh { prompt_token_ids = 1 ∷ 2 ∷ 3 ∷ [] }

single_prefill_rejection-limit_example :
    limit_scheduled_tokens speculative short 8 ≡ num_new_tokens_needed short
unfolding requires_single_prefill_dispatch single_prefill_rejection single_prefill_dispatch_limit
    prefill_chunk_limit
single_prefill_rejection-limit_example =
    single_prefill_rejection-limit speculative short refl refl refl refl
