-- ===== src/Sched/Config.antt =====
-- scheduler.py, `SchedulerConfig` and its `__post_init__`. The numbers are not negative, so the guard
-- on a negative `num_speculative_tokens` never fires here; a threshold is an `int` by its type.
use pypto_serving.Prelude.{
  is_zero?, ℕ, ◌+◌, Bool, true, false, not, ◌&&◌, Option, none, some, List, [], ◌∷◌, ltb,
  if◌then◌else◌, elem,
}

pub record SchedulerConfig : Type 0 where
  pub max_num_running_reqs : ℕ
  pub max_num_scheduled_tokens : ℕ
  pub long_prefill_token_threshold : ℕ
  pub max_prefill_tokens_per_request : Option ℕ
  pub prefill_chunk_size_choices : List ℕ
  pub max_seq_len : ℕ
  pub enable_prefix_cache : Bool
  pub enable_chunk_prefill : Bool
  pub num_speculative_tokens : ℕ
  pub supports_chunked_prefill_with_speculation : Bool
  pub requires_homogeneous_prefill_decode : Bool
  pub async_scheduling : Bool

pub data ConfigError : Type 0 where
  budget_too_small prefill_limit_not_positive threshold_not_a_choice : ConfigError

abbrev pub is_empty {ℓ} : {A : Type ℓ} → List A → Bool
is_empty [] = true
is_empty (x ∷ xs) = false

-- The first check that fails, if one does.
unfoldable pub post_init : SchedulerConfig → Option ConfigError
post_init c =
    if ltb c.max_num_scheduled_tokens (c.num_speculative_tokens + 1)
    then some budget_too_small
    else if is_zero? c.max_prefill_tokens_per_request
    then some prefill_limit_not_positive
    else if not (is_empty c.prefill_chunk_size_choices)
        && not (elem c.long_prefill_token_threshold c.prefill_chunk_size_choices)
    then some threshold_not_a_choice
    else none
