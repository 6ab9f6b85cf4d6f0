-- ===== src/Sched/Limits.antt =====
-- scheduler.py, `_prefill_chunk_limit`, `_single_prefill_dispatch_limit`,
-- `_requires_single_prefill_dispatch`, `_single_prefill_rejection` and `_limit_scheduled_tokens`.
use pypto_serving.Prelude.{
  ℕ, ◌-◌, ◌≡◌, Bool, true, not, ◌&&◌, ◌||◌, Option, none, some, List, [], ◌∷◌, ltb, leb,
  if◌then◌else◌, min, max, arith,
}
use pypto_serving.Sched.Config.{SchedulerConfig}
use pypto_serving.Sched.Request.{Request, num_prompt_tokens, num_new_tokens_needed, is_prefill}

-- `min(limits) if limits else None`, for the list of the limits that are set.
abbrev pub minimum? : List ℕ → Option ℕ
minimum? [] = none
minimum? (x ∷ []) = some x
minimum? (x ∷ y ∷ ys) = elim (minimum? (y ∷ ys)) [ none ↦ some x | some m ↦ some (min x m) ]

abbrev pub optional : Option ℕ → List ℕ
optional none = []
optional (some n) = n ∷ []

unfoldable pub prefill_chunk_limit : SchedulerConfig → Option ℕ
prefill_chunk_limit c =
    let chunked =
      if c.enable_chunk_prefill && ltb 0 c.long_prefill_token_threshold
      then some c.long_prefill_token_threshold
      else none in
    elim c.max_prefill_tokens_per_request [
      | none ↦ minimum? (optional chunked)
      | some n ↦ minimum? (n ∷ optional chunked)
    ]

unfoldable pub single_prefill_dispatch_limit : SchedulerConfig → ℕ
single_prefill_dispatch_limit c = elim (prefill_chunk_limit c) [
  | none ↦ c.max_num_scheduled_tokens
  | some limit ↦ min limit c.max_num_scheduled_tokens
]

unfoldable pub requires_single_prefill_dispatch : SchedulerConfig → Bool
requires_single_prefill_dispatch c =
    not c.enable_chunk_prefill
    || (ltb 0 c.num_speculative_tokens && not c.supports_chunked_prefill_with_speculation)

-- The two messages, with the length and the limit that they quote.
pub data Rejection : Type 0 where
  chunking_disabled : ℕ → ℕ → Rejection
  chunking_unsupported : ℕ → ℕ → Rejection

unfoldable pub single_prefill_rejection : SchedulerConfig → Request → Option Rejection
single_prefill_rejection c r =
    let uncached_tokens = max 1 (num_prompt_tokens r - r.num_computed_tokens) in
    let single_dispatch_limit = single_prefill_dispatch_limit c in
    if not (requires_single_prefill_dispatch c)
    then none
    else if leb uncached_tokens single_dispatch_limit
    then none
    else if not c.enable_chunk_prefill
    then some (chunking_disabled uncached_tokens single_dispatch_limit)
    else some (chunking_unsupported uncached_tokens single_dispatch_limit)

-- The smaller of the limit and an optional one.
abbrev pub min? : ℕ → Option ℕ → ℕ
min? n none = n
min? n (some m) = min n m

unfoldable pub limit_scheduled_tokens : SchedulerConfig → Request → ℕ → ℕ
limit_scheduled_tokens c r token_budget =
    let needed = num_new_tokens_needed r in
    let limit = min? token_budget (prefill_chunk_limit c) in
    if is_prefill r
    then if requires_single_prefill_dispatch c && ltb limit needed then 0 else min needed limit
    else min needed token_budget

-- Where prefill must run in one step, a prefill that admission lets through, with nothing generated
-- yet, gets all the tokens it needs from a step whose whole budget is left.
pub single_prefill_rejection-limit :
    (c : SchedulerConfig) (r : Request)
    → requires_single_prefill_dispatch c ≡ true
    → single_prefill_rejection c r ≡ none
    → is_prefill r ≡ true
    → num_new_tokens_needed r ≡ num_prompt_tokens r - r.num_computed_tokens
    → limit_scheduled_tokens c r c.max_num_scheduled_tokens ≡ num_new_tokens_needed r
unfolding limit_scheduled_tokens single_prefill_rejection single_prefill_dispatch_limit
single_prefill_rejection-limit c r single accepted prefill fresh = ground arith
