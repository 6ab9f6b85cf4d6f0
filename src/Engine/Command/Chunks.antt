-- ===== src/Engine/Command/Chunks.antt =====
-- What the prefill chunks of a command hold.
use pypto_serving.Prelude.{
  ap, drop, ℕ, ◌+◌, ◌-◌, ◌<◌, ◌≤◌, ◌≡◌, true, none, length, length-take, length-drop, arith, min,
}
use pypto_serving.Sched.Config.{SchedulerConfig}
use pypto_serving.Sched.Request.{
  Request, ScheduledRequest, num_prompt_tokens, num_tokens, num_new_tokens_needed,
}
use pypto_serving.Sched.Limits.{min?, limit_scheduled_tokens, prefill_chunk_limit}
use pypto_serving.Sched.State.{reset_request}
use pypto_serving.Sched.Schedule.{scheduled_request}
use pypto_serving.Engine.Command.{chunk_of}

chunk_of-length :
    (r : Request) (x : ScheduledRequest)
    → length (chunk_of r x) ≡ min x.num_new_tokens (num_prompt_tokens r - x.num_computed_tokens)
unfolding chunk_of
chunk_of-length r x = omega (
  arith,
  length-take x.num_new_tokens (drop x.num_computed_tokens r.prompt_token_ids),
  length-drop x.num_computed_tokens r.prompt_token_ids,
)

limit-needed :
    (c : SchedulerConfig) (r : Request) (budget : ℕ)
    → prefill_chunk_limit c ≡ none
    → num_new_tokens_needed r ≤ budget
    → limit_scheduled_tokens c r budget ≡ num_new_tokens_needed r
unfolding limit_scheduled_tokens
limit-needed c r budget unlimited enough =
    let same : min? budget (prefill_chunk_limit c) ≡ budget = ap (min? budget) unlimited in
    ground (arith, same, enough)

-- A request that was preempted with tokens generated is scheduled for all its tokens, where the budget
-- allows it and no chunk limit holds, but its chunk carries those of the prompt only.
pub chunk_of-reset_request :
    (c : SchedulerConfig) (r : Request) (budget : ℕ)
    → prefill_chunk_limit c ≡ none
    → 0 < num_prompt_tokens r
    → num_tokens (reset_request r) ≤ budget
    → let n = limit_scheduled_tokens c (reset_request r) budget in
      n
      ≡ length (chunk_of (reset_request r) (scheduled_request (reset_request r) n true))
        + length r.output_token_ids
chunk_of-reset_request c r budget unlimited h enough =
    let n = limit_scheduled_tokens c (reset_request r) budget in
    let e = chunk_of-length (reset_request r) (scheduled_request (reset_request r) n true) in
    omega (arith, e, limit-needed c (reset_request r) budget unlimited (omega (arith, enough)))
