-- ===== src/Sched/Accounting.antt =====
-- scheduler.py: how a request's token counts advance. `advance_after_schedule` (its loop body, less
-- the pin on grouped blocks), `_speculative_tokens_for`, `_reconcile_async_output` (less the
-- publication of blocks), and the synchronous branches of `update_from_output`.
pub mod Agreement
pub mod Pipeline
use pypto_serving.Prelude.{
  ℕ, ◌+◌, ◌-◌, ◌≤◌, ◌≡◌, refl, Bool, true, false, not, ◌&&◌, ◌||◌, Option, none, some, List, [],
  ◌∷◌, ◌++◌, ltb, leb, ◌==◌, if◌then◌else◌, length, arith,
}
use pypto_serving.Sched.Config.{SchedulerConfig}
use pypto_serving.Sched.Request.{
  Request, ScheduledRequest, RequestOutput, num_prompt_tokens, is_prefill, check_finish,
}

unfoldable pub speculative_tokens_for : SchedulerConfig → Request → ScheduledRequest → ℕ
speculative_tokens_for c r s = if s.prefill || not r.greedy then 0 else c.num_speculative_tokens

-- `request.num_computed_tokens + scheduled.num_new_tokens >= request.num_prompt_tokens`
abbrev pub completes_prompt : Request → ScheduledRequest → Bool
completes_prompt r s = leb (num_prompt_tokens r) (r.num_computed_tokens + s.num_new_tokens)

-- The advance of one scheduled request, as the step is dispatched.
unfoldable pub advance_request : SchedulerConfig → ScheduledRequest → Request → Request
advance_request c s r =
    let reserved = 1 + speculative_tokens_for c r s in
    let advanced = r.num_computed_tokens + s.num_new_tokens in
    let samples = not s.prefill || completes_prompt r s in
    record r {
      num_computed_tokens = if samples then advanced + (reserved - 1) else advanced;
      num_output_placeholders =
          if samples then r.num_output_placeholders + reserved else r.num_output_placeholders;
      terminal_prefill_in_flight =
          if s.prefill && completes_prompt r s && ltb 0 c.num_speculative_tokens
          then true
          else r.terminal_prefill_in_flight;
    }

-- The request after the loop over the sampled tokens, how many it kept, and what it emitted.
pub record Emitted : Type 0 where
  pub request : Request
  pub retained : ℕ
  pub outputs : List RequestOutput

abbrev pub token_output : ℕ → ℕ → RequestOutput
token_output request_id token = record {
  request_id = request_id;
  new_token_id = some token;
  finish_reason = none;
}

abbrev pub append_token : Request → ℕ → Request
append_token r token = record r { output_token_ids = r.output_token_ids ++ token ∷ [] }

abbrev pub emitted_more : RequestOutput → Emitted → Emitted
emitted_more o e = record e { retained = e.retained + 1; outputs = o ∷ e.outputs }

-- Tokens are appended until the request is finished; those behind that are dropped.
unfoldable pub emit_tokens : Request → List ℕ → Emitted
emit_tokens r [] = record { request = r; retained = 0; outputs = [] }
emit_tokens r (token ∷ tokens) = elim (check_finish (append_token r token)) [
  | none ↦
      emitted_more (token_output r.request_id token) (emit_tokens (append_token r token) tokens)
  | some status ↦ record {
    request = append_token r token;
    retained = 1;
    outputs = token_output r.request_id token ∷ [];
  }
]

-- `reserved` of `_reconcile_async_output`.
unfoldable pub reserved_tokens : SchedulerConfig → Request → ScheduledRequest → ℕ
reserved_tokens c r s =
    if not s.prefill || leb (num_prompt_tokens r) r.num_computed_tokens
    then 1 + speculative_tokens_for c r s
    else 0

-- The release of the placeholders, and of the speculative positions without a retained token.
unfoldable pub settle : Request → ℕ → ℕ → Request
settle r reserved retained = if reserved == 0 then r else record r {
  num_output_placeholders = r.num_output_placeholders - reserved;
  num_computed_tokens = r.num_computed_tokens - ((reserved - 1) - (retained - 1));
}

unfoldable pub reconcile_counts :
    SchedulerConfig → ScheduledRequest → Request → List ℕ → Request × List RequestOutput
reconcile_counts c s r token_ids =
    let reserved = reserved_tokens c r s in
    let e = emit_tokens r token_ids in (settle e.request reserved e.retained, e.outputs)

abbrev pub add_computed : Request → ℕ → Request
add_computed r n = record r { num_computed_tokens = r.num_computed_tokens + n }

-- A synchronous prefill chunk, its tokens counted: only the last one emits.
sync_prefill : Request → List ℕ → Request × List RequestOutput
sync_prefill r token_ids =
    if ltb r.num_computed_tokens (num_prompt_tokens r)
    then (r, [])
    else let e = emit_tokens r token_ids in (e.request, e.outputs)

-- A synchronous decode step counts the tokens that it kept.
sync_decode : Emitted → Request × List RequestOutput
sync_decode e = (add_computed e.request e.retained, e.outputs)

-- The synchronous branches: a prefill chunk, and a decode step.
unfoldable pub sync_counts : ScheduledRequest → Request → List ℕ → Request × List RequestOutput
unfolding sync_prefill sync_decode
sync_counts s r token_ids =
    if s.prefill
    then sync_prefill (add_computed r s.num_new_tokens) token_ids
    else sync_decode (emit_tokens r token_ids)

-- The confirmation of a prefill that ends the prompt lifts its barrier.
abbrev pub clear_barrier : ScheduledRequest → Request → Request
clear_barrier s r =
    if s.prefill && leb (num_prompt_tokens r) (s.num_computed_tokens + s.num_new_tokens)
    then record r { terminal_prefill_in_flight = false }
    else r

unfoldable pub apply_output :
    SchedulerConfig → ScheduledRequest → Request → List ℕ → Request × List RequestOutput
apply_output c s r token_ids =
    if c.async_scheduling
    then reconcile_counts c s (clear_barrier s r) token_ids
    else sync_counts s (clear_barrier s r) token_ids
