-- ===== src/Sched/Accounting/Agreement.antt =====
-- Asynchronous scheduling reserves tokens before they are sampled. Once the step's result is applied
-- the request is the one that synchronous scheduling gives.
use pypto_serving.Prelude.{
  ℕ, ◌+◌, ◌-◌, ◌≤◌, ◌<◌, ◌≡◌, refl, Bool, true, false, not, List, [], ◌∷◌, if◌then◌else◌, length,
  arith,
}
use pypto_serving.Sched.Config.{SchedulerConfig}
use pypto_serving.Sched.Request.{Request, ScheduledRequest, check_finish}
use pypto_serving.Sched.Accounting.{
  clear_barrier, speculative_tokens_for, advance_request, apply_output, reconcile_counts,
  sync_counts, emit_tokens, Emitted, append_token, completes_prompt, reserved_tokens, settle,
}

abbrev pub with_counts : Request → ℕ → ℕ → Bool → Request
with_counts r computed placeholders barrier = record r {
  num_computed_tokens = computed;
  num_output_placeholders = placeholders;
  terminal_prefill_in_flight = barrier;
}

abbrev pub emitted_with : Emitted → ℕ → ℕ → Bool → Emitted
emitted_with e n p b = record e { request = with_counts e.request n p b }

-- The token loop neither reads nor writes the counts.
pub emit_tokens-with_counts :
    (r : Request) (n p : ℕ) (b : Bool) (ts : List ℕ)
    → emit_tokens (with_counts r n p b) ts ≡ emitted_with (emit_tokens r ts) n p b
unfolding emit_tokens check_finish
emit_tokens-with_counts r n p b [] = refl
emit_tokens-with_counts r n p b (t ∷ ts) =
    ground (arith, emit_tokens-with_counts (append_token r t) n p b ts)

-- The counts stay, and between one token and all of them are retained.
pub record Kept (r : Request) (ts : List ℕ) (e : Emitted) : Type 0 where
  pub computed : e.request.num_computed_tokens ≡ r.num_computed_tokens
  pub placeholders : e.request.num_output_placeholders ≡ r.num_output_placeholders
  pub barrier : e.request.terminal_prefill_in_flight ≡ r.terminal_prefill_in_flight
  pub greedy : e.request.greedy ≡ r.greedy
  pub prompt : e.request.prompt_token_ids ≡ r.prompt_token_ids
  pub at_most : e.retained ≤ length ts
  pub at_least : 0 < length ts → 0 < e.retained

pub emit_tokens-Kept : (r : Request) (ts : List ℕ) → Kept r ts (emit_tokens r ts)
unfolding emit_tokens
emit_tokens-Kept r [] = record {
  computed = refl;
  placeholders = refl;
  barrier = refl;
  greedy = refl;
  prompt = refl;
  at_most = omega arith;
  at_least = λ h. h;
}
emit_tokens-Kept r (t ∷ ts) =
    let k = emit_tokens-Kept (append_token r t) ts in
    record {
      computed = ground (arith, k.computed);
      placeholders = ground (arith, k.placeholders);
      barrier = ground (arith, k.barrier);
      greedy = ground (arith, k.greedy);
      prompt = ground (arith, k.prompt);
      at_most = ground (arith, k.at_most);
      at_least = λ h. ground arith;
    }

-- A decode step: one token of the request's own, and a result of one token up to all reserved ones.
decode_agrees :
    (c : SchedulerConfig) (s : ScheduledRequest) (r : Request) (ts : List ℕ)
    → s.prefill ≡ false
    → s.num_new_tokens ≡ 1
    → 0 < length ts
    → length ts ≤ 1 + speculative_tokens_for c r s
    → reconcile_counts c s (advance_request c s r) ts ≡ sync_counts s r ts
unfolding reconcile_counts advance_request sync_counts reserved_tokens settle speculative_tokens_for
decode_agrees c s r ts d one some_token fits =
    let k = emit_tokens-Kept r ts in
    let spec = if not r.greedy then 0 else c.num_speculative_tokens in
    let least : 0 < (emit_tokens r ts).retained = k.at_least some_token in
    ground (
      arith,
      least,
      k.computed,
      k.placeholders,
      k.at_most,
      emit_tokens-with_counts r (r.num_computed_tokens + s.num_new_tokens + (1 + spec - 1))
          (r.num_output_placeholders + (1 + spec)) r.terminal_prefill_in_flight ts,
    )

-- A chunk that does not end the prompt samples nothing.
chunk_agrees :
    (c : SchedulerConfig) (s : ScheduledRequest) (r : Request)
    → s.prefill ≡ true
    → completes_prompt r s ≡ false
    → reconcile_counts c s (clear_barrier s (advance_request c s r)) []
      ≡ sync_counts s (clear_barrier s r) []
unfolding reconcile_counts advance_request sync_counts reserved_tokens settle speculative_tokens_for
    emit_tokens
chunk_agrees c s r d incomplete = ground arith

-- The chunk that ends the prompt reserves one token, the first that is generated.
last_chunk_agrees :
    (c : SchedulerConfig) (s : ScheduledRequest) (r : Request) (ts : List ℕ)
    → s.prefill ≡ true
    → s.num_computed_tokens ≡ r.num_computed_tokens
    → completes_prompt r s ≡ true
    → reconcile_counts c s (clear_barrier s (advance_request c s r)) ts
      ≡ sync_counts s (clear_barrier s r) ts
unfolding reconcile_counts advance_request sync_counts reserved_tokens settle speculative_tokens_for
last_chunk_agrees c s r ts d same complete =
    let k = emit_tokens-Kept r ts in
    let n = r.num_computed_tokens + s.num_new_tokens in
    ground (
      arith,
      k.computed,
      k.placeholders,
      emit_tokens-with_counts r (n + (1 + 0 - 1)) (r.num_output_placeholders + (1 + 0)) false ts,
      emit_tokens-with_counts r n r.num_output_placeholders false ts,
    )

-- What the worker returns for a step that was scheduled from the request's counts: nothing for a
-- chunk inside the prompt, any tokens for the chunk that ends it, and for a decode step between one
-- token and the most that were reserved.
pub data Sampled (c : SchedulerConfig) (s : ScheduledRequest) (r : Request) : List ℕ → Type 0 where
  chunk : s.prefill ≡ true → completes_prompt r s ≡ false → Sampled c s r []
  last_chunk : (ts : List ℕ) → s.prefill ≡ true → completes_prompt r s ≡ true → Sampled c s r ts
  decode :
      (ts : List ℕ)
      → s.prefill ≡ false
      → s.num_new_tokens ≡ 1
      → 0 < length ts
      → length ts ≤ 1 + speculative_tokens_for c r s
      → Sampled c s r ts

counts_agree :
    (c : SchedulerConfig) (s : ScheduledRequest) (r : Request) {ts : List ℕ}
    → s.num_computed_tokens ≡ r.num_computed_tokens
    → Sampled c s r ts
    → reconcile_counts c s (clear_barrier s (advance_request c s r)) ts
      ≡ sync_counts s (clear_barrier s r) ts
counts_agree c s r same (chunk d incomplete) = chunk_agrees c s r d incomplete
counts_agree c s r same (last_chunk ts d complete) = last_chunk_agrees c s r ts d same complete
counts_agree c s r same (decode ts d one some_token fits) =
    simp d (decode_agrees c s r ts d one some_token fits)

-- A step that was scheduled from the request's counts is dispatched early and then settled: the request,
-- and the tokens that it emits, are those that the synchronous scheduler gives for the same result,
-- where the step is a chunk inside the prompt with no result, a chunk that ends the prompt with any
-- result, or a decode step of one new token with a result of one token up to one more than its
-- speculative ones.
pub apply_output-advance_request :
    (c : SchedulerConfig) (s : ScheduledRequest) (r : Request) {ts : List ℕ}
    → c.async_scheduling ≡ true
    → s.num_computed_tokens ≡ r.num_computed_tokens
    → Sampled c s r ts
    → apply_output c s (advance_request c s r) ts
      ≡ apply_output (record c { async_scheduling = false }) s r ts
unfolding apply_output
apply_output-advance_request c s r on same sampled = simp on (counts_agree c s r same sampled)
