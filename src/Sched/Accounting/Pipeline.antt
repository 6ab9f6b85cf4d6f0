-- ===== src/Sched/Accounting/Pipeline.antt =====
-- Two steps of one request in flight: both are dispatched before the first result is applied.
use pypto_serving.Prelude.{
  ℕ, ◌+◌, ◌-◌, ◌≤◌, ◌<◌, ◌≡◌, refl, Bool, true, false, List, [], length, arith,
}
use pypto_serving.Sched.Config.{SchedulerConfig}
use pypto_serving.Sched.Request.{Request, ScheduledRequest}
use pypto_serving.Sched.Accounting.{
  speculative_tokens_for, advance_request, reconcile_counts, sync_counts, emit_tokens,
  completes_prompt, reserved_tokens, settle,
}
use pypto_serving.Sched.Accounting.Agreement.{
  emit_tokens-with_counts, emit_tokens-Kept, with_counts,
}

-- A chunk `a` inside the prompt and the chunk `b` that ends it: settling `a` while `b` is in flight takes
-- the placeholder of `b`'s token, so that one placeholder less is left than when `a` is settled before
-- `b` is dispatched.
pub placeholders-reconcile_early :
    (c : SchedulerConfig) (a b : ScheduledRequest) (r : Request)
    → a.prefill ≡ true
    → b.prefill ≡ true
    → completes_prompt r a ≡ false
    → completes_prompt (advance_request c a r) b ≡ true
    → (reconcile_counts c a
          (advance_request c b (advance_request c a r))
          []).0.num_output_placeholders
        + 1
      ≡ (advance_request c b
          (reconcile_counts c a (advance_request c a r) []).0).num_output_placeholders
unfolding reconcile_counts advance_request reserved_tokens settle speculative_tokens_for emit_tokens
placeholders-reconcile_early c a b r pa pb inside ends = ground arith

-- A chunk inside the prompt and the chunk that ends it, both in flight, with no speculation and no
-- other token in flight: once both are settled the request, and the tokens emitted, are those of the
-- two synchronous steps.
pub reconcile_counts-prefill_pair :
    (c : SchedulerConfig) (a b : ScheduledRequest) (r : Request) (ts : List ℕ)
    → a.prefill ≡ true
    → b.prefill ≡ true
    → completes_prompt r a ≡ false
    → completes_prompt (advance_request c a r) b ≡ true
    → c.num_speculative_tokens ≡ 0
    → r.num_output_placeholders ≡ 0
    → reconcile_counts c b
        (reconcile_counts c a (advance_request c b (advance_request c a r)) []).0
        ts
      ≡ sync_counts b (sync_counts a r []).0 ts
unfolding reconcile_counts advance_request sync_counts reserved_tokens settle speculative_tokens_for
    emit_tokens
reconcile_counts-prefill_pair c a b r ts pa pb inside ends nospec none_in_flight =
    let k = emit_tokens-Kept r ts in
    let n = r.num_computed_tokens + a.num_new_tokens + b.num_new_tokens in
    ground (
      arith,
      k.computed,
      k.placeholders,
      emit_tokens-with_counts r n 0 r.terminal_prefill_in_flight ts,
      emit_tokens-with_counts r n r.num_output_placeholders r.terminal_prefill_in_flight ts,
    )

-- One decode step on a request with given counts, where `spec` tokens are speculative.
module _ (c : SchedulerConfig) (s : ScheduledRequest) (spec : ℕ)
    (prefills : s.prefill ≡ false) where
  advance_decode :
      (r : Request) (n p : ℕ) (b : Bool)
      → s.num_new_tokens ≡ 1
      → speculative_tokens_for c r s ≡ spec
      → advance_request c s (with_counts r n p b)
        ≡ with_counts r (n + (1 + spec)) (p + (1 + spec)) b
  unfolding advance_request speculative_tokens_for
  advance_decode r n p b one e = ground arith

  reconcile_decode :
      (r : Request) (n p : ℕ) (b : Bool) (ts : List ℕ)
      → speculative_tokens_for c r s ≡ spec
      → reconcile_counts c s (with_counts r n p b) ts ≡ (
        with_counts
            (emit_tokens r ts).request
            (n - (spec - ((emit_tokens r ts).retained - 1)))
            (p - (1 + spec))
            b,
        (emit_tokens r ts).outputs,
      )
  unfolding reconcile_counts reserved_tokens settle speculative_tokens_for
  reconcile_decode r n p b ts e = ground (arith, emit_tokens-with_counts r n p b ts)

  sync_decode_lem :
      (r : Request) (n p : ℕ) (b : Bool) (ts : List ℕ)
      → sync_counts s (with_counts r n p b) ts ≡ (
        with_counts (emit_tokens r ts).request (n + (emit_tokens r ts).retained) p b,
        (emit_tokens r ts).outputs,
      )
  unfolding sync_counts
  sync_decode_lem r n p b ts = ground (arith, emit_tokens-with_counts r n p b ts)

-- Whether a step is speculative depends on the kind of the step and of the request only.
speculative_tokens_for-emit :
    (c : SchedulerConfig) (a b : ScheduledRequest) (r : Request) (ts : List ℕ)
    → a.prefill ≡ false
    → b.prefill ≡ false
    → speculative_tokens_for c (emit_tokens r ts).request b ≡ speculative_tokens_for c r a
unfolding speculative_tokens_for
speculative_tokens_for-emit c a b r ts pa pb = ground (arith, (emit_tokens-Kept r ts).greedy)

speculative_tokens_for-same :
    (c : SchedulerConfig) (a b : ScheduledRequest) (r : Request)
    → a.prefill ≡ false
    → b.prefill ≡ false
    → speculative_tokens_for c r b ≡ speculative_tokens_for c r a
unfolding speculative_tokens_for
speculative_tokens_for-same c a b r pa pb = ground arith

counts_settle :
    (n spec x y : ℕ)
    → 0 < x
    → 0 < y
    → x ≤ 1 + spec
    → y ≤ 1 + spec
    → n + (1 + spec) + (1 + spec) - (spec - (x - 1)) - (spec - (y - 1)) ≡ n + x + y
counts_settle n spec x y h k l m = omega arith

placeholders_settle : (p spec : ℕ) → p + (1 + spec) + (1 + spec) - (1 + spec) - (1 + spec) ≡ p
placeholders_settle p spec = omega arith

-- Two decode steps in flight, each of one new token and with a result of one token up to all reserved
-- ones: once both are settled the request, and the tokens that the second emits, are those of the two synchronous steps.
pub reconcile_counts-decode_pair :
    (c : SchedulerConfig) (a b : ScheduledRequest) (r : Request) (ts us : List ℕ)
    → a.prefill ≡ false
    → b.prefill ≡ false
    → a.num_new_tokens ≡ 1
    → b.num_new_tokens ≡ 1
    → 0 < length ts
    → 0 < length us
    → length ts ≤ 1 + speculative_tokens_for c r a
    → length us ≤ 1 + speculative_tokens_for c r b
    → reconcile_counts c b
        (reconcile_counts c a (advance_request c b (advance_request c a r)) ts).0
        us
      ≡ sync_counts b (sync_counts a r ts).0 us
reconcile_counts-decode_pair c a b r ts us pa pb one_a one_b some_a some_b fits_a fits_b =
    let spec = speculative_tokens_for c r a in
    let n = r.num_computed_tokens in
    let p = r.num_output_placeholders in
    let barrier = r.terminal_prefill_in_flight in
    let first = emit_tokens r ts in
    let second = emit_tokens first.request us in
    let same = speculative_tokens_for-same c a b r pa pb in
    let k = emit_tokens-Kept r ts in
    let l = emit_tokens-Kept first.request us in
    rw (
      advance_decode c a spec pa r n p barrier one_a refl,
      advance_decode c b spec pb r _ _ barrier one_b same,
      reconcile_decode c a spec pa r _ _ barrier ts refl,
      reconcile_decode c b spec pb first.request _ _ barrier us
          (speculative_tokens_for-emit c a b r ts pa pb),
      sync_decode_lem c a spec pa r n p barrier ts,
      sync_decode_lem c b spec pb first.request _ p barrier us,
      placeholders_settle p spec,
      counts_settle n spec first.retained second.retained (k.at_least some_a) (l.at_least some_b)
          (omega (arith, k.at_most)) (omega (arith, l.at_most, same)),
    )
