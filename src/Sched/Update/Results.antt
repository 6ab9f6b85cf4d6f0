-- ===== src/Sched/Update/Results.antt =====
-- Applying the result of a step keeps the state sound.
use pypto_serving.Prelude.{
  count, ap₂, leb, ℕ, ◌+◌, ◌≡◌, refl, ◌∙◌, ap, Bool, true, false, ◌&&◌, ◌||◌, List, [], ◌∷◌, ◌++◌,
  arith, ◌==◌, ltb, elem, Bool-cases, Option-cases, inl, inr, ◌⊎◌, Outcome, returned, fold_outcome,
}
use pypto_serving.Sched.Config.{SchedulerConfig}
use pypto_serving.Sched.Request.{
  Request, RequestStatus, RequestOutput, ScheduledRequest, check_finish, num_prompt_tokens,
  is_finished, is_preempted,
}
use pypto_serving.Sched.Accounting.{
  append_token, clear_barrier, reconcile_counts, reserved_tokens, settle, emit_tokens, add_computed,
}
use pypto_serving.Sched.Blocks.{Lease, publish_confirmed, release_scheduled_group_blocks}
use pypto_serving.Sched.Blocks.Accounted.{Accounted, Step, Step-trans, cache_completed_blocks-Step}
use pypto_serving.Sched.State.{Scheduler, lease, put_back}
use pypto_serving.Sched.State.Sound.{Sound, Blocks-focus, Blocks-keep, rest_of}
use pypto_serving.Sched.Schedule.Passes.{Queues-same}
use pypto_serving.Sched.Update.{
  reconcile, apply_prefill, apply_decode, apply_result, is_stale, update_scheduled, Progress,
}

-- Only counts and tokens of the request differ.
pub record Counted (r r' : Request) : Type 0 where
  pub id : r'.request_id ≡ r.request_id
  pub status : r'.status ≡ r.status
  pub cached : r'.cached_block_ids ≡ r.cached_block_ids
  pub owned : r'.allocated_block_ids ≡ r.allocated_block_ids
  pub tables : r'.allocated_group_block_ids ≡ r.allocated_group_block_ids

Counted-Step :
    (rest : ℕ → ℕ) (h : Lease) (r : Request)
    → Accounted rest h
    → Counted h.request r
    → Step rest h (record h { request = r })
Counted-Step rest h r a e =
    let listed = λ (b : ℕ). ap₂ (λ (xs ys : List ℕ). count b (xs ++ ys)) e.cached e.owned in
    record {
      accounted = record {
        no_groups = a.no_groups;
        free = a.free;
        valid = a.valid;
        refs = λ b k. omega (arith, a.refs b k, listed b);
        in_range = λ b k. a.in_range b (omega (arith, k, listed b));
        tables = e.tables ∙ a.tables;
      };
      size = refl;
      status = e.status;
      id = e.id;
    }

Counted-trans : (a b c : Request) → Counted a b → Counted b c → Counted a c
Counted-trans a b c s t = record {
  id = t.id ∙ s.id;
  status = t.status ∙ s.status;
  cached = t.cached ∙ s.cached;
  owned = t.owned ∙ s.owned;
  tables = t.tables ∙ s.tables;
}

append_token-Counted : (r : Request) (token : ℕ) → Counted r (append_token r token)
append_token-Counted r token = record {
  id = refl;
  status = refl;
  cached = refl;
  owned = refl;
  tables = refl;
}

emit_tokens-Counted : (r : Request) (tokens : List ℕ) → Counted r (emit_tokens r tokens).request
unfolding emit_tokens
emit_tokens-Counted r [] = record {
  id = refl;
  status = refl;
  cached = refl;
  owned = refl;
  tables = refl;
}
emit_tokens-Counted r (token ∷ tokens) = elim (Option-cases (check_finish (append_token r token))) [
  | inl goes_on ↦
      rw (goes_on, emit_tokens)
        (Counted-trans r (append_token r token) _ (append_token-Counted r token)
          (emit_tokens-Counted (append_token r token) tokens))
  | inr (status, ends) ↦ rw (ends, emit_tokens) (append_token-Counted r token)
]

settle-Counted : (r : Request) (reserved retained : ℕ) → Counted r (settle r reserved retained)
unfolding settle
settle-Counted r reserved retained = elim (Bool-cases (reserved == 0)) [
  | inl none_held ↦
      rw (none_held, settle)
        (record { id = refl; status = refl; cached = refl; owned = refl; tables = refl })
  | inr held ↦
      rw (held, settle)
        (record { id = refl; status = refl; cached = refl; owned = refl; tables = refl })
]

reconcile_counts-Counted :
    (c : SchedulerConfig) (x : ScheduledRequest) (r : Request) (tokens : List ℕ)
    → Counted r (reconcile_counts c x r tokens).0
unfolding reconcile_counts
reconcile_counts-Counted c x r tokens =
    let e = emit_tokens r tokens in
    Counted-trans r e.request _ (emit_tokens-Counted r tokens)
      (settle-Counted e.request (reserved_tokens c r x) e.retained)

clear_barrier-Counted : (x : ScheduledRequest) (r : Request) → Counted r (clear_barrier x r)
clear_barrier-Counted x r =
    elim (Bool-cases
      (x.prefill && leb (num_prompt_tokens r) (x.num_computed_tokens + x.num_new_tokens))) [
        | inl ends ↦
            simp ends
              (record { id = refl; status = refl; cached = refl; owned = refl; tables = refl })
        | inr goes_on ↦
            simp goes_on
              (record { id = refl; status = refl; cached = refl; owned = refl; tables = refl })
      ]

add_computed-Counted : (r : Request) (n : ℕ) → Counted r (add_computed r n)
add_computed-Counted r n = record {
  id = refl;
  status = refl;
  cached = refl;
  owned = refl;
  tables = refl;
}

-- A result that has been applied.
record Applied (rest : ℕ → ℕ) (h : Lease) (r : Outcome (Lease × List RequestOutput)) : Type 0 where
  pub h' : Lease
  pub outputs : List RequestOutput
  pub result : r ≡ returned (h', outputs)
  pub step : Step rest h h'

reconcile-Applied :
    (rest : ℕ → ℕ) (c : SchedulerConfig) (x : ScheduledRequest) (h : Lease) (tokens : List ℕ)
    → x.group_blocks_retained ≡ false
    → Accounted rest h
    → Applied rest h (reconcile c x h tokens)
unfolding reconcile publish_confirmed release_scheduled_group_blocks
reconcile-Applied rest c x h tokens unpinned a =
    let t = cache_completed_blocks-Step rest c h (x.num_computed_tokens + x.num_new_tokens) a in
    let r = reconcile_counts c x t.0.request tokens in
    record {
      h' = record { manager = t.0.manager; request = r.0 };
      outputs = r.1;
      result = simp (a.no_groups, t.1, unpinned) refl;
      step =
          Step-trans rest h t.0 (record t.0 { request = r.0 }) t.2
            (Counted-Step rest t.0 r.0 t.2.accounted
              (reconcile_counts-Counted c x t.0.request tokens));
    }

apply_prefill-Applied :
    (rest : ℕ → ℕ) (c : SchedulerConfig) (x : ScheduledRequest) (h : Lease) (tokens : List ℕ)
    → Accounted rest h
    → Applied rest h (apply_prefill c x h tokens)
unfolding apply_prefill
apply_prefill-Applied rest c x h tokens a =
    let r = add_computed h.request x.num_new_tokens in
    let counted = Counted-Step rest h r a (add_computed-Counted h.request x.num_new_tokens) in
    let t =
      cache_completed_blocks-Step rest c (record h { request = r }) r.num_computed_tokens
        counted.accounted in
    let step = Step-trans rest h (record h { request = r }) t.0 counted t.2 in
    elim (Bool-cases (ltb t.0.request.num_computed_tokens (num_prompt_tokens t.0.request))) [
      | inl part ↦ record { h' = t.0; outputs = []; result = simp (t.1, part) refl; step = step }
      | inr ends ↦
          let e = emit_tokens t.0.request tokens in
          record {
            h' = record t.0 { request = e.request };
            outputs = e.outputs;
            result = simp (t.1, ends) refl;
            step =
                Step-trans rest h t.0 (record t.0 { request = e.request }) step
                  (Counted-Step rest t.0 e.request t.2.accounted
                    (emit_tokens-Counted t.0.request tokens));
          }
    ]

apply_decode-Applied :
    (rest : ℕ → ℕ) (c : SchedulerConfig) (h : Lease) (tokens : List ℕ)
    → Accounted rest h
    → Applied rest h (apply_decode c h tokens)
unfolding apply_decode
apply_decode-Applied rest c h tokens a =
    let e = emit_tokens h.request tokens in
    let kept = emit_tokens-Counted h.request tokens in
    let r = add_computed e.request e.retained in
    let counted = Counted-Step rest h r a (record {
      id = kept.id;
      status = kept.status;
      cached = kept.cached;
      owned = kept.owned;
      tables = kept.tables;
    }) in
    let t =
      cache_completed_blocks-Step rest c (record h { request = r }) r.num_computed_tokens
        counted.accounted in
    record {
      h' = t.0;
      outputs = e.outputs;
      result = simp t.1 refl;
      step = Step-trans rest h (record h { request = r }) t.0 counted t.2;
    }

apply_result-Applied :
    (rest : ℕ → ℕ) (c : SchedulerConfig) (x : ScheduledRequest) (h : Lease) (tokens : List ℕ)
    → x.group_blocks_retained ≡ false
    → Accounted rest h
    → Applied rest h (apply_result c x h tokens)
unfolding apply_result
apply_result-Applied rest c x h tokens unpinned a = elim (Bool-cases c.async_scheduling) [
  | inl pipelined ↦ simp pipelined (reconcile-Applied rest c x h tokens unpinned a)
  | inr synchronous ↦ elim (Bool-cases x.prefill) [
    | inl prefilling ↦ simp (synchronous, prefilling) (apply_prefill-Applied rest c x h tokens a)
    | inr decoding ↦ simp (synchronous, decoding) (apply_decode-Applied rest c h tokens a)
  ]
]

-- The entries of a step without pinned tables: each request runs, or its result is stale.
abbrev pub Reported : (ℕ → Bool) → List ℕ → List ScheduledRequest → Type 0
Reported stale running_ids [] = Unit
Reported stale running_ids (x ∷ xs) =
    (x.group_blocks_retained ≡ false)
    × ((stale x.request_id ≡ true) ⊎ (elem x.request_id running_ids ≡ true))
    × Reported stale running_ids xs

abbrev pub stale_in : (ℕ → Request) → ℕ → Bool
stale_in objects i = is_stale (objects i)

Reported-same :
    (stale stale' : ℕ → Bool) (ids : List ℕ) (xs : List ScheduledRequest)
    → ((i : ℕ) → stale' i ≡ stale i)
    → Reported stale ids xs
    → Reported stale' ids xs
Reported-same stale stale' ids [] e v = v
Reported-same stale stale' ids (x ∷ xs) e v = (
  v.0,
  elim v.1 [ inl old ↦ inl (e x.request_id ∙ old) | inr runs ↦ inr runs ],
  Reported-same stale stale' ids xs e v.2,
)

stale-status : (r r' : Request) → r'.status ≡ r.status → is_stale r' ≡ is_stale r
unfolding is_stale
stale-status r r' e = ap (λ (x : RequestStatus). is_finished x || is_preempted x) e

-- The state once a result is applied, or dropped.
record Updates (outputs : List RequestOutput) (s : Scheduler) (r : Outcome Progress) : Type 0 where
  pub outputs' : List RequestOutput
  pub s' : Scheduler
  pub result : r ≡ returned (outputs', s')
  pub sound : Sound s'
  pub runs : s'.running_ids ≡ s.running_ids
  pub stale : (i : ℕ) → stale_in s'.objects i ≡ stale_in s.objects i

applied-Updates :
    (tokens_of : ℕ → List ℕ) (outputs : List RequestOutput) (s : Scheduler) (x : ScheduledRequest)
    → Sound s
    → x.group_blocks_retained ≡ false
    → is_stale (s.objects x.request_id) ≡ false
    → elem x.request_id s.running_ids ≡ true
    → Updates outputs s (update_scheduled tokens_of (outputs, s) x)
unfolding update_scheduled
applied-Updates tokens_of outputs s x v unpinned live there =
    let i = x.request_id in
    let rest = rest_of s.objects s.running_ids i in
    let r = clear_barrier x (s.objects i) in
    let h : Lease = record { manager = s.manager; request = r } in
    let counted =
      Counted-Step rest (lease s i) r
        (Blocks-focus s.manager s.objects s.running_ids i v.queues.running_distinct v.blocks)
        (clear_barrier-Counted x (s.objects i)) in
    let done = apply_result-Applied rest s.config x h (tokens_of i) unpinned counted.accounted in
    let step = Step-trans rest (lease s i) h done.h' counted done.step in
    record {
      outputs' = outputs ++ done.outputs;
      s' = put_back s i done.h';
      result = simp (live, done.result) refl;
      sound = record {
        blocks =
            Blocks-keep s.manager s.objects s.running_ids i done.h' v.queues.running_distinct
              v.blocks step.accounted step.size (λ out. absurd (ground (arith, out, there)));
        queues =
            Queues-same s.objects s.known s.running_ids s.waiting_ids i done.h'.request step.status
              step.id v.queues;
      };
      runs = refl;
      stale = λ j. elim (Bool-cases (i == j)) [
        | inl here ↦ simp here (
            stale-status (s.objects i) done.h'.request step.status
            ∙ ap (stale_in s.objects) (ground (arith, here)))
        | inr other ↦ simp other refl
      ];
    }

dropped-Updates :
    (tokens_of : ℕ → List ℕ) (outputs : List RequestOutput) (s : Scheduler) (x : ScheduledRequest)
    → Sound s
    → x.group_blocks_retained ≡ false
    → is_stale (s.objects x.request_id) ≡ true
    → Updates outputs s (update_scheduled tokens_of (outputs, s) x)
unfolding update_scheduled release_scheduled_group_blocks
dropped-Updates tokens_of outputs s x v unpinned old = record {
  outputs' = outputs;
  s' = s;
  result = simp (old, unpinned) refl;
  sound = v;
  runs = refl;
  stale = λ i. refl;
}

update_scheduled-Updates :
    (tokens_of : ℕ → List ℕ) (outputs : List RequestOutput) (s : Scheduler) (x : ScheduledRequest)
    → Sound s
    → x.group_blocks_retained ≡ false
    → (stale_in s.objects x.request_id ≡ true) ⊎ (elem x.request_id s.running_ids ≡ true)
    → Updates outputs s (update_scheduled tokens_of (outputs, s) x)
update_scheduled-Updates tokens_of outputs s x v unpinned reported =
    elim (Bool-cases (is_stale (s.objects x.request_id))) [
      | inl old ↦ dropped-Updates tokens_of outputs s x v unpinned old
      | inr live ↦
          applied-Updates tokens_of outputs s x v unpinned live
            (elim reported [ inl old ↦ absurd (ground (arith, old, live)) | inr runs ↦ runs ])
    ]

-- The results of all requests of a step.
pub updates-Sound :
    (tokens_of : ℕ → List ℕ) (outputs : List RequestOutput) (s : Scheduler)
    (xs : List ScheduledRequest)
    → Sound s
    → Reported (stale_in s.objects) s.running_ids xs
    → (p : Progress) × (fold_outcome (update_scheduled tokens_of) (outputs, s) xs ≡ returned p)
      × Sound p.1
updates-Sound tokens_of outputs s [] v reported = ((outputs, s), refl, v)
updates-Sound tokens_of outputs s (x ∷ xs) v reported =
    let u = update_scheduled-Updates tokens_of outputs s x v reported.0 reported.1 in
    let later = updates-Sound tokens_of u.outputs' u.s' xs u.sound (
      rw u.runs (
        Reported-same (stale_in s.objects) (stale_in u.s'.objects) s.running_ids xs u.stale
          reported.2)) in
    (later.0, simp u.result later.1, later.2)
