-- ===== src/Sched/Schedule/Leases.antt =====
-- The admission of one waiting request keeps the count of references, and never raises an error.
use pypto_serving.Cache.Hashes.{iter_token_block_hashes}
use pypto_serving.Sched.Blocks.Counts.{count-append}
use pypto_serving.Prelude.{
  ℕ, ◌≡◌, refl, ◌∙◌, ap, Bool, true, false, ◌&&◌, List, [], ◌∷◌, ◌++◌, arith, ◌==◌, ltb, leb, count,
  Option-cases, Bool-cases, inl, inr, Outcome, returned, ◌⊎◌, ap₂,
}
use pypto_serving.Cache.Pool.{Pool, get_computed_blocks}
use pypto_serving.Cache.Pool.Validity.{IsValid}
use pypto_serving.Cache.Pool.Prefix.{get_computed_blocks-MatchedUpTo, Matched}
use pypto_serving.Cache.Manager.{has_groups}
use pypto_serving.Sched.Config.{SchedulerConfig}
use pypto_serving.Sched.Request.{num_prompt_tokens}
use pypto_serving.Sched.Limits.{limit_scheduled_tokens, single_prefill_rejection}
use pypto_serving.Sched.Blocks.{Lease, all_block_ids}
use pypto_serving.Sched.Blocks.Accounted.{
  Accounted, Step, Step-trans, Step-self, Tried, try_allocate_request_blocks-Tried,
  release_waiting_prefix_blocks-Step,
}
use pypto_serving.Sched.Schedule.{
  Verdict, admitted, deferred, blocked, rejected, lookup_prefix, generic_hit, give_up,
  admitted_or_blocked, retry_cold, admitted_or_cold, admit_tokens, leave_one, admit_leased,
}

-- The blocks of the hit gain the references of the request.
hit-Accounted :
    (rest : ℕ → ℕ) (h : Lease) (hashes new free : List ℕ) (p' : Pool)
    → (a : Accounted rest h) → h.request.cached_block_ids ≡ []
    → h.request.allocated_block_ids ≡ []
    → IsValid p' free
    → Matched h.manager.pool hashes new p'
    → Step rest h (generic_hit h (new, p'))
hit-Accounted rest h hashes [] free p' a cached owned v m = record {
  accounted = record {
    no_groups = a.no_groups;
    free = free;
    valid = v;
    refs = λ b i. omega (arith, m.refs b, a.refs b (omega (arith, i, m.same_size)));
    in_range = λ b k. omega (arith, a.in_range b k, m.same_size);
    tables = a.tables;
  };
  size = m.same_size;
  status = refl;
  id = refl;
}
hit-Accounted rest h hashes (block ∷ blocks) free p' a cached owned v m =
    let nothing = λ (b : ℕ). ap₂ (λ (xs ys : List ℕ). count b (xs ++ ys)) cached owned in
    let listed = λ (b : ℕ).
      ap (λ (ys : List ℕ). count b (block ∷ blocks ++ ys)) owned
      ∙ count-append b (block ∷ blocks) [] in
    record {
      accounted = record {
        no_groups = a.no_groups;
        free = free;
        valid = v;
        refs = λ b i.
            omega (arith, m.refs b, a.refs b (omega (arith, i, m.same_size)), nothing b, listed b);
        in_range = λ b k. omega (arith, m.inside b (omega (arith, k, listed b)), m.same_size);
        tables = a.tables;
      };
      size = m.same_size;
      status = refl;
      id = refl;
    }

module _ (hash : ℕ → List ℕ → ℕ) (none_hash : ℕ) where
  lookup-disabled :
      (p : Pool) (tokens : List ℕ)
      → p.enable_prefix_cache ≡ false
      → get_computed_blocks hash none_hash p tokens ≡ ([], p)
  unfolding get_computed_blocks
  lookup-disabled p tokens closed = simp closed refl

  -- A prefix lookup for a request without blocks.
  pub lookup_prefix-Step :
      (rest : ℕ → ℕ) (c : SchedulerConfig) (h : Lease)
      → Accounted rest h
      → h.request.cached_block_ids ≡ []
      → h.request.allocated_block_ids ≡ []
      → (h' : Lease) × (lookup_prefix hash none_hash c h ≡ returned h') × Step rest h h'
  unfolding lookup_prefix
  lookup_prefix-Step rest c h a cached owned = elim (Bool-cases c.enable_prefix_cache) [
    | inr off ↦ (h, simp off refl, Step-self rest h a)
    | inl on ↦
        let p = h.manager.pool in
        let tokens = h.request.prompt_token_ids in
        elim (Bool-cases p.enable_prefix_cache) [
          | inr closed ↦
              let none_found = lookup-disabled p tokens closed in
              (h, simp (on, a.no_groups, none_found) refl, Step-self rest h a)
          | inl kept ↦
              let m = get_computed_blocks-MatchedUpTo hash none_hash p a.free tokens a.valid kept in
              let r = get_computed_blocks hash none_hash p tokens in
              (
                generic_hit h r,
                simp (on, a.no_groups) refl,
                hit-Accounted rest h (iter_token_block_hashes hash none_hash tokens p.block_size)
                    r.0 m.free r.1 a cached owned m.valid (rw m.result m.matched),
              )
        ]
  ]

-- What an admission comes to: only an admitted request keeps blocks.
pub record Admits (rest : ℕ → ℕ) (h : Lease) (r : Outcome (Verdict × Lease)) : Type 0 where
  pub verdict : Verdict
  pub h' : Lease
  pub result : r ≡ returned (verdict, h')
  pub step : Step rest h h'
  pub cleared : ((n : ℕ) × (verdict ≡ admitted n)) ⊎ (all_block_ids h'.request ≡ [])

give_up-Admits :
    (rest : ℕ → ℕ) (verdict : Verdict) (h : Lease)
    → Accounted rest h
    → Admits rest h (give_up verdict h)
unfolding give_up
give_up-Admits rest verdict h a =
    let (h', e, step, empty) = release_waiting_prefix_blocks-Step rest h a in
    record { verdict = verdict; h' = h'; result = simp e refl; step = step; cleared = inr empty }

Admits-after :
    (rest : ℕ → ℕ) (h h' : Lease) (r : Outcome (Verdict × Lease))
    → Step rest h h'
    → Admits rest h' r
    → Admits rest h r
Admits-after rest h h' r s m = record {
  verdict = m.verdict;
  h' = m.h';
  result = m.result;
  step = Step-trans rest h h' m.h' s m.step;
  cleared = m.cleared;
}

Tried-admitted_or_blocked :
    (rest : ℕ → ℕ) (h : Lease) (n : ℕ) (r : Bool × Lease)
    → Tried rest h r
    → Admits rest h (admitted_or_blocked n r)
Tried-admitted_or_blocked rest h n (true, h') t = record {
  verdict = admitted n;
  h' = h';
  result = refl;
  step = t.step;
  cleared = inl (n, refl);
}
Tried-admitted_or_blocked rest h n (false, h') t =
    Admits-after rest h h' _ t.step (give_up-Admits rest blocked h' t.step.accounted)

retry_cold-Admits :
    (rest : ℕ → ℕ) (c : SchedulerConfig) (budget : ℕ) (h : Lease)
    → Accounted rest h
    → Admits rest h (retry_cold c budget h)
unfolding retry_cold
retry_cold-Admits rest c budget h a =
    let (cold, e, step, empty) = release_waiting_prefix_blocks-Step rest h a in
    let n = limit_scheduled_tokens c cold.request budget in
    let (r, tried, t) = try_allocate_request_blocks-Tried rest cold n step.accounted in
    simp e (elim (Bool-cases (n == 0)) [
      | inl nothing ↦
          simp nothing
            (Admits-after rest h cold _ step (give_up-Admits rest blocked cold step.accounted))
      | inr some_left ↦
          simp (some_left, tried)
            (Admits-after rest h cold _ step (Tried-admitted_or_blocked rest cold n r t))
    ])

Tried-admitted_or_cold :
    (rest : ℕ → ℕ) (c : SchedulerConfig) (budget : ℕ) (hit : Bool) (h : Lease) (n : ℕ)
    (r : Bool × Lease)
    → Tried rest h r
    → Admits rest h (admitted_or_cold c budget hit n r)
Tried-admitted_or_cold rest c budget hit h n (true, h') t = record {
  verdict = admitted n;
  h' = h';
  result = refl;
  step = t.step;
  cleared = inl (n, refl);
}
Tried-admitted_or_cold rest c budget true h n (false, h') t =
    Admits-after rest h h' _ t.step (retry_cold-Admits rest c budget h' t.step.accounted)
Tried-admitted_or_cold rest c budget false h n (false, h') t =
    Admits-after rest h h' _ t.step (give_up-Admits rest blocked h' t.step.accounted)

admit_tokens-Admits :
    (rest : ℕ → ℕ) (c : SchedulerConfig) (budget : ℕ) (hit : Bool) (h : Lease) (n : ℕ)
    → Accounted rest h
    → Admits rest h (admit_tokens c budget hit h n)
unfolding admit_tokens
admit_tokens-Admits rest c budget hit h n a =
    let (r, tried, t) = try_allocate_request_blocks-Tried rest h n a in
    simp tried (Tried-admitted_or_cold rest c budget hit h n r t)

leave_one-Step : (rest : ℕ → ℕ) (h : Lease) → Accounted rest h → Step rest h (leave_one h)
leave_one-Step rest h a = record {
  accounted = record {
    no_groups = a.no_groups;
    free = a.free;
    valid = a.valid;
    refs = a.refs;
    in_range = a.in_range;
    tables = a.tables;
  };
  size = refl;
  status = refl;
  id = refl;
}

pub admit_leased-Admits :
    (rest : ℕ → ℕ) (c : SchedulerConfig) (budget : ℕ) (h : Lease)
    → Accounted rest h
    → Admits rest h (admit_leased c budget h)
unfolding admit_leased
admit_leased-Admits rest c budget h a =
    let hit = has_groups h.manager && ltb 0 h.request.num_computed_tokens in
    let n = limit_scheduled_tokens c h.request budget in
    elim (Option-cases (single_prefill_rejection c h.request)) [
      | inr (rejection, e) ↦ rw (e, admit_leased) (give_up-Admits rest (rejected rejection) h a)
      | inl accepted ↦
          rw (accepted, admit_leased)
            (elim (Bool-cases (n == 0)) [
              | inr some_left ↦ simp some_left (admit_tokens-Admits rest c budget hit h n a)
              | inl nothing ↦
                  elim (Bool-cases
                    (leb (num_prompt_tokens h.request) h.request.num_computed_tokens)) [
                      | inl whole ↦
                          simp (nothing, whole)
                            (Admits-after rest h (leave_one h) _ (leave_one-Step rest h a) (
                              admit_tokens-Admits rest c budget hit (leave_one h) 1
                                (leave_one-Step rest h a).accounted))
                      | inr part ↦ simp (nothing, part) (give_up-Admits rest deferred h a)
                    ]
            ])
    ]
