-- ===== src/Sched/Phase/Justified.antt =====
-- The phase that is chosen has work that a step can dispatch.
use pypto_serving.Prelude.{
  ℕ, ◌<◌, ◌≤◌, ◌≡◌, refl, ◌∙◌, sym, ap, Bool, true, false, not, ◌&&◌, Option, none, some, List, [],
  ◌∷◌, length, any, arith, Bool-cases, inl, inr, ◌⊎◌,
}
use pypto_serving.Sched.Config.{SchedulerConfig}
use pypto_serving.Sched.Request.{
  Request, RequestStatus, waiting, running, finished_eos, finished_length, finished_stop,
  finished_aborted, preempted, num_tokens, num_prompt_tokens, is_prefill, is_preempted,
}
use pypto_serving.Sched.Phase.{
  Phase, prefill, decode, other, is_ready, has_prefill, has_decode, pick, grouped_cache_phase,
}

-- Within the prompt there is prefill to do, behind it there is decode.
abbrev pub Stands : Phase → Request → Type 0
Stands prefill r = r.num_computed_tokens < num_prompt_tokens r
Stands decode r = num_prompt_tokens r ≤ r.num_computed_tokens

-- A running request that a step of the phase can dispatch: it was not preempted, no prefill that ends
-- its prompt is in flight, and it needs a token.
pub record Dispatchable (phase : Phase) (r : Request) : Type 0 where
  pub live : ¬ (r.status ≡ preempted)
  pub no_barrier : r.terminal_prefill_in_flight ≡ false
  pub needs : r.num_computed_tokens < num_tokens r
  pub stands : Stands phase r

abbrev pub AnyOf : (Request → Type 0) → List Request → Type 0
AnyOf P [] = ⊥
AnyOf P (r ∷ rs) = P r ⊎ AnyOf P rs

-- A running request can be dispatched, or, for prefill, a waiting one has room to run.
abbrev pub Work : SchedulerConfig → List Request → ℕ → Phase → Type 0
Work c requests num_waiting prefill =
    AnyOf (Dispatchable prefill) requests
    ⊎ ((0 < num_waiting) × (length requests < c.max_num_running_reqs))
Work c requests num_waiting decode = AnyOf (Dispatchable decode) requests

-- A phase is chosen that has work, the preferred one if both have; none is chosen only without work.
abbrev pub Justified : (Phase → Type 0) → Phase → Option Phase → Type 0
Justified work next none = (¬ (work prefill)) × (¬ (work decode))
Justified work next (some phase) = work phase × (work (other phase) → phase ≡ next)

not_preempted : (x : RequestStatus) → is_preempted x ≡ false → ¬ (x ≡ preempted)
not_preempted x h e = let clash : false ≡ true = sym h ∙ ap is_preempted e in absurd cc

preempted-only : (x : RequestStatus) → is_preempted x ≡ true → x ≡ preempted
preempted-only waiting h = absurd cc
preempted-only running h = absurd cc
preempted-only preempted h = refl
preempted-only finished_eos h = absurd cc
preempted-only finished_length h = absurd cc
preempted-only finished_stop h = absurd cc
preempted-only finished_aborted h = absurd cc

is_preempted-not : (x : RequestStatus) → ¬ (x ≡ preempted) → is_preempted x ≡ false
is_preempted-not x h = elim (Bool-cases (is_preempted x)) [
  | inl gone ↦ absurd (h (preempted-only x gone))
  | inr live ↦ live
]

ready-prefill : (r : Request) → (is_ready r && is_prefill r) ≡ true → Dispatchable prefill r
ready-prefill r h = record {
  live = not_preempted r.status (ground (arith, h));
  no_barrier = ground (arith, h);
  needs = ground (arith, h);
  stands = ground (arith, h);
}

prefill-ready : (r : Request) → Dispatchable prefill r → (is_ready r && is_prefill r) ≡ true
prefill-ready r d =
    ground (arith, is_preempted-not r.status d.live, d.no_barrier, d.needs, d.stands)

ready-decode : (r : Request) → (is_ready r && not (is_prefill r)) ≡ true → Dispatchable decode r
ready-decode r h = record {
  live = not_preempted r.status (ground (arith, h));
  no_barrier = ground (arith, h);
  needs = ground (arith, h);
  stands = ground (arith, h);
}

decode-ready : (r : Request) → Dispatchable decode r → (is_ready r && not (is_prefill r)) ≡ true
decode-ready r d = ground (arith, is_preempted-not r.status d.live, d.no_barrier, d.needs, d.stands)

any-AnyOf :
    (P : Request → Type 0) (test : Request → Bool) (rs : List Request)
    → ((r : Request) → test r ≡ true → P r)
    → any test rs ≡ true
    → AnyOf P rs
any-AnyOf P test [] h e = absurd cc
any-AnyOf P test (r ∷ rs) h e = elim (Bool-cases (test r)) [
  | inl here ↦ inl (h r here)
  | inr there ↦ inr (any-AnyOf P test rs h (ground (arith, there, e)))
]

AnyOf-any :
    (P : Request → Type 0) (test : Request → Bool) (rs : List Request)
    → ((r : Request) → P r → test r ≡ true)
    → AnyOf P rs
    → any test rs ≡ true
AnyOf-any P test [] h w = absurd w
AnyOf-any P test (r ∷ rs) h (inl here) = ground (arith, h r here)
AnyOf-any P test (r ∷ rs) h (inr there) = ground (arith, AnyOf-any P test rs h there)

has_prefill-Work :
    (c : SchedulerConfig) (requests : List Request) (n : ℕ)
    → (has_prefill c requests n ≡ true → Work c requests n prefill)
      × (Work c requests n prefill → has_prefill c requests n ≡ true)
unfolding has_prefill
has_prefill-Work c requests n = (
  λ h. elim (Bool-cases (any (λ (r : Request). is_ready r && is_prefill r) requests)) [
    | inl there ↦ inl (
        any-AnyOf (Dispatchable prefill) (λ (r : Request). is_ready r && is_prefill r) requests
          ready-prefill there)
    | inr nowhere ↦ inr (ground (arith, h, nowhere), ground (arith, h, nowhere))
  ],
  λ w. elim w [
    | inl there ↦
        let e =
          AnyOf-any (Dispatchable prefill) (λ (r : Request). is_ready r && is_prefill r) requests
            prefill-ready there in
        ground (arith, e)
    | inr room ↦ ground (arith, room.0, room.1)
  ],
)

has_decode-Work :
    (c : SchedulerConfig) (requests : List Request) (n : ℕ)
    → (has_decode requests ≡ true → Work c requests n decode)
      × (Work c requests n decode → has_decode requests ≡ true)
unfolding has_decode
has_decode-Work c requests n = (
  λ h.
      any-AnyOf (Dispatchable decode) (λ (r : Request). is_ready r && not (is_prefill r)) requests
        ready-decode h,
  λ w.
      AnyOf-any (Dispatchable decode) (λ (r : Request). is_ready r && not (is_prefill r)) requests
        decode-ready w,
)

pick-Justified :
    (work : Phase → Type 0) (p d : Bool) (next : Phase)
    → (p ≡ true → work prefill) × (work prefill → p ≡ true)
    → (d ≡ true → work decode) × (work decode → d ≡ true)
    → Justified work next (pick p d next).0
unfolding pick
pick-Justified work true true prefill hp hd = (hp.0 refl, λ w. refl)
pick-Justified work true true decode hp hd = (hd.0 refl, λ w. refl)
pick-Justified work true false next hp hd =
    (hp.0 refl, λ w. let clash : false ≡ true = hd.1 w in absurd cc)
pick-Justified work false true next hp hd =
    (hd.0 refl, λ w. let clash : false ≡ true = hp.1 w in absurd cc)
pick-Justified work false false next hp hd = (
  λ w. let clash : false ≡ true = hp.1 w in absurd cc,
  λ w. let clash : false ≡ true = hd.1 w in absurd cc,
)

-- Under a homogeneous kernel the phase that is chosen has work: a running request of that phase was not
-- preempted, has no prefill in flight that ends its prompt and needs a token, or, for prefill, a
-- request waits and there is room to run it. Where both phases have work the preferred one is chosen,
-- and none is chosen only where neither has.
pub grouped_cache_phase-Justified :
    (c : SchedulerConfig) (requests : List Request) (num_waiting : ℕ) (next : Phase)
    → c.requires_homogeneous_prefill_decode ≡ true
    → Justified
        (Work c requests num_waiting)
        next
        (grouped_cache_phase c requests num_waiting next).0
unfolding grouped_cache_phase
grouped_cache_phase-Justified c requests n next h = simp h (
    pick-Justified (Work c requests n) (has_prefill c requests n) (has_decode requests) next
      (has_prefill-Work c requests n) (has_decode-Work c requests n))
