-- ===== src/Sched/Phase.antt =====
-- scheduler.py, `_grouped_cache_phase`: one homogeneous phase for each dispatch.
pub mod Justified
use pypto_serving.Prelude.{
  ℕ, ◌≡◌, refl, Bool, true, false, not, ◌&&◌, ◌||◌, Option, none, some, List, ltb, if◌then◌else◌,
  length, any, arith,
}
use pypto_serving.Sched.Config.{SchedulerConfig}
use pypto_serving.Sched.Request.{Request, num_new_tokens_needed, is_prefill, is_preempted}

pub data Phase : Type 0 where
  prefill decode : Phase

abbrev pub other : Phase → Phase
other prefill = decode
other decode = prefill

-- A running request that may be dispatched and still needs a token.
abbrev pub is_ready : Request → Bool
is_ready r =
    not (is_preempted r.status)
    && not r.terminal_prefill_in_flight
    && ltb 0 (num_new_tokens_needed r)

-- `has_prefill`: a running prefill, or a waiting request with room to run.
unfoldable pub has_prefill : SchedulerConfig → List Request → ℕ → Bool
has_prefill c running num_waiting =
    any (λ r. is_ready r && is_prefill r) running
    || (ltb 0 num_waiting && ltb (length running) c.max_num_running_reqs)

unfoldable pub has_decode : List Request → Bool
has_decode running = any (λ r. is_ready r && not (is_prefill r)) running

-- The choice from what there is to do.
unfoldable pub pick : Bool → Bool → Phase → Option Phase × Phase
pick true true next = (some next, other next)
pick true false next = (some prefill, decode)
pick false true next = (some decode, prefill)
pick false false next = (none, next)

-- The phase chosen, and the phase preferred at the next call.
unfoldable pub grouped_cache_phase :
    SchedulerConfig → List Request → ℕ → Phase → Option Phase × Phase
unfolding pick
grouped_cache_phase c running num_waiting next =
    if not c.requires_homogeneous_prefill_decode
    then (none, next)
    else pick (has_prefill c running num_waiting) (has_decode running) next

-- Work of both kinds: what a call of the scheduler finds.
abbrev pub HasBoth : SchedulerConfig → List Request → ℕ → Type 0
HasBoth c running num_waiting =
    (has_prefill c running num_waiting ≡ true) × (has_decode running ≡ true)

-- Neither kind of work starves the other: of two calls in a row that find work of both kinds, one
-- dispatches prefill and the other decode, whatever was preferred before.
pub grouped_cache_phase_fair :
    (c : SchedulerConfig) (running running' : List Request) (num_waiting num_waiting' : ℕ)
    (next : Phase)
    → c.requires_homogeneous_prefill_decode ≡ true
    → HasBoth c running num_waiting
    → HasBoth c running' num_waiting'
    → (phase : Phase) × ((grouped_cache_phase c running num_waiting next).0 ≡ some phase)
      × ((grouped_cache_phase c running' num_waiting'
            (grouped_cache_phase c running num_waiting next).1).0
          ≡ some (other phase))
unfolding grouped_cache_phase
grouped_cache_phase_fair c running running' n n' next h both both' =
    (next, ground arith, ground arith)
