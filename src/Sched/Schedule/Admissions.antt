-- ===== src/Sched/Schedule/Admissions.antt =====
-- The loop over the waiting requests keeps the state sound, and raises no error.
use mathlib.Core.List.{append_assoc}
use pypto_serving.Prelude.{
  length, Option, map, ℕ, ◌≡◌, refl, Bool, true, false, List, [], ◌∷◌, ◌++◌, elem, Bool-cases, inl,
  inr, Outcome, returned, ◌⊎◌,
}
use pypto_serving.Sched.Request.{running, finished_aborted}
use pypto_serving.Sched.Limits.{Rejection}
use pypto_serving.Sched.Phase.{Phase, grouped_cache_phase}
use pypto_serving.Sched.Blocks.{Lease, all_block_ids}
use pypto_serving.Sched.Blocks.Accounted.{append_empty, Step, Step-trans}
use pypto_serving.Sched.State.{Scheduler, SchedulerOutput, lease, put_back, with_status}
use pypto_serving.Sched.Schedule.Leaving.{head-waits, Queues-run, Queues-reject}
use pypto_serving.Sched.State.Queueing.{not_running, with_status-Accounted}
use pypto_serving.Sched.State.Sound.{
  Sound, Blocks, Queues, Blocks-focus, Blocks-keep, Blocks-join, rest_of,
}
use pypto_serving.Sched.Schedule.{
  first_pass, first_admission, Pass, Verdict, admitted, deferred, blocked, rejected, Admission,
  put_off, run_request, reject_request, apply_verdict, close_admission, is_full, admit,
  admit_waiting, is_decode, schedule_waiting, schedule,
}
use pypto_serving.Sched.Schedule.Leases.{lookup_prefix-Step, admit_leased-Admits}
use pypto_serving.Sched.Schedule.Passes.{Queues-same}
use pypto_serving.Sched.Schedule.Preempts.{schedule_all_running-Sound}

-- The state of the loop, where `todo` is what is left of the waiting queue.
pub record AdmissionOk (a : Admission) (todo : List ℕ) : Type 0 where
  pub blocks : Blocks a.scheduler.manager a.scheduler.objects a.scheduler.running_ids
  pub queues :
      Queues a.scheduler.objects a.scheduler.known a.scheduler.running_ids (a.remaining ++ todo)

-- The loop goes on, or it ends.
pub record Decides (todo : List ℕ) (r : Outcome (Bool × Admission)) : Type 0 where
  pub goes_on : Bool
  pub a' : Admission
  pub result : r ≡ returned (goes_on, a')
  pub admission : AdmissionOk a' todo

-- The request goes back to the queue, without blocks.
put_off-AdmissionOk :
    (a : Admission) (i : ℕ) (todo : List ℕ) (h' : Lease)
    → AdmissionOk a (i ∷ todo)
    → Step (rest_of a.scheduler.objects a.scheduler.running_ids i) (lease a.scheduler i) h'
    → all_block_ids h'.request ≡ []
    → AdmissionOk (put_off (record a { scheduler = put_back a.scheduler i h' }) i) todo
put_off-AdmissionOk a i todo h' v step empty =
    let s = a.scheduler in
    let split = append_empty h'.request.cached_block_ids h'.request.allocated_block_ids empty in
    record {
      blocks =
          Blocks-keep s.manager s.objects s.running_ids i h' v.queues.running_distinct v.blocks
            step.accounted step.size (λ _. split);
      queues = rw (append_assoc a.remaining (i ∷ []) todo) (
          Queues-same s.objects s.known s.running_ids (a.remaining ++ i ∷ todo) i h'.request
            step.status step.id v.queues);
    }

run_request-AdmissionOk :
    (a : Admission) (i n : ℕ) (todo : List ℕ) (h' : Lease)
    → AdmissionOk a (i ∷ todo)
    → Step (rest_of a.scheduler.objects a.scheduler.running_ids i) (lease a.scheduler i) h'
    → AdmissionOk (run_request a i n h') todo
unfolding run_request
run_request-AdmissionOk a i n todo h' v step =
    let s = a.scheduler in
    let out =
      not_running s.objects s.known s.running_ids (a.remaining ++ i ∷ todo) i v.queues
        (head-waits i a.remaining todo) in
    record {
      blocks =
          Blocks-join s.manager s.objects s.running_ids i
            (record h' { request = with_status h'.request running }) out v.blocks
            (with_status-Accounted (rest_of s.objects s.running_ids i) h' running step.accounted)
            step.size;
      queues =
          Queues-run s.objects s.known s.running_ids a.remaining todo i
            (with_status h'.request running) refl step.id v.queues;
    }

reject_request-AdmissionOk :
    (a : Admission) (i : ℕ) (rejection : Rejection) (todo : List ℕ) (h' : Lease)
    → AdmissionOk a (i ∷ todo)
    → Step (rest_of a.scheduler.objects a.scheduler.running_ids i) (lease a.scheduler i) h'
    → all_block_ids h'.request ≡ []
    → AdmissionOk (reject_request a i rejection h') todo
unfolding reject_request
reject_request-AdmissionOk a i rejection todo h' v step empty =
    let s = a.scheduler in
    let split = append_empty h'.request.cached_block_ids h'.request.allocated_block_ids empty in
    record {
      blocks =
          Blocks-keep s.manager s.objects s.running_ids i
            (record h' { request = with_status h'.request finished_aborted })
            v.queues.running_distinct v.blocks
            (with_status-Accounted (rest_of s.objects s.running_ids i) h' finished_aborted
              step.accounted)
            step.size (λ _. split);
      queues =
          Queues-reject s.objects s.known s.running_ids a.remaining todo i
            (with_status h'.request finished_aborted) step.id v.queues;
    }

not_admitted :
    (verdict : Verdict) (h' : Lease)
    → ((n : ℕ) → ¬ (verdict ≡ admitted n))
    → ((n : ℕ) × (verdict ≡ admitted n)) ⊎ (all_block_ids h'.request ≡ [])
    → all_block_ids h'.request ≡ []
not_admitted verdict h' other (inl (n, e)) = absurd (other n e)
not_admitted verdict h' other (inr empty) = empty

apply_verdict-Decides :
    (a : Admission) (i : ℕ) (todo : List ℕ) (verdict : Verdict) (h' : Lease)
    → AdmissionOk a (i ∷ todo)
    → Step (rest_of a.scheduler.objects a.scheduler.running_ids i) (lease a.scheduler i) h'
    → ((n : ℕ) × (verdict ≡ admitted n)) ⊎ (all_block_ids h'.request ≡ [])
    → Decides todo (returned (apply_verdict a i (verdict, h')))
apply_verdict-Decides a i todo (admitted n) h' v step cleared = record {
  goes_on = true;
  a' = run_request a i n h';
  result = refl;
  admission = run_request-AdmissionOk a i n todo h' v step;
}
apply_verdict-Decides a i todo deferred h' v step cleared = record {
  goes_on = true;
  a' = put_off (record a { scheduler = put_back a.scheduler i h' }) i;
  result = refl;
  admission = put_off-AdmissionOk a i todo h' v step (not_admitted deferred h' (λ n e. cc) cleared);
}
apply_verdict-Decides a i todo blocked h' v step cleared = record {
  goes_on = false;
  a' = put_off (record a { scheduler = put_back a.scheduler i h' }) i;
  result = refl;
  admission = put_off-AdmissionOk a i todo h' v step (not_admitted blocked h' (λ n e. cc) cleared);
}
apply_verdict-Decides a i todo (rejected rejection) h' v step cleared = record {
  goes_on = true;
  a' = reject_request a i rejection h';
  result = refl;
  admission =
      reject_request-AdmissionOk a i rejection todo h' v step
        (not_admitted (rejected rejection) h' (λ n e. cc) cleared);
}

closed-Sound :
    (a : Admission) (rest : List ℕ) → AdmissionOk a rest → Sound (close_admission a rest).scheduler
closed-Sound a rest v = record { blocks = v.blocks; queues = v.queues }

module _ (hash : ℕ → List ℕ → ℕ) (none_hash : ℕ) where
  admit-Decides :
      (a : Admission) (i : ℕ) (todo : List ℕ)
      → AdmissionOk a (i ∷ todo)
      → Decides todo (admit hash none_hash a i)
  unfolding admit
  admit-Decides a i todo v =
      let s = a.scheduler in
      let rest = rest_of s.objects s.running_ids i in
      let out =
        not_running s.objects s.known s.running_ids (a.remaining ++ i ∷ todo) i v.queues
          (head-waits i a.remaining todo) in
      let (cached, owned) = v.blocks.idle i out in
      let (h, found, hit) =
        lookup_prefix-Step hash none_hash rest s.config (lease s i)
          (Blocks-focus s.manager s.objects s.running_ids i v.queues.running_distinct v.blocks)
          cached owned in
      let m = admit_leased-Admits rest s.config a.token_budget h hit.accounted in
      simp (found, m.result)
        (apply_verdict-Decides a i todo m.verdict m.h' v
          (Step-trans rest (lease s i) h m.h' hit m.step) m.cleared)

  -- The loop over a waiting queue.
  admit_waiting-Sound :
      (victims todo : List ℕ) (a : Admission)
      → AdmissionOk a todo
      → (a' : Admission) × (admit_waiting hash none_hash victims todo a ≡ returned a')
        × Sound a'.scheduler
  unfolding admit_waiting
  admit_waiting-Sound victims [] a v = (close_admission a [], refl, closed-Sound a [] v)
  admit_waiting-Sound victims (i ∷ rest) a v = elim (Bool-cases (is_full a)) [
    | inl full ↦
        (close_admission a (i ∷ rest), rw (full, admit_waiting) refl, closed-Sound a (i ∷ rest) v)
    | inr room ↦ elim (Bool-cases (elem i victims)) [
      | inl victim ↦
          let again = admit_waiting-Sound victims rest (put_off a i) (record {
            blocks = v.blocks;
            queues = rw (append_assoc a.remaining (i ∷ []) rest) v.queues;
          }) in
          (again.0, rw (room, admit_waiting) (rw (victim, admit_waiting) again.1), again.2)
      | inr fresh ↦
          let d = admit-Decides a i rest v in
          elim (Bool-cases d.goes_on) [
            | inl on ↦
                let again = admit_waiting-Sound victims rest d.a' d.admission in
                (
                  again.0,
                  rw (room, admit_waiting)
                      (rw (fresh, admit_waiting) (simp (d.result, on) again.1)),
                  again.2,
                )
            | inr off ↦ (
              close_admission d.a' rest,
              rw (room, admit_waiting) (rw (fresh, admit_waiting) (simp (d.result, off) refl)),
              closed-Sound d.a' rest d.admission,
            )
          ]
    ]
  ]

  schedule_waiting-Sound :
      (phase : Option Phase) (p : Pass)
      → Sound p.scheduler
      → (out : SchedulerOutput) × (s' : Scheduler) × (schedule_waiting hash none_hash phase p
          ≡ returned (out, s'))
        × Sound s'
  unfolding schedule_waiting
  schedule_waiting-Sound phase p v = elim (Bool-cases (is_decode phase)) [
    | inl decoding ↦ (p.output, p.scheduler, simp decoding refl, v)
    | inr prefilling ↦
        let (a, result, sound) =
          admit_waiting-Sound p.output.preempted_requests p.scheduler.waiting_ids
            (first_admission p) (record { blocks = v.blocks; queues = v.queues }) in
        (a.output, a.scheduler, simp (prefilling, result) refl, sound)
  ]

  -- In a sound state of a model without cache groups a step is scheduled without an error, and the
  -- state that it leaves is sound.
  pub schedule-Sound :
      (s : Scheduler)
      → Sound s
      → (out : SchedulerOutput) × (s' : Scheduler) × (schedule hash none_hash s
          ≡ returned (out, s'))
        × Sound s'
  unfolding schedule
  schedule-Sound s v =
      let t =
        grouped_cache_phase s.config (map s.objects s.running_ids) (length s.waiting_ids)
          s.next_phase in
      let (q, result, sound) =
        schedule_all_running-Sound t.0 (first_pass s t.1) refl
          (record { blocks = v.blocks; queues = v.queues }) in
      let (out, s', done, after) = schedule_waiting-Sound t.0 q sound in
      (out, s', simp (result, done) refl, after)
