-- ===== src/Engine/Command.antt =====
-- async_engine.py, `_build_step_command`, with the messages of ipc.py that it fills. A request's
-- sampling parameters, which are passed on unchanged, are left out. The placeholder token is `none`.
pub mod Registered
pub mod Chunks
use pypto_serving.Prelude.{
  ℕ, ◌+◌, ◌<◌, Bool, true, false, not, Option, none, some, List, [], ◌∷◌, ◌++◌, ltb, ◌==◌, elem,
  select, take, drop, get_last?, if◌then◌else◌, Outcome, returned, raised, index_error, ◌>>=◌,
  fold_outcome,
}
use pypto_serving.Sched.Request.{Request, ScheduledRequest}

-- The prompt of a request that the worker has not seen.
pub record NewRequestData : Type 0 where
  pub request_id : ℕ
  pub prompt_token_ids : List ℕ

pub record PrefillRequest : Type 0 where
  pub request_id : ℕ
  pub chunk_tokens : List ℕ
  pub num_computed_tokens : ℕ
  pub block_ids : List ℕ
  pub block_ids_by_group : List (List ℕ)
  pub cache_partition : Option ℕ

pub record DecodeRequest : Type 0 where
  pub request_id : ℕ
  pub last_token : Option ℕ
  pub seq_len : ℕ
  pub block_ids : List ℕ
  pub block_ids_by_group : List (List ℕ)
  pub cache_partition : Option ℕ

pub record StepCommand : Type 0 where
  pub new_requests : List NewRequestData
  pub prefill_requests : List PrefillRequest
  pub decode_requests : List DecodeRequest
  pub finished_request_ids : List ℕ
  pub step_id : ℕ

-- The command so far, and `_worker_known_req_ids`.
pub record Building : Type 0 where
  pub known : List ℕ
  pub command : StepCommand

-- The slice of the prompt that a prefill chunk covers.
unfoldable pub chunk_of : Request → ScheduledRequest → List ℕ
chunk_of r x = take x.num_new_tokens (drop x.num_computed_tokens r.prompt_token_ids)

abbrev pub prefill_request : Request → ScheduledRequest → PrefillRequest
prefill_request r x = record {
  request_id = x.request_id;
  chunk_tokens = chunk_of r x;
  num_computed_tokens = x.num_computed_tokens;
  block_ids = x.block_ids;
  block_ids_by_group = x.block_ids_by_group;
  cache_partition = x.cache_partition;
}

-- The token in flight is a placeholder, which the worker replaces.
unfoldable pub last_token : Request → Outcome (Option ℕ)
last_token r =
    if ltb 0 r.num_output_placeholders then returned none else elim (get_last? r.output_token_ids) [
      | some token ↦ returned (some token)
      | none ↦ elim (get_last? r.prompt_token_ids) [
        | some token ↦ returned (some token)
        | none ↦ raised index_error
      ]
    ]

abbrev pub decode_request : Option ℕ → ScheduledRequest → DecodeRequest
decode_request token x = record {
  request_id = x.request_id;
  last_token = token;
  seq_len = x.num_computed_tokens + x.num_new_tokens;
  block_ids = x.block_ids;
  block_ids_by_group = x.block_ids_by_group;
  cache_partition = x.cache_partition;
}

-- The first step of a request carries its prompt.
unfoldable pub register : (ℕ → Request) → Building → ℕ → Building
register objects b request_id = if elem request_id b.known then b else record {
  known = b.known ++ request_id ∷ [];
  command = record b.command {
    new_requests =
        b.command.new_requests
        ++ record {
          request_id = request_id;
          prompt_token_ids = (objects request_id).prompt_token_ids;
        }
          ∷ [];
  };
}

abbrev pub with_prefill : Building → PrefillRequest → Building
with_prefill b p = record b {
  command = record b.command { prefill_requests = b.command.prefill_requests ++ p ∷ [] };
}

abbrev pub with_decode : Building → DecodeRequest → Building
with_decode b d = record b {
  command = record b.command { decode_requests = b.command.decode_requests ++ d ∷ [] };
}

unfoldable pub add_entry : (ℕ → Request) → Building → ScheduledRequest → Outcome Building
add_entry objects b x =
    let r = objects x.request_id in
    let b' = register objects b x.request_id in
    if x.prefill
    then returned (with_prefill b' (prefill_request r x))
    else last_token r >>= λ token. returned (with_decode b' (decode_request token x))

-- A request that was released starts anew for the worker.
abbrev pub still_known : List ℕ → List ℕ → List ℕ
still_known known finished_ids = select (λ i. not (elem i finished_ids)) known

unfoldable pub build_step_command :
    (ℕ → Request) → List ℕ → List ScheduledRequest → List ℕ → ℕ → Outcome Building
build_step_command objects known scheduled finished_ids step_id =
    fold_outcome (add_entry objects)
      (record {
        known = still_known known finished_ids;
        command = record {
          new_requests = [];
          prefill_requests = [];
          decode_requests = [];
          finished_request_ids = finished_ids;
          step_id = step_id;
        };
      })
      scheduled
