-- ===== src/Lib.antt =====
-- PyPTO Serving: the serving core of a local inference stack, pypto_serving/serving.
--
-- Parts and their interaction. The scheduler (pypto_serving/serving/sched/scheduler.py) chooses, step
-- by step, how many tokens of which requests run. It takes physical blocks for them from the cache
-- manager (pypto_serving/serving/memory/kv_cache.py), which counts references to the blocks, keeps
-- those without one in an eviction queue, and finds blocks of equal prompts through chained hashes.
-- When a step's result comes back the scheduler appends tokens, settles the counts and publishes
-- full blocks.
--
-- Files. `Cache/Queue` is `FreeKVCacheBlockQueue` with its links; `Cache/Queue/Refinement` reads it
-- as a list of distinct blocks. `Cache/Hashes` has the two hash generators, over a parameter for
-- Python's `hash`, with `Cache/Hashes/Collisions` on what equal hashes mean. `Cache/Pool` is `KvCacheManager` without cache groups: the fields of the block
-- objects are maps by block id, a method that mutates returns the new pool, and a raised error is
-- `none`. Its children prove what the methods keep (`Validity`), what an allocation takes
-- (`Allocation`), what a release gives back (`Release`) and what a prefix lookup finds (`Prefix`).
--
-- `Cache/Groups` is the grouped side of `KvCacheManager`: `Blocks` has the steps on one block, with
-- the prefix index in `Blocks/Index`, `Growth` the growth of one table (`_additional_group_blocks` and
-- the loop body of `ensure_group_blocks`), `Requests` what a request does in all groups
-- (`_select_group_partition`, `can_ensure_group_blocks`, `ensure_group_blocks`,
-- `release_all_group_requests`); a raised error is a fault, which drops the state. Of their children,
-- `Growth/Counts`, `Steps`, `Ring` and `Filling` lead to `Growth/Suffices`, and `Requests/Ensure`,
-- `Release` and `Select` treat the operations on all groups; `Snapshots` has the pins of a step's
-- tables, `Publish` the page counts and the publication in one group, `Acquire` the prefix lookup and
-- the publication over all groups, with `Acquire/Alignment` on the pages
-- that divide a hit, `Acquire/Resuming` on the pages a group needs behind one, `Acquire/Candidates` on the
-- hit of one partition and `Acquire/Hits` on the best one, and `Setup` is
-- `init_groups`. `Cache/Manager` is the manager with both sides.
--
-- `Sched/Request` and `Sched/Config` are the scheduler's data, `Sched/Limits` the token limits of a
-- step, `Sched/Phase` the rotation between prefill and decode, with `Justified`, and `Sched/Accounting` the counts of
-- one request through dispatch and result: `advance_after_schedule`, `_reconcile_async_output` and
-- the synchronous branches of `update_from_output`. `Sched/Blocks` is what the scheduler does with the
-- blocks of a request (`_try_allocate_request_blocks`, `_free_request_blocks`,
-- `_cache_completed_blocks`), and `Sched/Blocks/Accounted` the references that it keeps. `Sched/State`
-- is the scheduler with its queues: the objects that the queues and the dictionary share stand in a
-- store by their ids. `Sched/State/Sound` says which states are well formed, `Sched/State/Arrival` and
-- `Queueing` treat the operations on the queues. `Sched/Schedule` is `schedule()`, with `Passes` and
-- `Preempts` for the loop over the running requests, `Leases`, `Leaving` and `Admissions` for the loop
-- over the waiting ones. `Sched/Update` is `update_from_output` over the whole state, with `Results` and
-- `Retired` for its two halves, and `advance_after_schedule`, with `Dispatch`. `Sched/Reach` has the
-- calls of the scheduler as a step relation, and the states that they reach.
--
-- `Engine/Command` is the command that the engine sends to its worker for a step
-- (pypto_serving/serving/engine/async_engine.py, `_build_step_command`), with `Registered` on the
-- requests that it introduces and `Chunks` on the prefill chunks. `Config/Parallel` is the placement of
-- replicas on devices (pypto_serving/config/parallel.py), with `Config/Parallel/Replicas` on its groups.
--
-- `Tests` has runs and instances. `Prelude` holds what the modules share.
--
-- Bounds and fuel. Python's integers are native numbers; where the source's difference may be
-- negative the file says how the code treats it. All loops are structural: over a list, or over the
-- number of rounds left. Euclid's algorithm in `Cache/Groups/Acquire` has as many rounds as its first
-- number, which each round makes smaller.
--
-- Not modelled: the engine's queues, tasks and routing, device tensors, kernels, weights, tokenizers,
-- HTTP and the command line. Log messages and traces are left out.
mod Prelude
pub mod Cache
pub mod Sched
pub mod Engine
pub mod Config
pub mod Tests
