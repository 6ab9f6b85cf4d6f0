-- ===== src/Sched.antt =====
-- pypto_serving/serving/sched/scheduler.py: the continuous-batching scheduler.
pub mod Request
pub mod Blocks
pub mod Config
pub mod Limits
pub mod State
pub mod Schedule
pub mod Update
pub mod Reach
pub mod Phase
pub mod Accounting
