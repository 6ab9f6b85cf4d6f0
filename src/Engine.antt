-- ===== src/Engine.antt =====
-- The engine around the scheduler.
pub mod Command
