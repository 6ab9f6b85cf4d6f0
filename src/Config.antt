-- ===== src/Config.antt =====
-- The configuration of a deployment.
pub mod Parallel
