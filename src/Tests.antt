-- ===== src/Tests.antt =====
-- Runs of the models on small inputs, and the theorems at inputs that meet their hypotheses.
mod Cache
mod Config
mod Engine
mod Groups
mod Loop
mod Sched
