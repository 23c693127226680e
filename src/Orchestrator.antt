-- ===== src/Orchestrator.antt =====
-- apps/orchestrator/src: the launch executor.
pub mod Config
pub mod Stages
pub mod Jito
pub mod Executor
