-- ===== src/Scheduler.antt =====
-- src/local_coder/scheduler and the plan loop of the coordinator that drives it.
pub mod Dag
pub mod Plan
pub mod Turn
pub mod Scopes
