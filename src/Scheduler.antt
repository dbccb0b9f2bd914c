-- ===== src/Scheduler.antt =====
-- internal/service/scheduler_service: the scheduler of operating-system tasks.
pub mod Model
pub mod Resources
pub mod Signals
pub mod Plan
pub mod Launch
mod Examples
