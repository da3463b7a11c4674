-- ===== src/Core.antt =====
-- core/: the automation engine.
pub mod Event
pub mod Cache
pub mod State
pub mod Policy
pub mod Pending
pub mod Condition
pub mod Scheduler
pub mod Trigger
pub mod Automation
pub mod Registry
pub mod Registration
pub mod Lifecycle
