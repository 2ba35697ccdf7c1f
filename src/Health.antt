-- ===== src/Health.antt =====
-- src/llm_router/health: the failure-domain state machine behind routing and execution.
pub mod Models
pub mod Disabled
pub mod DomainRecord
pub mod Coordinator
pub mod Availability
pub mod Snapshots
pub mod Admission
pub mod Outcome
pub mod Invariant
pub mod History
mod Tests
