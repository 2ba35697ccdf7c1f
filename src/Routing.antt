-- ===== src/Routing.antt =====
-- src/llm_router/routing: the choice of an execution plan for a request.
pub mod Policy
pub mod Kernel
pub mod Plan
pub mod Session
pub mod Canary
pub mod Compile
pub mod Candidate
pub mod Catalog
pub mod Startup
pub mod Resolve
pub mod Samples
mod Tests
