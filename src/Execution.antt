-- ===== src/Execution.antt =====
-- src/llm_router/execution: the attempts of an execution plan.
pub mod Failures
pub mod Sse
pub mod Accumulator
pub mod Completion
pub mod Relay
pub mod Attempt
pub mod Invoke
pub mod Engine
pub mod Execute
pub mod Calls
mod Tests
