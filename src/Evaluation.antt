-- ===== src/Evaluation.antt =====
-- src/llm_router/evaluation: the persisted decisions, their replay and the online shadow.
pub mod Codec
pub mod Decoded
pub mod Policies
pub mod Requests
pub mod Changes
pub mod Replay
pub mod Shadow
mod Tests
