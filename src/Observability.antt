-- ===== src/Observability.antt =====
-- src/llm_router/observability: what is known of a finished request.
pub mod Models
pub mod Usage
pub mod Pricing
mod Tests
