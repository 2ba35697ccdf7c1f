-- ===== src/Gateway.antt =====
-- src/llm_router/gateway: what clients see.
pub mod Renderers
