-- ===== src/Configuration.antt =====
-- src/llm_router/config.py and canary_config.py: the configuration, its validators and what it compiles to.
pub mod Models
pub mod Validate
pub mod References
pub mod Returns
pub mod Resolves
mod Tests
