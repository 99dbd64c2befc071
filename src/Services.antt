-- ===== src/Services.antt =====
-- The services of mcm/model_cache_manager/services.
pub mod Session
pub mod Warm
pub mod Strategy
pub mod Prune
pub mod Deduplicate
