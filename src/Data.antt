-- ===== src/Data.antt =====
-- The data layer of mcm/model_cache_manager/data.
pub mod Rows
pub mod Upsert
pub mod Search
pub mod Duplicates
