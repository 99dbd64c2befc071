-- ===== src/Cache.antt =====
-- The cache on disk: mcm/model_cache_manager/utils/utils.py and data/cache_repo.py.
pub mod Disk
pub mod Paths
pub mod Identifier
pub mod Mode
pub mod Deletion
