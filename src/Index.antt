-- ===== src/Index.antt =====
-- Indexing a cache directory: data/cache_repo.py, data/kernel_validator.py, plugins/*.py and
-- services/index.py.
pub mod Files
pub mod Validator
pub mod Repository
pub mod Plugins
pub mod Service
